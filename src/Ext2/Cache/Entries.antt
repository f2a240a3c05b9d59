-- ===== src/Ext2/Cache/Entries.antt =====
-- The entries of the cache as a map from block numbers.
use nibras_os.Prelude.{
  ℕ, zero, suc, ◌+◌, ◌≡◌, refl, ◌≢◌, ◌⊎◌, inl, inr, Option, none, some, List, [], ◌∷◌, arith, ap,
  sym, ◌∙◌, if◌then◌else◌, ◌==◌, ltb, get_elem?, set, ne→==, eq→==, ==→eq, Bool-cases,
}
use nibras_os.Ext2.Cache.{Entry, hit, miss, find_entry}

module _ {S : Type 0} where
  -- What the cache holds for block `b`.
  unfoldable pub cached : List (Entry S) → ℕ → Option (List S)
  cached [] b = none
  cached (e ∷ es) b = if e.block_no == b then some e.block else cached es b

  -- No block has two entries. An entry that was never filled has block number 0.
  abbrev pub Distinct : List (Entry S) → Type 0
  Distinct [] = Unit {0}
  Distinct (e ∷ es) = (e.block_no ≢ 0 → cached es e.block_no ≡ none) × Distinct es

  pub cached_self :
      (es : List (Entry S)) (i : ℕ) (e : Entry S)
      → Distinct es
      → get_elem? es i ≡ some e
      → e.block_no ≢ 0
      → cached es e.block_no ≡ some e.block
  unfolding cached
  cached_self [] i e d h ne = cc
  cached_self (x ∷ es) zero e d h ne =
      let x' : x ≡ e = cc in rw x' (rw (eq→== e.block_no e.block_no refl) refl)
  cached_self (x ∷ es) (suc i) e d h ne = elim (Bool-cases (x.block_no == e.block_no)) [
    | inl same ↦
        let same' : x.block_no ≡ e.block_no = ==→eq x.block_no e.block_no same in
        let gone : cached es e.block_no ≡ none = rw same' at (d.0 (λ z. ne (sym same' ∙ z))) in
        let there = cached_self es i e d.1 h ne in cc
    | inr other ↦ rw other (cached_self es i e d.1 h ne)
  ]

  pub cached-set_other :
      (es : List (Entry S)) (i : ℕ) (e e' : Entry S) (b : ℕ)
      → get_elem? es i ≡ some e
      → b ≢ e.block_no
      → b ≢ e'.block_no
      → cached (set es i e') b ≡ cached es b
  unfolding cached
  cached-set_other [] i e e' b h ne ne' = refl
  cached-set_other (x ∷ es) zero e e' b h ne ne' =
      let x' : x ≡ e = cc in
      rw (x', ne→== e'.block_no b (λ z. ne' (sym z)), ne→== e.block_no b (λ z. ne (sym z))) refl
  cached-set_other (x ∷ es) (suc i) e e' b h ne ne' =
      rw (cached-set_other es i e e' b h ne ne') refl

  pub cached-set_gone :
      (es : List (Entry S)) (i : ℕ) (e e' : Entry S)
      → Distinct es
      → get_elem? es i ≡ some e
      → e.block_no ≢ 0
      → e.block_no ≢ e'.block_no
      → cached (set es i e') e.block_no ≡ none
  unfolding cached
  cached-set_gone [] i e e' d h ne ne' = refl
  cached-set_gone (x ∷ es) zero e e' d h ne ne' =
      let x' : x ≡ e = cc in
      let gone : cached es e.block_no ≡ none =
        rw x' at (d.0 (λ z. ne (ap (λ (y : Entry S). y.block_no) (sym x') ∙ z))) in
      rw (ne→== e'.block_no e.block_no (λ z. ne' (sym z))) gone
  cached-set_gone (x ∷ es) (suc i) e e' d h ne ne' = elim (Bool-cases (x.block_no == e.block_no)) [
    | inl same ↦
        let same' : x.block_no ≡ e.block_no = ==→eq x.block_no e.block_no same in
        let gone : cached es e.block_no ≡ none = rw same' at (d.0 (λ z. ne (sym same' ∙ z))) in
        let there = cached_self es i e d.1 h ne in cc
    | inr other ↦ rw other (cached-set_gone es i e e' d.1 h ne ne')
  ]

  -- A new entry for a block that has none, or that its own place had.
  abbrev pub Fresh : List (Entry S) → Entry S → Entry S → Type 0
  Fresh es e e' = (cached es e'.block_no ≡ none) ⊎ (e'.block_no ≡ e.block_no)

  Fresh-tail :
      (x : Entry S) (es : List (Entry S)) (e e' : Entry S)
      → x.block_no ≢ e'.block_no
      → Fresh (x ∷ es) e e'
      → Fresh es e e'
  unfolding cached
  Fresh-tail x es e e' ne (inl f) = inl (rw (ne→== x.block_no e'.block_no ne) at f)
  Fresh-tail x es e e' ne (inr f) = inr f

  -- The head of the list holds another block than the new entry.
  head_differs :
      (x : Entry S) (es : List (Entry S)) (i : ℕ) (e e' : Entry S)
      → Distinct (x ∷ es)
      → get_elem? es i ≡ some e
      → e'.block_no ≢ 0
      → Fresh (x ∷ es) e e'
      → x.block_no ≢ e'.block_no
  unfolding cached
  head_differs x es i e e' d h ne (inl f) z =
      let f' : some x.block ≡ none = rw (eq→== x.block_no e'.block_no z) at f in cc
  head_differs x es i e e' d h ne (inr f) z =
      let same : x.block_no ≡ e.block_no = z ∙ f in
      let gone : cached es e.block_no ≡ none = rw same at (d.0 (λ y. ne (sym z ∙ y))) in
      let there = cached_self es i e d.1 h (λ y. ne (f ∙ y)) in cc

  pub cached-set_new :
      (es : List (Entry S)) (i : ℕ) (e e' : Entry S)
      → Distinct es
      → get_elem? es i ≡ some e
      → e'.block_no ≢ 0
      → Fresh es e e'
      → cached (set es i e') e'.block_no ≡ some e'.block
  unfolding cached
  cached-set_new [] i e e' d h ne f = cc
  cached-set_new (x ∷ es) zero e e' d h ne f = rw (eq→== e'.block_no e'.block_no refl) refl
  cached-set_new (x ∷ es) (suc i) e e' d h ne f =
      let other = head_differs x es i e e' d h ne f in
      rw (ne→== x.block_no e'.block_no other)
        (cached-set_new es i e e' d.1 h ne (Fresh-tail x es e e' other f))

  -- The head of the list holds another block than each entry behind it.
  absent :
      (x : Entry S) (es : List (Entry S)) (i : ℕ) (e : Entry S)
      → Distinct (x ∷ es)
      → get_elem? es i ≡ some e
      → e.block_no ≢ 0
      → x.block_no ≢ e.block_no
  absent x es i e d h ne z =
      let gone : cached es e.block_no ≡ none = rw z at (d.0 (λ y. ne (sym z ∙ y))) in
      let there = cached_self es i e d.1 h ne in cc

  pub Distinct-set :
      (es : List (Entry S)) (i : ℕ) (e e' : Entry S)
      → Distinct es
      → get_elem? es i ≡ some e
      → (e'.block_no ≢ 0 → Fresh es e e')
      → Distinct (set es i e')
  unfolding cached
  Distinct-set [] i e e' d h f = d
  Distinct-set (x ∷ es) zero e e' d h f = (
    (λ ne. elim (f ne) [
      | inl none_yet ↦ elim (Bool-cases (x.block_no == e'.block_no)) [
        | inl same ↦ let bad : some x.block ≡ none = rw same at none_yet in cc
        | inr other ↦ rw other at none_yet
      ]
      | inr same ↦
          let x' : x ≡ e = cc in
          let q : e'.block_no ≡ x.block_no = same ∙ ap (λ (y : Entry S). y.block_no) (sym x') in
          rw q (d.0 (λ z. ne (q ∙ z)))
    ]),
    d.1,
  )
  Distinct-set (x ∷ es) (suc i) e e' d h f =
      (keep_head, Distinct-set es i e e' d.1 h (λ ne. Fresh-tail x es e e' (apart ne) (f ne)))
    where
      apart : e'.block_no ≢ 0 → x.block_no ≢ e'.block_no
      apart ne = head_differs x es i e e' d h ne (f ne)

      keep_head : x.block_no ≢ 0 → cached (set es i e') x.block_no ≡ none
      keep_head ne =
          let away : x.block_no ≢ e.block_no = λ z. absent x es i e d h (λ y. ne (z ∙ y)) z in
          cached-set_other es i e e' x.block_no h away (λ z. apart (λ y. ne (z ∙ y)) z) ∙ d.0 ne

  -- Two entries of the list hold different blocks.
  pub blocks_ne :
      (es : List (Entry S)) (i j : ℕ) (e e' : Entry S)
      → Distinct es
      → get_elem? es i ≡ some e
      → get_elem? es j ≡ some e'
      → i ≢ j
      → e.block_no ≢ 0
      → e'.block_no ≢ e.block_no
  blocks_ne [] i j e e' d h h' ne pos z = cc
  blocks_ne (x ∷ es) zero zero e e' d h h' ne pos z = absurd (ne refl)
  blocks_ne (x ∷ es) zero (suc j) e e' d h h' ne pos z =
      let x' : x ≡ e = cc in
      let q : x.block_no ≡ e.block_no = ap (λ (y : Entry S). y.block_no) x' in
      absent x es j e' d h' (λ y. pos (sym z ∙ y)) (q ∙ sym z)
  blocks_ne (x ∷ es) (suc i) zero e e' d h h' ne pos z =
      let x' : x ≡ e' = cc in
      let q : x.block_no ≡ e'.block_no = ap (λ (y : Entry S). y.block_no) x' in
      absent x es i e d h pos (q ∙ z)
  blocks_ne (x ∷ es) (suc i) (suc j) e e' d h h' ne pos z =
      blocks_ne es i j e e' d.1 h h' (λ y. ne (ap suc y)) pos z

  -- What the loop over the cache stops at.
  pub find_entry-hit :
      (k : ℕ) (es : List (Entry S)) (b : ℕ) (oldest : Option ℕ) (age i : ℕ)
      → find_entry k es b oldest age ≡ hit i
      → (j : ℕ) × (e : Entry S) × (i ≡ k + j) × (get_elem? es j ≡ some e) × (e.block_no ≡ b)
  unfolding find_entry
  find_entry-hit k [] b oldest age i h = cc
  find_entry-hit k (e ∷ es) b oldest age i h = elim (Bool-cases (e.block_no == b)) [
    | inl same ↦
        let h' : hit k ≡ hit i = rw same at h in
        let k' : k ≡ i = cc in (0, e, omega arith, refl, ==→eq e.block_no b same)
    | inr other ↦
        let (j, e', q, g, z) =
          find_entry-hit (k + 1) es b (if ltb e.last_use age then some k else oldest)
            (if ltb e.last_use age then e.last_use else age) i (rw other at h) in
        (suc j, e', omega arith, g, z)
  ]

  pub find_entry-miss :
      (k : ℕ) (es : List (Entry S)) (b : ℕ) (oldest : Option ℕ) (age : ℕ) (r : Option ℕ)
      → find_entry k es b oldest age ≡ miss r
      → (cached es b ≡ none)
        × ((i : ℕ)
            → r ≡ some i
            → (oldest ≡ some i)
              ⊎ ((j : ℕ) × (e : Entry S) × (i ≡ k + j) × (get_elem? es j ≡ some e)))
  unfolding find_entry cached
  find_entry-miss k [] b oldest age r h = (refl, (λ i q. inl (cc)))
  find_entry-miss k (e ∷ es) b oldest age r h = elim (Bool-cases (e.block_no == b)) [
    | inl same ↦ let h' : hit k ≡ miss r = rw same at h in cc
    | inr other ↦
        let (gone, old) =
          find_entry-miss (k + 1) es b (if ltb e.last_use age then some k else oldest)
            (if ltb e.last_use age then e.last_use else age) r (rw other at h) in
        (rw other gone, (λ i q. step i (old i q)))
  ]
    where
      step :
          (i : ℕ)
          → ((if ltb e.last_use age then some k else oldest) ≡ some i)
            ⊎ ((j : ℕ) × (e' : Entry S) × (i ≡ (k + 1) + j) × (get_elem? es j ≡ some e'))
          → (oldest ≡ some i)
            ⊎ ((j : ℕ) × (e' : Entry S) × (i ≡ k + j) × (get_elem? (e ∷ es) j ≡ some e'))
      step i (inl q) = elim (Bool-cases (ltb e.last_use age)) [
        | inl younger ↦
            let q' : some k ≡ some i = rw younger at q in
            let k' : k ≡ i = cc in inr (0, e, omega arith, refl)
        | inr not_younger ↦ inl (rw not_younger at q)
      ]
      step i (inr (j, e', q, g)) = inr (suc j, e', omega arith, g)
