-- ===== src/KHeap/Steps.antt =====
-- What `ksplit` and `kmerge` of src/kheap.c do to the segments of the heap.
use nibras_os.Prelude.{
  ℕ, ◌+◌, ◌-◌, ◌*◌, ◌<◌, ◌≡◌, refl, ◌≢◌, inl, inr, Bool, true, false, ◌&&◌, not, List, [], ◌∷◌,
  ◌++◌, arith, if◌then◌else◌, ◌==◌, ltb, ne→==, eq→==, ==→eq, Bool-cases, ap, sym, ◌∙◌,
}
use mathlib.Core.Path.{subst}
use nibras_os.KHeap.{Chunk, state_free, state_used, kunit, put, kmerge, ksplit, split_for}
use nibras_os.KHeap.Chunks.{put_self, put-ne, ksplit-Split}
use nibras_os.KHeap.Tiling.{
  Segment, header, first_of, Tiles, taken, merge_first, Tiles-frame, Tiles-follow,
}

-- What a change of the header behind, when there is one, is at each address.
abbrev relinked : (ℕ → Chunk) → ℕ → ℕ → ℕ → Chunk
relinked chunks next n x =
    if not (next == 0) && x == next then record (chunks x) { prev = n } else chunks x

module _ (chunks : ℕ → Chunk) (n : ℕ) where
  relinked_first :
      (a : ℕ) (xs : List Segment)
      → 0 < a
      → first_of a xs 0 ≢ 0
      → relinked chunks (first_of a xs 0) n a ≡ record (chunks a) { prev = n }
  relinked_first a [] pos ne = absurd (ne refl)
  relinked_first a (x ∷ xs) pos ne = rw (ne→== a 0 (omega arith), eq→== a a refl) refl

  relinked_other :
      (a x : ℕ) (xs : List Segment) → x ≢ a → relinked chunks (first_of a xs 0) n x ≡ chunks x
  relinked_other a x [] ne = refl
  relinked_other a x (s ∷ xs) ne = elim (Bool-cases (a == 0)) [
    | inl z ↦ rw z refl
    | inr z ↦ rw (z, ne→== x a ne) refl
  ]

  relinked_ne : (next x : ℕ) → x ≢ next → relinked chunks next n x ≡ chunks x
  relinked_ne next x ne = elim (Bool-cases (next == 0)) [
    | inl z ↦ rw z refl
    | inr z ↦ rw (z, ne→== x next ne) refl
  ]

  put-relinked :
      (next x : ℕ)
      → (if next == 0 then chunks else put chunks next (record (chunks next) { prev = n })) x
        ≡ relinked chunks next n x
  unfolding put
  put-relinked next x = elim (Bool-cases (next == 0)) [
    | inl z ↦ rw z refl
    | inr z ↦ elim (Bool-cases (x == next)) [
      | inl q ↦ rw (z, q, ==→eq x next q) refl
      | inr q ↦ rw (z, q) refl
    ]
  ]

first_of-ne : (a b : ℕ) (xs : List Segment) → a ≢ b → 0 ≢ b → first_of a xs 0 ≢ b
first_of-ne a b [] ne nz = nz
first_of-ne a b (x ∷ xs) ne nz = ne

-- After a split the segment is the wanted one and the rest, which is free; what stands before it is as it
-- was.
ksplit-Tiles :
    (chunks : ℕ → Chunk) (p c l size : ℕ) (ys : List Segment)
    → 0 < c
    → 0 < size
    → size < l
    → Tiles chunks p c ((false, l) ∷ ys) 0
    → Tiles (ksplit chunks c size) p c ((false, size) ∷ (false, l - size) ∷ ys) 0
      × ((x : ℕ) → x < c → ksplit chunks c size x ≡ chunks x)
ksplit-Tiles chunks p c l size ys pos some_size less (e, _, w) =
    let n = c + size in
    let next : (chunks c).next ≡ first_of (c + l) ys 0 = ap (λ (t : Chunk). t.next) e in
    let (at_c, at_n, others) =
      ksplit-Split chunks c size (omega arith)
        (rw next (first_of-ne (c + l) c ys (omega arith) (omega arith)))
        (rw next (first_of-ne (c + l) n ys (omega arith) (omega arith))) in
    let others' : (x : ℕ)
        → x ≢ c
        → x ≢ n
        → ksplit chunks c size x ≡ relinked chunks (first_of (c + l) ys 0) n x =
      λ x xc xn. others x xc xn ∙ ap (λ (m : ℕ). relinked chunks m n x) next in
    let back : n + (l - size) ≡ c + l = omega arith in
    (
      (
        at_c ∙ ap (λ (t : Chunk). record t { next = n; length = size }) e,
        some_size,
        (
          at_n
              ∙ ap
                  (λ (t : Chunk). record {
                    state = state_free;
                    length = t.length - size;
                    next = t.next;
                    prev = c;
                  })
                  e
              ∙ ap (λ (m : ℕ). header (false, l - size) (first_of m ys 0) c) (sym back),
          omega arith,
          rw back (
              Tiles-follow chunks (ksplit chunks c size) c n (c + l) 0 ys
                (λ ne.
                  others' (c + l) (omega arith) (omega arith)
                  ∙ relinked_first chunks n (c + l) ys (omega arith) ne)
                (λ x hx.
                  others' x (omega arith) (omega arith)
                  ∙ relinked_other chunks n (c + l) x ys (omega arith))
                (omega arith) w),
        ),
      ),
      λ x hx.
          others' x (omega arith) (omega arith)
          ∙ relinked_other chunks n (c + l) x ys (omega arith),
    )

abbrev splits : ℕ → ℕ → Bool
splits size l = ltb size l && ltb (2 * kunit) (l - size)

split_for-split :
    (chunks : ℕ → Chunk) (c l size : ℕ)
    → (chunks c).length ≡ l
    → splits size l ≡ true
    → split_for chunks c size ≡ ksplit chunks c size
unfolding split_for
split_for-split chunks c l size e q = rw (e, q) refl

split_for-whole :
    (chunks : ℕ → Chunk) (c l size : ℕ)
    → (chunks c).length ≡ l
    → splits size l ≡ false
    → split_for chunks c size ≡ chunks
unfolding split_for
split_for-whole chunks c l size e q = rw (e, q) refl

abbrev used_header : Chunk → Chunk
used_header t = record t { state = state_used }

use_first-Tiles :
    (chunks : ℕ → Chunk) (p c l : ℕ) (ys : List Segment)
    → Tiles chunks p c ((false, l) ∷ ys) 0
    → Tiles (put chunks c (used_header (chunks c))) p c ((true, l) ∷ ys) 0
use_first-Tiles chunks p c l ys (e, pos_l, w) =
    let chunks' = put chunks c (used_header (chunks c)) in
    (
      put_self chunks c (used_header (chunks c)) ∙ ap used_header e,
      pos_l,
      Tiles-frame chunks chunks' c (c + l) 0 ys
          (λ x lo hi. put-ne chunks c x (used_header (chunks c)) (omega arith)) w,
    )

-- What `take_chunk` does to the list: a split when enough is left, and the first part becomes used.
pub take-Tiles :
    (chunks : ℕ → Chunk) (p c l size : ℕ) (ys : List Segment)
    → 0 < c
    → 0 < size
    → Tiles chunks p c ((false, l) ∷ ys) 0
    → (chunks' : ℕ → Chunk) × (put
          (split_for chunks c size)
          c
          (used_header (split_for chunks c size c))
        ≡ chunks')
      × Tiles chunks' p c (taken size l ++ ys) 0
      × ((x : ℕ) → x < c → chunks' x ≡ chunks x)
take-Tiles chunks p c l size ys pos some_size w =
    let len : (chunks c).length ≡ l = ap (λ (t : Chunk). t.length) (w.0) in
    let mark = λ (t : ℕ → Chunk). put t c (used_header (t c)) in
    elim (Bool-cases (splits size l)) [
      | inl q ↦
          let (w1, same) = ksplit-Tiles chunks p c l size ys pos some_size (ground arith) w in
          let split = ksplit chunks c size in
          rw q (
            mark split,
            ap mark (split_for-split chunks c l size len q),
            use_first-Tiles split p c size ((false, l - size) ∷ ys) w1,
            λ x hx. put-ne split c x (used_header (split c)) (omega arith) ∙ same x hx,
          )
      | inr q ↦ rw q (
        mark chunks,
        ap mark (split_for-whole chunks c l size len q),
        use_first-Tiles chunks p c l ys w,
        λ x hx. put-ne chunks c x (used_header (chunks c)) (omega arith),
      )
    ]

abbrev mergeable : (ℕ → Chunk) → ℕ → Bool
mergeable chunks c =
    not (c == 0)
    && (chunks c).state == state_free
    && not ((chunks c).next == 0)
    && (chunks ((chunks c).next)).state == state_free

kmerge_not : (chunks : ℕ → Chunk) (c : ℕ) → mergeable chunks c ≡ false → kmerge chunks c ≡ chunks
unfolding kmerge
kmerge_not chunks c q = rw q refl

module _ (chunks : ℕ → Chunk) (c next after : ℕ) (q : mergeable chunks c ≡ true)
    (is_next : (chunks c).next ≡ next) (is_after : (chunks next).next ≡ after) where
  abbrev grow : Chunk → Chunk
  grow t = record t { length = (chunks c).length + (chunks next).length; next = after }

  abbrev told : ℕ → Chunk
  told = if after == 0 then chunks else put chunks after (record (chunks after) { prev = c })

  kmerge_shape : kmerge chunks c ≡ put told c (grow (told c))
  unfolding kmerge
  kmerge_shape = rw q (rw (is_next, is_after) refl)

  kmerge_self : after ≢ c → kmerge chunks c c ≡ grow (chunks c)
  kmerge_self ne =
      ap (λ (t : ℕ → Chunk). t c) kmerge_shape
      ∙ put_self told c (grow (told c))
      ∙ ap grow (put-relinked chunks c after c ∙ relinked_ne chunks c after c (λ h. ne (sym h)))

  kmerge_other : (x : ℕ) → x ≢ c → kmerge chunks c x ≡ relinked chunks after c x
  kmerge_other x ne =
      ap (λ (t : ℕ → Chunk). t x) kmerge_shape
      ∙ put-ne told c x (grow (told c)) ne
      ∙ put-relinked chunks c after x

unmerged-Tiles :
    (chunks : ℕ → Chunk) (p c : ℕ) (xs : List Segment)
    → Tiles chunks p c xs 0
    → mergeable chunks c ≡ false
    → Tiles (kmerge chunks c) p c xs 0 × ((x : ℕ) → x < c → kmerge chunks c x ≡ chunks x)
unmerged-Tiles chunks p c xs w q =
    subst (λ (t : ℕ → Chunk). Tiles t p c xs 0 × ((x : ℕ) → x < c → t x ≡ chunks x))
      (sym (kmerge_not chunks c q)) (w, λ x hx. refl)

-- Merging at a segment takes in the one behind it when both are free; what stands before is as it was.
pub kmerge-Tiles :
    (chunks : ℕ → Chunk) (p c : ℕ) (s : Segment) (xs : List Segment)
    → 0 < c
    → Tiles chunks p c (s ∷ xs) 0
    → Tiles (kmerge chunks c) p c (merge_first (s ∷ xs)) 0
      × ((x : ℕ) → x < c → kmerge chunks c x ≡ chunks x)
kmerge-Tiles chunks p c (true, l) xs pos w =
    unmerged-Tiles chunks p c ((true, l) ∷ xs) w (rw (w.0, ne→== c 0 (omega arith)) refl)
kmerge-Tiles chunks p c (false, l) [] pos w =
    unmerged-Tiles chunks p c ((false, l) ∷ []) w (rw (w.0, ne→== c 0 (omega arith)) refl)
kmerge-Tiles chunks p c (false, l) ((true, m) ∷ xs) pos w =
    unmerged-Tiles chunks p c ((false, l) ∷ (true, m) ∷ xs) w
      (rw (w.0, w.2.0, ne→== c 0 (omega arith), ne→== (c + l) 0 (omega arith)) refl)
kmerge-Tiles chunks p c (false, l) ((false, m) ∷ xs) pos (e, pos_l, (e1, pos_m, w)) =
    let q : mergeable chunks c ≡ true =
      rw (e, e1, ne→== c 0 (omega arith), ne→== (c + l) 0 (omega arith)) refl in
    let is_next = ap (λ (t : Chunk). t.next) e in
    let is_after = ap (λ (t : Chunk). t.next) e1 in
    let after = first_of (c + l + m) xs 0 in
    let other = kmerge_other chunks c (c + l) after q is_next is_after in
    let place : c + l + m ≡ c + (l + m) = omega arith in
    (
      (
        kmerge_self chunks c (c + l) after q is_next is_after
              (first_of-ne (c + l + m) c xs (omega arith) (omega arith))
            ∙ rw (sym place, e, e1) refl,
        omega arith,
        rw (sym place) (
            Tiles-follow chunks (kmerge chunks c) (c + l) c (c + l + m) 0 xs
              (λ ne.
                other (c + l + m) (omega arith)
                ∙ relinked_first chunks c (c + l + m) xs (omega arith) ne)
              (λ x hx.
                other x (omega arith) ∙ relinked_other chunks c (c + l + m) x xs (omega arith))
              (omega arith) w),
      ),
      λ x hx. other x (omega arith) ∙ relinked_other chunks c (c + l + m) x xs (omega arith),
    )
