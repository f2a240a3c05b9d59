-- ===== src/Ext2/Cache/Coherent.antt =====
-- The contents of the blocks as the cache and the disk together give them, and what it takes for a
-- change of one entry to keep them.
use nibras_os.Prelude.{
  ℕ, ◌+◌, ◌*◌, ◌≤◌, ◌<◌, ◌≡◌, refl, ◌≢◌, ◌⊎◌, inl, inr, true, false, Option, none, some, List,
  arith, ap, sym, ◌∙◌, ◌==◌, Bool-cases, ==→eq, get_elem?, set, length, get_elem?-set_self,
  get_elem?-set_ne, get_elem?-lt, ltb, ltb→lt,
}
use mathlib.Core.Path.{subst}
use nibras_os.Ext2.Cache.{lba_mod, Entry, Cache, btos, read_sectors, write_sectors, flush_entry}
use nibras_os.Ext2.Cache.Sectors.{write_sectors-other, read_sectors-eq, read_sectors-write_sectors}
use nibras_os.Ext2.Cache.Entries.{
  cached, Distinct, Fresh, cached_self, cached-set_other, cached-set_gone, cached-set_new,
  Distinct-set, blocks_ne,
}

-- A row of `k` behind another row of `k`.
row_lt : (a b k : ℕ) → a < b → a * k + k ≤ b * k
row_lt a b k h = grind arith

module _ {S : Type 0} where
  -- The block's sector numbers have 28 bits.
  abbrev pub Fits : Cache S → ℕ → Type 0
  Fits c b = c.ext2_offset + b * c.per_block + c.per_block ≤ lba_mod

  abbrev pub on_disk : Cache S → (ℕ → S) → ℕ → List S
  on_disk c disk b = read_sectors c.per_block (btos c b) disk

  abbrev pub or_else : Option (List S) → List S → List S
  or_else none d = d
  or_else (some x) d = x

  -- What block `b` holds for a client: the cached copy, or else the disk's.
  abbrev pub view : Cache S → ℕ → List S
  view c b = or_else (cached c.entries b) (on_disk c c.disk b)

  pub record IsCoherent (c : Cache S) : Type 0 where
    pub present : c.present ≡ true
    pub distinct : Distinct c.entries
    pub sized :
        (i : ℕ) (e : Entry S) → get_elem? c.entries i ≡ some e → length e.block ≡ c.per_block
    pub fits : (i : ℕ) (e : Entry S) → get_elem? c.entries i ≡ some e → Fits c e.block_no
    pub clean :
        (i : ℕ) (e : Entry S)
        → get_elem? c.entries i ≡ some e
        → e.block_no ≢ 0
        → e.dirty ≡ false
        → on_disk c c.disk e.block_no ≡ e.block

  btos-fits : (c : Cache S) (b : ℕ) → Fits c b → btos c b + c.per_block ≤ lba_mod
  unfolding btos
  btos-fits c b h = h

  -- Two blocks that fit have no sector in common.
  pub apart :
      (c : Cache S) (b b' a : ℕ)
      → b ≢ b'
      → btos c b ≤ a
      → a < btos c b + c.per_block
      → (a < btos c b') ⊎ (btos c b' + c.per_block ≤ a)
  unfolding btos
  apart c b b' a ne lo hi = elim (Bool-cases (ltb b b')) [
    | inl less ↦ inl (omega (arith, row_lt b b' c.per_block (ltb→lt b b' less)))
    | inr more ↦ inr (omega (arith, row_lt b' b c.per_block (ground arith)))
  ]

  pub on_disk-write_self :
      (c : Cache S) (b : ℕ) (ss : List S) (disk : ℕ → S)
      → length ss ≡ c.per_block
      → Fits c b
      → on_disk c (write_sectors ss (btos c b) disk) b ≡ ss
  on_disk-write_self c b ss disk len fits =
      subst (λ (n : ℕ). read_sectors n (btos c b) (write_sectors ss (btos c b) disk) ≡ ss) len
        (read_sectors-write_sectors ss (btos c b) disk (omega (arith, btos-fits c b fits)))

  pub on_disk-write_other :
      (c : Cache S) (b b' : ℕ) (ss : List S) (disk : ℕ → S)
      → length ss ≡ c.per_block
      → Fits c b
      → Fits c b'
      → b ≢ b'
      → on_disk c (write_sectors ss (btos c b) disk) b' ≡ on_disk c disk b'
  on_disk-write_other c b b' ss disk len fits fits' ne =
      read_sectors-eq c.per_block (btos c b') disk (write_sectors ss (btos c b) disk)
        (btos-fits c b' fits')
        (λ a lo hi.
          write_sectors-other ss (btos c b) disk a (omega (arith, btos-fits c b fits))
            (elim (apart c b' b a (λ z. ne (sym z)) lo hi) [
              | inl l ↦ inl l
              | inr l ↦ inr (omega arith)
            ]))

  -- Entry `i` of `c`, which is `e`, becomes `e'`, and the disk becomes `disk'`.
  abbrev pub replace : Cache S → ℕ → Entry S → (ℕ → S) → ℕ → Cache S
  replace c i e' disk' t = record c { entries = set c.entries i e'; disk = disk'; now = t }

  -- What the new entry and the new disk have to satisfy.
  pub record Sound (c : Cache S) (i : ℕ) (e e' : Entry S) (disk' : ℕ → S) : Type 0 where
    pub here : get_elem? c.entries i ≡ some e
    pub named : e'.block_no ≢ 0 → Fresh c.entries e e'
    pub sized : length e'.block ≡ c.per_block
    pub fits : Fits c e'.block_no
    pub others :
        (b : ℕ) → b ≢ 0 → b ≢ e.block_no → Fits c b → on_disk c disk' b ≡ on_disk c c.disk b
    pub saved : e.block_no ≢ 0 → e.block_no ≢ e'.block_no → on_disk c disk' e.block_no ≡ e.block
    pub clean : e'.block_no ≢ 0 → e'.dirty ≡ false → on_disk c disk' e'.block_no ≡ e'.block

  module _ (c : Cache S) (i : ℕ) (e e' : Entry S) (disk' : ℕ → S) (t : ℕ) (v : IsCoherent c)
      (s : Sound c i e e' disk') where
    new_entry :
        (j : ℕ) (x : Entry S)
        → get_elem? (set c.entries i e') j ≡ some x
        → ((j ≡ i) × (x ≡ e')) ⊎ ((i ≢ j) × (get_elem? c.entries j ≡ some x))
    new_entry j x h = elim (Bool-cases (i == j)) [
      | inl same ↦
          let same' : i ≡ j = ==→eq i j same in
          let there : get_elem? (set c.entries i e') i ≡ some e' =
            get_elem?-set_self c.entries i e' (get_elem?-lt c.entries i s.here) in
          let h' : get_elem? (set c.entries i e') i ≡ some x = rw (← same') at h in
          inl (sym same', cc)
      | inr other ↦
          let ne : i ≢ j = ground arith in inr (ne, sym (get_elem?-set_ne c.entries e' ne) ∙ h)
    ]

    pub replace-IsCoherent : IsCoherent (replace c i e' disk' t)
    unfolding btos
    replace-IsCoherent = record {
      present = v.present;
      distinct = Distinct-set c.entries i e e' v.distinct s.here s.named;
      sized = λ j x h. elim (new_entry j x h) [
        | inl (_, q) ↦ rw q s.sized
        | inr (_, q) ↦ v.sized j x q
      ];
      fits =
          λ j x h. elim (new_entry j x h) [ inl (_, q) ↦ rw q s.fits | inr (_, q) ↦ v.fits j x q ];
      clean = λ j x h ne cl. elim (new_entry j x h) [
        | inl (_, q) ↦ rw q (
            s.clean (λ z. ne (ap (λ (y : Entry S). y.block_no) q ∙ z))
              (ap (λ (y : Entry S). y.dirty) (sym q) ∙ cl))
        | inr (out, q) ↦
            s.others x.block_no ne
              (λ z. blocks_ne c.entries j i x e v.distinct q s.here (λ y. out (sym y)) ne (sym z))
              (v.fits j x q)
            ∙ v.clean j x q ne cl
      ];
    }

    pub view-replace_self : e'.block_no ≢ 0 → view (replace c i e' disk' t) e'.block_no ≡ e'.block
    view-replace_self ne =
        rw (cached-set_new c.entries i e e' v.distinct s.here ne (s.named ne)) refl

    pub view-replace_other :
        (b : ℕ) → b ≢ 0 → b ≢ e'.block_no → Fits c b → view (replace c i e' disk' t) b ≡ view c b
    unfolding btos
    view-replace_other b pos ne fits = elim (Bool-cases (b == e.block_no)) [
      | inl same ↦
          let q : b ≡ e.block_no = ==→eq b e.block_no same in
          let pos' : e.block_no ≢ 0 = λ z. pos (q ∙ z) in
          let ne' : e.block_no ≢ e'.block_no = λ z. ne (q ∙ z) in
          rw
            (
              q,
              cached-set_gone c.entries i e e' v.distinct s.here pos' ne',
              cached_self c.entries i e v.distinct s.here pos',
            )
            (s.saved pos' ne')
      | inr other ↦
          let ne' : b ≢ e.block_no = ground arith in
          rw (cached-set_other c.entries i e e' b s.here ne' ne, s.others b pos ne' fits) refl
    ]

  -- A changed entry for the block that entry `i` holds already; the disk is as before.
  pub Sound-update :
      (c : Cache S) (i : ℕ) (e e' : Entry S)
      → IsCoherent c
      → get_elem? c.entries i ≡ some e
      → e'.block_no ≡ e.block_no
      → length e'.block ≡ c.per_block
      → (e.block_no ≢ 0 → e'.dirty ≡ false → on_disk c c.disk e.block_no ≡ e'.block)
      → Sound c i e e' c.disk
  Sound-update c i e e' v h q len cl = record {
    here = h;
    named = λ ne. inr q;
    sized = len;
    fits = rw q (v.fits i e h);
    others = λ b pos ne f. refl;
    saved = λ ne ne'. absurd (ne' (sym q));
    clean = λ ne d. rw q (cl (λ z. ne (q ∙ z)) d);
  }

  -- A new entry in place of the clean entry `i`.
  pub Sound-reuse :
      (c : Cache S) (i : ℕ) (e e' : Entry S)
      → IsCoherent c
      → get_elem? c.entries i ≡ some e
      → e.dirty ≡ false
      → cached c.entries e'.block_no ≡ none
      → length e'.block ≡ c.per_block
      → Fits c e'.block_no
      → (e'.dirty ≡ false → on_disk c c.disk e'.block_no ≡ e'.block)
      → Sound c i e e' c.disk
  Sound-reuse c i e e' v h d gone len fits cl = record {
    here = h;
    named = λ ne. inl gone;
    sized = len;
    fits = fits;
    others = λ b pos ne f. refl;
    saved = λ ne ne'. v.clean i e h ne d;
    clean = λ ne d'. cl d';
  }

  -- A new entry in place of entry `i`, whose block has just been written to the disk.
  pub Sound-flush :
      (c : Cache S) (i : ℕ) (e e' : Entry S)
      → IsCoherent c
      → get_elem? c.entries i ≡ some e
      → (cached c.entries e'.block_no ≡ none) ⊎ ((e'.block_no ≡ e.block_no) × (e'.block ≡ e.block))
      → length e'.block ≡ c.per_block
      → Fits c e'.block_no
      → (e'.dirty ≡ false → e'.block_no ≡ e.block_no)
      → Sound c i e e' (flush_entry c e)
  unfolding flush_entry
  Sound-flush c i e e' v h new len fits cl = record {
    here = h;
    named = λ ne. elim new [ inl gone ↦ inl gone | inr (q, _) ↦ inr q ];
    sized = len;
    fits = fits;
    others = λ b pos ne f.
        on_disk-write_other c e.block_no b e.block c.disk (v.sized i e h) (v.fits i e h) f
          (λ z. ne (sym z));
    saved = λ ne ne'. on_disk-write_self c e.block_no e.block c.disk (v.sized i e h) (v.fits i e h);
    clean = λ ne d. elim new [
      | inl gone ↦
          let there = cached_self c.entries i e v.distinct h (λ z. ne (cl d ∙ z)) in
          let gone' : cached c.entries e.block_no ≡ none =
            subst (λ (b : ℕ). cached c.entries b ≡ none) (cl d) gone in
          cc
      | inr (q, same) ↦
          rw (q, same)
            (on_disk-write_self c e.block_no e.block c.disk (v.sized i e h) (v.fits i e h))
    ];
  }
