-- ===== src/Ext2/Cache/Write.antt =====
-- `ext2_disk_write_block` and `ext2_disk_sync` against the contents of the blocks.
use nibras_os.Prelude.{
  ℕ, zero, suc, ◌+◌, ◌<◌, ◌≡◌, refl, ◌≢◌, inl, inr, true, false, none, some, List, arith, ap, sym,
  ◌∙◌, ◌==◌, ne→==, Bool-cases, get_elem?, set, length, set-set, u32_mod, ◌%◌, Option-cases,
  get_elem?-set_self, get_elem?-set_ne, get_elem?-lt, length-set, ==→eq,
}
use mathlib.Core.Path.{subst}
use nibras_os.Ext2.Cache.{
  Entry, Cache, Found, hit, miss, find_entry, flush_entry, fill_entry, write_miss, ext2_flush_dirty,
  ext2_disk_write_block, sync_from, ext2_disk_sync,
}
use nibras_os.Ext2.Cache.Entries.{cached, cached_self, find_entry-hit, find_entry-miss}
use nibras_os.Ext2.Cache.Coherent.{
  IsCoherent, Sound, Fits, view, replace, replace-IsCoherent, view-replace_self, view-replace_other,
  Sound-update, Sound-reuse, Sound-flush,
}

-- After a write of `buf` to block `b`: that block holds `buf`, the others hold what they held.
pub record Written {S : Type 0} (c c' : Cache S) (b : ℕ) (buf : List S) : Type 0 where
  pub coherent : IsCoherent c'
  pub self : view c' b ≡ buf
  pub others : (b' : ℕ) → b' ≢ 0 → b' ≢ b → Fits c b' → view c' b' ≡ view c b'

module _ {S : Type 0} where
  pub flush_here :
      (c : Cache S) (i : ℕ) (e : Entry S)
      → get_elem? c.entries i ≡ some e
      → ext2_flush_dirty c i ≡ record c {
        disk = flush_entry c e;
        entries = set c.entries i (record e { dirty = false });
      }
  unfolding ext2_flush_dirty
  flush_here c i e h = rw (h, ext2_flush_dirty) refl

module _ {S : Type 0} (c : Cache S) (b : ℕ) (buf : List S) (v : IsCoherent c) (pos : b ≢ 0)
    (fits : Fits c b) (len : length buf ≡ c.per_block) where
  Written-entry :
      (i : ℕ) (e : Entry S) (disk' : ℕ → S) (use_time : ℕ)
      → Sound c i e (record { block_no = b; last_use = use_time; dirty = true; block = buf }) disk'
      → (t : ℕ)
      → Written c
          (replace c i
            (record { block_no = b; last_use = use_time; dirty = true; block = buf })
            disk'
            t)
          b
          buf
  Written-entry i e disk' use_time s t =
      let e' : Entry S = record { block_no = b; last_use = use_time; dirty = true; block = buf } in
      record {
        coherent = replace-IsCoherent c i e e' disk' t v s;
        self = view-replace_self c i e e' disk' t v s pos;
        others = view-replace_other c i e e' disk' t v s;
      }

  write_miss-Written :
      (i : ℕ) (e : Entry S)
      → get_elem? c.entries i ≡ some e
      → cached c.entries b ≡ none
      → Written c (write_miss c b buf i e) b buf
  unfolding write_miss fill_entry
  write_miss-Written i e h gone = elim (Bool-cases e.dirty) [
    | inl d ↦
        rw
          (
            d,
            flush_here c i e h,
            set-set c.entries i (record e { dirty = false })
                (record { block_no = b; last_use = c.now; dirty = true; block = buf }),
          )
          (Written-entry i e (flush_entry c e) c.now
            (Sound-flush c i e _ v h (inl gone) len fits (λ z. cc)) ((c.now + 1) % u32_mod))
    | inr d ↦ rw d (
        Written-entry i e c.disk c.now (Sound-reuse c i e _ v h d gone len fits (λ z. cc))
          ((c.now + 1) % u32_mod))
  ]

  write_hit-Written :
      (i : ℕ) (e : Entry S)
      → get_elem? c.entries i ≡ some e
      → e.block_no ≡ b
      → Written c (fill_entry c i (record e { dirty = true; block = buf })) b buf
  unfolding fill_entry
  write_hit-Written i e h q = rw q (
      Written-entry i e c.disk c.now (Sound-update c i e _ v h (sym q) len (λ z z'. cc))
        ((c.now + 1) % u32_mod))

  -- In a coherent cache, unless it has no entry to give away, a block other than 0 whose sector
  -- numbers have 28 bits, written through the cache, holds the new data, every other block holds what
  -- it held before, and the cache stays coherent.
  pub ext2_disk_write_block-Written :
      find_entry 0 c.entries b none 0xffff_ffff ≢ miss none
      → Written c (ext2_disk_write_block c b buf) b buf
  unfolding ext2_disk_write_block
  ext2_disk_write_block-Written room =
      rw (ne→== b 0 pos) (go (find_entry 0 c.entries b none 0xffff_ffff) refl)
    where
      go :
          (f : Found)
          → find_entry 0 c.entries b none 0xffff_ffff ≡ f
          → Written c
              (elim f [
                | hit i ↦ elim (get_elem? c.entries i) [
                  | none ↦ c
                  | some e ↦ fill_entry c i (record e { dirty = true; block = buf })
                ]
                | miss none ↦ c
                | miss (some i) ↦ elim (get_elem? c.entries i) [
                  | none ↦ c
                  | some e ↦ write_miss c b buf i e
                ]
              ])
              b
              buf
      go (hit i) q =
          let (j, e, k, h, z) = find_entry-hit 0 c.entries b none 0xffff_ffff i q in
          let k' : j ≡ i = omega arith in
          let h' : get_elem? c.entries i ≡ some e =
            subst (λ (n : ℕ). get_elem? c.entries n ≡ some e) k' h in
          rw h' (write_hit-Written i e h' z)
      go (miss none) q = absurd (room q)
      go (miss (some i)) q =
          let (gone, old) = find_entry-miss 0 c.entries b none 0xffff_ffff (some i) q in
          elim (old i refl) [
            | inl bad ↦ cc
            | inr (j, e, k, h) ↦
                let k' : j ≡ i = omega arith in
                let h' : get_elem? c.entries i ≡ some e =
                  subst (λ (n : ℕ). get_elem? c.entries n ≡ some e) k' h in
                rw h' (write_miss-Written i e h' gone)
          ]

-- What `ext2_disk_sync` has reached: the blocks hold what they held, and the entries below `i` are
-- clean.
pub record Synced {S : Type 0} (c c' : Cache S) (i : ℕ) : Type 0 where
  pub coherent : IsCoherent c'
  pub size : length c'.entries ≡ length c.entries
  pub contents : (b : ℕ) → b ≢ 0 → Fits c b → view c' b ≡ view c b
  pub clean : (j : ℕ) (e : Entry S) → j < i → get_elem? c'.entries j ≡ some e → e.dirty ≡ false
  pub shape : (c'.per_block ≡ c.per_block) × (c'.ext2_offset ≡ c.ext2_offset)

module _ {S : Type 0} where
  flush_Synced :
      (c c₁ : Cache S) (i : ℕ) (e : Entry S)
      → Synced c c₁ i
      → get_elem? c₁.entries i ≡ some e
      → Synced c (ext2_flush_dirty c₁ i) (i + 1)
  flush_Synced c c₁ i e s h =
      let e' : Entry S = record e { dirty = false } in
      let snd : Sound c₁ i e e' (flush_entry c₁ e) =
        Sound-flush c₁ i e e' s.coherent h (inr (refl, refl)) (s.coherent.sized i e h)
          (s.coherent.fits i e h) (λ z. refl) in
      let here = view-replace_self c₁ i e e' (flush_entry c₁ e) c₁.now s.coherent snd in
      let there = view-replace_other c₁ i e e' (flush_entry c₁ e) c₁.now s.coherent snd in
      rw (flush_here c₁ i e h) (record {
        coherent = replace-IsCoherent c₁ i e e' (flush_entry c₁ e) c₁.now s.coherent snd;
        size = length-set c₁.entries i e' ∙ s.size;
        contents = λ b pos f. elim (Bool-cases (b == e.block_no)) [
          | inl same ↦
              let q : b ≡ e.block_no = ==→eq b e.block_no same in
              let pos' : e.block_no ≢ 0 = λ z. pos (q ∙ z) in
              let old : view c₁ e.block_no ≡ e.block =
                rw (cached_self c₁.entries i e s.coherent.distinct h pos') refl in
              let was : view c₁ e.block_no ≡ view c e.block_no =
                subst (λ (n : ℕ). view c₁ n ≡ view c n) q (s.contents b pos f) in
              rw q (here pos' ∙ sym old ∙ was)
          | inr other ↦ there b pos (ground arith) (ground (arith, s.shape)) ∙ s.contents b pos f
        ];
        clean = λ j x lt g. elim (Bool-cases (i == j)) [
          | inl same ↦
              let q : i ≡ j = ==→eq i j same in
              let g' : get_elem? (set c₁.entries i e') i ≡ some x =
                subst (λ (n : ℕ). get_elem? (set c₁.entries i e') n ≡ some x) (sym q) g in
              let at_i = get_elem?-set_self c₁.entries i e' (get_elem?-lt c₁.entries i h) in
              let x' : e' ≡ x = cc in ap (λ (y : Entry S). y.dirty) (sym x')
          | inr other ↦
              let ne : i ≢ j = ground arith in
              s.clean j x (omega arith) (sym (get_elem?-set_ne c₁.entries e' ne) ∙ g)
        ];
        shape = s.shape;
      })

  skip_Synced :
      (c c₁ : Cache S) (i : ℕ)
      → Synced c c₁ i
      → ((e : Entry S) → get_elem? c₁.entries i ≡ some e → e.dirty ≡ false)
      → Synced c c₁ (i + 1)
  skip_Synced c c₁ i s cl = record {
    coherent = s.coherent;
    size = s.size;
    contents = s.contents;
    clean = λ j x lt g. elim (Bool-cases (j == i)) [
      | inl same ↦ cl x (subst (λ (n : ℕ). get_elem? c₁.entries n ≡ some x) (==→eq j i same) g)
      | inr other ↦ s.clean j x (ground arith) g
    ];
    shape = s.shape;
  }

  sync_from-Synced :
      (n i k : ℕ) (c c₁ : Cache S) → i + n ≡ k → Synced c c₁ i → Synced c (sync_from n i c₁) k
  unfolding sync_from
  sync_from-Synced zero i k c c₁ q s = let q' : i ≡ k = omega arith in rw (← q') s
  sync_from-Synced (suc n) i k c c₁ q s = elim (Option-cases (get_elem? c₁.entries i)) [
    | inl gone ↦
        rw gone (sync_from-Synced n (i + 1) k c c₁ (omega arith) (skip_Synced c c₁ i s (λ e h. cc)))
    | inr (e, h) ↦ elim (Bool-cases e.dirty) [
      | inl d ↦
          rw (h, d)
            (sync_from-Synced n (i + 1) k c (ext2_flush_dirty c₁ i) (omega arith)
              (flush_Synced c c₁ i e s h))
      | inr d ↦
          rw (h, d)
            (sync_from-Synced n (i + 1) k c c₁ (omega arith) (
              skip_Synced c c₁ i s
                (λ x g. let x' : e ≡ x = cc in ap (λ (y : Entry S). y.dirty) (sym x') ∙ d)))
    ]
  ]

  -- In a coherent cache, whose blocks have sector numbers of 28 bits, ext2_disk_sync leaves no entry
  -- dirty and keeps the cache coherent, and no block's contents change: what a client reads is then
  -- what the disk holds.
  pub ext2_disk_sync-Synced :
      (c : Cache S) → IsCoherent c → Synced c (ext2_disk_sync c) (length c.entries)
  unfolding ext2_disk_sync
  ext2_disk_sync-Synced c v =
      sync_from-Synced (length c.entries) 0 (length c.entries) c c (omega arith) (record {
        coherent = v;
        size = refl;
        contents = λ b pos f. refl;
        clean = λ j x lt g. absurd (omega arith);
        shape = (refl, refl);
      })
