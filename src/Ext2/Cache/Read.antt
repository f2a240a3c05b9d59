-- ===== src/Ext2/Cache/Read.antt =====
-- `ext2_disk_read_block` against the contents of the blocks.
use nibras_os.Prelude.{
  ℕ, ◌+◌, ◌≡◌, refl, ◌≢◌, inl, inr, Bool, true, false, none, some, List, arith, ap, sym, ◌∙◌, ◌==◌,
  ne→==, ==→eq, Bool-cases, get_elem?, set, set-set, u32_mod, ◌%◌, get_elem?-set_self, get_elem?-lt,
  if◌then◌else◌,
}
use mathlib.Core.Path.{subst}
use nibras_os.Ext2.Cache.{
  Entry, Cache, Found, hit, miss, find_entry, flush_entry, fill_entry, read_miss, read_sectors,
  btos, ext2_disk_read_block, read_found,
}
use nibras_os.Ext2.Cache.Sectors.{length-read_sectors}
use nibras_os.Ext2.Cache.Entries.{
  cached, cached-set_gone, cached_self, find_entry-hit, find_entry-miss,
}
use nibras_os.Ext2.Cache.Coherent.{
  IsCoherent, Sound, Fits, view, on_disk, replace-IsCoherent, view-replace_self, view-replace_other,
  Sound-update, Sound-reuse, on_disk-write_self,
}
use nibras_os.Ext2.Cache.Write.{flush_here}

-- A read returns what the block holds, and changes the contents of no block.
pub record ReadOf {S : Type 0} (c : Cache S) (b : ℕ) (r : List S × Cache S) : Type 0 where
  pub result : r.0 ≡ view c b
  pub coherent : IsCoherent r.1
  pub same : (b' : ℕ) → b' ≢ 0 → Fits c b' → view r.1 b' ≡ view c b'

module _ {S : Type 0} where
  read_step :
      (c : Cache S) (b : ℕ) (buf : List S)
      → IsCoherent c
      → b ≢ 0
      → ext2_disk_read_block c b buf
        ≡ read_found c b buf (find_entry 0 c.entries b none 0xffff_ffff)
  unfolding ext2_disk_read_block
  read_step c b buf v pos = rw (ne→== b 0 pos) (
      ap
        (λ (p : Bool).
          if p
          then read_found c b buf (find_entry 0 c.entries b none 0xffff_ffff)
          else (read_sectors c.per_block (btos c b) c.disk, c))
        v.present)

module _ {S : Type 0} (c : Cache S) (b : ℕ) (buf : List S) (v : IsCoherent c) (pos : b ≢ 0)
    (fits : Fits c b) where
  read_hit-ReadOf :
      (i : ℕ) (e : Entry S)
      → get_elem? c.entries i ≡ some e
      → e.block_no ≡ b
      → ReadOf c b (e.block, fill_entry c i e)
  unfolding fill_entry
  read_hit-ReadOf i e h q =
      let e' : Entry S = record e { last_use = c.now } in
      let pos' : e.block_no ≢ 0 = λ z. pos (sym q ∙ z) in
      let t : ℕ = (c.now + 1) % u32_mod in
      let s : Sound c i e e' c.disk =
        Sound-update c i e e' v h refl (v.sized i e h) (λ ne d. v.clean i e h ne d) in
      record {
        result = rw (← q, cached_self c.entries i e v.distinct h pos') refl;
        coherent = replace-IsCoherent c i e e' c.disk t v s;
        same = λ b' pos'' f. elim (Bool-cases (b' == e.block_no)) [
          | inl same ↦
              let z : b' ≡ e.block_no = ==→eq b' e.block_no same in
              rw (z, cached_self c.entries i e v.distinct h pos')
                (view-replace_self c i e e' c.disk t v s pos')
          | inr other ↦ view-replace_other c i e e' c.disk t v s b' pos'' (ground arith) f
        ];
      }

  read_miss-ReadOf :
      (i : ℕ) (e : Entry S)
      → get_elem? c.entries i ≡ some e
      → e.dirty ≡ false
      → cached c.entries b ≡ none
      → ReadOf c b (read_miss c b i e)
  unfolding read_miss fill_entry
  read_miss-ReadOf i e h d gone =
      let block' : List S = on_disk c c.disk b in
      let e' : Entry S = record { block_no = b; last_use = c.now; dirty = false; block = block' } in
      let t : ℕ = (c.now + 1) % u32_mod in
      let s : Sound c i e e' c.disk =
        Sound-reuse c i e e' v h d gone (length-read_sectors c.per_block (btos c b) c.disk) fits
          (λ _. refl) in
      rw (d, set-set c.entries i (record e { dirty = false; block = block' }) e')
        (record {
          result = rw gone refl;
          coherent = replace-IsCoherent c i e e' c.disk t v s;
          same = λ b' pos' f. elim (Bool-cases (b' == b)) [
            | inl same ↦
                let z : b' ≡ b = ==→eq b' b same in
                rw (z, gone) (view-replace_self c i e e' c.disk t v s pos)
            | inr other ↦ view-replace_other c i e e' c.disk t v s b' pos' (ground arith) f
          ];
        })

  -- What the search finds is not an entry that waits to be written.
  abbrev pub CleanVictim : Type 0
  CleanVictim =
      (i : ℕ) (e : Entry S)
      → find_entry 0 c.entries b none 0xffff_ffff ≡ miss (some i)
      → get_elem? c.entries i ≡ some e
      → e.dirty ≡ false

  -- In a coherent cache that has an entry to give away, if the least recently used entry is clean, a
  -- read of a block other than 0 whose sector numbers have 28 bits returns what the block holds,
  -- changes the contents of no block, and keeps the cache coherent.
  pub ext2_disk_read_block-ReadOf :
      find_entry 0 c.entries b none 0xffff_ffff ≢ miss none
      → CleanVictim
      → ReadOf c b (ext2_disk_read_block c b buf)
  unfolding read_found
  ext2_disk_read_block-ReadOf room clean =
      subst (ReadOf c b) (sym (read_step c b buf v pos))
        (go (find_entry 0 c.entries b none 0xffff_ffff) refl)
    where
      go :
          (f : Found)
          → find_entry 0 c.entries b none 0xffff_ffff ≡ f
          → ReadOf c b (read_found c b buf f)
      go (hit i) q =
          let (j, e, k, h, z) = find_entry-hit 0 c.entries b none 0xffff_ffff i q in
          let k' : j ≡ i = omega arith in
          let h' : get_elem? c.entries i ≡ some e =
            subst (λ (n : ℕ). get_elem? c.entries n ≡ some e) k' h in
          rw (h', read_found) (read_hit-ReadOf i e h' z)
      go (miss none) q = absurd (room q)
      go (miss (some i)) q =
          let (gone, old) = find_entry-miss 0 c.entries b none 0xffff_ffff (some i) q in
          elim (old i refl) [
            | inl bad ↦ cc
            | inr (j, e, k, h) ↦
                let k' : j ≡ i = omega arith in
                let h' : get_elem? c.entries i ≡ some e =
                  subst (λ (n : ℕ). get_elem? c.entries n ≡ some e) k' h in
                rw (h', read_found) (read_miss-ReadOf i e h' (clean i e q h') gone)
          ]

-- If the victim of a read is dirty, its data is lost: the block that it stood for then holds the
-- sectors of the block that was read.
module _ {S : Type 0} (c : Cache S) (b i : ℕ) (e : Entry S) (v : IsCoherent c)
    (h : get_elem? c.entries i ≡ some e) (pos : e.block_no ≢ 0) (ne : e.block_no ≢ b) where
  read_miss_dirty-overwrites :
      e.dirty ≡ true → view (read_miss c b i e).1 e.block_no ≡ on_disk c c.disk b
  unfolding read_miss fill_entry flush_entry
  read_miss_dirty-overwrites d =
      let block' : List S = on_disk c c.disk b in
      let e₁ : Entry S = record e { dirty = true; block = block' } in
      let e₂ : Entry S = record { block_no = b; last_use = c.now; dirty = false; block = block' } in
      let loaded : Cache S = record c { entries = set c.entries i e₁ } in
      let at_i : get_elem? (set c.entries i e₁) i ≡ some e₁ =
        get_elem?-set_self c.entries i e₁ (get_elem?-lt c.entries i h) in
      rw
        (
          d,
          flush_here loaded i e₁ at_i,
          set-set (set c.entries i e₁) i (record e₁ { dirty = false }) e₂,
          set-set c.entries i e₁ e₂,
          cached-set_gone c.entries i e e₂ v.distinct h pos ne,
        )
        (on_disk-write_self c e.block_no block' c.disk
          (length-read_sectors c.per_block (btos c b) c.disk) (v.fits i e h))

  -- A read of a block other than 0 that misses and evicts a dirty entry destroys that entry's data:
  -- afterwards the block that it held has, in the cache and on the disk, the contents of the block
  -- that was read.
  pub ext2_disk_read_block-lost_write :
      (buf : List S)
      → b ≢ 0
      → find_entry 0 c.entries b none 0xffff_ffff ≡ miss (some i)
      → e.dirty ≡ true
      → view (ext2_disk_read_block c b buf).1 e.block_no ≡ on_disk c c.disk b
  unfolding read_found read_sectors
  ext2_disk_read_block-lost_write buf pos_b q d =
      rw (read_step c b buf v pos_b, q, read_found, h) (read_miss_dirty-overwrites d)
