-- ===== src/Ext2/Cache/Tests.antt =====
-- The theorems on the block cache at a cache of two entries over a small disk.
use nibras_os.Prelude.{
  ℕ, zero, suc, ◌+◌, ◌≡◌, refl, ◌≢◌, true, false, some, none, [], ◌∷◌, arith, get_elem?, length,
}
use mathlib.Core.Path.{subst}
use nibras_os.Ext2.Cache.{
  Entry, Cache, miss, find_entry, ext2_disk_read_block, ext2_disk_write_block, ext2_disk_sync, btos,
  read_sectors,
}
use nibras_os.Ext2.Cache.Entries.{cached}
use nibras_os.Ext2.Cache.Coherent.{IsCoherent, Fits, view, on_disk}
use nibras_os.Ext2.Cache.Write.{
  Written, Synced, ext2_disk_write_block-Written, ext2_disk_sync-Synced,
}
use nibras_os.Ext2.Cache.Read.{ReadOf, ext2_disk_read_block-ReadOf, ext2_disk_read_block-lost_write}

-- Block 5 is cached and clean, block 7 is cached and waits to be written.
abbrev five : Entry ℕ
five = record { block_no = 5; last_use = 1; dirty = false; block = 110 ∷ 111 ∷ [] }

abbrev seven : Entry ℕ
seven = record { block_no = 7; last_use = 2; dirty = true; block = 70 ∷ 71 ∷ [] }

-- Sector `a` of the disk holds the number `100 + a`.
abbrev small : Cache ℕ
small = record {
  present = true;
  entries = five ∷ seven ∷ [];
  per_block = 2;
  ext2_offset = 0;
  now = 3;
  disk = λ a. 100 + a;
}

module _ (P : Entry ℕ → Type 0) (p : P five) (q : P seven) where
  each : (i : ℕ) (e : Entry ℕ) → get_elem? (five ∷ seven ∷ []) i ≡ some e → P e
  each zero e h = let e' : five ≡ e = cc in subst P e' p
  each (suc zero) e h = let e' : seven ≡ e = cc in subst P e' q
  each (suc (suc i)) e h = cc

small-IsCoherent : IsCoherent small
unfolding cached btos read_sectors
small-IsCoherent = record {
  present = refl;
  distinct = ((λ _. refl), ((λ _. refl), tt));
  sized = each (λ e. length e.block ≡ 2) refl refl;
  fits = each (λ e. Fits small e.block_no) (omega arith) (omega arith);
  clean =
      each (λ e. e.block_no ≢ 0 → e.dirty ≡ false → on_disk small small.disk e.block_no ≡ e.block)
        (λ _ _. refl) (λ _ h. cc);
}

ext2_disk_write_block-Written_example :
    Written small (ext2_disk_write_block small 9 (1 ∷ 2 ∷ [])) 9 (1 ∷ 2 ∷ [])
unfolding find_entry
ext2_disk_write_block-Written_example =
    ext2_disk_write_block-Written small 9 (1 ∷ 2 ∷ []) small-IsCoherent (omega arith) (omega arith)
      refl (λ h. cc)

-- The least recently used entry of `small` is that of block 5.
victim_clean :
    (i : ℕ) (e : Entry ℕ)
    → find_entry 0 small.entries 9 none 0xffff_ffff ≡ miss (some i)
    → get_elem? small.entries i ≡ some e
    → e.dirty ≡ false
unfolding find_entry
victim_clean zero e f h = let e' : five ≡ e = cc in subst (λ (x : Entry ℕ). x.dirty ≡ false) e' refl
victim_clean (suc i) e f h = absurd (omega (arith, index f))
  where
    index : miss (some 0) ≡ miss (some (suc i)) → 0 ≡ suc i
    index g = cc

ext2_disk_read_block-ReadOf_example : ReadOf small 9 (ext2_disk_read_block small 9 [])
unfolding find_entry
ext2_disk_read_block-ReadOf_example =
    ext2_disk_read_block-ReadOf small 9 [] small-IsCoherent (omega arith) (omega arith) (λ h. cc)
      victim_clean

ext2_disk_sync-Synced_example : Synced small (ext2_disk_sync small) 2
ext2_disk_sync-Synced_example = ext2_disk_sync-Synced small small-IsCoherent

-- Block 7 alone, waiting to be written.
abbrev stale : Cache ℕ
stale = record small { entries = seven ∷ [] }

module _ (P : Entry ℕ → Type 0) (q : P seven) where
  only : (i : ℕ) (e : Entry ℕ) → get_elem? (seven ∷ []) i ≡ some e → P e
  only zero e h = let e' : seven ≡ e = cc in subst P e' q
  only (suc i) e h = cc

stale-IsCoherent : IsCoherent stale
unfolding cached
stale-IsCoherent = record {
  present = refl;
  distinct = ((λ _. refl), tt);
  sized = only (λ e. length e.block ≡ 2) refl;
  fits = only (λ e. Fits stale e.block_no) (omega arith);
  clean =
      only (λ e. e.block_no ≢ 0 → e.dirty ≡ false → on_disk stale stale.disk e.block_no ≡ e.block)
        (λ _ h. cc);
}

ext2_disk_read_block-lost_write_example :
    view (ext2_disk_read_block stale 9 []).1 7 ≡ on_disk stale stale.disk 9
unfolding find_entry
ext2_disk_read_block-lost_write_example =
    ext2_disk_read_block-lost_write stale 9 0 seven stale-IsCoherent refl (omega arith)
      (omega arith) [] (omega arith) refl refl
