-- ===== src/Paging/Memory.antt =====
-- Words of memory after the writes of src/paging.c, and the directories whose pages do not overlap.
use nibras_os.Prelude.{
  ℕ, ◌+◌, ◌*◌, ◌/◌, ◌%◌, ◌≤◌, ◌<◌, ◌≡◌, refl, ◌≢◌, arith, if◌then◌else◌, ◌==◌, eq→==, ne→==,
}
use nibras_os.Frames.Search.{frame_bit}
use nibras_os.Frames.Alloc.{IsValid}
use nibras_os.Paging.{Vm, store, clear_table}

module _ (mem : ℕ → ℕ) (a w : ℕ) where
  pub store_self : store mem a w a ≡ w
  unfolding store
  store_self = rw (eq→== a a refl) refl

  pub store-ne : (x : ℕ) → x ≢ a → store mem a w x ≡ mem x
  unfolding store
  store-ne x ne = rw (ne→== x a ne) refl

-- A cleared table: 0 in its page, the rest as it was.
pub clear_table_inside :
    (mem : ℕ → ℕ) (table x : ℕ) → table ≤ x → x < table + 4096 → clear_table mem table x ≡ 0
unfolding clear_table
clear_table_inside mem table x lo hi = ground arith

pub clear_table_outside :
    (mem : ℕ → ℕ) (table x : ℕ)
    → table % 4096 ≡ 0
    → x / 4096 ≢ table / 4096
    → clear_table mem table x ≡ mem x
unfolding clear_table
clear_table_outside mem table x aligned ne = ground arith

-- The page of the table that entry `i` of a directory points to.
abbrev pub table_page : (ℕ → ℕ) → ℕ → ℕ → ℕ
table_page mem dir i = mem (dir + 4 * i) / 4096

-- The frame that the entry `j` of the table `i` maps; 0 when there is no table.
abbrev pub translate : (ℕ → ℕ) → ℕ → ℕ → ℕ → ℕ
translate mem dir i j =
    if mem (dir + 4 * i) % 2 == 1
    then mem (mem (dir + 4 * i) / 4096 * 4096 + 4 * j) / 4096 * 4096
    else 0

-- A directory's two pages of words and its tables are in use, and no two of them are one page.
pub record Owned (s : Vm) (dir : ℕ) : Type 0 where
  pub valid : IsValid (s.frames)
  pub aligned : dir % 4096 ≡ 0
  pub dir_used : frame_bit (s.frames.bitmap) (dir / 4096) ≡ 1
  pub phys_used : frame_bit (s.frames.bitmap) (dir / 4096 + 1) ≡ 1
  pub table_used :
      (i : ℕ)
      → i < 1024
      → s.mem (dir + 4 * i) % 2 ≡ 1
      → frame_bit (s.frames.bitmap) (table_page (s.mem) dir i) ≡ 1
  pub not_dir :
      (i : ℕ) → i < 1024 → s.mem (dir + 4 * i) % 2 ≡ 1 → table_page (s.mem) dir i ≢ dir / 4096
  pub not_phys :
      (i : ℕ) → i < 1024 → s.mem (dir + 4 * i) % 2 ≡ 1 → table_page (s.mem) dir i ≢ dir / 4096 + 1
  pub apart :
      (i j : ℕ)
      → i < 1024
      → j < 1024
      → i ≢ j
      → s.mem (dir + 4 * i) % 2 ≡ 1
      → s.mem (dir + 4 * j) % 2 ≡ 1
      → table_page (s.mem) dir i ≢ table_page (s.mem) dir j
