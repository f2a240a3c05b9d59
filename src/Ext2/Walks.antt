-- ===== src/Ext2/Walks.antt =====
-- The walk over the entries of a directory of src/ext2_fs.c, as `finddir_ext2_disk` and
-- `ext2_disk_direntry` make it.
use nibras_os.Prelude.{
  ℕ, zero, suc, ◌-◌, ◌≤◌, ◌<◌, ◌≡◌, refl, true, false, Option, none, some, List, [], ◌∷◌, arith,
  ltb, length, get_or, ne→==, ap,
}
use nibras_os.Ext2.Inodes.{Volume, size_word}
use nibras_os.Ext2.Directories.{
  Direntry, Place, entry_at, next_place, nth_entry, has_name, find_direntry,
}

-- The entries that the walk from a place on meets, in this order, up to the end of the directory.
abbrev pub Entries : Volume → List ℕ → Place → List Direntry → Type 0
Entries v inode p [] = get_or inode size_word 0 ≤ p.total_offset
Entries v inode p (d ∷ ds) =
    (p.total_offset < get_or inode size_word 0)
    × (entry_at (p.words) (p.dir_offset) ≡ some d)
    × Entries v inode (next_place v inode 256 p (d.rec_len)) ds

-- The reference: the first entry that has the name; `none` when a name that is read is not in its block.
unfoldable pub first_named : List Direntry → List ℕ → Option (Option Direntry)
first_named [] name = some none
first_named (d ∷ ds) name = elim (has_name d name) [
  | none ↦ none
  | some true ↦ some (some d)
  | some false ↦ first_named ds name
]

unfoldable pub nth : List Direntry → ℕ → Option Direntry
nth [] n = none
nth (d ∷ ds) zero = some d
nth (d ∷ ds) (suc n) = nth ds n

-- With more fuel than the directory has entries, the search of finddir_ext2_disk ends, and at the
-- first entry on the walk that has the name.
pub find_direntry-first_named :
    (fuel : ℕ) (v : Volume) (inode : List ℕ) (p : Place) (ds : List Direntry) (name : List ℕ)
    → Entries v inode p ds
    → length ds < fuel
    → find_direntry fuel v inode p name ≡ first_named ds name
unfolding find_direntry first_named
find_direntry-first_named zero v inode p ds name w lt = absurd (omega arith)
find_direntry-first_named (suc n) v inode p [] name w lt =
    let stop : ltb (p.total_offset) (get_or inode size_word 0) ≡ false = ground arith in
    rw stop refl
find_direntry-first_named (suc n) v inode p (d ∷ ds) name (more, e, w) lt =
    let go : ltb (p.total_offset) (get_or inode size_word 0) ≡ true = ground arith in
    let ih =
      find_direntry-first_named n v inode (next_place v inode 256 p (d.rec_len)) ds name w
        (omega arith) in
    rw (go, e)
      (ap
        (λ (r : Option (Option Direntry)). elim (has_name d name) [
          | none ↦ none
          | some true ↦ some (some d)
          | some false ↦ r
        ])
        ih)

-- And ext2_disk_direntry ends at the entry with the number.
pub nth_entry-nth :
    (fuel : ℕ) (v : Volume) (inode : List ℕ) (p : Place) (ds : List Direntry) (index : ℕ)
    → Entries v inode p ds
    → length ds < fuel
    → nth_entry fuel v inode p index ≡ some (nth ds index)
unfolding nth_entry nth
nth_entry-nth zero v inode p ds index w lt = absurd (omega arith)
nth_entry-nth (suc n) v inode p [] index w lt =
    let stop : ltb (p.total_offset) (get_or inode size_word 0) ≡ false = ground arith in
    rw stop refl
nth_entry-nth (suc n) v inode p (d ∷ ds) zero (more, e, w) lt =
    let go : ltb (p.total_offset) (get_or inode size_word 0) ≡ true = ground arith in
    rw (go, e) refl
nth_entry-nth (suc n) v inode p (d ∷ ds) (suc index) (more, e, w) lt =
    let go : ltb (p.total_offset) (get_or inode size_word 0) ≡ true = ground arith in
    let back : suc index - 1 ≡ index = omega arith in
    let ih =
      nth_entry-nth n v inode (next_place v inode 256 p (d.rec_len)) ds index w (omega arith) in
    rw (go, e, ne→== (suc index) 0 (omega arith), back) ih
