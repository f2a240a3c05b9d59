-- ===== src/Ext2/Finding.antt =====
-- What `finddir_ext2_disk` of src/ext2_fs.c finds in a directory whose entries stand one behind the other.
use nibras_os.Prelude.{
  ℕ, ◌+◌, ◌*◌, ◌%◌, ◌≤◌, ◌<◌, ◌≡◌, ◌≢◌, ◌⊎◌, Option, none, some, List, [], ◌∷◌, get_or,
}
use nibras_os.Ext2.Inodes.{Volume, size_word}
use nibras_os.Ext2.Files.{block_size, file_block}
use nibras_os.Ext2.Directories.{Direntry, Place}
use nibras_os.Ext2.Names.{IsEntry, IsNamed}

-- The entries with their names from the offset `total` of the directory on, up to its end: each starts in
-- the block `q` at the offset `r`, and is no longer than a block.
abbrev pub LaidOut : Volume → List ℕ → ℕ → List (List ℕ × Direntry) → Type 0
LaidOut v inode total [] = get_or inode size_word 0 ≤ total
LaidOut v inode total ((n, d) ∷ es) =
    (q : ℕ) × (r : ℕ) × (total ≡ q * block_size v + r)
    × (r < block_size v)
    × (q < 256)
    × (total < get_or inode size_word 0)
    × IsEntry (file_block v inode q) r d
    × IsNamed d n
    × (d.rec_len ≤ block_size v)
    × (total + d.rec_len < 4294967296)
    × LaidOut v inode (total + d.rec_len) es

-- The result is the first entry with the name, or none when no entry has it.
abbrev pub FirstNamed : List (List ℕ × Direntry) → List ℕ → Option Direntry → Type 0
FirstNamed [] name found = found ≡ none
FirstNamed ((n, d) ∷ es) name found =
    ((n ≡ name) × (found ≡ some d)) ⊎ ((n ≢ name) × FirstNamed es name found)

abbrev entries_of : List (List ℕ × Direntry) → List Direntry
entries_of [] = []
entries_of ((n, d) ∷ es) = d ∷ entries_of es

module _ (v : Volume) (inode : List ℕ) where
  abbrev bs : ℕ
  bs = block_size v

  -- The place of a walk at the offset `total` of the directory.
  record IsAt (p : Place) (total block : ℕ) : Type 0 where
    offset : p.total_offset ≡ total
    inside : p.dir_offset < bs
    parts : total ≡ block * bs + p.dir_offset
    number : p.block_nr ≡ block % 256
    words : p.words ≡ file_block v inode (p.block_nr)
