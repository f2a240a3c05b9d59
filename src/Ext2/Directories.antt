-- ===== src/Ext2/Directories.antt =====
-- Directories in src/ext2_fs.c, on the volume of Ext2.Inodes: the walk along the entries of a directory,
-- reading, finding and inserting an entry, the allocation of an inode, and the nodes of the virtual file
-- system. The source adds the offset of an entry, in bytes, to a pointer to words, so an entry at the
-- offset `o` is looked for at the word `o` of the block. `none` is a use of NULL, a read or a write outside of
-- a block or of an entry, a result that the source does not give, or the end of the fuel.
use nibras_os.Prelude.{
  ℕ, zero, suc, ◌+◌, ◌-◌, ◌*◌, ◌/◌, ◌%◌, Bool, true, false, Option, none, some, List, [], ◌∷◌,
  if◌then◌else◌, ◌==◌, ltb, leb, get_or, get_elem?, drop, length, bit,
}
use nibras_os.Strings.{strlen}
use nibras_os.Strings.Compare.{same_str}
use nibras_os.Ext2.Inodes.{Volume, ext2_disk_inode, size_word}
use nibras_os.Ext2.Files.{block_size, byte_at, file_block}

-- `rest` is what stands behind the eight bytes of the header, from the name on.
pub record Direntry : Type 0 where
  pub inode : ℕ
  pub rec_len : ℕ
  pub name_len : ℕ
  pub file_type : ℕ
  pub rest : List ℕ

-- The entry that the source finds at the offset `o` of a block.
unfoldable pub entry_at : List ℕ → ℕ → Option Direntry
entry_at words o = elim (get_elem? words o) [
  | none ↦ none
  | some number ↦ elim (get_elem? words (o + 1)) [
    | none ↦ none
    | some w ↦ some (record {
      inode = number;
      rec_len = w % 65536;
      name_len = w / 65536 % 256;
      file_type = w / 16777216 % 256;
      rest = drop (o + 2) words;
    })
  ]
]

unfoldable pub bytes_from : ℕ → ℕ → List ℕ → List ℕ
unfolding byte_at
bytes_from zero k words = []
bytes_from (suc n) k words = byte_at words k ∷ bytes_from n (k + 1) words

-- `memcpy` of the name out of the entry.
unfoldable pub entry_name : Direntry → Option (List ℕ)
unfolding bytes_from
entry_name d =
    if leb (d.name_len) (4 * length (d.rest))
    then some (bytes_from (d.name_len) 0 (d.rest))
    else none

-- The place of a walk: the block, its number, the offset in it and the offset in the directory.
pub record Place : Type 0 where
  pub words : List ℕ
  pub block_nr : ℕ
  pub dir_offset : ℕ
  pub total_offset : ℕ

-- Past an entry, and to the next block when that is behind the end of the block. The number of the block has
-- `limit` values: it is a byte but for `insertdir_ext2_disk`.
unfoldable pub next_place : Volume → List ℕ → ℕ → Place → ℕ → Place
next_place v inode limit p rec_len =
    let o = p.dir_offset + rec_len in
    let block_nr = (p.block_nr + 1) % limit in
    let total = (p.total_offset + rec_len) % 4294967296 in
    if leb (block_size v) o
    then record {
      words = file_block v inode block_nr;
      block_nr = block_nr;
      dir_offset = o - block_size v;
      total_offset = total;
    }
    else record p { dir_offset = o; total_offset = total }

abbrev pub start_place : Volume → List ℕ → Place
start_place v inode = record {
  words = file_block v inode 0;
  block_nr = 0;
  dir_offset = 0;
  total_offset = 0;
}

-- `some none` is NULL: the walk is past the last entry.
unfoldable pub nth_entry : ℕ → Volume → List ℕ → Place → ℕ → Option (Option Direntry)
unfolding entry_at next_place
nth_entry zero v inode p index = none
nth_entry (suc n) v inode p index =
    if ltb (p.total_offset) (get_or inode size_word 0)
    then elim (entry_at (p.words) (p.dir_offset)) [
      | none ↦ none
      | some d ↦
          let rest = nth_entry n v inode (next_place v inode 256 p (d.rec_len)) (index - 1) in
          if index == 0 then some (some d) else rest
    ]
    else some none

unfoldable pub ext2_disk_direntry : ℕ → Volume → List ℕ → ℕ → Option (Option Direntry)
ext2_disk_direntry fuel v inode index = nth_entry fuel v inode (start_place v inode) index

-- `mode & EXT2_S_IFDIR`.
unfoldable pub is_dir : List ℕ → Bool
unfolding bit
is_dir inode = bit (get_or inode 0 0) 14 == 1

-- The number of the inode and the name.
unfoldable pub readdir_ext2_disk : ℕ → Volume → ℕ → ℕ → Option (Option (ℕ × List ℕ))
readdir_ext2_disk fuel v number index = elim (ext2_disk_inode v number) [
  | none ↦ none
  | some inode ↦
      if is_dir inode
      then elim (ext2_disk_direntry fuel v inode index) [
        | none ↦ none
        | some none ↦ some none
        | some (some d) ↦ elim (entry_name d) [
          | none ↦ none
          | some name ↦ some (some (d.inode, name))
        ]
      ]
      else none
]

-- Whether an entry has the name: its length is that of the name, and `strcmp` returns 0.
unfoldable pub has_name : Direntry → List ℕ → Option Bool
has_name d name =
    if strlen name == d.name_len
    then elim (entry_name d) [ none ↦ none | some dname ↦ some (same_str dname name) ]
    else some false

unfoldable pub find_direntry : ℕ → Volume → List ℕ → Place → List ℕ → Option (Option Direntry)
find_direntry zero v inode p name = none
find_direntry (suc n) v inode p name =
    if ltb (p.total_offset) (get_or inode size_word 0)
    then elim (entry_at (p.words) (p.dir_offset)) [
      | none ↦ none
      | some d ↦ elim (has_name d name) [
        | none ↦ none
        | some true ↦ some (some d)
        | some false ↦ find_direntry n v inode (next_place v inode 256 p (d.rec_len)) name
      ]
    ]
    else some none
