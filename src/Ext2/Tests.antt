-- ===== src/Ext2/Tests.antt =====
-- Directories of src/ext2_fs.c on a small volume: blocks of 256 bytes, a directory of one block with two entries
-- where the source looks for them, and one with an entry as long as its block.
use nibras_os.Prelude.{
  ℕ, ◌+◌, ◌*◌, ◌≡◌, ◌≢◌, refl, inl, some, Bool, true, false, List, [], ◌∷◌, ◌++◌, arith, length,
  replicate, set, if◌then◌else◌, ◌==◌, leb,
}
use nibras_os.Ext2.Inodes.{
  Volume, Group, read_block, ext2_disk_write_inode, ext2_disk_inode_read_block, ext2_get_real_block,
}
use nibras_os.Strings.{strlen}
use nibras_os.Ext2.Files.{byte_at, file_block}
use nibras_os.Ext2.Directories.{Direntry, Place, is_dir, entry_at, next_place, start_place}
use nibras_os.Ext2.Nodes.{
  short_len, last_place, insertdir_ext2_disk, flags_of, maker_of, ext2_maker,
}
use nibras_os.Ext2.NewEntry.{EndsWith}
use nibras_os.Ext2.Insertion.{insertdir_ext2_disk-behind}
use nibras_os.Ext2.Flags.{flags_of-type, block_device}

abbrev group : Group
group = record {
  block_bitmap = 3;
  inode_bitmap = 4;
  inode_table = 5;
  free_blocks_count = 2;
  free_inodes_count = 2;
  others = [];
}

-- The entries "a" at the word 0, and "bb" at the word 32.
abbrev entries : List ℕ
entries =
    11 ∷ (32 + 65536 * 1 + 16777216) ∷ 97 ∷ replicate 29 0
    ++ 12 ∷ (224 + 65536 * 2 + 16777216) ∷ 25186 ∷ replicate 29 0

-- The inode of a directory whose one block is the block 20.
abbrev directory : List ℕ
directory = set (set (set (set (replicate 32 0) 0 16384) 1 256) 7 1) 10 20

abbrev volume : Volume
volume = record {
  blocks = λ b. if b == 20 then entries else replicate 64 0;
  unread = replicate 64 13;
  groups = group ∷ [];
  ptrs_per_block = 64;
  inode_words = 32;
  blocks_per_group = 100;
  inodes_per_group = 16;
}

abbrev first_entry : Direntry
first_entry = record {
  inode = 11;
  rec_len = 32;
  name_len = 1;
  file_type = 1;
  rest = 97 ∷ replicate 29 0 ++ 12 ∷ (224 + 65536 * 2 + 16777216) ∷ 25186 ∷ replicate 29 0;
}

abbrev second_entry : Direntry
second_entry = record {
  inode = 12;
  rec_len = 224;
  name_len = 2;
  file_type = 1;
  rest = 25186 ∷ replicate 29 0;
}

abbrev name_bb : List ℕ
name_bb = 98 ∷ 98 ∷ []

abbrev both : List (List ℕ × Direntry)
both = (97 ∷ [], first_entry) ∷ (name_bb, second_entry) ∷ []

abbrev block_or_zeros : Bool → Bool → Bool → ℕ → List ℕ × ℕ
block_or_zeros x z y real =
    if x
    then (replicate 64 0, 0)
    else (if z then replicate 64 13 else (if y then entries else replicate 64 0), real)

whole_blocks : (b : ℕ) → length (file_block volume directory b) ≡ 64
unfolding ext2_disk_inode_read_block read_block
whole_blocks b =
    either (leb 1 b) (ext2_get_real_block volume directory b == 0)
      (ext2_get_real_block volume directory b == 20) (ext2_get_real_block volume directory b)
  where
    either : (x z y : Bool) (real : ℕ) → length ((block_or_zeros x z y real).0) ≡ 64
    either true z y real = refl
    either false true y real = refl
    either false false true real = refl
    either false false false real = refl

no_bytes : ℕ → ℕ
no_bytes k = 0

-- Behind the entry "bb", which has become twelve bytes long.
abbrev end_place : Place
end_place = record {
  words = set entries 33 (12 + 65536 * 2 + 16777216);
  block_nr = 0;
  dir_offset = 44;
  total_offset = 44;
}

end_found : last_place 5 volume directory (start_place volume directory) ≡ some end_place
unfolding last_place entry_at next_place short_len ext2_disk_inode_read_block ext2_get_real_block
    read_block
end_found = refl

is_directory : is_dir directory ≡ true
unfolding is_dir
is_directory = refl

real_twenty : ext2_get_real_block volume directory 0 ≢ 0
unfolding ext2_get_real_block
real_twenty = omega arith

insertdir_ext2_disk-behind_example :
    (v1 : Volume) × (insertdir_ext2_disk 5 no_bytes volume directory 2 13 name_bb 1
      ≡ some (ext2_disk_write_inode v1 directory 2, 4))
    × EndsWith (byte_at (file_block v1 directory 0)) (end_place.words) 44 212 13 name_bb 1
unfolding strlen
insertdir_ext2_disk-behind_example =
    insertdir_ext2_disk-behind 4 no_bytes volume directory 2 13 name_bb 1 end_place is_directory
      refl (omega arith) whole_blocks end_found (omega arith) (omega arith) (inl (omega arith))
      real_twenty

flags_of-type_example : (flags_of 25000 ≡ 14) × (maker_of 25000 ≡ ext2_maker)
flags_of-type_example = flags_of-type block_device 25000 refl
