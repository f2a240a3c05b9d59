-- ===== src/Ext2/Files/Tests.antt =====
-- `read_ext2_disk` of src/ext2_fs.c on a small volume: blocks of 256 bytes, a file of three blocks.
use nibras_os.Prelude.{
  ℕ, ◌+◌, ◌-◌, ◌≤◌, ◌≡◌, refl, none, some, List, [], ◌∷◌, arith, replicate, set, if◌then◌else◌,
  ◌==◌, ◌++◌,
}
use nibras_os.Ext2.Inodes.{Volume, Group, read_block, ext2_disk_inode, free_group}
use nibras_os.Ext2.Files.{end_of, read_ext2_disk, ext2_disk_inode_write_block}
use nibras_os.Ext2.Files.Writing.{ext2_disk_inode_write_block-full}
use nibras_os.Ext2.Files.Request.{IsRequest}
use nibras_os.Ext2.Files.Contents.{read_ext2_disk-last_block}

abbrev group : Group
group = record {
  block_bitmap = 3;
  inode_bitmap = 4;
  inode_table = 5;
  free_blocks_count = 2;
  free_inodes_count = 2;
  others = [];
}

-- A file of the blocks 20, 21 and 22.
abbrev file : ℕ → List ℕ
file size = set (set (set (set (set (replicate 32 0) 1 size) 7 3) 10 20) 11 21) 12 22

-- The blocks of the file are full of their numbers.
abbrev volume : ℕ → Volume
volume size = record {
  blocks = λ b. if b == 5 then file size ++ replicate 32 0 else replicate 64 b;
  unread = replicate 64 13;
  groups = group ∷ [];
  ptrs_per_block = 64;
  inode_words = 32;
  blocks_per_group = 100;
  inodes_per_group = 16;
}

file_found : (size : ℕ) → ext2_disk_inode (volume size) 1 ≡ some (file size)
unfolding ext2_disk_inode read_block
file_found size = refl

abbrev empty : ℕ → ℕ
empty a = 0

full_end : end_of (file 512) 0 512 ≡ 512
unfolding end_of
full_end = refl

full-IsRequest : IsRequest (volume 512) (file 512) 0 512 4096
full-IsRequest = record {
  some_bytes = omega arith;
  room = omega arith;
  small = omega arith;
  small_file = omega arith;
  inside = omega (arith, full_end);
}

read_ext2_disk-last_block_example :
    (mem1 : ℕ → ℕ) × (read_ext2_disk (volume 512) 1 0 512 4096 empty
      ≡ some (end_of (file 512) 0 512 - 0, mem1))
    × ((a : ℕ) → 4096 + (end_of (file 512) 0 512 - 256 - 0) ≤ a → mem1 a ≡ 0)
read_ext2_disk-last_block_example =
    read_ext2_disk-last_block (volume 512) 1 (file 512) 0 512 4096 empty (file_found 512)
      full-IsRequest (omega (arith, full_end)) (omega (arith, full_end))

abbrev full_volume : Volume
full_volume = record (volume 600) { groups = record group { free_blocks_count = 0 } ∷ [] }

full_volume_full : free_group 0 (full_volume.groups) ≡ none
unfolding free_group
full_volume_full = refl

never_written : ext2_disk_inode_write_block 1000 full_volume (file 600) 1 3 (replicate 64 7) ≡ none
never_written =
    ext2_disk_inode_write_block-full 1000 full_volume (file 600) 1 3 (replicate 64 7)
      full_volume_full (omega arith)

abbrev sevens : ℕ → ℕ
sevens a = 7
