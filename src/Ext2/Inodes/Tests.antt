-- ===== src/Ext2/Inodes/Tests.antt =====
-- The theorems on the inodes of src/ext2_fs.c on a small volume: 64 words a block, 32 an inode.
use nibras_os.Prelude.{ℕ, List, [], ◌∷◌, replicate, set, if◌then◌else◌, ◌==◌}
use nibras_os.Ext2.Inodes.{Volume, Group}

abbrev group : Group
group = record {
  block_bitmap = 3;
  inode_bitmap = 4;
  inode_table = 5;
  free_blocks_count = 2;
  free_inodes_count = 2;
  others = [];
}

-- Block 9 points to the block 20 everywhere, all others are full of zeros.
abbrev volume : Volume
volume = record {
  blocks = λ b. if b == 9 then replicate 64 20 else replicate 64 0;
  unread = replicate 64 13;
  groups = group ∷ [];
  ptrs_per_block = 64;
  inode_words = 32;
  blocks_per_group = 100;
  inodes_per_group = 16;
}

-- The pointer 12 is the block 8, the pointer 13 the block 9.
abbrev inode : List ℕ
inode = set (set (replicate 32 0) 22 8) 23 9
