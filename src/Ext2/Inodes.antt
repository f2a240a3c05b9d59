-- ===== src/Ext2/Inodes.antt =====
-- Inodes of src/ext2_fs.c: where they stand in the inode table, the map from the blocks of a file to
-- blocks of the disk, and the allocation of blocks. A block is the list of its little-endian 32-bit
-- words, and so is an inode (`struct ext2_inodetable`). `read_block` and `write_block` are
-- `ext2_disk_read_block` and `ext2_disk_write_block` as their callers mean them: `blocks` is the view
-- of the cache and the disk, which is modelled in Ext2.Cache. What is lost when a read takes a dirty
-- entry of the cache is seen there and not here. Printing is left out.
pub mod Places
pub mod BlockMap
pub mod Alloc
mod Tests
use nibras_os.Prelude.{
  ℕ, zero, suc, ◌+◌, ◌-◌, ◌*◌, ◌/◌, ◌%◌, ◌^◌, ◌<◌, ◌≡◌, Bool, true, false, Option, none, some, List,
  [], ◌∷◌, ◌++◌, if◌then◌else◌, ◌==◌, ltb, leb, get_or, get_elem?, set, take, drop, length,
  replicate, bit, bit_or, bit_and,
}

-- The fields of `struct ext2_bgdescriptor`; `others` are the words behind the two counts.
pub record Group : Type 0 where
  pub block_bitmap : ℕ
  pub inode_bitmap : ℕ
  pub inode_table : ℕ
  pub free_blocks_count : ℕ
  pub free_inodes_count : ℕ
  pub others : List ℕ

-- `ptrs_per_block` words make a block, `inode_words` an inode. `unread` is what the buffer of a read
-- holds before the read: memory of `kmalloc`, which nothing is assumed of.
pub record Volume : Type 0 where
  pub blocks : ℕ → List ℕ
  pub unread : List ℕ
  pub groups : List Group
  pub ptrs_per_block : ℕ
  pub inode_words : ℕ
  pub blocks_per_group : ℕ
  pub inodes_per_group : ℕ

-- `if (!block_no) return;`: a read of the block 0 leaves the buffer as it was.
unfoldable pub read_block : Volume → ℕ → List ℕ
read_block v n = if n == 0 then v.unread else v.blocks n

-- A write of the block 0 is refused.
unfoldable pub write_block : Volume → ℕ → List ℕ → Volume
write_block v n contents = record v {
  blocks = if n == 0 then v.blocks else (λ b. if b == n then contents else v.blocks b);
}

-- The words of an inode for `size`, `blocks` and `block[i]`.
abbrev pub size_word : ℕ
size_word = 1

abbrev pub blocks_word : ℕ
blocks_word = 7

abbrev pub block_word : ℕ → ℕ
block_word i = 10 + i

-- `inode->block[i]`.
abbrev pub pointer : List ℕ → ℕ → ℕ
pointer inode i = get_or inode (block_word i) 0

-- The `i`th pointer of a block of pointers.
abbrev pub entry : Volume → ℕ → ℕ → ℕ
entry v n i = get_or (read_block v n) i 0

unfoldable pub set_entry : Volume → ℕ → ℕ → ℕ → Volume
unfolding write_block
set_entry v n i real = write_block v n (set (read_block v n) i real)

-- A block number that is too high changes nothing. The last case writes `nblock`, as the source does.
unfoldable pub ext2_set_real_block : Volume → List ℕ → ℕ → ℕ → Volume × List ℕ
unfolding set_entry
ext2_set_real_block v inode block real =
    let p = v.ptrs_per_block in
    let b = block - 12 - p in
    let c = b - p * p in
    let e = c % (p * p) in
    let nblock = entry v (entry v (pointer inode 14) (c / (p * p))) (e / p) in
    if ltb block 12
    then (v, set inode (block_word block) real)
    else if ltb block (12 + p)
    then (set_entry v (pointer inode 12) (block - 12) real, inode)
    else if ltb block (12 + p + p * p)
    then (set_entry v (entry v (pointer inode 13) (b / p)) (b % p) real, inode)
    else if ltb block (12 + p + p * p + p * p * p)
    then (set_entry v nblock (e % p) nblock, inode)
    else (v, inode)

unfoldable pub ext2_get_real_block : Volume → List ℕ → ℕ → ℕ
ext2_get_real_block v inode block =
    let p = v.ptrs_per_block in
    let b = block - 12 - p in
    let c = b - p * p in
    let e = c % (p * p) in
    if ltb block 12
    then pointer inode block
    else if ltb block (12 + p)
    then entry v (pointer inode 12) (block - 12)
    else if ltb block (12 + p + p * p)
    then entry v (entry v (pointer inode 13) (b / p)) (b % p)
    else if ltb block (12 + p + p * p + p * p * p)
    then entry v (entry v (entry v (pointer inode 14) (c / (p * p))) (e / p)) (e % p)
    else 0

-- Where the inode `number` stands: its group, the block of the inode table, and the place in the block.
unfoldable pub place_of : Volume → ℕ → ℕ × ℕ × ℕ
place_of v number =
    let group = number / v.inodes_per_group in
    let index = (number - group * v.inodes_per_group + 4294967295) % 4294967296 in
    let block_offset = index * (4 * v.inode_words) % 4294967296 / (4 * v.ptrs_per_block) in
    (group, block_offset, index - block_offset * (v.ptrs_per_block / v.inode_words))

-- `memcpy` of words into a block, from the offset on.
unfoldable pub splice : List ℕ → ℕ → List ℕ → List ℕ
splice xs off [] = xs
splice xs off (w ∷ ws) = set (splice xs (off + 1) ws) off w

-- `none` is NULL. A group that is the number of groups is let through and read behind the table.
unfoldable pub ext2_disk_inode : Volume → ℕ → Option (List ℕ)
unfolding place_of
ext2_disk_inode v number =
    let (group, block_offset, offset_in_block) = place_of v number in
    if ltb (length (v.groups)) group then none else elim (get_elem? (v.groups) group) [
      | none ↦ none
      | some g ↦ some (
          take (v.inode_words)
            (drop (offset_in_block * v.inode_words) (read_block v (g.inode_table + block_offset))))
    ]

unfoldable pub ext2_disk_write_inode : Volume → List ℕ → ℕ → Volume
unfolding place_of splice write_block
ext2_disk_write_inode v inode number =
    let (group, block_offset, offset_in_block) = place_of v number in
    if ltb (length (v.groups)) group then v else elim (get_elem? (v.groups) group) [
      | none ↦ v
      | some g ↦
          let n = g.inode_table + block_offset in
          write_block v n (splice (read_block v n) (offset_in_block * v.inode_words) inode)
    ]

-- The block descriptors as words.
unfoldable pub group_words : List Group → List ℕ
group_words [] = []
group_words (g ∷ groups) =
    g.block_bitmap
      ∷ g.inode_bitmap
      ∷ g.inode_table
      ∷ (g.free_blocks_count + 65536 * g.free_inodes_count)
      ∷ g.others
    ++ group_words groups

-- The first group with free blocks, and its number.
unfoldable pub free_group : ℕ → List Group → Option (ℕ × Group)
free_group i [] = none
free_group i (g ∷ groups) =
    if ltb 0 (g.free_blocks_count) then some (i, g) else free_group (i + 1) groups

-- `while (BLOCKBIT(block_offset)) ++block_offset;` on fuel: `none` when the bits of the block are all
-- set.
unfoldable pub clear_bit : ℕ → List ℕ → ℕ → Option ℕ
unfolding bit
clear_bit zero bitmap block_offset = none
clear_bit (suc n) bitmap block_offset =
    if bit (get_or bitmap (block_offset / 32) 0) (block_offset % 32) == 0
    then some block_offset
    else clear_bit n bitmap (block_offset + 1)

-- `b |= SETBIT(n)`, on the word that holds the byte.
unfoldable pub mark_bit : List ℕ → ℕ → List ℕ
mark_bit bitmap n = set bitmap (n / 32) (bit_or (get_or bitmap (n / 32) 0) (2 ^ (n % 32)))

-- The block `block_no`, the bit `block_offset` of the group, becomes the block `block` of the inode.
unfoldable pub claim_block : Volume → List ℕ → ℕ → ℕ → ℕ → Group → ℕ → Volume × List ℕ
unfolding mark_bit write_block ext2_set_real_block group_words ext2_disk_write_inode
claim_block v inode inode_no block i g block_offset =
    let block_no = block_offset + v.blocks_per_group * i + 1 in
    let v1 =
      write_block v (g.block_bitmap) (mark_bit (read_block v (g.block_bitmap)) block_offset) in
    let (v2, inode1) = ext2_set_real_block v1 inode block block_no in
    let groups1 = set (v2.groups) i (record g { free_blocks_count = g.free_blocks_count - 1 }) in
    let v3 = write_block (record v2 { groups = groups1 }) 2 (group_words groups1) in
    let inode2 = set inode1 blocks_word (get_or inode1 blocks_word 0 + 1) in
    (ext2_disk_write_inode v3 inode2 inode_no, inode2)

-- Without a free block nothing changes; `none` is a bitmap that is read behind its end.
unfoldable pub ext2_disk_inode_alloc_block : Volume → List ℕ → ℕ → ℕ → Option (Volume × List ℕ)
unfolding free_group clear_bit claim_block
ext2_disk_inode_alloc_block v inode inode_no block = elim (free_group 0 (v.groups)) [
  | none ↦ some (v, inode)
  | some (i, g) ↦ elim (clear_bit (32 * v.ptrs_per_block) (read_block v (g.block_bitmap)) 0) [
    | none ↦ none
    | some block_offset ↦ some (claim_block v inode inode_no block i g block_offset)
  ]
]

-- The contents of a block of the file, zeros behind its blocks, and the block of the disk.
unfoldable pub ext2_disk_inode_read_block : Volume → List ℕ → ℕ → List ℕ × ℕ
unfolding ext2_get_real_block
ext2_disk_inode_read_block v inode block =
    let real_block = ext2_get_real_block v inode block in
    if leb (get_or inode blocks_word 0) block
    then (replicate (v.ptrs_per_block) 0, 0)
    else (read_block v real_block, real_block)

unfoldable pub mode_to_filetype : ℕ → ℕ
mode_to_filetype mode =
    let ftype = bit_and mode 61440 in
    if ftype == 32768
    then 1
    else if ftype == 16384
    then 2
    else if ftype == 8192
    then 3
    else if ftype == 24576
    then 4
    else if ftype == 4096
    then 5
    else if ftype == 49152
    then 6
    else if ftype == 40960
    then 7
    else 0
