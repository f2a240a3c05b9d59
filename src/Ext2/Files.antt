-- ===== src/Ext2/Files.antt =====
-- The contents of files in src/ext2_fs.c: `ext2_disk_inode_write_block`, `read_ext2_disk` and
-- `write_ext2_disk`, on the volume of Ext2.Inodes. `mem` is the memory that the caller's buffer
-- stands in, one byte at an address.
pub mod Reading
pub mod Request
pub mod Holes
pub mod Contents
pub mod Writing
pub mod Patching
pub mod Overwriting
mod Tests
use nibras_os.Prelude.{
  ℕ, zero, suc, ◌+◌, ◌-◌, ◌*◌, ◌/◌, ◌%◌, ◌^◌, ◌<◌, ◌≡◌, ◌&&◌, Bool, true, false, Option, none, some,
  List, [], ◌∷◌, if◌then◌else◌, ◌==◌, ltb, leb, get_or, set, length, replicate,
}
use nibras_os.Ext2.Inodes.{
  Volume, ext2_disk_inode, ext2_disk_inode_read_block, ext2_disk_inode_alloc_block,
  ext2_get_real_block, ext2_disk_write_inode, write_block, size_word, blocks_word,
}

abbrev pub block_size : Volume → ℕ
block_size v = 4 * v.ptrs_per_block

-- The byte `k` of a block of little-endian words.
unfoldable pub byte_at : List ℕ → ℕ → ℕ
byte_at words k = get_or words (k / 4) 0 / 256 ^ (k % 4) % 256

-- `memcpy` of `n` bytes to the address `dst`, from a block on from its byte `off`.
unfoldable pub copy_bytes : ℕ → ℕ → List ℕ → ℕ → (ℕ → ℕ) → ℕ → ℕ
copy_bytes n dst words off mem a =
    if leb dst a && ltb a (dst + n) then byte_at words (off + (a - dst)) else mem a

-- The block `block` of the file.
abbrev pub file_block : Volume → List ℕ → ℕ → List ℕ
file_block v inode block = (ext2_disk_inode_read_block v inode block).0

-- One round of the loop: the first block from the offset on, or a whole block.
unfoldable pub read_round : Volume → List ℕ → ℕ → ℕ → ℕ → ℕ → (ℕ → ℕ) → ℕ → ℕ
unfolding copy_bytes
read_round v inode offset buffer block_offset blocks_read mem =
    let o = offset % block_size v in
    if block_offset == offset / block_size v
    then copy_bytes (block_size v - o) buffer (file_block v inode block_offset) o mem
    else copy_bytes (block_size v) (buffer + block_size v * blocks_read - o)
        (file_block v inode block_offset) 0 mem

-- `n` rounds more.
unfoldable pub read_rounds : ℕ → Volume → List ℕ → ℕ → ℕ → ℕ → ℕ → (ℕ → ℕ) → ℕ → ℕ
unfolding read_round
read_rounds zero v inode offset buffer block_offset blocks_read mem = mem
read_rounds (suc n) v inode offset buffer block_offset blocks_read mem =
    read_rounds n v inode offset buffer (block_offset + 1) (blocks_read + 1)
      (read_round v inode offset buffer block_offset blocks_read mem)

-- `end`: the end of the request, and of the file when that is before.
unfoldable pub end_of : List ℕ → ℕ → ℕ → ℕ
end_of inode offset size =
    let total = (offset + size) % 4294967296 in
    if ltb (get_or inode size_word 0) total then get_or inode size_word 0 else total

-- `end_block`, one less when the end is that of a block.
unfoldable pub last_block : ℕ → ℕ → ℕ
last_block bs end = if end % bs == 0 then (end / bs + 4294967295) % 4294967296 else end / bs

-- The number of bytes that is returned, and the memory.
unfoldable pub read_file : Volume → List ℕ → ℕ → ℕ → ℕ → (ℕ → ℕ) → ℕ × (ℕ → ℕ)
unfolding read_rounds copy_bytes end_of last_block
read_file v inode offset size buffer mem =
    let bs = block_size v in
    let end = end_of inode offset size in
    let start_block = offset / bs in
    let end_block = last_block bs end in
    let size_to_read = (end + 4294967296 - offset) % 4294967296 in
    let n = end_block - start_block in
    let mem1 = read_rounds n v inode offset buffer start_block 0 mem in
    if start_block == end_block
    then (
      size_to_read,
      copy_bytes size_to_read buffer (file_block v inode start_block) (offset % bs) mem,
    )
    else (
      size_to_read,
      copy_bytes (end % bs) (buffer + bs * n - offset % bs) (file_block v inode end_block) 0 mem1,
    )

-- `none` is a read through NULL.
unfoldable pub read_ext2_disk : Volume → ℕ → ℕ → ℕ → ℕ → (ℕ → ℕ) → Option (ℕ × (ℕ → ℕ))
unfolding read_file
read_ext2_disk v number offset size buffer mem = elim (ext2_disk_inode v number) [
  | none ↦ none
  | some inode ↦ some (read_file v inode offset size buffer mem)
]

-- Blocks up to `block` are allocated, and cleared but for that one; on fuel, since nothing changes and the
-- loop goes on when no block is free. `none` also stands for a bitmap that is read behind its end.
unfoldable pub allocate_up_to : ℕ → Volume → List ℕ → ℕ → ℕ → Option (Volume × List ℕ)
unfolding ext2_disk_inode_alloc_block ext2_get_real_block write_block
allocate_up_to zero v inode inode_no block = none
allocate_up_to (suc n) v inode inode_no block =
    let count = get_or inode blocks_word 0 in
    let rest : Option (Volume × List ℕ) =
      elim (ext2_disk_inode_alloc_block v inode inode_no count) [
        | none ↦ none
        | some (v1, inode1) ↦
            let count1 = (get_or inode1 blocks_word 0 + 4294967295) % 4294967296 in
            let cleared =
              write_block v1 (ext2_get_real_block v1 inode1 count1)
                (replicate (v.ptrs_per_block) 0) in
            allocate_up_to n (if block == count1 then v1 else cleared) inode1 inode_no block
      ] in
    if leb count block then rest else some (v, inode)

-- The volume, the inode, and the block of the disk that was written.
unfoldable pub ext2_disk_inode_write_block :
    ℕ → Volume → List ℕ → ℕ → ℕ → List ℕ → Option (Volume × List ℕ × ℕ)
unfolding allocate_up_to ext2_get_real_block write_block
ext2_disk_inode_write_block fuel v inode inode_no block buf =
    elim (allocate_up_to fuel v inode inode_no block) [
      | none ↦ none
      | some (v1, inode1) ↦
          let real_block = ext2_get_real_block v1 inode1 block in
          some (write_block v1 real_block buf, inode1, real_block)
    ]

-- A block of words with the bytes from `off` on replaced by `n` bytes: `memcpy` into a block. `i` is the
-- number of the first word.
unfoldable pub patched_byte : (ℕ → ℕ) → ℕ → ℕ → ℕ → ℕ → ℕ
patched_byte bytes off n old k =
    if leb off k && ltb k (off + n) then bytes (k - off) % 256 else old % 256

unfoldable pub patched_word : (ℕ → ℕ) → ℕ → ℕ → ℕ → ℕ → ℕ
unfolding patched_byte
patched_word bytes off n w i =
    patched_byte bytes off n w (4 * i)
    + 256 * patched_byte bytes off n (w / 256) (4 * i + 1)
    + 65536 * patched_byte bytes off n (w / 65536) (4 * i + 2)
    + 16777216 * patched_byte bytes off n (w / 16777216) (4 * i + 3)

unfoldable pub patch_from : ℕ → (ℕ → ℕ) → ℕ → ℕ → List ℕ → List ℕ
patch_from i bytes off n [] = []
patch_from i bytes off n (w ∷ ws) = patched_word bytes off n w i ∷ patch_from (i + 1) bytes off n ws

-- `none` when the bytes do not fit into the block.
unfoldable pub patch : (ℕ → ℕ) → ℕ → ℕ → List ℕ → Option (List ℕ)
patch bytes off n words =
    if leb (off + n) (4 * length words) then some (patch_from 0 bytes off n words) else none

-- A block of the file with some of its bytes replaced.
unfoldable pub rewrite_block :
    ℕ → Volume → List ℕ → ℕ → ℕ → (ℕ → ℕ) → ℕ → ℕ → Option (Volume × List ℕ × ℕ)
rewrite_block fuel v inode number block bytes off n =
    elim (patch bytes off n (file_block v inode block)) [
      | none ↦ none
      | some words ↦ ext2_disk_inode_write_block fuel v inode number block words
    ]

-- The file becomes longer when the request ends behind it.
unfoldable pub grow_file : Volume → List ℕ → ℕ → ℕ → Volume × List ℕ
grow_file v inode number end =
    let longer = set inode size_word end in
    if ltb (get_or inode size_word 0) end
    then (ext2_disk_write_inode v longer number, longer)
    else (v, inode)

-- One round: the rest of the first block, or a whole block. The source takes the bytes of a whole block
-- from the place that the number of the block, and not the offset, says.
unfoldable pub write_round :
    ℕ → Volume → List ℕ → ℕ → ℕ → ℕ → ℕ → ℕ → (ℕ → ℕ) → Option (Volume × List ℕ × ℕ)
write_round fuel v inode number offset buffer block_offset blocks_read mem =
    let bs = block_size v in
    let o = offset % bs in
    if block_offset == offset / bs
    then rewrite_block fuel v inode number block_offset (λ k. mem (buffer + k)) o (bs - o)
    else elim (patch (λ k. mem (buffer + bs * blocks_read - block_offset % bs + k)) 0 bs
        (replicate (v.ptrs_per_block) 0)) [
          | none ↦ none
          | some words ↦ ext2_disk_inode_write_block fuel v inode number block_offset words
        ]

unfoldable pub write_rounds :
    ℕ → ℕ → Volume → List ℕ → ℕ → ℕ → ℕ → ℕ → ℕ → (ℕ → ℕ) → Option (Volume × List ℕ)
write_rounds fuel zero v inode number offset buffer block_offset blocks_read mem = some (v, inode)
write_rounds fuel (suc n) v inode number offset buffer block_offset blocks_read mem =
    elim (write_round fuel v inode number offset buffer block_offset blocks_read mem) [
      | none ↦ none
      | some (v1, inode1, _) ↦
          write_rounds fuel n v1 inode1 number offset buffer (block_offset + 1) (blocks_read + 1)
            mem
    ]

-- Within one block the offset counts words and not bytes, as the source has it; `none` also when the bytes
-- do not fit there.
unfoldable pub write_file : ℕ → Volume → List ℕ → ℕ → ℕ → ℕ → ℕ → (ℕ → ℕ) → Option (ℕ × Volume)
write_file fuel v inode number offset size buffer mem =
    let bs = block_size v in
    let end = (offset + size) % 4294967296 in
    let start_block = offset / bs in
    let end_block = last_block bs end in
    let size_to_write = (end + 4294967296 - offset) % 4294967296 in
    let n = end_block - start_block in
    let (v0, inode0) = grow_file v inode number end in
    if start_block == end_block
    then elim (rewrite_block fuel v0 inode0 number start_block (λ k. mem (buffer + k))
        (4 * (offset % bs)) size_to_write) [
          | none ↦ none
          | some (v1, inode1, _) ↦ some (size_to_write, v1)
        ]
    else elim (write_rounds fuel n v0 inode0 number offset buffer start_block 0 mem) [
      | none ↦ none
      | some (v1, inode1) ↦
          elim (rewrite_block fuel v1 inode1 number end_block
            (λ k. mem (buffer + bs * n - (start_block + n) % bs + k)) 0 (end % bs)) [
              | none ↦ none
              | some (v2, inode2, _) ↦ some (size_to_write, v2)
            ]
    ]

unfoldable pub write_ext2_disk : ℕ → Volume → ℕ → ℕ → ℕ → ℕ → (ℕ → ℕ) → Option (ℕ × Volume)
write_ext2_disk fuel v number offset size buffer mem = elim (ext2_disk_inode v number) [
  | none ↦ none
  | some inode ↦ write_file fuel v inode number offset size buffer mem
]
