-- ===== src/Ext2/Files/Contents.antt =====
-- `read_ext2_disk` of src/ext2_fs.c against the contents of the file.
use nibras_os.Prelude.{ℕ, ◌+◌, ◌-◌, ◌*◌, ◌/◌, ◌%◌, ◌≤◌, ◌<◌, ◌≡◌, List, Option, none, some, ap, ◌∙◌}
use nibras_os.Ext2.Inodes.{Volume, ext2_disk_inode}
use nibras_os.Ext2.Files.{block_size, end_of, read_file, read_ext2_disk}
use nibras_os.Ext2.Files.Request.{IsRequest, read_file-size, read_file-last_block}

module _ (v : Volume) (number : ℕ) (inode : List ℕ) (offset size buffer : ℕ) (mem : ℕ → ℕ) where
  read_ext2_disk-file :
      ext2_disk_inode v number ≡ some inode
      → read_ext2_disk v number offset size buffer mem
        ≡ some (read_file v inode offset size buffer mem)
  unfolding read_ext2_disk
  read_ext2_disk-file found =
      ap
        (λ (i : Option (List ℕ)). elim i as (λ _. Option (ℕ × (ℕ → ℕ))) [
          | none ↦ none
          | some inode ↦ some (read_file v inode offset size buffer mem)
        ])
        found

-- When the inode exists, the request reads something, the sums are 32-bit numbers, blocks are not
-- empty and the buffer is not within the first block of memory, a request that ends with a block
-- other than its first one is told to have read all bytes up to that end, but nothing is written to
-- the buffer from the place of that last block on.
pub read_ext2_disk-last_block :
    (v : Volume) (number : ℕ) (inode : List ℕ) (offset size buffer : ℕ) (mem : ℕ → ℕ)
    → ext2_disk_inode v number ≡ some inode
    → IsRequest v inode offset size buffer
    → end_of inode offset size % block_size v ≡ 0
    → offset / block_size v * block_size v + block_size v < end_of inode offset size
    → (mem1 : ℕ → ℕ) × (read_ext2_disk v number offset size buffer mem
        ≡ some (end_of inode offset size - offset, mem1))
      × ((a : ℕ) → buffer + (end_of inode offset size - block_size v - offset) ≤ a → mem1 a ≡ mem a)
read_ext2_disk-last_block v number inode offset size buffer mem found request full more = (
  (read_file v inode offset size buffer mem).1,
  read_ext2_disk-file v number inode offset size buffer mem found
      ∙ ap (λ (n : ℕ). some (n, (read_file v inode offset size buffer mem).1))
          (read_file-size v inode offset size buffer request mem),
  λ a out. read_file-last_block v inode offset size buffer request mem a full more out,
)
