-- ===== src/Ext2/Files/Writing.antt =====
-- `ext2_disk_inode_write_block` of src/ext2_fs.c and `ext2_disk_inode_read_block`.
use native.Mathlib.Decide.{dec_le}
use nibras_os.Prelude.{
  ℕ, zero, suc, ◌+◌, ◌-◌, ◌%◌, ◌≤◌, ◌<◌, ◌≡◌, refl, ◌≢◌, ◌⊎◌, inl, inr, true, false, List, Option,
  none, some, arith, ◌==◌, ltb, leb, Bool-cases, ap, sym, ◌∙◌, get_or,
}
use nibras_os.Ext2.Inodes.{
  Volume, blocks_word, pointer, entry, read_block, write_block, free_group, ext2_get_real_block,
  ext2_disk_inode_read_block, ext2_disk_inode_alloc_block,
}
use nibras_os.Ext2.Inodes.BlockMap.{blocks_self, blocks-ne}
use nibras_os.Ext2.Files.{allocate_up_to, ext2_disk_inode_write_block}

allocate_up_to_done :
    (n : ℕ) (v : Volume) (inode : List ℕ) (inode_no block : ℕ)
    → block < get_or inode blocks_word 0
    → allocate_up_to (suc n) v inode inode_no block ≡ some (v, inode)
unfolding allocate_up_to
allocate_up_to_done n v inode inode_no block lt =
    let test : leb (get_or inode blocks_word 0) block ≡ false = ground arith in rw test refl

-- The block of the disk that a block of the file stands for does not hang on itself.
abbrev pub IsOwn : Volume → List ℕ → ℕ → Type 0
IsOwn v inode block =
    (block < 12)
    ⊎ ((block < 12 + v.ptrs_per_block) × (ext2_get_real_block v inode block ≢ pointer inode 12))

single_real :
    (v : Volume) (inode : List ℕ) (block : ℕ)
    → 12 ≤ block
    → block < 12 + v.ptrs_per_block
    → ext2_get_real_block v inode block ≡ entry v (pointer inode 12) (block - 12)
unfolding ext2_get_real_block
single_real v inode block lo hi =
    let indirect : ltb block 12 ≡ false = ground arith in
    let single : ltb block (12 + v.ptrs_per_block) ≡ true = ground arith in
    rw (indirect, single) refl

real_block_kept :
    (v : Volume) (inode : List ℕ) (block real : ℕ) (buf : List ℕ)
    → (block < 12) ⊎ ((block < 12 + v.ptrs_per_block) × (real ≢ pointer inode 12))
    → ext2_get_real_block (write_block v real buf) inode block ≡ ext2_get_real_block v inode block
unfolding write_block
real_block_kept v inode block real buf (inl direct) =
    unfold ext2_get_real_block in let test : ltb block 12 ≡ true = ground arith in rw test refl
real_block_kept v inode block real buf (inr (single, ne)) = elim (dec_le 12 block) [
  | no lt ↦
      unfold ext2_get_real_block in let test : ltb block 12 ≡ true = ground arith in rw test refl
  | yes le ↦
      single_real (write_block v real buf) inode block le single
      ∙ ap (λ (c : List ℕ). get_or c (block - 12) 0)
          (blocks-ne v real (pointer inode 12) buf (λ e. ne (sym e)))
      ∙ sym (single_real v inode block le single)
]

abbrev after_allocation : ℕ → List ℕ → Option (Volume × List ℕ) → Option (Volume × List ℕ × ℕ)
after_allocation block buf none = none
after_allocation block buf (some (v, inode)) =
    let real = ext2_get_real_block v inode block in some (write_block v real buf, inode, real)

-- The write itself, once the blocks are there.
write_block_lem :
    (n : ℕ) (v : Volume) (inode : List ℕ) (inode_no block : ℕ) (buf : List ℕ)
    (o : Option (Volume × List ℕ))
    → allocate_up_to n v inode inode_no block ≡ o
    → ext2_disk_inode_write_block n v inode inode_no block buf ≡ after_allocation block buf o
unfolding ext2_disk_inode_write_block
write_block_lem n v inode inode_no block buf o e = ap (after_allocation block buf) e

read_block_lem :
    (v : Volume) (inode : List ℕ) (block : ℕ)
    → block < get_or inode blocks_word 0
    → ext2_disk_inode_read_block v inode block
      ≡ (read_block v (ext2_get_real_block v inode block), ext2_get_real_block v inode block)
unfolding ext2_disk_inode_read_block
read_block_lem v inode block lt =
    let test : leb (get_or inode blocks_word 0) block ≡ false = ground arith in rw test refl

-- What ext2_disk_inode_write_block writes to a block that the file has, a direct one or a singly
-- indirect one that is not the block of pointers, and not the block 0 of the disk,
-- ext2_disk_inode_read_block gives back, and no other block of the disk changes.
pub ext2_disk_inode_read_block-write_block :
    (n : ℕ) (v : Volume) (inode : List ℕ) (inode_no block : ℕ) (buf : List ℕ)
    → block < get_or inode blocks_word 0
    → IsOwn v inode block
    → ext2_get_real_block v inode block ≢ 0
    → (v1 : Volume) × (ext2_disk_inode_write_block (suc n) v inode inode_no block buf
        ≡ some (v1, inode, ext2_get_real_block v inode block))
      × (ext2_disk_inode_read_block v1 inode block ≡ (buf, ext2_get_real_block v inode block))
      × ((b : ℕ) → b ≢ ext2_get_real_block v inode block → read_block v1 b ≡ read_block v b)
ext2_disk_inode_read_block-write_block n v inode inode_no block buf lt own nz =
    let real = ext2_get_real_block v inode block in
    let v1 = write_block v real buf in
    let kept : ext2_get_real_block v1 inode block ≡ real =
      real_block_kept v inode block real buf own in
    (
      v1,
      write_block_lem (suc n) v inode inode_no block buf (some (v, inode))
          (allocate_up_to_done n v inode inode_no block lt),
      read_block_lem v1 inode block lt
          ∙ ap (λ (r : ℕ). (read_block v1 r, r)) kept
          ∙ ap (λ (c : List ℕ). (c, real)) (blocks_self v real buf nz),
      λ b ne. blocks-ne v real b buf ne,
    )

-- No group has a free block.
full_again :
    (n : ℕ) (v : Volume) (inode : List ℕ) (inode_no block : ℕ)
    → free_group 0 (v.groups) ≡ none
    → get_or inode blocks_word 0 ≤ block
    → allocate_up_to n v inode inode_no block ≡ none
unfolding allocate_up_to ext2_disk_inode_alloc_block write_block
full_again zero v inode inode_no block full more = refl
full_again (suc n) v inode inode_no block full more =
    let test : leb (get_or inode blocks_word 0) block ≡ true = ground arith in
    rw (test, full)
      (elim (Bool-cases (block == (get_or inode blocks_word 0 + 4294967295) % 4294967296)) [
        | inl last ↦ rw last (full_again n v inode inode_no block full more)
        | inr other ↦ rw other (full_again n _ inode inode_no block full more)
      ])

-- Without a group with free blocks, a write behind the blocks of the inode ends with no fuel.
pub ext2_disk_inode_write_block-full :
    (n : ℕ) (v : Volume) (inode : List ℕ) (inode_no block : ℕ) (buf : List ℕ)
    → free_group 0 (v.groups) ≡ none
    → get_or inode blocks_word 0 ≤ block
    → ext2_disk_inode_write_block n v inode inode_no block buf ≡ none
ext2_disk_inode_write_block-full n v inode inode_no block buf full more =
    write_block_lem n v inode inode_no block buf none
      (full_again n v inode inode_no block full more)
