-- ===== src/Ext2/Inodes/BlockMap.antt =====
-- The block map of an inode: `ext2_set_real_block` against `ext2_get_real_block` of src/ext2_fs.c.
use nibras_os.Prelude.{
  ℕ, ◌+◌, ◌-◌, ◌*◌, ◌≤◌, ◌<◌, ◌≡◌, refl, ◌≢◌, inl, inr, List, arith, ◌==◌, le→ltb, eq→==, ne→==,
  length, Bool-cases,
}
use nibras_os.Ext2.Inodes.{Volume, read_block, write_block, ext2_set_real_block}

-- Every block holds its words, and the inode its 15 pointers.
abbrev pub IsSized : Volume → List ℕ → Type 0
IsSized v inode =
    ((n : ℕ) → length (read_block v n) ≡ v.ptrs_per_block)
    × (25 ≤ length inode)
    × (0 < v.ptrs_per_block)

pub blocks_self :
    (v : Volume) (n : ℕ) (words : List ℕ) → n ≢ 0 → read_block (write_block v n words) n ≡ words
unfolding write_block read_block
blocks_self v n words nz = rw (ne→== n 0 nz, eq→== n n refl) refl

pub blocks-ne :
    (v : Volume) (n m : ℕ) (words : List ℕ)
    → m ≢ n
    → read_block (write_block v n words) m ≡ read_block v m
unfolding write_block read_block
blocks-ne v n m words ne = elim (Bool-cases (n == 0)) [
  | inl e ↦ rw e refl
  | inr e ↦ rw (e, ne→== m n ne) refl
]

-- The place of a doubly indirect block.
abbrev double : Volume → ℕ → ℕ
double v block = block - 12 - v.ptrs_per_block

-- A triply indirect block cannot be set: for a block number behind the doubly indirect ones,
-- whatever real block is passed, the source writes the same thing.
pub ext2_set_real_block-triple :
    (v : Volume) (inode : List ℕ) (block real real1 : ℕ)
    → 12 + v.ptrs_per_block + v.ptrs_per_block * v.ptrs_per_block ≤ block
    → ext2_set_real_block v inode block real ≡ ext2_set_real_block v inode block real1
unfolding ext2_set_real_block
ext2_set_real_block-triple v inode block real real1 l =
    let a : 12 ≤ block = omega arith in
    let b : 12 + v.ptrs_per_block ≤ block = omega arith in
    rw
      (
        le→ltb block 12 a,
        le→ltb block (12 + v.ptrs_per_block) b,
        le→ltb block (12 + v.ptrs_per_block + v.ptrs_per_block * v.ptrs_per_block) l,
      )
      refl
