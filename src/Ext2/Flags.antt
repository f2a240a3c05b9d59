-- ===== src/Ext2/Flags.antt =====
-- The flags that src/ext2_fs.c gives the node of an inode.
use nibras_os.Prelude.{
  ℕ, ◌+◌, ◌*◌, ◌/◌, ◌%◌, ◌≡◌, refl, bit_and, and_lowest, arith, if◌then◌else◌, ◌==◌, ap, ◌∙◌, min,
  Bool,
}
use nibras_os.Ext2.Nodes.{
  Maker, null, unset, ext2_maker, flags_of, maker_of, has_type, ifreg, ifdir, ifblk, ifchr, ififo,
  iflnk,
}

and_double : (x y : ℕ) → bit_and x (2 * y) ≡ 2 * bit_and (x / 2) y
and_double x y =
    let low : 2 * y % 2 ≡ 0 = omega arith in
    let high : 2 * y / 2 ≡ y = omega arith in
    let e : min (x % 2) 0 + 2 * bit_and (x / 2) y ≡ bit_and x (2 * y) =
      rw (low, high) at (and_lowest x (2 * y)) in
    omega arith

and_eighth : (x y : ℕ) → bit_and x (8 * y) ≡ 8 * bit_and (x / 8) y
and_eighth x y =
    let a : 8 * y ≡ 2 * (2 * (2 * y)) = omega arith in
    let b : x / 2 / 2 / 2 ≡ x / 8 = omega arith in
    rw a (
      omega (
        arith,
        and_double x (2 * (2 * y)),
        and_double (x / 2) (2 * y),
        and_double (x / 2 / 2) y,
        ap (λ (t : ℕ). bit_and t y) b,
      ))

-- The type of a mode is what stands above its twelve bits of rights.
and_type : (mode y : ℕ) → bit_and mode (4096 * y) ≡ 4096 * bit_and (mode / 4096) y
and_type mode y =
    let a : 4096 * y ≡ 8 * (8 * (8 * (8 * y))) = omega arith in
    let b : mode / 8 / 8 / 8 / 8 ≡ mode / 4096 = omega arith in
    rw a (
      omega (
        arith,
        and_eighth mode (8 * (8 * (8 * y))),
        and_eighth (mode / 8) (8 * (8 * y)),
        and_eighth (mode / 8 / 8) (8 * y),
        and_eighth (mode / 8 / 8 / 8) y,
        ap (λ (t : ℕ). bit_and t y) b,
      ))

has_type-eq :
    (mode type y : ℕ) → type ≡ 4096 * y → has_type mode type ≡ (bit_and (mode / 4096) y == y)
has_type-eq mode type y e = rw (e, and_type mode y) (ground arith)

-- The types of inodes, and what the upper four bits of a mode are for each.
pub data FileType : Type 0 where
  regular : FileType
  directory : FileType
  block_device : FileType
  char_device : FileType
  fifo : FileType
  symlink : FileType
  socket : FileType

abbrev pub code : FileType → ℕ
code regular = 8
code directory = 4
code block_device = 6
code char_device = 2
code fifo = 1
code symlink = 10
code socket = 12

-- FS_FILE 1, FS_DIRECTORY 2, FS_CHARDEVICE 4, FS_BLOCKDEVICE 8, FS_PIPE 16, FS_SYMLINK 32.
abbrev pub flags_for : FileType → ℕ
flags_for regular = 1
flags_for directory = 2
flags_for block_device = 8 + 4 + 2
flags_for char_device = 4
flags_for fifo = 16
flags_for symlink = 32 + 4 + 1
flags_for socket = 2 + 1

abbrev pub maker_for : FileType → Maker
maker_for regular = null
maker_for directory = ext2_maker
maker_for block_device = ext2_maker
maker_for char_device = unset
maker_for fifo = unset
maker_for symlink = null
maker_for socket = ext2_maker

abbrev holds : ℕ → ℕ → Bool
holds type y = bit_and type y == y

abbrev flags_at : ℕ → ℕ
flags_at type =
    (if holds type 8 then 1 else 0)
    + (if holds type 4 then 2 else 0)
    + (if holds type 6 then 8 else 0)
    + (if holds type 2 then 4 else 0)
    + (if holds type 1 then 16 else 0)
    + (if holds type 10 then 32 else 0)

abbrev maker_at : ℕ → Maker
maker_at type = if holds type 4 then ext2_maker else if holds type 8 then null else unset

flags_of-at : (mode : ℕ) → flags_of mode ≡ flags_at (mode / 4096)
unfolding flags_of
flags_of-at mode =
    rw
      (
        has_type-eq mode ifreg 8 refl,
        has_type-eq mode ifdir 4 refl,
        has_type-eq mode ifblk 6 refl,
        has_type-eq mode ifchr 2 refl,
        has_type-eq mode ififo 1 refl,
        has_type-eq mode iflnk 10 refl,
      )
      refl

maker_of-at : (mode : ℕ) → maker_of mode ≡ maker_at (mode / 4096)
unfolding maker_of
maker_of-at mode = rw (has_type-eq mode ifdir 4 refl, has_type-eq mode ifreg 8 refl) refl

-- The flags of a node and its create and mkdir, for each type of inode: regular files, directories,
-- character devices and pipes get their own flag alone; a block device is a character device and a
-- directory too, a symbolic link a character device and a file too, and a socket a directory and a
-- file. The functions of ext2 are put into directories, block devices and sockets.
pub flags_of-type :
    (t : FileType) (mode : ℕ)
    → mode / 4096 ≡ code t
    → (flags_of mode ≡ flags_for t) × (maker_of mode ≡ maker_for t)
flags_of-type t mode e =
    let (f, m) = by_type t in
    (flags_of-at mode ∙ ap flags_at e ∙ f, maker_of-at mode ∙ ap maker_at e ∙ m)
  where
    by_type : (t : FileType) → (flags_at (code t) ≡ flags_for t) × (maker_at (code t) ≡ maker_for t)
    by_type regular = (refl, refl)
    by_type directory = (refl, refl)
    by_type block_device = (refl, refl)
    by_type char_device = (refl, refl)
    by_type fifo = (refl, refl)
    by_type symlink = (refl, refl)
    by_type socket = (refl, refl)
