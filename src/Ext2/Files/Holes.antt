-- ===== src/Ext2/Files/Holes.antt =====
-- Files of src/ext2_fs.c without holes: no lookup meets the block 0, so what is read is on the disk.
use nibras_os.Prelude.{
  ℕ, ◌+◌, ◌-◌, ◌*◌, ◌/◌, ◌%◌, ◌≤◌, ◌<◌, ◌≡◌, refl, ◌≢◌, inl, inr, true, false, List, arith, ltb,
  leb, ltb→lt, Bool, if◌then◌else◌, Bool-cases, ne→==, ap, ◌∙◌, get_or, replicate,
}
use nibras_os.Ext2.Inodes.{
  Volume, blocks_word, pointer, entry, read_block, ext2_get_real_block, ext2_disk_inode_read_block,
}
use nibras_os.Ext2.Files.{file_block}

module _ (v : Volume) (inode : List ℕ) (block : ℕ) where
  abbrev p : ℕ
  p = v.ptrs_per_block

  -- A pointer as the disk has it.
  abbrev word : ℕ → ℕ → ℕ
  word n i = get_or (v.blocks n) i 0

  -- The places in the blocks of pointers.
  abbrev double : ℕ
  double = block - 12 - p

  abbrev triple : ℕ
  triple = double - p * p

  abbrev middle : ℕ
  middle = word (pointer inode 13) (double / p)

  abbrev second : ℕ
  second = word (pointer inode 14) (triple / (p * p))

  abbrev third : ℕ
  third = word second (triple % (p * p) / p)

  -- The block of the disk for a block of the file, by the pointers on the disk.
  abbrev pub mapped_block : ℕ
  mapped_block =
      if ltb block 12
      then pointer inode block
      else if ltb block (12 + p)
      then word (pointer inode 12) (block - 12)
      else if ltb block (12 + p + p * p)
      then word middle (double % p)
      else if ltb block (12 + p + p * p + p * p * p)
      then word third (triple % (p * p) % p)
      else 0

  -- Neither the block nor a block of pointers on the way to it is the block 0.
  pub record IsMapped : Type 0 where
    pub real : mapped_block ≢ 0
    pub single : 12 ≤ block → block < 12 + p → pointer inode 12 ≢ 0
    pub doubly : 12 + p ≤ block → block < 12 + p + p * p → (pointer inode 13 ≢ 0) × (middle ≢ 0)
    pub triply : 12 + p + p * p ≤ block → (pointer inode 14 ≢ 0) × (second ≢ 0) × (third ≢ 0)

  entry-word : (n i : ℕ) → n ≢ 0 → entry v n i ≡ word n i
  unfolding read_block
  entry-word n i nz = rw (ne→== n 0 nz) refl

  pub ext2_get_real_block-mapped_block : IsMapped → ext2_get_real_block v inode block ≡ mapped_block
  unfolding ext2_get_real_block
  ext2_get_real_block-mapped_block m = elim (Bool-cases (ltb block 12)) [
    | inl a ↦ rw a refl
    | inr a ↦ elim (Bool-cases (ltb block (12 + p))) [
      | inl b ↦
          rw (a, b)
            (entry-word (pointer inode 12) (block - 12)
              (m.single (ground arith) (ltb→lt block (12 + p) b)))
      | inr b ↦ elim (Bool-cases (ltb block (12 + p + p * p))) [
        | inl c ↦
            let (top, below) = m.doubly (ground arith) (ltb→lt block (12 + p + p * p) c) in
            rw (a, b, c)
              (ap (λ n. entry v n (double % p)) (entry-word (pointer inode 13) (double / p) top)
                ∙ entry-word middle (double % p) below)
        | inr c ↦ elim (Bool-cases (ltb block (12 + p + p * p + p * p * p))) [
          | inl d ↦
              let (top, below, low) = m.triply (ground arith) in
              let e = triple % (p * p) in
              rw (a, b, c, d)
                (ap (λ n. entry v (entry v n (e / p)) (e % p))
                    (entry-word (pointer inode 14) (triple / (p * p)) top)
                  ∙ ap (λ n. entry v n (e % p)) (entry-word second (e / p) below)
                  ∙ entry-word third (e % p) low)
          | inr d ↦ rw (a, b, c, d) refl
        ]
      ]
    ]
  ]

  -- The words of a block of the file, by the disk: zeros behind the blocks of the inode.
  abbrev pub disk_words : List ℕ
  disk_words =
      if leb (get_or inode blocks_word 0) block then replicate p 0 else v.blocks mapped_block

  file_block-read : file_block v inode block ≡ (
      if leb (get_or inode blocks_word 0) block
      then replicate p 0
      else read_block v (ext2_get_real_block v inode block))
  unfolding ext2_disk_inode_read_block
  file_block-read = cases (leb (get_or inode blocks_word 0) block)
    where
      real : ℕ
      real = ext2_get_real_block v inode block

      cases :
          (behind : Bool)
          → (if◌then◌else◌ {A = List ℕ × ℕ} behind (replicate p 0, 0) (read_block v real, real)).0
            ≡ (if behind then replicate p 0 else read_block v real)
      cases true = refl
      cases false = refl

  read_block-disk : (n : ℕ) → n ≢ 0 → read_block v n ≡ v.blocks n
  unfolding read_block
  read_block-disk n nz = rw (ne→== n 0 nz) refl

  pub file_block-disk_words :
      (block < get_or inode blocks_word 0 → IsMapped) → file_block v inode block ≡ disk_words
  file_block-disk_words m =
      file_block-read ∙ elim (Bool-cases (leb (get_or inode blocks_word 0) block)) [
        | inl behind ↦ rw behind refl
        | inr inside ↦
            let own = m (ground arith) in
            rw (inside, ext2_get_real_block-mapped_block own)
              (read_block-disk mapped_block (own.real))
      ]
