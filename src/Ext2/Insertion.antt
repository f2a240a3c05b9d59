-- ===== src/Ext2/Insertion.antt =====
-- `insertdir_ext2_disk` of src/ext2_fs.c in a directory of one block.
use nibras_os.Prelude.{
  ℕ, zero, suc, ◌+◌, ◌-◌, ◌%◌, ◌≤◌, ◌<◌, ◌≡◌, refl, inl, inr, true, Option, none, some, List, arith,
  ◌==◌, ltb, leb, length, get_or, set, length-set, Bool-cases, Option-cases, ◌≢◌, ap, ◌∙◌,
}
use mathlib.Core.Path.{subst}
use nibras_os.Strings.{strlen}
use nibras_os.Ext2.Inodes.{
  Volume, size_word, blocks_word, ext2_get_real_block, ext2_disk_write_inode,
}
use nibras_os.Ext2.Files.{block_size, byte_at, file_block, ext2_disk_inode_write_block}
use nibras_os.Ext2.Files.Writing.{IsOwn, ext2_disk_inode_read_block-write_block}
use nibras_os.Ext2.Directories.{Direntry, Place, entry_at, next_place, start_place, is_dir}
use nibras_os.Ext2.Nodes.{short_len, put_entry, last_place, insertdir_ext2_disk}
use nibras_os.Ext2.NewEntry.{EndsWith, put_entry-end, EndsWith-with_entry}

rec_len-lt : (words : List ℕ) (o : ℕ) (d : Direntry) → entry_at words o ≡ some d → d.rec_len < 65536
unfolding entry_at
rec_len-lt words o d e = ground arith

name_len-lt : (words : List ℕ) (o : ℕ) (d : Direntry) → entry_at words o ≡ some d → d.name_len < 256
unfolding entry_at
name_len-lt words o d e = ground arith

short_len-le : (n : ℕ) → short_len n ≤ n + 12
unfolding short_len
short_len-le n = ground arith

leb→le : (a b : ℕ) → leb a b ≡ true → a ≤ b
leb→le a b h = ground arith

module _ (v : Volume) (inode : List ℕ) (size_is : get_or inode size_word 0 ≡ block_size v)
    (small : block_size v < 65536)
    (blocks : (b : ℕ) → length (file_block v inode b) ≡ v.ptrs_per_block) where
  abbrev bs : ℕ
  bs = block_size v

  -- What holds along the walk: within the directory both offsets are the same.
  record OnWalk (p : Place) : Type 0 where
    same : p.total_offset < bs → p.dir_offset ≡ p.total_offset
    near : p.total_offset < bs + 65536
    whole : length (p.words) ≡ v.ptrs_per_block

  -- Within the directory, the place that the walk gives has both offsets the same in a whole block.
  abbrev IsEnd : Option Place → Type 0
  IsEnd none = Unit {0}
  IsEnd (some p) =
      p.total_offset < bs → (p.dir_offset ≡ p.total_offset) × (length (p.words) ≡ v.ptrs_per_block)

  shortened :
      (p : Place) (w short : ℕ)
      → OnWalk p
      → p.total_offset < bs
      → short < 65536
      → (p.total_offset + short) % 4294967296 < bs
      → (p.dir_offset + short ≡ (p.total_offset + short) % 4294967296)
        × (length (set (p.words) (p.dir_offset + 1) w) ≡ v.ptrs_per_block)
  shortened p w short on more lt within =
      let same = on.same more in (omega arith, length-set (p.words) (p.dir_offset + 1) w ∙ on.whole)

  advanced :
      (p : Place) (d : Direntry)
      → OnWalk p
      → p.total_offset < bs
      → d.rec_len < 65536
      → OnWalk (next_place v inode 4294967296 p (d.rec_len))
  unfolding next_place
  advanced p d on more rec = elim (Bool-cases (leb bs (p.dir_offset + d.rec_len))) [
    | inl q ↦ rw q (record {
      same = λ lt. absurd (omega (arith, on.same more, leb→le bs (p.dir_offset + d.rec_len) q));
      near = omega arith;
      whole = blocks ((p.block_nr + 1) % 4294967296);
    })
    | inr q ↦
        rw q (record {
          same = λ lt. omega (arith, on.same more);
          near = omega arith;
          whole = on.whole;
        })
  ]

  last_place-IsEnd : (n : ℕ) (p : Place) → OnWalk p → IsEnd (last_place n v inode p)
  unfolding last_place
  last_place-IsEnd zero p w = tt
  last_place-IsEnd (suc n) p w =
      elim (Bool-cases (ltb (p.total_offset) (get_or inode size_word 0))) [
        | inr q ↦ rw q (λ within. absurd (ground arith))
        | inl q ↦
            let more : p.total_offset < bs = ground arith in
            elim (Option-cases (entry_at (p.words) (p.dir_offset))) [
              | inl e ↦ rw (q, e) tt
              | inr (d, e) ↦
                  let rec = rec_len-lt (p.words) (p.dir_offset) d e in
                  elim (Bool-cases
                    ((d.rec_len + p.total_offset) % 4294967296 == get_or inode size_word 0)) [
                      | inl last ↦
                          rw (q, e, last)
                            (λ within.
                              shortened p _ (short_len (d.name_len)) w more
                                (omega (
                                  arith,
                                  short_len-le (d.name_len),
                                  name_len-lt (p.words) (p.dir_offset) d e,
                                ))
                                within)
                      | inr other ↦
                          rw (q, e, other)
                            (last_place-IsEnd n (next_place v inode 4294967296 p (d.rec_len))
                              (advanced p d w more rec))
                    ]
            ]
      ]

insertdir_ext2_disk-eq :
    (fuel : ℕ) (left : ℕ → ℕ) (v v1 : Volume) (p_node : List ℕ) (inode_no number : ℕ)
    (name : List ℕ) (type size real n : ℕ) (p : Place) (words : List ℕ)
    → is_dir p_node ≡ true
    → last_place fuel v p_node (start_place v p_node) ≡ some p
    → (get_or p_node size_word 0 + 4294967296 - p.total_offset) % 4294967296 ≡ size
    → put_entry left (p.words) (p.dir_offset) size number name type ≡ some (words, n)
    → ext2_disk_inode_write_block fuel v p_node inode_no (p.block_nr) words
      ≡ some (v1, p_node, real)
    → insertdir_ext2_disk fuel left v p_node inode_no number name type
      ≡ some (ext2_disk_write_inode v1 p_node inode_no, n)
unfolding insertdir_ext2_disk
insertdir_ext2_disk-eq fuel left v v1 p_node inode_no number name type size real n p words dir found
      rest put w =
    rw (dir, found, rest, put, w) refl

-- In a directory of one block, of less than 65536 bytes, in a volume whose blocks have their size,
-- where the walk over the entries ends at a place with room for the new one, in a direct block or a
-- singly indirect one that is not the block of pointers, and that is not the block 0 of the disk,
-- insertdir_ext2_disk writes the new entry, its number, its length up to the end of the block, the
-- length of the name, the type and the name, at that place and keeps the bytes before it as the
-- walk leaves them, but the four zeros that it writes behind the entry all stand behind the buffer
-- of the block.
pub insertdir_ext2_disk-behind :
    (fuel : ℕ) (left : ℕ → ℕ) (v : Volume) (p_node : List ℕ) (inode_no number : ℕ) (name : List ℕ)
    (type : ℕ) (p : Place)
    → is_dir p_node ≡ true
    → get_or p_node size_word 0 ≡ block_size v
    → block_size v < 65536
    → ((b : ℕ) → length (file_block v p_node b) ≡ v.ptrs_per_block)
    → last_place (suc fuel) v p_node (start_place v p_node) ≡ some p
    → p.total_offset + 8 + strlen name ≤ block_size v
    → p.block_nr < get_or p_node blocks_word 0
    → IsOwn v p_node (p.block_nr)
    → ext2_get_real_block v p_node (p.block_nr) ≢ 0
    → (v1 : Volume) × (insertdir_ext2_disk (suc fuel) left v p_node inode_no number name type
        ≡ some (ext2_disk_write_inode v1 p_node inode_no, 4))
      × EndsWith
          (byte_at (file_block v1 p_node (p.block_nr)))
          (p.words)
          (p.total_offset)
          (block_size v - p.total_offset)
          number
          name
          type
insertdir_ext2_disk-behind fuel left v p_node inode_no number name type p dir size_is small blocks
      found room lt own nz =
    let start : OnWalk v p_node size_is small blocks (start_place v p_node) = record {
      same = λ lt. refl;
      near = omega arith;
      whole = blocks 0;
    } in
    let at_end =
      subst (IsEnd v p_node size_is small blocks) found
        (last_place-IsEnd v p_node size_is small blocks (suc fuel) (start_place v p_node) start) in
    let (same, whole) = at_end (omega arith) in
    let size : (get_or p_node size_word 0 + 4294967296 - p.total_offset) % 4294967296
        ≡ block_size v - p.total_offset =
      omega arith in
    let (words, put, len, bytes) =
      put_entry-end left (p.words) (p.total_offset) (block_size v - p.total_offset) number name type
        (omega arith) (omega arith) (omega arith) in
    let (v1, w, back, others) =
      ext2_disk_inode_read_block-write_block fuel v p_node inode_no (p.block_nr) words lt own nz in
    (
      v1,
      insertdir_ext2_disk-eq (suc fuel) left v v1 p_node inode_no number name type
          (block_size v - p.total_offset) (ext2_get_real_block v p_node (p.block_nr)) 4 p words dir
          found size
          (ap (λ o. put_entry left (p.words) o (block_size v - p.total_offset) number name type)
              same
            ∙ put)
          w,
      EndsWith-with_entry left (p.words) (p.total_offset) (block_size v - p.total_offset) number
          name type (omega arith) (byte_at (file_block v1 p_node (p.block_nr)))
          (λ k hk. ap (λ (r : List ℕ × ℕ). byte_at (r.0) k) back ∙ bytes k (omega arith)),
    )
