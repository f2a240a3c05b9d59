-- ===== src/Ext2/Inodes/Places.antt =====
-- Where inodes stand in the inode table of src/ext2_fs.c, and that what is written there is read back.
use nibras_os.Prelude.{
  ℕ, zero, suc, ◌+◌, ◌*◌, ◌≤◌, ◌<◌, ◌≡◌, refl, ◌≢◌, some, List, [], ◌∷◌, arith, le→ltb, get_elem?,
  set, take, drop, length, length-set, ap, sym, ◌∙◌,
}
use nibras_os.Ext2.Inodes.{
  Volume, Group, read_block, write_block, place_of, splice, ext2_disk_inode, ext2_disk_write_inode,
}
use nibras_os.Ext2.Inodes.BlockMap.{blocks_self}

length-splice : (xs : List ℕ) (off : ℕ) (ws : List ℕ) → length (splice xs off ws) ≡ length xs
unfolding splice
length-splice xs off [] = refl
length-splice xs off (w ∷ ws) =
    length-set (splice xs (off + 1) ws) off w ∙ length-splice xs (off + 1) ws

-- Reading on from a place: the element there, and the rest.
drop-set_self : (xs : List ℕ) (i w : ℕ) → i < length xs → drop i (set xs i w) ≡ w ∷ drop (suc i) xs
drop-set_self [] i w l = absurd (omega arith)
drop-set_self (x ∷ xs) zero w l = refl
drop-set_self (x ∷ xs) (suc i) w l = drop-set_self xs i w (omega arith)

take-drop-splice :
    (xs : List ℕ) (off : ℕ) (ws : List ℕ)
    → off + length ws ≤ length xs
    → take (length ws) (drop off (splice xs off ws)) ≡ ws
unfolding splice
take-drop-splice xs off [] l = refl
take-drop-splice xs off (w ∷ ws) l =
    let rest = take-drop-splice xs (off + 1) ws (omega arith) in
    let one : off + 1 ≡ suc off = omega arith in
    let rest' : take (length ws) (drop (suc off) (splice xs (off + 1) ws)) ≡ ws =
      ap (λ k. take (length ws) (drop k (splice xs (off + 1) ws))) (sym one) ∙ rest in
    rw
      (
        drop-set_self (splice xs (off + 1) ws) off w (omega (arith, length-splice xs (off + 1) ws)),
        rest',
      )
      refl

read-at :
    (v : Volume) (number : ℕ) (g : Group)
    → (place_of v number).0 ≤ length (v.groups)
    → get_elem? (v.groups) ((place_of v number).0) ≡ some g
    → ext2_disk_inode v number
      ≡ some (
          take (v.inode_words) (
            drop
              ((place_of v number).2 * v.inode_words)
              (read_block v (g.inode_table + (place_of v number).1))))
unfolding ext2_disk_inode
read-at v number g l e =
    rw (ext2_disk_inode, le→ltb (length (v.groups)) ((place_of v number).0) l, e) refl

write-at :
    (v : Volume) (inode : List ℕ) (number : ℕ) (g : Group)
    → (place_of v number).0 ≤ length (v.groups)
    → get_elem? (v.groups) ((place_of v number).0) ≡ some g
    → ext2_disk_write_inode v inode number
      ≡ write_block v (g.inode_table + (place_of v number).1) (
          splice
            (read_block v (g.inode_table + (place_of v number).1))
            ((place_of v number).2 * v.inode_words)
            inode)
unfolding ext2_disk_write_inode
write-at v inode number g l e =
    rw (ext2_disk_write_inode, le→ltb (length (v.groups)) ((place_of v number).0) l, e) refl

-- An inode that is written to the table is read back, when its group exists, it has the words of an
-- inode, and its place is inside the block, which is not the block 0.
pub ext2_disk_inode-write :
    (v : Volume) (inode : List ℕ) (number : ℕ) (g : Group)
    → (place_of v number).0 ≤ length (v.groups)
    → get_elem? (v.groups) ((place_of v number).0) ≡ some g
    → length inode ≡ v.inode_words
    → (place_of v number).2 * v.inode_words + v.inode_words
      ≤ length (read_block v (g.inode_table + (place_of v number).1))
    → g.inode_table + (place_of v number).1 ≢ 0
    → ext2_disk_inode (ext2_disk_write_inode v inode number) number ≡ some inode
unfolding write_block place_of
ext2_disk_inode-write v inode number g l e n room nz =
    let b = g.inode_table + (place_of v number).1 in
    let off = (place_of v number).2 * v.inode_words in
    let w = write_block v b (splice (read_block v b) off inode) in
    rw (write-at v inode number g l e) (
      read-at w number g l e
      ∙ ap some (
          ap (λ ws. take (v.inode_words) (drop off ws))
            (blocks_self v b (splice (read_block v b) off inode) nz)
          ∙ ap (λ k. take k (drop off (splice (read_block v b) off inode))) (sym n)
          ∙ take-drop-splice (read_block v b) off inode (omega arith)))
