-- ===== src/Ext2/Inodes/Alloc.antt =====
-- The search for a free block in the bitmap of a group, `ext2_disk_inode_alloc_block` of src/ext2_fs.c.
use nibras_os.Prelude.{
  ℕ, zero, suc, ◌+◌, ◌/◌, ◌%◌, ◌^◌, ◌≤◌, ◌<◌, ◌≡◌, ◌≢◌, inl, inr, Option, none, some, List, arith,
  ◌==◌, ==→eq, get_or, set, length, get_or-set_self, get_or-set_ne, Bool-cases, ap, sym, ◌∙◌, bit,
  bit_or, bit-lt, bit-set_self, bit-set_ne,
}
use nibras_os.Ext2.Inodes.{clear_bit, mark_bit}

-- The bit `n` of a bitmap.
abbrev pub bitmap_bit : List ℕ → ℕ → ℕ
bitmap_bit bitmap n = bit (get_or bitmap (n / 32) 0) (n % 32)

-- The first clear bit from `start` on, of `n` bits; `none` when they are all set.
abbrev pub FirstClear : ℕ → List ℕ → ℕ → Option ℕ → Type 0
FirstClear n bitmap start none = (j : ℕ) → start ≤ j → j < start + n → bitmap_bit bitmap j ≡ 1
FirstClear n bitmap start (some k) =
    (start ≤ k)
    × (k < start + n)
    × (bitmap_bit bitmap k ≡ 0)
    × ((j : ℕ) → start ≤ j → j < k → bitmap_bit bitmap j ≡ 1)

extend :
    (n : ℕ) (bitmap : List ℕ) (start : ℕ) (o : Option ℕ)
    → bitmap_bit bitmap start ≡ 1
    → FirstClear n bitmap (start + 1) o
    → FirstClear (suc n) bitmap start o
extend n bitmap start none b h = λ j l u. elim (Bool-cases (j == start)) [
  | inl e ↦ rw (==→eq j start e) b
  | inr e ↦ h j (ground arith) (omega arith)
]
extend n bitmap start (some k) b (l, u, c, h) = (
  omega arith,
  omega arith,
  c,
  λ j l' u'. elim (Bool-cases (j == start)) [
    | inl e ↦ rw (==→eq j start e) b
    | inr e ↦ h j (ground arith) u'
  ],
)

-- The loop over the bitmap stops at the first clear bit, and at none only when all bits are set.
pub clear_bit-FirstClear :
    (n : ℕ) (bitmap : List ℕ) (start : ℕ) → FirstClear n bitmap start (clear_bit n bitmap start)
unfolding clear_bit
clear_bit-FirstClear zero bitmap start = λ j l u. absurd (omega arith)
clear_bit-FirstClear (suc n) bitmap start = elim (Bool-cases (bitmap_bit bitmap start == 0)) [
  | inl e ↦
      rw e (
        omega arith,
        omega arith,
        ==→eq (bitmap_bit bitmap start) 0 e,
        λ j l u. absurd (omega arith),
      )
  | inr e ↦
      let one : bitmap_bit bitmap start ≡ 1 =
        ground (arith, bit-lt (get_or bitmap (start / 32) 0) (start % 32)) in
      rw e (
        extend n bitmap start (clear_bit n bitmap (start + 1)) one
          (clear_bit-FirstClear n bitmap (start + 1)))
]

-- Marking a bit of the bitmap sets it and keeps every other one.
pub mark_bit-bits :
    (bitmap : List ℕ) (n : ℕ)
    → n / 32 < length bitmap
    → (bitmap_bit (mark_bit bitmap n) n ≡ 1)
      × ((j : ℕ) → j ≢ n → bitmap_bit (mark_bit bitmap n) j ≡ bitmap_bit bitmap j)
unfolding mark_bit
mark_bit-bits bitmap n l =
    let w = get_or bitmap (n / 32) 0 in
    let marked = bit_or w (2 ^ (n % 32)) in
    (
      ap (λ x. bit x (n % 32)) (get_or-set_self bitmap (n / 32) marked 0 l)
          ∙ bit-set_self w (n % 32),
      λ j ne. elim (Bool-cases (j / 32 == n / 32)) [
        | inl e ↦
            let q = ==→eq (j / 32) (n / 32) e in
            ap (λ i. bit (get_or (set bitmap (n / 32) marked) i 0) (j % 32)) q
            ∙ ap (λ x. bit x (j % 32)) (get_or-set_self bitmap (n / 32) marked 0 l)
            ∙ bit-set_ne w (n % 32) (j % 32) (omega arith)
            ∙ ap (λ i. bit (get_or bitmap i 0) (j % 32)) (sym q)
        | inr e ↦
            ap (λ x. bit x (j % 32))
              (get_or-set_ne bitmap (n / 32) (j / 32) marked 0 (ground arith))
      ],
    )
