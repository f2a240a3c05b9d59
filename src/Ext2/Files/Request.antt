-- ===== src/Ext2/Files/Request.antt =====
-- What a call of `read_ext2_disk` of src/ext2_fs.c leaves in the caller's buffer.
use native.Mathlib.Decide.{dec_le}
use nibras_os.Prelude.{
  ℕ, ◌+◌, ◌-◌, ◌*◌, ◌/◌, ◌%◌, ◌≤◌, ◌<◌, ◌≡◌, refl, ◌≢◌, ◌⊎◌, inl, inr, List, arith, ◌==◌,
  Bool-cases, ==→eq, eq→==, ne→==, ap, sym, ◌∙◌, get_or,
}
use nibras_os.Ext2.Inodes.{Volume, size_word}
use nibras_os.Ext2.Files.{
  block_size, byte_at, copy_bytes, file_block, read_rounds, end_of, last_block, read_file,
}
use nibras_os.Ext2.Files.Reading.{
  copy_bytes_inside, copy_bytes_outside, product-le, product_suc, div_parts, start_parts, distance,
  later, rounds_outside, rounds_inside,
}

pub block-le : (q p a bs : ℕ) → q * bs ≤ a → a < p * bs + bs → q ≤ p
block-le q p a bs lo hi = elim (dec_le q p) [
  | yes le ↦ le
  | no gt ↦
      let far = product-le (p + 1) q bs (omega arith) in let next = product_suc p bs in omega arith
]

-- The request reads something, and the sums are 32-bit numbers.
pub record IsRequest (v : Volume) (inode : List ℕ) (offset size buffer : ℕ) : Type 0 where
  pub some_bytes : 0 < block_size v
  pub room : block_size v ≤ buffer
  pub small : offset + size < 4294967296
  pub small_file : get_or inode size_word 0 < 4294967296
  pub inside : offset < end_of inode offset size

module _ (v : Volume) (inode : List ℕ) (offset size buffer : ℕ)
    (request : IsRequest v inode offset size buffer) (mem : ℕ → ℕ) where
  abbrev b : ℕ
  b = block_size v

  abbrev first : ℕ
  first = offset / b

  abbrev end : ℕ
  end = end_of inode offset size

  abbrev last : ℕ
  last = last_block b end

  end-lt : end < 4294967296
  unfolding end_of
  end-lt = let s = request.small in let f = request.small_file in ground arith

  size_read : (end + 4294967296 - offset) % 4294967296 ≡ end - offset
  size_read = let i = request.inside in omega (arith, end-lt)

  one_block :
      last ≡ first
      → read_file v inode offset size buffer mem ≡ (
        end - offset,
        copy_bytes (end - offset) buffer (file_block v inode first) (offset % b) mem,
      )
  unfolding read_file
  one_block e = rw (size_read, eq→== first last (sym e)) refl

  abbrev looped : ℕ → ℕ
  looped = read_rounds (last - first) v inode offset buffer first 0 mem

  several_blocks :
      last ≢ first
      → read_file v inode offset size buffer mem ≡ (
        end - offset,
        copy_bytes
            (end % b)
            (buffer + b * (last - first) - offset % b)
            (file_block v inode last)
            0
            looped,
      )
  unfolding read_file
  several_blocks ne = rw (size_read, ne→== first last (λ e. ne (sym e))) refl

  last_inside : end % b ≢ 0 → last ≡ end / b
  unfolding last_block
  last_inside ne = rw (ne→== (end % b) 0 ne) refl

  last_full : end % b ≡ 0 → (last ≡ end / b - 1) × (0 < end / b)
  unfolding last_block
  last_full e =
      let (parts, low) = div_parts end b (request.some_bytes) in
      let i = request.inside in
      let lt = end-lt in
      let small : end / b ≤ end = quotient-le end b in
      let whole : 0 < end / b = elim (Bool-cases (end / b == 0)) [
        | inl z ↦
            let none_left = ap (λ (t : ℕ). t * b) (==→eq (end / b) 0 z) in absurd (omega arith)
        | inr p ↦ ground arith
      ] in
      rw (eq→== (end % b) 0 e) (omega arith, whole)
    where
      quotient-le : (a b : ℕ) → a / b ≤ a
      quotient-le a b = grind arith

  -- The end is in the block `last`, or at its end.
  end_parts : (end ≡ last * b + end % b) ⊎ ((end ≡ last * b + b) × (end % b ≡ 0))
  end_parts = elim (Bool-cases (end % b == 0)) [
    | inl z ↦
        let e : end % b ≡ 0 = ==→eq (end % b) 0 z in
        let (parts, low) = div_parts end b (request.some_bytes) in
        let (l, whole) = last_full e in
        let next : end / b ≡ last + 1 = omega arith in
        inr (omega (arith, ap (λ (t : ℕ). t * b) next), e)
    | inr n ↦
        let (parts, low) = div_parts end b (request.some_bytes) in
        let ne : end % b ≢ 0 = ground arith in
        let l : last ≡ end / b = last_inside ne in inl (omega (arith, ap (λ (t : ℕ). t * b) l))
  ]

  end_low : (last * b ≤ end) × (end ≤ last * b + b)
  end_low =
      let (parts, low) = div_parts end b (request.some_bytes) in
      elim end_parts [ inl e ↦ omega arith | inr (e, z) ↦ omega arith ]

  first-le-last : first ≤ last
  first-le-last =
      let (parts, low) = start_parts v inode offset buffer (request.some_bytes) (request.room) in
      let (lo, hi) = end_low in
      let i = request.inside in block-le first last offset b (omega arith) (omega arith)

  looped_lem : looped ≡ read_rounds (last - first) v inode offset buffer first (first - first) mem
  looped_lem =
      let z : 0 ≡ first - first = omega arith in
      ap (λ (t : ℕ). read_rounds (last - first) v inode offset buffer first t mem) z

  abbrev dst : ℕ
  dst = buffer + b * (last - first) - offset % b

  -- The last block begins in the buffer where the loop ends.
  dst_lem : last ≢ first → (dst ≡ buffer + (last * b - offset)) × (offset ≤ last * b)
  dst_lem ne =
      let (parts, low) = start_parts v inode offset buffer (request.some_bytes) (request.room) in
      let far =
        distance v inode offset buffer (request.some_bytes) (request.room) last first-le-last in
      let more =
        later v inode offset buffer (request.some_bytes) (request.room) last first-le-last ne in
      omega arith

  looped_outside : (a : ℕ) → (a < buffer) ⊎ (buffer + (last * b - offset) ≤ a) → looped a ≡ mem a
  looped_outside a out =
      let (parts, low) = start_parts v inode offset buffer (request.some_bytes) (request.room) in
      let e : (first + (last - first)) * b ≡ last * b =
        ap (λ (t : ℕ). t * b) (omega (arith, first-le-last)) in
      ap (λ (m : ℕ → ℕ). m a) looped_lem
      ∙ rounds_outside v inode offset buffer (request.some_bytes) (request.room) (last - first)
          first a mem (omega arith) (omega arith)

  looped_inside :
      (q r : ℕ)
      → q < last
      → r < b
      → offset ≤ q * b + r
      → looped (buffer + (q * b + r - offset)) ≡ byte_at (file_block v inode q) r
  looped_inside q r lt lr lo =
      let (parts, low) = start_parts v inode offset buffer (request.some_bytes) (request.room) in
      let le = block-le first q (q * b + r) b (omega arith) (omega arith) in
      ap (λ (m : ℕ → ℕ). m (buffer + (q * b + r - offset))) looped_lem
      ∙ rounds_inside v inode offset buffer (request.some_bytes) (request.room) (last - first) first
          q r mem (omega arith) le (omega arith) lr lo

  -- The bytes of the blocks that the loop and the last copy read.
  several_bytes :
      (q r : ℕ)
      → last ≢ first
      → (q < last) ⊎ ((q ≡ last) × (r < end % b))
      → r < b
      → offset ≤ q * b + r
      → (read_file v inode offset size buffer mem).1 (buffer + (q * b + r - offset))
        ≡ byte_at (file_block v inode q) r
  several_bytes q r ne at lr lo =
      let (d, before) = dst_lem ne in
      ap (λ (t : ℕ × (ℕ → ℕ)). t.1 (buffer + (q * b + r - offset))) (several_blocks ne) ∙ elim at [
        | inl lt ↦
            let below = product-le (q + 1) last b (omega arith) in
            let next = product_suc q b in
            copy_bytes_outside (end % b) dst (file_block v inode last) 0 looped
              (buffer + (q * b + r - offset)) (omega arith)
            ∙ looped_inside q r lt lr lo
        | inr (e, lt) ↦
            let qs = ap (λ (t : ℕ). t * b) e in
            let place : buffer + (q * b + r - offset) ≡ dst + r = omega arith in
            ap (copy_bytes (end % b) dst (file_block v inode last) 0 looped) place
            ∙ copy_bytes_inside (end % b) dst (file_block v inode last) 0 looped r lt
            ∙ ap (byte_at (file_block v inode last)) (omega arith)
            ∙ ap (λ (t : ℕ). byte_at (file_block v inode t) r) (sym e)
      ]

  several_outside :
      (a : ℕ)
      → last ≢ first
      → (a < buffer) ⊎ (buffer + (last * b + end % b - offset) ≤ a)
      → (read_file v inode offset size buffer mem).1 a ≡ mem a
  several_outside a ne out =
      let (d, before) = dst_lem ne in
      ap (λ (t : ℕ × (ℕ → ℕ)). t.1 a) (several_blocks ne)
      ∙ copy_bytes_outside (end % b) dst (file_block v inode last) 0 looped a (omega arith)
      ∙ looped_outside a (omega arith)

  single_bytes :
      (q r : ℕ)
      → last ≡ first
      → end ≤ first * b + b
      → r < b
      → offset ≤ q * b + r
      → q * b + r < end
      → (read_file v inode offset size buffer mem).1 (buffer + (q * b + r - offset))
        ≡ byte_at (file_block v inode q) r
  single_bytes q r e whole lr lo hi =
      let (parts, low) = start_parts v inode offset buffer (request.some_bytes) (request.room) in
      let q_le = block-le q first (q * b + r) b (omega arith) (omega arith) in
      let le_q = block-le first q (q * b + r) b (omega arith) (omega arith) in
      let same : q ≡ first = omega arith in
      let qs = ap (λ (t : ℕ). t * b) same in
      let place : buffer + (q * b + r - offset) ≡ buffer + (r - offset % b) = omega arith in
      ap (λ (t : ℕ × (ℕ → ℕ)). t.1 (buffer + (q * b + r - offset))) (one_block e)
      ∙ ap (copy_bytes (end - offset) buffer (file_block v inode first) (offset % b) mem) place
      ∙ copy_bytes_inside (end - offset) buffer (file_block v inode first) (offset % b) mem
          (r - offset % b) (omega arith)
      ∙ ap (byte_at (file_block v inode first)) (omega arith)
      ∙ ap (λ (t : ℕ). byte_at (file_block v inode t) r) (sym same)

  -- What the buffer holds afterwards.
  abbrev pub Filled : Type 0
  Filled =
      ((q r : ℕ)
        → r < b
        → offset ≤ q * b + r
        → q * b + r < end
        → (read_file v inode offset size buffer mem).1 (buffer + (q * b + r - offset))
          ≡ byte_at (file_block v inode q) r)
      × ((a : ℕ)
          → (a < buffer) ⊎ (buffer + (end - offset) ≤ a)
          → (read_file v inode offset size buffer mem).1 a ≡ mem a)

  single-Filled : last ≡ first → end ≤ first * b + b → Filled
  single-Filled e whole = (
    λ q r lr lo hi. single_bytes q r e whole lr lo hi,
    λ a out.
        ap (λ (t : ℕ × (ℕ → ℕ)). t.1 a) (one_block e)
        ∙ copy_bytes_outside (end - offset) buffer (file_block v inode first) (offset % b) mem a
            out,
  )

  several-Filled : last ≢ first → end ≡ last * b + end % b → Filled
  several-Filled ne parts = (
    λ q r lr lo hi.
        let q_le = block-le q last (q * b + r) b (omega arith) (omega (arith, end_low)) in
        several_bytes q r ne
          (elim (Bool-cases (q == last)) [
            | inl s ↦
                let e : q ≡ last = ==→eq q last s in inr (e, omega (arith, ap (λ (t : ℕ). t * b) e))
            | inr d ↦ inl (ground arith)
          ])
          lr lo,
    λ a out. several_outside a ne (omega arith),
  )

  pub read_file-Filled : (end % b ≢ 0) ⊎ (end ≤ first * b + b) → Filled
  read_file-Filled whole = elim (Bool-cases (last == first)) [
    | inl s ↦
        let e : last ≡ first = ==→eq last first s in
        single-Filled e (omega (arith, end_low, ap (λ (t : ℕ). t * b) e))
    | inr d ↦
        let ne : last ≢ first = ground arith in
        elim end_parts [
          | inl parts ↦ several-Filled ne parts
          | inr (e, z) ↦ elim whole [
            | inl other ↦ absurd (other z)
            | inr le ↦
                let same =
                  block-le last first (last * b) b (omega arith)
                    (omega (arith, request.some_bytes)) in
                absurd (omega (arith, first-le-last))
          ]
        ]
  ]

  pub read_file-size : (read_file v inode offset size buffer mem).0 ≡ end - offset
  unfolding read_file
  read_file-size = elim (Bool-cases (last == first)) [
    | inl s ↦ ap (λ (t : ℕ × (ℕ → ℕ)). t.0) (one_block (==→eq last first s))
    | inr d ↦ ap (λ (t : ℕ × (ℕ → ℕ)). t.0) (several_blocks (ground arith))
  ]

  -- When the request ends with a block, but not its first one, nothing of the last block is copied.
  pub read_file-last_block :
      (a : ℕ)
      → end % b ≡ 0
      → first * b + b < end
      → buffer + (end - b - offset) ≤ a
      → (read_file v inode offset size buffer mem).1 a ≡ mem a
  read_file-last_block a z more out =
      let (l, whole) = last_full z in
      let (parts, small) = div_parts end b (request.some_bytes) in
      let next : end / b ≡ last + 1 = omega arith in
      let next_end = ap (λ (t : ℕ). t * b) next in
      let ne : last ≢ first = λ same. omega (arith, ap (λ (t : ℕ). t * b) same) in
      several_outside a ne (omega arith)
