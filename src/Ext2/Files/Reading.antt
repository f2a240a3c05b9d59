-- ===== src/Ext2/Files/Reading.antt =====
-- `read_ext2_disk` of src/ext2_fs.c against the bytes of the file.
use nibras_os.Prelude.{
  ℕ, zero, suc, ◌+◌, ◌-◌, ◌*◌, ◌/◌, ◌%◌, ◌≤◌, ◌<◌, ◌&&◌, ◌≡◌, refl, ◌≢◌, ◌⊎◌, inl, inr, true, false,
  List, arith, ◌==◌, ltb, leb, Bool-cases, ==→eq, eq→==, ne→==, ap, sym, ◌∙◌,
}
use nibras_os.Ext2.Inodes.{Volume}
use nibras_os.Ext2.Files.{block_size, byte_at, copy_bytes, file_block, read_round, read_rounds}

module _ (n dst : ℕ) (words : List ℕ) (off : ℕ) (mem : ℕ → ℕ) where
  pub copy_bytes_inside :
      (k : ℕ) → k < n → copy_bytes n dst words off mem (dst + k) ≡ byte_at words (off + k)
  unfolding copy_bytes
  copy_bytes_inside k lt =
      let inside : (leb dst (dst + k) && ltb (dst + k) (dst + n)) ≡ true = ground arith in
      let z : dst + k - dst ≡ k = omega arith in rw (inside, z) refl

  pub copy_bytes_outside :
      (a : ℕ) → (a < dst) ⊎ (dst + n ≤ a) → copy_bytes n dst words off mem a ≡ mem a
  unfolding copy_bytes
  copy_bytes_outside a out =
      let outside : (leb dst a && ltb a (dst + n)) ≡ false = ground arith in rw outside refl

pub product-le : (i j bs : ℕ) → i ≤ j → i * bs ≤ j * bs
product-le i j bs h = grind arith

pub product_suc : (i bs : ℕ) → (i + 1) * bs ≡ i * bs + bs
product_suc i bs = omega arith

pub div_parts : (a bs : ℕ) → 0 < bs → (a ≡ a / bs * bs + a % bs) × (a % bs < bs)
div_parts a bs h = (grind arith, grind arith)

-- One request: `offset` stands in the block `offset / bs`.
module _ (v : Volume) (inode : List ℕ) (offset buffer : ℕ) (some_bytes : 0 < block_size v)
    (room : block_size v ≤ buffer) where
  abbrev pub bs : ℕ
  bs = block_size v

  abbrev pub start : ℕ
  start = offset / bs

  -- The place of a byte of the file in the buffer.
  abbrev pub place : ℕ → ℕ
  place at = buffer + (at - offset)

  pub start_parts : (offset ≡ start * bs + offset % bs) × (offset % bs < bs)
  start_parts = div_parts offset bs some_bytes

  round_first :
      (mem : ℕ → ℕ)
      → read_round v inode offset buffer start 0 mem
        ≡ copy_bytes (bs - offset % bs) buffer (file_block v inode start) (offset % bs) mem
  unfolding read_round
  round_first mem = rw (eq→== start start refl) refl

  round_next :
      (q br : ℕ) (mem : ℕ → ℕ)
      → q ≢ start
      → read_round v inode offset buffer q br mem
        ≡ copy_bytes bs (buffer + bs * br - offset % bs) (file_block v inode q) 0 mem
  unfolding read_round
  round_next q br mem ne = rw (ne→== q start ne) refl

  -- The distance of two blocks in bytes.
  pub distance : (q : ℕ) → start ≤ q → bs * (q - start) + start * bs ≡ q * bs
  distance q le =
      let e : q ≡ q - start + start = omega arith in omega (arith, ap (λ (t : ℕ). t * bs) e)

  pub later : (q : ℕ) → start ≤ q → q ≢ start → bs ≤ bs * (q - start)
  later q le ne =
      let e : q - start ≡ q - start - 1 + 1 = omega arith in omega (arith, ap (λ (t : ℕ). bs * t) e)

  round_inside :
      (q r : ℕ) (mem : ℕ → ℕ)
      → start ≤ q
      → r < bs
      → offset ≤ q * bs + r
      → read_round v inode offset buffer q (q - start) mem (place (q * bs + r))
        ≡ byte_at (file_block v inode q) r
  round_inside q r mem le lr lo = elim (Bool-cases (q == start)) [
    | inl same ↦
        let e : q ≡ start = ==→eq q start same in
        let (parts, low) = start_parts in
        let qs = ap (λ (t : ℕ). t * bs) e in
        let z : q - start ≡ 0 = omega arith in
        let at : place (q * bs + r) ≡ buffer + (r - offset % bs) = omega (arith, qs, parts) in
        let byte : offset % bs + (r - offset % bs) ≡ r = omega (arith, qs, parts) in
        ap (λ (t : ℕ). read_round v inode offset buffer t (q - start) mem (place (q * bs + r))) e
        ∙ ap (λ (t : ℕ). read_round v inode offset buffer start t mem (place (q * bs + r))) z
        ∙ ap (λ (m : ℕ → ℕ). m (place (q * bs + r))) (round_first mem)
        ∙ ap (copy_bytes (bs - offset % bs) buffer (file_block v inode start) (offset % bs) mem) at
        ∙ copy_bytes_inside (bs - offset % bs) buffer (file_block v inode start) (offset % bs) mem
            (r - offset % bs) (omega (arith, qs, parts))
        ∙ ap (byte_at (file_block v inode start)) byte
        ∙ ap (λ (t : ℕ). byte_at (file_block v inode t) r) (sym e)
    | inr other ↦
        let ne : q ≢ start = ground arith in
        let (parts, low) = start_parts in
        let dst = buffer + bs * (q - start) - offset % bs in
        let at : place (q * bs + r) ≡ dst + r =
          omega (arith, distance q le, later q le ne, parts) in
        ap (λ (m : ℕ → ℕ). m (place (q * bs + r))) (round_next q (q - start) mem ne)
        ∙ ap (copy_bytes bs dst (file_block v inode q) 0 mem) at
        ∙ copy_bytes_inside bs dst (file_block v inode q) 0 mem r lr
        ∙ ap (byte_at (file_block v inode q)) (omega arith)
  ]

  round_outside :
      (q a : ℕ) (mem : ℕ → ℕ)
      → start ≤ q
      → (a < place (q * bs)) ⊎ (place (q * bs + bs) ≤ a)
      → read_round v inode offset buffer q (q - start) mem a ≡ mem a
  round_outside q a mem le out = elim (Bool-cases (q == start)) [
    | inl same ↦
        let e : q ≡ start = ==→eq q start same in
        let (parts, low) = start_parts in
        let qs = ap (λ (t : ℕ). t * bs) e in
        let z : q - start ≡ 0 = omega arith in
        ap (λ (t : ℕ). read_round v inode offset buffer t (q - start) mem a) e
        ∙ ap (λ (t : ℕ). read_round v inode offset buffer start t mem a) z
        ∙ ap (λ (m : ℕ → ℕ). m a) (round_first mem)
        ∙ copy_bytes_outside (bs - offset % bs) buffer (file_block v inode start) (offset % bs) mem
            a (omega (arith, qs, parts))
    | inr other ↦
        let ne : q ≢ start = ground arith in
        let (parts, low) = start_parts in
        ap (λ (m : ℕ → ℕ). m a) (round_next q (q - start) mem ne)
        ∙ copy_bytes_outside bs (buffer + bs * (q - start) - offset % bs) (file_block v inode q) 0
            mem a (omega (arith, distance q le, later q le ne, parts))
  ]

  rounds_again :
      (n q : ℕ) (mem : ℕ → ℕ)
      → start ≤ q
      → read_rounds (suc n) v inode offset buffer q (q - start) mem
        ≡ read_rounds n v inode offset buffer
            (q + 1)
            (q + 1 - start)
            (read_round v inode offset buffer q (q - start) mem)
  unfolding read_rounds
  rounds_again n q mem le =
      let e : q - start + 1 ≡ q + 1 - start = omega arith in
      ap
        (λ (t : ℕ).
          read_rounds n v inode offset buffer (q + 1) t
            (read_round v inode offset buffer q (q - start) mem))
        e

  pub rounds_outside :
      (n q a : ℕ) (mem : ℕ → ℕ)
      → start ≤ q
      → (a < place (q * bs)) ⊎ (place ((q + n) * bs) ≤ a)
      → read_rounds n v inode offset buffer q (q - start) mem a ≡ mem a
  rounds_outside zero q a mem le out = unfold read_rounds in refl
  rounds_outside (suc n) q a mem le out =
      let next = product_suc q bs in
      let e : (q + 1 + n) * bs ≡ (q + suc n) * bs = ap (λ (t : ℕ). t * bs) (omega arith) in
      let far = product-le (q + 1) (q + suc n) bs (omega arith) in
      ap (λ (m : ℕ → ℕ). m a) (rounds_again n q mem le)
      ∙ rounds_outside n (q + 1) a (read_round v inode offset buffer q (q - start) mem)
          (omega arith) (omega arith)
      ∙ round_outside q a mem le (omega arith)

  pub rounds_inside :
      (n q i r : ℕ) (mem : ℕ → ℕ)
      → start ≤ q
      → q ≤ i
      → i < q + n
      → r < bs
      → offset ≤ i * bs + r
      → read_rounds n v inode offset buffer q (q - start) mem (place (i * bs + r))
        ≡ byte_at (file_block v inode i) r
  rounds_inside zero q i r mem le qi iq lr lo = absurd (omega arith)
  rounds_inside (suc n) q i r mem le qi iq lr lo =
      let mem1 : ℕ → ℕ = read_round v inode offset buffer q (q - start) mem in
      ap (λ (m : ℕ → ℕ). m (place (i * bs + r))) (rounds_again n q mem le)
      ∙ elim (Bool-cases (q == i)) [
        | inl same ↦
            let e : q ≡ i = ==→eq q i same in
            let at : q * bs ≡ i * bs = ap (λ (t : ℕ). t * bs) e in
            let next = product_suc q bs in
            rounds_outside n (q + 1) (place (i * bs + r)) mem1 (omega arith) (omega arith)
            ∙ ap (λ (t : ℕ). mem1 (place (t + r))) (sym at)
            ∙ round_inside q r mem le lr (omega arith)
            ∙ ap (λ (t : ℕ). byte_at (file_block v inode t) r) e
        | inr other ↦
            rounds_inside n (q + 1) i r mem1 (omega arith) (ground arith) (omega arith) lr lo
      ]
