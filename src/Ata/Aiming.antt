-- ===== src/Ata/Aiming.antt =====
-- The registers that src/ata.c sets before a command name the drive and the lowest 28 bits of the sector number.
use nibras_os.Prelude.{
  ℕ, zero, suc, ◌+◌, ◌*◌, ◌/◌, ◌%◌, ◌<◌, ◌≡◌, arith, ap, ◌∙◌, bit_or, or_lowest, bit_or_same,
}
use nibras_os.Ata.{Ports, device_byte, set_sector}
use nibras_os.Ata.Drive.{View, IsDrive, idle, SameSectors, IsAddressed, slave_of, lba_of}

-- Four bits below a multiple of 16.
bit_or_low : (m n : ℕ) → n < 16 → bit_or (16 * m) n ≡ 16 * m + n
bit_or_low m n lt =
    let x = 16 * m in
    let none_left : n / 2 / 2 / 2 / 2 ≡ 0 = omega arith in
    let rest : bit_or (x / 2 / 2 / 2 / 2) (n / 2 / 2 / 2 / 2) ≡ x / 2 / 2 / 2 / 2 =
      ap (bit_or (x / 2 / 2 / 2 / 2)) none_left
      ∙ bit_or_same (x / 2 / 2 / 2 / 2) (x / 2 / 2 / 2 / 2) (omega arith) in
    omega (
      arith,
      or_lowest x n,
      or_lowest (x / 2) (n / 2),
      or_lowest (x / 2 / 2) (n / 2 / 2),
      or_lowest (x / 2 / 2 / 2) (n / 2 / 2 / 2),
      rest,
    )

-- The bits of the byte do not overlap.
device_byte_sum :
    (slave lba : ℕ) → slave < 2 → device_byte slave lba ≡ 224 + 16 * slave + lba / 16777216 % 16
unfolding device_byte
device_byte_sum zero lba lt = bit_or_low 14 (lba / 16777216 % 16) (omega arith)
device_byte_sum (suc zero) lba lt = bit_or_low 15 (lba / 16777216 % 16) (omega arith)
device_byte_sum (suc (suc slave)) lba lt = absurd (omega arith)

-- An idle drive that is ready for a command on a sector.
pub record IsAimed {D : Type 0} (view : View D) (d : D) (slave lba : ℕ) : Type 0 where
  pub is_idle : view.phase d ≡ idle
  pub ready : view.busy_for d ≡ 0
  pub addressed : IsAddressed (view.register d)
  pub drive : slave_of (view.register d) ≡ slave
  pub number : lba_of (view.register d) ≡ lba % 268435456

module _ {D : Type 0} (ports : Ports D) (view : View D) (bus slow : ℕ)
    (drive : IsDrive ports view bus slow) where
  pub set_sector-IsAimed :
      (d : D) (slave lba : ℕ)
      → slave < 2
      → view.phase d ≡ idle
      → view.busy_for d ≡ 0
      → view.register d 6 ≡ device_byte slave lba
      → IsAimed view (set_sector ports bus d lba) slave lba
        × SameSectors view d (set_sector ports bus d lba)
  unfolding set_sector
  set_sector-IsAimed d slave lba lt i0 b0 device =
      let d1 = ports.outportb d (bus + 1) 0 in
      let ((i1, r1, s1), b1) = drive.set_register d 1 0 (omega arith) (omega arith) i0 b0 in
      let i1' = i1 ∙ i0 in
      let d2 = ports.outportb d1 (bus + 2) 1 in
      let ((i2, r2, s2), b2) = drive.set_register d1 2 1 (omega arith) (omega arith) i1' b1 in
      let i2' = i2 ∙ i1' in
      let x3 = lba % 256 in
      let d3 = ports.outportb d2 (bus + 3) x3 in
      let ((i3, r3, s3), b3) = drive.set_register d2 3 x3 (omega arith) (omega arith) i2' b2 in
      let i3' = i3 ∙ i2' in
      let x4 = lba / 256 % 256 in
      let d4 = ports.outportb d3 (bus + 4) x4 in
      let ((i4, r4, s4), b4) = drive.set_register d3 4 x4 (omega arith) (omega arith) i3' b3 in
      let i4' = i4 ∙ i3' in
      let x5 = lba / 65536 % 256 in
      let d5 = ports.outportb d4 (bus + 5) x5 in
      let ((i5, r5, s5), b5) = drive.set_register d4 5 x5 (omega arith) (omega arith) i4' b4 in
      let six = r5 6 ∙ r4 6 ∙ r3 6 ∙ r2 6 ∙ r1 6 ∙ device in
      let sum = device_byte_sum slave lba lt in
      let two = r5 2 ∙ r4 2 ∙ r3 2 ∙ r2 2 in
      let three = r5 3 ∙ r4 3 ∙ r3 3 in
      let four = r5 4 ∙ r4 4 in
      let five = r5 5 in
      (
        record {
          is_idle = i5 ∙ i4';
          ready = b5;
          addressed = (two, omega (arith, six, sum));
          drive = omega (arith, six, sum);
          number = omega (arith, six, sum, three, four, five);
        },
        λ s l. s5 s l ∙ s4 s l ∙ s3 s l ∙ s2 s l ∙ s1 s l,
      )
