-- ===== src/Ata.antt =====
-- src/ata.c: sectors through the ports of an ATA drive. The ports are an argument: what `outportb`, `inportb`,
-- `inportsm` and `outportsm` of src/io.c do to the drive behind them. A buffer of a sector is the list of its 256
-- 16-bit words. Messages are left out.
pub mod Drive
pub mod Waiting
pub mod Aiming
pub mod Transfer
mod Tests
use nibras_os.Prelude.{
  ℕ, zero, suc, ◌+◌, ◌-◌, ◌*◌, ◌/◌, ◌%◌, ◌^◌, ◌<◌, ◌≡◌, ◌&&◌, ◌||◌, Bool, true, false, not, Option,
  none, some, List, [], ◌∷◌, if◌then◌else◌, ◌==◌, ltb, leb, bit_or, bit_and,
}

-- The instructions on a drive with the states `D`; a read of a port may change the state.
pub record Ports (D : Type 0) : Type 0 where
  pub outportb : D → ℕ → ℕ → D
  pub inportb : D → ℕ → ℕ × D
  pub inportsm : D → ℕ → ℕ → List ℕ × D
  pub outportsm : D → ℕ → List ℕ → D

abbrev pub reg_data : ℕ
reg_data = 0

abbrev pub reg_features : ℕ
reg_features = 1

abbrev pub reg_seccount : ℕ
reg_seccount = 2

abbrev pub reg_lba : ℕ → ℕ
reg_lba i = 3 + i

abbrev pub reg_hddevsel : ℕ
reg_hddevsel = 6

abbrev pub reg_command : ℕ
reg_command = 7

abbrev pub reg_control : ℕ
reg_control = 12

abbrev pub cmd_read_pio : ℕ
cmd_read_pio = 0x20

abbrev pub cmd_write_pio : ℕ
cmd_write_pio = 0x30

abbrev pub cmd_cache_flush : ℕ
cmd_cache_flush = 0xe7

-- The bits of the status: BSY, DF, DRQ and ERR.
abbrev pub busy : ℕ → Bool
busy status = status / 128 % 2 == 1

abbrev pub failed : ℕ → Bool
failed status = (status % 2 == 1) || (status / 32 % 2 == 1) || not (status / 8 % 2 == 1)

-- The byte for the drive and the bits 24 to 27 of the sector number: `0xe0 | slave << 4 | …`.
unfoldable pub device_byte : ℕ → ℕ → ℕ
device_byte slave lba = bit_or (bit_or 0xe0 (slave * 16)) (lba / 16777216 % 16)

module _ {D : Type 0} (ports : Ports D) (bus : ℕ) where
  abbrev outportb : D → ℕ → ℕ → D
  outportb d reg value = ports.outportb d (bus + reg) value

  -- Four reads of the alternate status.
  unfoldable pub ata_io_wait : D → D
  ata_io_wait d =
      let d1 = (ports.inportb d (bus + reg_control)).1 in
      let d2 = (ports.inportb d1 (bus + reg_control)).1 in
      let d3 = (ports.inportb d2 (bus + reg_control)).1 in (ports.inportb d3 (bus + reg_control)).1

  -- The loop while the drive is busy, on fuel; `none` means that the fuel ran out.
  unfoldable pub ata_wait_ready : ℕ → D → Option D
  ata_wait_ready zero d = none
  ata_wait_ready (suc n) d =
      let (status, d1) = ports.inportb d (bus + reg_command) in
      let rest = ata_wait_ready n d1 in if busy status then rest else some d1

  -- The result says whether something failed; it is only printed.
  unfoldable pub ata_wait : ℕ → D → Bool → Option (Bool × D)
  ata_wait n d advanced = elim (ata_wait_ready n (ata_io_wait d)) [
    | none ↦ none
    | some d1 ↦
        let (status, d2) = ports.inportb d1 (bus + reg_command) in
        some (if advanced then (failed status, d2) else (false, d1))
  ]

  -- The number of the sector, and one sector to transfer.
  unfoldable pub set_sector : D → ℕ → D
  set_sector d lba =
      let d1 = outportb d reg_features 0 in
      let d2 = outportb d1 reg_seccount 1 in
      let d3 = outportb d2 (reg_lba 0) (lba % 256) in
      let d4 = outportb d3 (reg_lba 1) (lba / 256 % 256) in
      outportb d4 (reg_lba 2) (lba / 65536 % 256)

  unfoldable pub ide_read_sector : ℕ → D → ℕ → ℕ → Option (List ℕ × D)
  ide_read_sector n d slave lba = elim (ata_wait_ready n (outportb d reg_control 2)) [
    | none ↦ none
    | some d1 ↦
        let d2 = set_sector (outportb d1 reg_hddevsel (device_byte slave lba)) lba in
        elim (ata_wait n (outportb d2 reg_command cmd_read_pio) true) [
          | none ↦ none
          | some (error, d3) ↦
              let (buf, d4) = ports.inportsm d3 (bus + reg_data) 256 in
              elim (ata_wait n d4 false) [ none ↦ none | some (_, d5) ↦ some (buf, d5) ]
        ]
  ]

  unfoldable pub ide_write_sector : ℕ → D → ℕ → ℕ → List ℕ → Option D
  ide_write_sector n d slave lba buf = elim (ata_wait_ready n (outportb d reg_control 2)) [
    | none ↦ none
    | some d1 ↦ elim (ata_wait n (outportb d1 reg_hddevsel (device_byte slave lba)) false) [
      | none ↦ none
      | some (_, d2) ↦
          elim (ata_wait n (outportb (set_sector d2 lba) reg_command cmd_write_pio) false) [
            | none ↦ none
            | some (_, d3) ↦
                let d4 = ports.outportsm d3 (bus + reg_data) buf in
                elim (ata_wait n (outportb d4 reg_command cmd_cache_flush) false) [
                  | none ↦ none
                  | some (_, d5) ↦ some d5
                ]
          ]
    ]
  ]

-- 1 at the first difference. The 512 bytes are compared in 32-bit words, each of two of the list.
unfoldable pub ide_cmp : List ℕ → List ℕ → ℕ
ide_cmp (a ∷ b ∷ xs) (c ∷ d ∷ ys) = if a + 65536 * b == c + 65536 * d then ide_cmp xs ys else 1
ide_cmp xs ys = 0

-- The `do … while`, on fuel; `n` is that of the waiting.
unfoldable pub ide_write_sector_retry :
    {D : Type 0} → Ports D → ℕ → ℕ → ℕ → D → ℕ → ℕ → List ℕ → Option D
ide_write_sector_retry ports bus n zero d slave lba buf = none
ide_write_sector_retry ports bus n (suc rounds) d slave lba buf =
    elim (ide_write_sector ports bus n d slave lba buf) [
      | none ↦ none
      | some d1 ↦ elim (ide_read_sector ports bus n d1 slave lba) [
        | none ↦ none
        | some (read_buf, d2) ↦
            let again = ide_write_sector_retry ports bus n rounds d2 slave lba buf in
            if ide_cmp buf read_buf == 0 then some d2 else again
      ]
    ]
