-- ===== src/Ata/Drive.antt =====
-- What an ATA drive does with the ports, as its documentation of the PIO commands of 28-bit sector numbers says:
-- the interface that the proofs on src/ata.c stand on.
use nibras_os.Prelude.{
  ℕ, ◌+◌, ◌-◌, ◌*◌, ◌/◌, ◌%◌, ◌≤◌, ◌<◌, ◌≡◌, ◌≢◌, ◌⊎◌, List, if◌then◌else◌, ◌==◌, ltb, length,
}
use nibras_os.Ata.{
  Ports, busy, reg_control, reg_command, cmd_read_pio, cmd_write_pio, cmd_cache_flush,
}

pub data Phase : Type 0 where
  idle : Phase
  reading : List ℕ → Phase
  writing : ℕ → ℕ → Phase

-- What there is to see of a drive: the registers, the words of each sector of the two drives of the bus, the phase, and
-- for how many reads of the status it stays busy.
pub record View (D : Type 0) : Type 0 where
  pub register : D → ℕ → ℕ
  pub sector : D → ℕ → ℕ → List ℕ
  pub phase : D → Phase
  pub busy_for : D → ℕ

-- The drive and the sector that the registers name.
abbrev pub slave_of : (ℕ → ℕ) → ℕ
slave_of r = r 6 / 16 % 2

abbrev pub lba_of : (ℕ → ℕ) → ℕ
lba_of r = r 3 + 256 * r 4 + 65536 * r 5 + 16777216 * (r 6 % 16)

-- One sector by its number: the bit LBA is set.
abbrev pub IsAddressed : (ℕ → ℕ) → Type 0
IsAddressed r = (r 2 ≡ 1) × (r 6 / 64 % 2 ≡ 1)

module _ {D : Type 0} (view : View D) where
  -- The sectors stay.
  abbrev pub SameSectors : D → D → Type 0
  SameSectors d d1 = (s l : ℕ) → view.sector d1 s l ≡ view.sector d s l

  abbrev pub Same : D → D → Type 0
  Same d d1 =
      (view.phase d1 ≡ view.phase d)
      × ((i : ℕ) → view.register d1 i ≡ view.register d i)
      × SameSectors d d1

  -- The register `i` holds `x`, and nothing else has changed.
  abbrev pub Written : ℕ → ℕ → D → D → Type 0
  Written i x d d1 =
      (view.phase d1 ≡ view.phase d)
      × ((j : ℕ) → view.register d1 j ≡ (if j == i then x else view.register d j))
      × SameSectors d d1

-- A drive that is busy for at most `slow` reads of its status.
pub record IsDrive {D : Type 0} (ports : Ports D) (view : View D) (bus slow : ℕ) : Type 0 where
  pub quick : (d : D) → view.busy_for d ≤ slow
  pub status_busy :
      (d : D) → busy ((ports.inportb d (bus + reg_command)).0) ≡ ltb 0 (view.busy_for d)
  pub status_wait :
      (d : D) → view.busy_for ((ports.inportb d (bus + reg_command)).1) ≡ view.busy_for d - 1
  pub status_same : (d : D) → Same view d ((ports.inportb d (bus + reg_command)).1)
  pub alternate_same : (d : D) → Same view d ((ports.inportb d (bus + reg_control)).1)
  pub control_same :
      (d : D) (x : ℕ)
      → view.phase d ≡ idle
      → Written view reg_control x d (ports.outportb d (bus + reg_control) x)
  pub set_register :
      (d : D) (i x : ℕ)
      → 0 < i
      → i < 7
      → view.phase d ≡ idle
      → view.busy_for d ≡ 0
      → Written view i x d (ports.outportb d (bus + i) x)
        × (view.busy_for (ports.outportb d (bus + i) x) ≡ 0)
  pub command_read :
      (d : D)
      → view.phase d ≡ idle
      → view.busy_for d ≡ 0
      → IsAddressed (view.register d)
      → (view.phase (ports.outportb d (bus + reg_command) cmd_read_pio)
          ≡ reading (view.sector d (slave_of (view.register d)) (lba_of (view.register d))))
        × SameSectors view d (ports.outportb d (bus + reg_command) cmd_read_pio)
  pub command_write :
      (d : D)
      → view.phase d ≡ idle
      → view.busy_for d ≡ 0
      → IsAddressed (view.register d)
      → (view.phase (ports.outportb d (bus + reg_command) cmd_write_pio)
          ≡ writing (slave_of (view.register d)) (lba_of (view.register d)))
        × SameSectors view d (ports.outportb d (bus + reg_command) cmd_write_pio)
  pub command_flush :
      (d : D)
      → view.phase d ≡ idle
      → (view.phase (ports.outportb d (bus + reg_command) cmd_cache_flush) ≡ idle)
        × SameSectors view d (ports.outportb d (bus + reg_command) cmd_cache_flush)
  pub data_read :
      (d : D) (words : List ℕ)
      → view.phase d ≡ reading words
      → view.busy_for d ≡ 0
      → ((ports.inportsm d (bus + 0) 256).0 ≡ words)
        × (view.phase ((ports.inportsm d (bus + 0) 256).1) ≡ idle)
        × SameSectors view d ((ports.inportsm d (bus + 0) 256).1)
  pub data_write :
      (d : D) (slave lba : ℕ) (words : List ℕ)
      → view.phase d ≡ writing slave lba
      → view.busy_for d ≡ 0
      → length words ≡ 256
      → (view.phase (ports.outportsm d (bus + 0) words) ≡ idle)
        × (view.sector (ports.outportsm d (bus + 0) words) slave lba ≡ words)
        × ((s l : ℕ)
            → (s ≢ slave) ⊎ (l ≢ lba)
            → view.sector (ports.outportsm d (bus + 0) words) s l ≡ view.sector d s l)
