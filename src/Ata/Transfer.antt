-- ===== src/Ata/Transfer.antt =====
-- `ide_read_sector` and `ide_write_sector` of src/ata.c on a drive.

use nibras_os.Prelude.{
  ℕ, suc, ◌+◌, ◌*◌, ◌%◌, ◌<◌, ◌≡◌, refl, ◌≢◌, ◌⊎◌, Bool, true, false, some, List, [], ◌∷◌, arith,
  length, eq→==, ap, ◌∙◌,
}
use nibras_os.Ata.{
  Ports, reg_control, reg_hddevsel, reg_command, cmd_read_pio, cmd_write_pio, cmd_cache_flush,
  device_byte, ata_wait_ready, ata_wait, set_sector, ide_read_sector, ide_write_sector, ide_cmp,
  ide_write_sector_retry,
}
use nibras_os.Ata.Drive.{View, IsDrive, idle, writing, SameSectors, slave_of, lba_of}
use nibras_os.Ata.Waiting.{ata_wait_ready-Ready, ata_wait-Ready}
use nibras_os.Ata.Aiming.{set_sector-IsAimed}

ide_cmp_self : (buf : List ℕ) → ide_cmp buf buf ≡ 0
unfolding ide_cmp
ide_cmp_self [] = refl
ide_cmp_self (a ∷ []) = refl
ide_cmp_self (a ∷ b ∷ buf) = rw (eq→== (a + 65536 * b) (a + 65536 * b) refl) (ide_cmp_self buf)

module _ {D : Type 0} (ports : Ports D) (view : View D) (bus slow : ℕ)
    (drive : IsDrive ports view bus slow) where
  -- The start of both operations: the drive is ready behind the write to the control register.
  start :
      (n : ℕ) (d : D)
      → slow < n
      → view.phase d ≡ idle
      → (d1 : D) × (ata_wait_ready ports bus n (ports.outportb d (bus + reg_control) 2) ≡ some d1)
        × (view.phase d1 ≡ idle)
        × (view.busy_for d1 ≡ 0)
        × SameSectors view d d1
  start n d fuel i =
      let d0 = ports.outportb d (bus + reg_control) 2 in
      let (i0, r0, s0) = drive.control_same d 2 i in
      let bound = drive.quick d0 in
      let (d1, e, ((i1, r1, s1), b1)) =
        ata_wait_ready-Ready ports view bus slow drive n d0 (omega arith) in
      (d1, e, i1 ∙ i0 ∙ i, b1, λ s l. s1 s l ∙ s0 s l)

  -- The register for the drive.
  device :
      (d : D) (slave lba : ℕ)
      → view.phase d ≡ idle
      → view.busy_for d ≡ 0
      → (view.phase (ports.outportb d (bus + reg_hddevsel) (device_byte slave lba)) ≡ idle)
        × (view.busy_for (ports.outportb d (bus + reg_hddevsel) (device_byte slave lba)) ≡ 0)
        × (view.register (ports.outportb d (bus + reg_hddevsel) (device_byte slave lba)) 6
            ≡ device_byte slave lba)
        × SameSectors view d (ports.outportb d (bus + reg_hddevsel) (device_byte slave lba))
  device d slave lba i b =
      let ((i1, r1, s1), b1) =
        drive.set_register d reg_hddevsel (device_byte slave lba) (omega arith) (omega arith) i b in
      (i1 ∙ i, b1, r1 6, s1)

  read_shape :
      (n : ℕ) (d d1 d3 d5 : D) (slave lba : ℕ) (error error1 : Bool)
      → ata_wait_ready ports bus n (ports.outportb d (bus + reg_control) 2) ≡ some d1
      → ata_wait ports bus n
          (ports.outportb
            (set_sector ports bus
              (ports.outportb d1 (bus + reg_hddevsel) (device_byte slave lba))
              lba)
            (bus + reg_command)
            cmd_read_pio)
          true
        ≡ some (error, d3)
      → ata_wait ports bus n ((ports.inportsm d3 (bus + 0) 256).1) false ≡ some (error1, d5)
      → ide_read_sector ports bus n d slave lba ≡ some ((ports.inportsm d3 (bus + 0) 256).0, d5)
  unfolding ide_read_sector
  read_shape n d d1 d3 d5 slave lba error error1 e1 e2 e3 = rw (ide_read_sector, e1, e2, e3) refl

  -- On an idle drive that follows the documentation of the PIO commands and is never busy for as many
  -- reads of its status as the fuel of the waits, ide_read_sector ends and gives the words of the
  -- sector that the lowest 28 bits of the number name, for a drive of the bus; no sector changes and
  -- the drive is idle again.
  pub ide_read_sector-sector :
      (n : ℕ) (d : D) (slave lba : ℕ)
      → slow < n
      → view.phase d ≡ idle
      → slave < 2
      → (d5 : D) × (ide_read_sector ports bus n d slave lba
          ≡ some (view.sector d slave (lba % 268435456), d5))
        × (view.phase d5 ≡ idle)
        × SameSectors view d d5
  ide_read_sector-sector n d slave lba fuel i lt =
      let (d1, e1, i1, b1, s1) = start n d fuel i in
      let d2 = ports.outportb d1 (bus + reg_hddevsel) (device_byte slave lba) in
      let (i2, b2, r2, s2) = device d1 slave lba i1 b1 in
      let d3 = set_sector ports bus d2 lba in
      let (aimed, s3) = set_sector-IsAimed ports view bus slow drive d2 slave lba lt i2 b2 r2 in
      let c = ports.outportb d3 (bus + reg_command) cmd_read_pio in
      let (p, s4) = drive.command_read d3 aimed.is_idle aimed.ready aimed.addressed in
      let (error, d4, e4, ((p4, r4, s5), b4)) =
        ata_wait-Ready ports view bus slow drive n c true fuel in
      let words = view.sector d3 (slave_of (view.register d3)) (lba_of (view.register d3)) in
      let (w, i5, s6) = drive.data_read d4 words (p4 ∙ p) b4 in
      let (error1, d6, e6, ((p6, r6, s7), b6)) =
        ata_wait-Ready ports view bus slow drive n ((ports.inportsm d4 (bus + 0) 256).1) false
          fuel in
      let same : words ≡ view.sector d slave (lba % 268435456) =
        ap (λ (s : ℕ). view.sector d3 s (lba_of (view.register d3))) aimed.drive
        ∙ ap (view.sector d3 slave) aimed.number
        ∙ s3 slave (lba % 268435456)
        ∙ s2 slave (lba % 268435456)
        ∙ s1 slave (lba % 268435456) in
      (
        d6,
        read_shape n d d1 d4 d6 slave lba error error1 e1 e4 e6
            ∙ ap (λ (ws : List ℕ). some (ws, d6)) (w ∙ same),
        p6 ∙ i5,
        λ s l. s7 s l ∙ s6 s l ∙ s5 s l ∙ s4 s l ∙ s3 s l ∙ s2 s l ∙ s1 s l,
      )

  write_shape :
      (n : ℕ) (d d1 d3 d5 d8 : D) (slave lba : ℕ) (buf : List ℕ) (error error1 error2 : Bool)
      → ata_wait_ready ports bus n (ports.outportb d (bus + reg_control) 2) ≡ some d1
      → ata_wait ports bus n (ports.outportb d1 (bus + reg_hddevsel) (device_byte slave lba)) false
        ≡ some (error, d3)
      → ata_wait ports bus n
          (ports.outportb (set_sector ports bus d3 lba) (bus + reg_command) cmd_write_pio)
          false
        ≡ some (error1, d5)
      → ata_wait ports bus n
          (ports.outportb (ports.outportsm d5 (bus + 0) buf) (bus + reg_command) cmd_cache_flush)
          false
        ≡ some (error2, d8)
      → ide_write_sector ports bus n d slave lba buf ≡ some d8
  unfolding ide_write_sector
  write_shape n d d1 d3 d5 d8 slave lba buf error error1 error2 e1 e2 e3 e4 =
      rw (ide_write_sector, e1, e2, e3, e4) refl

  -- The sector holds the words, and every other sector of the two drives is as it was.
  abbrev pub Stored : D → D → ℕ → ℕ → List ℕ → Type 0
  Stored d d1 slave number words =
      (view.sector d1 slave number ≡ words)
      × ((s l : ℕ) → (s ≢ slave) ⊎ (l ≢ number) → view.sector d1 s l ≡ view.sector d s l)

  -- `ide_write_sector` ends and stores the words in the sector that the lowest 28 bits of the number name.
  pub ide_write_sector-Stored :
      (n : ℕ) (d : D) (slave lba : ℕ) (buf : List ℕ)
      → slow < n
      → view.phase d ≡ idle
      → slave < 2
      → length buf ≡ 256
      → (d8 : D) × (ide_write_sector ports bus n d slave lba buf ≡ some d8)
        × (view.phase d8 ≡ idle)
        × Stored d d8 slave (lba % 268435456) buf
  ide_write_sector-Stored n d slave lba buf fuel i lt words =
      let (d1, e1, i1, b1, s1) = start n d fuel i in
      let d2 = ports.outportb d1 (bus + reg_hddevsel) (device_byte slave lba) in
      let (i2, b2, r2, s2) = device d1 slave lba i1 b1 in
      let (error, d3, e3, ((p3, r3, s3), b3)) =
        ata_wait-Ready ports view bus slow drive n d2 false fuel in
      let d4 = set_sector ports bus d3 lba in
      let (aimed, s4) =
        set_sector-IsAimed ports view bus slow drive d3 slave lba lt (p3 ∙ i2) b3 (r3 6 ∙ r2) in
      let c = ports.outportb d4 (bus + reg_command) cmd_write_pio in
      let (p, s5) = drive.command_write d4 aimed.is_idle aimed.ready aimed.addressed in
      let (error1, d5, e5, ((p5, r5, s6), b5)) =
        ata_wait-Ready ports view bus slow drive n c false fuel in
      let there : view.phase d5 ≡ writing slave (lba % 268435456) =
        p5
        ∙ p
        ∙ ap (λ (s : ℕ). writing s (lba_of (view.register d4))) aimed.drive
        ∙ ap (writing slave) aimed.number in
      let (i6, w, others) = drive.data_write d5 slave (lba % 268435456) buf there b5 words in
      let d6 = ports.outportsm d5 (bus + 0) buf in
      let (i7, s7) = drive.command_flush d6 i6 in
      let (error2, d8, e8, ((p8, r8, s8), b8)) =
        ata_wait-Ready ports view bus slow drive n
          (ports.outportb d6 (bus + reg_command) cmd_cache_flush) false fuel in
      (
        d8,
        write_shape n d d1 d3 d5 d8 slave lba buf error error1 error2 e1 e3 e5 e8,
        p8 ∙ i7,
        (
          s8 slave (lba % 268435456) ∙ s7 slave (lba % 268435456) ∙ w,
          λ s l other.
              s8 s l
              ∙ s7 s l
              ∙ others s l other
              ∙ s6 s l
              ∙ s5 s l
              ∙ s4 s l
              ∙ s3 s l
              ∙ s2 s l
              ∙ s1 s l,
        ),
      )

  retry_shape :
      (n rounds : ℕ) (d d1 d2 : D) (slave lba : ℕ) (buf : List ℕ)
      → ide_write_sector ports bus n d slave lba buf ≡ some d1
      → ide_read_sector ports bus n d1 slave lba ≡ some (buf, d2)
      → ide_write_sector_retry ports bus n (suc rounds) d slave lba buf ≡ some d2
  unfolding ide_write_sector_retry
  retry_shape n rounds d d1 d2 slave lba buf e f =
      rw (ide_write_sector_retry, e, f, eq→== (ide_cmp buf buf) 0 (ide_cmp_self buf)) refl

  -- On an idle drive that follows the documentation of the PIO commands and is never busy for as many
  -- reads of its status as the fuel of the waits, ide_write_sector_retry ends after one round, for a
  -- drive of the bus and a buffer of a sector: the sector that the lowest 28 bits of the number name
  -- holds the words, every other sector of the two drives is as it was, and the drive is idle again.
  pub ide_write_sector_retry-Stored :
      (n rounds : ℕ) (d : D) (slave lba : ℕ) (buf : List ℕ)
      → slow < n
      → view.phase d ≡ idle
      → slave < 2
      → length buf ≡ 256
      → (d1 : D) × (ide_write_sector_retry ports bus n (suc rounds) d slave lba buf ≡ some d1)
        × (view.phase d1 ≡ idle)
        × Stored d d1 slave (lba % 268435456) buf
  ide_write_sector_retry-Stored n rounds d slave lba buf fuel i lt words =
      let (d1, e, i1, (w, others)) = ide_write_sector-Stored n d slave lba buf fuel i lt words in
      let (d2, f, i2, same) = ide_read_sector-sector n d1 slave lba fuel i1 lt in
      (
        d2,
        retry_shape n rounds d d1 d2 slave lba buf e (f ∙ ap (λ (ws : List ℕ). some (ws, d2)) w),
        i2,
        (same slave (lba % 268435456) ∙ w, λ s l other. same s l ∙ others s l other),
      )
