-- ===== src/Ata/Tests.antt =====
-- The theorems on src/ata.c with a drive that is busy for three reads of its status after each command.
use nibras_os.Prelude.{
  ℕ, ◌+◌, ◌-◌, ◌<◌, ◌≡◌, refl, ◌≢◌, ◌⊎◌, inl, inr, ◌&&◌, false, some, List, [], arith,
  if◌then◌else◌, ◌==◌, ltb, min, Bool-cases, eq→==, ap, ◌∙◌, replicate,
}
use nibras_os.Ata.{Ports, busy, ide_read_sector, ide_write_sector, ide_write_sector_retry}
use nibras_os.Ata.Drive.{
  View, IsDrive, Phase, idle, reading, writing, SameSectors, Written, slave_of, lba_of,
}
use nibras_os.Ata.Transfer.{
  ide_read_sector-sector, ide_write_sector-Stored, ide_write_sector_retry-Stored, Stored,
}

record Toy : Type 0 where
  registers : ℕ → ℕ
  disk : ℕ → ℕ → List ℕ
  phase : Phase
  wait : ℕ

abbrev command : Toy → ℕ → Toy
command d x =
    let s = slave_of (d.registers) in
    let l = lba_of (d.registers) in
    let next =
      if x == 0x20 then reading (d.disk s l) else if x == 0x30 then writing s l else d.phase in
    record d { phase = next; wait = 3 }

abbrev words_of : Phase → List ℕ
words_of idle = []
words_of (reading words) = words
words_of (writing s l) = []

abbrev store_at : Phase → (ℕ → ℕ → List ℕ) → List ℕ → ℕ → ℕ → List ℕ
store_at idle disk words s l = disk s l
store_at (reading ws) disk words s l = disk s l
store_at (writing s0 l0) disk words s l = if (s == s0) && (l == l0) then words else disk s l

abbrev toy_out : Toy → ℕ → ℕ → Toy
toy_out d port x =
    let set = record d { registers = λ j. if j == port - 496 then x else d.registers j } in
    if port == 503 then command d x else set

abbrev toy_ports : Ports Toy
toy_ports = record {
  outportb = toy_out;
  inportb = λ d port. (
    if ltb 0 (min (d.wait) 3) then 128 else 64,
    if port == 503 then record d { wait = min (d.wait) 3 - 1 } else d,
  );
  inportsm = λ d port n. (words_of (d.phase), record d { phase = idle });
  outportsm = λ d port words. record d { disk = store_at (d.phase) (d.disk) words; phase = idle };
}

abbrev toy_view : View Toy
toy_view = record {
  register = λ d. d.registers;
  sector = λ d. d.disk;
  phase = λ d. d.phase;
  busy_for = λ d. min (d.wait) 3;
}

toy_set :
    (d : Toy) (i x : ℕ)
    → 0 < i
    → i < 7
    → min (d.wait) 3 ≡ 0
    → Written toy_view i x d (toy_out d (496 + i) x) × (min ((toy_out d (496 + i) x).wait) 3 ≡ 0)
toy_set d i x lo hi still =
    let other : (496 + i == 503) ≡ false = ground arith in
    let place : 496 + i - 496 ≡ i = omega arith in
    rw (other, place) ((refl, λ j. refl, λ s l. refl), still)

toy_status : (d : Toy) → busy ((toy_ports.inportb d 503).0) ≡ ltb 0 (min (d.wait) 3)
toy_status d = elim (Bool-cases (ltb 0 (min (d.wait) 3))) [ inl e ↦ rw e refl | inr e ↦ rw e refl ]

module _ (d : Toy) (slave lba : ℕ) (words : List ℕ) (p : d.phase ≡ writing slave lba) where
  toy_stored : store_at (d.phase) (d.disk) words slave lba ≡ words
  toy_stored =
      ap (λ (ph : Phase). store_at ph (d.disk) words slave lba) p
      ∙ rw (eq→== slave slave refl, eq→== lba lba refl) refl

  toy_others :
      (s l : ℕ) → (s ≢ slave) ⊎ (l ≢ lba) → store_at (d.phase) (d.disk) words s l ≡ d.disk s l
  toy_others s l other =
      let elsewhere : ((s == slave) && (l == lba)) ≡ false = ground arith in
      ap (λ (ph : Phase). store_at ph (d.disk) words s l) p ∙ rw elsewhere refl

toy-IsDrive : IsDrive toy_ports toy_view 496 3
toy-IsDrive = record {
  quick = λ d. omega arith;
  status_busy = λ d. toy_status d;
  status_wait = λ d. omega arith;
  status_same = λ d. (refl, λ i. refl, λ s l. refl);
  alternate_same = λ d. (refl, λ i. refl, λ s l. refl);
  control_same = λ d x i. (refl, λ j. refl, λ s l. refl);
  set_register = λ d i x lo hi idle still. toy_set d i x lo hi still;
  command_read = λ d i b a. (refl, λ s l. refl);
  command_write = λ d i b a. (refl, λ s l. refl);
  command_flush = λ d i. (i, λ s l. refl);
  data_read = λ d words p b. (ap words_of p, refl, λ s l. refl);
  data_write = λ d slave lba words p b len.
      (refl, toy_stored d slave lba words p, λ s l other. toy_others d slave lba words p s l other);
}

-- Each sector is full of its number.
abbrev disk : Toy
disk = record { registers = λ i. 0; disk = λ s l. replicate 256 l; phase = idle; wait = 2 }

ide_read_sector-sector_example :
    (d1 : Toy) × (ide_read_sector toy_ports 496 4 disk 1 1000 ≡ some (replicate 256 1000, d1))
    × (d1.phase ≡ idle)
    × SameSectors toy_view disk d1
ide_read_sector-sector_example =
    ide_read_sector-sector toy_ports toy_view 496 3 toy-IsDrive 4 disk 1 1000 (omega arith) refl
      (omega arith)

written :
    (d1 : Toy) × (ide_write_sector toy_ports 496 4 disk 1 1000 (replicate 256 7) ≡ some d1)
    × (d1.phase ≡ idle)
    × Stored toy_ports toy_view 496 3 toy-IsDrive disk d1 1 1000 (replicate 256 7)
written =
    ide_write_sector-Stored toy_ports toy_view 496 3 toy-IsDrive 4 disk 1 1000 (replicate 256 7)
      (omega arith) refl (omega arith) refl

ide_write_sector_retry-Stored_example :
    (d1 : Toy) × (ide_write_sector_retry toy_ports 496 4 1 disk 1 1000 (replicate 256 7) ≡ some d1)
    × (d1.phase ≡ idle)
    × Stored toy_ports toy_view 496 3 toy-IsDrive disk d1 1 1000 (replicate 256 7)
ide_write_sector_retry-Stored_example =
    ide_write_sector_retry-Stored toy_ports toy_view 496 3 toy-IsDrive 4 0 disk 1 1000
      (replicate 256 7) (omega arith) refl (omega arith) refl
