-- ===== src/Ata/Waiting.antt =====
-- The waiting of src/ata.c, and the registers that name a sector.
use nibras_os.Prelude.{
  ℕ, zero, suc, ◌+◌, ◌<◌, ◌≡◌, refl, inl, inr, Bool, false, some, arith, if◌then◌else◌, ltb,
  Bool-cases, ◌∙◌,
}
use nibras_os.Ata.{Ports, failed, reg_control, reg_command, ata_io_wait, ata_wait_ready, ata_wait}
use nibras_os.Ata.Drive.{View, IsDrive, Same}

module _ {D : Type 0} (view : View D) where
  pub Same-trans : (a b c : D) → Same view a b → Same view b c → Same view a c
  Same-trans a b c (p, r, s) (p1, r1, s1) = (p1 ∙ p, λ i. r1 i ∙ r i, λ x l. s1 x l ∙ s x l)

module _ {D : Type 0} (ports : Ports D) (view : View D) (bus slow : ℕ)
    (drive : IsDrive ports view bus slow) where
  -- The drive that the wait comes to.
  abbrev pub Ready : D → D → Type 0
  Ready d d1 = Same view d d1 × (view.busy_for d1 ≡ 0)

  pub ata_wait_ready-Ready :
      (n : ℕ) (d : D)
      → view.busy_for d < n
      → (d1 : D) × (ata_wait_ready ports bus n d ≡ some d1) × Ready d d1
  unfolding ata_wait_ready
  ata_wait_ready-Ready zero d lt = absurd (omega arith)
  ata_wait_ready-Ready (suc n) d lt =
      let next = (ports.inportb d (bus + reg_command)).1 in
      let test = drive.status_busy d in
      let left = drive.status_wait d in
      elim (Bool-cases (ltb 0 (view.busy_for d))) [
        | inl b ↦
            let (d1, e, (same, done)) = ata_wait_ready-Ready n next (ground arith) in
            (d1, rw (test, b) e, (Same-trans view d next d1 (drive.status_same d) same, done))
        | inr b ↦ (next, rw (test, b) refl, (drive.status_same d, ground arith))
      ]

  ata_io_wait-Same : (d : D) → Same view d (ata_io_wait ports bus d)
  unfolding ata_io_wait
  ata_io_wait-Same d =
      let next = λ (d : D). (ports.inportb d (bus + reg_control)).1 in
      let one = drive.alternate_same d in
      let two = Same-trans view d (next d) (next (next d)) one (drive.alternate_same (next d)) in
      let three =
        Same-trans view d (next (next d)) (next (next (next d))) two
          (drive.alternate_same (next (next d))) in
      Same-trans view d (next (next (next d))) (next (next (next (next d)))) three
        (drive.alternate_same (next (next (next d))))

  ata_wait_lem :
      (n : ℕ) (d d1 : D) (advanced : Bool)
      → ata_wait_ready ports bus n (ata_io_wait ports bus d) ≡ some d1
      → ata_wait ports bus n d advanced
        ≡ some (
            if advanced
            then (
              failed ((ports.inportb d1 (bus + reg_command)).0),
              (ports.inportb d1 (bus + reg_command)).1,
            )
            else (false, d1))
  unfolding ata_wait
  ata_wait_lem n d d1 advanced e = rw (ata_wait, e) refl

  -- With more fuel than the drive is ever busy, the waits end and change nothing that is seen of it.
  pub ata_wait-Ready :
      (n : ℕ) (d : D) (advanced : Bool)
      → slow < n
      → (error : Bool) × (d1 : D) × (ata_wait ports bus n d advanced ≡ some (error, d1))
        × Ready d d1
  ata_wait-Ready n d advanced fuel =
      let waited = ata_io_wait ports bus d in
      let bound = drive.quick waited in
      let (d1, e, (same, done)) = ata_wait_ready-Ready n waited (omega arith) in
      let all = Same-trans view d waited d1 (ata_io_wait-Same d) same in
      let next = (ports.inportb d1 (bus + reg_command)).1 in
      let left = drive.status_wait d1 in
      let shape = ata_wait_lem n d d1 advanced e in
      elim (Bool-cases advanced) [
        | inl a ↦ (
          failed ((ports.inportb d1 (bus + reg_command)).0),
          next,
          shape ∙ rw a refl,
          (Same-trans view d d1 next all (drive.status_same d1), omega arith),
        )
        | inr a ↦ (false, d1, shape ∙ rw a refl, (all, done))
      ]
