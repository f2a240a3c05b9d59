-- ===== src/Ext2/Cache/Sectors.antt =====
-- Runs of sectors: what is read back after a write.
use nibras_os.Prelude.{
  ℕ, zero, suc, ◌+◌, ◌%◌, ◌≤◌, ◌<◌, ◌≡◌, refl, ◌⊎◌, List, [], ◌∷◌, arith, ap, ◌==◌, ◌∙◌,
  if◌then◌else◌, length, ne→==, eq→==,
}
use mathlib.Core.Path.{ap₂}
use nibras_os.Ext2.Cache.{lba_mod, read_sectors, write_sectors}

module _ {S : Type 0} where
  -- A write leaves the sectors outside its run alone.
  pub write_sectors-other :
      (ss : List S) (lba : ℕ) (disk : ℕ → S) (a : ℕ)
      → lba + length ss ≤ lba_mod
      → (a < lba) ⊎ (lba + length ss ≤ a)
      → write_sectors ss lba disk a ≡ disk a
  unfolding write_sectors
  write_sectors-other [] lba disk a fits h = refl
  write_sectors-other (s ∷ ss) lba disk a fits h =
      write_sectors-other ss (lba + 1) (λ b. if b == lba % lba_mod then s else disk b) a
        (omega arith) (omega arith)
      ∙ rw (ne→== a (lba % lba_mod) (omega arith)) refl

  pub read_sectors-eq :
      (n lba : ℕ) (disk disk' : ℕ → S)
      → lba + n ≤ lba_mod
      → ((a : ℕ) → lba ≤ a → a < lba + n → disk' a ≡ disk a)
      → read_sectors n lba disk' ≡ read_sectors n lba disk
  unfolding read_sectors
  read_sectors-eq zero lba disk disk' fits same = refl
  read_sectors-eq (suc n) lba disk disk' fits same =
      ap₂ ◌∷◌ (same (lba % lba_mod) (omega arith) (omega arith)) (
        read_sectors-eq n (lba + 1) disk disk' (omega arith)
          (λ a lo hi. same a (omega arith) (omega arith)))

  -- Reading back what was written.
  pub read_sectors-write_sectors :
      (ss : List S) (lba : ℕ) (disk : ℕ → S)
      → lba + length ss ≤ lba_mod
      → read_sectors (length ss) lba (write_sectors ss lba disk) ≡ ss
  unfolding read_sectors write_sectors
  read_sectors-write_sectors [] lba disk fits = refl
  read_sectors-write_sectors (s ∷ ss) lba disk fits =
      ap₂ ◌∷◌
        (write_sectors-other ss (lba + 1) (λ b. if b == lba % lba_mod then s else disk b)
            (lba % lba_mod) (omega arith) (omega arith)
          ∙ rw (eq→== (lba % lba_mod) (lba % lba_mod) refl) refl)
        (read_sectors-write_sectors ss (lba + 1) (λ b. if b == lba % lba_mod then s else disk b)
          (omega arith))

  pub length-read_sectors : (n lba : ℕ) (disk : ℕ → S) → length (read_sectors n lba disk) ≡ n
  unfolding read_sectors
  length-read_sectors zero lba disk = refl
  length-read_sectors (suc n) lba disk = ap suc (length-read_sectors n (lba + 1) disk)
