-- ===== src/Elf.antt =====
-- `valid_elf` of src/elf.c. The header is the bytes of `e_ident`, `e_machine` and `e_type`.
mod Tests
use nibras_os.Prelude.{
  ℕ, ◌≡◌, refl, ◌≢◌, ◌↔◌, inl, inr, Bool, true, false, List, arith, if◌then◌else◌, ◌==◌, ==→eq,
  eq→==, ne→==, get_or, Bool-cases,
}

pub record Header : Type 0 where
  e_ident : List ℕ
  e_type : ℕ
  e_machine : ℕ

-- `e_ident[i]`.
abbrev pub ident : Header → ℕ → ℕ
ident h i = get_or (h.e_ident) i 0

unfoldable pub valid_elf : Header → ℕ
valid_elf h =
    if ident h 0 == 127
    then if ident h 1 == 69
      then if ident h 2 == 76
        then if ident h 3 == 70
          then if ident h 4 == 1
            then if ident h 5 == 1
              then if ident h 6 == 1
                then if h.e_machine == 3 then if h.e_type == 2 then 1 else 0 else 0
                else 0
              else 0
            else 0
          else 0
        else 0
      else 9
    else 0

-- A 32-bit little-endian executable for the 386.
abbrev pub IsExecutable : Header → Type 0
IsExecutable h =
    (ident h 0 ≡ 127)
    × (ident h 1 ≡ 69)
    × (ident h 2 ≡ 76)
    × (ident h 3 ≡ 70)
    × (ident h 4 ≡ 1)
    × (ident h 5 ≡ 1)
    × (ident h 6 ≡ 1)
    × (h.e_machine ≡ 3)
    × (h.e_type ≡ 2)

-- `valid_elf` returns 1 exactly for the header of a 32-bit little-endian executable for the 386.
pub valid_elf_iff : (h : Header) → (valid_elf h ≡ 1) ↔ IsExecutable h
unfolding valid_elf
valid_elf_iff h = (ground arith, ground arith)

-- A header whose second byte is wrong is not refused: the result is 9, which the caller takes for true
-- as it does 1, whatever else the header holds.
pub valid_elf-wrong_magic : (h : Header) → ident h 0 ≡ 127 → ident h 1 ≢ 69 → valid_elf h ≡ 9
unfolding valid_elf
valid_elf-wrong_magic h a b = rw (eq→== (ident h 0) 127 a, ne→== (ident h 1) 69 b) refl
