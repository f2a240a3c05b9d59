-- ===== src/Screen/Numbers.antt =====
-- What `puthex` and `printbin` of src/screen.c print.
use nibras_os.Prelude.{
  ℕ, zero, suc, ◌+◌, ◌-◌, ◌*◌, ◌/◌, ◌%◌, ◌^◌, ◌<◌, ◌≡◌, refl, List, [], ◌∷◌, arith, if◌then◌else◌,
  ltb, ap, ◌∙◌, length,
}
use native.Mathlib.Nat.{pow-suc}
use nibras_os.Screen.{char_to_hex_char, hex_digits, puthex}

-- The value of a digit, of 0 to 9 and A to F.
abbrev hex_value : ℕ → ℕ
hex_value c = if ltb c b'A' then c - b'0' else c - b'A' + 10

-- The number that the hexadecimal digits of a text stand for, behind `value`.
abbrev pub hex_number : ℕ → List ℕ → ℕ
hex_number value [] = value
hex_number value (c ∷ cs) = hex_number (value * 16 + hex_value c) cs

char_to_hex_char-value : (d : ℕ) → d < 16 → hex_value (char_to_hex_char d) ≡ d
unfolding char_to_hex_char
char_to_hex_char-value d h = ground arith

hex_digits-number :
    (pos i value : ℕ) (cs : List ℕ)
    → i < 16 ^ pos
    → hex_number value (hex_digits pos i cs) ≡ hex_number (value * 16 ^ pos + i) cs
unfolding hex_digits
hex_digits-number zero i value cs h = ap (λ (v : ℕ). hex_number v cs) (omega arith)
hex_digits-number (suc pos) i value cs h =
    let power = pow-suc 16 pos in
    let digit = char_to_hex_char-value (i % 16) (omega arith) in
    hex_digits-number pos (i / 16) value (char_to_hex_char (i % 16) ∷ cs) (omega arith)
    ∙ ap (λ (v : ℕ). hex_number v cs) (omega (arith, digit, ap (λ (p : ℕ). value * p) power))

length-hex_digits : (pos i : ℕ) (cs : List ℕ) → length (hex_digits pos i cs) ≡ pos + length cs
unfolding hex_digits
length-hex_digits zero i cs = omega arith
length-hex_digits (suc pos) i cs =
    omega (arith, length-hex_digits pos (i / 16) (char_to_hex_char (i % 16) ∷ cs))

-- puthex prints 0x and 8 digits, which read as a hexadecimal number give back the 32-bit number.
pub puthex-number :
    (i : ℕ)
    → i < 4294967296
    → (ds : List ℕ) × (puthex i ≡ b'0' ∷ b'x' ∷ ds) × (length ds ≡ 8) × (hex_number 0 ds ≡ i)
unfolding puthex
puthex-number i h = (
  hex_digits 8 i [],
  refl,
  length-hex_digits 8 i [],
  hex_digits-number 8 i 0 [] (omega arith) ∙ omega arith,
)
