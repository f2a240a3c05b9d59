-- ===== src/Prelude/Bits.antt =====
-- The binary digits of a word, and what `|`, `&` and `~` do to them.
use Prim.Native.Nat.{
  ℕ, zero, suc, ◌+◌, ◌-◌, ◌*◌, ◌/◌, ◌%◌, ◌^◌, ◌≤◌, ◌<◌, min, max, bit_and, bit_or, digits,
  bit_and-bitwise, bit_or-bitwise,
}
use mathlib.Core.Path.{◌≡◌, refl, sym, ap}
use mathlib.Core.Logic.{◌≢◌}
use native.Mathlib.Omega.{arith}
use native.Mathlib.Nat.{pow-suc}

-- `~x` and `x & mask` on 32 bits, as the sources write them.
abbrev pub u32_mod : ℕ
u32_mod = 2 ^ 32

abbrev pub not32 : ℕ → ℕ
not32 x = u32_mod - 1 - x

-- The digit of weight `2 ^ k`, by halving.
unfoldable pub bit : ℕ → ℕ → ℕ
bit a zero = a % 2
bit a (suc k) = bit (a / 2) k

pub bit-lt : (a k : ℕ) → bit a k < 2
unfolding bit
bit-lt a zero = omega arith
bit-lt a (suc k) = bit-lt (a / 2) k

-- `&` and `|` are one recursion on the digits, with `past` for what follows the end of the first
-- number and `join` for two digits. How much fuel it has beyond the digits does not matter.
module _ (past : ℕ → ℕ) (join : ℕ → ℕ → ℕ) where
  joined-fuel :
      (a b : ℕ) {left right : ℕ}
      → a ≤ left
      → a ≤ right
      → digits past join left a b ≡ digits past join right a b
  joined-fuel zero b {left = zero} {right = zero} la ra = refl
  joined-fuel zero b {left = zero} {right = suc right} la ra = refl
  joined-fuel zero b {left = suc left} {right = zero} la ra = refl
  joined-fuel zero b {left = suc left} {right = suc right} la ra = refl
  joined-fuel (suc a) b {left = zero} {right = right} la ra = absurd (omega arith)
  joined-fuel (suc a) b {left = suc left} {right = zero} la ra = absurd (omega arith)
  joined-fuel (suc a) b {left = suc left} {right = suc right} la ra =
      ap (λ high. high * 2 + join (suc a % 2) (b % 2))
        (joined-fuel (suc a / 2) (b / 2) {left = left} {right = right} (omega arith) (omega arith))

  joined_half :
      (a b : ℕ)
      → digits past join (suc a) (suc a) b
        ≡ digits past join (suc a / 2) (suc a / 2) (b / 2) * 2 + join (suc a % 2) (b % 2)
  joined_half a b =
      ap (λ high. high * 2 + join (suc a % 2) (b % 2))
        (joined-fuel (suc a / 2) (b / 2) {left = a} {right = suc a / 2} (omega arith) (omega arith))

-- The lowest digit apart, for each of the two operations.
pub or_lowest : (x y : ℕ) → max (x % 2) (y % 2) + 2 * bit_or (x / 2) (y / 2) ≡ bit_or x y
or_lowest zero y =
    let all : bit_or 0 y ≡ y = bit_or-bitwise 0 y in
    let upper : bit_or 0 (y / 2) ≡ y / 2 = bit_or-bitwise 0 (y / 2) in omega (arith, all, upper)
or_lowest (suc x) y =
    let all = bit_or-bitwise (suc x) y in
    let upper = bit_or-bitwise (suc x / 2) (y / 2) in
    omega (arith, upper, all, joined_half (λ c. c) max x y)

masks_nothing : (y : ℕ) → bit_and 0 y ≡ 0
masks_nothing y = bit_and-bitwise 0 y

pub and_lowest : (x y : ℕ) → min (x % 2) (y % 2) + 2 * bit_and (x / 2) (y / 2) ≡ bit_and x y
and_lowest zero y = omega (arith, masks_nothing y, masks_nothing (y / 2))
and_lowest (suc x) y =
    let all = bit_and-bitwise (suc x) y in
    let upper = bit_and-bitwise (suc x / 2) (y / 2) in
    omega (arith, upper, all, joined_half (λ _. zero) min x y)

pub bit_or_same : (n x : ℕ) → x ≤ n → bit_or x 0 ≡ x
bit_or_same zero x h = let e : x ≡ 0 = omega arith in rw e refl
bit_or_same (suc n) x h =
    let low = or_lowest x 0 in
    let high : bit_or (x / 2) (0 / 2) ≡ x / 2 = bit_or_same n (x / 2) (omega arith) in
    omega (arith, low, high)

pub bit-bit_or : (a b k : ℕ) → bit (bit_or a b) k ≡ max (bit a k) (bit b k)
unfolding bit
bit-bit_or a b zero = omega (arith, or_lowest a b)
bit-bit_or a b (suc k) =
    let half : bit_or a b / 2 ≡ bit_or (a / 2) (b / 2) = omega (arith, or_lowest a b) in
    rw half (bit-bit_or (a / 2) (b / 2) k)

pub bit-bit_and : (a b k : ℕ) → bit (bit_and a b) k ≡ min (bit a k) (bit b k)
unfolding bit
bit-bit_and a b zero = omega (arith, and_lowest a b)
bit-bit_and a b (suc k) =
    let half : bit_and a b / 2 ≡ bit_and (a / 2) (b / 2) = omega (arith, and_lowest a b) in
    rw half (bit-bit_and (a / 2) (b / 2) k)

pub bit-zero : (k : ℕ) → bit 0 k ≡ 0
unfolding bit
bit-zero zero = refl
bit-zero (suc k) = bit-zero k

pow_half : (j : ℕ) → (2 ^ suc j / 2 ≡ 2 ^ j) × (2 ^ suc j % 2 ≡ 0)
pow_half j = omega (arith, pow-suc 2 j)

pub bit-pow_self : (j : ℕ) → bit (2 ^ j) j ≡ 1
unfolding bit
bit-pow_self zero = refl
bit-pow_self (suc j) = rw (pow_half j).0 (bit-pow_self j)

pub bit-pow_ne : (j k : ℕ) → j ≢ k → bit (2 ^ j) k ≡ 0
unfolding bit
bit-pow_ne zero zero h = absurd (h refl)
bit-pow_ne zero (suc k) h = bit-zero k
bit-pow_ne (suc j) zero h = (pow_half j).1
bit-pow_ne (suc j) (suc k) h = rw (pow_half j).0 (bit-pow_ne j k (λ e. h (ap suc e)))

-- A mask without digits: by halving, as often as the bound says.
masked_by_none : (bound : ℕ) {a : ℕ} → a ≤ bound → bit_and a 0 ≡ 0
masked_by_none bound {a = zero} small = refl
masked_by_none zero {a = suc a} small = absurd (omega arith)
masked_by_none (suc bound) {a = suc a} small =
    let high : bit_and (suc a / 2) 0 ≡ 0 = masked_by_none bound (omega arith) in
    omega (arith, high, and_lowest (suc a) 0)

pub bit_and-zero : (a : ℕ) → bit_and a 0 ≡ 0
bit_and-zero a = masked_by_none a (omega arith)

-- Masking by one bit keeps that bit alone: the test `w & (1 << j)`.
pub bit_and-pow : (a j : ℕ) → bit_and a (2 ^ j) ≡ bit a j * 2 ^ j
unfolding bit
bit_and-pow a zero = omega (arith, and_lowest a 1, bit_and-zero (a / 2))
bit_and-pow a (suc j) =
    rw (sym (and_lowest a (2 ^ suc j)), (pow_half j).0, (pow_half j).1, bit_and-pow (a / 2) j)
      (omega (arith, ap (λ (t : ℕ). bit (a / 2) j * t) (pow-suc 2 j)))

one_le_pow : (j : ℕ) → 1 ≤ 2 ^ j
one_le_pow zero = omega arith
one_le_pow (suc j) = omega (arith, pow-suc 2 j, one_le_pow j)

pub bit_and-pow_eq_zero : (a j : ℕ) → bit a j ≡ 0 → bit_and a (2 ^ j) ≡ 0
bit_and-pow_eq_zero a j h = rw (bit_and-pow a j, h) (omega arith)

pub bit_and-pow_ne_zero : (a j : ℕ) → bit a j ≡ 1 → bit_and a (2 ^ j) ≢ 0
bit_and-pow_ne_zero a j h = rw (bit_and-pow a j, h) (omega (arith, one_le_pow j))

-- The complement within `n` digits flips each of them.
pub bit-complement : (n x j : ℕ) → x < 2 ^ n → j < n → bit (2 ^ n - 1 - x) j ≡ 1 - bit x j
unfolding bit
bit-complement zero x j hx hj = elim hj [ ]
bit-complement (suc n) x zero hx hj = omega (arith, pow-suc 2 n, one_le_pow n)
bit-complement (suc n) x (suc j) hx hj =
    let half : (2 ^ suc n - 1 - x) / 2 ≡ 2 ^ n - 1 - x / 2 =
      omega (arith, pow-suc 2 n, one_le_pow n) in
    rw half (bit-complement n (x / 2) j (omega (arith, pow-suc 2 n)) (omega arith))

-- A word below `2 ^ n` with every digit set is `2 ^ n - 1`.
pub eq_of_bits_set : (n x : ℕ) → x < 2 ^ n → ((j : ℕ) → j < n → bit x j ≡ 1) → x ≡ 2 ^ n - 1
unfolding bit
eq_of_bits_set zero x hx h = omega arith
eq_of_bits_set (suc n) x hx h = omega (
  arith,
  pow-suc 2 n,
  one_le_pow n,
  h 0 (omega arith),
  eq_of_bits_set n (x / 2) (omega (arith, pow-suc 2 n)) (λ j p. h (suc j) (omega arith)),
)

pow_le_pow : (j n : ℕ) → j < n → 2 ^ j < 2 ^ n
pow_le_pow j zero h = elim h [ ]
pow_le_pow zero (suc n) h = omega (arith, pow-suc 2 n, one_le_pow n)
pow_le_pow (suc j) (suc n) h = omega (arith, pow-suc 2 n, pow-suc 2 j, pow_le_pow j n (omega arith))

pub bit_or-lt : (n a b : ℕ) → a < 2 ^ n → b < 2 ^ n → bit_or a b < 2 ^ n
bit_or-lt zero a b ha hb =
    let a0 : a ≡ 0 = omega arith in let b0 : b ≡ 0 = omega arith in rw (a0, b0) (omega arith)
bit_or-lt (suc n) a b ha hb = omega (
  arith,
  pow-suc 2 n,
  or_lowest a b,
  bit_or-lt n (a / 2) (b / 2) (omega (arith, pow-suc 2 n)) (omega (arith, pow-suc 2 n)),
)

pub bit_and-le : (n a b : ℕ) → a < 2 ^ n → bit_and a b < 2 ^ n
bit_and-le zero a b ha = let a0 : a ≡ 0 = omega arith in rw (a0, masks_nothing b) (omega arith)
bit_and-le (suc n) a b ha =
    omega (
      arith,
      pow-suc 2 n,
      and_lowest a b,
      bit_and-le n (a / 2) (b / 2) (omega (arith, pow-suc 2 n)),
    )

-- The words that the kernel sets and clears bits in.
module _ (w j : ℕ) (small : w < u32_mod) (in_word : j < 32) where
  pub set_word-lt : bit_or w (2 ^ j) < u32_mod
  set_word-lt = bit_or-lt 32 w (2 ^ j) small (pow_le_pow j 32 in_word)

  pub clear_word-lt : bit_and w (not32 (2 ^ j)) < u32_mod
  clear_word-lt = bit_and-le 32 w (not32 (2 ^ j)) small

pub bit-set_self : (w j : ℕ) → bit (bit_or w (2 ^ j)) j ≡ 1
bit-set_self w j = omega (arith, bit-bit_or w (2 ^ j) j, bit-pow_self j, bit-lt w j)

pub bit-set_ne : (w j k : ℕ) → j ≢ k → bit (bit_or w (2 ^ j)) k ≡ bit w k
bit-set_ne w j k h = omega (arith, bit-bit_or w (2 ^ j) k, bit-pow_ne j k h)

pub bit-clear_self : (w j : ℕ) → j < 32 → bit (bit_and w (not32 (2 ^ j))) j ≡ 0
bit-clear_self w j h = omega (
  arith,
  bit-bit_and w (not32 (2 ^ j)) j,
  bit-complement 32 (2 ^ j) j (pow_le_pow j 32 h) h,
  bit-pow_self j,
)

pub bit-clear_ne :
    (w j k : ℕ) → j < 32 → k < 32 → j ≢ k → bit (bit_and w (not32 (2 ^ j))) k ≡ bit w k
bit-clear_ne w j k h hk ne = omega (
  arith,
  bit-bit_and w (not32 (2 ^ j)) k,
  bit-complement 32 (2 ^ j) k (pow_le_pow j 32 h) hk,
  bit-pow_ne j k ne,
  bit-lt w k,
)
