-- ===== src/Strings/Numbers.antt =====
-- `itoa` and `atoi` of src/string.c, and `pow` and `pon` of src/math.c. An `int` is its 32 bits.
pub mod Reverse
pub mod RoundTrip
use nibras_os.Prelude.{
  ℕ, zero, suc, ◌+◌, ◌-◌, ◌*◌, ◌/◌, ◌%◌, Bool, true, false, ◌&&◌, ◌||◌, Option, none, some, List,
  [], ◌∷◌, ◌++◌, if◌then◌else◌, ◌==◌, ltb, leb, length, get_or, set, bit,
}
use nibras_os.Strings.{isspace}

abbrev pub digit_char : ℕ → ℕ
digit_char remainder = if ltb remainder 10 then remainder + 48 else remainder + 55

-- `do … while (ud /= divisor)`: the characters from the lowest digit on; `none` without the fuel.
unfoldable pub digits : ℕ → ℕ → ℕ → Option (List ℕ)
digits zero divisor ud = none
digits (suc n) divisor ud =
    let rest = digits n divisor (ud / divisor) in
    if ud / divisor == 0
    then some (digit_char (ud % divisor) ∷ [])
    else elim rest [ none ↦ none | some cs ↦ some (digit_char (ud % divisor) ∷ cs) ]

-- The reversal in place, `while (p1 < p2)`.
unfoldable pub reverse_loop : ℕ → ℕ → ℕ → List ℕ → List ℕ
reverse_loop zero p1 p2 buf = buf
reverse_loop (suc n) p1 p2 buf =
    let swapped = set (set buf p1 (get_or buf p2 0)) p2 (get_or buf p1 0) in
    let rest = reverse_loop n (p1 + 1) (p2 - 1) swapped in if ltb p1 p2 then rest else buf

unfoldable pub bit_chars : ℕ → ℕ → ℕ → List ℕ
unfolding bit
bit_chars zero i d = []
bit_chars (suc n) i d = (if bit d i == 1 then 49 else 48) ∷ bit_chars n (i + 1) d

-- The sign, the digits turned round in place, and the terminator.
unfoldable pub itoa_buffer : Bool → Option (List ℕ) → Option (List ℕ)
unfolding reverse_loop
itoa_buffer negative none = none
itoa_buffer negative (some cs) =
    some (
      (if negative then 45 ∷ [] else []) ++ reverse_loop (length cs) 0 (length cs - 1) cs ++ 0 ∷ [])

-- The bytes that `itoa` writes from `buf` on. Base `b` ends without a terminator; the sign is
-- written for base `d` only.
unfoldable pub itoa : ℕ → ℕ → Option (List ℕ)
unfolding bit_chars
itoa base d =
    let negative = base == 100 && leb 2147483648 d in
    let ud = if negative then 4294967296 - d else d in
    let divisor = if base == 120 then 16 else 10 in
    if base == 98 then some (bit_chars 32 0 d) else itoa_buffer negative (digits 32 divisor ud)

-- `digit = *string - '0'` is unsigned: below `0` it is a large number.
unfoldable pub atoi_loop : ℕ → List ℕ → ℕ
atoi_loop result [] = result
atoi_loop result (c ∷ string) =
    if ltb c 48 || ltb 57 c
    then result
    else atoi_loop ((10 * result + (c - 48)) % 4294967296) string

unfoldable pub skip_spaces : List ℕ → List ℕ
unfolding isspace
skip_spaces [] = []
skip_spaces (c ∷ string) = if isspace c then skip_spaces string else c ∷ string

unfoldable pub atoi_signed : List ℕ → ℕ
unfolding atoi_loop
atoi_signed [] = 0
atoi_signed (c ∷ string) =
    if c == 45
    then (4294967296 - atoi_loop 0 string) % 4294967296
    else if c == 43
    then atoi_loop 0 string
    else atoi_loop 0 (c ∷ string)

unfoldable pub atoi : List ℕ → ℕ
unfolding skip_spaces atoi_signed
atoi string = atoi_signed (skip_spaces string)

-- `for (int i = 1; i <= p; ++i)`, without the overflow of `long long`.
unfoldable pub pow_loop : ℕ → ℕ → ℕ → ℕ
pow_loop zero num number = number
pow_loop (suc n) num number = pow_loop n num (number * num)

unfoldable pub pow : ℕ → ℕ → ℕ
unfolding pow_loop
pow num p = pow_loop p num num

-- The digits of a number that is not negative, on fuel.
unfoldable pub pon_loop : ℕ → ℕ → ℕ → Option ℕ
pon_loop zero power temp = none
pon_loop (suc n) power temp =
    let rest = pon_loop n (power + 1) (temp / 10) in if temp == 0 then some power else rest

unfoldable pub pon : ℕ → Option ℕ
unfolding pon_loop
pon num = pon_loop 11 0 num
