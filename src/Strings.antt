-- ===== src/Strings.antt =====
-- src/string.c. A `char *` is the list of the bytes from the pointer on; the string ends at the
-- first 0 in it, or at the end of the list.
pub mod Compare
pub mod Copy
pub mod Search
pub mod Tokens
pub mod Numbers
mod Tests
use nibras_os.Prelude.{
  ℕ, ◌+◌, ◌-◌, ◌≤◌, ◌<◌, ◌≡◌, refl, ◌≢◌, Bool, true, false, ◌&&◌, ◌||◌, List, [], ◌∷◌, ◌++◌, map,
  arith, if◌then◌else◌, ◌==◌, leb, length, Bool-cases, ne→==, ap,
}

unfoldable pub small_to_cap : ℕ → ℕ
small_to_cap c = if leb 97 c && leb c 122 then c - 32 else c

unfoldable pub cap_to_small : ℕ → ℕ
cap_to_small c = if leb 65 c && leb c 90 then c + 32 else c

unfoldable pub strlen : List ℕ → ℕ
strlen [] = 0
strlen (c ∷ s) = if c == 0 then 0 else strlen s + 1

-- The bytes before the terminator.
unfoldable pub text : List ℕ → List ℕ
text [] = []
text (c ∷ s) = if c == 0 then [] else c ∷ text s

-- `str_to_small` and `str_to_cap` change the bytes before the terminator.
unfoldable pub str_to_small : List ℕ → List ℕ
unfolding cap_to_small
str_to_small [] = []
str_to_small (c ∷ s) = if c == 0 then c ∷ s else cap_to_small c ∷ str_to_small s

unfoldable pub str_to_cap : List ℕ → List ℕ
unfolding small_to_cap
str_to_cap [] = []
str_to_cap (c ∷ s) = if c == 0 then c ∷ s else small_to_cap c ∷ str_to_cap s

unfoldable pub isspace : ℕ → Bool
isspace c = c == 32 || c == 9 || c == 10 || c == 11 || c == 12 || c == 13

pub strlen-eq-length : (s : List ℕ) → strlen s ≡ length (text s)
unfolding strlen text
strlen-eq-length [] = refl
strlen-eq-length (c ∷ s) = ground (arith, strlen-eq-length s)

-- Changing case keeps the length of a string, and changing it twice is the same as once; a byte
-- that is no letter is kept.
pub str_to_cap_idempotent :
    (s : List ℕ)
    → (str_to_cap (str_to_cap s) ≡ str_to_cap s)
      × (strlen (str_to_cap s) ≡ strlen s)
      × (str_to_cap (str_to_small s) ≡ str_to_cap s)
unfolding str_to_cap str_to_small strlen
str_to_cap_idempotent [] = (refl, refl, refl)
str_to_cap_idempotent (c ∷ s) = ground (arith, str_to_cap_idempotent s)
