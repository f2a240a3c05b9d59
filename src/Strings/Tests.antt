-- ===== src/Strings/Tests.antt =====
-- Runs of src/string.c and src/vfs.c on concrete strings, and the theorems at them.
use nibras_os.Prelude.{ℕ, ◌≡◌, refl, some, List, [], ◌∷◌, arith, drop}
use nibras_os.Strings.{text, strlen}
use nibras_os.Strings.Copy.{strcpy, strcpy-cases}
use nibras_os.Strings.Search.{rfind, strtok_r}
use nibras_os.Strings.Tokens.{mem_byte, strsep_all, split_on, strsep_all-eq-split_on, expand_path}
use nibras_os.Strings.Numbers.{itoa, itoa_buffer, digits, reverse_loop, atoi}
use nibras_os.Strings.Numbers.RoundTrip.{atoi-itoa}

-- "/a/.b/../c" and "a-Z".
abbrev path : List ℕ
path = 47 ∷ 97 ∷ 47 ∷ 46 ∷ 98 ∷ 47 ∷ 46 ∷ 46 ∷ 47 ∷ 99 ∷ 0 ∷ []

abbrev mixed : List ℕ
mixed = 97 ∷ 45 ∷ 90 ∷ 0 ∷ 98 ∷ []

abbrev slash : List ℕ
slash = 47 ∷ []

-- `expand_path` keeps `a` and `c` and gives them in the other order.
expand_path_reversed : expand_path [] path ≡ some (47 ∷ 99 ∷ 47 ∷ 97 ∷ [])
unfolding expand_path strlen
expand_path_reversed = refl

rfind_slash : rfind path 47 ≡ some 8
unfolding rfind
rfind_slash = refl

strtok_path : strtok_r path slash ≡ (some (97 ∷ []), drop 3 path)
unfolding strtok_r strlen
strtok_path = refl

itoa_hex : itoa 120 43981 ≡ some (65 ∷ 66 ∷ 67 ∷ 68 ∷ 0 ∷ [])
unfolding itoa itoa_buffer digits reverse_loop
itoa_hex = refl

strcpy-cases_example : strcpy mixed (66 ∷ 0 ∷ []) ≡ some (66 ∷ 0 ∷ 90 ∷ 0 ∷ 98 ∷ [], 1)
unfolding strlen text
strcpy-cases_example = strcpy-cases mixed (66 ∷ 0 ∷ [])

strsep_all-eq-split_on_example : strsep_all 12 (some path) slash ≡ some (split_on slash (text path))
unfolding mem_byte strlen
strsep_all-eq-split_on_example = strsep_all-eq-split_on 12 path slash refl (omega arith)

atoi-itoa_example : (buf : List ℕ) × (itoa 100 4294967254 ≡ some buf) × (atoi buf ≡ 4294967254)
atoi-itoa_example = atoi-itoa 4294967254 (omega arith)
