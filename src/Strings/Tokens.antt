-- ===== src/Strings/Tokens.antt =====
-- `strsep`, `str_split` and `list2str` of src/string.c, and `expand_path` of src/vfs.c. The `list_t`
-- of tokens is the list of its values from head to tail.
use nibras_os.Prelude.{
  ℕ, zero, suc, ◌+◌, ◌*◌, ◌≤◌, ◌<◌, ◌≡◌, refl, ◌≢◌, inl, inr, Bool, true, false, Option, none, some,
  List, [], ◌∷◌, ◌++◌, arith, if◌then◌else◌, ◌==◌, ltb, ==→eq, length, Bool-cases, Option-cases,
}
use nibras_os.Strings.{text, strlen}
use nibras_os.Strings.Compare.{same_str, strcmp_loop}

unfoldable pub mem_byte : ℕ → List ℕ → Bool
mem_byte c [] = false
mem_byte c (d ∷ delim) = if d == c then true else mem_byte c delim

-- The scan of `strsep`: the token, and what `*stringp` becomes (`none` for NULL). `delim` is given
-- without its terminator.
unfoldable pub strsep_scan : List ℕ → List ℕ → List ℕ × Option (List ℕ)
unfolding mem_byte
strsep_scan [] delim = ([], none)
strsep_scan (c ∷ s) delim =
    let (tok, rest) = strsep_scan s delim in
    if mem_byte c delim then ([], some s) else if c == 0 then ([], none) else (c ∷ tok, rest)

unfoldable pub strsep : Option (List ℕ) → List ℕ → Option (List ℕ) × Option (List ℕ)
unfolding strsep_scan
strsep none delim = (none, none)
strsep (some s) delim = let (tok, rest) = strsep_scan s delim in (some tok, rest)

-- `while ((token = strsep(&rest, delim)) != NULL)`: the tokens, `none` without the fuel for them.
unfoldable pub strsep_all : ℕ → Option (List ℕ) → List ℕ → Option (List (List ℕ))
unfolding strsep
strsep_all zero stringp delim = none
strsep_all (suc n) none delim = some []
strsep_all (suc n) (some s) delim =
    let rest = strsep_all n (strsep_scan s delim).1 delim in
    elim rest [ none ↦ none | some toks ↦ some ((strsep_scan s delim).0 ∷ toks) ]

-- An independent description: the pieces of a text between its delimiters.
unfoldable pub cons_first : ℕ → List (List ℕ) → List (List ℕ)
cons_first c [] = (c ∷ []) ∷ []
cons_first c (t ∷ ts) = (c ∷ t) ∷ ts

unfoldable pub split_on : List ℕ → List ℕ → List (List ℕ)
unfolding mem_byte cons_first
split_on delim [] = [] ∷ []
split_on delim (c ∷ s) =
    if mem_byte c delim then [] ∷ split_on delim s else cons_first c (split_on delim s)

-- `str_split` on the tokens from the first on; `list_pop` drops the last one pushed, so the list is
-- kept with the tail of the C list in front. The count is what `*numtokens` grows by.
unfoldable pub pop_token : List (List ℕ) → List (List ℕ)
pop_token [] = []
pop_token (t ∷ ts) = ts

unfoldable pub push_tokens : List (List ℕ) → List (List ℕ) → ℕ → List (List ℕ) × ℕ
unfolding same_str pop_token
push_tokens [] stack count = (stack, count)
push_tokens (tok ∷ toks) stack count =
    if same_str tok (46 ∷ [])
    then push_tokens toks stack count
    else if same_str tok (46 ∷ 46 ∷ [])
    then push_tokens toks (pop_token stack) count
    else push_tokens toks (tok ∷ stack) (count + 1)

unfoldable pub str_split : List ℕ → List ℕ → Option (List (List ℕ) × ℕ)
unfolding strsep_all push_tokens
str_split str delim = elim (strsep_all (strlen str + 2) (some str) delim) [
  | none ↦ none
  | some toks ↦ some (push_tokens toks [] 0)
]

-- `list2str` pops from the tail. The buffer holds `ret_len` bytes; where the source takes a new
-- buffer, which is not cleared, the string in it is `junk` (what the heap hands out), and the text
-- so far is lost. `strcat` behind the end of the buffer is an overflow, `none`.
unfoldable pub list2str_loop : List ℕ → List (List ℕ) → List ℕ → ℕ → ℕ → List ℕ → Option (List ℕ)
list2str_loop junk [] delim len ret_len ret = some ret
list2str_loop junk (temp ∷ stack) delim len ret_len ret =
    let grow = ltb ret_len (len + strlen temp + 2) in
    let ret1 = (if grow then junk else ret) ++ delim ++ text temp in
    let len1 = if grow then len + strlen temp + 1 else len in
    let ret_len1 = if grow then ret_len * 2 else ret_len in
    let rest = list2str_loop junk stack delim len1 ret_len1 ret1 in
    if ltb (strlen ret1) ret_len1 then rest else none

unfoldable pub list2str : List ℕ → List (List ℕ) → List ℕ → Option (List ℕ)
unfolding list2str_loop
list2str junk stack delim = list2str_loop junk stack delim 0 256 []

unfoldable pub expand_path : List ℕ → List ℕ → Option (List ℕ)
unfolding str_split list2str
expand_path junk input = elim (str_split input (47 ∷ [])) [
  | none ↦ none
  | some (stack, count) ↦ list2str junk stack (47 ∷ [])
]

-- The scan takes the first piece and leaves the text of the others.
pub strsep_scan-end :
    (s delim : List ℕ)
    → mem_byte 0 delim ≡ false
    → (strsep_scan s delim).1 ≡ none
    → split_on delim (text s) ≡ (strsep_scan s delim).0 ∷ []
unfolding strsep_scan split_on text mem_byte cons_first
strsep_scan-end [] delim nz h = refl
strsep_scan-end (c ∷ s) delim nz h = elim (Bool-cases (c == 0)) [
  | inl e ↦ rw (==→eq c 0 e, nz) refl
  | inr e ↦ elim (Bool-cases (mem_byte c delim)) [
    | inl m ↦ let h' : ◌≡◌ {A = Option (List ℕ)} (some s) none = rw m at h in cc
    | inr m ↦
        let h' : (strsep_scan s delim).1 ≡ none = rw (m, e) at h in
        rw (m, e, m, strsep_scan-end s delim nz h') refl
  ]
]

pub strsep_scan-more :
    (s delim r : List ℕ)
    → mem_byte 0 delim ≡ false
    → (strsep_scan s delim).1 ≡ some r
    → (split_on delim (text s) ≡ (strsep_scan s delim).0 ∷ split_on delim (text r))
      × (strlen r < strlen s)
unfolding strsep_scan split_on text mem_byte cons_first strlen
strsep_scan-more [] delim r nz h = cc
strsep_scan-more (c ∷ s) delim r nz h = elim (Bool-cases (c == 0)) [
  | inl e ↦ let h' : ◌≡◌ {A = Option (List ℕ)} none (some r) = rw (==→eq c 0 e, nz) at h in cc
  | inr e ↦ elim (Bool-cases (mem_byte c delim)) [
    | inl m ↦
        let h' : ◌≡◌ {A = Option (List ℕ)} (some s) (some r) = rw m at h in
        let q : s ≡ r = cc in rw (m, e, m, q) (refl, omega arith)
    | inr m ↦
        let h' : (strsep_scan s delim).1 ≡ some r = rw (m, e) at h in
        let (p, l) = strsep_scan-more s delim r nz h' in rw (m, e, m, p) (refl, omega arith)
  ]
]

strsep_all-end :
    (n : ℕ) (s delim : List ℕ)
    → (strsep_scan s delim).1 ≡ none
    → 1 ≤ n
    → strsep_all (suc n) (some s) delim ≡ some ((strsep_scan s delim).0 ∷ [])
unfolding strsep_all
strsep_all-end zero s delim h l = absurd (omega arith)
strsep_all-end (suc n) s delim h l = rw (strsep_all, h) refl

strsep_all-more :
    (n : ℕ) (s r delim : List ℕ) (toks : List (List ℕ))
    → (strsep_scan s delim).1 ≡ some r
    → strsep_all n (some r) delim ≡ some toks
    → strsep_all (suc n) (some s) delim ≡ some ((strsep_scan s delim).0 ∷ toks)
unfolding strsep_all
strsep_all-more n s r delim toks h e = rw (strsep_all, h, e) refl

-- With fuel for one token more than the string has bytes, the loop over `strsep` ends and yields
-- the pieces of the text between the delimiters, when no delimiter is the byte 0.
pub strsep_all-eq-split_on :
    (n : ℕ) (s delim : List ℕ)
    → mem_byte 0 delim ≡ false
    → strlen s + 2 ≤ n
    → strsep_all n (some s) delim ≡ some (split_on delim (text s))
strsep_all-eq-split_on zero s delim nz le = absurd (omega arith)
strsep_all-eq-split_on (suc n) s delim nz le = elim (Option-cases ((strsep_scan s delim).1)) [
  | inl h ↦ rw (strsep_scan-end s delim nz h) (strsep_all-end n s delim h (omega arith))
  | inr (r, h) ↦
      let (p, l) = strsep_scan-more s delim r nz h in
      let ih = strsep_all-eq-split_on n r delim nz (omega arith) in
      rw p (strsep_all-more n s r delim (split_on delim (text r)) h ih)
]

-- Whatever the path, `str_split` keeps no token that is empty or begins with a dot: neither `..`
-- nor a hidden file's name is ever told from `.`, since `strcmp` compares the common length only.
-- So it pops nothing, and the number it counts is the number of tokens in the list.
abbrev pub Plain : List ℕ → Type 0
Plain t = (c : ℕ) × (r : List ℕ) × (text t ≡ c ∷ r) × (c ≢ 46)

abbrev pub AllPlain : List (List ℕ) → Type 0
AllPlain [] = Unit
AllPlain (t ∷ ts) = Plain t × AllPlain ts

not_same_dot : (t : List ℕ) → same_str t (46 ∷ []) ≡ false → Plain t
unfolding same_str strcmp_loop text
not_same_dot [] h = let h' : true ≡ false = h in cc
not_same_dot (c ∷ s) h = elim (Bool-cases (c == 0)) [
  | inl e ↦ let h' : true ≡ false = rw e at h in cc
  | inr e ↦ rw e (c, text s, refl, λ q. dot c s e q h)
]
  where
    dot : (c : ℕ) (s : List ℕ) → (c == 0) ≡ false → c ≡ 46 → same_str (c ∷ s) (46 ∷ []) ≢ false
    dot c s e q h =
        let h' : (strcmp_loop (text s) [] == 0) ≡ false = rw (e, q) at h in any (text s) h'
      where
        any : (t : List ℕ) → (strcmp_loop t [] == 0) ≢ false
        any [] h = let h' : true ≡ false = h in cc
        any (x ∷ t) h = let h' : true ≡ false = h in cc

same_str-dots : (t : List ℕ) → same_str t (46 ∷ []) ≡ false → same_str t (46 ∷ 46 ∷ []) ≡ false
unfolding same_str strcmp_loop text
same_str-dots [] h = h
same_str-dots (c ∷ s) h = elim (Bool-cases (c == 0)) [
  | inl e ↦ let h' : true ≡ false = rw e at h in cc
  | inr e ↦ elim (Bool-cases (c == 46)) [
    | inl d ↦ absurd (not_dot (c ∷ s) h (c) (text s) (rw e refl) (==→eq c 46 d))
    | inr d ↦ rw (e, d) refl
  ]
]
  where
    not_dot :
        (t : List ℕ) → same_str t (46 ∷ []) ≡ false → (c : ℕ) (r : List ℕ) → text t ≡ c ∷ r → c ≢ 46
    not_dot t h c r e q = let (d, r', e', ne) = not_same_dot t h in ne (cc)

push_tokens-Plain :
    (toks stack : List (List ℕ)) (count : ℕ)
    → AllPlain stack
    → AllPlain (push_tokens toks stack count).0
      × ((push_tokens toks stack count).1 + length stack
          ≡ count + length ((push_tokens toks stack count).0))
unfolding push_tokens
push_tokens-Plain [] stack count p = (p, refl)
push_tokens-Plain (tok ∷ toks) stack count p = elim (Bool-cases (same_str tok (46 ∷ []))) [
  | inl d ↦ rw d (push_tokens-Plain toks stack count p)
  | inr d ↦
      let (q, e) = push_tokens-Plain toks (tok ∷ stack) (count + 1) (not_same_dot tok d, p) in
      rw (d, same_str-dots tok d) (q, omega arith)
]

-- `str_split` always ends; no token of its list is empty or begins with a dot, and the number of
-- tokens it counts is the length of the list, when no delimiter is the byte 0. So neither `.`,
-- `..` nor a name such as `.profile` is left in an expanded path, and `..` removes no component.
pub str_split-Plain :
    (str delim : List ℕ)
    → mem_byte 0 delim ≡ false
    → (r : List (List ℕ) × ℕ) × (str_split str delim ≡ some r) × AllPlain r.0 × (r.1 ≡ length r.0)
unfolding str_split
str_split-Plain str delim nz =
    let e = strsep_all-eq-split_on (strlen str + 2) str delim nz (omega arith) in
    let (p, c) = push_tokens-Plain (split_on delim (text str)) [] 0 tt in
    (push_tokens (split_on delim (text str)) [] 0, rw (str_split, e) refl, p, omega arith)
