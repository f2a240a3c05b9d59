-- ===== src/Strings/Search.antt =====
-- `lfind`, `rfind`, `strstr`, `strspn`, `strpbrk` and `strtok_r` of src/string.c. A returned pointer
-- is its offset from the argument; `none` is NULL, or a read behind the end of the list.
use nibras_os.Prelude.{
  ℕ, zero, suc, ◌+◌, ◌<◌, ◌≡◌, refl, ◌≢◌, inl, inr, false, Option, none, some, List, [], ◌∷◌, arith,
  if◌then◌else◌, ◌==◌, ==→eq, eq→==, drop, take, get_or, Bool-cases,
}
use nibras_os.Strings.{text, strlen}
use nibras_os.Strings.Compare.{Prefix}
use nibras_os.Strings.Tokens.{mem_byte}

abbrev pub next_offset : Option ℕ → Option ℕ
next_offset none = none
next_offset (some i) = some (suc i)

-- The loop has no end of its own.
unfoldable pub lfind : List ℕ → ℕ → Option ℕ
lfind [] accept = none
lfind (c ∷ str) accept = if c == accept then some 0 else next_offset (lfind str accept)

-- From `i` down; `UINT32_MAX` is `none`.
unfoldable pub rfind_loop : List ℕ → ℕ → ℕ → Option ℕ
rfind_loop str accept zero = if get_or str 0 0 == accept then some 0 else none
rfind_loop str accept (suc i) =
    if get_or str (suc i) 0 == accept then some (suc i) else rfind_loop str accept i

-- An empty string starts at the index 0 - 1, which is out of the string.
unfoldable pub rfind : List ℕ → ℕ → Option ℕ
unfolding rfind_loop strlen
rfind str accept = elim (strlen str) [ zero ↦ none | suc i ↦ rfind_loop str accept i ]

-- The inner loop of `strstr`: the number of bytes that agree, up to the end of either string.
unfoldable pub accepted : List ℕ → List ℕ → ℕ
accepted [] needle = 0
accepted (p ∷ haystack) [] = 0
accepted (p ∷ haystack) (a ∷ needle) =
    if a == 0 then 0 else if p == 0 then 0 else if p == a then accepted haystack needle + 1 else 0

unfoldable pub strstr_loop : ℕ → List ℕ → List ℕ → Option ℕ
unfolding accepted
strstr_loop s [] needle = none
strstr_loop s (p ∷ haystack) needle =
    if p == 0
    then none
    else if accepted (p ∷ haystack) needle == s
    then some 0
    else next_offset (strstr_loop s haystack needle)

unfoldable pub strstr : List ℕ → List ℕ → Option ℕ
unfolding strstr_loop strlen
strstr haystack needle = strstr_loop (strlen needle) haystack needle

-- `accept` is the text of the C string.
unfoldable pub strspn : List ℕ → List ℕ → ℕ
unfolding mem_byte
strspn [] accept = 0
strspn (c ∷ str) accept =
    if c == 0 then 0 else if mem_byte c accept then strspn str accept + 1 else 0

unfoldable pub strpbrk : List ℕ → List ℕ → Option ℕ
unfolding mem_byte
strpbrk [] accept = none
strpbrk (c ∷ str) accept =
    if c == 0 then none else if mem_byte c accept then some 0 else next_offset (strpbrk str accept)

-- On the string that is scanned: the token (NULL is `none`), and what `*saveptr` points to after.
unfoldable pub strtok_r : List ℕ → List ℕ → Option (List ℕ) × List ℕ
unfolding strspn strpbrk text
strtok_r str delim =
    let token = drop (strspn str delim) str in
    if strlen token == 0 then (none, token) else elim (strpbrk token delim) [
      | none ↦ (some (text token), [])
      | some i ↦ (some (take i token), drop (i + 1) token)
    ]

-- What `strstr` looks for: the needle begins at the offset.
abbrev pub OccursAt : List ℕ → List ℕ → ℕ → Type 0
OccursAt needle haystack i = Prefix (text needle) (drop i (text haystack))

accepted-all :
    (haystack needle : List ℕ)
    → accepted haystack needle ≡ strlen needle
    → Prefix (text needle) (text haystack)
unfolding accepted strlen text
accepted-all [] [] h = ([], refl)
accepted-all [] (a ∷ needle) h = elim (Bool-cases (a == 0)) [
  | inl e ↦ rw e ([], refl)
  | inr e ↦ let h' : 0 ≡ strlen needle + 1 = rw e at h in absurd (omega arith)
]
accepted-all (p ∷ haystack) [] h = (text (p ∷ haystack), refl)
accepted-all (p ∷ haystack) (a ∷ needle) h = elim (Bool-cases (a == 0)) [
  | inl e ↦ rw e (text (p ∷ haystack), refl)
  | inr e ↦ elim (Bool-cases (p == 0)) [
    | inl z ↦ let h' : 0 ≡ strlen needle + 1 = rw (e, z) at h in absurd (omega arith)
    | inr z ↦ elim (Bool-cases (p == a)) [
      | inl q ↦
          let h' : accepted haystack needle + 1 ≡ strlen needle + 1 = rw (e, z, q) at h in
          let (r, t) = accepted-all haystack needle (omega arith) in
          rw (e, z, t, ==→eq p a q) (r, refl)
      | inr q ↦ let h' : 0 ≡ strlen needle + 1 = rw (e, z, q) at h in absurd (omega arith)
    ]
  ]
]

prefix_head : (x y : ℕ) (a b : List ℕ) → Prefix (x ∷ a) (y ∷ b) → (y ≡ x) × Prefix a b
prefix_head x y a b (r, q) = (cc, (r, cc))

no_prefix : (x : ℕ) (a : List ℕ) → Prefix (x ∷ a) [] → ⊥
no_prefix x a (r, q) = cc

all_accepted :
    (haystack needle : List ℕ)
    → Prefix (text needle) (text haystack)
    → accepted haystack needle ≡ strlen needle
unfolding accepted strlen text
all_accepted [] [] p = refl
all_accepted [] (a ∷ needle) p = elim (Bool-cases (a == 0)) [
  | inl e ↦ rw e refl
  | inr e ↦
      let p' : Prefix (a ∷ text needle) [] = rw e at p in absurd (no_prefix a (text needle) p')
]
all_accepted (c ∷ haystack) [] p = refl
all_accepted (c ∷ haystack) (a ∷ needle) p = elim (Bool-cases (a == 0)) [
  | inl e ↦ rw e refl
  | inr e ↦ elim (Bool-cases (c == 0)) [
    | inl z ↦
        let p' : Prefix (a ∷ text needle) [] = rw (e, z) at p in
        absurd (no_prefix a (text needle) p')
    | inr z ↦
        let p' : Prefix (a ∷ text needle) (c ∷ text haystack) = rw (e, z) at p in
        let (q, t) = prefix_head a c (text needle) (text haystack) p' in
        rw (e, z, eq→== c a q, all_accepted haystack needle t) refl
  ]
]

-- What `strstr` says: an offset is the first one in the text at which the needle begins; NULL, that
-- there is none.
abbrev pub SearchResult : List ℕ → List ℕ → Option ℕ → Type 0
SearchResult haystack needle none = (i : ℕ) → i < strlen haystack → OccursAt needle haystack i → ⊥
SearchResult haystack needle (some k) =
    (k < strlen haystack)
    × OccursAt needle haystack k
    × ((i : ℕ) → i < k → OccursAt needle haystack i → ⊥)

search_none :
    (p : ℕ) (haystack needle : List ℕ)
    → (p == 0) ≡ false
    → (OccursAt needle (p ∷ haystack) 0 → ⊥)
    → SearchResult haystack needle none
    → SearchResult (p ∷ haystack) needle none
unfolding strlen text
search_none p haystack needle z absent h zero l o = absent o
search_none p haystack needle z absent h (suc i) l o =
    let l' : suc i < strlen haystack + 1 = rw z at l in
    let o' : OccursAt needle haystack i = rw z at o in h i (omega arith) o'

search_before :
    (p k : ℕ) (haystack needle : List ℕ)
    → (p == 0) ≡ false
    → (OccursAt needle (p ∷ haystack) 0 → ⊥)
    → ((i : ℕ) → i < k → OccursAt needle haystack i → ⊥)
    → (i : ℕ) → i < suc k
    → OccursAt needle (p ∷ haystack) i
    → ⊥
unfolding text
search_before p k haystack needle z absent h zero l o = absent o
search_before p k haystack needle z absent h (suc i) l o =
    let o' : OccursAt needle haystack i = rw z at o in h i (omega arith) o'

search_next :
    (p : ℕ) (haystack needle : List ℕ) (o : Option ℕ)
    → (p == 0) ≡ false
    → (OccursAt needle (p ∷ haystack) 0 → ⊥)
    → SearchResult haystack needle o
    → SearchResult (p ∷ haystack) needle (next_offset o)
unfolding strlen text
search_next p haystack needle none z absent h = search_none p haystack needle z absent h
search_next p haystack needle (some k) z absent (l, o, h) =
    (rw z (omega arith), rw z o, search_before p k haystack needle z absent h)

strstr_loop-SearchResult :
    (haystack needle : List ℕ)
    → SearchResult haystack needle (strstr_loop (strlen needle) haystack needle)
unfolding strstr_loop strlen text
strstr_loop-SearchResult [] needle = λ i l. absurd (omega arith)
strstr_loop-SearchResult (p ∷ haystack) needle = elim (Bool-cases (p == 0)) [
  | inl z ↦ rw z (λ i l. let l' : i < 0 = rw z at l in absurd (omega arith))
  | inr z ↦ elim (Bool-cases (accepted (p ∷ haystack) needle == strlen needle)) [
    | inl q ↦
        let found =
          accepted-all (p ∷ haystack) needle
            (==→eq (accepted (p ∷ haystack) needle) (strlen needle) q) in
        rw (z, q) (rw z (omega arith), found, λ i l. absurd (omega arith))
    | inr q ↦
        let ne : accepted (p ∷ haystack) needle ≢ strlen needle = ground arith in
        rw (strstr_loop, z, q)
          (search_next p haystack needle (strstr_loop (strlen needle) haystack needle) z
            (λ o. ne (all_accepted (p ∷ haystack) needle o))
            (strstr_loop-SearchResult haystack needle))
  ]
]

-- `strstr` returns the first offset at which the needle begins in the text, and NULL when it begins
-- at none of them. In an empty text it finds nothing, an empty needle included.
pub strstr-SearchResult :
    (haystack needle : List ℕ) → SearchResult haystack needle (strstr haystack needle)
unfolding strstr
strstr-SearchResult haystack needle = strstr_loop-SearchResult haystack needle
