-- ===== src/Strings/Compare.antt =====
-- `strcmp`, `strncmp` and `startswith` of src/string.c.
use nibras_os.Prelude.{
  ℕ, zero, suc, ◌+◌, ◌≡◌, refl, ◌≢◌, ◌⊎◌, ◌↔◌, inl, inr, Bool, true, false, Option, none, some,
  List, [], ◌∷◌, ◌++◌, arith, if◌then◌else◌, ◌==◌, ==→eq, eq→==, ne→==, Bool-cases, ap, sym, ℤ, pos,
  negsuc, sub_ℕ,
}
use native.Mathlib.Numerals.{add-one}
use nibras_os.Strings.{text, strlen}

-- The loop over the common length: 1 at the first difference.
unfoldable pub strcmp_loop : List ℕ → List ℕ → ℕ
strcmp_loop [] b = 0
strcmp_loop (x ∷ a) [] = 0
strcmp_loop (x ∷ a) (y ∷ b) = if x == y then strcmp_loop a b else 1

-- NULL is `none`.
unfoldable pub strcmp : Option (List ℕ) → Option (List ℕ) → ℤ
unfolding strcmp_loop text
strcmp none b = negsuc 0
strcmp (some a) none = negsuc 0
strcmp (some a) (some b) = pos (strcmp_loop (text a) (text b))

-- The condition `!strcmp(a, b)` of the callers.
unfoldable pub same_str : List ℕ → List ℕ → Bool
unfolding strcmp_loop text
same_str a b = strcmp_loop (text a) (text b) == 0

-- Reading a byte at the end of the list gives the terminator.
abbrev pub head_byte : List ℕ → ℕ
head_byte [] = 0
head_byte (c ∷ s) = c

abbrev pub tail_bytes : List ℕ → List ℕ
tail_bytes [] = []
tail_bytes (c ∷ s) = s

-- `while(n--)`: it goes on behind the terminators, as the C code does.
unfoldable pub strncmp : List ℕ → List ℕ → ℕ → ℤ
strncmp s1 s2 zero = pos 0
strncmp s1 s2 (suc n) =
    if head_byte s1 == head_byte s2
    then strncmp (tail_bytes s1) (tail_bytes s2) n
    else sub_ℕ (head_byte s1) (head_byte s2)

-- `for (i = 0; i < s; ++i)`, where `s` is the length of `accept`.
unfoldable pub startswith_loop : ℕ → List ℕ → List ℕ → ℕ
startswith_loop zero str accept = 1
startswith_loop (suc n) str accept =
    if head_byte str == head_byte accept
    then startswith_loop n (tail_bytes str) (tail_bytes accept)
    else 0

unfoldable pub startswith : List ℕ → List ℕ → ℕ
unfolding startswith_loop strlen
startswith str accept = startswith_loop (strlen accept) str accept

-- `b` begins with `a`.
abbrev pub Prefix : List ℕ → List ℕ → Type 0
Prefix a b = (r : List ℕ) × (b ≡ a ++ r)

strcmp_loop_prefix : (a b : List ℕ) → strcmp_loop a b ≡ 0 → Prefix a b ⊎ Prefix b a
unfolding strcmp_loop
strcmp_loop_prefix [] b h = inl (b, refl)
strcmp_loop_prefix (x ∷ a) [] h = inr (x ∷ a, refl)
strcmp_loop_prefix (x ∷ a) (y ∷ b) h = elim (Bool-cases (x == y)) [
  | inl e ↦ elim (strcmp_loop_prefix a b (rw e at h)) [
    | inl (r, q) ↦ inl (r, rw (==→eq x y e, q) refl)
    | inr (r, q) ↦ inr (r, rw (==→eq x y e, q) refl)
  ]
  | inr e ↦ let h' : ◌≡◌ {A = ℕ} 1 0 = rw e at h in absurd (omega arith)
]

prefix_strcmp_loop : (a r : List ℕ) → (strcmp_loop a (a ++ r) ≡ 0) × (strcmp_loop (a ++ r) a ≡ 0)
unfolding strcmp_loop
prefix_strcmp_loop [] [] = (refl, refl)
prefix_strcmp_loop [] (x ∷ r) = (refl, refl)
prefix_strcmp_loop (x ∷ a) r = rw (eq→== x x refl) (prefix_strcmp_loop a r)

-- `strcmp` returns 0 exactly when one of the two strings is a prefix of the other.
pub strcmp_iff :
    (a b : List ℕ)
    → (strcmp (some a) (some b) ≡ pos 0) ↔ (Prefix (text a) (text b) ⊎ Prefix (text b) (text a))
unfolding strcmp
strcmp_iff a b = (
  (λ h. strcmp_loop_prefix (text a) (text b) (cc)),
  (λ p. ap pos (elim p [
    | inl (r, q) ↦ rw q (prefix_strcmp_loop (text a) r).0
    | inr (r, q) ↦ rw q (prefix_strcmp_loop (text b) r).1
  ])),
)

-- So every string compares equal to the empty one, and every string that begins with a dot to ".".
pub strcmp_empty_dot :
    (s : List ℕ)
    → (strcmp (some s) (some []) ≡ pos 0) × (strcmp (some (46 ∷ s)) (some (46 ∷ [])) ≡ pos 0)
unfolding strcmp strcmp_loop text
strcmp_empty_dot s = (ap pos (empty_right (text s)), ap pos (empty_right (text s)))
  where
    empty_right : (t : List ℕ) → strcmp_loop t [] ≡ 0
    empty_right [] = refl
    empty_right (x ∷ t) = refl

startswith_end : (n y : ℕ) (accept : List ℕ) → y ≢ 0 → startswith_loop (n + 1) [] (y ∷ accept) ≢ 1
unfolding startswith_loop
startswith_end n y accept ne = rw (add-one n, ne→== 0 y (λ z. ne (sym z))) (omega arith)

startswith_step :
    (n x y : ℕ) (str accept : List ℕ)
    → (x == y) ≡ true
    → startswith_loop (n + 1) (x ∷ str) (y ∷ accept) ≡ 1
    → startswith_loop n str accept ≡ 1
unfolding startswith_loop
startswith_step n x y str accept q h = rw (add-one n, q) at h

startswith_ne :
    (n x y : ℕ) (str accept : List ℕ)
    → (x == y) ≡ false
    → startswith_loop (n + 1) (x ∷ str) (y ∷ accept) ≢ 1
unfolding startswith_loop
startswith_ne n x y str accept q = rw (add-one n, q) (omega arith)

cons_ne : (y : ℕ) (a : List ℕ) → Prefix (y ∷ a) [] → ⊥
cons_ne y a (r, q) = cc

cons_head : (x y : ℕ) (b a : List ℕ) → Prefix (y ∷ a) (x ∷ b) → x ≡ y
cons_head x y b a (r, q) = cc

cons_tail : (x y : ℕ) (b a : List ℕ) → Prefix (y ∷ a) (x ∷ b) → Prefix a b
cons_tail x y b a (r, q) = (r, cc)

startswith_prefix :
    (accept str : List ℕ)
    → startswith_loop (strlen accept) str accept ≡ 1
    → Prefix (text accept) (text str)
unfolding startswith_loop strlen text
startswith_prefix [] str h = (text str, refl)
startswith_prefix (y ∷ accept) [] h = elim (Bool-cases (y == 0)) [
  | inl e ↦ rw e ([], refl)
  | inr e ↦ rw e (absurd (startswith_end (strlen accept) y accept (ground arith) (rw e at h)))
]
startswith_prefix (y ∷ accept) (x ∷ str) h = elim (Bool-cases (y == 0)) [
  | inl e ↦ rw e (text (x ∷ str), refl)
  | inr e ↦ elim (Bool-cases (x == y)) [
    | inl q ↦
        let h' = startswith_step (strlen accept) x y str accept q (rw e at h) in
        let (r, p) = startswith_prefix accept str h' in
        let nz : (x == 0) ≡ false = ground arith in rw (e, nz, p, ==→eq x y q) (r, refl)
    | inr q ↦ absurd (startswith_ne (strlen accept) x y str accept q (rw e at h))
  ]
]

prefix_startswith :
    (accept str : List ℕ)
    → Prefix (text accept) (text str)
    → startswith_loop (strlen accept) str accept ≡ 1
unfolding startswith_loop strlen text
prefix_startswith [] str p = refl
prefix_startswith (y ∷ accept) [] p = elim (Bool-cases (y == 0)) [
  | inl e ↦ rw e refl
  | inr e ↦ let p' : Prefix (y ∷ text accept) [] = rw e at p in absurd (cons_ne y (text accept) p')
]
prefix_startswith (y ∷ accept) (x ∷ str) p = elim (Bool-cases (y == 0)) [
  | inl e ↦ rw e refl
  | inr e ↦ elim (Bool-cases (x == 0)) [
    | inl z ↦
        let p' : Prefix (y ∷ text accept) [] = rw (e, z) at p in absurd (cons_ne y (text accept) p')
    | inr z ↦
        let p' : Prefix (y ∷ text accept) (x ∷ text str) = rw (e, z) at p in
        let q : x ≡ y = cons_head x y (text str) (text accept) p' in
        rw (e, add-one (strlen accept), eq→== x y q)
          (prefix_startswith accept str (cons_tail x y (text str) (text accept) p'))
  ]
]

-- `startswith` returns 1 exactly when the first string begins with the second.
pub startswith_iff :
    (str accept : List ℕ) → (startswith str accept ≡ 1) ↔ Prefix (text accept) (text str)
unfolding startswith
startswith_iff str accept = (startswith_prefix accept str, prefix_startswith accept str)
