-- ===== src/Strings/Numbers/RoundTrip.antt =====
-- What `itoa` writes in base `d`, `atoi` of src/string.c reads back.
use nibras_os.Prelude.{
  ℕ, zero, suc, ◌+◌, ◌-◌, ◌*◌, ◌/◌, ◌%◌, ◌^◌, ◌≤◌, ◌<◌, ◌≡◌, refl, ◌≢◌, inl, inr, Bool, true, false,
  some, List, [], ◌∷◌, ◌++◌, arith, if◌then◌else◌, ◌==◌, leb, lt→ltb, le→ltb, ==→eq, length,
  length-append, Bool-cases,
}
use native.Mathlib.Numerals.{unary_clauses}
use nibras_os.Strings.{isspace}
use nibras_os.Strings.Numbers.{
  digit_char, digits, reverse_loop, itoa, itoa_buffer, atoi, atoi_loop, atoi_signed, skip_spaces,
}
use nibras_os.Strings.Numbers.Reverse.{rev, reverse_loop-eq-rev}

-- The number that decimal characters stand for, the lowest digit first.
unfoldable value : List ℕ → ℕ
value [] = 0
value (c ∷ cs) = (c - 48) + 10 * value cs

abbrev Decimal : List ℕ → Type 0
Decimal [] = Unit
Decimal (c ∷ cs) = (48 ≤ c) × (c ≤ 57) × Decimal cs

-- Non-empty characters that stand for `ud`.
abbrev Written : ℕ → List ℕ → Type 0
Written ud cs = Decimal cs × (value cs ≡ ud) × (0 < length cs)

digit_char-range : (r : ℕ) → r < 10 → digit_char r ≡ r + 48
digit_char-range r l = rw (lt→ltb r 10 l) refl

digits-Written :
    (n ud : ℕ) → ud < 10 ^ n → 0 < n → (cs : List ℕ) × (digits n 10 ud ≡ some cs) × Written ud cs
unfolding digits value
digits-Written zero ud l p = absurd (omega arith)
digits-Written (suc n) ud l p =
    let dc = digit_char-range (ud % 10) (omega arith) in
    elim (Bool-cases (ud / 10 == 0)) [
      | inl e ↦
          let e' = ==→eq (ud / 10) 0 e in
          (
            digit_char (ud % 10) ∷ [],
            rw e refl,
            ((omega arith, omega arith, tt), omega arith, omega arith),
          )
      | inr e ↦
          let l' : ud < 10 ^ n * 10 = simp unary_clauses at l in
          let nz : ud / 10 ≢ 0 = ground arith in
          let pos_n : 0 < n = positive n ud l' nz in
          let (cs, q, (d, v, k)) = digits-Written n (ud / 10) (omega arith) pos_n in
          (
            digit_char (ud % 10) ∷ cs,
            rw (e, q) refl,
            ((omega arith, omega arith, d), omega arith, omega arith),
          )
    ]
  where
    positive : (n ud : ℕ) → ud < 10 ^ n * 10 → ud / 10 ≢ 0 → 0 < n
    positive zero ud l nz = absurd (nz (omega arith))
    positive (suc n) ud l nz = omega arith

Decimal-append : (xs ys : List ℕ) → Decimal xs → Decimal ys → Decimal (xs ++ ys)
Decimal-append [] ys p q = q
Decimal-append (x ∷ xs) ys (a, b, p) q = (a, b, Decimal-append xs ys p q)

Decimal-rev : (cs : List ℕ) → Decimal cs → Decimal (rev cs)
unfolding rev
Decimal-rev [] p = p
Decimal-rev (c ∷ cs) (a, b, p) = Decimal-append (rev cs) (c ∷ []) (Decimal-rev cs p) (a, b, tt)

atoi_loop-step :
    (c result : ℕ) (string : List ℕ)
    → 48 ≤ c
    → c ≤ 57
    → atoi_loop result (c ∷ string) ≡ atoi_loop ((10 * result + (c - 48)) % 4294967296) string
unfolding atoi_loop
atoi_loop-step c result string a b = rw (le→ltb c 48 a, le→ltb 57 c b) refl

-- The high digits first, then the low ones.
atoi_loop-append :
    (xs ys : List ℕ) (result : ℕ)
    → Decimal xs
    → atoi_loop result (xs ++ ys) ≡ atoi_loop (atoi_loop result xs) ys
unfolding atoi_loop
atoi_loop-append [] ys result p = refl
atoi_loop-append (c ∷ xs) ys result (a, b, p) =
    rw (le→ltb c 48 a, le→ltb 57 c b)
      (atoi_loop-append xs ys ((10 * result + (c - 48)) % 4294967296) p)

atoi_loop-rev : (cs : List ℕ) → Decimal cs → atoi_loop 0 (rev cs) ≡ value cs % 4294967296
unfolding rev value atoi_loop
atoi_loop-rev [] p = nil
  where
    nil : atoi_loop 0 [] ≡ 0 % 4294967296
    nil = refl
atoi_loop-rev (c ∷ cs) (a, b, p) =
    rw
      (
        atoi_loop-append (rev cs) (c ∷ []) 0 (Decimal-rev cs p),
        atoi_loop-step c (atoi_loop 0 (rev cs)) [] a b,
        atoi_loop-rev cs p,
      )
      (last ((10 * (value cs % 4294967296) + (c - 48)) % 4294967296) (omega arith))
  where
    last :
        (r : ℕ)
        → r ≡ ((c - 48) + 10 * value cs) % 4294967296
        → atoi_loop r [] ≡ ((c - 48) + 10 * value cs) % 4294967296
    last r e = e

atoi_loop-end : (r : ℕ) → atoi_loop r (0 ∷ []) ≡ r
unfolding atoi_loop
atoi_loop-end r = refl

-- What the loop of `atoi` reads in the digits that `itoa` has turned round.
read_back :
    (ud : ℕ) (cs : List ℕ)
    → ud < 4294967296
    → Written ud cs
    → atoi_loop 0 (reverse_loop (length cs) 0 (length cs - 1) cs ++ 0 ∷ []) ≡ ud
read_back ud [] l (d, v, k) = absurd (omega arith)
read_back ud (c ∷ cs) l (d, v, k) =
    rw
      (
        reverse_loop-eq-rev c cs,
        atoi_loop-append (rev (c ∷ cs)) (0 ∷ []) 0 (Decimal-rev (c ∷ cs) d),
        atoi_loop-rev (c ∷ cs) d,
        v,
        atoi_loop-end (ud % 4294967296),
      )
      (omega arith)

-- A digit is no space and no sign.
atoi-digits : (c : ℕ) (s : List ℕ) → 48 ≤ c → c ≤ 57 → atoi (c ∷ s) ≡ atoi_loop 0 (c ∷ s)
unfolding atoi skip_spaces atoi_signed isspace
atoi-digits c s a b = ground arith

atoi-minus : (s : List ℕ) → atoi (45 ∷ s) ≡ (4294967296 - atoi_loop 0 s) % 4294967296
unfolding atoi skip_spaces atoi_signed isspace
atoi-minus s = refl

atoi-Decimal :
    (t : List ℕ) → Decimal t → 0 < length t → atoi (t ++ 0 ∷ []) ≡ atoi_loop 0 (t ++ 0 ∷ [])
atoi-Decimal [] p k = absurd (omega arith)
atoi-Decimal (c ∷ t) (a, b, p) k = atoi-digits c (t ++ 0 ∷ []) a b

length_rev : (c : ℕ) (cs : List ℕ) → 0 < length (rev (c ∷ cs))
unfolding rev
length_rev c cs = omega (arith, length-append (rev cs) (c ∷ []))

read_plain :
    (ud : ℕ) (cs : List ℕ)
    → ud < 4294967296
    → Written ud cs
    → atoi (reverse_loop (length cs) 0 (length cs - 1) cs ++ 0 ∷ []) ≡ ud
read_plain ud [] l (d, v, k) = absurd (omega arith)
read_plain ud (c ∷ cs) l (d, v, k) =
    let back = read_back ud (c ∷ cs) l (d, v, k) in
    let back' : atoi_loop 0 (rev (c ∷ cs) ++ 0 ∷ []) ≡ ud = rw (reverse_loop-eq-rev c cs) at back in
    rw
      (
        reverse_loop-eq-rev c cs,
        atoi-Decimal (rev (c ∷ cs)) (Decimal-rev (c ∷ cs) d) (length_rev c cs),
      )
      back'

read_minus :
    (d : ℕ) (cs : List ℕ)
    → 2147483648 ≤ d
    → d < 4294967296
    → Written (4294967296 - d) cs
    → atoi (45 ∷ reverse_loop (length cs) 0 (length cs - 1) cs ++ 0 ∷ []) ≡ d
read_minus d cs m l w =
    rw
      (
        atoi-minus (reverse_loop (length cs) 0 (length cs - 1) cs ++ 0 ∷ []),
        read_back (4294967296 - d) cs (omega arith) w,
      )
      (omega arith)

itoa-decimal :
    (d : ℕ)
    → itoa 100 d ≡ (
        if leb 2147483648 d
        then itoa_buffer true (digits 32 10 (4294967296 - d))
        else itoa_buffer false (digits 32 10 d))
unfolding itoa
itoa-decimal d = elim (Bool-cases (leb 2147483648 d)) [ inl h ↦ rw h refl | inr h ↦ rw h refl ]

itoa_buffer-some :
    (negative : Bool) (cs : List ℕ)
    → itoa_buffer negative (some cs)
      ≡ some (
          (if negative then 45 ∷ [] else [])
          ++ reverse_loop (length cs) 0 (length cs - 1) cs
          ++ 0 ∷ [])
unfolding itoa_buffer
itoa_buffer-some negative cs = refl

-- `itoa` in base `d` ends for every 32-bit integer, negative ones included, and `atoi` reads the
-- same integer back from the bytes it wrote.
pub atoi-itoa : (d : ℕ) → d < 4294967296 → (buf : List ℕ) × (itoa 100 d ≡ some buf) × (atoi buf ≡ d)
atoi-itoa d l = elim (Bool-cases (leb 2147483648 d)) [
  | inl neg ↦
      let m : 2147483648 ≤ d = ground arith in
      let (cs, q, w) = digits-Written 32 (4294967296 - d) (omega arith) (omega arith) in
      (
        45 ∷ reverse_loop (length cs) 0 (length cs - 1) cs ++ 0 ∷ [],
        rw (itoa-decimal d, neg, q) (itoa_buffer-some true cs),
        read_minus d cs m l w,
      )
  | inr plain ↦
      let (cs, q, w) = digits-Written 32 d (omega arith) (omega arith) in
      (
        reverse_loop (length cs) 0 (length cs - 1) cs ++ 0 ∷ [],
        rw (itoa-decimal d, plain, q) (itoa_buffer-some false cs),
        read_plain d cs l w,
      )
]
