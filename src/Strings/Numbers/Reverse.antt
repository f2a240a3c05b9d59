-- ===== src/Strings/Numbers/Reverse.antt =====
-- The reversal in place of `itoa`, src/string.c, against the reverse of a list.
use nibras_os.Prelude.{
  ℕ, zero, suc, ◌+◌, ◌-◌, ◌≤◌, ◌<◌, ◌≡◌, refl, ◌⊎◌, inl, inr, List, [], ◌∷◌, ◌++◌, arith, ltb,
  ltb→lt, length, length-append, length-set, get_or, set, get_or-set_self, get_or-set_ne,
  Bool-cases, ap, sym,
}
use nibras_os.Strings.Numbers.{reverse_loop}

unfoldable pub rev : List ℕ → List ℕ
rev [] = []
rev (c ∷ cs) = rev cs ++ c ∷ []

same_list :
    (xs ys : List ℕ)
    → length xs ≡ length ys
    → ((i : ℕ) → i < length xs → get_or xs i 0 ≡ get_or ys i 0)
    → xs ≡ ys
same_list [] [] l h = refl
same_list [] (y ∷ ys) l h = absurd (omega arith)
same_list (x ∷ xs) [] l h = absurd (omega arith)
same_list (x ∷ xs) (y ∷ ys) l h =
    let e : x ≡ y = h 0 (omega arith) in
    let t : xs ≡ ys = same_list xs ys (omega arith) (λ i lt. h (suc i) (omega arith)) in
    rw (e, t) refl

get_or-append_left :
    (xs ys : List ℕ) (i : ℕ) → i < length xs → get_or (xs ++ ys) i 0 ≡ get_or xs i 0
get_or-append_left [] ys i l = absurd (omega arith)
get_or-append_left (x ∷ xs) ys zero l = refl
get_or-append_left (x ∷ xs) ys (suc i) l = get_or-append_left xs ys i (omega arith)

get_or-append_last : (xs : List ℕ) (c i : ℕ) → i ≡ length xs → get_or (xs ++ c ∷ []) i 0 ≡ c
get_or-append_last [] c zero e = refl
get_or-append_last [] c (suc i) e = absurd (omega arith)
get_or-append_last (x ∷ xs) c zero e = absurd (omega arith)
get_or-append_last (x ∷ xs) c (suc i) e = get_or-append_last xs c i (omega arith)

length-rev : (cs : List ℕ) → length (rev cs) ≡ length cs
unfolding rev
length-rev [] = refl
length-rev (c ∷ cs) = omega (arith, length-append (rev cs) (c ∷ []), length-rev cs)

get_or-rev : (cs : List ℕ) (i j : ℕ) → i + j + 1 ≡ length cs → get_or (rev cs) i 0 ≡ get_or cs j 0
unfolding rev
get_or-rev [] i j e = absurd (omega arith)
get_or-rev (c ∷ cs) i zero e = get_or-append_last (rev cs) c i (omega (arith, length-rev cs))
get_or-rev (c ∷ cs) i (suc j) e =
    rw (get_or-append_left (rev cs) (c ∷ []) i (omega (arith, length-rev cs)))
      (get_or-rev cs i j (omega arith))

length-reverse_loop : (n p1 p2 : ℕ) (buf : List ℕ) → length (reverse_loop n p1 p2 buf) ≡ length buf
unfolding reverse_loop
length-reverse_loop zero p1 p2 buf = refl
length-reverse_loop (suc n) p1 p2 buf = elim (Bool-cases (ltb p1 p2)) [
  | inl l ↦
      let s1 = set buf p1 (get_or buf p2 0) in
      let e1 = length-set buf p1 (get_or buf p2 0) in
      let e2 = length-set s1 p2 (get_or buf p1 0) in
      rw (l, length-reverse_loop n (p1 + 1) (p2 - 1) (set s1 p2 (get_or buf p1 0))) (omega arith)
  | inr l ↦ rw l refl
]

reverse_loop-outside :
    (n p1 p2 : ℕ) (buf : List ℕ) (i : ℕ)
    → (i < p1) ⊎ (p2 < i)
    → get_or (reverse_loop n p1 p2 buf) i 0 ≡ get_or buf i 0
unfolding reverse_loop
reverse_loop-outside zero p1 p2 buf i o = refl
reverse_loop-outside (suc n) p1 p2 buf i o = elim (Bool-cases (ltb p1 p2)) [
  | inl l ↦
      let lt = ltb→lt p1 p2 l in
      let s1 = set buf p1 (get_or buf p2 0) in
      rw
        (
          l,
          reverse_loop-outside n (p1 + 1) (p2 - 1) (set s1 p2 (get_or buf p1 0)) i (omega arith),
          get_or-set_ne s1 p2 i (get_or buf p1 0) 0 (omega arith),
        )
        (get_or-set_ne buf p1 i (get_or buf p2 0) 0 (omega arith))
  | inr l ↦ rw l refl
]

reverse_loop-inside :
    (n p1 p2 : ℕ) (buf : List ℕ) (i j : ℕ)
    → p2 < length buf
    → p2 ≤ p1 + n
    → p1 ≤ i
    → p1 ≤ j
    → i + j ≡ p1 + p2
    → get_or (reverse_loop n p1 p2 buf) i 0 ≡ get_or buf j 0
unfolding reverse_loop
reverse_loop-inside zero p1 p2 buf i j b f li lj e =
    let q : i ≡ j = omega arith in ap (λ k. get_or buf k 0) q
reverse_loop-inside (suc n) p1 p2 buf i j b f li lj e = elim (Bool-cases (ltb p1 p2)) [
  | inl l ↦
      let lt = ltb→lt p1 p2 l in
      let v1 = get_or buf p2 0 in
      let v2 = get_or buf p1 0 in
      let s1 = set buf p1 v1 in
      let s2 = set s1 p2 v2 in
      let e1 = length-set buf p1 v1 in
      let e2 = length-set s1 p2 v2 in
      rw l (elim (Bool-cases (ltb p1 i)) [
        | inl a ↦
            let a' = ltb→lt p1 i a in
            elim (Bool-cases (ltb p1 j)) [
              | inl c ↦
                  let c' = ltb→lt p1 j c in
                  rw
                    (
                      reverse_loop-inside n (p1 + 1) (p2 - 1) s2 i j (omega arith) (omega arith)
                          (omega arith) (omega arith) (omega arith),
                      get_or-set_ne s1 p2 j v2 0 (omega arith),
                    )
                    (get_or-set_ne buf p1 j v1 0 (omega arith))
              | inr c ↦
                  let ji : j ≡ p1 = ground arith in
                  let ii : p2 ≡ i = omega arith in
                  rw (reverse_loop-outside n (p1 + 1) (p2 - 1) s2 i (inr (omega arith)), ji, sym ii)
                    (get_or-set_self s1 p2 v2 0 (omega arith))
            ]
        | inr a ↦
            let ii : i ≡ p1 = ground arith in
            let jj : j ≡ p2 = omega arith in
            rw
              (
                ii,
                jj,
                reverse_loop-outside n (p1 + 1) (p2 - 1) s2 p1 (inl (omega arith)),
                get_or-set_ne s1 p2 p1 v2 0 (omega arith),
              )
              (get_or-set_self buf p1 v1 0 (omega arith))
      ])
  | inr l ↦ let q : i ≡ j = ground arith in rw l (ap (λ k. get_or buf k 0) q)
]

pub reverse_loop-eq-rev :
    (c : ℕ) (cs : List ℕ)
    → reverse_loop (length (c ∷ cs)) 0 (length (c ∷ cs) - 1) (c ∷ cs) ≡ rev (c ∷ cs)
reverse_loop-eq-rev c cs =
    let n = length (c ∷ cs) in
    let l1 = length-reverse_loop n 0 (n - 1) (c ∷ cs) in
    let l2 = length-rev (c ∷ cs) in
    same_list (reverse_loop n 0 (n - 1) (c ∷ cs)) (rev (c ∷ cs)) (omega arith) (λ i lt.
      rw
        (
          reverse_loop-inside n 0 (n - 1) (c ∷ cs) i (n - 1 - i) (omega arith) (omega arith)
              (omega arith) (omega arith) (omega arith),
          get_or-rev (c ∷ cs) i (n - 1 - i) (omega arith),
        )
        refl)
