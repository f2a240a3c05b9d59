-- ===== src/Strings/Copy.antt =====
-- `strcpy`, `strcpy_s`, `strncpy`, `strcat` and `strdup` of src/string.c. `dest` is the memory that
-- may be written, from the pointer on; a write behind its end is an overflow, `none`.
use nibras_os.Prelude.{
  ℕ, zero, suc, ◌+◌, ◌≤◌, ◌<◌, ◌≡◌, refl, Bool, false, Option, none, some, List, [], ◌∷◌, ◌++◌,
  arith, inl, inr, length-append, length-drop, if◌then◌else◌, ◌==◌, ltb, ltb→lt, length, drop,
  Bool-cases, ap,
}
use native.Mathlib.Numerals.{add-one}
use nibras_os.Strings.{text, strlen, strlen-eq-length}
use nibras_os.Strings.Compare.{head_byte, tail_bytes}

abbrev cons_result : ℕ → Option (List ℕ × ℕ) → Option (List ℕ × ℕ)
cons_result c none = none
cons_result c (some (dest, counter)) = some (c ∷ dest, counter + 1)

-- The memory after the copy, and the count that is returned.
unfoldable pub strcpy : List ℕ → List ℕ → Option (List ℕ × ℕ)
strcpy [] src = none
strcpy (d ∷ dest) [] = some (0 ∷ dest, 0)
strcpy (d ∷ dest) (c ∷ src) = if c == 0 then some (0 ∷ dest, 0) else cons_result c (strcpy dest src)

abbrev cons_copy : ℕ → Option (List ℕ) → Option (List ℕ)
cons_copy c none = none
cons_copy c (some dest) = some (c ∷ dest)

-- `n` bytes from `src` to `dest`, as `memcpy` and the loops do.
unfoldable pub copy_bytes : ℕ → List ℕ → List ℕ → Option (List ℕ)
copy_bytes zero dest src = some dest
copy_bytes (suc n) [] src = none
copy_bytes (suc n) (d ∷ dest) src = cons_copy (head_byte src) (copy_bytes n dest (tail_bytes src))

-- No terminator is written.
unfoldable pub strcpy_s : List ℕ → List ℕ → Option (List ℕ)
unfolding copy_bytes strlen
strcpy_s dest src = copy_bytes (strlen src) dest src

-- The loop of `strncpy`: the memory and the count at which it stops.
unfoldable pub strncpy_loop : ℕ → List ℕ → List ℕ → Option (List ℕ × ℕ)
strncpy_loop zero dest src = some (dest, 0)
strncpy_loop (suc n) [] src = none
strncpy_loop (suc n) (d ∷ dest) src =
    if head_byte src == 0
    then some (0 ∷ dest, 0)
    else cons_result (head_byte src) (strncpy_loop n dest (tail_bytes src))

-- The memory, and whether the returned pointer is not NULL. `maxLength` is not negative.
unfoldable pub strncpy : List ℕ → List ℕ → ℕ → Option (List ℕ × Bool)
unfolding strncpy_loop
strncpy dest src maxLength =
    elim (strncpy_loop (if ltb 255 maxLength then 255 else maxLength) dest src) [
      | none ↦ none
      | some (dest1, count) ↦ some (dest1, ltb count 255)
    ]

-- `*end = 0` behind the `n` bytes that were copied.
unfoldable pub set_end : ℕ → List ℕ → Option (List ℕ)
set_end n [] = none
set_end zero (c ∷ end) = some (0 ∷ end)
set_end (suc n) (c ∷ end) = cons_copy c (set_end n end)

unfoldable pub append_at : List ℕ → List ℕ → Option (List ℕ)
unfolding copy_bytes set_end strlen
append_at end src = elim (copy_bytes (strlen src) end src) [
  | none ↦ none
  | some end1 ↦ set_end (strlen src) end1
]

-- `end` is where the string in `dest` ends; a `dest` without a terminator is left behind its end.
unfoldable pub strcat : List ℕ → List ℕ → Option (List ℕ)
unfolding append_at
strcat [] src = none
strcat (d ∷ dest) src = if d == 0 then append_at (d ∷ dest) src else cons_copy d (strcat dest src)

-- The new block holds the bytes with their terminator.
unfoldable pub strdup : List ℕ → List ℕ
unfolding text
strdup src = text src ++ 0 ∷ []

strcpy_both :
    (dest src : List ℕ)
    → (length dest ≤ strlen src → strcpy dest src ≡ none)
      × (strlen src < length dest
          → strcpy dest src ≡ some (text src ++ 0 ∷ drop (suc (strlen src)) dest, strlen src))
unfolding strcpy text strlen
strcpy_both [] src = ((λ l. refl), (λ l. absurd (omega arith)))
strcpy_both (d ∷ dest) [] = ((λ l. absurd (omega arith)), (λ l. refl))
strcpy_both (d ∷ dest) (c ∷ src) = elim (Bool-cases (c == 0)) [
  | inl e ↦ rw e ((λ l. absurd (omega arith)), (λ l. refl))
  | inr e ↦
      let (over, fits) = strcpy_both dest src in
      rw (e, add-one (strlen src))
        (
          (λ l. rw (over (omega arith)) refl),
          (λ l. rw (fits (omega arith), add-one (strlen src)) refl),
        )
]

-- `strcpy` overflows exactly when the memory is no longer than the text; otherwise it holds the text
-- with a terminator, the bytes behind are kept, and the length of the text is returned.
pub strcpy-cases :
    (dest src : List ℕ)
    → strcpy dest src ≡ (
        if ltb (strlen src) (length dest)
        then some (text src ++ 0 ∷ drop (suc (strlen src)) dest, strlen src)
        else none)
strcpy-cases dest src = elim (Bool-cases (ltb (strlen src) (length dest))) [
  | inl l ↦ rw l ((strcpy_both dest src).1 (ltb→lt (strlen src) (length dest) l))
  | inr l ↦ rw l ((strcpy_both dest src).0 (ground arith))
]

copy_bytes-text :
    (dest src : List ℕ)
    → strlen src ≤ length dest
    → copy_bytes (strlen src) dest src ≡ some (text src ++ drop (strlen src) dest)
unfolding copy_bytes text strlen
copy_bytes-text dest [] l = refl
copy_bytes-text [] (c ∷ src) l = elim (Bool-cases (c == 0)) [
  | inl e ↦ rw e refl
  | inr e ↦ let l' : strlen src + 1 ≤ 0 = rw e at l in absurd (omega arith)
]
copy_bytes-text (d ∷ dest) (c ∷ src) l = elim (Bool-cases (c == 0)) [
  | inl e ↦ rw e refl
  | inr e ↦
      let l' : strlen src + 1 ≤ suc (length dest) = rw e at l in
      rw (e, add-one (strlen src), copy_bytes-text dest src (omega arith)) refl
]

set_end-text :
    (t end : List ℕ) (n : ℕ)
    → n ≡ length t
    → 0 < length end
    → set_end n (t ++ end) ≡ some (t ++ 0 ∷ drop 1 end)
unfolding set_end
set_end-text [] [] n e l = absurd (omega arith)
set_end-text [] (c ∷ end) zero e l = refl
set_end-text [] (c ∷ end) (suc n) e l = absurd (omega arith)
set_end-text (x ∷ t) end zero e l = absurd (omega arith)
set_end-text (x ∷ t) end (suc n) e l = rw (set_end-text t end n (omega arith) l) refl

append_at-text :
    (end src : List ℕ)
    → strlen src < length end
    → append_at end src ≡ some (text src ++ 0 ∷ drop 1 (drop (strlen src) end))
unfolding append_at
append_at-text end src l =
    rw (append_at, copy_bytes-text end src (omega arith))
      (set_end-text (text src) (drop (strlen src) end) (strlen src) (strlen-eq-length src)
        (omega (arith, length-drop (strlen src) end)))

-- What `strcat` leaves.
abbrev pub Appended : List ℕ → List ℕ → List ℕ → Type 0
Appended dest src r = (text r ≡ text dest ++ text src) × (length r ≡ length dest)

Appended-cons :
    (d : ℕ) (dest src r : List ℕ)
    → (d == 0) ≡ false
    → Appended dest src r
    → Appended (d ∷ dest) src (d ∷ r)
unfolding text
Appended-cons d dest src r e (t, n) = (rw e (ap (λ x. d ∷ x) t), ap suc n)

strcat-next :
    (d : ℕ) (dest src r : List ℕ)
    → (d == 0) ≡ false
    → strcat dest src ≡ some r
    → strcat (d ∷ dest) src ≡ some (d ∷ r)
unfolding strcat
strcat-next d dest src r e q = rw (strcat, e, q) refl

-- When the memory has room for both texts and a terminator, `strcat` leaves the text of `dest`
-- followed by the text of `src`, and ends it.
pub strcat-text :
    (dest src : List ℕ)
    → strlen dest + strlen src < length dest
    → (r : List ℕ) × (strcat dest src ≡ some r) × Appended dest src r
unfolding strcat text strlen
strcat-text [] src l = absurd (omega arith)
strcat-text (d ∷ dest) src l = elim (Bool-cases (d == 0)) [
  | inl e ↦
      let l0 : 0 + strlen src < length (d ∷ dest) = rw e at l in
      let l' : strlen src < length (d ∷ dest) = omega arith in
      let r = text src ++ 0 ∷ drop 1 (drop (strlen src) (d ∷ dest)) in
      let t = text-ended (drop 1 (drop (strlen src) (d ∷ dest))) src in
      (r, rw e (append_at-text (d ∷ dest) src l'), (rw e t, length-ended (d ∷ dest) src l'))
  | inr e ↦
      let l' : (strlen dest + 1) + strlen src < length (d ∷ dest) = rw e at l in
      let (r, q, a) = strcat-text dest src (omega arith) in
      (d ∷ r, strcat-next d dest src r e q, Appended-cons d dest src r e a)
]
  where
    text-ended : (end src : List ℕ) → text (text src ++ 0 ∷ end) ≡ text src
    text-ended end [] = refl
    text-ended end (c ∷ src) = elim (Bool-cases (c == 0)) [
      | inl e ↦ rw e refl
      | inr e ↦ rw (e, e, text-ended end src) refl
    ]

    length-ended :
        (dest src : List ℕ)
        → strlen src < length dest
        → length (text src ++ 0 ∷ drop 1 (drop (strlen src) dest)) ≡ length dest
    length-ended dest src l = omega (
      arith,
      length-append (text src) (0 ∷ drop 1 (drop (strlen src) dest)),
      strlen-eq-length src,
      length-drop 1 (drop (strlen src) dest),
      length-drop (strlen src) dest,
    )
