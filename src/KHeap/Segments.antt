-- ===== src/KHeap/Segments.antt =====
-- The heap of src/kheap.c as its segments: what an allocation and a release do to the row of segments,
-- how many bytes are used, and that no two free segments stand side by side.
use nibras_os.Prelude.{
  ℕ, ◌+◌, ◌-◌, ◌*◌, ◌≤◌, ◌≡◌, refl, inl, inr, Bool, true, false, ◌&&◌, List, [], ◌∷◌, ◌++◌, arith,
  if◌then◌else◌, ltb, Bool-cases,
}
use nibras_os.KHeap.{kunit}
use nibras_os.KHeap.Tiling.{Segment, taken, merge_first}

abbrev pub size : List Segment → ℕ
size [] = 0
size ((used, l) ∷ xs) = l + size xs

abbrev pub used_size : List Segment → ℕ
used_size [] = 0
used_size ((true, l) ∷ xs) = l + used_size xs
used_size ((false, l) ∷ xs) = used_size xs

-- The segment before those that follow is not free, or the first of them is not.
abbrev pub Apart : Bool → List Segment → Type 0
Apart true xs = Unit {0}
Apart false [] = Unit {0}
Apart false ((used, l) ∷ xs) = used ≡ true

abbrev pub IsMerged : List Segment → Type 0
IsMerged [] = Unit {0}
IsMerged ((used, l) ∷ xs) = Apart used xs × IsMerged xs

-- The last of the segments `xs` takes in the first of `zs` when both are free.
abbrev pub merge_last : List Segment → List Segment → List Segment
merge_last [] zs = zs
merge_last (x ∷ []) zs = merge_first (x ∷ zs)
merge_last (x ∷ y ∷ xs) zs = x ∷ merge_last (y ∷ xs) zs

-- A segment of `l` bytes between `xs` and `ys` is freed.
abbrev pub freed : List Segment → ℕ → List Segment → List Segment
freed xs l ys = merge_last xs (merge_first ((false, l) ∷ ys))

pub size-append : (xs ys : List Segment) → size (xs ++ ys) ≡ size xs + size ys
size-append [] ys = omega arith
size-append ((used, l) ∷ xs) ys = omega (arith, size-append xs ys)

pub used_size-append : (xs ys : List Segment) → used_size (xs ++ ys) ≡ used_size xs + used_size ys
used_size-append [] ys = omega arith
used_size-append ((true, l) ∷ xs) ys = omega (arith, used_size-append xs ys)
used_size-append ((false, l) ∷ xs) ys = used_size-append xs ys

pub used_size-le : (xs : List Segment) → used_size xs ≤ size xs
used_size-le [] = omega arith
used_size-le ((true, l) ∷ xs) = omega (arith, used_size-le xs)
used_size-le ((false, l) ∷ xs) = omega (arith, used_size-le xs)

-- What merging keeps, of the bytes and of the used bytes.
merge_first_sizes :
    (xs : List Segment)
    → (size (merge_first xs) ≡ size xs) × (used_size (merge_first xs) ≡ used_size xs)
merge_first_sizes [] = (refl, refl)
merge_first_sizes ((true, l) ∷ xs) = (refl, refl)
merge_first_sizes ((false, l) ∷ []) = (refl, refl)
merge_first_sizes ((false, l) ∷ (true, m) ∷ xs) = (refl, refl)
merge_first_sizes ((false, l) ∷ (false, m) ∷ xs) = (omega arith, refl)

merge_last_sizes :
    (xs zs : List Segment)
    → (size (merge_last xs zs) ≡ size xs + size zs)
      × (used_size (merge_last xs zs) ≡ used_size xs + used_size zs)
merge_last_sizes [] zs = (omega arith, omega arith)
merge_last_sizes ((true, l) ∷ []) zs = (omega arith, omega arith)
merge_last_sizes ((false, l) ∷ []) zs =
    let (a, b) = merge_first_sizes ((false, l) ∷ zs) in (omega arith, omega arith)
merge_last_sizes ((true, l) ∷ y ∷ xs) zs =
    let (a, b) = merge_last_sizes (y ∷ xs) zs in (omega arith, omega arith)
merge_last_sizes ((false, l) ∷ y ∷ xs) zs =
    let (a, b) = merge_last_sizes (y ∷ xs) zs in (omega arith, omega arith)

pub freed_sizes :
    (xs : List Segment) (l : ℕ) (ys : List Segment)
    → (size (freed xs l ys) ≡ size (xs ++ (true, l) ∷ ys))
      × (used_size (freed xs l ys) + l ≡ used_size (xs ++ (true, l) ∷ ys))
freed_sizes xs l ys =
    let (a, b) = merge_last_sizes xs (merge_first ((false, l) ∷ ys)) in
    let (c, d) = merge_first_sizes ((false, l) ∷ ys) in
    (
      omega (arith, size-append xs ((true, l) ∷ ys)),
      omega (arith, used_size-append xs ((true, l) ∷ ys)),
    )

-- What a taken segment holds: at least the wanted size, and it is counted as used.
pub taken_sizes :
    (xs : List Segment) (n l : ℕ) (ys : List Segment)
    → n ≤ l
    → (size (xs ++ (taken n l ++ ys)) ≡ size (xs ++ (false, l) ∷ ys))
      × (used_size (xs ++ (taken n l ++ ys))
          ≡ used_size (xs ++ (false, l) ∷ ys)
            + (if ltb n l && ltb (2 * kunit) (l - n) then n else l))
taken_sizes xs n l ys le = elim (Bool-cases (ltb n l && ltb (2 * kunit) (l - n))) [
  | inl q ↦ rw q (
    omega
        (arith, size-append xs ((true, n) ∷ (false, l - n) ∷ ys), size-append xs ((false, l) ∷ ys)),
    omega (
      arith,
      used_size-append xs ((true, n) ∷ (false, l - n) ∷ ys),
      used_size-append xs ((false, l) ∷ ys),
    ),
  )
  | inr q ↦ rw q (
    omega (arith, size-append xs ((true, l) ∷ ys), size-append xs ((false, l) ∷ ys)),
    omega (arith, used_size-append xs ((true, l) ∷ ys), used_size-append xs ((false, l) ∷ ys)),
  )
]

Apart-used :
    (u : Bool) (x : Segment) (n : ℕ) (xs ys zs : List Segment)
    → Apart u (xs ++ x ∷ ys)
    → Apart u (xs ++ (true, n) ∷ zs)
Apart-used true x n xs ys zs h = tt
Apart-used false x n [] ys zs h = refl
Apart-used false x n (y ∷ xs) ys zs h = h

-- A segment that becomes used keeps those before it apart.
IsMerged-used :
    (x : Segment) (n : ℕ) (xs ys zs : List Segment)
    → IsMerged (xs ++ x ∷ ys)
    → IsMerged ((true, n) ∷ zs)
    → IsMerged (xs ++ (true, n) ∷ zs)
IsMerged-used x n [] ys zs m k = k
IsMerged-used x n ((u, l) ∷ xs) ys zs (a, m) k =
    (Apart-used u x n xs ys zs a, IsMerged-used x n xs ys zs m k)

IsMerged-back : (xs ys : List Segment) → IsMerged (xs ++ ys) → IsMerged ys
IsMerged-back [] ys m = m
IsMerged-back (x ∷ xs) ys (a, m) = IsMerged-back xs ys m

pub taken-IsMerged :
    (xs : List Segment) (n l : ℕ) (ys : List Segment)
    → IsMerged (xs ++ (false, l) ∷ ys)
    → IsMerged (xs ++ (taken n l ++ ys))
taken-IsMerged xs n l ys m =
    let (a, k) = IsMerged-back xs ((false, l) ∷ ys) m in
    elim (Bool-cases (ltb n l && ltb (2 * kunit) (l - n))) [
      | inl q ↦ rw q (IsMerged-used (false, l) n xs ys ((false, l - n) ∷ ys) m (tt, (a, k)))
      | inr q ↦ rw q (IsMerged-used (false, l) l xs ys ys m (tt, k))
    ]

merge_first-IsMerged :
    (u : Bool) (l : ℕ) (zs : List Segment) → IsMerged zs → IsMerged (merge_first ((u, l) ∷ zs))
merge_first-IsMerged true l zs m = (tt, m)
merge_first-IsMerged false l [] m = (tt, tt)
merge_first-IsMerged false l ((true, n) ∷ zs) m = (refl, m)
merge_first-IsMerged false l ((false, n) ∷ zs) m = m

Apart-merge_last :
    (u v : Bool) (l : ℕ) (xs ys zs : List Segment)
    → Apart u ((v, l) ∷ ys)
    → Apart u (merge_last ((v, l) ∷ xs) zs)
Apart-merge_last true v l xs ys zs h = tt
Apart-merge_last false true l [] ys zs h = refl
Apart-merge_last false true l (x ∷ xs) ys zs h = refl
Apart-merge_last false false l xs ys zs h = cc

merge_last-IsMerged :
    (xs ys zs : List Segment) → IsMerged (xs ++ ys) → IsMerged zs → IsMerged (merge_last xs zs)
merge_last-IsMerged [] ys zs m k = k
merge_last-IsMerged ((u, l) ∷ []) ys zs m k = merge_first-IsMerged u l zs k
merge_last-IsMerged ((u, l) ∷ (v, n) ∷ xs) ys zs (a, m) k =
    (Apart-merge_last u v n xs (xs ++ ys) zs a, merge_last-IsMerged ((v, n) ∷ xs) ys zs m k)

pub freed-IsMerged :
    (xs : List Segment) (l : ℕ) (ys : List Segment)
    → IsMerged (xs ++ (true, l) ∷ ys)
    → IsMerged (freed xs l ys)
freed-IsMerged xs l ys m =
    merge_last-IsMerged xs ((true, l) ∷ ys) (merge_first ((false, l) ∷ ys)) m
      (merge_first-IsMerged false l ys (IsMerged-back xs ((true, l) ∷ ys) m).1)
