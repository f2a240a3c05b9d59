-- ===== src/KHeap/Tiling.antt =====
-- The chunks of src/kheap.c as the segments of the heap's memory, one behind the other: what it means
-- that the list of chunks is such a row of segments, and what a split, a merge and a change of state do to
-- it.
use nibras_os.Prelude.{
  ℕ, ◌+◌, ◌-◌, ◌*◌, ◌≤◌, ◌<◌, ◌≡◌, refl, ◌≢◌, Bool, true, false, ◌&&◌, List, [], ◌∷◌, ◌++◌, arith,
  if◌then◌else◌, ltb, ap, sym, ◌∙◌,
}
use nibras_os.KHeap.{Chunk, state_free, state_used, kunit}

-- A segment: whether it is used, and its length.
abbrev pub Segment : Type 0
Segment = Bool × ℕ

abbrev pub state_of : Bool → ℕ
state_of true = state_used
state_of false = state_free

abbrev pub header : Segment → ℕ → ℕ → Chunk
header (used, l) next prev = record { state = state_of used; length = l; next = next; prev = prev }

-- The address behind the segments from `a` on, and the one of the last of them.
abbrev pub stop : ℕ → List Segment → ℕ
stop a [] = a
stop a ((used, l) ∷ xs) = stop (a + l) xs

abbrev pub last_of : ℕ → ℕ → List Segment → ℕ
last_of p a [] = p
last_of p a ((used, l) ∷ xs) = last_of a (a + l) xs

-- The `next` before the segments from `a` on, when `n` follows behind them.
abbrev pub first_of : ℕ → List Segment → ℕ → ℕ
first_of a [] n = n
first_of a (x ∷ xs) n = a

-- From `a` on the headers are those of the segments, which are not empty; `p` precedes and `n` follows.
abbrev pub Tiles : (ℕ → Chunk) → ℕ → ℕ → List Segment → ℕ → Type 0
Tiles chunks p a [] n = Unit {0}
Tiles chunks p a ((used, l) ∷ xs) n =
    (chunks a ≡ header (used, l) (first_of (a + l) xs n) p) × (0 < l) × Tiles chunks a (a + l) xs n

-- A segment of `l` bytes, taken for `size` bytes.
abbrev pub taken : ℕ → ℕ → List Segment
taken size l =
    if ltb size l && ltb (2 * kunit) (l - size)
    then (true, size) ∷ (false, l - size) ∷ []
    else (true, l) ∷ []

-- A free segment takes in a free successor.
abbrev pub merge_first : List Segment → List Segment
merge_first ((false, l) ∷ (false, m) ∷ xs) = (false, l + m) ∷ xs
merge_first xs = xs

pub le-stop : (a : ℕ) (xs : List Segment) → a ≤ stop a xs
le-stop a [] = omega arith
le-stop a ((used, l) ∷ xs) = omega (arith, le-stop (a + l) xs)

pub stop-append : (a : ℕ) (xs ys : List Segment) → stop a (xs ++ ys) ≡ stop (stop a xs) ys
stop-append a [] ys = refl
stop-append a ((used, l) ∷ xs) ys = stop-append (a + l) xs ys

first_of-append :
    (a n : ℕ) (xs ys : List Segment)
    → first_of a xs (first_of (stop a xs) ys n) ≡ first_of a (xs ++ ys) n
first_of-append a n [] ys = refl
first_of-append a n (x ∷ xs) ys = refl

pub Tiles-split :
    (chunks : ℕ → Chunk) (p a n : ℕ) (xs ys : List Segment)
    → Tiles chunks p a (xs ++ ys) n
    → Tiles chunks p a xs (first_of (stop a xs) ys n)
      × Tiles chunks (last_of p a xs) (stop a xs) ys n
Tiles-split chunks p a n [] ys w = (tt, w)
Tiles-split chunks p a n ((used, l) ∷ xs) ys (e, pos, w) =
    let (front, back) = Tiles-split chunks a (a + l) n xs ys w in
    (
      (
        e ∙ ap (λ (m : ℕ). header (used, l) m p) (sym (first_of-append (a + l) n xs ys)),
        pos,
        front,
      ),
      back,
    )

pub Tiles-join :
    (chunks : ℕ → Chunk) (p a n : ℕ) (xs ys : List Segment)
    → Tiles chunks p a xs (first_of (stop a xs) ys n)
    → Tiles chunks (last_of p a xs) (stop a xs) ys n
    → Tiles chunks p a (xs ++ ys) n
Tiles-join chunks p a n [] ys front back = back
Tiles-join chunks p a n ((used, l) ∷ xs) ys (e, pos, front) back = (
  e ∙ ap (λ (m : ℕ). header (used, l) m p) (first_of-append (a + l) n xs ys),
  pos,
  Tiles-join chunks a (a + l) n xs ys front back,
)

-- Only the headers within the segments count.
pub Tiles-frame :
    (chunks chunks' : ℕ → Chunk) (p a n : ℕ) (xs : List Segment)
    → ((x : ℕ) → a ≤ x → x < stop a xs → chunks' x ≡ chunks x)
    → Tiles chunks p a xs n
    → Tiles chunks' p a xs n
Tiles-frame chunks chunks' p a n [] same w = tt
Tiles-frame chunks chunks' p a n ((used, l) ∷ xs) same (e, pos, w) = (
  same a (omega arith) (omega (arith, le-stop (a + l) xs)) ∙ e,
  pos,
  Tiles-frame chunks chunks' a (a + l) n xs (λ x lo hi. same x (omega arith) hi) w,
)

-- Another segment precedes.
pub Tiles-follow :
    (chunks chunks' : ℕ → Chunk) (p p' a n : ℕ) (xs : List Segment)
    → (first_of a xs 0 ≢ 0 → chunks' a ≡ record (chunks a) { prev = p' })
    → ((x : ℕ) → a < x → chunks' x ≡ chunks x)
    → 0 < a
    → Tiles chunks p a xs n
    → Tiles chunks' p' a xs n
Tiles-follow chunks chunks' p p' a n [] first same at w = tt
Tiles-follow chunks chunks' p p' a n ((used, l) ∷ xs) first same at (e, pos, w) = (
  first (omega arith) ∙ ap (λ (t : Chunk). record t { prev = p' }) e,
  pos,
  Tiles-frame chunks chunks' a (a + l) n xs (λ x lo hi. same x (omega arith)) w,
)
