-- ===== src/KHeap/Invariant.antt =====
-- `kmalloc` and `kfree` of src/kheap.c on a heap that is a row of segments.
use nibras_os.Prelude.{
  ℕ, zero, suc, ◌+◌, ◌-◌, ◌*◌, ◌≤◌, ◌<◌, ◌≡◌, refl, ◌≢◌, inl, inr, ◌⊎◌, Bool, true, false, ◌&&◌,
  some, List, [], ◌∷◌, ◌++◌, arith, if◌then◌else◌, ◌==◌, ltb, leb, ne→==, length, Bool-cases, ap,
  sym, ◌∙◌,
}
use mathlib.Core.Path.{subst}
use nibras_os.KHeap.{
  Chunk, KHeap, state_free, state_used, kunit, split_for, take_chunk, find_chunk, rounded, kmalloc,
}
use nibras_os.KHeap.Chunks.{put_self}
use nibras_os.KHeap.Search.{search_chunk-found, kmalloc-search}
use nibras_os.KHeap.Tiling.{
  Segment, header, stop, last_of, first_of, Tiles, taken, le-stop, Tiles-split, Tiles-join,
  Tiles-frame,
}
use nibras_os.KHeap.Steps.{take-Tiles}
use nibras_os.KHeap.Segments.{
  size, used_size, IsMerged, size-append, used_size-append, used_size-le, taken_sizes,
  taken-IsMerged,
}

-- The heap is the row of segments `xs` from its head on: the list of chunks tiles the memory, no two free
-- chunks stand side by side, and `allocated_size` is the number of bytes in use.
pub record IsHeap (h : KHeap) (xs : List Segment) : Type 0 where
  pub placed : 0 < h.head
  pub tiled : Tiles (h.chunks) 0 (h.head) xs 0
  pub merged : IsMerged xs
  pub counted : h.allocated_size ≡ used_size xs
  pub inside : size xs ≤ h.max_length
  pub small : h.max_length < 4294967296

-- No free segment has `n` bytes.
abbrev pub NoneFits : ℕ → List Segment → Type 0
NoneFits n [] = Unit {0}
NoneFits n ((used, l) ∷ xs) = ((used ≡ true) ⊎ (l < n)) × NoneFits n xs

does_not_fit :
    (u : Bool) (n l : ℕ) (t : Chunk) (next prev : ℕ)
    → t ≡ header (u, l) next prev
    → (u ≡ true) ⊎ (l < n)
    → (t.state == state_free && leb n (t.length)) ≡ false
does_not_fit true n l t next prev e h = rw e refl
does_not_fit false n l t next prev e (inl h) = cc
does_not_fit false n l t next prev e (inr h) = rw e (ground arith)

first_of-middle :
    (a : ℕ) (xs : List Segment) (y : Segment) (ys : List Segment) → first_of a (xs ++ y ∷ ys) 0 ≡ a
first_of-middle a [] y ys = refl
first_of-middle a (x ∷ xs) y ys = refl

find_chunk-Tiles :
    (fuel : ℕ) (chunks : ℕ → Chunk) (p a n l : ℕ) (xs ys : List Segment)
    → Tiles chunks p a (xs ++ (false, l) ∷ ys) 0
    → 0 < a
    → NoneFits n xs
    → n ≤ l
    → length xs < fuel
    → find_chunk fuel chunks a n ≡ some (some (stop a xs))
unfolding find_chunk
find_chunk-Tiles zero chunks p a n l xs ys w at none_fits fits enough = absurd (omega arith)
find_chunk-Tiles (suc fuel) chunks p a n l [] ys (e, pos, w) at none_fits fits enough =
    let hit : leb n l ≡ true = ground arith in rw (e, ne→== a 0 (omega arith), hit) refl
find_chunk-Tiles (suc fuel) chunks p a n l ((u, m) ∷ xs) ys (e, pos, w) at (no_fit, none_fits) fits
      enough =
    let next = ap (λ (t : Chunk). t.next) e ∙ first_of-middle (a + m) xs (false, l) ys in
    rw
      (
        ne→== a 0 (omega arith),
        does_not_fit u n m (chunks a) (first_of (a + m) (xs ++ (false, l) ∷ ys) 0) p e no_fit,
        next,
      )
      (find_chunk-Tiles fuel chunks a (a + m) n l xs ys w (omega arith) none_fits fits
        (omega arith))

-- The length that is looked for, when adding the unit of the header does not wrap.
pub rounded-le :
    (n : ℕ) → n + 2 * kunit ≤ 4294967296 → (n + kunit ≤ rounded n) × (rounded n < n + 2 * kunit)
unfolding rounded
rounded-le n h = ground arith

abbrev taken_length : ℕ → ℕ → ℕ
taken_length n l = if ltb n l && ltb (2 * kunit) (l - n) then n else l

taken_header :
    (chunks : ℕ → Chunk) (p c n l : ℕ) (ys : List Segment)
    → Tiles chunks p c (taken n l ++ ys) 0
    → (chunks c).length ≡ taken_length n l
taken_header chunks p c n l ys = elim (Bool-cases (ltb n l && ltb (2 * kunit) (l - n))) [
  | inl q ↦ rw q (λ w. ap (λ (t : Chunk). t.length) (w.0))
  | inr q ↦ rw q (λ w. ap (λ (t : Chunk). t.length) (w.0))
]

first_of-taken : (a n l : ℕ) (ys : List Segment) → a ≡ first_of a (taken n l ++ ys) 0
first_of-taken a n l ys = elim (Bool-cases (ltb n l && ltb (2 * kunit) (l - n))) [
  | inl q ↦ rw q refl
  | inr q ↦ rw q refl
]

-- Taking a free segment that is long enough keeps the heap a row of segments.
take_chunk-IsHeap :
    (h : KHeap) (xs : List Segment) (n l : ℕ) (ys : List Segment)
    → IsHeap h (xs ++ (false, l) ∷ ys)
    → 0 < n
    → n ≤ l
    → IsHeap (take_chunk h (stop (h.head) xs) n).0 (xs ++ (taken n l ++ ys))
unfolding take_chunk
take_chunk-IsHeap h xs n l ys v pos le =
    let c = stop (h.head) xs in
    let (front, back) = Tiles-split (h.chunks) 0 (h.head) 0 xs ((false, l) ∷ ys) (v.tiled) in
    let at : h.head ≤ c = le-stop (h.head) xs in
    let at0 = v.placed in
    let (chunks', is, w, same) =
      take-Tiles (h.chunks) (last_of 0 (h.head) xs) c l n ys (omega arith) pos back in
    let split = split_for (h.chunks) c n in
    let len : (split c).length ≡ taken_length n l =
      ap (λ (t : Chunk). t.length)
        (sym (put_self split c (record (split c) { state = state_used })))
      ∙ ap (λ (t : ℕ → Chunk). (t c).length) is
      ∙ taken_header chunks' (last_of 0 (h.head) xs) c n l ys w in
    let (all, used) = taken_sizes xs n l ys le in
    record {
      placed = v.placed;
      tiled =
          subst (λ (t : ℕ → Chunk). Tiles t 0 (h.head) (xs ++ (taken n l ++ ys)) 0) (sym is)
            (Tiles-join chunks' 0 (h.head) 0 xs (taken n l ++ ys)
              (subst (λ (m : ℕ). Tiles chunks' 0 (h.head) xs m) (first_of-taken c n l ys)
                (Tiles-frame (h.chunks) chunks' 0 (h.head) c xs (λ x lo hi. same x hi) front))
              w);
      merged = taken-IsMerged xs n l ys (v.merged);
      counted =
          omega (arith, len, v.counted, v.inside, v.small, used_size-le (xs ++ (taken n l ++ ys)));
      inside = omega (arith, v.inside);
      small = v.small;
    }

take_chunk-pointer : (h : KHeap) (c n : ℕ) → (take_chunk h c n).1 ≡ c + kunit
unfolding take_chunk
take_chunk-pointer h c n = refl

take_chunk-head : (h : KHeap) (c n : ℕ) → (take_chunk h c n).0.head ≡ h.head
unfolding take_chunk
take_chunk-head h c n = refl

-- On a heap that is a row of segments, whose list of chunks tiles at most max_length bytes, a
-- 32-bit number, with no two free segments side by side and allocated_size the number of bytes in
-- use, kmalloc of a size that is not 0 and does not wrap when the header is added ends, with more
-- fuel than there are segments before it, at the first free segment that is long enough: it returns
-- the pointer behind its header, the segment is used, the rest of it is a free segment when more
-- than two units are left, and the heap is such a row again.
pub kmalloc-IsHeap :
    (fuel tables : ℕ) (h : KHeap) (xs : List Segment) (n l : ℕ) (ys : List Segment)
    → IsHeap h (xs ++ (false, l) ∷ ys)
    → n ≢ 0
    → n + 2 * kunit ≤ 4294967296
    → NoneFits (rounded n) xs
    → rounded n ≤ l
    → length xs < fuel
    → (h1 : KHeap) × (kmalloc fuel tables h n ≡ some (h1, stop (h.head) xs + kunit))
      × IsHeap h1 (xs ++ (taken (rounded n) l ++ ys))
      × (h1.head ≡ h.head)
kmalloc-IsHeap fuel tables h xs n l ys v nz plain none_fits le enough =
    let (lo, hi) = rounded-le n plain in
    let at0 = v.placed in
    let c = stop (h.head) xs in
    let room : h.allocated_size + rounded n ≤ h.max_length = omega (
      arith,
      v.counted,
      v.inside,
      used_size-append xs ((false, l) ∷ ys),
      size-append xs ((false, l) ∷ ys),
      used_size-le xs,
      used_size-le ys,
    ) in
    let found =
      find_chunk-Tiles fuel (h.chunks) 0 (h.head) (rounded n) l xs ys (v.tiled) (v.placed) none_fits
        le enough in
    (
      (take_chunk h c (rounded n)).0,
      kmalloc-search fuel tables h n nz (omega (arith, v.small))
          ∙ search_chunk-found fuel tables h (h.head) c (rounded n) found
          ∙ ap (λ (a : ℕ). some ((take_chunk h c (rounded n)).0, a))
              (take_chunk-pointer h c (rounded n)),
      take_chunk-IsHeap h xs (rounded n) l ys v (omega arith) le,
      take_chunk-head h c (rounded n),
    )
