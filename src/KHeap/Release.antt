-- ===== src/KHeap/Release.antt =====
-- `kfree` of src/kheap.c on a heap that is a row of segments.
use nibras_os.Prelude.{
  ℕ, ◌+◌, ◌≤◌, ◌<◌, ◌≡◌, refl, true, false, List, [], ◌∷◌, ◌++◌, arith, ap, sym, ◌∙◌,
}
use mathlib.Core.Path.{subst}
use nibras_os.KHeap.{Chunk, KHeap, state_free, state_used, kunit, put, kmerge, release, kfree}
use nibras_os.KHeap.Chunks.{put_self, put-ne, kfree-release}
use nibras_os.KHeap.Tiling.{
  Segment, header, stop, last_of, first_of, Tiles, merge_first, le-stop, Tiles-split, Tiles-join,
  Tiles-frame,
}
use nibras_os.KHeap.Steps.{kmerge-Tiles}
use nibras_os.KHeap.Segments.{merge_last, freed, used_size-le, freed_sizes, freed-IsMerged}
use nibras_os.KHeap.Invariant.{IsHeap}

abbrev free_header : Chunk → Chunk
free_header t = record t { state = state_free }

free_first-Tiles :
    (chunks : ℕ → Chunk) (p c l : ℕ) (ys : List Segment)
    → Tiles chunks p c ((true, l) ∷ ys) 0
    → Tiles (put chunks c (free_header (chunks c))) p c ((false, l) ∷ ys) 0
free_first-Tiles chunks p c l ys (e, pos, w) =
    let chunks' = put chunks c (free_header (chunks c)) in
    (
      put_self chunks c (free_header (chunks c)) ∙ ap free_header e,
      pos,
      Tiles-frame chunks chunks' c (c + l) 0 ys
          (λ x lo hi. put-ne chunks c x (free_header (chunks c)) (omega arith)) w,
    )

-- Merging keeps the first segment, and what precedes it.
merged_prev :
    (chunks : ℕ → Chunk) (p c : ℕ) (s : Segment) (xs : List Segment)
    → Tiles chunks p c (merge_first (s ∷ xs)) 0
    → (chunks c).prev ≡ p
merged_prev chunks p c (true, l) xs w = ap (λ (t : Chunk). t.prev) (w.0)
merged_prev chunks p c (false, l) [] w = ap (λ (t : Chunk). t.prev) (w.0)
merged_prev chunks p c (false, l) ((true, m) ∷ xs) w = ap (λ (t : Chunk). t.prev) (w.0)
merged_prev chunks p c (false, l) ((false, m) ∷ xs) w = ap (λ (t : Chunk). t.prev) (w.0)

first_of-merge_first :
    (a n : ℕ) (s : Segment) (xs : List Segment) → first_of a (merge_first (s ∷ xs)) n ≡ a
first_of-merge_first a n (true, l) xs = refl
first_of-merge_first a n (false, l) [] = refl
first_of-merge_first a n (false, l) ((true, m) ∷ xs) = refl
first_of-merge_first a n (false, l) ((false, m) ∷ xs) = refl

first_of-merge_last :
    (a n : ℕ) (s : Segment) (xs zs : List Segment) → first_of a (merge_last (s ∷ xs) zs) n ≡ a
first_of-merge_last a n s [] zs = first_of-merge_first a n s zs
first_of-merge_last a n s (x ∷ xs) zs = refl

kmerge_null : (chunks : ℕ → Chunk) → kmerge chunks 0 ≡ chunks
unfolding kmerge
kmerge_null chunks = refl

-- Merging at the last of the segments `x ∷ xs`.
merge_last-Tiles :
    (chunks : ℕ → Chunk) (p a : ℕ) (x : Segment) (xs zs : List Segment)
    → 0 < a
    → Tiles chunks p a (x ∷ xs ++ zs) 0
    → Tiles (kmerge chunks (last_of p a (x ∷ xs))) p a (merge_last (x ∷ xs) zs) 0
      × ((y : ℕ) → y < a → kmerge chunks (last_of p a (x ∷ xs)) y ≡ chunks y)
merge_last-Tiles chunks p a x [] zs at w = kmerge-Tiles chunks p a x zs at w
merge_last-Tiles chunks p a (u, l) (x ∷ xs) zs at (e, pos, w) =
    let (w1, same) = merge_last-Tiles chunks a (a + l) x xs zs (omega arith) w in
    (
      (
        same a (omega arith)
            ∙ e
            ∙ ap (λ (m : ℕ). header (u, l) m p) (sym (first_of-merge_last (a + l) 0 x xs zs)),
        pos,
        w1,
      ),
      λ y hy. same y (omega arith),
    )

-- The two merges of a release: at the segment, and at the one that precedes it.
merge_both-Tiles :
    (chunks : ℕ → Chunk) (a l : ℕ) (xs ys : List Segment)
    → 0 < a
    → Tiles chunks 0 a (xs ++ (false, l) ∷ ys) 0
    → (let merged = kmerge chunks (stop a xs) in
        Tiles (kmerge merged ((merged (stop a xs)).prev)) 0 a (freed xs l ys) 0)
merge_both-Tiles chunks a l [] ys at w =
    let (w1, same) = kmerge-Tiles chunks 0 a (false, l) ys at w in
    let prev = merged_prev (kmerge chunks a) 0 a (false, l) ys w1 in
    rw (prev, kmerge_null (kmerge chunks a)) w1
merge_both-Tiles chunks a l (x ∷ xs) ys at w =
    let c = stop a (x ∷ xs) in
    let p = last_of 0 a (x ∷ xs) in
    let (front, back) = Tiles-split chunks 0 a 0 (x ∷ xs) ((false, l) ∷ ys) w in
    let far : a ≤ c = le-stop a (x ∷ xs) in
    let (w1, same) = kmerge-Tiles chunks p c (false, l) ys (omega arith) back in
    let merged = kmerge chunks c in
    let whole =
      Tiles-join merged 0 a 0 (x ∷ xs) (merge_first ((false, l) ∷ ys))
        (subst (λ (m : ℕ). Tiles merged 0 a (x ∷ xs) m)
          (sym (first_of-merge_first c 0 (false, l) ys))
          (Tiles-frame chunks merged 0 a c (x ∷ xs) (λ y lo hi. same y hi) front))
        w1 in
    subst (λ (q : ℕ). Tiles (kmerge merged q) 0 a (freed (x ∷ xs) l ys) 0)
      (sym (merged_prev merged p c (false, l) ys w1))
      (merge_last-Tiles merged 0 a x xs (merge_first ((false, l) ∷ ys)) at whole).0

release-IsHeap :
    (h : KHeap) (xs : List Segment) (l : ℕ) (ys : List Segment)
    → IsHeap h (xs ++ (true, l) ∷ ys)
    → IsHeap (release h (stop (h.head) xs)) (freed xs l ys)
unfolding release
release-IsHeap h xs l ys v =
    let c = stop (h.head) xs in
    let (front, back) = Tiles-split (h.chunks) 0 (h.head) 0 xs ((true, l) ∷ ys) (v.tiled) in
    let chunks' = put (h.chunks) c (free_header (h.chunks c)) in
    let w =
      Tiles-join chunks' 0 (h.head) 0 xs ((false, l) ∷ ys)
        (Tiles-frame (h.chunks) chunks' 0 (h.head) c xs
          (λ x lo hi. put-ne (h.chunks) c x (free_header (h.chunks c)) (omega arith)) front)
        (free_first-Tiles (h.chunks) (last_of 0 (h.head) xs) c l ys back) in
    let len : (h.chunks c).length ≡ l = ap (λ (t : Chunk). t.length) (back.0) in
    let (all, used) = freed_sizes xs l ys in
    record {
      placed = v.placed;
      tiled = merge_both-Tiles chunks' (h.head) l xs ys (v.placed) w;
      merged = freed-IsMerged xs l ys (v.merged);
      counted =
          omega (arith, len, v.counted, v.inside, v.small, used_size-le (xs ++ (true, l) ∷ ys));
      inside = omega (arith, v.inside);
      small = v.small;
    }

release-head : (h : KHeap) (c : ℕ) → (release h c).head ≡ h.head
unfolding release
release-head h c = refl

-- On a heap that is a row of segments, whose list of chunks tiles at most max_length bytes, a
-- 32-bit number, with no two free segments side by side and allocated_size the number of bytes in
-- use, kfree of the pointer of a used segment makes it free, merges it with the free one behind it
-- and the free one before it, and the heap is such a row again.
pub kfree-IsHeap :
    (h : KHeap) (xs : List Segment) (l : ℕ) (ys : List Segment)
    → IsHeap h (xs ++ (true, l) ∷ ys)
    → IsHeap (kfree h (stop (h.head) xs + kunit)) (freed xs l ys)
      × ((kfree h (stop (h.head) xs + kunit)).head ≡ h.head)
kfree-IsHeap h xs l ys v =
    let c = stop (h.head) xs in
    let (front, back) = Tiles-split (h.chunks) 0 (h.head) 0 xs ((true, l) ∷ ys) (v.tiled) in
    let used : (h.chunks c).state ≡ state_used = ap (λ (t : Chunk). t.state) (back.0) in
    subst (λ (t : KHeap). IsHeap t (freed xs l ys) × (t.head ≡ h.head))
      (sym (kfree-release h c used)) (release-IsHeap h xs l ys v, release-head h c)
