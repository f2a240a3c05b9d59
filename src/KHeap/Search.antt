-- ===== src/KHeap/Search.antt =====
-- The search of `kmalloc`, src/kheap.c, along the list of chunks.
use nibras_os.Prelude.{
  ℕ, zero, suc, ◌+◌, ◌%◌, ◌≤◌, ◌<◌, ◌≡◌, refl, ◌≢◌, inl, inr, Bool, ◌&&◌, Option, none, some, List,
  [], ◌∷◌, arith, if◌then◌else◌, ◌==◌, leb, le→ltb, ne→==, length, Bool-cases, ap, ◌∙◌,
}
use nibras_os.KHeap.{
  Chunk, KHeap, state_free, find_chunk, take_chunk, search_chunk, kmalloc, rounded, kexpand,
}

-- The chunks from `a` on are those at the addresses `cs`, in this order.
abbrev pub Chain : (ℕ → Chunk) → ℕ → List ℕ → Type 0
Chain chunks a [] = a ≡ 0
Chain chunks a (b ∷ cs) = (a ≡ b) × (b ≢ 0) × Chain chunks ((chunks b).next) cs

abbrev pub fits : (ℕ → Chunk) → ℕ → ℕ → Bool
fits chunks length a = (chunks a).state == state_free && leb length ((chunks a).length)

-- The reference: the first address whose chunk is free and long enough.
unfoldable pub first_fit : (ℕ → Chunk) → ℕ → List ℕ → Option ℕ
first_fit chunks length [] = none
first_fit chunks length (a ∷ cs) =
    if fits chunks length a then some a else first_fit chunks length cs

-- With more fuel than the list has chunks, the loop of `kmalloc` ends, and at the first chunk that is
-- free and long enough, or at the end of the list when there is none.
pub find_chunk-first_fit :
    (fuel : ℕ) (chunks : ℕ → Chunk) (a : ℕ) (cs : List ℕ) (size : ℕ)
    → Chain chunks a cs
    → length cs < fuel
    → find_chunk fuel chunks a size ≡ some (first_fit chunks size cs)
unfolding find_chunk first_fit
find_chunk-first_fit zero chunks a cs size w l = absurd (omega arith)
find_chunk-first_fit (suc n) chunks a [] size w l = rw w refl
find_chunk-first_fit (suc n) chunks a (b ∷ cs) size (e, nz, w) l =
    let ih = find_chunk-first_fit n chunks ((chunks b).next) cs size w (omega arith) in
    elim (Bool-cases (fits chunks size b)) [
      | inl f ↦ rw (e, ne→== b 0 nz, f) refl
      | inr f ↦ rw (e, ne→== b 0 nz, f, ih) refl
    ]

pub search_chunk-found :
    (fuel tables : ℕ) (h : KHeap) (a c size : ℕ)
    → find_chunk fuel (h.chunks) a size ≡ some (some c)
    → search_chunk fuel tables h a size ≡ some (take_chunk h c size)
unfolding search_chunk
search_chunk-found fuel tables h a c size e =
    ap
      (λ o. elim o [
        | none ↦ none
        | some (some c) ↦ some (take_chunk h c size)
        | some none ↦ elim (kexpand tables h size) [
          | none ↦ some (h, 0)
          | some h1 ↦ some (take_chunk h1 (h1.tail) size)
        ]
      ])
      e

-- Without growth `kmalloc` searches from the head.
pub kmalloc-search :
    (fuel tables : ℕ) (h : KHeap) (size : ℕ)
    → size ≢ 0
    → (h.allocated_size + rounded size) % 4294967296 ≤ h.max_length
    → kmalloc fuel tables h size ≡ search_chunk fuel tables h (h.head) (rounded size)
unfolding kmalloc
kmalloc-search fuel tables h size nz room =
    rw
      (
        kmalloc,
        ne→== size 0 nz,
        le→ltb (h.max_length) ((h.allocated_size + rounded size) % 4294967296) room,
      )
      refl

-- For a size that is not 0, when the heap does not have to grow, the fuel is more than the chunks
-- of the list, and some chunk fits, `kmalloc` ends and takes the first chunk that is free and long
-- enough for the rounded size.
pub kmalloc-first_fit :
    (fuel tables : ℕ) (h : KHeap) (cs : List ℕ) (size c : ℕ)
    → size ≢ 0
    → (h.allocated_size + rounded size) % 4294967296 ≤ h.max_length
    → Chain (h.chunks) (h.head) cs
    → length cs < fuel
    → first_fit (h.chunks) (rounded size) cs ≡ some c
    → kmalloc fuel tables h size ≡ some (take_chunk h c (rounded size))
unfolding kmalloc
kmalloc-first_fit fuel tables h cs size c nz room w l f =
    let e : find_chunk fuel (h.chunks) (h.head) (rounded size) ≡ some (some c) =
      find_chunk-first_fit fuel (h.chunks) (h.head) cs (rounded size) w l ∙ ap some f in
    kmalloc-search fuel tables h size nz room
    ∙ search_chunk-found fuel tables h (h.head) c (rounded size) e
