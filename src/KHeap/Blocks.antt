-- ===== src/KHeap/Blocks.antt =====
-- `kheap_init` and `krealloc` of src/kheap.c on a heap that is a row of segments.
use nibras_os.Prelude.{ℕ, ◌<◌, ◌≡◌, refl, false, [], ◌∷◌, arith, ne→==, eq→==}
use nibras_os.KHeap.{KHeap, put, kheap_init}
use nibras_os.KHeap.Invariant.{IsHeap}

-- A heap of `n` bytes starts as one free segment.
pub kheap_init-IsHeap :
    (h : KHeap) (a n : ℕ)
    → h.allocated_size ≡ 0
    → 0 < a
    → 0 < n
    → n < 4294967296
    → IsHeap (kheap_init h a n) ((false, n) ∷ [])
unfolding kheap_init put
kheap_init-IsHeap h a n none_used at pos small = rw (ne→== n 0 (omega arith)) (record {
  placed = at;
  tiled = (rw (eq→== a a refl) refl, pos, tt);
  merged = (tt, tt);
  counted = none_used;
  inside = omega arith;
  small = small;
})
