-- ===== src/KHeap/Tests.antt =====
-- Runs of src/kheap.c on a small heap, and the theorems at it.
use nibras_os.Prelude.{
  ℕ, ◌%◌, ◌≡◌, refl, some, List, [], ◌∷◌, arith, if◌then◌else◌, ◌==◌, true, false, ◌++◌, inl,
}
use nibras_os.KHeap.{Chunk, KHeap, state_free, state_used, kfree, rounded, kmalloc}
use nibras_os.KHeap.Search.{Chain}
use nibras_os.KHeap.Tiling.{Segment, taken}
use nibras_os.KHeap.Invariant.{IsHeap, kmalloc-IsHeap}
use nibras_os.KHeap.Release.{kfree-IsHeap}

abbrev first_chunk : Chunk
first_chunk = record { state = state_used; length = 64; next = 4160; prev = 0 }

abbrev second_chunk : Chunk
second_chunk = record { state = state_free; length = 960; next = 0; prev = 4096 }

abbrev headers : ℕ → Chunk
headers a = if a == 4096 then first_chunk else second_chunk

abbrev heap : KHeap
heap = record {
  head = 4096;
  tail = 4160;
  max_length = 1024;
  allocated_size = 64;
  blocks_counter = 1;
  kmallocs = 1;
  chunks = headers;
}

abbrev addresses : List ℕ
addresses = 4096 ∷ 4160 ∷ []

heap-Chain : Chain headers 4096 addresses
heap-Chain = (refl, omega arith, (refl, omega arith, refl))

abbrev used_first : List Segment
used_first = (true, 64) ∷ []

heap-IsHeap : IsHeap heap (used_first ++ (false, 960) ∷ [])
heap-IsHeap = record {
  placed = omega arith;
  tiled = (refl, omega arith, (refl, omega arith, tt));
  merged = (tt, (tt, tt));
  counted = refl;
  inside = omega arith;
  small = omega arith;
}

wanted : rounded 80 ≡ 96
unfolding rounded
wanted = refl

kmalloc-IsHeap_example :
    (h1 : KHeap) × (kmalloc 3 0 heap 80 ≡ some (h1, 4176))
    × IsHeap h1 (used_first ++ (taken (rounded 80) 960 ++ []))
    × (h1.head ≡ 4096)
kmalloc-IsHeap_example =
    kmalloc-IsHeap 3 0 heap used_first 80 960 [] heap-IsHeap (omega arith) (omega arith)
      (inl refl, tt) (rw wanted (omega arith)) (omega arith)

kfree-IsHeap_example :
    IsHeap (kfree heap 4112) ((false, 1024) ∷ []) × ((kfree heap 4112).head ≡ 4096)
kfree-IsHeap_example = kfree-IsHeap heap [] 64 ((false, 960) ∷ []) heap-IsHeap

abbrev contents : ℕ → ℕ
contents a = a % 256
