-- ===== src/Frames/Tests.antt =====
-- The theorems on src/memory.c at concrete bitmaps, and runs of the model.
use nibras_os.Prelude.{
  bit, ◌+◌, ◌*◌, ◌/◌, ◌%◌, ℕ, ◌≤◌, ◌<◌, ◌≡◌, refl, ◌⊎◌, true, List, [], ◌∷◌, arith,
}
use nibras_os.Frames.{Frames, mem_alloc_page, mem_free_page, mem_alloc_pages, memory_init}
use nibras_os.Frames.Search.{frame_bit, full_cell-bit}
use nibras_os.Frames.Alloc.{IsValid, Allocated, mem_alloc_page-cases}
use nibras_os.Frames.Count.{Counted, Calls-Counted, start, alloc, free}
use nibras_os.Frames.Windows.{NoRun}
use nibras_os.Frames.Runs.{AllocatedRun, mem_alloc_pages-cases}
use nibras_os.Frames.Regions.{memory_init-reserved}

-- Frames 0 and 2 are in use.
abbrev cells : List ℕ
cells = 5 ∷ 0 ∷ []

abbrev two_cells : Frames
two_cells = record {
  mapped = true;
  bitmap = cells;
  bitmap_cells = 2;
  frames_count = 64;
  allocated = 2;
  zeroed = [];
}

two_cells-IsValid : IsValid two_cells
two_cells-IsValid = record { mapped = refl; storage = omega arith; addressable = omega arith }

alloc_run :
    mem_alloc_page two_cells true
    ≡ (0x1000, record two_cells { bitmap = 7 ∷ 0 ∷ []; allocated = 3; zeroed = 0x1000 ∷ [] })
unfolding mem_alloc_page
alloc_run = refl

-- Two pages: the run at frame 1 is accepted although frame 2 is in use.
overlap_run : (mem_alloc_pages two_cells 2).0 ≡ 0x1000
unfolding mem_alloc_pages
overlap_run = refl

mem_alloc_page-cases_example :
    ((mem_alloc_page two_cells true ≡ (0, two_cells))
      × ((64 ≤ 2) ⊎ ((b : ℕ) → b < 2 * 32 → frame_bit cells b ≡ 1)))
    ⊎ Allocated two_cells (mem_alloc_page two_cells true).1 (mem_alloc_page two_cells true).0
mem_alloc_page-cases_example = mem_alloc_page-cases two_cells true two_cells-IsValid

Calls-Counted_example :
    IsValid (mem_free_page (mem_alloc_page two_cells true).1 0x1000)
    × Counted (mem_free_page (mem_alloc_page two_cells true).1 0x1000)
unfolding mem_alloc_page bit
Calls-Counted_example =
    Calls-Counted two_cells (mem_free_page (mem_alloc_page two_cells true).1 0x1000)
      (free 0x1000 (alloc true start)
        (record { not_null = omega arith; inside = omega arith; marked = refl }))
      two_cells-IsValid refl

-- The frames from 32 on are in use.
abbrev low_frames : Frames
low_frames = record two_cells { bitmap = 5 ∷ 0xffff_ffff ∷ []; allocated = 34 }

low_frames-edge : (b : ℕ) → b < 2 * 32 → 2 * 32 ≤ b + 3 → frame_bit (5 ∷ 0xffff_ffff ∷ []) b ≡ 1
low_frames-edge b lt edge =
    let q : b / 32 ≡ 1 = omega arith in rw q (full_cell-bit (b % 32) (omega arith))

mem_alloc_pages-cases_example :
    ((mem_alloc_pages low_frames 3 ≡ (0, low_frames))
      × ((30 ≤ 3) ⊎ ((b : ℕ) → b < 2 * 32 → NoRun (5 ∷ 0xffff_ffff ∷ []) 3 b)))
    ⊎ ((3 < 30)
        × AllocatedRun low_frames
            (mem_alloc_pages low_frames 3).1
            3
            (mem_alloc_pages low_frames 3).0)
mem_alloc_pages-cases_example =
    mem_alloc_pages-cases low_frames 3
      (record { mapped = refl; storage = omega arith; addressable = omega arith }) (omega arith)
      low_frames-edge

abbrev raw_cells : List ℕ
raw_cells = 0 ∷ 0 ∷ 0 ∷ 0 ∷ []

-- 384 KB of memory, the bitmap at address 0x10000, and one region that the loader calls available.
memory_init-reserved_example :
    frame_bit
      (memory_init two_cells 0x6_0000 0x1_0000 raw_cells
        (record { base = 0x10_0000; len = 0x4000 } ∷ [])).bitmap
      2
    ≡ 1
unfolding memory_init
memory_init-reserved_example =
    memory_init-reserved two_cells 0x6_0000 0x1_0000 raw_cells
      (record { base = 0x10_0000; len = 0x4000 } ∷ []) (omega arith) 2 (omega arith) (omega arith)
