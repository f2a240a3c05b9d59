-- ===== src/Frames.antt =====
-- src/memory.c and include/memory.h: the bitmap allocator of physical page frames. A frame is a
-- bit of a list of 32-bit cells; a C function that changes the static variables returns the new
-- `Frames`. Addresses are numbers, 0 is NULL, and -1 as an `int` result is `none`.
pub mod Search
pub mod Alloc
pub mod Count
pub mod Windows
pub mod First
pub mod Runs
pub mod Regions
mod Tests
use nibras_os.Prelude.{
  ℕ, zero, suc, ◌+◌, ◌-◌, ◌*◌, ◌/◌, ◌%◌, ◌^◌, bit_and, bit_or, Bool, true, false, not, ◌&&◌, Option,
  none, some, List, [], ◌∷◌, if◌then◌else◌, ◌==◌, ltb, leb, get_or, set, replicate, u32_mod, not32,
}

abbrev pub page_size : ℕ
page_size = 0x1000

abbrev pub page_align : ℕ
page_align = 0xffff_f000

abbrev pub full_cell : ℕ
full_cell = 0xffff_ffff

-- The static variables. `mapped` says that `frames_bitmap` is not NULL, `allocated` is the bit
-- pattern of `allocated_frames_count`, and `zeroed` lists the pages that `memset` has cleared.
pub record Frames : Type 0 where
  pub mapped : Bool
  pub bitmap : List ℕ
  pub bitmap_cells : ℕ
  pub frames_count : ℕ
  pub allocated : ℕ
  pub zeroed : List ℕ

-- A frame behind the bitmap reads as free and is not written here, while the C code reads and writes the
-- memory behind the array. The theorems are about frames and windows inside the bitmap.
pub mem_set_bit : List ℕ → ℕ → List ℕ
mem_set_bit cells b = set cells (b / 32) (bit_or (get_or cells (b / 32) 0) (2 ^ (b % 32)))

pub mem_unset_bit : List ℕ → ℕ → List ℕ
mem_unset_bit cells b =
    set cells (b / 32) (bit_and (get_or cells (b / 32) 0) (not32 (2 ^ (b % 32))))

pub mem_test_bit : List ℕ → ℕ → ℕ
mem_test_bit cells b = bit_and (get_or cells (b / 32) 0) (2 ^ (b % 32))

-- The inner loop of the searches: `n` more bits of the cell `w`, from bit `j` on.
pub free_bit : ℕ → ℕ → ℕ → Option ℕ
free_bit zero j w = none
free_bit (suc n) j w = if bit_and w (2 ^ j) == 0 then some j else free_bit n (j + 1) w

-- The outer loop: `n` more cells, from cell `i` on; full cells are passed over.
pub first_free : ℕ → ℕ → List ℕ → Option ℕ
unfolding free_bit
first_free zero i cells = none
first_free (suc n) i cells =
    let rest = first_free n (i + 1) cells in
    if get_or cells i 0 == full_cell
    then rest
    else elim (free_bit 32 0 (get_or cells i 0)) [ none ↦ rest | some j ↦ some (i * 32 + j) ]

pub mem_find_first_free_frame : Frames → Option ℕ
unfolding first_free
mem_find_first_free_frame f =
    if not f.mapped
    then none
    else if leb f.frames_count f.allocated
    then none
    else first_free f.bitmap_cells 0 f.bitmap

-- The bits from `start` on, `n` of them left to test, `free` of them clear so far.
pub window_free : ℕ → List ℕ → ℕ → ℕ → ℕ → Bool
unfolding mem_test_bit
window_free zero cells start size free = false
window_free (suc n) cells start size free =
    let free' : ℕ = if mem_test_bit cells start == 0 then free + 1 else free in
    let rest = window_free n cells (start + 1) size free' in if free' == size then true else rest

pub run_in_cell : ℕ → ℕ → ℕ → List ℕ → ℕ → Option ℕ
unfolding window_free
run_in_cell zero j i cells size = none
run_in_cell (suc n) j i cells size =
    let rest = run_in_cell n (j + 1) i cells size in
    if bit_and (get_or cells i 0) (2 ^ j) == 0 && window_free (size + 1) cells (i * 32 + j) size 0
    then some (i * 32 + j)
    else rest

pub first_run : ℕ → ℕ → List ℕ → ℕ → Option ℕ
unfolding run_in_cell
first_run zero i cells size = none
first_run (suc n) i cells size =
    let rest = first_run n (i + 1) cells size in
    if get_or cells i 0 == full_cell
    then rest
    else elim (run_in_cell 32 0 i cells size) [ none ↦ rest | some b ↦ some b ]

pub mem_find_first_free_frames : Frames → ℕ → Option ℕ
unfolding mem_find_first_free_frame first_run
mem_find_first_free_frames f size =
    if size == 0
    then none
    else if size == 1
    then mem_find_first_free_frame f
    else first_run f.bitmap_cells 0 f.bitmap size

claim_page : Frames → Bool → ℕ → ℕ × Frames
unfolding mem_set_bit
claim_page f clear_page frame =
    let addr = frame * page_size % u32_mod in
    (
      addr,
      record f {
        bitmap = mem_set_bit f.bitmap frame;
        zeroed = if clear_page then addr ∷ f.zeroed else f.zeroed;
        allocated = (f.allocated + 1) % u32_mod;
      },
    )

pub mem_alloc_page : Frames → Bool → ℕ × Frames
unfolding first_free claim_page
mem_alloc_page f clear_page =
    if not f.mapped
    then (0, f)
    else if leb f.frames_count f.allocated
    then (0, f)
    else elim (first_free f.bitmap_cells 0 f.bitmap) [
      | none ↦ (0, f)
      | some frame ↦ claim_page f clear_page frame
    ]

pub set_bits : ℕ → ℕ → List ℕ → List ℕ
unfolding mem_set_bit
set_bits zero frame cells = cells
set_bits (suc n) frame cells = set_bits n (frame + 1) (mem_set_bit cells frame)

pub unset_bits : ℕ → ℕ → List ℕ → List ℕ
unfolding mem_unset_bit
unset_bits zero frame cells = cells
unset_bits (suc n) frame cells = unset_bits n (frame + 1) (mem_unset_bit cells frame)

-- `frames_count - allocated_frames_count` is a difference of 32-bit words.
pub mem_alloc_pages : Frames → ℕ → ℕ × Frames
unfolding mem_find_first_free_frames set_bits
mem_alloc_pages f size =
    if size == 0
    then (0, f)
    else if leb ((f.frames_count + u32_mod - f.allocated) % u32_mod) size
    then (0, f)
    else elim (mem_find_first_free_frames f size) [
      | none ↦ (0, f)
      | some frame ↦ (
        frame * page_size % u32_mod,
        record f {
          bitmap = set_bits size frame f.bitmap;
          allocated = (f.allocated + size) % u32_mod;
        },
      )
    ]

pub mem_free_pages : Frames → ℕ → ℕ → Frames
unfolding set_bits
mem_free_pages f page size = record f {
  bitmap = set_bits size (page / page_size) f.bitmap;
  allocated = (f.allocated + u32_mod - size) % u32_mod;
}

pub mem_free_page : Frames → ℕ → Frames
unfolding mem_unset_bit
mem_free_page f page_addr = if page_addr == 0 then f else record f {
  bitmap = mem_unset_bit f.bitmap (page_addr / page_size);
  allocated = (f.allocated + u32_mod - 1) % u32_mod;
}

-- `size / PAGE_SIZE` is stored in an `int`, so it has at most 20 bits and is no negative number.
pub mem_init_region : Frames → ℕ → ℕ → Frames
unfolding unset_bits
mem_init_region f base size = record f {
  bitmap = unset_bits (size / page_size) (base / page_align) f.bitmap;
  allocated = (f.allocated + u32_mod - size / page_size) % u32_mod;
}

pub mem_deinit_region : Frames → ℕ → ℕ → Frames
unfolding set_bits
mem_deinit_region f base size = record f {
  bitmap = set_bits (size / page_size) (base / page_align) f.bitmap;
  allocated = (f.allocated + size / page_size) % u32_mod;
}

-- `struct phys_mem_avail`, and the list of them that the loop reads up to the null hole.
pub record PhysMemAvail : Type 0 where
  pub base : ℕ
  pub len : ℕ

pub unset_avail_mem : List PhysMemAvail → Frames → Frames
unfolding mem_init_region
unset_avail_mem [] f = f
unset_avail_mem (a ∷ avails) f =
    let next : Frames = if leb 0x10_0000 a.base then mem_init_region f a.base a.len else f in
    let rest = unset_avail_mem avails next in
    if a.base == 0 then f else if a.len == 0 then f else rest

-- `for (i = 0; i <= kernel_frames; i++)`: cells from `i` on, `n` of them left.
fill_cells : ℕ → ℕ → List ℕ → List ℕ
fill_cells zero i cells = cells
fill_cells (suc n) i cells = fill_cells n (i + 1) (set cells i full_cell)

pub round_up_page : ℕ → ℕ
round_up_page x = if x % page_size == 0 then x else (x + (page_size - x % page_size)) % u32_mod

-- src/kmain.c's `memsetw(cells, 0xffff, n)`: it writes `n` 16-bit halves of the 32-bit cells.
pub memsetw : ℕ → ℕ → List ℕ → List ℕ
memsetw zero k cells = cells
memsetw (suc n) k cells =
    let cell : ℕ = get_or cells (k / 2) 0 in
    memsetw n (k + 1) (
      set cells (k / 2)
        (if k % 2 == 0 then cell / 2 ^ 16 * 2 ^ 16 + 0xffff else 0xffff * 2 ^ 16 + cell % 2 ^ 16))

-- `raw` is what the memory at `mem_start_addr` holds before the call.
pub memory_init : Frames → ℕ → ℕ → List ℕ → List PhysMemAvail → Frames
unfolding memsetw unset_avail_mem round_up_page fill_cells
memory_init f mem_sz mem_start_addr raw avail =
    let frames_count = mem_sz / page_size in
    let cells = frames_count / 32 + 1 in
    let freed = unset_avail_mem avail (record f {
      mapped = not (mem_start_addr == 0);
      bitmap = memsetw cells 0 raw;
      bitmap_cells = cells;
      frames_count = frames_count;
      allocated = frames_count;
    }) in
    let kernel_frames = round_up_page mem_start_addr / page_size / 32 in
    if mem_sz == 0 then f else record freed {
      bitmap = fill_cells (kernel_frames + 1) 0 freed.bitmap;
      allocated = (freed.allocated + 256 + kernel_frames + 1) % u32_mod;
    }

-- The loop `if(!mem_test_bit(i)) mem_set_bit(i);`, `n` more bits from bit `i` on.
set_if_clear : ℕ → ℕ → List ℕ → List ℕ
unfolding mem_test_bit mem_set_bit
set_if_clear zero i cells = cells
set_if_clear (suc n) i cells =
    set_if_clear n (i + 1) (if mem_test_bit cells i == 0 then mem_set_bit cells i else cells)

-- The loop `while(size%0x1000 > 0 && size%0x1000 != size)`, which takes a page off each time.
frames_needed : ℕ → ℕ → ℕ → ℕ
frames_needed zero size count = count
frames_needed (suc n) size count =
    let rest = frames_needed n (size - page_size) (count + 1) in
    if ltb 0 (size % page_size) && not (size % page_size == size) then rest else count

pub mem_alloc_at : Frames → ℕ → ℕ → ℕ × Frames
unfolding set_if_clear frames_needed
mem_alloc_at f base size =
    if base == 0
    then (0, f)
    else if size == 0
    then (0, f)
    else let req_frames_count = frames_needed (size / page_size + 1) size 1 in
      (
        base,
        record f { bitmap = set_if_clear (base / page_size + req_frames_count + 1) 0 f.bitmap },
      )
