-- ===== src/Frames/Regions.antt =====
-- `mem_init_region`, `mem_deinit_region` and `memory_init` of src/memory.c.
use nibras_os.Prelude.{
  ℕ, zero, suc, ◌+◌, ◌*◌, ◌/◌, ◌%◌, ◌^◌, ◌≤◌, ◌<◌, ◌≡◌, refl, ◌⊎◌, inl, inr, not, List, [], ◌∷◌,
  arith, ◌==◌, leb, Bool-cases, get_or, set, length, length-set, get_or-set_self, get_or-set_ne,
  ==→eq, ne→==, ◌∙◌, if◌then◌else◌,
}
use nibras_os.Frames.{
  Frames, mem_init_region, memory_init, unset_avail_mem, memsetw, fill_cells, round_up_page,
  unset_bits, page_size, page_align, full_cell, PhysMemAvail,
}
use nibras_os.Frames.Search.{frame_bit, full_cell-bit}
use nibras_os.Frames.{mem_unset_bit}
use nibras_os.Frames.Alloc.{length-mem_unset_bit}
use nibras_os.Frames.Runs.{unset_bits-range, unset_bits-other}

-- Below 0xfffff000 the base has no effect: `mem_init_region` frees exactly the first
-- `size / PAGE_SIZE` frames, wherever the region lies.
pub mem_init_region-from_zero :
    (f : Frames) (base size c : ℕ)
    → base < page_align
    → (c < size / page_size → frame_bit (mem_init_region f base size).bitmap c ≡ 0)
      × (size / page_size ≤ c
          → frame_bit (mem_init_region f base size).bitmap c ≡ frame_bit f.bitmap c)
unfolding mem_init_region
mem_init_region-from_zero f base size c low =
    let start : base / page_align ≡ 0 = omega arith in
    rw start (
      (λ h. unset_bits-range (size / page_size) 0 f.bitmap c (omega arith) (omega arith)),
      (λ h. unset_bits-other (size / page_size) 0 f.bitmap c (omega arith)),
    )

get_or-fill_cells :
    (n i : ℕ) (cells : List ℕ) (k : ℕ)
    → (k < i) ⊎ (i + n ≤ k)
    → get_or (fill_cells n i cells) k 0 ≡ get_or cells k 0
unfolding fill_cells
get_or-fill_cells zero i cells k h = refl
get_or-fill_cells (suc n) i cells k h =
    get_or-fill_cells n (i + 1) (set cells i full_cell) k (omega arith)
    ∙ get_or-set_ne cells i k full_cell 0 (omega arith)

get_or-fill_cells_range :
    (n i : ℕ) (cells : List ℕ) (k : ℕ)
    → i ≤ k
    → k < i + n
    → k < length cells
    → get_or (fill_cells n i cells) k 0 ≡ full_cell
unfolding fill_cells
get_or-fill_cells_range zero i cells k lo hi inside = absurd (omega arith)
get_or-fill_cells_range (suc n) i cells k lo hi inside = elim (Bool-cases (i == k)) [
  | inl e ↦
      get_or-fill_cells n (i + 1) (set cells i full_cell) k (ground arith)
      ∙ rw (==→eq i k e) (get_or-set_self cells k full_cell 0 inside)
  | inr e ↦
      get_or-fill_cells_range n (i + 1) (set cells i full_cell) k (ground arith) (omega arith)
        (omega (arith, length-set cells i full_cell))
]

length-unset_bits : (n i : ℕ) (cells : List ℕ) → length (unset_bits n i cells) ≡ length cells
unfolding unset_bits
length-unset_bits zero i cells = refl
length-unset_bits (suc n) i cells =
    length-unset_bits n (i + 1) (mem_unset_bit cells i) ∙ length-mem_unset_bit cells i

length-unset_avail_mem :
    (avails : List PhysMemAvail) (f : Frames)
    → length (unset_avail_mem avails f).bitmap ≡ length f.bitmap
unfolding unset_avail_mem mem_init_region
length-unset_avail_mem [] f = refl
length-unset_avail_mem (a ∷ avails) f = ground (
  arith,
  length-unset_avail_mem avails
      (if leb 0x10_0000 a.base then mem_init_region f a.base a.len else f),
  length-unset_bits (a.len / page_size) (a.base / page_align) f.bitmap,
)

length-memsetw : (n k : ℕ) (cells : List ℕ) → length (memsetw n k cells) ≡ length cells
unfolding memsetw
length-memsetw zero k cells = refl
length-memsetw (suc n) k cells =
    length-memsetw n (k + 1) (
      set cells (k / 2) (
        if k % 2 == 0
        then get_or cells (k / 2) 0 / 2 ^ 16 * 2 ^ 16 + 0xffff
        else 0xffff * 2 ^ 16 + get_or cells (k / 2) 0 % 2 ^ 16))
    ∙ length-set cells (k / 2) (
        if k % 2 == 0
        then get_or cells (k / 2) 0 / 2 ^ 16 * 2 ^ 16 + 0xffff
        else 0xffff * 2 ^ 16 + get_or cells (k / 2) 0 % 2 ^ 16)

get_or-memsetw :
    (n k : ℕ) (cells : List ℕ) (i : ℕ)
    → k + n ≤ 2 * i
    → get_or (memsetw n k cells) i 0 ≡ get_or cells i 0
unfolding memsetw
get_or-memsetw zero k cells i h = refl
get_or-memsetw (suc n) k cells i h =
    get_or-memsetw n (k + 1)
      (set cells (k / 2) (
        if k % 2 == 0
        then get_or cells (k / 2) 0 / 2 ^ 16 * 2 ^ 16 + 0xffff
        else 0xffff * 2 ^ 16 + get_or cells (k / 2) 0 % 2 ^ 16))
      i (omega arith)
    ∙ get_or-set_ne cells (k / 2) i
        (if k % 2 == 0
          then get_or cells (k / 2) 0 / 2 ^ 16 * 2 ^ 16 + 0xffff
          else 0xffff * 2 ^ 16 + get_or cells (k / 2) 0 % 2 ^ 16)
        0 (omega arith)

-- How many cells `memory_init` fills for the kernel image and what lies below it.
abbrev pub kernel_cells : ℕ → ℕ
kernel_cells mem_start_addr = round_up_page mem_start_addr / page_size / 32 + 1

module _ (f : Frames) (mem_sz mem_start_addr : ℕ) (raw : List ℕ) (avail : List PhysMemAvail)
    (some_memory : 0 < mem_sz) where
  abbrev init_freed : Frames
  init_freed = unset_avail_mem avail (record f {
    mapped = not (mem_start_addr == 0);
    bitmap = memsetw (mem_sz / page_size / 32 + 1) 0 raw;
    bitmap_cells = mem_sz / page_size / 32 + 1;
    frames_count = mem_sz / page_size;
    allocated = mem_sz / page_size;
  })

  init_bitmap :
      (memory_init f mem_sz mem_start_addr raw avail).bitmap
      ≡ fill_cells (kernel_cells mem_start_addr) 0 init_freed.bitmap
  unfolding memory_init
  init_bitmap = rw (ne→== mem_sz 0 (omega arith)) refl

  -- When there is memory, after `memory_init` every frame of the bitmap cells that hold the kernel,
  -- and of those below, is in use, whatever regions the boot loader lists as available.
  pub memory_init-reserved :
      (c : ℕ)
      → c / 32 < length raw
      → c / 32 < kernel_cells mem_start_addr
      → frame_bit (memory_init f mem_sz mem_start_addr raw avail).bitmap c ≡ 1
  memory_init-reserved c inside low =
      rw
        (
          init_bitmap,
          get_or-fill_cells_range (kernel_cells mem_start_addr) 0 init_freed.bitmap (c / 32)
              (omega arith) (omega arith)
              (omega (
                arith,
                length-unset_avail_mem avail (record f {
                  mapped = not (mem_start_addr == 0);
                  bitmap = memsetw (mem_sz / page_size / 32 + 1) 0 raw;
                  bitmap_cells = mem_sz / page_size / 32 + 1;
                  frames_count = mem_sz / page_size;
                  allocated = mem_sz / page_size;
                }),
                length-memsetw (mem_sz / page_size / 32 + 1) 0 raw,
              )),
        )
        (full_cell-bit (c % 32) (omega arith))

-- `memsetw` writes 16-bit words, so the upper half of the bitmap keeps what the memory held: with
-- no available region listed, a frame there is free or used as the raw memory has it.
pub memory_init-raw_upper_half :
    (f : Frames) (mem_sz mem_start_addr : ℕ) (raw : List ℕ) (c : ℕ)
    → 0 < mem_sz
    → kernel_cells mem_start_addr ≤ c / 32
    → mem_sz / page_size / 32 + 1 ≤ 2 * (c / 32)
    → frame_bit (memory_init f mem_sz mem_start_addr raw []).bitmap c ≡ frame_bit raw c
unfolding unset_avail_mem
memory_init-raw_upper_half f mem_sz mem_start_addr raw c pos above upper =
    rw
      (
        init_bitmap f mem_sz mem_start_addr raw [] pos,
        get_or-fill_cells (kernel_cells mem_start_addr) 0
            (memsetw (mem_sz / page_size / 32 + 1) 0 raw) (c / 32) (omega arith),
        get_or-memsetw (mem_sz / page_size / 32 + 1) 0 raw (c / 32) (omega arith),
      )
      refl
