-- ===== src/Frames/Runs.antt =====
-- `mem_find_first_free_frames`, `mem_alloc_pages` and `mem_free_pages` of src/memory.c: runs of frames.
use nibras_os.Prelude.{
  ℕ, zero, suc, ◌+◌, ◌-◌, ◌*◌, ◌/◌, ◌%◌, ◌≤◌, ◌<◌, ◌≡◌, refl, ◌⊎◌, inl, inr, List, arith, ◌==◌, leb,
  Bool-cases, Option-cases, length, ==→eq, u32_mod, sym, ◌∙◌,
}
use native.Mathlib.Decide.{dec_le}
use mathlib.Core.Path.{subst}
use nibras_os.Frames.{
  Frames, mem_set_bit, first_run, mem_find_first_free_frames, set_bits, unset_bits, mem_unset_bit,
  mem_alloc_pages, mem_free_pages, page_size,
}
use nibras_os.Frames.Search.{frame_bit}
use nibras_os.Frames.Windows.{count_free, RunAt, NoRun, first_run-some, first_run-none}
use nibras_os.Frames.First.{first_run-first}
use nibras_os.Frames.Alloc.{IsValid, set_self, set-ne, unset_self, unset-ne, length-mem_set_bit}

-- What `set_bits` and `unset_bits` do to each frame.
pub set_bits-other :
    (n frame : ℕ) (cells : List ℕ) (c : ℕ)
    → (c < frame) ⊎ (frame + n ≤ c)
    → frame_bit (set_bits n frame cells) c ≡ frame_bit cells c
unfolding set_bits
set_bits-other zero frame cells c h = refl
set_bits-other (suc n) frame cells c h =
    set_bits-other n (frame + 1) (mem_set_bit cells frame) c (omega arith)
    ∙ set-ne cells frame c (omega arith)

pub set_bits-range :
    (n frame : ℕ) (cells : List ℕ) (c : ℕ)
    → frame ≤ c
    → c < frame + n
    → c / 32 < length cells
    → frame_bit (set_bits n frame cells) c ≡ 1
unfolding set_bits
set_bits-range zero frame cells c lo hi inside = absurd (omega arith)
set_bits-range (suc n) frame cells c lo hi inside = elim (Bool-cases (frame == c)) [
  | inl e ↦
      set_bits-other n (frame + 1) (mem_set_bit cells frame) c (ground arith)
      ∙ rw (==→eq frame c e) (set_self cells c inside)
  | inr e ↦
      set_bits-range n (frame + 1) (mem_set_bit cells frame) c (ground arith) (omega arith)
        (omega (arith, length-mem_set_bit cells frame))
]

pub length-set_bits :
    (n frame : ℕ) (cells : List ℕ) → length (set_bits n frame cells) ≡ length cells
unfolding set_bits
length-set_bits zero frame cells = refl
length-set_bits (suc n) frame cells =
    length-set_bits n (frame + 1) (mem_set_bit cells frame) ∙ length-mem_set_bit cells frame

pub unset_bits-other :
    (n frame : ℕ) (cells : List ℕ) (c : ℕ)
    → (c < frame) ⊎ (frame + n ≤ c)
    → frame_bit (unset_bits n frame cells) c ≡ frame_bit cells c
unfolding unset_bits
unset_bits-other zero frame cells c h = refl
unset_bits-other (suc n) frame cells c h =
    unset_bits-other n (frame + 1) (mem_unset_bit cells frame) c (omega arith)
    ∙ unset-ne cells frame c (omega arith)

pub unset_bits-range :
    (n frame : ℕ) (cells : List ℕ) (c : ℕ)
    → frame ≤ c
    → c < frame + n
    → frame_bit (unset_bits n frame cells) c ≡ 0
unfolding unset_bits
unset_bits-range zero frame cells c lo hi = absurd (omega arith)
unset_bits-range (suc n) frame cells c lo hi = elim (Bool-cases (frame == c)) [
  | inl e ↦
      unset_bits-other n (frame + 1) (mem_unset_bit cells frame) c (ground arith)
      ∙ rw (==→eq frame c e) (unset_self cells c)
  | inr e ↦
      unset_bits-range n (frame + 1) (mem_unset_bit cells frame) c (ground arith) (omega arith)
]

-- What a successful `mem_alloc_pages` of two or more pages has done.
pub record AllocatedRun (f g : Frames) (size addr : ℕ) : Type 0 where
  pub aligned : addr % page_size ≡ 0
  pub inside : addr / page_size + size < f.bitmap_cells * 32
  pub was_free : frame_bit f.bitmap (addr / page_size) ≡ 0
  pub enough : size ≤ count_free (size + 1) f.bitmap (addr / page_size)
  pub first : (b : ℕ) → b < addr / page_size → NoRun f.bitmap size b
  pub now_used :
      (c : ℕ) → addr / page_size ≤ c → c < addr / page_size + size → frame_bit g.bitmap c ≡ 1
  pub others :
      (c : ℕ)
      → (c < addr / page_size) ⊎ (addr / page_size + size ≤ c)
      → frame_bit g.bitmap c ≡ frame_bit f.bitmap c
  pub counted : g.allocated ≡ (f.allocated + size) % u32_mod

abbrev alloc_run : Frames → ℕ → ℕ → ℕ × Frames
alloc_run f size frame = (
  frame * page_size % u32_mod,
  record f { bitmap = set_bits size frame f.bitmap; allocated = (f.allocated + size) % u32_mod },
)

alloc_run_lem :
    (f : Frames) (size k : ℕ)
    → IsValid f
    → RunAt f.bitmap size k
    → k + size < f.bitmap_cells * 32
    → ((b : ℕ) → b < k → NoRun f.bitmap size b)
    → AllocatedRun f (alloc_run f size k).1 size (alloc_run f size k).0
alloc_run_lem f size k v run lt before =
    let addr : k * page_size % u32_mod ≡ k * page_size = omega (arith, v.addressable) in
    let frame : k * page_size / page_size ≡ k = omega arith in
    rw addr (record {
      aligned = omega arith;
      inside = omega arith;
      was_free = rw frame run.clear;
      enough = rw frame run.enough;
      first = λ b l. before b (omega arith);
      now_used = λ c lo hi.
          set_bits-range size k f.bitmap c (omega arith) (omega arith) (omega (arith, v.storage));
      others = λ c out. set_bits-other size k f.bitmap c (omega arith);
      counted = refl;
    })

-- When the static variables agree and the frames whose window reaches behind the bitmap are in use,
-- a call of mem_alloc_pages for two or more pages fails and changes nothing, because no more frames
-- than asked for are left by the count or because every frame is in use or has too few free frames
-- in its window; or more are left, and it returns the first free frame whose window, inside the
-- bitmap, has enough free frames, and marks exactly as many frames as asked for from there on.
pub mem_alloc_pages-cases :
    (f : Frames) (size : ℕ)
    → IsValid f
    → 1 < size
    → ((b : ℕ)
        → b < f.bitmap_cells * 32
        → f.bitmap_cells * 32 ≤ b + size
        → frame_bit f.bitmap b ≡ 1)
    → ((mem_alloc_pages f size ≡ (0, f))
        × (((f.frames_count + u32_mod - f.allocated) % u32_mod ≤ size)
            ⊎ ((b : ℕ) → b < f.bitmap_cells * 32 → NoRun f.bitmap size b)))
      ⊎ ((size < (f.frames_count + u32_mod - f.allocated) % u32_mod)
          × AllocatedRun f (mem_alloc_pages f size).1 size (mem_alloc_pages f size).0)
unfolding mem_alloc_pages mem_find_first_free_frames
mem_alloc_pages-cases f size v many edge =
    elim (Bool-cases (leb ((f.frames_count + u32_mod - f.allocated) % u32_mod) size)) [
      | inl short ↦ inl (ground arith, inl (ground arith))
      | inr room ↦ elim (Option-cases (first_run f.bitmap_cells 0 f.bitmap size)) [
        | inl e ↦ inl (
          ground arith,
          inr (λ b lt.
              first_run-none f.bitmap_cells 0 f.bitmap size b (omega arith) e (omega arith)
                (omega arith)),
        )
        | inr (k, e) ↦
            let r = first_run-some f.bitmap_cells 0 f.bitmap size k (omega arith) e in
            let made : mem_alloc_pages f size ≡ alloc_run f size k = ground arith in
            let inside : k + size < f.bitmap_cells * 32 =
              elim (dec_le (f.bitmap_cells * 32) (k + size)) [
                | no lt ↦ omega arith
                | yes over ↦
                    let used = edge k (omega (arith, r.1)) over in
                    let clear = r.0.clear in absurd (omega arith)
              ] in
            inr (
              ground arith,
              subst (λ (p : ℕ × Frames). AllocatedRun f p.1 size p.0) (sym made)
                  (alloc_run_lem f size k v r.0 inside (λ b l.
                    first_run-first f.bitmap_cells 0 f.bitmap size k b (omega arith) e (omega arith)
                      l)),
            )
      ]
    ]

-- Of the frames that the bitmap holds, every one of the range that `mem_free_pages` is given is
-- marked as in use afterwards, and no other bit changes.
pub mem_free_pages-used :
    (f : Frames) (page size c : ℕ)
    → c / 32 < length f.bitmap
    → (page / page_size ≤ c
        → c < page / page_size + size
        → frame_bit (mem_free_pages f page size).bitmap c ≡ 1)
      × ((c < page / page_size) ⊎ (page / page_size + size ≤ c)
          → frame_bit (mem_free_pages f page size).bitmap c ≡ frame_bit f.bitmap c)
unfolding mem_free_pages
mem_free_pages-used f page size c inside = (
  (λ lo hi. set_bits-range size (page / page_size) f.bitmap c lo hi inside),
  (λ out. set_bits-other size (page / page_size) f.bitmap c out),
)
