-- ===== src/Frames/Count.antt =====
-- `allocated_frames_count` of src/memory.c against the bits of the bitmap.
use nibras_os.Prelude.{
  ℕ, zero, suc, ◌+◌, ◌*◌, ◌/◌, ◌≤◌, ◌<◌, ◌≡◌, refl, ◌≢◌, inl, inr, Bool, List, arith, ◌==◌,
  Bool-cases, ==→eq, ne→==, u32_mod, sym, bit-lt, get_or, ◌%◌, ◌-◌,
}
use mathlib.Core.Path.{subst}
use nibras_os.Frames.{Frames, mem_alloc_page, mem_free_page, page_size}
use nibras_os.Frames.Search.{frame_bit}
use nibras_os.Frames.Alloc.{
  IsValid, Allocated, mem_alloc_page-cases, mem_free_page-free, mem_alloc_page-IsValid,
  mem_free_page-IsValid,
}

-- The frames in use among the first `n`.
abbrev pub used : ℕ → List ℕ → ℕ
used zero cells = 0
used (suc n) cells = frame_bit cells n + used n cells

used-le : (n : ℕ) (cells : List ℕ) → used n cells ≤ n
used-le zero cells = omega arith
used-le (suc n) cells = omega (arith, bit-lt (get_or cells (n / 32) 0) (n % 32), used-le n cells)

used-same :
    (n : ℕ) (c d : List ℕ) → ((b : ℕ) → b < n → frame_bit d b ≡ frame_bit c b) → used n d ≡ used n c
used-same zero c d same = refl
used-same (suc n) c d same =
    omega (arith, same n (omega arith), used-same n c d (λ b h. same b (omega arith)))

-- One frame that was free is in use, and the others are what they were.
used-marked :
    (n k : ℕ) (c d : List ℕ)
    → k < n
    → frame_bit c k ≡ 0
    → frame_bit d k ≡ 1
    → ((b : ℕ) → k ≢ b → frame_bit d b ≡ frame_bit c b)
    → used n d ≡ used n c + 1
used-marked zero k c d lt free marked others = absurd (omega arith)
used-marked (suc n) k c d lt free marked others = elim (Bool-cases (k == n)) [
  | inl e ↦
      let same : k ≡ n = ==→eq k n e in
      omega (
        arith,
        (rw same at free),
        (rw same at marked),
        used-same n c d (λ b h. others b (omega arith)),
      )
  | inr e ↦
      omega (arith, others n (ground arith), used-marked n k c d (ground arith) free marked others)
]

-- `allocated_frames_count` is the number of frames in use.
abbrev pub Counted : Frames → Type 0
Counted f = f.allocated ≡ used (f.bitmap_cells * 32) f.bitmap

Allocated-Counted :
    (f g : Frames) (addr : ℕ) → IsValid f → Allocated f g addr → Counted f → Counted g
Allocated-Counted f g addr v a c =
    let one : used (f.bitmap_cells * 32) g.bitmap ≡ used (f.bitmap_cells * 32) f.bitmap + 1 =
      used-marked (f.bitmap_cells * 32) (addr / page_size) f.bitmap g.bitmap a.inside a.was_free
        a.now_used a.others in
    let most = used-le (f.bitmap_cells * 32) g.bitmap in
    rw (a.same_cells) (omega (arith, a.counted, v.addressable))

mem_alloc_page-Counted :
    (f : Frames) (clear_page : Bool)
    → IsValid f
    → Counted f
    → Counted (mem_alloc_page f clear_page).1
mem_alloc_page-Counted f clear_page v c = elim (mem_alloc_page-cases f clear_page v) [
  | inl (e, _) ↦ subst (λ (p : ℕ × Frames). Counted p.1) (sym e) c
  | inr a ↦
      Allocated-Counted f (mem_alloc_page f clear_page).1 (mem_alloc_page f clear_page).0 v a c
]

-- The page is one that `mem_free_page` may be given: not NULL, of a frame of the bitmap, and in use.
pub record InUse (f : Frames) (page_addr : ℕ) : Type 0 where
  pub not_null : page_addr ≢ 0
  pub inside : page_addr / page_size < f.bitmap_cells * 32
  pub marked : frame_bit f.bitmap (page_addr / page_size) ≡ 1

mem_free_page-fields :
    (f : Frames) (page_addr : ℕ)
    → page_addr ≢ 0
    → ((mem_free_page f page_addr).bitmap_cells ≡ f.bitmap_cells)
      × ((mem_free_page f page_addr).allocated ≡ (f.allocated + u32_mod - 1) % u32_mod)
unfolding mem_free_page
mem_free_page-fields f page_addr ne = rw (ne→== page_addr 0 ne) (refl, refl)

mem_free_page-Counted :
    (f : Frames) (page_addr : ℕ)
    → IsValid f
    → InUse f page_addr
    → Counted f
    → Counted (mem_free_page f page_addr)
mem_free_page-Counted f page_addr v u c =
    let g : Frames = mem_free_page f page_addr in
    let (free, others) = mem_free_page-free f page_addr u.not_null in
    let one : used (f.bitmap_cells * 32) f.bitmap ≡ used (f.bitmap_cells * 32) g.bitmap + 1 =
      used-marked (f.bitmap_cells * 32) (page_addr / page_size) g.bitmap f.bitmap u.inside free
        u.marked (λ b ne. sym (others b ne)) in
    let most = used-le (f.bitmap_cells * 32) f.bitmap in
    let (cells, allocated) = mem_free_page-fields f page_addr u.not_null in
    rw cells (omega (arith, allocated, v.addressable))

-- What calls of `mem_alloc_page`, and of `mem_free_page` with pages in use, lead to from `f`.
pub data Calls (f : Frames) : Frames → Type 0 where
  start : Calls f f
  alloc : {g : Frames} (clear_page : Bool) → Calls f g → Calls f (mem_alloc_page g clear_page).1
  free :
      {g : Frames} (page_addr : ℕ)
      → Calls f g
      → InUse g page_addr
      → Calls f (mem_free_page g page_addr)

-- Whatever calls of `mem_alloc_page`, and of `mem_free_page` with pages in use, are made,
-- `allocated_frames_count` stays the number of frames in use and the static variables agree.
pub Calls-Counted : (f g : Frames) → Calls f g → IsValid f → Counted f → IsValid g × Counted g
Calls-Counted f g start v c = (v, c)
Calls-Counted f g (alloc {g = h} clear_page calls) v c =
    let (w, d) = Calls-Counted f h calls v c in
    (mem_alloc_page-IsValid h clear_page w, mem_alloc_page-Counted h clear_page w d)
Calls-Counted f g (free {g = h} page_addr calls u) v c =
    let (w, d) = Calls-Counted f h calls v c in
    (mem_free_page-IsValid h page_addr w, mem_free_page-Counted h page_addr w u d)
