-- ===== src/Frames/Alloc.antt =====
-- `mem_alloc_page` and `mem_free_page` of src/memory.c.
use nibras_os.Prelude.{
  bit, ◌⊎◌, set-out_of_range, get_or-out_of_range, bit-zero, ℕ, ◌+◌, ◌*◌, ◌/◌, ◌%◌, ◌^◌, ◌≤◌, ◌<◌,
  ◌≡◌, refl, ◌≢◌, inl, inr, Bool, true, List, arith, bit_or, ◌==◌, leb, Bool-cases, Option-cases,
  get_or, set, length, length-set, get_or-set_self, get_or-set_ne, bit-set_self, bit-set_ne,
  bit-clear_self, bit-clear_ne, ==→eq, ne→==, u32_mod, bit_and, not32, sym, ap, ◌∙◌,
}
use mathlib.Core.Path.{subst}
use nibras_os.Frames.{
  Frames, mem_set_bit, mem_unset_bit, first_free, mem_alloc_page, mem_free_page, claim_page,
  page_size,
}
use nibras_os.Frames.Search.{frame_bit, FirstFree, first_free-some, first_free-none}

-- The static variables agree: there is a cell for each counted frame, and 32-bit addresses.
pub record IsValid (f : Frames) : Type 0 where
  pub mapped : f.mapped ≡ true
  pub storage : f.bitmap_cells ≤ length f.bitmap
  pub addressable : f.bitmap_cells * 32 * page_size ≤ u32_mod

-- Writing cell `b / 32` with a word that differs from it at most in digit `b % 32`.
module _ (cells : List ℕ) (b v : ℕ) where
  write_ne :
      ((k : ℕ) → k < 32 → b % 32 ≢ k → bit v k ≡ bit (get_or cells (b / 32) 0) k)
      → (c : ℕ) → b ≢ c
      → frame_bit (set cells (b / 32) v) c ≡ frame_bit cells c
  write_ne same c ne = elim (Bool-cases (b / 32 == c / 32)) [
    | inl e ↦
        let e' : c / 32 ≡ b / 32 = sym (==→eq (b / 32) (c / 32) e) in
        elim (Bool-cases (leb (length cells) (b / 32))) [
          | inl out ↦ rw (set-out_of_range cells (b / 32) v (ground arith)) refl
          | inr inside ↦
              rw (e', get_or-set_self cells (b / 32) v 0 (ground arith))
                (same (c % 32) (omega arith) (omega arith))
        ]
    | inr e ↦ rw (get_or-set_ne cells (b / 32) (c / 32) v 0 (ground arith)) refl
  ]

module _ (cells : List ℕ) (b : ℕ) where
  pub set_self : b / 32 < length cells → frame_bit (mem_set_bit cells b) b ≡ 1
  unfolding mem_set_bit
  set_self h =
      rw (get_or-set_self cells (b / 32) (bit_or (get_or cells (b / 32) 0) (2 ^ (b % 32))) 0 h)
        (bit-set_self (get_or cells (b / 32) 0) (b % 32))

  pub set-ne : (c : ℕ) → b ≢ c → frame_bit (mem_set_bit cells b) c ≡ frame_bit cells c
  unfolding mem_set_bit
  set-ne =
      write_ne cells b (bit_or (get_or cells (b / 32) 0) (2 ^ (b % 32)))
        (λ k hk. bit-set_ne (get_or cells (b / 32) 0) (b % 32) k)

  pub unset_self : frame_bit (mem_unset_bit cells b) b ≡ 0
  unfolding mem_unset_bit
  unset_self = elim (Bool-cases (leb (length cells) (b / 32))) [
    | inl out ↦
        rw
          (
            set-out_of_range cells (b / 32)
                (bit_and (get_or cells (b / 32) 0) (not32 (2 ^ (b % 32)))) (ground arith),
            get_or-out_of_range cells (b / 32) 0 (ground arith),
          )
          (bit-zero (b % 32))
    | inr inside ↦
        rw
          (get_or-set_self cells (b / 32) (bit_and (get_or cells (b / 32) 0) (not32 (2 ^ (b % 32))))
            0 (ground arith))
          (bit-clear_self (get_or cells (b / 32) 0) (b % 32) (omega arith))
  ]

  pub unset-ne : (c : ℕ) → b ≢ c → frame_bit (mem_unset_bit cells b) c ≡ frame_bit cells c
  unfolding mem_unset_bit
  unset-ne =
      write_ne cells b (bit_and (get_or cells (b / 32) 0) (not32 (2 ^ (b % 32))))
        (λ k hk ne. bit-clear_ne (get_or cells (b / 32) 0) (b % 32) k (omega arith) hk ne)

  pub length-mem_set_bit : length (mem_set_bit cells b) ≡ length cells
  unfolding mem_set_bit
  length-mem_set_bit = length-set cells (b / 32) (bit_or (get_or cells (b / 32) 0) (2 ^ (b % 32)))

  pub length-mem_unset_bit : length (mem_unset_bit cells b) ≡ length cells
  unfolding mem_unset_bit
  length-mem_unset_bit =
      length-set cells (b / 32) (bit_and (get_or cells (b / 32) 0) (not32 (2 ^ (b % 32))))

-- What `mem_alloc_page` has done when it returns the address `addr`.
pub record Allocated (f g : Frames) (addr : ℕ) : Type 0 where
  pub aligned : addr % page_size ≡ 0
  pub inside : addr / page_size < f.bitmap_cells * 32
  pub same_cells : g.bitmap_cells ≡ f.bitmap_cells
  pub was_free : frame_bit f.bitmap (addr / page_size) ≡ 0
  pub first_fit : (b : ℕ) → b < addr / page_size → frame_bit f.bitmap b ≡ 1
  pub now_used : frame_bit g.bitmap (addr / page_size) ≡ 1
  pub others : (b : ℕ) → addr / page_size ≢ b → frame_bit g.bitmap b ≡ frame_bit f.bitmap b
  pub counted : g.allocated ≡ (f.allocated + 1) % u32_mod

claim_page-Allocated :
    (f : Frames) (clear_page : Bool) (k : ℕ)
    → IsValid f
    → FirstFree f.bitmap 0 k
    → k < f.bitmap_cells * 32
    → Allocated f (claim_page f clear_page k).1 (claim_page f clear_page k).0
unfolding claim_page
claim_page-Allocated f clear_page k v ff lt =
    let addr : k * page_size % u32_mod ≡ k * page_size = omega (arith, v.addressable) in
    let frame : k * page_size / page_size ≡ k = omega arith in
    rw addr (record {
      aligned = omega arith;
      inside = rw frame lt;
      same_cells = refl;
      was_free = rw frame ff.clear;
      first_fit = λ b hb. ff.first b (omega arith) (omega arith);
      now_used = rw frame (set_self f.bitmap k (omega (arith, v.storage)));
      others = λ b ne. set-ne f.bitmap k b (omega arith);
      counted = refl;
    })

-- The three outcomes of `mem_alloc_page` when the static variables agree: no memory is left and
-- nothing changes, every bit is set and nothing changes, or the first clear bit is set and the address
-- of its page is returned.
pub mem_alloc_page-cases :
    (f : Frames) (clear_page : Bool)
    → IsValid f
    → ((mem_alloc_page f clear_page ≡ (0, f))
        × ((f.frames_count ≤ f.allocated)
            ⊎ ((b : ℕ) → b < f.bitmap_cells * 32 → frame_bit f.bitmap b ≡ 1)))
      ⊎ Allocated f (mem_alloc_page f clear_page).1 (mem_alloc_page f clear_page).0
unfolding mem_alloc_page
mem_alloc_page-cases f clear_page v = elim (Bool-cases (leb f.frames_count f.allocated)) [
  | inl full ↦ inl (ground (arith, v.mapped), inl (ground arith))
  | inr room ↦ elim (Option-cases (first_free f.bitmap_cells 0 f.bitmap)) [
    | inl e ↦ inl (
      ground (arith, v.mapped),
      inr (λ b h. first_free-none f.bitmap_cells 0 f.bitmap e b (omega arith) (omega arith)),
    )
    | inr (k, e) ↦
        let r = first_free-some f.bitmap_cells 0 f.bitmap k e in
        let made : mem_alloc_page f clear_page ≡ claim_page f clear_page k =
          ground (arith, v.mapped) in
        inr (
          subst (λ (p : ℕ × Frames). Allocated f p.1 p.0) (sym made)
            (claim_page-Allocated f clear_page k v r.0 (omega (arith, r.1))))
  ]
]

-- When the static variables agree and the result of `mem_alloc_page` is not NULL, freeing the page
-- gives back the bitmap that `mem_alloc_page` found.
pub mem_free_page-mem_alloc_page :
    (f : Frames) (clear_page : Bool)
    → IsValid f
    → (mem_alloc_page f clear_page).0 ≢ 0
    → (b : ℕ)
    → frame_bit
        (mem_free_page (mem_alloc_page f clear_page).1 (mem_alloc_page f clear_page).0).bitmap
        b
      ≡ frame_bit f.bitmap b
unfolding mem_free_page
mem_free_page-mem_alloc_page f clear_page v ne b = elim (mem_alloc_page-cases f clear_page v) [
  | inl (e, _) ↦ absurd (ne (ap (λ (p : ℕ × Frames). p.0) e))
  | inr a ↦
      let g : Frames = (mem_alloc_page f clear_page).1 in
      let k : ℕ = (mem_alloc_page f clear_page).0 / page_size in
      rw (ne→== (mem_alloc_page f clear_page).0 0 ne) (elim (Bool-cases (k == b)) [
        | inl e ↦ rw (← ==→eq k b e) (unset_self g.bitmap k ∙ sym a.was_free)
        | inr e ↦ unset-ne g.bitmap k b (ground arith) ∙ a.others b (ground arith)
      ])
]

-- A freed page is free, and no other frame changes.
pub mem_free_page-free :
    (f : Frames) (page_addr : ℕ)
    → page_addr ≢ 0
    → (frame_bit (mem_free_page f page_addr).bitmap (page_addr / page_size) ≡ 0)
      × ((b : ℕ)
          → page_addr / page_size ≢ b
          → frame_bit (mem_free_page f page_addr).bitmap b ≡ frame_bit f.bitmap b)
unfolding mem_free_page
mem_free_page-free f page_addr ne =
    rw (ne→== page_addr 0 ne)
      (unset_self f.bitmap (page_addr / page_size), unset-ne f.bitmap (page_addr / page_size))

-- Both operations keep the static variables in agreement.
pub mem_alloc_page-IsValid :
    (f : Frames) (clear_page : Bool) → IsValid f → IsValid (mem_alloc_page f clear_page).1
unfolding mem_alloc_page claim_page
mem_alloc_page-IsValid f clear_page v = elim (Option-cases (first_free f.bitmap_cells 0 f.bitmap)) [
  | inl e ↦ ground arith
  | inr (k, e) ↦ ground (arith, length-mem_set_bit f.bitmap k)
]

pub mem_free_page-IsValid :
    (f : Frames) (page_addr : ℕ) → IsValid f → IsValid (mem_free_page f page_addr)
unfolding mem_free_page
mem_free_page-IsValid f page_addr v =
    ground (arith, length-mem_unset_bit f.bitmap (page_addr / page_size))
