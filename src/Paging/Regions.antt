-- ===== src/Paging/Regions.antt =====
-- The loops over pages of src/paging.c: `vm_allocate_region`, `vm_free_region` and `vm_init_table`.
use nibras_os.Prelude.{
  ℕ, zero, suc, ◌+◌, ◌*◌, ◌/◌, ◌%◌, ◌≤◌, ◌<◌, ◌≡◌, refl, Bool, true, false, none, some, arith, ap,
  ◌∙◌, u32_mod, leb,
}
use native.Mathlib.Decide.{dec_le}
use nibras_os.Paging.{
  Vm, Flags, allocate_pages, vm_allocate_region, free_pages_from, vm_free_region,
  vm_map_page_in_dir, vm_free_page,
}

allocate_pages-more :
    (n : ℕ) (s : Vm) (dir start_va end_va : ℕ) (fl : Flags)
    → start_va ≤ end_va
    → allocate_pages (suc n) s dir start_va end_va fl
      ≡ allocate_pages n
          ((vm_map_page_in_dir s dir start_va 0 fl).1)
          dir
          ((start_va + 4096) % u32_mod)
          end_va
          fl
unfolding allocate_pages
allocate_pages-more n s dir start_va end_va fl le =
    let test : leb start_va end_va ≡ true = ground arith in rw test refl

allocate_pages_done :
    (n : ℕ) (s : Vm) (dir start_va end_va : ℕ) (fl : Flags)
    → end_va < start_va
    → allocate_pages (suc n) s dir start_va end_va fl ≡ some s
unfolding allocate_pages
allocate_pages_done n s dir start_va end_va fl lt =
    let test : leb start_va end_va ≡ false = ground arith in rw test refl

allocate_pages-some :
    (n : ℕ) (s : Vm) (dir start_va end_va : ℕ) (fl : Flags)
    → end_va < 4294963200
    → end_va < start_va + 4096 * n
    → (s1 : Vm) × (allocate_pages (suc n) s dir start_va end_va fl ≡ some s1)
allocate_pages-some zero s dir start_va end_va fl top fuel =
    (s, allocate_pages_done zero s dir start_va end_va fl (omega arith))
allocate_pages-some (suc n) s dir start_va end_va fl top fuel = elim (dec_le start_va end_va) [
  | yes le ↦
      let next : (start_va + 4096) % u32_mod ≡ start_va + 4096 = omega arith in
      let s0 = (vm_map_page_in_dir s dir start_va 0 fl).1 in
      let (s1, e) = allocate_pages-some n s0 dir (start_va + 4096) end_va fl top (omega arith) in
      (
        s1,
        allocate_pages-more (suc n) s dir start_va end_va fl le
            ∙ ap (λ (va : ℕ). allocate_pages (suc n) s0 dir va end_va fl) next
            ∙ e,
      )
  | no gt ↦ (s, allocate_pages_done (suc n) s dir start_va end_va fl (omega arith))
]

-- vm_allocate_region ends unless the region reaches into the last page of the address space: one
-- round for each page suffices, and one for the test that ends the loop.
pub vm_allocate_region-ends :
    (n : ℕ) (s : Vm) (dir start end : ℕ) (write user : Bool)
    → end < 4294963200
    → end / 4096 < start / 4096 + n
    → (s1 : Vm) × (vm_allocate_region (suc n) s dir start end write user ≡ some s1)
unfolding vm_allocate_region
vm_allocate_region-ends n s dir start end write user top fuel =
    allocate_pages-some n s dir (start / 4096 * 4096) (end / 4096 * 4096)
      (record { ps = true; rw = write; us = user }) (omega arith) (omega arith)

round_again :
    (n : ℕ) (s : Vm) (dir p : ℕ) (fl : Flags)
    → p < 1048576
    → allocate_pages n s dir (p * 4096) 4294963200 fl ≡ none
unfolding allocate_pages
round_again zero s dir p fl h = refl
round_again (suc n) s dir p fl h =
    let s0 = (vm_map_page_in_dir s dir (p * 4096) 0 fl).1 in
    let next : (p * 4096 + 4096) % u32_mod ≡ (p + 1) % 1048576 * 4096 = omega arith in
    allocate_pages-more n s dir (p * 4096) 4294963200 fl (omega arith)
    ∙ ap (λ (va : ℕ). allocate_pages n s0 dir va 4294963200 fl) next
    ∙ round_again n s0 dir ((p + 1) % 1048576) fl (omega arith)

free_pages_from-none : (n : ℕ) (s : Vm) (dir va : ℕ) → free_pages_from n s dir va ≡ none
unfolding free_pages_from
free_pages_from-none zero s dir va = refl
free_pages_from-none (suc n) s dir va =
    let test : leb va va ≡ true = ground arith in
    rw test (free_pages_from-none n (vm_free_page s dir va) dir ((va + 4096) % u32_mod))

-- A region that reaches into the last page of the address space is allocated for ever: the address after
-- that page is 0 again.
pub vm_allocate_region-none :
    (n : ℕ) (s : Vm) (dir start end : ℕ) (write user : Bool)
    → start < u32_mod
    → 4294963200 ≤ end
    → end < u32_mod
    → vm_allocate_region n s dir start end write user ≡ none
unfolding vm_allocate_region
vm_allocate_region-none n s dir start end write user ls lo hi =
    let last : end / 4096 * 4096 ≡ 4294963200 = omega arith in
    ap
      (λ (va : ℕ).
        allocate_pages n s dir (start / 4096 * 4096) va
          (record { ps = true; rw = write; us = user }))
      last
    ∙ round_again n s dir (start / 4096) (record { ps = true; rw = write; us = user }) (omega arith)

-- `vm_free_region` ends with no fuel: its loop compares the start of the region with itself.
pub vm_free_region-none :
    (n : ℕ) (s : Vm) (dir start end : ℕ) → vm_free_region n s dir start end ≡ none
unfolding vm_free_region
vm_free_region-none n s dir start end = free_pages_from-none n s dir (start / 4096 * 4096)
