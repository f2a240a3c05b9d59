-- ===== src/Paging/Init.antt =====
-- `vm_init_table` of src/paging.c: a table that maps 4 MB to consecutive frames.
use nibras_os.Prelude.{
  ℕ, zero, suc, ◌+◌, ◌*◌, ◌/◌, ◌%◌, ◌≤◌, ◌<◌, ◌≡◌, refl, ◌≢◌, inl, inr, arith, true, ◌==◌, ==→eq,
  ne→==, Bool-cases, ap, ◌∙◌, u32_mod,
}
use nibras_os.Paging.{
  Flags, store, clear_table, init_entries, vm_init_table, vm_pde_set_frame, set_flags,
  page_table_index, page_get_physical_address,
}
use nibras_os.Paging.Words.{set_flags_present, vm_pde_set_frame-frame, vm_pde_set_frame-present}
use nibras_os.Paging.Memory.{store_self, store-ne}

-- The entry that the loop writes for a frame.
abbrev entry_of : Flags → ℕ → ℕ
entry_of fl frame = vm_pde_set_frame (set_flags fl 0) frame

-- The loop for the entries from `k` on of a table at `table`, for 4 MB at `base` and frames from `first`.
module _ (table base first : ℕ) (fl : Flags) (whole : base % 4194304 ≡ 0) (low : base < u32_mod)
    (room : first + 4194304 ≤ u32_mod) where
  abbrev frame_at : ℕ → ℕ
  frame_at k = (first + 4096 * k) % u32_mod

  abbrev virt_at : ℕ → ℕ
  virt_at k = (base + 4096 * k) % u32_mod

  abbrev entries : ℕ → (ℕ → ℕ) → ℕ → ℕ → ℕ
  entries n mem k = init_entries n mem table (frame_at k) (virt_at k) fl

  init_entries-step :
      (n k : ℕ) (mem : ℕ → ℕ)
      → k < 1024
      → entries (suc n) mem k
        ≡ entries n (store mem (table + 4 * k) (entry_of fl (first + 4096 * k))) (k + 1)
  unfolding init_entries page_table_index
  init_entries-step n k mem lt =
      let index : virt_at k / 4096 % 1024 ≡ k = omega arith in
      let frame : frame_at k ≡ first + 4096 * k = omega arith in
      let next_frame : (frame_at k + 4096) % u32_mod ≡ frame_at (k + 1) = omega arith in
      let next_virt : (virt_at k + 4096) % u32_mod ≡ virt_at (k + 1) = omega arith in
      rw (next_frame, next_virt, index, frame) refl

  init_entries-below :
      (n k j : ℕ) (mem : ℕ → ℕ)
      → k + n ≡ 1024
      → j < k
      → entries n mem k (table + 4 * j) ≡ mem (table + 4 * j)
  init_entries-below zero k j mem e lt = zero_case
    where
      zero_case : entries zero mem k (table + 4 * j) ≡ mem (table + 4 * j)
      zero_case = unfold init_entries in refl
  init_entries-below (suc n) k j mem e lt =
      ap (λ (f : ℕ → ℕ). f (table + 4 * j)) (init_entries-step n k mem (omega arith))
      ∙ init_entries-below n (k + 1) j (store mem (table + 4 * k) (entry_of fl (first + 4096 * k)))
          (omega arith) (omega arith)
      ∙ store-ne mem (table + 4 * k) (entry_of fl (first + 4096 * k)) (table + 4 * j) (omega arith)

  init_entries-from :
      (n k j : ℕ) (mem : ℕ → ℕ)
      → k + n ≡ 1024
      → k ≤ j
      → j < 1024
      → entries n mem k (table + 4 * j) ≡ entry_of fl (first + 4096 * j)
  init_entries-from zero k j mem e le lt = absurd (omega arith)
  init_entries-from (suc n) k j mem e le lt =
      let mem1 : ℕ → ℕ = store mem (table + 4 * k) (entry_of fl (first + 4096 * k)) in
      ap (λ (f : ℕ → ℕ). f (table + 4 * j)) (init_entries-step n k mem (omega arith))
      ∙ elim (Bool-cases (k == j)) [
        | inl s ↦
            let same : k ≡ j = ==→eq k j s in
            init_entries-below n (k + 1) j mem1 (omega arith) (omega arith)
            ∙ ap
                (λ (x : ℕ).
                  store mem (table + 4 * x) (entry_of fl (first + 4096 * x)) (table + 4 * j))
                same
            ∙ store_self mem (table + 4 * j) (entry_of fl (first + 4096 * j))
        | inr d ↦ init_entries-from n (k + 1) j mem1 (omega arith) (ground arith) lt
      ]

-- When the table is not NULL, the virtual base is a 32-bit multiple of 4 MB, the first frame is a
-- page and the frames do not wrap, vm_init_table with the flag ps makes each of the 1024 entries
-- present and maps the page j behind the base to the frame j pages behind the first.
pub vm_init_table-entry :
    (mem : ℕ → ℕ) (table frame virt j : ℕ) (fl : Flags)
    → table ≢ 0
    → virt % 4194304 ≡ 0
    → virt < u32_mod
    → frame % 4096 ≡ 0
    → frame + 4194304 ≤ u32_mod
    → fl.ps ≡ true
    → j < 1024
    → (vm_init_table mem table frame virt fl (table + 4 * j) % 2 ≡ 1)
      × (page_get_physical_address (vm_init_table mem table frame virt fl (table + 4 * j))
          ≡ frame + 4096 * j)
unfolding vm_init_table
vm_init_table-entry mem table frame virt j fl ne whole low al room on lt =
    let e =
      init_entries-from table virt frame fl whole low room 1024 0 j (clear_table mem table)
        (omega arith) (omega arith) lt in
    let f : (frame + 4096 * 0) % u32_mod ≡ frame = omega arith in
    let v : (virt + 4096 * 0) % u32_mod ≡ virt = omega arith in
    let entry = rw (f, v) at e in
    rw (ne→== table 0 ne, entry)
      (
        vm_pde_set_frame-present (set_flags fl 0) (frame + 4096 * j) (omega arith)
            ∙ set_flags_present fl 0 on,
        vm_pde_set_frame-frame (set_flags fl 0) (frame + 4096 * j) (omega arith),
      )
