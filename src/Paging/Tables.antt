-- ===== src/Paging/Tables.antt =====
-- A new page table of src/paging.c: `ensure_table` changes no translation.
use nibras_os.Prelude.{ℕ, ◌+◌, ◌*◌, ◌/◌, ◌%◌, ◌<◌, ◌≡◌, ◌≢◌, true, arith, ap, ◌∙◌}
use nibras_os.Paging.{
  Flags, store, clear_table, page_get_physical_address, install_table, page_directory_index,
  vm_pde_set_frame, set_flags, pde_addr, phys_addr_of,
}
use nibras_os.Paging.Words.{set_flags_present, vm_pde_set_frame-frame, vm_pde_set_frame-present}
use nibras_os.Paging.Memory.{store_self, store-ne, clear_table_inside, clear_table_outside}

pub page_directory_index-lt : (virt : ℕ) → page_directory_index virt < 1024
unfolding page_directory_index
page_directory_index-lt virt = omega arith

-- The table at `table` for `virt` in memory `mem`, in a page of its own.
module _ (mem : ℕ → ℕ) (dir virt : ℕ) (fl : Flags) (table : ℕ) (dir_aligned : dir % 4096 ≡ 0)
    (aligned : table % 4096 ≡ 0) (not_dir : table / 4096 ≢ dir / 4096)
    (not_phys : table / 4096 ≢ dir / 4096 + 1) where
  abbrev new_mem : ℕ → ℕ
  new_mem = install_table mem dir virt fl table

  pub install_table-other :
      (x : ℕ)
      → x ≢ pde_addr dir virt
      → x ≢ phys_addr_of dir virt
      → x / 4096 ≢ table / 4096
      → new_mem x ≡ mem x
  unfolding install_table
  install_table-other x n1 n2 n3 =
      let mem1 : ℕ → ℕ = store (clear_table mem table) (phys_addr_of dir virt) table in
      store-ne mem1 (pde_addr dir virt)
        (vm_pde_set_frame (set_flags fl (mem1 (pde_addr dir virt))) table) x n1
      ∙ store-ne (clear_table mem table) (phys_addr_of dir virt) table x n2
      ∙ clear_table_outside mem table x aligned n3

  pub install_table_zero : (j : ℕ) → j < 1024 → new_mem (table + 4 * j) ≡ 0
  unfolding install_table
  install_table_zero j lt =
      let k = page_directory_index-lt virt in
      let mem1 : ℕ → ℕ = store (clear_table mem table) (phys_addr_of dir virt) table in
      store-ne mem1 (pde_addr dir virt)
        (vm_pde_set_frame (set_flags fl (mem1 (pde_addr dir virt))) table) (table + 4 * j)
        (omega arith)
      ∙ store-ne (clear_table mem table) (phys_addr_of dir virt) table (table + 4 * j) (omega arith)
      ∙ clear_table_inside mem table (table + 4 * j) (omega arith) (omega arith)

  pub install_table-present : fl.ps ≡ true → new_mem (pde_addr dir virt) % 2 ≡ 1
  unfolding install_table
  install_table-present on =
      let mem1 : ℕ → ℕ = store (clear_table mem table) (phys_addr_of dir virt) table in
      let w = set_flags fl (mem1 (pde_addr dir virt)) in
      ap (λ (v : ℕ). v % 2) (store_self mem1 (pde_addr dir virt) (vm_pde_set_frame w table))
      ∙ vm_pde_set_frame-present w table aligned
      ∙ set_flags_present fl (mem1 (pde_addr dir virt)) on

  pub install_table-frame : new_mem (pde_addr dir virt) / 4096 ≡ table / 4096
  unfolding install_table page_get_physical_address
  install_table-frame =
      let mem1 : ℕ → ℕ = store (clear_table mem table) (phys_addr_of dir virt) table in
      let w = set_flags fl (mem1 (pde_addr dir virt)) in
      let e = vm_pde_set_frame-frame w table aligned in
      ap (λ (v : ℕ). v / 4096) (store_self mem1 (pde_addr dir virt) (vm_pde_set_frame w table))
      ∙ omega (arith, e)

  -- The entries of the directory but that of `virt`.
  pub install_table-entry :
      (i : ℕ) → i < 1024 → i ≢ page_directory_index virt → new_mem (dir + 4 * i) ≡ mem (dir + 4 * i)
  install_table-entry i lt ne =
      let k = page_directory_index-lt virt in
      install_table-other (dir + 4 * i) (omega arith) (omega arith) (omega arith)
