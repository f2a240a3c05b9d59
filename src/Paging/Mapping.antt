-- ===== src/Paging/Mapping.antt =====
-- `vm_map_page_in_dir` and `vm_free_page` of src/paging.c on the translation of addresses.
use nibras_os.Prelude.{
  ℕ, ◌+◌, ◌*◌, ◌/◌, ◌%◌, ◌<◌, ◌≡◌, refl, ◌≢◌, ◌⊎◌, inl, inr, true, false, arith, if◌then◌else◌,
  ◌==◌, ne→==, ==→eq, Bool-cases, ap, sym, ◌∙◌, u32_mod,
}
use nibras_os.Paging.{
  Vm, Flags, store, ensure_table, set_page_entry, page_directory_index, page_table_index,
  given_or_new, vm_map_page_in_dir, vm_get_physical_address, vm_free_page, pde_addr, phys_addr_of,
  pte_addr, table_of, page_get_physical_address, set_flags, vm_pde_set_frame,
}
use nibras_os.Paging.Memory.{store-ne, translate, Owned}
use nibras_os.Paging.Tables.{page_directory_index-lt}
use nibras_os.Paging.NewTable.{Ready}
use nibras_os.Paging.Entries.{
  ensure_table-Ensured, mapped-translate_self, mapped-translate_ne, mapped-Owned,
}

-- What `vm_map_page_in_dir` has done: without a page for a table it has left the translation as it
-- was and the paging disabled; otherwise the page of `virt` is translated to `phys`, all others as
-- before, and the result is the address of the entry.
abbrev pub Mapped : Vm → ℕ × Vm → ℕ → ℕ → ℕ → Type 0
Mapped s r dir virt phys =
    ((r.0 ≡ 0)
      × (r.1.paging ≡ false)
      × ((v : ℕ) → vm_get_physical_address (r.1) dir v ≡ vm_get_physical_address s dir v))
    ⊎ ((r.0 ≡ pte_addr (table_of (r.1.mem) dir virt) virt)
        × (r.1.paging ≡ true)
        × Owned (r.1) dir
        × ((v : ℕ)
            → v < u32_mod
            → vm_get_physical_address (r.1) dir v
              ≡ (if v / 4096 == virt / 4096 then phys else vm_get_physical_address s dir v)))

page_table_index-lt : (virt : ℕ) → page_table_index virt < 1024
unfolding page_table_index
page_table_index-lt virt = omega arith

-- Two addresses of different pages differ in one of the indices.
indices_differ :
    (v w : ℕ)
    → v < u32_mod
    → w < u32_mod
    → v / 4096 ≢ w / 4096
    → (page_directory_index w ≢ page_directory_index v) ⊎ (page_table_index w ≢ page_table_index v)
unfolding page_directory_index page_table_index
indices_differ v w hv hw ne = elim (Bool-cases (v / 4194304 % 1024 == w / 4194304 % 1024)) [
  | inl e ↦ let e' = ==→eq (v / 4194304 % 1024) (w / 4194304 % 1024) e in inr (omega arith)
  | inr e ↦ inl (ground arith)
]

indices_same :
    (v w : ℕ)
    → v / 4096 ≡ w / 4096
    → (page_directory_index v ≡ page_directory_index w) × (page_table_index v ≡ page_table_index w)
unfolding page_directory_index page_table_index
indices_same v w e = (omega arith, omega arith)

get-translate :
    (s : Vm) (dir v : ℕ)
    → vm_get_physical_address s dir v
      ≡ translate (s.mem) dir (page_directory_index v) (page_table_index v)
unfolding vm_get_physical_address page_get_physical_address
get-translate s dir v = refl

set_page_entry_lem :
    (s : Vm) (page phys : ℕ) (fl : Flags)
    → phys ≢ 0
    → set_page_entry s page phys fl ≡ (
      page,
      record s {
        mem =
            let mem1 = store (s.mem) page (set_flags fl (s.mem page)) in
            store mem1 page (vm_pde_set_frame (mem1 page) phys);
        paging = true;
      },
    )
unfolding set_page_entry given_or_new
set_page_entry_lem s page phys fl ne = rw (ne→== phys 0 ne) (rw (ne→== phys 0 ne) refl)

module _ (s s1 : Vm) (dir virt phys : ℕ) (fl : Flags) (aligned : phys % 4096 ≡ 0)
    (hv : virt < u32_mod) (ready : Ready s s1 dir virt) where
  abbrev page : ℕ
  page = s1.mem (pde_addr dir virt) / 4096 * 4096 + 4 * page_table_index virt

  abbrev filled : Vm
  filled = record s1 {
    mem =
        let mem1 = store (s1.mem) page (set_flags fl (s1.mem page)) in
        store mem1 page (vm_pde_set_frame (mem1 page) phys);
    paging = true;
  }

  filled-get :
      (v : ℕ)
      → v < u32_mod
      → vm_get_physical_address filled dir v
        ≡ (if v / 4096 == virt / 4096 then phys else vm_get_physical_address s dir v)
  filled-get v lv =
      let i = page_directory_index virt in
      let j = page_table_index virt in
      let w1 = set_flags fl (s1.mem page) in
      let li = page_directory_index-lt virt in
      let lj = page_table_index-lt virt in
      let lk = page_directory_index-lt v in
      let lm = page_table_index-lt v in
      get-translate filled dir v ∙ elim (Bool-cases (v / 4096 == virt / 4096)) [
        | inl e ↦
            let (same_i, same_j) = indices_same v virt (==→eq (v / 4096) (virt / 4096) e) in
            rw (same_i, same_j, e)
              (mapped-translate_self s1 dir i j phys w1 ready.owned li lj ready.entry aligned)
        | inr e ↦
            let ne = indices_differ v virt lv hv (ground arith) in
            rw e (
              mapped-translate_ne s1 dir i j phys w1 ready.owned li lj ready.entry aligned
                (page_directory_index v) (page_table_index v) lk lm ne
              ∙ ready.same (page_directory_index v) (page_table_index v) lk lm
              ∙ sym (get-translate s dir v))
      ]

  filled-Owned : Owned filled dir
  filled-Owned =
      mapped-Owned s1 dir (page_directory_index virt) (page_table_index virt) phys
        (set_flags fl (s1.mem page)) ready.owned (page_directory_index-lt virt)
        (page_table_index-lt virt) ready.entry aligned filled refl refl

  -- The entry of the directory is not the one that was written.
  filled-page : page ≡ pte_addr (table_of (filled.mem) dir virt) virt
  unfolding page_get_physical_address
  filled-page =
      let n0 =
        ready.owned.not_dir (page_directory_index virt) (page_directory_index-lt virt)
          ready.entry in
      let al = ready.owned.aligned in
      let lj = page_table_index-lt virt in
      let li = page_directory_index-lt virt in
      let mem1 : ℕ → ℕ = store (s1.mem) page (set_flags fl (s1.mem page)) in
      let kept : filled.mem (pde_addr dir virt) ≡ s1.mem (pde_addr dir virt) =
        store-ne mem1 page (vm_pde_set_frame (mem1 page) phys) (pde_addr dir virt) (omega arith)
        ∙ store-ne (s1.mem) page (set_flags fl (s1.mem page)) (pde_addr dir virt) (omega arith) in
      ap (λ (w : ℕ). w / 4096 * 4096 + 4 * page_table_index virt) (sym kept)

  filled-Mapped : Mapped s (page, filled) dir virt phys
  filled-Mapped = inr (filled-page, refl, filled-Owned, filled-get)

-- In a directory whose two pages of words and whose tables are pages in use, no two of them the
-- same, vm_map_page_in_dir, called with the flag ps for a 32-bit address and a page that is not
-- NULL, either returns NULL with paging disabled and leaves every translation of the directory, or
-- returns the entry with paging enabled, after which the directory has its pages as before, the
-- address translates to the given page, and every other 32-bit address translates as it did.
pub vm_map_page_in_dir-Mapped :
    (s : Vm) (dir virt phys : ℕ) (fl : Flags)
    → Owned s dir
    → dir ≢ 0
    → fl.ps ≡ true
    → phys ≢ 0
    → phys % 4096 ≡ 0
    → virt < u32_mod
    → Mapped s (vm_map_page_in_dir s dir virt phys fl) dir virt phys
unfolding vm_map_page_in_dir page_get_physical_address vm_get_physical_address
vm_map_page_in_dir-Mapped s dir virt phys fl o dne on ne aligned hv =
    let s0 = record s { paging = false } in
    let o0 : Owned s0 dir = record {
      valid = o.valid;
      aligned = o.aligned;
      dir_used = o.dir_used;
      phys_used = o.phys_used;
      table_used = o.table_used;
      not_dir = o.not_dir;
      not_phys = o.not_phys;
      apart = o.apart;
    } in
    let (off, outcome) = ensure_table-Ensured s0 dir virt fl on o0 in
    rw (ne→== dir 0 dne) (elim outcome [
      | inl (e, m) ↦ rw (e, m) (inl (refl, off, λ v. refl))
      | inr (e, ready) ↦
          let s1 = (ensure_table s0 dir virt fl).1 in
          rw
            (
              e,
              set_page_entry_lem s1
                  (s1.mem (pde_addr dir virt) / 4096 * 4096 + 4 * page_table_index virt) phys fl ne,
            )
            (filled-Mapped s0 s1 dir virt phys fl aligned hv ready)
    ])

-- Writes within the two pages of a directory that spare the entry of a table leave its translation.
translate_kept :
    (s : Vm) (dir i j : ℕ) (mem : ℕ → ℕ)
    → Owned s dir
    → i < 1024
    → j < 1024
    → ((x : ℕ) → x / 4096 ≢ dir / 4096 → x / 4096 ≢ dir / 4096 + 1 → mem x ≡ s.mem x)
    → mem (dir + 4 * i) ≡ s.mem (dir + 4 * i)
    → translate mem dir i j ≡ translate (s.mem) dir i j
translate_kept s dir i j mem o li lj outside entry =
    rw entry (elim (Bool-cases (s.mem (dir + 4 * i) % 2 == 1)) [
      | inl p ↦
          let q : s.mem (dir + 4 * i) % 2 ≡ 1 = ==→eq (s.mem (dir + 4 * i) % 2) 1 p in
          let n0 = o.not_dir i li q in
          let n1 = o.not_phys i li q in
          rw (p, outside (s.mem (dir + 4 * i) / 4096 * 4096 + 4 * j) (omega arith) (omega arith))
            refl
      | inr p ↦ rw p refl
    ])

-- In a directory whose two pages of words and whose tables are pages in use, no two of them the
-- same, vm_free_page leaves the translation of an address whose index in its table is not 0 as it
-- was.
pub vm_get_physical_address-free :
    (s : Vm) (dir virt : ℕ)
    → Owned s dir
    → page_table_index virt ≢ 0
    → vm_get_physical_address (vm_free_page s dir virt) dir virt
      ≡ vm_get_physical_address s dir virt
unfolding vm_free_page
vm_get_physical_address-free s dir virt o ne = elim (Bool-cases (dir == 0)) [
  | inl e ↦ rw e refl
  | inr e ↦ rw e (elim (Bool-cases (s.mem (pte_addr (pde_addr dir virt) virt) % 2 == 1)) [
    | inl p ↦
        let page = pte_addr (pde_addr dir virt) virt in
        let mem1 : ℕ → ℕ = store (s.mem) (phys_addr_of dir virt) 0 in
        let w = mem1 page % 4096 / 2 * 2 in
        let li = page_directory_index-lt virt in
        let lj = page_table_index-lt virt in
        let al = o.aligned in
        let kept : (x : ℕ) → x ≢ page → x ≢ phys_addr_of dir virt → store mem1 page w x ≡ s.mem x =
          λ x n0 n1. store-ne mem1 page w x n0 ∙ store-ne (s.mem) (phys_addr_of dir virt) 0 x n1 in
        let left =
          translate_kept s dir (page_directory_index virt) (page_table_index virt)
            (store mem1 page w) o li lj (λ x n0 n1. kept x (omega arith) (omega arith))
            (kept (pde_addr dir virt) (omega arith) (omega arith)) in
        rw p (get-translate _ dir virt ∙ left ∙ sym (get-translate s dir virt))
    | inr p ↦ rw p refl
  ])
]
