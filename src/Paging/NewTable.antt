-- ===== src/Paging/NewTable.antt =====
-- A free page as a new page table of src/paging.c: the tables stay apart and no translation changes.
use nibras_os.Prelude.{
  ℕ, ◌+◌, ◌*◌, ◌/◌, ◌%◌, ◌<◌, ◌≡◌, refl, ◌≢◌, ◌⊎◌, inl, inr, true, arith, ◌==◌, ne→==, ==→eq,
  Bool-cases, ap, sym, ◌∙◌,
}
use nibras_os.Frames.{Frames}
use nibras_os.Frames.Search.{frame_bit}
use nibras_os.Frames.Alloc.{IsValid}
use nibras_os.Paging.{Vm, Flags, install_table, page_directory_index, pde_addr}
use nibras_os.Paging.Memory.{table_page, translate, Owned}
use nibras_os.Paging.Tables.{
  page_directory_index-lt, install_table-other, install_table_zero, install_table-present,
  install_table-frame, install_table-entry,
}

-- There is a page table for `virt`, and no translation has changed.
pub record Ready (s s1 : Vm) (dir virt : ℕ) : Type 0 where
  pub owned : Owned s1 dir
  pub entry : s1.mem (pde_addr dir virt) % 2 ≡ 1
  pub same :
      (i j : ℕ) → i < 1024 → j < 1024 → translate (s1.mem) dir i j ≡ translate (s.mem) dir i j

-- A free page becomes the table.
module _ (s : Vm) (dir virt : ℕ) (fl : Flags) (on : fl.ps ≡ true) (o : Owned s dir)
    (frames1 : Frames) (table : ℕ) (absent : s.mem (pde_addr dir virt) % 2 ≢ 1)
    (valid1 : IsValid frames1) (aligned : table % 4096 ≡ 0)
    (free : frame_bit (s.frames.bitmap) (table / 4096) ≡ 0)
    (used : frame_bit (frames1.bitmap) (table / 4096) ≡ 1)
    (others : (b : ℕ)
      → table / 4096 ≢ b
      → frame_bit (frames1.bitmap) b ≡ frame_bit (s.frames.bitmap) b) where
  abbrev after : Vm
  after = record s { mem = install_table (s.mem) dir virt fl table; frames = frames1 }

  differs : (x : ℕ) → frame_bit (s.frames.bitmap) x ≡ 1 → table / 4096 ≢ x
  differs x u e = omega (arith, sym u ∙ ap (frame_bit (s.frames.bitmap)) (sym e) ∙ free)

  keeps : (x : ℕ) → frame_bit (s.frames.bitmap) x ≡ 1 → frame_bit (frames1.bitmap) x ≡ 1
  keeps x u = others x (differs x u) ∙ u

  not_dir : table / 4096 ≢ dir / 4096
  not_dir = differs (dir / 4096) o.dir_used

  not_phys : table / 4096 ≢ dir / 4096 + 1
  not_phys = differs (dir / 4096 + 1) o.phys_used

  entry_same :
      (i : ℕ)
      → i < 1024
      → i ≢ page_directory_index virt
      → after.mem (dir + 4 * i) ≡ s.mem (dir + 4 * i)
  entry_same i lt ne =
      install_table-entry (s.mem) dir virt fl table o.aligned aligned not_dir not_phys i lt ne

  page_new : after.mem (pde_addr dir virt) / 4096 ≡ table / 4096
  page_new = install_table-frame (s.mem) dir virt fl table o.aligned aligned not_dir not_phys

  -- A present entry is the new one, or an old one.
  entry-cases :
      (i : ℕ)
      → i < 1024
      → after.mem (dir + 4 * i) % 2 ≡ 1
      → ((i ≡ page_directory_index virt) × (table_page (after.mem) dir i ≡ table / 4096))
        ⊎ ((s.mem (dir + 4 * i) % 2 ≡ 1)
            × (table_page (after.mem) dir i ≡ table_page (s.mem) dir i))
  entry-cases i lt p = elim (Bool-cases (i == page_directory_index virt)) [
    | inl e ↦
        let same : i ≡ page_directory_index virt = ==→eq i (page_directory_index virt) e in
        inl (same, ap (λ (k : ℕ). after.mem (dir + 4 * k) / 4096) same ∙ page_new)
    | inr e ↦
        let same = entry_same i lt (ground arith) in
        inr (ap (λ (w : ℕ). w % 2) (sym same) ∙ p, ap (λ (w : ℕ). w / 4096) same)
  ]

  new-Owned : Owned after dir
  new-Owned = record {
    valid = valid1;
    aligned = o.aligned;
    dir_used = keeps (dir / 4096) o.dir_used;
    phys_used = keeps (dir / 4096 + 1) o.phys_used;
    table_used = λ i lt p. elim (entry-cases i lt p) [
      | inl (_, e) ↦ ap (frame_bit (frames1.bitmap)) e ∙ used
      | inr (q, e) ↦
          ap (frame_bit (frames1.bitmap)) e ∙ keeps (table_page (s.mem) dir i) (o.table_used i lt q)
    ];
    not_dir = λ i lt p. elim (entry-cases i lt p) [
      | inl (_, e) ↦ λ z. not_dir (sym e ∙ z)
      | inr (q, e) ↦ λ z. o.not_dir i lt q (sym e ∙ z)
    ];
    not_phys = λ i lt p. elim (entry-cases i lt p) [
      | inl (_, e) ↦ λ z. not_phys (sym e ∙ z)
      | inr (q, e) ↦ λ z. o.not_phys i lt q (sym e ∙ z)
    ];
    apart = λ i j li lj ne p q. elim (entry-cases i li p) [
      | inl (a, e) ↦ elim (entry-cases j lj q) [
        | inl (b, f) ↦ absurd (ne (a ∙ sym b))
        | inr (r, f) ↦ λ z. differs (table_page (s.mem) dir j) (o.table_used j lj r) (sym e ∙ z ∙ f)
      ]
      | inr (r, e) ↦ elim (entry-cases j lj q) [
        | inl (b, f) ↦
            λ z. differs (table_page (s.mem) dir i) (o.table_used i li r) (sym f ∙ sym z ∙ e)
        | inr (t, f) ↦ λ z. o.apart i j li lj ne r t (sym e ∙ z ∙ f)
      ]
    ];
  }

  new-translate :
      (i j : ℕ) → i < 1024 → j < 1024 → translate (after.mem) dir i j ≡ translate (s.mem) dir i j
  new-translate i j li lj = elim (Bool-cases (i == page_directory_index virt)) [
    | inl e ↦
        let same : i ≡ page_directory_index virt = ==→eq i (page_directory_index virt) e in
        let zero : after.mem (table / 4096 * 4096 + 4 * j) ≡ 0 =
          ap (λ (x : ℕ). after.mem (x + 4 * j)) (omega arith)
          ∙ install_table_zero (s.mem) dir virt fl table o.aligned aligned not_dir not_phys j lj in
        rw same (
          rw
            (
              install_table-present (s.mem) dir virt fl table o.aligned aligned not_dir not_phys on,
              page_new,
              ne→== (s.mem (pde_addr dir virt) % 2) 1 absent,
              zero,
            )
            refl)
    | inr e ↦
        let same = entry_same i li (ground arith) in
        rw same (elim (Bool-cases (s.mem (dir + 4 * i) % 2 == 1)) [
          | inl p ↦
              let q : s.mem (dir + 4 * i) % 2 ≡ 1 = ==→eq (s.mem (dir + 4 * i) % 2) 1 p in
              let k = page_directory_index-lt virt in
              let n0 = o.not_dir i li q in
              let n1 = o.not_phys i li q in
              let n2 = differs (table_page (s.mem) dir i) (o.table_used i li q) in
              let al = o.aligned in
              rw
                (
                  p,
                  install_table-other (s.mem) dir virt fl table o.aligned aligned not_dir not_phys
                      (table_page (s.mem) dir i * 4096 + 4 * j) (omega arith) (omega arith)
                      (omega arith),
                )
                refl
          | inr p ↦ rw p refl
        ])
  ]

  pub new-Ready : Ready s after dir virt
  new-Ready = record {
    owned = new-Owned;
    entry = install_table-present (s.mem) dir virt fl table o.aligned aligned not_dir not_phys on;
    same = new-translate;
  }
