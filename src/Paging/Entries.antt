-- ===== src/Paging/Entries.antt =====
-- The outcome of `ensure_table` of src/paging.c, and the writes that fill an entry of a table.
use nibras_os.Prelude.{
  ℕ, ◌+◌, ◌*◌, ◌/◌, ◌%◌, ◌<◌, ◌≡◌, refl, ◌≢◌, ◌⊎◌, inl, inr, Bool, true, false, arith, ◌==◌, ==→eq,
  Bool-cases, ap, sym, ◌∙◌,
}
use mathlib.Core.Path.{subst}
use nibras_os.Frames.{Frames, mem_alloc_page}
use nibras_os.Frames.Alloc.{IsValid, mem_alloc_page-cases, mem_alloc_page-IsValid}
use nibras_os.Paging.{
  Vm, Flags, store, ensure_table, vm_pde_set_frame, pde_addr, page_get_physical_address,
}
use nibras_os.Paging.Words.{vm_pde_set_frame-frame}
use nibras_os.Paging.Memory.{store_self, store-ne, table_page, translate, Owned}
use nibras_os.Paging.NewTable.{Ready, new-Ready}

-- The outcome of `ensure_table`: no page was left and the memory is as it was, or there is a table.
abbrev pub Ensured : Vm → Bool × Vm → ℕ → ℕ → Type 0
Ensured s r dir virt =
    (r.1.paging ≡ s.paging)
    × (((r.0 ≡ false) × (r.1.mem ≡ s.mem)) ⊎ ((r.0 ≡ true) × Ready s (r.1) dir virt))

pub ensure_table-Ensured :
    (s : Vm) (dir virt : ℕ) (fl : Flags)
    → fl.ps ≡ true
    → Owned s dir
    → Ensured s (ensure_table s dir virt fl) dir virt
unfolding ensure_table
ensure_table-Ensured s dir virt fl on o = elim (Bool-cases (s.mem (pde_addr dir virt) % 2 == 1)) [
  | inl p ↦ rw p (
    refl,
    inr (
      refl,
      record {
        owned = o;
        entry = ==→eq (s.mem (pde_addr dir virt) % 2) 1 p;
        same = λ i j li lj. refl;
      },
    ),
  )
  | inr p ↦ elim (Bool-cases ((mem_alloc_page (s.frames) false).0 == 0)) [
    | inl z ↦ rw (p, z) (refl, inl (refl, refl))
    | inr z ↦
        rw (p, z)
          (elim (mem_alloc_page-cases (s.frames) false o.valid) [
            | inl (e, _) ↦ absurd (ne_of_test _ 0 z (ap (λ (r : ℕ × Frames). r.0) e))
            | inr a ↦ (
              refl,
              inr (
                refl,
                new-Ready s dir virt fl on o (mem_alloc_page (s.frames) false).1
                    (mem_alloc_page (s.frames) false).0 (ne_of_test _ 1 p)
                    (mem_alloc_page-IsValid (s.frames) false o.valid) a.aligned a.was_free
                    a.now_used a.others,
              ),
            )
          ])
  ]
]
  where
    ne_of_test : (a b : ℕ) → (a == b) ≡ false → a ≢ b
    ne_of_test a b h = ground arith

-- The entry `page` of the table `i` of a directory maps the frame `phys` after these two writes.
module _ (s : Vm) (dir i j phys w1 : ℕ) (o : Owned s dir) (li : i < 1024) (lj : j < 1024)
    (entry : s.mem (dir + 4 * i) % 2 ≡ 1) (aligned : phys % 4096 ≡ 0) where
  abbrev page : ℕ
  page = s.mem (dir + 4 * i) / 4096 * 4096 + 4 * j

  abbrev mapped : ℕ → ℕ
  mapped = store (store (s.mem) page w1) page (vm_pde_set_frame (store (s.mem) page w1 page) phys)

  mapped_other : (x : ℕ) → x ≢ page → mapped x ≡ s.mem x
  mapped_other x ne =
      store-ne (store (s.mem) page w1) page (vm_pde_set_frame (store (s.mem) page w1 page) phys) x
        ne
      ∙ store-ne (s.mem) page w1 x ne

  mapped-entry : (k : ℕ) → k < 1024 → mapped (dir + 4 * k) ≡ s.mem (dir + 4 * k)
  mapped-entry k lk =
      let n0 = o.not_dir i li entry in
      let al = o.aligned in mapped_other (dir + 4 * k) (omega arith)

  mapped_frame : mapped page / 4096 * 4096 ≡ phys
  unfolding page_get_physical_address
  mapped_frame =
      ap (λ (w : ℕ). w / 4096 * 4096)
        (store_self (store (s.mem) page w1) page
          (vm_pde_set_frame (store (s.mem) page w1 page) phys))
      ∙ vm_pde_set_frame-frame (store (s.mem) page w1 page) phys aligned

  pub mapped-translate_self : translate mapped dir i j ≡ phys
  mapped-translate_self = rw (mapped-entry i li, entry) mapped_frame

  pub mapped-translate_ne :
      (k m : ℕ)
      → k < 1024
      → m < 1024
      → (i ≢ k) ⊎ (j ≢ m)
      → translate mapped dir k m ≡ translate (s.mem) dir k m
  mapped-translate_ne k m lk lm ne =
      rw (mapped-entry k lk) (elim (Bool-cases (s.mem (dir + 4 * k) % 2 == 1)) [
        | inl p ↦
            let q : s.mem (dir + 4 * k) % 2 ≡ 1 = ==→eq (s.mem (dir + 4 * k) % 2) 1 p in
            rw
              (
                p,
                mapped_other (s.mem (dir + 4 * k) / 4096 * 4096 + 4 * m)
                    (apart_words q (Bool-cases (i == k))),
              )
              refl
        | inr p ↦ rw p refl
      ])
    where
      apart_words :
          s.mem (dir + 4 * k) % 2 ≡ 1
          → ((i == k) ≡ true) ⊎ ((i == k) ≡ false)
          → s.mem (dir + 4 * k) / 4096 * 4096 + 4 * m ≢ page
      apart_words q (inl e) =
          let same : i ≡ k = ==→eq i k e in
          let words = ap (λ (x : ℕ). s.mem (dir + 4 * x)) same in omega (arith, ne)
      apart_words q (inr e) =
          let differ : i ≢ k = ground arith in
          let pages = o.apart i k li lk differ entry q in omega arith

  pub mapped-Owned : (s1 : Vm) → s1.mem ≡ mapped → s1.frames ≡ s.frames → Owned s1 dir
  mapped-Owned s1 em ef =
      let kept : (k : ℕ) → k < 1024 → s1.mem (dir + 4 * k) ≡ s.mem (dir + 4 * k) =
        λ k lk. ap (λ (f : ℕ → ℕ). f (dir + 4 * k)) em ∙ mapped-entry k lk in
      let is : (k : ℕ) (lk : k < 1024)
          → s1.mem (dir + 4 * k) % 2 ≡ 1
          → s.mem (dir + 4 * k) % 2 ≡ 1 =
        λ k lk p. ap (λ (w : ℕ). w % 2) (sym (kept k lk)) ∙ p in
      let pg : (k : ℕ) → k < 1024 → table_page (s1.mem) dir k ≡ table_page (s.mem) dir k =
        λ k lk. ap (λ (w : ℕ). w / 4096) (kept k lk) in
      record {
        valid = subst IsValid (sym ef) o.valid;
        aligned = o.aligned;
        dir_used = rw ef (o.dir_used);
        phys_used = rw ef (o.phys_used);
        table_used = λ k lk p. rw (ef, pg k lk) (o.table_used k lk (is k lk p));
        not_dir = λ k lk p. rw (pg k lk) (o.not_dir k lk (is k lk p));
        not_phys = λ k lk p. rw (pg k lk) (o.not_phys k lk (is k lk p));
        apart = λ k m lk lm ne p q.
            rw (pg k lk, pg m lm) (o.apart k m lk lm ne (is k lk p) (is m lm q));
      }
