-- ===== src/Interrupts/Dispatch.antt =====
-- The dispatch of interrupts: src/irqs.c and src/isrs.c.
use nibras_os.Prelude.{
  ℕ, ◌+◌, ◌-◌, ◌<◌, ◌≡◌, refl, ◌≢◌, false, some, List, [], ◌∷◌, ◌++◌, arith, if◌then◌else◌, ltb,
  leb, lt→ltb, le→ltb, ne→==, length, get_elem?-set_self, get_elem?-set_ne,
}
use nibras_os.Interrupts.{irq_install_handler, irq_uninstall_handler, irq_handler}

-- The end of interrupt is sent before the handler runs, to the slave too when it raised the interrupt.
abbrev pub acknowledged : ℕ → List (ℕ × ℕ)
acknowledged irq = (if leb 8 irq then (160, 32) ∷ [] else []) ++ (32, 32) ∷ []

-- With the 16 places for handlers, an IRQ below 16 and a handler that is not NULL, the interrupt of
-- the IRQ is acknowledged, to the slave too where it raised it, and calls the handler that was
-- installed for it last; one that was uninstalled is not called any more, and the handlers of the
-- other IRQs stay.
pub irq_handler-installed :
    (irqs : List ℕ) (irq handler : ℕ)
    → length irqs ≡ 16
    → irq < 16
    → handler ≢ 0
    → (irq_handler (irq_install_handler irqs irq handler) (32 + irq)
        ≡ some (acknowledged irq, handler))
      × (irq_handler (irq_uninstall_handler irqs irq) (32 + irq) ≡ some (acknowledged irq, 0))
      × ((other : ℕ)
          → irq ≢ other
          → irq_handler (irq_install_handler irqs irq handler) (32 + other)
            ≡ irq_handler irqs (32 + other))
unfolding irq_handler irq_install_handler irq_uninstall_handler
irq_handler-installed irqs irq handler n l nz =
    let back : (k : ℕ) → 32 + k - 32 ≡ k = λ k. omega arith in
    let low : (k : ℕ) → ltb (32 + k) 32 ≡ false = λ k. le→ltb (32 + k) 32 (omega arith) in
    let slave : leb 40 (32 + irq) ≡ leb 8 irq = leb-shift irq in
    (
      rw
          (
            ne→== handler 0 nz,
            lt→ltb irq 16 l,
            low irq,
            back irq,
            get_elem?-set_self irqs irq handler (omega arith),
            slave,
          )
          refl,
      rw (low irq, back irq, get_elem?-set_self irqs irq 0 (omega arith), slave) refl,
      λ other ne.
          rw
            (
              ne→== handler 0 nz,
              lt→ltb irq 16 l,
              low other,
              back other,
              get_elem?-set_ne irqs handler ne,
            )
            refl,
    )
  where
    leb-shift : (k : ℕ) → leb 40 (32 + k) ≡ leb 8 k
    leb-shift k = ground arith
