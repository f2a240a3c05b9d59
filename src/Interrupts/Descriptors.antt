-- ===== src/Interrupts/Descriptors.antt =====
-- The descriptors of src/gdt.c and src/idt.c: the processor reads back what was set.
use nibras_os.Prelude.{
  ℕ, zero, suc, ◌+◌, ◌-◌, ◌*◌, ◌/◌, ◌%◌, ◌≤◌, ◌<◌, ◌≡◌, refl, ◌≢◌, ◌⊎◌, inl, inr, some, List, arith,
  get_elem?, set, length, length-set, get_elem?-set_self, get_elem?-set_ne, ◌∙◌, sym, ltb,
  Bool-cases,
}
use nibras_os.Interrupts.{GdtEntry, IdtEntry, gdt_set_entry, idt_set_entry, set_gates, irq_setup}

-- How the processor puts a descriptor together.
abbrev pub base_of : GdtEntry → ℕ
base_of e = e.base_low + 65536 * e.base_middle + 16777216 * e.base_high

abbrev pub limit_of : GdtEntry → ℕ
limit_of e = e.limit_low + 65536 * (e.granularity % 16)

abbrev pub offset_of : IdtEntry → ℕ
offset_of e = e.base_low + 65536 * e.base_high

-- For an index inside the table and a 32-bit base, the base of the descriptor is the base that was
-- set, its limit the low 20 bits of the limit, its flags the high 4 bits of the granularity, its
-- access byte the one that was set, and no other descriptor changes.
pub gdt_set_entry-read :
    (entries : List GdtEntry) (index base limit acs gran : ℕ)
    → index < length entries
    → base < 4294967296
    → (e : GdtEntry) × (get_elem? (gdt_set_entry entries index base limit acs gran) index ≡ some e)
      × (base_of e ≡ base)
      × (limit_of e ≡ limit % 1048576)
      × (e.granularity / 16 ≡ gran / 16 % 16)
      × (e.access ≡ acs)
      × ((j : ℕ)
          → index ≢ j
          → get_elem? (gdt_set_entry entries index base limit acs gran) j ≡ get_elem? entries j)
unfolding gdt_set_entry
gdt_set_entry-read entries index base limit acs gran l b =
    let e : GdtEntry = record {
      limit_low = limit % 65536;
      base_low = base % 65536;
      base_middle = base / 65536 % 256;
      access = acs;
      granularity = limit / 65536 % 16 + gran / 16 % 16 * 16;
      base_high = base / 16777216 % 256;
    } in
    (
      e,
      get_elem?-set_self entries index e l,
      omega arith,
      omega arith,
      omega arith,
      refl,
      λ j ne. get_elem?-set_ne entries e ne,
    )

-- Entry `num` leads to `entry`, with the kernel's code segment, as an interrupt gate of ring 0.
abbrev pub LeadsTo : List IdtEntry → ℕ → ℕ → Type 0
LeadsTo entries num entry =
    (e : IdtEntry) × (get_elem? entries num ≡ some e)
    × (offset_of e ≡ entry)
    × (e.selector ≡ 8)
    × (e.flags ≡ 142)
    × (e.zero_byte ≡ 0)

set_gates-other :
    (entry : ℕ → ℕ) (n num first : ℕ) (entries : List IdtEntry) (j : ℕ)
    → (j < num) ⊎ (num + n ≤ j)
    → get_elem? (set_gates entry n num first entries) j ≡ get_elem? entries j
unfolding set_gates idt_set_entry
set_gates-other entry zero num first entries j o = refl
set_gates-other entry (suc n) num first entries j o =
    let ne : num ≢ j = omega arith in
    set_gates-other entry n (num + 1) first (idt_set_entry entries num (entry (num - first)) 8 142)
      j (step o)
    ∙ get_elem?-set_ne entries _ ne
  where
    step : (j < num) ⊎ (num + suc n ≤ j) → (j < num + 1) ⊎ (num + 1 + n ≤ j)
    step (inl l) = inl (omega arith)
    step (inr l) = inr (omega arith)

set_gates-LeadsTo :
    (entry : ℕ → ℕ) (n num first : ℕ) (entries : List IdtEntry) (j : ℕ)
    → ((i : ℕ) → entry i < 4294967296)
    → num + n ≤ length entries
    → num ≤ j
    → j < num + n
    → LeadsTo (set_gates entry n num first entries) j (entry (j - first))
unfolding set_gates idt_set_entry
set_gates-LeadsTo entry zero num first entries j w l a b = absurd (omega arith)
set_gates-LeadsTo entry (suc n) num first entries j w l a b =
    let made : IdtEntry = record {
      base_low = entry (num - first) % 65536;
      selector = 8;
      zero_byte = 0;
      flags = 142;
      base_high = entry (num - first) / 65536 % 65536;
    } in
    elim (Bool-cases (ltb num j)) [
      | inl later ↦
          set_gates-LeadsTo entry n (num + 1) first (set entries num made) j w
            (omega (arith, length-set entries num made)) (ground arith) (omega arith)
      | inr here ↦
          let q : num ≡ j = ground arith in
          let k =
            set_gates-other entry n (num + 1) first (set entries num made) num
              (inl (omega arith)) in
          rw (sym q) (
            made,
            k ∙ get_elem?-set_self entries num made (omega arith),
            omega (arith, w (num - first)),
            refl,
            refl,
            refl,
          )
    ]

-- When the table has 256 entries and the entry points are 32-bit addresses, the interrupts 32 to 47
-- lead after `irq_setup` to the entry points of the 16 IRQs, and no other entry has changed.
pub irq_setup-LeadsTo :
    (irq : ℕ → ℕ) (entries : List IdtEntry)
    → ((i : ℕ) → irq i < 4294967296)
    → length entries ≡ 256
    → ((j : ℕ) → 32 ≤ j → j < 48 → LeadsTo (irq_setup irq entries) j (irq (j - 32)))
      × ((j : ℕ) → (j < 32) ⊎ (48 ≤ j) → get_elem? (irq_setup irq entries) j ≡ get_elem? entries j)
unfolding irq_setup
irq_setup-LeadsTo irq entries w n = (
  λ j a b. set_gates-LeadsTo irq 16 32 32 entries j w (omega arith) a b,
  λ j o. set_gates-other irq 16 32 32 entries j o,
)
