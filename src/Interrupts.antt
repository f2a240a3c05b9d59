-- ===== src/Interrupts.antt =====
-- Segments and interrupts: src/gdt.c, src/idt.c, src/isrs.c, src/irqs.c and the dispatcher of
-- src/syscalls.c. A handler is a number, NULL is 0; the entry points of start.asm are the parameters
-- `isr` and `irq`.
pub mod Descriptors
pub mod Dispatch
mod Tests
use nibras_os.Prelude.{
  ℕ, zero, suc, ◌+◌, ◌-◌, ◌*◌, ◌/◌, ◌%◌, ◌<◌, ◌≡◌, Bool, true, false, not, ◌&&◌, ◌||◌, Option, none,
  some, List, [], ◌∷◌, ◌++◌, if◌then◌else◌, ◌==◌, ltb, leb, get_elem?, set, get_or, replicate,
  length, bit_or, bit_and,
}

pub record GdtEntry : Type 0 where
  limit_low : ℕ
  base_low : ℕ
  base_middle : ℕ
  access : ℕ
  granularity : ℕ
  base_high : ℕ

unfoldable pub gdt_set_entry : List GdtEntry → ℕ → ℕ → ℕ → ℕ → ℕ → List GdtEntry
gdt_set_entry entries index base limit acs gran = set entries index (record {
  limit_low = limit % 65536;
  base_low = base % 65536;
  base_middle = base / 65536 % 256;
  access = acs;
  granularity = limit / 65536 % 16 + gran / 16 % 16 * 16;
  base_high = base / 16777216 % 256;
})

unfoldable pub gdt_setup : List GdtEntry → List GdtEntry
unfolding gdt_set_entry
gdt_setup entries =
    gdt_set_entry
      (gdt_set_entry
        (gdt_set_entry (gdt_set_entry (gdt_set_entry entries 0 0 0 0 0) 1 0 4294967295 154 207) 2 0
          4294967295 146 207)
        3 0 4294967295 250 207)
      4 0 4294967295 242 207

pub record IdtEntry : Type 0 where
  base_low : ℕ
  selector : ℕ
  zero_byte : ℕ
  flags : ℕ
  base_high : ℕ

unfoldable pub idt_set_entry : List IdtEntry → ℕ → ℕ → ℕ → ℕ → List IdtEntry
idt_set_entry entries num base sel access = set entries num (record {
  base_low = base % 65536;
  selector = sel;
  zero_byte = 0;
  flags = access;
  base_high = base / 65536 % 65536;
})

abbrev pub no_entry : IdtEntry
no_entry = record { base_low = 0; selector = 0; zero_byte = 0; flags = 0; base_high = 0 }

unfoldable pub idt_setup : List IdtEntry
idt_setup = replicate 256 no_entry

-- `n` gates of one kind from the number `num` on.
unfoldable pub set_gates : (ℕ → ℕ) → ℕ → ℕ → ℕ → List IdtEntry → List IdtEntry
unfolding idt_set_entry
set_gates entry zero num first entries = entries
set_gates entry (suc n) num first entries =
    set_gates entry n (num + 1) first (idt_set_entry entries num (entry (num - first)) 8 142)

-- The 32 exceptions, the gate 0x32 of the system calls, and the table of handlers cleared.
unfoldable pub isr_setup : (ℕ → ℕ) → List IdtEntry → List IdtEntry × List ℕ
unfolding set_gates idt_set_entry
isr_setup isr entries =
    (idt_set_entry (set_gates isr 32 0 0 entries) 50 (isr 50) 8 238, replicate 256 0)

unfoldable pub isr_install_handler :
    (ℕ → ℕ) → List IdtEntry → List ℕ → ℕ → ℕ → List IdtEntry × List ℕ
unfolding idt_set_entry
isr_install_handler isr entries isrs number handler = (
  if number == 50 then idt_set_entry entries number (isr 50) 8 238 else entries,
  set isrs number handler,
)

-- The port writes that move the interrupts of the two controllers to 32 and 40.
unfoldable pub irq_remap : List (ℕ × ℕ)
irq_remap =
    (32, 17)
    ∷ (160, 17)
    ∷ (33, 32)
    ∷ (161, 40)
    ∷ (33, 4)
    ∷ (161, 2)
    ∷ (33, 1)
    ∷ (161, 1)
    ∷ (33, 0)
    ∷ (161, 0)
    ∷ []

unfoldable pub irq_setup : (ℕ → ℕ) → List IdtEntry → List IdtEntry
unfolding set_gates
irq_setup irq entries = set_gates irq 16 32 32 entries

unfoldable pub irq_install_handler : List ℕ → ℕ → ℕ → List ℕ
irq_install_handler irqs irq handler =
    if not (handler == 0) && ltb irq 16 then set irqs irq handler else irqs

unfoldable pub irq_uninstall_handler : List ℕ → ℕ → List ℕ
irq_uninstall_handler irqs irq = set irqs irq 0

-- The port writes, and the handler that is then called, if any. An interrupt number out of 32 … 47
-- reads outside the table, `none`.
unfoldable pub irq_handler : List ℕ → ℕ → Option (List (ℕ × ℕ) × ℕ)
irq_handler irqs intrr_no =
    if ltb intrr_no 32 then none else elim (get_elem? irqs (intrr_no - 32)) [
      | none ↦ none
      | some handler ↦
          some ((if leb 40 intrr_no then (160, 32) ∷ [] else []) ++ (32, 32) ∷ [], handler)
    ]

-- What `fault_handler` does with the interrupt.
pub data Outcome : Type 0 where
  handled : ℕ → Outcome
  halted : ℕ → Outcome
  outside : Outcome

-- The handler is called, or the machine halts with the message of the exception; the number of a
-- system call arrives with its sign extended.
unfoldable pub fault_handler : List ℕ → ℕ → Outcome
fault_handler isrs intrr_no =
    let index = if intrr_no == 4294967090 then 50 else intrr_no in
    elim (get_elem? isrs index) [
      | none ↦ outside
      | some handler ↦
          if not (handler == 0)
          then handled handler
          else if ltb intrr_no 32
          then halted intrr_no
          else outside
    ]

abbrev pub max_syscall : ℕ
max_syscall = 13

-- What `syscall_dispatcher` does for the number in `eax`.
pub data Syscall : Type 0 where
  ignored : Syscall
  terminate : Syscall
  fork_process : Syscall
  print : Bool → Syscall
  call : ℕ → Syscall
  call_null : Syscall

-- Number 5 prints, in another colour when `ecx` is 0xC; the others call the function of the table and
-- put its result into `eax`. The table has 13 places and 12 functions.
unfoldable pub syscall_dispatcher : ℕ → ℕ → Syscall
syscall_dispatcher eax ecx =
    if leb max_syscall eax
    then ignored
    else if eax == 6
    then terminate
    else if eax == 10
    then fork_process
    else if eax == 5
    then print (ecx == 12)
    else if eax == 12
    then call_null
    else call eax
