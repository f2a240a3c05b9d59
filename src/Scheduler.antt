-- ===== src/Scheduler.antt =====
-- src/process.c: the ready queue, the context switch `sched`, `fork`, `terminate_proc`, and the tick of
-- src/timer.c that calls `sched`. A `proc_t *` is a number, NULL is `none`; `procs` is the memory the
-- pointers lead to. `none` as a result is an access outside the array of the ready queue.
pub mod Queue
pub mod Switch
pub mod Slots
pub mod Fork
mod Tests
use nibras_os.Prelude.{
  ℕ, zero, suc, ◌+◌, ◌-◌, ◌/◌, ◌%◌, ◌^◌, ◌<◌, ◌||◌, ◌≡◌, Bool, true, false, Option, none, some,
  List, [], ◌∷◌, ◌++◌, if◌then◌else◌, ◌==◌, ltb, leb, length, get_elem?, get_or, set, bit_or,
  replicate,
}

-- The fields of `proc_t` that a context switch saves.
pub record Context : Type 0 where
  eip : ℕ
  user_esp : ℕ
  user_ebp : ℕ
  kern_esp : ℕ
  eax : ℕ
  ebx : ℕ
  ecx : ℕ
  edx : ℕ
  esi : ℕ
  edi : ℕ
  eflags : ℕ

pub record Proc : Type 0 where
  pid : ℕ
  name : List ℕ
  pd : ℕ
  pages : List ℕ
  next : Option ℕ
  context : Context

-- `struct regs`; `data_segments` is ss, ds, es, fs and gs, which are always set to one value.
pub record Regs : Type 0 where
  eip : ℕ
  cs : ℕ
  data_segments : ℕ
  user_esp : ℕ
  ebp : ℕ
  esp : ℕ
  eax : ℕ
  ebx : ℕ
  ecx : ℕ
  edx : ℕ
  esi : ℕ
  edi : ℕ
  eflags : ℕ

-- `kmalloc_queue` is the array that `kmalloc` hands out for the ready queue when there is none yet;
-- `tss_esp`, `cr3` and `page_directory` are what the last switch installed.
pub record Tasks : Type 0 where
  current_process : Option ℕ
  ready_queue : Option (List (Option ℕ))
  kmalloc_queue : Option (List (Option ℕ))
  queue_first : ℕ
  queue_last : ℕ
  procs_count : ℕ
  proc_id : ℕ
  kernel_stack_top : ℕ
  idle : ℕ
  kernel_page_directory : ℕ
  tss_esp : ℕ
  cr3 : ℕ
  page_directory : ℕ
  procs : ℕ → Proc
  mapped : List (ℕ × ℕ)
  freed : List (ℕ × ℕ)

abbrev pub max_process_count : ℕ
max_process_count = 512

-- `procs[p] = task`.
unfoldable pub put : (ℕ → Proc) → ℕ → Proc → ℕ → Proc
put procs p task q = if q == p then task else procs q

-- `memset(ready_queue, 0, procs_count + 1)` clears that many bytes of 4-byte pointers.
unfoldable pub clear_low : ℕ → Option ℕ → Option ℕ
clear_low n none = none
clear_low n (some p) = if leb 4 n || p / 256 ^ n == 0 then none else some (p - p % 256 ^ n)

unfoldable pub clear_bytes : ℕ → List (Option ℕ) → List (Option ℕ)
unfolding clear_low
clear_bytes n [] = []
clear_bytes n (slot ∷ slots) = clear_low n slot ∷ clear_bytes (n - 4) slots

unfoldable pub clear_queue : Tasks → Tasks
unfolding clear_bytes
clear_queue s = record s {
  ready_queue = elim (s.ready_queue) [
    | none ↦ none
    | some slots ↦ some (clear_bytes (s.procs_count + 1) slots)
  ];
  queue_first = 0;
  queue_last = 0;
}

unfoldable pub insert_slot : Tasks → List (Option ℕ) → Option ℕ → Option Tasks
insert_slot s slots task =
    if ltb (s.queue_last) (length slots)
    then some (record s {
      ready_queue = some (set slots (s.queue_last) task);
      queue_last = s.queue_last + 1;
      procs_count = (s.procs_count + 1) % 4294967296;
    })
    else none

unfoldable pub queue_insert : Tasks → Option ℕ → Option Tasks
unfolding insert_slot
queue_insert s task = elim (s.ready_queue) [
  | some slots ↦ insert_slot s slots task
  | none ↦ elim (s.kmalloc_queue) [ none ↦ some s | some slots ↦ insert_slot s slots task ]
]

-- The state, and the pointer that is returned.
unfoldable pub queue_remove : Tasks → Option (Tasks × Option ℕ)
queue_remove s = elim (s.ready_queue) [
  | none ↦ none
  | some slots ↦
      let slots1 = set slots (s.queue_first) none in
      if ltb (s.queue_first + 1) (length slots)
      then some (
        record s {
          ready_queue = some slots1;
          procs_count = (s.procs_count + 4294967295) % 4294967296;
          queue_first = s.queue_first + 1;
        },
        get_or slots1 (s.queue_first + 1) none,
      )
      else none
]

unfoldable pub queue_peek : Tasks → Option (Option ℕ)
queue_peek s = elim (s.ready_queue) [ none ↦ none | some slots ↦ get_elem? slots (s.queue_first) ]

unfoldable pub save_context : Regs → Context
save_context r = record {
  eip = r.eip;
  user_esp = r.user_esp;
  user_ebp = r.ebp;
  kern_esp = r.esp;
  eax = r.eax;
  ebx = r.ebx;
  ecx = r.ecx;
  edx = r.edx;
  esi = r.esi;
  edi = r.edi;
  eflags = r.eflags;
}

unfoldable pub load_context : Context → Regs
load_context c = record {
  eip = c.eip;
  cs = 27;
  data_segments = 35;
  user_esp = c.user_esp;
  ebp = c.user_ebp;
  esp = c.kern_esp;
  eax = c.eax;
  ebx = c.ebx;
  ecx = c.ecx;
  edx = c.edx;
  esi = c.esi;
  edi = c.edi;
  eflags = bit_or (c.eflags) 512;
}

-- The end of `sched`: the registers, the TSS and the page directory of the process that runs next.
unfoldable pub resume : Tasks → ℕ → Tasks × Regs
unfolding load_context
resume s p =
    let task = s.procs p in
    (
      record s {
        current_process = some p;
        tss_esp = task.context.kern_esp;
        cr3 = task.pd;
        page_directory = task.pd;
      },
      load_context (task.context),
    )

-- No process is ready: the kernel's idle loop.
unfoldable pub run_idle : Tasks → Regs → Tasks × Regs
run_idle s r = (
  record s { current_process = none; cr3 = s.kernel_page_directory },
  record r { eip = s.idle; cs = 8; data_segments = 16; eflags = bit_or (r.eflags) 512 },
)

-- `queue_insert(current_process); next = queue_remove(); if(next) current_process = next;`.
unfoldable pub switch : Tasks → ℕ → Option (Tasks × ℕ)
unfolding queue_insert queue_remove
switch s p = elim (queue_insert s (some p)) [
  | none ↦ none
  | some s1 ↦ elim (queue_remove s1) [
    | none ↦ none
    | some (s2, none) ↦ some (s2, p)
    | some (s2, some next) ↦ some (s2, next)
  ]
]

unfoldable pub dispatch : Tasks → Option Tasks
unfolding queue_insert queue_remove
dispatch s = elim (queue_insert s (s.current_process)) [
  | none ↦ none
  | some s1 ↦ elim (queue_remove s1) [ none ↦ none | some (s2, next) ↦ some s2 ]
]

-- `sched` when a process runs: its registers are saved first.
unfoldable pub sched_running : Tasks → Regs → ℕ → Option (Tasks × Regs)
unfolding switch resume save_context put
sched_running s r p =
    let saved = record (s.procs p) { context = save_context r } in
    elim (switch (record s { procs = put (s.procs) p saved }) p) [
      | none ↦ none
      | some (s1, next) ↦ some (resume s1 next)
    ]

unfoldable pub sched_first : Tasks → Regs → Option (Tasks × Regs)
unfolding queue_peek resume run_idle
sched_first s r = elim (queue_peek s) [
  | none ↦ none
  | some none ↦ some (run_idle s r)
  | some (some p) ↦ some (resume s p)
]

-- The first argument is `current_process`.
unfoldable pub sched_current : Option ℕ → Tasks → Regs → Option (Tasks × Regs)
unfolding sched_running sched_first
sched_current (some p) s r = sched_running s r p
sched_current none s r = elim (s.ready_queue) [ none ↦ some (s, r) | some slots ↦ sched_first s r ]

unfoldable pub sched : Tasks → Regs → Option (Tasks × Regs)
unfolding sched_current
sched s r = sched_current (s.current_process) s r

abbrev zero_context : Context
zero_context = record {
  eip = 0;
  user_esp = 0;
  user_ebp = 0;
  kern_esp = 0;
  eax = 0;
  ebx = 0;
  ecx = 0;
  edx = 0;
  esi = 0;
  edi = 0;
  eflags = 0;
}

abbrev pub zero_proc : Proc
zero_proc = record { pid = 0; name = []; pd = 0; pages = []; next = none; context = zero_context }

abbrev pub free_pages : ℕ → List ℕ → List (ℕ × ℕ)
free_pages pd [] = []
free_pages pd (page ∷ pages) = (pd, page) ∷ free_pages pd pages

-- `vm_free_page` is called for the pages and the directory of `p`, whose memory is cleared and freed.
-- `freed` is the list of these calls; what one of them does to the page tables is modelled in Paging, and
-- is no part of this state.
unfoldable pub release : Tasks → ℕ → Tasks
unfolding put
release s p = record s {
  freed =
      s.freed
      ++ free_pages ((s.procs p).pd) ((s.procs p).pages)
      ++ (s.kernel_page_directory, (s.procs p).pd) ∷ [];
  procs = put (s.procs) p zero_proc;
  current_process = none;
}

-- The first argument is `current_process`; the source reads through it, NULL or not.
unfoldable pub terminate_current : Option ℕ → Tasks → Regs → Option (Tasks × Regs)
unfolding queue_remove release sched
terminate_current none s r = none
terminate_current (some p) s r = elim (queue_remove s) [
  | none ↦ none
  | some (s1, next) ↦ sched (release s1 p) r
]

unfoldable pub terminate_proc : Tasks → Regs → Option (Tasks × Regs)
unfolding terminate_current
terminate_proc s r = terminate_current (s.current_process) s r

-- The pages of the parent that are copied: not those of the kernel's stacks.
unfoldable pub user_pages : ℕ → List ℕ → List (ℕ × ℕ)
user_pages pd [] = []
user_pages pd (page ∷ pages) =
    if leb 4293922816 page then user_pages pd pages else (pd, page) ∷ user_pages pd pages

-- The number of a process: an `int`, as the unsigned value that `fork` returns, made of the 64-bit
-- counter `proc_id`.
unfoldable pub pid_of : ℕ → ℕ
pid_of n = n % 4294967296

-- The parent's and the child's memory when the child has its number but no address space yet.
unfoldable pub fork_begin : ℕ → ℕ → Tasks → Regs → Tasks
unfolding put save_context pid_of
fork_begin p child s r =
    let saved = record (s.procs p) { context = save_context r; next = some child } in
    let newborn = record zero_proc { pid = pid_of (s.proc_id); next = (s.procs p).next } in
    record s {
      proc_id = (s.proc_id + 1) % 2 ^ 64;
      procs = put (put (s.procs) p saved) child newborn;
    }

-- The child with the address space `pd`: copies of the parent's pages, and a kernel stack of its own.
unfoldable pub fork_child : ℕ → ℕ → ℕ → Tasks → Regs → Tasks
unfolding put save_context user_pages
fork_child p child pd s r =
    let context = record (save_context r) { kern_esp = s.kernel_stack_top } in
    record s {
      procs = put (s.procs) child (record (s.procs child) { pd = pd; context = context });
      mapped =
          s.mapped
          ++ user_pages pd ((s.procs p).pages)
          ++ (pd, (s.kernel_stack_top + 4294963200) % 4294967296) ∷ [];
      kernel_stack_top = (s.kernel_stack_top + 8192) % 4294967296;
    }

-- `fork`: the child's memory is `child`, `clone` is what `vm_clone_page_directory` returns. The result
-- is the state and the value that is returned; the registers in `r` are left alone.
unfoldable pub fork_current : Option ℕ → ℕ → Option ℕ → Tasks → Regs → Option (Tasks × ℕ)
unfolding queue_insert fork_begin fork_child pid_of
fork_current none child clone s r = some (s, 0)
fork_current (some p) child none s r = some (fork_begin p child s r, 0)
fork_current (some p) child (some pd) s r =
    elim (queue_insert (fork_child p child pd (fork_begin p child s r) r) (some child)) [
      | none ↦ none
      | some s1 ↦ some (s1, pid_of (s.proc_id))
    ]

unfoldable pub fork : ℕ → Option ℕ → Tasks → Regs → Option (Tasks × ℕ)
unfolding fork_current
fork child clone s r = fork_current (s.current_process) child clone s r

-- src/timer.c: every eighth tick calls `sched`, once multitasking is on.
unfoldable pub timer_handler : Bool → ℕ → Tasks → Regs → Option (ℕ × Tasks × Regs)
unfolding sched
timer_handler tasking_enabled ticks s r =
    let ticks1 = (ticks + 1) % 4294967296 in
    let next = sched s r in
    if tasking_enabled
    then if ticks1 % 8 == 0
      then elim next [ none ↦ none | some (s1, r1) ↦ some (ticks1, s1, r1) ]
      else some (ticks1, s, r)
    else some (ticks, s, r)
