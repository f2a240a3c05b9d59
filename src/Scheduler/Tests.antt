-- ===== src/Scheduler/Tests.antt =====
-- Runs of src/process.c with three processes, and the theorems at them.
use nibras_os.Prelude.{
  ℕ, zero, suc, ◌+◌, ◌<◌, ◌≡◌, refl, ◌≢◌, Option, none, some, List, [], ◌∷◌, ◌++◌, arith, replicate,
  get_or,
}
use nibras_os.Scheduler.{
  Tasks, Proc, Regs, sched, load_context, save_context, zero_proc, fork, terminate_proc, pid_of,
}
use nibras_os.Scheduler.Switch.{
  Running, Switched, returned, run_sched, sched-Switched, run_sched-returns,
}
use nibras_os.Scheduler.Slots.{Runs, run_sched-Runs}
use nibras_os.Scheduler.Fork.{fork-Running, terminate_proc-Running}

-- Processes 1, 2 and 3 behind 3 used slots of the array.
abbrev slots : List (Option ℕ)
slots = none ∷ none ∷ none ∷ some 1 ∷ some 2 ∷ some 3 ∷ replicate 506 none

abbrev proc_of : ℕ → Proc
proc_of p = record zero_proc { pid = p; pd = 1000 + p; pages = p ∷ [] }

abbrev tasks : Tasks
tasks = record {
  current_process = some 1;
  ready_queue = some slots;
  kmalloc_queue = none;
  queue_first = 3;
  queue_last = 6;
  procs_count = 3;
  proc_id = 4;
  kernel_stack_top = 4293922816;
  idle = 7;
  kernel_page_directory = 9;
  tss_esp = 0;
  cr3 = 0;
  page_directory = 0;
  procs = proc_of;
  mapped = [];
  freed = [];
}

abbrev regs : ℕ → Regs
regs n = record {
  eip = n;
  cs = 27;
  data_segments = 35;
  user_esp = n;
  ebp = n;
  esp = n;
  eax = n;
  ebx = 0;
  ecx = 0;
  edx = 0;
  esi = 0;
  edi = 0;
  eflags = 2;
}

tasks-Running : Running tasks (1 ∷ 2 ∷ 3 ∷ [])
tasks-Running = ((slots, refl, refl, refl, omega arith, front), refl)
  where
    front : (i : ℕ) → i < 3 → get_or slots (3 + i) none ≡ some (get_or (1 ∷ 2 ∷ 3 ∷ []) i 0)
    front zero l = refl
    front (suc zero) l = refl
    front (suc (suc zero)) l = refl
    front (suc (suc (suc i))) l = absurd (omega arith)

-- One slot is left.
abbrev late_tasks : Tasks
late_tasks = record tasks {
  ready_queue = some (replicate 510 none ++ some 1 ∷ none ∷ []);
  queue_first = 510;
  queue_last = 511;
}

late_tasks-Running : Running late_tasks (1 ∷ [])
late_tasks-Running =
    ((replicate 510 none ++ some 1 ∷ none ∷ [], refl, refl, refl, omega arith, front), refl)
  where
    front :
        (i : ℕ)
        → i < 1
        → get_or (replicate 510 none ++ some 1 ∷ none ∷ []) (510 + i) none
          ≡ some (get_or {A = ℕ} (1 ∷ []) i 0)
    front zero l = refl
    front (suc i) l = absurd (omega arith)

sched-Switched_example :
    (s1 : Tasks) × (r1 : Regs) × (sched tasks (regs 5) ≡ some (s1, r1))
    × Running s1 (2 ∷ 3 ∷ 1 ∷ [])
    × Switched tasks (regs 5) 1 2 s1 r1
    × (s1.queue_last ≡ 6 + 1)
sched-Switched_example = sched-Switched tasks (regs 5) 1 (2 ∷ 3 ∷ []) tasks-Running (omega arith)

run_sched-Runs_example : Runs (regs 5 ∷ regs 6 ∷ []) late_tasks (regs 0)
run_sched-Runs_example =
    run_sched-Runs (regs 5 ∷ regs 6 ∷ []) late_tasks (regs 0) 1 [] late_tasks-Running

run_sched-returns_example :
    (s1 : Tasks) × (r1 : Regs) × (run_sched (regs 5 ∷ regs 6 ∷ regs 7 ∷ []) tasks (regs 0)
      ≡ some (s1, r1))
    × (s1.current_process ≡ some 1)
    × (r1 ≡ returned (regs 5))
run_sched-returns_example =
    run_sched-returns tasks (regs 5) (regs 0) 1 (2 ∷ 3 ∷ []) (regs 6 ∷ regs 7 ∷ []) tasks-Running
      (omega arith, (omega arith, tt)) refl (omega arith)

fork-Running_example :
    (s1 : Tasks) × (fork 8 (some 1008) tasks (regs 5) ≡ some (s1, 4))
    × Running s1 (1 ∷ 2 ∷ 3 ∷ 8 ∷ [])
    × ((s1.procs 8).pid ≡ 4)
    × ((s1.procs 8).pd ≡ 1008)
    × (load_context ((s1.procs 8).context) ≡ record (returned (regs 5)) { esp = 4293922816 })
    × ((s1.procs 1).context ≡ save_context (regs 5))
    × ((x : ℕ) → x ≢ 1 → x ≢ 8 → s1.procs x ≡ proc_of x)
unfolding pid_of
fork-Running_example =
    fork-Running tasks (regs 5) 1 8 1008 (2 ∷ 3 ∷ []) tasks-Running (omega arith) (omega arith)

terminate_proc-Running_example :
    (s1 : Tasks) × (terminate_proc tasks (regs 5) ≡ some (s1, load_context ((proc_of 2).context)))
    × Running s1 (2 ∷ 3 ∷ [])
    × (s1.procs 1 ≡ zero_proc)
    × (s1.page_directory ≡ 1002)
    × (s1.freed ≡ (1001, 1) ∷ (9, 1001) ∷ [])
terminate_proc-Running_example =
    terminate_proc-Running tasks (regs 5) 1 2 (3 ∷ []) tasks-Running (omega arith)
