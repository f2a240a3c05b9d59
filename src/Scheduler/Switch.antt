-- ===== src/Scheduler/Switch.antt =====
-- `sched` of src/process.c as a round robin on the queue of processes.
use nibras_os.Prelude.{
  ℕ, ◌+◌, ◌≤◌, ◌<◌, ◌≡◌, refl, ◌≢◌, Option, none, some, List, [], ◌∷◌, ◌++◌, arith, le→ltb, length,
  get_or, ap, ◌∙◌, eq→==, ne→==, append_assoc, bit_or,
}
use nibras_os.Scheduler.{
  Tasks, Proc, Regs, max_process_count, switch, sched, sched_current, sched_running, resume, put,
  save_context, load_context, queue_insert, insert_slot,
}
use nibras_os.Scheduler.Queue.{Queued, switch-Queued}

-- The first process of a queue; 0 of an empty one.
abbrev pub first_of : List ℕ → ℕ
first_of q = get_or q 0 0

-- The process at the front of the queue is the one that runs.
abbrev pub Running : Tasks → List ℕ → Type 0
Running s q = Queued s q × (s.current_process ≡ some (first_of q))

-- The registers that a process interrupted with `r` has when it runs again: the same but for the
-- user-mode segments and the interrupt flag.
abbrev pub returned : Regs → Regs
returned r = record {
  eip = r.eip;
  cs = 27;
  data_segments = 35;
  user_esp = r.user_esp;
  ebp = r.ebp;
  esp = r.esp;
  eax = r.eax;
  ebx = r.ebx;
  ecx = r.ecx;
  edx = r.edx;
  esi = r.esi;
  edi = r.edi;
  eflags = bit_or (r.eflags) 512;
}

-- What a switch from `p` to `next` does: `r` is kept in `p`, and nothing in another process; the
-- registers, the TSS and the page directory are those of `next`.
abbrev pub Switched : Tasks → Regs → ℕ → ℕ → Tasks → Regs → Type 0
Switched s r p next s1 r1 =
    (r1 ≡ load_context ((s1.procs next).context))
    × (s1.tss_esp ≡ (s1.procs next).context.kern_esp)
    × (s1.cr3 ≡ (s1.procs next).pd)
    × (s1.page_directory ≡ (s1.procs next).pd)
    × ((s1.procs p).context ≡ save_context r)
    × ((s1.procs p).pd ≡ (s.procs p).pd)
    × ((x : ℕ) → x ≢ p → s1.procs x ≡ s.procs x)

pub put_self : (procs : ℕ → Proc) (p : ℕ) (task : Proc) → put procs p task p ≡ task
unfolding put
put_self procs p task = rw (eq→== p p refl) refl

pub put-ne : (procs : ℕ → Proc) (p x : ℕ) (task : Proc) → x ≢ p → put procs p task x ≡ procs x
unfolding put
put-ne procs p x task ne = rw (ne→== x p ne) refl

abbrev saved_in : Tasks → Regs → ℕ → Tasks
saved_in s r p = record s {
  procs = put (s.procs) p (record (s.procs p) { context = save_context r });
}

sched-running :
    (s : Tasks) (r : Regs) (p : ℕ) → s.current_process ≡ some p → sched s r ≡ sched_running s r p
unfolding sched sched_current
sched-running s r p c = ap (λ o. sched_current o s r) c

sched_running-switch :
    (s s1 : Tasks) (r : Regs) (p next : ℕ)
    → switch (saved_in s r p) p ≡ some (s1, next)
    → sched_running s r p ≡ some (resume s1 next)
unfolding sched_running
sched_running-switch s s1 r p next e = rw (sched_running, e) refl

sched_running-none :
    (s : Tasks) (r : Regs) (p : ℕ) → switch (saved_in s r p) p ≡ none → sched_running s r p ≡ none
unfolding sched_running
sched_running-none s r p e = rw (sched_running, e) refl

-- Unless the array of the ready queue is full, `sched` puts the running process, which is at the
-- front of the queue, with its registers at the end of the queue and runs the process that is then
-- at the front, with its own registers, TSS stack and page directory; no other process changes.
pub sched-Switched :
    (s : Tasks) (r : Regs) (p : ℕ) (q : List ℕ)
    → Running s (p ∷ q)
    → s.queue_last < max_process_count
    → (s1 : Tasks) × (r1 : Regs) × (sched s r ≡ some (s1, r1))
      × Running s1 (q ++ p ∷ [])
      × Switched s r p (first_of (q ++ p ∷ [])) s1 r1
      × (s1.queue_last ≡ s.queue_last + 1)
unfolding resume
sched-Switched s r p q (w, c) lt =
    let s0 = saved_in s r p in
    let (s2, e, w2, (a, i, k, f, g), l2) = switch-Queued s0 p q w lt in
    let next = first_of (q ++ p ∷ []) in
    let done = resume s2 next in
    let own : s2.procs p ≡ record (s.procs p) { context = save_context r } =
      ap (λ t. t p) a ∙ put_self (s.procs) p (record (s.procs p) { context = save_context r }) in
    (
      done.0,
      done.1,
      sched-running s r p c ∙ sched_running-switch s s2 r p next e,
      (w2, refl),
      (
        refl,
        refl,
        refl,
        refl,
        ap (λ t. t.context) own,
        ap (λ t. t.pd) own,
        λ x ne.
            ap (λ t. t x) a
            ∙ put-ne (s.procs) p x (record (s.procs p) { context = save_context r }) ne,
      ),
      l2,
    )

-- With all slots used.
pub sched-overflow :
    (s : Tasks) (r : Regs) (p : ℕ) (q : List ℕ)
    → Running s (p ∷ q)
    → s.queue_last ≡ max_process_count
    → sched s r ≡ none
unfolding switch queue_insert insert_slot
sched-overflow s r p q ((slots, e, n, l, b, h), c) full =
    let over : switch (saved_in s r p) p ≡ none =
      rw (switch, e, le→ltb (s.queue_last) (length slots) (omega arith)) refl in
    sched-running s r p c ∙ sched_running-none s r p over

-- One switch after the other, with the registers each of the interrupted processes has by then.
unfoldable pub run_sched : List Regs → Tasks → Regs → Option (Tasks × Regs)
run_sched [] s r = some (s, r)
run_sched (r0 ∷ rs) s r = elim (sched s r0) [ none ↦ none | some (s1, r1) ↦ run_sched rs s1 r1 ]

-- `p` is not in the queue.
abbrev pub Absent : ℕ → List ℕ → Type 0
Absent p [] = Unit
Absent p (x ∷ q) = (p ≢ x) × Absent p q

-- While the processes before `p` get their turns, its registers stay what they are, and then it runs
-- with them.
turns :
    (a b : List ℕ) (p : ℕ) (rs : List Regs) (s : Tasks) (r : Regs)
    → Running s (a ++ p ∷ b)
    → Absent p a
    → length rs ≡ length a
    → s.queue_last + length a ≤ max_process_count
    → r ≡ load_context ((s.procs (first_of (a ++ p ∷ b))).context)
    → (s1 : Tasks) × (r1 : Regs) × (run_sched rs s r ≡ some (s1, r1))
      × (s1.current_process ≡ some p)
      × (r1 ≡ load_context ((s.procs p).context))
unfolding run_sched
turns [] b p [] s r w ab n room h = (s, r, refl, w.1, h)
turns [] b p (r0 ∷ rs) s r w ab n room h = absurd (omega arith)
turns (x ∷ a) b p [] s r w ab n room h = absurd (omega arith)
turns (x ∷ a) b p (r0 ∷ rs) s r w (ne, ab) n room h =
    let (s1, r1, e, w1, sw, l1) = sched-Switched s r0 x (a ++ p ∷ b) w (omega arith) in
    let q : (a ++ p ∷ b) ++ x ∷ [] ≡ a ++ p ∷ (b ++ x ∷ []) = append_assoc a (p ∷ b) (x ∷ []) in
    let (s2, r2, e2, c2, h2) =
      turns a (b ++ x ∷ []) p rs s1 r1 (rw q at w1) ab (omega arith) (omega arith)
        (rw q at (sw.0)) in
    (s2, r2, rw (run_sched, e) e2, c2, h2 ∙ ap (λ t. load_context (t.context)) (sw.6 p ne))

-- A process at the front of the queue, and in it only once, that is interrupted runs again once
-- each process that was behind it has had one turn, and then with the registers it was interrupted
-- with but for the interrupt flag and the user-mode segments, whatever the others did to theirs, as
-- long as the array of the ready queue has slots left for the turns.
pub run_sched-returns :
    (s : Tasks) (r r0 : Regs) (p : ℕ) (q : List ℕ) (rs : List Regs)
    → Running s (p ∷ q)
    → Absent p q
    → length rs ≡ length q
    → s.queue_last + length q < max_process_count
    → (s1 : Tasks) × (r1 : Regs) × (run_sched (r ∷ rs) s r0 ≡ some (s1, r1))
      × (s1.current_process ≡ some p)
      × (r1 ≡ returned r)
unfolding run_sched load_context save_context
run_sched-returns s r r0 p q rs w ab n room =
    let (s1, r1, e, w1, sw, l1) = sched-Switched s r p q w (omega arith) in
    let (s2, r2, e2, c2, h2) = turns q [] p rs s1 r1 w1 ab n (omega arith) (sw.0) in
    (s2, r2, rw (run_sched, e) e2, c2, h2 ∙ ap load_context (sw.4))
