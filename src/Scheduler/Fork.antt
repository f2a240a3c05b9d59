-- ===== src/Scheduler/Fork.antt =====
-- `fork` and `terminate_proc` of src/process.c on the queue of processes.
use nibras_os.Prelude.{
  ℕ, zero, suc, ◌+◌, ◌<◌, ◌≡◌, refl, ◌≢◌, Option, none, some, List, [], ◌∷◌, ◌++◌, arith, get_or,
  ap, sym, ◌∙◌, get_elem?,
}
use nibras_os.Scheduler.{
  Tasks, Proc, Regs, max_process_count, put, save_context, load_context, fork, fork_current,
  fork_begin, fork_child, queue_insert, queue_remove, terminate_proc, terminate_current, release,
  sched, sched_current, sched_first, run_idle, queue_peek, resume, zero_proc, free_pages, pid_of,
}
use nibras_os.Scheduler.Queue.{Queued, queue_insert-Queued, queue_remove-Queued}
use nibras_os.Scheduler.Switch.{Running, returned, put_self, put-ne}

fork-current :
    (s s1 : Tasks) (r : Regs) (p child pd : ℕ)
    → s.current_process ≡ some p
    → queue_insert (fork_child p child pd (fork_begin p child s r) r) (some child) ≡ some s1
    → fork child (some pd) s r ≡ some (s1, pid_of (s.proc_id))
unfolding fork fork_current pid_of
fork-current s s1 r p child pd c e =
    ap (λ o. fork_current o child (some pd) s r) c
    ∙ ap (λ o. elim o [ none ↦ none | some s1 ↦ some (s1, pid_of (s.proc_id)) ]) e

-- Unless the array of the ready queue is full, and when the child's memory is not the parent's and
-- its address space can be cloned, the child waits after `fork` at the end of the queue with the
-- new number and address space and all registers of the parent but the kernel stack pointer, eax
-- included, so that it does not see the result 0; the parent goes on running, and no other process
-- changes.
pub fork-Running :
    (s : Tasks) (r : Regs) (p child pd : ℕ) (q : List ℕ)
    → Running s (p ∷ q)
    → child ≢ p
    → s.queue_last < max_process_count
    → (s1 : Tasks) × (fork child (some pd) s r ≡ some (s1, pid_of (s.proc_id)))
      × Running s1 (p ∷ q ++ child ∷ [])
      × ((s1.procs child).pid ≡ pid_of (s.proc_id))
      × ((s1.procs child).pd ≡ pd)
      × (load_context ((s1.procs child).context) ≡ record (returned r) { esp = s.kernel_stack_top })
      × ((s1.procs p).context ≡ save_context r)
      × ((x : ℕ) → x ≢ p → x ≢ child → s1.procs x ≡ s.procs x)
unfolding fork_begin fork_child save_context load_context pid_of
fork-Running s r p child pd q (w, c) ne lt =
    let s0 = fork_child p child pd (fork_begin p child s r) r in
    let saved = record (s.procs p) { context = save_context r; next = some child } in
    let newborn = record zero_proc { pid = pid_of (s.proc_id); next = (s.procs p).next } in
    let begun = put (put (s.procs) p saved) child newborn in
    let grown = record (begun child) {
      pd = pd;
      context = record (save_context r) { kern_esp = s.kernel_stack_top };
    } in
    let (s1, e, w1, (a, i, k, f, g), f1, l1) = queue_insert-Queued s0 (p ∷ q) child w lt in
    let child_is : s1.procs child ≡ grown = ap (λ t. t child) a ∙ put_self begun child grown in
    let pid_is : grown.pid ≡ pid_of (s.proc_id) =
      ap (λ t. t.pid) (put_self (put (s.procs) p saved) child newborn) in
    let other : (x : ℕ) → x ≢ child → s1.procs x ≡ put (s.procs) p saved x = λ x n.
      ap (λ t. t x) a
      ∙ put-ne begun child x grown n
      ∙ put-ne (put (s.procs) p saved) child x newborn n in
    (
      s1,
      fork-current s s1 r p child pd c e,
      (w1, g ∙ c),
      ap (λ t. t.pid) child_is ∙ pid_is,
      ap (λ t. t.pd) child_is,
      ap (λ t. load_context (t.context)) child_is,
      ap (λ t. t.context) (other p (λ z. ne (sym z)) ∙ put_self (s.procs) p saved),
      λ x np nc. other x nc ∙ put-ne (s.procs) p x saved np,
    )

get_or-some :
    (slots : List (Option ℕ)) (i p : ℕ)
    → get_or slots i none ≡ some p
    → get_elem? slots i ≡ some (some p)
get_or-some [] i p e = cc
get_or-some (x ∷ slots) zero p e = ap some e
get_or-some (x ∷ slots) (suc i) p e = get_or-some slots i p e

queue_peek-Queued :
    (s : Tasks) (p : ℕ) (q : List ℕ) → Queued s (p ∷ q) → queue_peek s ≡ some (some p)
unfolding queue_peek
queue_peek-Queued s p q (slots, e, n, l, b, h) =
    let z : s.queue_first + 0 ≡ s.queue_first = omega arith in
    let front : get_or slots (s.queue_first) none ≡ some p = rw z at (h 0 (omega arith)) in
    ap (λ o. elim o [ none ↦ none | some slots ↦ get_elem? slots (s.queue_first) ]) e
    ∙ get_or-some slots (s.queue_first) p front

sched-Queued :
    (s : Tasks) (r : Regs) (p : ℕ) (q : List ℕ)
    → Queued s (p ∷ q)
    → s.current_process ≡ none
    → sched s r ≡ some (resume s p)
unfolding sched sched_current sched_first
sched-Queued s r p q (slots, e, n, l, b, h) c =
    ap (λ o. sched_current o s r) c
    ∙ ap (λ o. elim o [ none ↦ some (s, r) | some slots ↦ sched_first s r ]) e
    ∙ ap
        (λ o. elim o [
          | none ↦ none
          | some none ↦ some (run_idle s r)
          | some (some p) ↦ some (resume s p)
        ])
        (queue_peek-Queued s p q (slots, e, n, l, b, h))

terminate-current :
    (s s1 : Tasks) (r : Regs) (p : ℕ) (next : Option ℕ)
    → s.current_process ≡ some p
    → queue_remove s ≡ some (s1, next)
    → terminate_proc s r ≡ sched (release s1 p) r
unfolding terminate_proc terminate_current
terminate-current s s1 r p next c e =
    ap (λ o. terminate_current o s r) c
    ∙ ap (λ o. elim o [ none ↦ none | some (s1, next) ↦ sched (release s1 p) r ]) e

-- When another process waits behind the running one, terminating the running process calls
-- vm_free_page for each of its pages in its page directory and then for the page directory itself
-- in that of the kernel, in this order, takes it out of the queue and clears its memory; the
-- process behind it runs, with its own registers. What the calls do to the pages is not stated.
pub terminate_proc-Running :
    (s : Tasks) (r : Regs) (p x : ℕ) (q : List ℕ)
    → Running s (p ∷ x ∷ q)
    → x ≢ p
    → (s1 : Tasks) × (terminate_proc s r ≡ some (s1, load_context ((s.procs x).context)))
      × Running s1 (x ∷ q)
      × (s1.procs p ≡ zero_proc)
      × (s1.page_directory ≡ (s.procs x).pd)
      × (s1.freed
          ≡ s.freed
            ++ free_pages ((s.procs p).pd) ((s.procs p).pages)
            ++ (s.kernel_page_directory, (s.procs p).pd) ∷ [])
unfolding release resume
terminate_proc-Running s r p x q (w, c) ne =
    let (s1, e, w1, (a, i, k, f, g), f1, l1) = queue_remove-Queued s p (x ∷ q) w (omega arith) in
    let s2 = release s1 p in
    let same : s2.procs x ≡ s.procs x = put-ne (s1.procs) p x zero_proc ne ∙ ap (λ t. t x) a in
    (
      (resume s2 x).0,
      terminate-current s s1 r p (some x) c e
          ∙ sched-Queued s2 r x q w1 refl
          ∙ ap (λ t. some ((resume s2 x).0, load_context (t.context))) same,
      (w1, refl),
      put_self (s1.procs) p zero_proc,
      ap (λ t. t.pd) same,
      freed_same (s.freed) (s1.freed) (s.kernel_page_directory) (s1.kernel_page_directory)
          (s.procs p) (s1.procs p) f k (ap (λ t. t p) a),
    )
  where
    freed_same :
        (l l1 : List (ℕ × ℕ)) (k k1 : ℕ) (t t1 : Proc)
        → l1 ≡ l
        → k1 ≡ k
        → t1 ≡ t
        → l1 ++ free_pages (t1.pd) (t1.pages) ++ (k1, t1.pd) ∷ []
          ≡ l ++ free_pages (t.pd) (t.pages) ++ (k, t.pd) ∷ []
    freed_same l l1 k k1 t t1 e f g = rw (e, f, g) refl
