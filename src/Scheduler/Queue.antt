-- ===== src/Scheduler/Queue.antt =====
-- The ready queue of src/process.c as a list: the slots between `queue_first` and `queue_last`.
use nibras_os.Prelude.{
  ℕ, zero, suc, ◌+◌, ◌%◌, ◌≤◌, ◌<◌, ◌≡◌, refl, inl, inr, Option, none, some, List, [], ◌∷◌, ◌++◌,
  arith, ltb, lt→ltb, length, length-append, length-set, get_or, get_or-set_self, get_or-set_ne,
  set, Bool-cases, ◌∙◌,
}
use nibras_os.Scheduler.{Tasks, max_process_count, queue_insert, queue_remove, insert_slot, switch}

-- The processes `q` wait in the slots from `first` on.
abbrev pub Slots : List (Option ℕ) → ℕ → List ℕ → Type 0
Slots slots first q = (i : ℕ) → i < length q → get_or slots (first + i) none ≡ some (get_or q i 0)

-- The queue of `s` is `q`, in an array of 512 slots that is not left.
abbrev pub Queued : Tasks → List ℕ → Type 0
Queued s q =
    (slots : List (Option ℕ)) × (s.ready_queue ≡ some slots)
    × (length slots ≡ max_process_count)
    × (s.queue_last ≡ s.queue_first + length q)
    × (s.queue_last ≤ max_process_count)
    × Slots slots (s.queue_first) q

pub get_or-append_left : (q r : List ℕ) (i : ℕ) → i < length q → get_or (q ++ r) i 0 ≡ get_or q i 0
get_or-append_left [] r i l = absurd (omega arith)
get_or-append_left (p ∷ q) r zero l = refl
get_or-append_left (p ∷ q) r (suc i) l = get_or-append_left q r i (omega arith)

pub get_or-append_last : (q : List ℕ) (p i : ℕ) → i ≡ length q → get_or (q ++ p ∷ []) i 0 ≡ p
get_or-append_last [] p zero e = refl
get_or-append_last [] p (suc i) e = absurd (omega arith)
get_or-append_last (x ∷ q) p zero e = absurd (omega arith)
get_or-append_last (x ∷ q) p (suc i) e = get_or-append_last q p i (omega arith)

-- Writing the slot behind the last adds a process, clearing the first slot drops one.
Slots-insert :
    (slots : List (Option ℕ)) (first : ℕ) (q : List ℕ) (p : ℕ)
    → Slots slots first q
    → first + length q < length slots
    → Slots (set slots (first + length q) (some p)) first (q ++ p ∷ [])
Slots-insert slots first q p h l i b = elim (Bool-cases (ltb i (length q))) [
  | inl lt ↦
      let lt' : i < length q = ground arith in
      rw
        (
          get_or-set_ne slots (first + length q) (first + i) (some p) none (omega arith),
          get_or-append_left q (p ∷ []) i lt',
        )
        (h i lt')
  | inr ge ↦
      let e : i ≡ length q = ground (arith, length-append q (p ∷ [])) in
      rw (get_or-append_last q p i e, e) (get_or-set_self slots (first + length q) (some p) none l)
]

Slots-remove :
    (slots : List (Option ℕ)) (first p : ℕ) (q : List ℕ)
    → Slots slots first (p ∷ q)
    → Slots (set slots first none) (first + 1) q
Slots-remove slots first p q h i b =
    let e : first + 1 + i ≡ first + suc i = omega arith in
    rw (get_or-set_ne slots first (first + 1 + i) none none (omega arith), e)
      (h (suc i) (omega arith))

-- `s1` is `s` but for the queue.
abbrev pub SameTasks : Tasks → Tasks → Type 0
SameTasks s s1 =
    (s1.procs ≡ s.procs)
    × (s1.proc_id ≡ s.proc_id)
    × (s1.kernel_page_directory ≡ s.kernel_page_directory)
    × (s1.freed ≡ s.freed)
    × (s1.current_process ≡ s.current_process)

pub queue_insert-Queued :
    (s : Tasks) (q : List ℕ) (p : ℕ)
    → Queued s q
    → s.queue_last < max_process_count
    → (s1 : Tasks) × (queue_insert s (some p) ≡ some s1)
      × Queued s1 (q ++ p ∷ [])
      × SameTasks s s1
      × (s1.queue_first ≡ s.queue_first)
      × (s1.queue_last ≡ s.queue_last + 1)
unfolding queue_insert insert_slot
queue_insert-Queued s q p (slots, e, n, l, b, h) lt = (
  record s {
    ready_queue = some (set slots (s.queue_last) (some p));
    queue_last = s.queue_last + 1;
    procs_count = (s.procs_count + 1) % 4294967296;
  },
  rw (e, lt→ltb (s.queue_last) (length slots) (omega arith)) refl,
  (
    set slots (s.queue_last) (some p),
    refl,
    omega (arith, length-set slots (s.queue_last) (some p)),
    omega (arith, length-append q (p ∷ [])),
    omega arith,
    rw l (Slots-insert slots (s.queue_first) q p h (omega arith)),
  ),
  (refl, refl, refl, refl, refl),
  refl,
  refl,
)

pub queue_remove-Queued :
    (s : Tasks) (p : ℕ) (q : List ℕ)
    → Queued s (p ∷ q)
    → 0 < length q
    → (s1 : Tasks) × (queue_remove s ≡ some (s1, some (get_or q 0 0)))
      × Queued s1 q
      × SameTasks s s1
      × (s1.queue_first ≡ s.queue_first + 1)
      × (s1.queue_last ≡ s.queue_last)
unfolding queue_remove
queue_remove-Queued s p q (slots, e, n, l, b, h) k =
    let cleared = set slots (s.queue_first) none in
    let rest = Slots-remove slots (s.queue_first) p q h in
    let z : s.queue_first + 1 + 0 ≡ s.queue_first + 1 = omega arith in
    let first : get_or cleared (s.queue_first + 1) none ≡ some (get_or q 0 0) =
      rw z at (rest 0 k) in
    (
      record s {
        ready_queue = some cleared;
        procs_count = (s.procs_count + 4294967295) % 4294967296;
        queue_first = s.queue_first + 1;
      },
      rw (queue_remove, e, lt→ltb (s.queue_first + 1) (length slots) (omega arith), first) refl,
      (
        cleared,
        refl,
        omega (arith, length-set slots (s.queue_first) none),
        omega arith,
        omega arith,
        rest,
      ),
      (refl, refl, refl, refl, refl),
      refl,
      refl,
    )

-- The first process leaves the queue, the current one joins it at the end, and the next one is the
-- first of what results.
pub switch-Queued :
    (s : Tasks) (p : ℕ) (q : List ℕ)
    → Queued s (p ∷ q)
    → s.queue_last < max_process_count
    → (s1 : Tasks) × (switch s p ≡ some (s1, get_or (q ++ p ∷ []) 0 0))
      × Queued s1 (q ++ p ∷ [])
      × SameTasks s s1
      × (s1.queue_last ≡ s.queue_last + 1)
unfolding switch
switch-Queued s p q w lt =
    let (s1, e1, w1, (a1, b1, c1, d1, g1), f1, l1) = queue_insert-Queued s (p ∷ q) p w lt in
    let (s2, e2, w2, (a2, b2, c2, d2, g2), f2, l2) =
      queue_remove-Queued s1 p (q ++ p ∷ []) w1 (omega (arith, length-append q (p ∷ []))) in
    (s2, rw (switch, e1, e2) refl, w2, (a2 ∙ a1, b2 ∙ b1, c2 ∙ c1, d2 ∙ d1, g2 ∙ g1), l2 ∙ l1)
