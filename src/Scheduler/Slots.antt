-- ===== src/Scheduler/Slots.antt =====
-- The slots of the ready queue of src/process.c: `queue_insert` takes a new one for each switch.
use native.Mathlib.Decide.{dec_le}
use nibras_os.Prelude.{
  ℕ, ◌+◌, ◌≤◌, ◌<◌, ◌≡◌, refl, ◌⊎◌, inl, inr, none, some, List, [], ◌∷◌, ◌++◌, arith, length,
  length-append,
}
use nibras_os.Scheduler.{Tasks, Regs, max_process_count}
use nibras_os.Scheduler.Switch.{Running, run_sched, sched-Switched, sched-overflow}

-- A run of switches has the slots that it takes, one for each switch, or it writes behind the array.
abbrev pub Runs : List Regs → Tasks → Regs → Type 0
Runs rs s r0 =
    ((s.queue_last + length rs ≤ max_process_count)
      × ((s1 : Tasks) × (r1 : Regs) × (run_sched rs s r0 ≡ some (s1, r1))
          × (s1.queue_last ≡ s.queue_last + length rs)))
    ⊎ ((max_process_count < s.queue_last + length rs) × (run_sched rs s r0 ≡ none))

Runs-from :
    (rs : List Regs) (s : Tasks) (r0 : Regs) (q : List ℕ)
    → Running s q
    → 0 < length q
    → Runs rs s r0
unfolding run_sched
Runs-from [] s r0 q ((slots, e, n, l, b, h), c) some_q =
    inl (omega arith, (s, r0, refl, omega arith))
Runs-from (r ∷ rs) s r0 [] w some_q = absurd (omega arith)
Runs-from (r ∷ rs) s r0 (p ∷ q) w some_q = elim (dec_le max_process_count (s.queue_last)) [
  | yes full ↦
      let ((slots, e, n, l, b, h), c) = w in
      inr (omega arith, rw (run_sched, sched-overflow s r p q w (omega arith)) refl)
  | no free ↦
      let (s1, r1, e, w1, sw, last) = sched-Switched s r p q w (omega arith) in
      elim (Runs-from rs s1 r1 (q ++ p ∷ []) w1 (omega (arith, length-append q (p ∷ [])))) [
        | inl (room, (s2, r2, e2, last2)) ↦
            inl (omega arith, (s2, r2, rw (run_sched, e) e2, omega arith))
        | inr (over, stops) ↦ inr (omega arith, rw (run_sched, e) stops)
      ]
]

-- The array of the ready queue holds 512 slots and none of them is used again: of a running
-- process, a run of switches takes one more slot for each of them, and ends without writing behind
-- the array exactly when as many slots are left.
pub run_sched-Runs :
    (rs : List Regs) (s : Tasks) (r0 : Regs) (p : ℕ) (q : List ℕ) → Running s (p ∷ q) → Runs rs s r0
run_sched-Runs rs s r0 p q w = Runs-from rs s r0 (p ∷ q) w (omega arith)
