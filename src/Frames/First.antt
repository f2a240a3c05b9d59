-- ===== src/Frames/First.antt =====
-- That `mem_find_first_free_frames` of src/memory.c finds the first start of a run that it accepts.
use native.Mathlib.Decide.{dec_le}
use nibras_os.Prelude.{
  ℕ, zero, suc, ◌+◌, ◌*◌, ◌/◌, ◌%◌, ◌^◌, ◌≤◌, ◌<◌, ◌≡◌, inl, inr, some, List, arith, ◌==◌,
  Bool-cases, Option-cases, get_or, ==→eq, bit_and, ◌&&◌,
}
use nibras_os.Frames.{window_free, run_in_cell, first_run, full_cell}
use nibras_os.Frames.Search.{full_cell-bit}
use nibras_os.Frames.Windows.{NoRun, NoRun-here, run_in_cell-some, run_in_cell-none}

run_in_cell-first :
    (n j i : ℕ) (cells : List ℕ) (size c k : ℕ)
    → 0 < size
    → j + n ≤ 32
    → run_in_cell n j i cells size ≡ some c
    → j ≤ k
    → i * 32 + k < c
    → NoRun cells size (i * 32 + k)
unfolding run_in_cell
run_in_cell-first zero j i cells size c k pos fits h lo hi = cc
run_in_cell-first (suc n) j i cells size c k pos fits h lo hi =
    elim (Bool-cases (
      bit_and (get_or cells i 0) (2 ^ j) == 0
      && window_free (size + 1) cells (i * 32 + j) size 0)) [
        | inl yes_here ↦
            let e : some (i * 32 + j) ≡ some c = rw yes_here at h in
            let same : i * 32 + j ≡ c = cc in absurd (omega arith)
        | inr not_here ↦
            let e : run_in_cell n (j + 1) i cells size ≡ some c = rw not_here at h in
            elim (Bool-cases (j == k)) [
              | inl same ↦
                  rw (← ==→eq j k same) (NoRun-here j i cells size pos (omega arith) not_here)
              | inr differs ↦
                  run_in_cell-first n (j + 1) i cells size c k pos (omega arith) e (ground arith) hi
            ]
      ]

-- No frame before the one that is found starts a run.
pub first_run-first :
    (n i : ℕ) (cells : List ℕ) (size c b : ℕ)
    → 0 < size
    → first_run n i cells size ≡ some c
    → i * 32 ≤ b
    → b < c
    → NoRun cells size b
unfolding first_run
first_run-first zero i cells size c b pos h lo hi = cc
first_run-first (suc n) i cells size c b pos h lo hi =
    let q : b < (i + 1) * 32 → b / 32 ≡ i = λ l. omega arith in
    elim (Bool-cases (get_or cells i 0 == full_cell)) [
      | inl full ↦ elim (dec_le ((i + 1) * 32) b) [
        | yes later ↦ first_run-first n (i + 1) cells size c b pos (rw full at h) later hi
        | no here ↦ inl (
            rw (q (omega arith), ==→eq (get_or cells i 0) full_cell full)
              (full_cell-bit (b % 32) (omega arith)))
      ]
      | inr open_cell ↦ elim (Option-cases (run_in_cell 32 0 i cells size)) [
        | inl e ↦ elim (dec_le ((i + 1) * 32) b) [
          | yes later ↦
              first_run-first n (i + 1) cells size c b pos (rw (open_cell, e) at h) later hi
          | no here ↦
              let place : i * 32 + b % 32 ≡ b = omega (arith, q (omega arith)) in
              rw (← place) (
                run_in_cell-none 32 0 i cells size (b % 32) pos (omega arith) e (omega arith)
                  (omega arith))
        ]
        | inr (k, e) ↦
            let e' : some k ≡ some c = rw (open_cell, e) at h in
            let same : k ≡ c = cc in
            let r = run_in_cell-some 32 0 i cells size k pos (omega arith) e in
            let end = r.1 in
            let place : i * 32 + b % 32 ≡ b = omega (arith, q (omega arith)) in
            rw (← place) (
              run_in_cell-first 32 0 i cells size k (b % 32) pos (omega arith) e (omega arith)
                (omega arith))
      ]
    ]
