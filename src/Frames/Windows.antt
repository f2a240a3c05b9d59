-- ===== src/Frames/Windows.antt =====
-- The search of `mem_find_first_free_frames` of src/memory.c for a run of frames: the windows it accepts.
use nibras_os.Prelude.{
  ℕ, zero, suc, ◌+◌, ◌*◌, ◌/◌, ◌%◌, ◌^◌, ◌≤◌, ◌<◌, ◌≡◌, refl, ◌⊎◌, ◌↔◌, inl, inr, Bool, true, false,
  none, some, List, arith, ◌==◌, Bool-cases, Option-cases, get_or, ==→eq, ne→==, eq→==, bit_and,
  bit-lt, bit_and-pow_eq_zero, bit_and-pow_ne_zero, if◌then◌else◌, ◌&&◌,
}
use native.Mathlib.Decide.{dec_le}
use nibras_os.Frames.{mem_test_bit, window_free, run_in_cell, first_run, full_cell}
use nibras_os.Frames.Search.{frame_bit, bit-cases, full_cell-bit}

-- `mem_test_bit` tells the two values of a frame's bit apart.
pub mem_test_bit_lem :
    (cells : List ℕ) (b : ℕ) → (mem_test_bit cells b == 0) ≡ (frame_bit cells b == 0)
unfolding mem_test_bit
mem_test_bit_lem cells b = elim (Bool-cases (frame_bit cells b == 0)) [
  | inl e ↦
      rw (eq→== _ 0 (bit_and-pow_eq_zero (get_or cells (b / 32) 0) (b % 32) (==→eq _ 0 e)), e) refl
  | inr e ↦
      rw
        (
          ne→== _ 0 (
              bit_and-pow_ne_zero (get_or cells (b / 32) 0) (b % 32)
                (ground (arith, bit-lt (get_or cells (b / 32) 0) (b % 32)))),
          e,
        )
        refl
]

-- How many of the `n` frames from `b` on are free.
pub count_free : ℕ → List ℕ → ℕ → ℕ
count_free zero cells b = 0
count_free (suc n) cells b = (if frame_bit cells b == 0 then 1 else 0) + count_free n cells (b + 1)

window_free_count :
    (n : ℕ) (cells : List ℕ) (b size free : ℕ)
    → free < size
    → (window_free n cells b size free ≡ true) ↔ (size ≤ free + count_free n cells b)
unfolding window_free count_free
window_free_count zero cells b size free h = ground arith
window_free_count (suc n) cells b size free h = elim (Bool-cases (frame_bit cells b == 0)) [
  | inl e ↦
      rw (mem_test_bit_lem cells b, e)
        (elim (Bool-cases (free + 1 == size)) [
          | inl last ↦ rw last ((λ _. ground arith), (λ _. refl))
          | inr more ↦ rw more (
              let ih = window_free_count n cells (b + 1) size (free + 1) (ground arith) in
              ((λ t. omega (arith, ih.0 t)), (λ l. ih.1 (omega arith))))
        ])
  | inr e ↦
      rw (mem_test_bit_lem cells b, e, ne→== free size (omega arith))
        (let ih = window_free_count n cells (b + 1) size free h in
          ((λ t. omega (arith, ih.0 t)), (λ l. ih.1 (omega arith))))
]

-- For a size that is not 0, the window test of `mem_find_first_free_frames` accepts a start exactly
-- when size of the size + 1 frames from it on are free.
pub window_free_iff :
    (cells : List ℕ) (b size : ℕ)
    → 0 < size
    → (window_free (size + 1) cells b size 0 ≡ true) ↔ (size ≤ count_free (size + 1) cells b)
window_free_iff cells b size h =
    let c = window_free_count (size + 1) cells b size 0 h in
    ((λ t. omega (arith, c.0 t)), (λ l. c.1 (omega arith)))

-- So it accepts a start for two frames although the second of them is in use.
pub window_free-gap :
    (cells : List ℕ) (b : ℕ)
    → frame_bit cells b ≡ 0
    → frame_bit cells (b + 1) ≡ 1
    → frame_bit cells (b + 1 + 1) ≡ 0
    → window_free 3 cells b 2 0 ≡ true
unfolding count_free
window_free-gap cells b e₀ e₁ e₂ =
    (window_free_count 3 cells b 2 0 (omega arith)).1 (rw (e₀, e₁, e₂) (omega arith))

-- What the search for a run returns: a free frame with enough free frames in its window.
pub record RunAt (cells : List ℕ) (size b : ℕ) : Type 0 where
  pub clear : frame_bit cells b ≡ 0
  pub enough : size ≤ count_free (size + 1) cells b

both : (a b : Bool) → (a && b) ≡ true → (a ≡ true) × (b ≡ true)
both true b h = (refl, h)
both false b h = cc

run_here :
    (n j i : ℕ) (cells : List ℕ) (size : ℕ)
    → 0 < size
    → j + suc n ≤ 32
    → (bit_and (get_or cells i 0) (2 ^ j) == 0 && window_free (size + 1) cells (i * 32 + j) size 0)
      ≡ true
    → RunAt cells size (i * 32 + j) × (i * 32 + j < (i + 1) * 32)
run_here n j i cells size pos fits h =
    let q : (i * 32 + j) / 32 ≡ i = omega arith in
    let r : (i * 32 + j) % 32 ≡ j = omega arith in
    let t = both _ _ h in
    (
      record {
        clear =
            rw (q, r)
              (elim (bit-cases (get_or cells i 0) j) [
                | inl clear ↦ clear
                | inr used ↦ absurd (
                    bit_and-pow_ne_zero (get_or cells i 0) j used
                      (==→eq (bit_and (get_or cells i 0) (2 ^ j)) 0 t.0))
              ]);
        enough = (window_free_iff cells (i * 32 + j) size pos).0 t.1;
      },
      omega arith,
    )

pub run_in_cell-some :
    (n j i : ℕ) (cells : List ℕ) (size b : ℕ)
    → 0 < size
    → j + n ≤ 32
    → run_in_cell n j i cells size ≡ some b
    → RunAt cells size b × (b < (i + 1) * 32)
unfolding run_in_cell
run_in_cell-some zero j i cells size b pos fits h = cc
run_in_cell-some (suc n) j i cells size b pos fits h =
    elim (Bool-cases (
      bit_and (get_or cells i 0) (2 ^ j) == 0
      && window_free (size + 1) cells (i * 32 + j) size 0)) [
        | inl yes_here ↦
            let e : some (i * 32 + j) ≡ some b = rw yes_here at h in
            let e' : i * 32 + j ≡ b = cc in rw (← e') (run_here n j i cells size pos fits yes_here)
        | inr not_here ↦
            let e : run_in_cell n (j + 1) i cells size ≡ some b = rw not_here at h in
            run_in_cell-some n (j + 1) i cells size b pos (omega arith) e
      ]

pub first_run-some :
    (n i : ℕ) (cells : List ℕ) (size b : ℕ)
    → 0 < size
    → first_run n i cells size ≡ some b
    → RunAt cells size b × (b < (i + n) * 32)
unfolding first_run
first_run-some zero i cells size b pos h = cc
first_run-some (suc n) i cells size b pos h = elim (Bool-cases (get_or cells i 0 == full_cell)) [
  | inl full ↦
      let r = first_run-some n (i + 1) cells size b pos (rw full at h) in (r.0, omega (arith, r.1))
  | inr open_cell ↦ elim (Option-cases (run_in_cell 32 0 i cells size)) [
    | inl e ↦
        let r = first_run-some n (i + 1) cells size b pos (rw (open_cell, e) at h) in
        (r.0, omega (arith, r.1))
    | inr (c, e) ↦
        let e' : some c ≡ some b = rw (open_cell, e) at h in
        let c' : c ≡ b = cc in
        let r = run_in_cell-some 32 0 i cells size c pos (omega arith) e in
        rw (← c') (r.0, omega (arith, r.1))
  ]
]

-- A frame where no run of the size starts: it is in use, or too few frames of its window are free.
abbrev pub NoRun : List ℕ → ℕ → ℕ → Type 0
NoRun cells size b = (frame_bit cells b ≡ 1) ⊎ (count_free (size + 1) cells b < size)

pub NoRun-here :
    (j i : ℕ) (cells : List ℕ) (size : ℕ)
    → 0 < size
    → j < 32
    → (bit_and (get_or cells i 0) (2 ^ j) == 0 && window_free (size + 1) cells (i * 32 + j) size 0)
      ≡ false
    → NoRun cells size (i * 32 + j)
NoRun-here j i cells size pos fits h =
    let q : (i * 32 + j) / 32 ≡ i = omega arith in
    let r : (i * 32 + j) % 32 ≡ j = omega arith in
    let w = window_free_iff cells (i * 32 + j) size pos in
    elim (bit-cases (get_or cells i 0) j) [
      | inr used ↦ inl (rw (q, r) used)
      | inl clear ↦
          let zero_bit = eq→== _ 0 (bit_and-pow_eq_zero (get_or cells i 0) j clear) in
          let shut : window_free (size + 1) cells (i * 32 + j) size 0 ≡ false = rw zero_bit at h in
          elim (dec_le size (count_free (size + 1) cells (i * 32 + j))) [
            | yes le ↦ let opened = w.1 le in absurd (cc)
            | no gt ↦ inr (omega arith)
          ]
    ]

pub run_in_cell-none :
    (n j i : ℕ) (cells : List ℕ) (size k : ℕ)
    → 0 < size
    → j + n ≤ 32
    → run_in_cell n j i cells size ≡ none
    → j ≤ k
    → k < j + n
    → NoRun cells size (i * 32 + k)
unfolding run_in_cell
run_in_cell-none zero j i cells size k pos fits h lo hi = absurd (omega arith)
run_in_cell-none (suc n) j i cells size k pos fits h lo hi =
    elim (Bool-cases (
      bit_and (get_or cells i 0) (2 ^ j) == 0
      && window_free (size + 1) cells (i * 32 + j) size 0)) [
        | inl yes_here ↦ let e : some (i * 32 + j) ≡ none = rw yes_here at h in absurd (cc)
        | inr not_here ↦
            let e : run_in_cell n (j + 1) i cells size ≡ none = rw not_here at h in
            elim (Bool-cases (j == k)) [
              | inl same ↦
                  rw (← ==→eq j k same) (NoRun-here j i cells size pos (omega arith) not_here)
              | inr differs ↦
                  run_in_cell-none n (j + 1) i cells size k pos (omega arith) e (ground arith)
                    (omega arith)
            ]
      ]

-- When the search for a run finds none, none of its frames starts one.
pub first_run-none :
    (n i : ℕ) (cells : List ℕ) (size b : ℕ)
    → 0 < size
    → first_run n i cells size ≡ none
    → i * 32 ≤ b
    → b < (i + n) * 32
    → NoRun cells size b
unfolding first_run
first_run-none zero i cells size b pos h lo hi = absurd (omega arith)
first_run-none (suc n) i cells size b pos h lo hi = elim (dec_le ((i + 1) * 32) b) [
  | yes later ↦
      let rest : first_run n (i + 1) cells size ≡ none =
        elim (Bool-cases (get_or cells i 0 == full_cell)) [
          | inl full ↦ rw full at h
          | inr open_cell ↦ elim (Option-cases (run_in_cell 32 0 i cells size)) [
            | inl e ↦ rw (open_cell, e) at h
            | inr (c, e) ↦ let bad : some c ≡ none = rw (open_cell, e) at h in absurd (cc)
          ]
        ] in
      first_run-none n (i + 1) cells size b pos rest (omega arith) (omega arith)
  | no here ↦
      let q : b / 32 ≡ i = omega arith in
      let place : i * 32 + b % 32 ≡ b = omega arith in
      elim (Bool-cases (get_or cells i 0 == full_cell)) [
        | inl full ↦
            inl (
              rw (q, ==→eq (get_or cells i 0) full_cell full)
                (full_cell-bit (b % 32) (omega arith)))
        | inr open_cell ↦ elim (Option-cases (run_in_cell 32 0 i cells size)) [
          | inl e ↦ rw (← place) (
              run_in_cell-none 32 0 i cells size (b % 32) pos (omega arith) e (omega arith)
                (omega arith))
          | inr (c, e) ↦ let bad : some c ≡ none = rw (open_cell, e) at h in absurd (cc)
        ]
      ]
]
