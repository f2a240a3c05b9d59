-- ===== src/Frames/Search.antt =====
-- The searches of src/memory.c: which bit they stop at.
use nibras_os.Prelude.{
  ℕ, zero, suc, ◌+◌, ◌*◌, ◌/◌, ◌%◌, ◌≤◌, ◌<◌, ◌≡◌, ◌⊎◌, inl, inr, none, some, List, arith, true,
  bit, bit-lt, bit_and-pow_eq_zero, bit_and-pow_ne_zero, ◌==◌, ne→==, eq→==, Bool-cases,
  Option-cases, get_or, bit-complement, bit-zero, ==→eq,
}
use nibras_os.Frames.{free_bit, first_free, full_cell}

-- The bit of frame `i`: 1 for a frame in use.
abbrev pub frame_bit : List ℕ → ℕ → ℕ
frame_bit cells i = bit (get_or cells (i / 32) 0) (i % 32)

pub bit-cases : (a k : ℕ) → (bit a k ≡ 0) ⊎ (bit a k ≡ 1)
bit-cases a k = omega (arith, bit-lt a k)

pub full_cell-bit : (j : ℕ) → j < 32 → bit full_cell j ≡ 1
full_cell-bit j h = omega (arith, bit-complement 32 0 j (omega arith) h, bit-zero j)

-- What `free_bit` returns is the first clear bit.
pub record FirstClear (w j k : ℕ) : Type 0 where
  pub from : j ≤ k
  pub clear : bit w k ≡ 0
  pub first : (i : ℕ) → j ≤ i → i < k → bit w i ≡ 1

FirstClear-step : (w j k : ℕ) → bit w j ≡ 1 → FirstClear w (j + 1) k → FirstClear w j k
FirstClear-step w j k used f = record {
  from = omega (arith, f.from);
  clear = f.clear;
  first = λ i lo hi. elim (Bool-cases (i == j)) [
    | inl e ↦ rw (==→eq i j e) used
    | inr e ↦ f.first i (ground arith) hi
  ];
}

free_bit-some : (n j w k : ℕ) → free_bit n j w ≡ some k → FirstClear w j k × (k < j + n)
unfolding free_bit
free_bit-some zero j w k h = cc
free_bit-some (suc n) j w k h = elim (bit-cases w j) [
  | inl clear ↦
      let e : some j ≡ some k = rw (eq→== _ 0 (bit_and-pow_eq_zero w j clear)) at h in
      let e' : j ≡ k = cc in
      (
        record {
          from = omega arith;
          clear = rw (← e') clear;
          first = λ i lo hi. absurd (omega arith);
        },
        omega arith,
      )
  | inr used ↦
      let e : free_bit n (j + 1) w ≡ some k = rw (ne→== _ 0 (bit_and-pow_ne_zero w j used)) at h in
      let r = free_bit-some n (j + 1) w k e in (FirstClear-step w j k used r.0, omega (arith, r.1))
]

free_bit-none : (n j w : ℕ) → free_bit n j w ≡ none → (i : ℕ) → j ≤ i → i < j + n → bit w i ≡ 1
unfolding free_bit
free_bit-none zero j w h i lo hi = absurd (omega arith)
free_bit-none (suc n) j w h i lo hi = elim (bit-cases w j) [
  | inl clear ↦ let e : some j ≡ none = rw (eq→== _ 0 (bit_and-pow_eq_zero w j clear)) at h in cc
  | inr used ↦
      let e : free_bit n (j + 1) w ≡ none = rw (ne→== _ 0 (bit_and-pow_ne_zero w j used)) at h in
      elim (Bool-cases (i == j)) [
        | inl same ↦ rw (==→eq i j same) used
        | inr other ↦ free_bit-none n (j + 1) w e i (ground arith) (omega arith)
      ]
]

-- What the search over the cells from `i` on returns is the first free frame.
pub record FirstFree (cells : List ℕ) (i k : ℕ) : Type 0 where
  pub from : i * 32 ≤ k
  pub clear : frame_bit cells k ≡ 0
  pub first : (b : ℕ) → i * 32 ≤ b → b < k → frame_bit cells b ≡ 1

-- Every frame of cell `i` is in use.
abbrev CellFull : List ℕ → ℕ → Type 0
CellFull cells i = (j : ℕ) → j < 32 → bit (get_or cells i 0) j ≡ 1

in_cell :
    (cells : List ℕ) (i b : ℕ)
    → CellFull cells i
    → i * 32 ≤ b
    → b < (i + 1) * 32
    → frame_bit cells b ≡ 1
in_cell cells i b full lo hi =
    let e : b / 32 ≡ i = omega arith in rw e (full (b % 32) (omega arith))

FirstFree-step :
    (cells : List ℕ) (i k : ℕ) → CellFull cells i → FirstFree cells (i + 1) k → FirstFree cells i k
FirstFree-step cells i k full f = record {
  from = omega (arith, f.from);
  clear = f.clear;
  first = λ b lo hi. elim (Bool-cases (b / 32 == i)) [
    | inl e ↦ in_cell cells i b full lo (omega (arith, ==→eq (b / 32) i e))
    | inr e ↦ f.first b (ground arith) hi
  ];
}

FirstFree-here :
    (cells : List ℕ) (i j : ℕ)
    → j < 32
    → FirstClear (get_or cells i 0) 0 j
    → FirstFree cells i (i * 32 + j)
FirstFree-here cells i j hj f =
    let q : (i * 32 + j) / 32 ≡ i = omega arith in
    let r : (i * 32 + j) % 32 ≡ j = omega arith in
    record {
      from = omega arith;
      clear = rw (q, r) f.clear;
      first = λ b lo hi.
          let q' : b / 32 ≡ i = omega arith in rw q' (f.first (b % 32) (omega arith) (omega arith));
    }

cell_full : (cells : List ℕ) (i : ℕ) → (get_or cells i 0 == full_cell) ≡ true → CellFull cells i
cell_full cells i e j h = rw (==→eq _ full_cell e) (full_cell-bit j h)

pub first_free-some :
    (n i : ℕ) (cells : List ℕ) (k : ℕ)
    → first_free n i cells ≡ some k
    → FirstFree cells i k × (k < (i + n) * 32)
unfolding first_free
first_free-some zero i cells k h = cc
first_free-some (suc n) i cells k h = elim (Bool-cases (get_or cells i 0 == full_cell)) [
  | inl full ↦
      let e : first_free n (i + 1) cells ≡ some k = rw full at h in
      let r = first_free-some n (i + 1) cells k e in
      (FirstFree-step cells i k (cell_full cells i full) r.0, omega (arith, r.1))
  | inr open_cell ↦ elim (Option-cases (free_bit 32 0 (get_or cells i 0))) [
    | inl e ↦
        let e' : first_free n (i + 1) cells ≡ some k = rw (open_cell, e) at h in
        let r = first_free-some n (i + 1) cells k e' in
        (
          FirstFree-step cells i k
              (λ j hj. free_bit-none 32 0 (get_or cells i 0) e j (omega arith) (omega arith)) r.0,
          omega (arith, r.1),
        )
    | inr (j, e) ↦
        let e' : some (i * 32 + j) ≡ some k = rw (open_cell, e) at h in
        let k' : i * 32 + j ≡ k = cc in
        let r = free_bit-some 32 0 (get_or cells i 0) j e in
        rw (← k') (FirstFree-here cells i j (omega (arith, r.1)) r.0, omega (arith, r.1))
  ]
]

-- The frames of a full cell and of those behind it.
used_from :
    (cells : List ℕ) (i b : ℕ)
    → CellFull cells i
    → i * 32 ≤ b
    → ((i + 1) * 32 ≤ b → frame_bit cells b ≡ 1)
    → frame_bit cells b ≡ 1
used_from cells i b full lo rest = elim (Bool-cases (b / 32 == i)) [
  | inl q ↦ in_cell cells i b full lo (omega (arith, ==→eq (b / 32) i q))
  | inr q ↦ rest (ground arith)
]

pub first_free-none :
    (n i : ℕ) (cells : List ℕ)
    → first_free n i cells ≡ none
    → (b : ℕ) → i * 32 ≤ b
    → b < (i + n) * 32
    → frame_bit cells b ≡ 1
unfolding first_free
first_free-none zero i cells h b lo hi = absurd (omega arith)
first_free-none (suc n) i cells h b lo hi = elim (Bool-cases (get_or cells i 0 == full_cell)) [
  | inl full ↦
      let e : first_free n (i + 1) cells ≡ none = rw full at h in
      used_from cells i b (cell_full cells i full) lo
        (λ l. first_free-none n (i + 1) cells e b l (omega arith))
  | inr open_cell ↦ elim (Option-cases (free_bit 32 0 (get_or cells i 0))) [
    | inl e ↦
        let e' : first_free n (i + 1) cells ≡ none = rw (open_cell, e) at h in
        used_from cells i b
          (λ j hj. free_bit-none 32 0 (get_or cells i 0) e j (omega arith) (omega arith)) lo
          (λ l. first_free-none n (i + 1) cells e' b l (omega arith))
    | inr (j, e) ↦ let e' : some (i * 32 + j) ≡ none = rw (open_cell, e) at h in cc
  ]
]
