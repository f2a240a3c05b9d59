-- ===== src/Screen/Memory.antt =====
-- Rows of cells of src/screen.c that are moved up or down.
use nibras_os.Prelude.{
  ℕ, zero, suc, ◌+◌, ◌-◌, ◌*◌, ◌≤◌, ◌<◌, ◌&&◌, ◌≡◌, refl, ◌⊎◌, inl, inr, true, false, arith, ◌==◌,
  ltb, leb, Bool-cases, ==→eq, ap, sym, ◌∙◌,
}
use nibras_os.Screen.{video_memory, copy_cells, clear_cells, rows_up, rows_down}

module _ (n dst src : ℕ) (mem : ℕ → ℕ) where
  pub copy_cells_inside : (k : ℕ) → k < n → copy_cells n dst src mem (dst + k) ≡ mem (src + k)
  unfolding copy_cells
  copy_cells_inside k lt =
      let inside : (leb dst (dst + k) && ltb (dst + k) (dst + n)) ≡ true = ground arith in
      let z : dst + k - dst ≡ k = omega arith in rw (inside, z) refl

  pub copy_cells_outside : (a : ℕ) → (a < dst) ⊎ (dst + n ≤ a) → copy_cells n dst src mem a ≡ mem a
  unfolding copy_cells
  copy_cells_outside a out =
      let outside : (leb dst a && ltb a (dst + n)) ≡ false = ground arith in rw outside refl

pub clear_cells_outside :
    (n dst : ℕ) (mem : ℕ → ℕ) (a : ℕ) → (a < dst) ⊎ (dst + n ≤ a) → clear_cells n dst mem a ≡ mem a
unfolding clear_cells
clear_cells_outside n dst mem a out =
    let outside : (leb dst a && ltb a (dst + n)) ≡ false = ground arith in rw outside refl

-- The start of a row.
abbrev pub row : ℕ → ℕ → ℕ
row columns i = video_memory + columns * i

pub row_suc : (columns i : ℕ) → row columns (suc i) ≡ row columns i + columns
row_suc columns i = grind arith

pub row-le : (columns i j : ℕ) → i ≤ j → row columns i ≤ row columns j
row-le columns i j h = grind arith

-- Rows that are not moved keep their cells.
pub rows_up_outside :
    (n i columns : ℕ) (mem : ℕ → ℕ) (a : ℕ)
    → (a < row columns i) ⊎ (row columns (i + n) ≤ a)
    → rows_up n i columns mem a ≡ mem a
unfolding rows_up
rows_up_outside zero i columns mem a out = refl
rows_up_outside (suc n) i columns mem a out =
    let next = row_suc columns i in
    let top = row-le columns (suc i) (i + suc n) (omega arith) in
    let more : row columns (i + 1) ≡ row columns (suc i) = ap (row columns) (omega arith) in
    let end : row columns (i + 1 + n) ≡ row columns (i + suc n) = ap (row columns) (omega arith) in
    rows_up_outside n (i + 1) columns
      (copy_cells columns (row columns i) (row columns i + columns) mem) a (omega arith)
    ∙ copy_cells_outside columns (row columns i) (row columns i + columns) mem a (omega arith)

-- Each of the rows becomes the one behind it.
pub rows_up_inside :
    (n i columns : ℕ) (mem : ℕ → ℕ) (j k : ℕ)
    → i ≤ j
    → j < i + n
    → k < columns
    → rows_up n i columns mem (row columns j + k) ≡ mem (row columns (suc j) + k)
unfolding rows_up
rows_up_inside zero i columns mem j k lo hi lt = absurd (omega arith)
rows_up_inside (suc n) i columns mem j k lo hi lt = elim (Bool-cases (i == j)) [
  | inl e ↦
      let same : i ≡ j = ==→eq i j e in
      let mem1 : ℕ → ℕ = copy_cells columns (row columns i) (row columns i + columns) mem in
      let next = row_suc columns i in
      let more : row columns (i + 1) ≡ row columns (suc i) = ap (row columns) (omega arith) in
      let here : row columns j ≡ row columns i = ap (row columns) (sym same) in
      rows_up_outside n (i + 1) columns mem1 (row columns j + k) (omega arith)
      ∙ ap (λ (a : ℕ). mem1 (a + k)) here
      ∙ copy_cells_inside columns (row columns i) (row columns i + columns) mem k lt
      ∙ ap (λ (a : ℕ). mem (a + k)) (sym next ∙ ap (λ (x : ℕ). row columns (suc x)) same)
  | inr ne ↦
      let mem1 : ℕ → ℕ = copy_cells columns (row columns i) (row columns i + columns) mem in
      let next = row_suc columns i in
      let behind = row-le columns (suc i) (suc j) (omega arith) in
      rows_up_inside n (i + 1) columns mem1 j k (ground arith) (omega arith) lt
      ∙ copy_cells_outside columns (row columns i) (row columns i + columns) mem
          (row columns (suc j) + k) (omega arith)
]

before_row : (columns i : ℕ) → row columns (suc i) - columns ≡ row columns i
before_row columns i = omega (arith, row_suc columns i)

-- The rows from `video_memory` to row `i` are written.
pub rows_down_outside :
    (i columns : ℕ) (mem : ℕ → ℕ) (a : ℕ)
    → (a < video_memory) ⊎ (row columns (suc i) ≤ a)
    → rows_down i columns mem a ≡ mem a
unfolding rows_down
rows_down_outside zero columns mem a out =
    let next = row_suc columns 0 in
    let start : row columns 0 ≡ video_memory = omega arith in
    copy_cells_outside columns video_memory (video_memory - columns) mem a (omega arith)
rows_down_outside (suc i) columns mem a out =
    let next = row_suc columns (suc i) in
    let mid = row-le columns (suc i) (suc (suc i)) (omega arith) in
    let low = row-le columns 0 (suc i) (omega arith) in
    let mem1 : ℕ → ℕ =
      copy_cells columns (row columns (suc i)) (row columns (suc i) - columns) mem in
    rows_down_outside i columns mem1 a (omega arith)
    ∙ copy_cells_outside columns (row columns (suc i)) (row columns (suc i) - columns) mem a
        (omega arith)

-- Each of the rows but row 0 becomes the one before it.
pub rows_down_inside :
    (i columns : ℕ) (mem : ℕ → ℕ) (j k : ℕ)
    → j < i
    → k < columns
    → rows_down i columns mem (row columns (suc j) + k) ≡ mem (row columns j + k)
unfolding rows_down
rows_down_inside zero columns mem j k lo lt = absurd (omega arith)
rows_down_inside (suc i) columns mem j k lo lt =
    let mem1 : ℕ → ℕ =
      copy_cells columns (row columns (suc i)) (row columns (suc i) - columns) mem in
    elim (Bool-cases (i == j)) [
      | inl e ↦
          let same : i ≡ j = ==→eq i j e in
          let here : row columns (suc j) ≡ row columns (suc i) =
            ap (λ (x : ℕ). row columns (suc x)) (sym same) in
          rows_down_outside i columns mem1 (row columns (suc j) + k) (omega arith)
          ∙ ap (λ (a : ℕ). mem1 (a + k)) here
          ∙ copy_cells_inside columns (row columns (suc i)) (row columns (suc i) - columns) mem k lt
          ∙ ap (λ (a : ℕ). mem (a + k)) (before_row columns i ∙ ap (row columns) same)
      | inr ne ↦
          let next = row_suc columns j in
          let behind = row-le columns (suc j) (suc i) (omega arith) in
          rows_down_inside i columns mem1 j k (ground arith) lt
          ∙ copy_cells_outside columns (row columns (suc i)) (row columns (suc i) - columns) mem
              (row columns j + k) (omega arith)
    ]
