-- ===== src/Screen/Lines.antt =====
-- The steps of `scroll_up` and `scroll_down` of src/screen.c: what becomes of each line of memory.
use nibras_os.Prelude.{ℕ, suc, ◌+◌, ◌-◌, ◌*◌, ◌≤◌, ◌<◌, ◌≡◌, refl, ◌⊎◌, arith, lt→ltb, ap, ◌∙◌}
use nibras_os.Screen.{
  Screen, video_memory, copy_cells, clear_cells, rows_up, rows_down, swap_line, scroll_up,
  scroll_down,
}
use nibras_os.Screen.Memory.{
  copy_cells_inside, copy_cells_outside, clear_cells_outside, row, row_suc, row-le, rows_up_outside,
  rows_up_inside, rows_down_outside, rows_down_inside,
}
use nibras_os.Screen.Scrolling.{Elsewhere}

-- Two lines of one length that share no cell.
abbrev pub Disjoint : ℕ → ℕ → ℕ → Type 0
Disjoint columns a b = (a + columns ≤ b) ⊎ (b + columns ≤ a)

pub last_row : (s : Screen) → video_memory + (s.rows - 1) * s.columns ≡ row (s.columns) (s.rows - 1)
last_row s = omega arith

-- The line `up` comes in above, and the last one goes to the line `down`.
module _ (s : Screen) (k : ℕ) (some_rows : 0 < s.rows) (lk : k < s.columns) where
  abbrev pub c : ℕ
  c = s.columns

  abbrev pub last : ℕ
  last = video_memory + (s.rows - 1) * s.columns

  module _ (more : s.vram_up_start < s.vram_up) (up_away : Elsewhere s (s.vram_up - s.columns))
      (down_away : Elsewhere s (s.vram_down))
      (apart : Disjoint (s.columns) (s.vram_up - s.columns) (s.vram_down)) where
    abbrev pub up : ℕ
    up = s.vram_up - s.columns

    abbrev pub kept : ℕ → ℕ
    kept = clear_cells c last (copy_cells c (s.vram_down) last (s.mem))

    abbrev pub moved : ℕ → ℕ
    moved = rows_down (s.rows) c kept

    pub scroll_up_lem : scroll_up s ≡ record s {
      mem = copy_cells c video_memory up moved;
      vram_up = up;
      vram_down = s.vram_down + c;
    }
    unfolding scroll_up swap_line
    scroll_up_lem = rw (lt→ltb (s.vram_up_start) (s.vram_up) more) refl

    -- A place outside the line that is kept and the last row.
    kept_outside :
        (a : ℕ)
        → (a < s.vram_down) ⊎ (s.vram_down + c ≤ a)
        → (a < last) ⊎ (last + c ≤ a)
        → kept a ≡ s.mem a
    kept_outside a o1 o2 =
        clear_cells_outside c last (copy_cells c (s.vram_down) last (s.mem)) a o2
        ∙ copy_cells_outside c (s.vram_down) last (s.mem) a o1

    pub scroll_up_row :
        (j : ℕ) → j < s.rows - 1 → (scroll_up s).mem (row c (suc j) + k) ≡ s.mem (row c j + k)
    scroll_up_row j lj =
        let next = row_suc c j in
        let low = row-le c 0 j (omega arith) in
        let mid = row-le c (suc j) (s.rows - 1) (omega arith) in
        let top = row-le c (s.rows - 1) (suc (s.rows)) (omega arith) in
        let l = last_row s in
        ap (λ (t : Screen). t.mem (row c (suc j) + k)) scroll_up_lem
        ∙ copy_cells_outside c video_memory up moved (row c (suc j) + k) (omega arith)
        ∙ rows_down_inside (s.rows) c kept j k (omega arith) lk
        ∙ kept_outside (row c j + k) (omega arith) (omega arith)

    pub scroll_up_line : (scroll_up s).mem (s.vram_down + k) ≡ s.mem (last + k)
    scroll_up_line =
        let l = last_row s in
        let low = row-le c 0 (s.rows - 1) (omega arith) in
        let one = row_suc c 0 in
        let first = row-le c 1 (suc (s.rows)) (omega arith) in
        let end = row_suc c (s.rows - 1) in
        let top = row-le c (suc (s.rows - 1)) (suc (s.rows)) (omega arith) in
        ap (λ (t : Screen). t.mem (s.vram_down + k)) scroll_up_lem
        ∙ copy_cells_outside c video_memory up moved (s.vram_down + k) (omega arith)
        ∙ rows_down_outside (s.rows) c kept (s.vram_down + k) (omega arith)
        ∙ clear_cells_outside c last (copy_cells c (s.vram_down) last (s.mem)) (s.vram_down + k)
            (omega arith)
        ∙ copy_cells_inside c (s.vram_down) last (s.mem) k lk

    -- The line that came in above is the first row now.
    pub scroll_up-first : (scroll_up s).mem (video_memory + k) ≡ s.mem (up + k)
    scroll_up-first =
        let l = last_row s in
        let low = row-le c 0 (s.rows - 1) (omega arith) in
        let one = row_suc c 0 in
        let first = row-le c 1 (suc (s.rows)) (omega arith) in
        let end = row_suc c (s.rows - 1) in
        let top = row-le c (suc (s.rows - 1)) (suc (s.rows)) (omega arith) in
        ap (λ (t : Screen). t.mem (video_memory + k)) scroll_up_lem
        ∙ copy_cells_inside c video_memory up moved k lk
        ∙ rows_down_outside (s.rows) c kept (up + k) (omega arith)
        ∙ kept_outside (up + k) (omega arith) (omega arith)

    pub scroll_up_frame :
        (a : ℕ)
        → (a < video_memory) ⊎ (row c (suc (s.rows)) ≤ a)
        → (a < s.vram_down) ⊎ (s.vram_down + c ≤ a)
        → (scroll_up s).mem a ≡ s.mem a
    scroll_up_frame a away out =
        let l = last_row s in
        let low = row-le c 0 (s.rows - 1) (omega arith) in
        let one = row_suc c 0 in
        let first = row-le c 1 (suc (s.rows)) (omega arith) in
        let end = row_suc c (s.rows - 1) in
        let top = row-le c (suc (s.rows - 1)) (suc (s.rows)) (omega arith) in
        ap (λ (t : Screen). t.mem a) scroll_up_lem
        ∙ copy_cells_outside c video_memory up moved a (omega arith)
        ∙ rows_down_outside (s.rows) c kept a (omega arith)
        ∙ kept_outside a out (omega arith)

  module _ (more : s.vram_down_start < s.vram_down) (up_away : Elsewhere s (s.vram_up))
      (down_away : Elsewhere s (s.vram_down - s.columns))
      (apart : Disjoint (s.columns) (s.vram_up) (s.vram_down - s.columns)) where
    abbrev pub down : ℕ
    down = s.vram_down - s.columns

    abbrev pub saved : ℕ → ℕ
    saved = clear_cells c video_memory (copy_cells c (s.vram_up) video_memory (s.mem))

    abbrev pub raised : ℕ → ℕ
    raised = rows_up (s.rows) 0 c saved

    pub scroll_down_lem : scroll_down s ≡ record s {
      mem = copy_cells c last down raised;
      vram_up = s.vram_up + c;
      vram_down = down;
    }
    unfolding scroll_down swap_line
    scroll_down_lem =
        let n : s.rows - 1 + 1 - 0 ≡ s.rows = omega arith in
        rw (lt→ltb (s.vram_down_start) (s.vram_down) more, n) refl

    saved_outside :
        (a : ℕ)
        → (a < s.vram_up) ⊎ (s.vram_up + c ≤ a)
        → (a < video_memory) ⊎ (video_memory + c ≤ a)
        → saved a ≡ s.mem a
    saved_outside a o1 o2 =
        clear_cells_outside c video_memory (copy_cells c (s.vram_up) video_memory (s.mem)) a o2
        ∙ copy_cells_outside c (s.vram_up) video_memory (s.mem) a o1

    pub scroll_down_row :
        (j : ℕ) → j < s.rows - 1 → (scroll_down s).mem (row c j + k) ≡ s.mem (row c (suc j) + k)
    scroll_down_row j lj =
        let l = last_row s in
        let next = row_suc c j in
        let after = row_suc c (suc j) in
        let low = row-le c 0 j (omega arith) in
        let mid = row-le c (suc j) (s.rows - 1) (omega arith) in
        let top = row-le c (suc (suc j)) (suc (s.rows)) (omega arith) in
        ap (λ (t : Screen). t.mem (row c j + k)) scroll_down_lem
        ∙ copy_cells_outside c last down raised (row c j + k) (omega arith)
        ∙ rows_up_inside (s.rows) 0 c saved j k (omega arith) (omega arith) lk
        ∙ saved_outside (row c (suc j) + k) (omega arith) (omega arith)

    pub scroll_down-last : (scroll_down s).mem (last + k) ≡ s.mem (down + k)
    scroll_down-last =
        let low = row-le c 0 (s.rows) (omega arith) in
        let top = row-le c (s.rows) (suc (s.rows)) (omega arith) in
        let one = row_suc c 0 in
        let first = row-le c 1 (suc (s.rows)) (omega arith) in
        let z : row c (0 + s.rows) ≡ row c (s.rows) = ap (row c) (omega arith) in
        ap (λ (t : Screen). t.mem (last + k)) scroll_down_lem
        ∙ copy_cells_inside c last down raised k lk
        ∙ rows_up_outside (s.rows) 0 c saved (down + k) (omega arith)
        ∙ saved_outside (down + k) (omega arith) (omega arith)

    -- The first row is saved as the last line above.
    pub scroll_down_line : (scroll_down s).mem (s.vram_up + k) ≡ s.mem (video_memory + k)
    scroll_down_line =
        let l = last_row s in
        let low = row-le c 0 (s.rows - 1) (omega arith) in
        let one = row_suc c 0 in
        let first = row-le c 1 (suc (s.rows)) (omega arith) in
        let end = row_suc c (s.rows - 1) in
        let top = row-le c (suc (s.rows - 1)) (suc (s.rows)) (omega arith) in
        let z : row c (0 + s.rows) ≡ row c (s.rows) = ap (row c) (omega arith) in
        let under = row_suc c (s.rows) in
        ap (λ (t : Screen). t.mem (s.vram_up + k)) scroll_down_lem
        ∙ copy_cells_outside c last down raised (s.vram_up + k) (omega arith)
        ∙ rows_up_outside (s.rows) 0 c saved (s.vram_up + k) (omega arith)
        ∙ clear_cells_outside c video_memory (copy_cells c (s.vram_up) video_memory (s.mem))
            (s.vram_up + k) (omega arith)
        ∙ copy_cells_inside c (s.vram_up) video_memory (s.mem) k lk

    pub scroll_down_frame :
        (a : ℕ)
        → (a < video_memory) ⊎ (row c (suc (s.rows)) ≤ a)
        → (a < s.vram_up) ⊎ (s.vram_up + c ≤ a)
        → (scroll_down s).mem a ≡ s.mem a
    scroll_down_frame a away out =
        let l = last_row s in
        let low = row-le c 0 (s.rows - 1) (omega arith) in
        let one = row_suc c 0 in
        let first = row-le c 1 (suc (s.rows)) (omega arith) in
        let end = row_suc c (s.rows - 1) in
        let top = row-le c (suc (s.rows - 1)) (suc (s.rows)) (omega arith) in
        let z : row c (0 + s.rows) ≡ row c (s.rows) = ap (row c) (omega arith) in
        let under = row_suc c (s.rows) in
        ap (λ (t : Screen). t.mem a) scroll_down_lem
        ∙ copy_cells_outside c last down raised a (omega arith)
        ∙ rows_up_outside (s.rows) 0 c saved a (omega arith)
        ∙ saved_outside a out (omega arith)
