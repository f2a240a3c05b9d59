-- ===== src/Screen/History.antt =====
-- `scroll_up` and `scroll_down` of src/screen.c: the lines above and below the screen are two stacks.
use nibras_os.Prelude.{
  ℕ, suc, ◌+◌, ◌-◌, ◌≤◌, ◌<◌, ◌≡◌, ◌⊎◌, inl, inr, arith, ◌==◌, Bool-cases, ==→eq, ap, sym, ◌∙◌,
}
use nibras_os.Screen.{Screen, video_memory, copy_cells, scroll_up, scroll_down}
use nibras_os.Screen.Memory.{row}
use nibras_os.Screen.Scrolling.{Elsewhere}
use nibras_os.Screen.Lines.{
  Disjoint, last_row, moved, scroll_up_lem, scroll_up_row, scroll_up_line, scroll_up-first,
  scroll_up_frame, scroll_down_lem, scroll_down_row, scroll_down-last, scroll_down_line,
  scroll_down_frame,
}

-- The memory above has a line and the memory below is in order, both lines lie elsewhere and apart.
pub record IsScrollable (s : Screen) : Type 0 where
  pub some_rows : 0 < s.rows
  pub some_columns : 0 < s.columns
  pub more : s.vram_up_start < s.vram_up
  pub whole : s.columns ≤ s.vram_up
  pub below : s.vram_down_start ≤ s.vram_down
  pub up_away : Elsewhere s (s.vram_up - s.columns)
  pub down_away : Elsewhere s (s.vram_down)
  pub apart : Disjoint (s.columns) (s.vram_up - s.columns) (s.vram_down)

-- When there is a line above, the memory of the lines above and below is in order, and the two
-- lines that move lie in memory apart from each other and from the rows of the screen, the one
-- behind the last and the one before the first included, scrolling up one line and down again
-- restores each cell of the screen, the line above, both pointers, and every cell outside of the
-- screen, the row behind it and the line below.
pub scroll_down-scroll_up :
    (s : Screen) (j k : ℕ)
    → IsScrollable s
    → j < s.rows
    → k < s.columns
    → ((scroll_down (scroll_up s)).mem (row (s.columns) j + k) ≡ s.mem (row (s.columns) j + k))
      × ((scroll_down (scroll_up s)).vram_up ≡ s.vram_up)
      × ((scroll_down (scroll_up s)).vram_down ≡ s.vram_down)
      × ((scroll_down (scroll_up s)).mem (s.vram_up - s.columns + k)
          ≡ s.mem (s.vram_up - s.columns + k))
      × ((a : ℕ)
          → (a < video_memory) ⊎ (row (s.columns) (suc (s.rows)) ≤ a)
          → (a < s.vram_down) ⊎ (s.vram_down + s.columns ≤ a)
          → (a < s.vram_up - s.columns) ⊎ (s.vram_up ≤ a)
          → (scroll_down (scroll_up s)).mem a ≡ s.mem a)
scroll_down-scroll_up s j k v lj lk =
    let e = scroll_up_lem s k v.some_rows lk v.more v.up_away v.down_away v.apart in
    let t = record s {
      mem =
          copy_cells (s.columns) video_memory (s.vram_up - s.columns)
            (moved s k v.some_rows lk v.more v.up_away v.down_away v.apart);
      vram_up = s.vram_up - s.columns;
      vram_down = s.vram_down + s.columns;
    } in
    let columns = v.some_columns in
    let below = v.below in
    let whole = v.whole in
    let d : t.vram_down - t.columns ≡ s.vram_down = omega arith in
    let more_t : t.vram_down_start < t.vram_down = omega arith in
    let down_t : Elsewhere t (t.vram_down - t.columns) = rw d v.down_away in
    let apart_t : Disjoint (t.columns) (t.vram_up) (t.vram_down - t.columns) = rw d v.apart in
    let f = scroll_down_lem t k v.some_rows lk more_t v.up_away down_t apart_t in
    (
      ap (λ (u : Screen). (scroll_down u).mem (row (s.columns) j + k)) e
          ∙ elim (Bool-cases (s.rows - 1 == j)) [
            | inl last_j ↦
                let same : s.rows - 1 ≡ j = ==→eq (s.rows - 1) j last_j in
                ap (λ (i : ℕ). (scroll_down t).mem (row (s.columns) i + k)) (sym same)
                ∙ ap (λ (a : ℕ). (scroll_down t).mem (a + k)) (sym (last_row s))
                ∙ scroll_down-last t k v.some_rows lk more_t v.up_away down_t apart_t
                ∙ ap (λ (a : ℕ). t.mem (a + k)) d
                ∙ ap (λ (u : Screen). u.mem (s.vram_down + k)) (sym e)
                ∙ scroll_up_line s k v.some_rows lk v.more v.up_away v.down_away v.apart
                ∙ ap (λ (a : ℕ). s.mem (a + k)) (last_row s)
                ∙ ap (λ (i : ℕ). s.mem (row (s.columns) i + k)) same
            | inr before ↦
                let lt : j < s.rows - 1 = ground arith in
                scroll_down_row t k v.some_rows lk more_t v.up_away down_t apart_t j lt
                ∙ ap (λ (u : Screen). u.mem (row (s.columns) (suc j) + k)) (sym e)
                ∙ scroll_up_row s k v.some_rows lk v.more v.up_away v.down_away v.apart j lt
          ],
      ap (λ (u : Screen). (scroll_down u).vram_up) e
          ∙ ap (λ (u : Screen). u.vram_up) f
          ∙ omega arith,
      ap (λ (u : Screen). (scroll_down u).vram_down) e ∙ ap (λ (u : Screen). u.vram_down) f ∙ d,
      ap (λ (u : Screen). (scroll_down u).mem (s.vram_up - s.columns + k)) e
          ∙ scroll_down_line t k v.some_rows lk more_t v.up_away down_t apart_t
          ∙ ap (λ (u : Screen). u.mem (video_memory + k)) (sym e)
          ∙ scroll_up-first s k v.some_rows lk v.more v.up_away v.down_away v.apart,
      λ a away below_out above_out.
          ap (λ (u : Screen). (scroll_down u).mem a) e
          ∙ scroll_down_frame t k v.some_rows lk more_t v.up_away down_t apart_t a away
              (omega arith)
          ∙ ap (λ (u : Screen). u.mem a) (sym e)
          ∙ scroll_up_frame s k v.some_rows lk v.more v.up_away v.down_away v.apart a away
              below_out,
    )
