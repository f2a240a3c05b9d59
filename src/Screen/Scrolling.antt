-- ===== src/Screen/Scrolling.antt =====
-- `scroll`, `scroll_up` and `scroll_down` of src/screen.c on the rows of the screen.
use nibras_os.Prelude.{
  ℕ, suc, ◌+◌, ◌-◌, ◌≤◌, ◌<◌, ◌≡◌, refl, ◌≢◌, ◌⊎◌, inl, inr, true, arith, ◌==◌, leb, Bool-cases,
  ==→eq, ap, ◌∙◌,
}
use nibras_os.Screen.{Screen, video_memory, copy_cells, swap_line, scroll}
use nibras_os.Screen.Memory.{
  copy_cells_inside, copy_cells_outside, row, row_suc, row-le, rows_up_outside, rows_up_inside,
}

-- A line elsewhere in memory: no cell of it is one of the rows before the row behind the last, nor of the
-- row before the first.
abbrev pub Elsewhere : Screen → ℕ → Type 0
Elsewhere s line =
    (line + s.columns + s.columns ≤ video_memory) ⊎ (row (s.columns) (suc (s.rows)) ≤ line)

-- When the cursor has left the last row, and vram_up is NULL or a line elsewhere in memory, scroll
-- moves each row up, the one behind the last row to the last place, keeps the first row in vram_up
-- unless that is NULL, and moves the cursor up.
pub scroll_rows :
    (s : Screen) (j k : ℕ)
    → s.rows ≤ s.y
    → (s.vram_up ≢ 0 → Elsewhere s (s.vram_up))
    → j < s.rows
    → k < s.columns
    → ((scroll s).mem (row (s.columns) j + k) ≡ s.mem (row (s.columns) (suc j) + k))
      × (s.vram_up ≢ 0 → (scroll s).mem (s.vram_up + k) ≡ s.mem (video_memory + k))
      × ((scroll s).y ≡ s.y - 1)
unfolding scroll swap_line
scroll_rows s j k low apart lj lk =
    let test : leb (s.rows) (s.y) ≡ true = ground arith in
    let n : s.rows - 1 + 1 - 0 ≡ s.rows = omega arith in
    rw (test, n)
      (elim (Bool-cases (s.vram_up == 0)) [
        | inl e ↦ rw e (
          rows_up_inside (s.rows) 0 (s.columns) (s.mem) j k (omega arith) (omega arith) lk,
          λ ne. absurd (ne (==→eq (s.vram_up) 0 e)),
          refl,
        )
        | inr e ↦
            let up : s.vram_up ≢ 0 = ground arith in
            let place = apart up in
            let c = s.columns in
            let saved : ℕ → ℕ = copy_cells c (s.vram_up) video_memory (s.mem) in
            let first = row-le c 0 (suc j) (omega arith) in
            let last = row-le c (suc (suc j)) (suc (s.rows)) (omega arith) in
            let next = row_suc c (suc j) in
            let all = row-le c (s.rows) (suc (s.rows)) (omega arith) in
            let z : 0 + s.rows ≡ s.rows = omega arith in
            rw e (
              rows_up_inside (s.rows) 0 c saved j k (omega arith) (omega arith) lk
                  ∙ copy_cells_outside c (s.vram_up) video_memory (s.mem) (row c (suc j) + k)
                      (omega arith),
              λ ne.
                  rows_up_outside (s.rows) 0 c saved (s.vram_up + k) (omega (arith, ap (row c) z))
                  ∙ copy_cells_inside c (s.vram_up) video_memory (s.mem) k lk,
              refl,
            )
      ])
