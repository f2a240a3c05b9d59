-- ===== src/Screen/Cursor.antt =====
-- Where the cursor of src/screen.c can be: the end of a line that is full is the column behind it.
use nibras_os.Prelude.{
  ℕ, zero, suc, ◌+◌, ◌-◌, ◌*◌, ◌%◌, ◌≤◌, ◌<◌, ◌&&◌, ◌≡◌, refl, ◌≢◌, inl, inr, true, false, some,
  List, [], ◌∷◌, arith, ◌==◌, ltb, leb, eq→==, ne→==, Bool-cases, ap, sym, ◌∙◌, bit_or,
}
use Prim.Native.Nat.{bit_or-bitwise}
use nibras_os.Screen.{
  Screen, video_memory, store, update_cursor, scroll, settle, advance, backspace, back_over,
  first_empty, blank_cell, backspace_cell, putc, puts, get_attribute_text_value,
}

-- The cursor is in one of the rows, and at most one column behind the last.
pub record IsPlaced (s : Screen) : Type 0 where
  pub some_rows : 0 < s.rows
  pub some_columns : 0 < s.columns
  pub row : s.y < s.rows
  pub column : s.x ≤ s.columns

-- Before the end of `putc` the cursor may be one row too low or behind the end of the line.
record IsNear (s : Screen) : Type 0 where
  some_rows : 0 < s.rows
  some_columns : 0 < s.columns
  row : (s.y ≤ s.rows) × (s.y ≡ s.rows → s.x ≤ s.columns)

advance-IsNear : (c : ℕ) (s : Screen) → IsPlaced s → IsNear (advance c s)
unfolding advance
advance-IsNear c s p = ground arith

settle-IsPlaced : (s : Screen) → IsNear s → IsPlaced (settle s)
unfolding settle scroll update_cursor
settle-IsPlaced s n = ground arith

advance-size :
    (c : ℕ) (s : Screen) → ((advance c s).rows ≡ s.rows) × ((advance c s).columns ≡ s.columns)
unfolding advance
advance-size c s = ground arith

back_over-le : (x : ℕ) (mem : ℕ → ℕ) (pos : ℕ) → back_over x mem pos ≤ x
unfolding back_over
back_over-le zero mem pos = omega arith
back_over-le (suc x) mem pos = ground (arith, back_over-le x mem (pos - 2))

-- The cell at the end of the row above is blank, so the search ends in that row.
first_empty-some :
    (n : ℕ) (mem : ℕ → ℕ) (pos k : ℕ)
    → k < n
    → mem (pos + k) % 256 ≡ 0
    → (p : ℕ) × (first_empty n mem pos ≡ some p) × (pos ≤ p) × (p ≤ pos + k)
unfolding first_empty
first_empty-some zero mem pos k lt e = absurd (omega arith)
first_empty-some (suc n) mem pos zero lt e =
    let z : pos + 0 ≡ pos = omega arith in
    let e' : mem pos % 256 ≡ 0 = rw z at e in
    (pos, rw (eq→== (mem pos % 256) 0 e') refl, omega arith, omega arith)
first_empty-some (suc n) mem pos (suc k) lt e = elim (Bool-cases (mem pos % 256 == 0)) [
  | inl here ↦ (pos, rw here refl, omega arith, omega arith)
  | inr on ↦
      let z : pos + suc k ≡ pos + 1 + k = omega arith in
      let (p, f, lo, hi) = first_empty-some n mem (pos + 1) k (omega arith) (rw z at e) in
      (p, rw on f, omega arith, omega arith)
]

blank_cell_blank : (s : Screen) → blank_cell s (backspace_cell s) % 256 ≡ 0
unfolding blank_cell store get_attribute_text_value
blank_cell_blank s =
    let low : bit_or 0 (s.attributes * 256) ≡ s.attributes * 256 =
      bit_or-bitwise 0 (s.attributes * 256) in
    rw (eq→== (backspace_cell s) (backspace_cell s) refl, low) (omega arith)

-- At the start of a row, the cell before the cursor is the last of the row above.
last_cell :
    (s : Screen)
    → IsPlaced s
    → s.x ≡ 0
    → s.y ≢ 0
    → backspace_cell s ≡ video_memory + (s.y - 1) * s.columns + (s.columns - 1)
unfolding backspace_cell
last_cell s p x0 ne =
    let above : s.y ≡ s.y - 1 + 1 = omega arith in
    omega (arith, ap (λ (t : ℕ). t * s.columns) above)

-- The size of the screen stays.
abbrev pub Kept : Screen → Screen → Type 0
Kept s s1 = IsPlaced s1 × (s1.rows ≡ s.rows) × (s1.columns ≡ s.columns)

settle-Kept :
    (s s0 : Screen) → IsNear s → (s.rows ≡ s0.rows) × (s.columns ≡ s0.columns) → Kept s0 (settle s)
settle-Kept s s0 n (r, c) = let (r1, c1) = settle-size s in (settle-IsPlaced s n, r1 ∙ r, c1 ∙ c)
  where
    settle-size : (s : Screen) → ((settle s).rows ≡ s.rows) × ((settle s).columns ≡ s.columns)
    settle-size s = unfold settle in unfold scroll in unfold update_cursor in ground arith

backspace-Kept :
    (fuel : ℕ) (s : Screen)
    → IsPlaced s
    → s.columns ≤ fuel
    → (s.x ≡ 0 → s.y ≢ 0)
    → (s1 : Screen) × (backspace fuel s ≡ some s1) × Kept s s1
unfolding backspace
backspace-Kept fuel s p enough inside = elim (Bool-cases (ltb 0 (s.x))) [
  | inl e ↦
      let over = back_over-le (s.x) (blank_cell s) (backspace_cell s) in
      (
        record s { mem = blank_cell s; x = back_over (s.x) (blank_cell s) (backspace_cell s) },
        rw e refl,
        omega arith,
      )
  | inr e ↦
      let x0 : s.x ≡ 0 = ground arith in
      let line = video_memory + (s.y - 1) * s.columns in
      let y1 : s.y ≡ s.y - 1 + 1 = omega (arith, inside x0) in
      let cell : backspace_cell s ≡ line + (s.columns - 1) = last_cell s p x0 (inside x0) in
      let blank : blank_cell s (line + (s.columns - 1)) % 256 ≡ 0 =
        ap (λ (k : ℕ). blank_cell s k % 256) (sym cell) ∙ blank_cell_blank s in
      let (pos, f, lo, hi) =
        first_empty-some fuel (blank_cell s) line (s.columns - 1) (omega arith) blank in
      (record s { mem = blank_cell s; y = s.y - 1; x = pos - line }, rw (e, f) refl, omega arith)
]

-- From a place on the screen, and with fuel for a line, `putc` ends for every byte and leaves the cursor on
-- the screen: in one of the rows, and at most one column behind the last.
pub putc-Kept :
    (fuel c : ℕ) (s : Screen)
    → IsPlaced s
    → s.columns ≤ fuel
    → (s1 : Screen) × (putc fuel c s ≡ some s1) × Kept s s1
unfolding putc
putc-Kept fuel c s p enough = elim (Bool-cases (c == 8)) [
  | inr other ↦ (
    settle (advance c s),
    rw other refl,
    settle-Kept (advance c s) s (advance-IsNear c s p) (advance-size c s),
  )
  | inl back ↦ elim (Bool-cases ((s.x == 0) && (s.y == 0))) [
    | inl home ↦ (s, rw (back, home) refl, (p, refl, refl))
    | inr away ↦
        let (s1, e, (p1, r1, c1)) = backspace-Kept fuel s p enough (λ x0 y0. ground arith) in
        (settle s1, rw (back, away, e) refl, settle-Kept s1 s (omega arith) (r1, c1))
  ]
]

-- From a place on the screen, and with fuel for a line, puts ends for every string, and leaves the
-- cursor on the screen, in one of the rows and at most one column behind the last, and the size of
-- the screen as it was.
pub puts-Kept :
    (fuel : ℕ) (str : List ℕ) (s : Screen)
    → IsPlaced s
    → s.columns ≤ fuel
    → (s1 : Screen) × (puts fuel str s ≡ some s1) × Kept s s1
unfolding puts
puts-Kept fuel [] s p enough = (s, refl, (p, refl, refl))
puts-Kept fuel (c ∷ str) s p enough =
    let (s1, e, (p1, r1, c1)) = putc-Kept fuel c s p enough in
    let (s2, f, (p2, r2, c2)) = puts-Kept fuel str s1 p1 (omega arith) in
    (s2, rw (puts, e) f, (p2, r2 ∙ r1, c2 ∙ c1))

advance_printable :
    (c : ℕ) (s : Screen)
    → 32 ≤ c
    → c < 128
    → advance c s ≡ record s {
      mem =
          store
            (s.mem)
            (video_memory + s.y * s.columns + s.x)
            (get_attribute_text_value c (s.attributes));
      x = s.x + 1;
    }
unfolding advance
advance_printable c s lo hi =
    let tab : (c == 9) ≡ false = ground arith in
    let cr : (c == b'\r') ≡ false = ground arith in
    let nl : (c == b'\n') ≡ false = ground arith in
    let shown : (leb 32 c && ltb c 128) ≡ true = ground arith in rw (tab, cr, nl, shown) refl

settle_inside : (s : Screen) → s.x ≤ s.columns → s.y < s.rows → settle s ≡ update_cursor s
unfolding settle scroll
settle_inside s hx hy =
    let inside : ltb (s.columns) (s.x) ≡ false = ground arith in
    let above : leb (s.rows) (s.y) ≡ false = ground arith in rw inside (rw above refl)

-- With the cursor on the screen and before the end of a line, a character of the codes 32 to 127
-- becomes the cell at the cursor, with the attributes of the console; no other cell changes and the
-- cursor is one column further.
pub putc_printable :
    (fuel c : ℕ) (s : Screen)
    → IsPlaced s
    → s.x < s.columns
    → 32 ≤ c
    → c < 128
    → (s1 : Screen) × (putc fuel c s ≡ some s1)
      × (s1.mem (video_memory + s.y * s.columns + s.x) ≡ bit_or c (s.attributes * 256))
      × ((a : ℕ) → a ≢ video_memory + s.y * s.columns + s.x → s1.mem a ≡ s.mem a)
      × (s1.x ≡ s.x + 1)
      × (s1.y ≡ s.y)
unfolding putc update_cursor store get_attribute_text_value
putc_printable fuel c s p lt lo hi =
    let other : (c == 8) ≡ false = ground arith in
    let here = video_memory + s.y * s.columns + s.x in
    let t = record s {
      mem = store (s.mem) here (get_attribute_text_value c (s.attributes));
      x = s.x + 1;
    } in
    let row = p.row in
    let e : settle (advance c s) ≡ update_cursor t =
      ap settle (advance_printable c s lo hi) ∙ settle_inside t (omega arith) row in
    (
      update_cursor t,
      rw other (ap some e),
      rw (eq→== here here refl) refl,
      λ a ne. rw (ne→== a here ne) refl,
      refl,
      refl,
    )
