-- ===== src/Screen.antt =====
-- src/screen.c: the console. `mem` is memory in 16-bit cells, at half of their addresses, so that
-- VIDEO_MEMORY_ADDRESS is the cell 0x5c000; a cell holds a character in its low byte and attributes in its
-- high byte. The writes to the ports of the cursor are listed in `ports`, the latest first.
pub mod Memory
pub mod Cursor
pub mod Scrolling
pub mod Lines
pub mod History
pub mod Numbers
mod Tests
use nibras_os.Prelude.{
  ℕ, zero, suc, ◌+◌, ◌-◌, ◌*◌, ◌/◌, ◌%◌, ◌^◌, ◌<◌, ◌&&◌, ◌||◌, Bool, true, false, not, Option, none,
  some, List, [], ◌∷◌, ◌++◌, if◌then◌else◌, ◌==◌, ltb, leb, bit_or,
}

abbrev pub video_memory : ℕ
video_memory = 0x5c000

-- `main_console` and the other static variables; a pointer is a cell, 0 is NULL.
pub record Screen : Type 0 where
  mem : ℕ → ℕ
  attributes : ℕ
  x : ℕ
  y : ℕ
  rows : ℕ
  columns : ℕ
  vram_up : ℕ
  vram_up_start : ℕ
  vram_down : ℕ
  vram_down_start : ℕ
  ports : List (ℕ × ℕ)

unfoldable pub get_text_attribute : ℕ → ℕ → ℕ
get_text_attribute foreground background = bit_or (background * 16 % 256) (foreground % 16)

unfoldable pub get_attribute_text_value : ℕ → ℕ → ℕ
get_attribute_text_value character attributes = bit_or character (attributes * 256)

unfoldable pub get_text_value : ℕ → ℕ → ℕ → ℕ
unfolding get_text_attribute
get_text_value character foreground background =
    bit_or character (get_text_attribute foreground background * 256)

unfoldable pub store : (ℕ → ℕ) → ℕ → ℕ → ℕ → ℕ
store mem a w k = if k == a then w else mem k

-- `memcpy` of `n` cells between places that do not overlap.
unfoldable pub copy_cells : ℕ → ℕ → ℕ → (ℕ → ℕ) → ℕ → ℕ
copy_cells n dst src mem k = if leb dst k && ltb k (dst + n) then mem (src + (k - dst)) else mem k

unfoldable pub clear_cells : ℕ → ℕ → (ℕ → ℕ) → ℕ → ℕ
clear_cells n dst mem k = if leb dst k && ltb k (dst + n) then 0 else mem k

unfoldable pub update_cursor : Screen → Screen
update_cursor s =
    let offset = (s.y * s.columns + s.x) % 65536 in
    record s { ports = (981, offset % 256) ∷ (980, 15) ∷ (981, offset / 256) ∷ (980, 14) ∷ s.ports }

-- The whole 32 KB of video memory are cleared.
unfoldable pub cls : Screen → Screen
unfolding get_text_attribute clear_cells update_cursor
cls s = update_cursor (record s {
  attributes = get_text_attribute 15 0;
  x = 0;
  y = 0;
  mem = clear_cells 16384 video_memory (s.mem);
})

-- The two loops of `swap_line`, `n` rows from row `i` on: row `i` becomes the row behind it, or before it.
unfoldable pub rows_up : ℕ → ℕ → ℕ → (ℕ → ℕ) → ℕ → ℕ
unfolding copy_cells
rows_up zero i columns mem = mem
rows_up (suc n) i columns mem =
    rows_up n (i + 1) columns
      (copy_cells columns (video_memory + columns * i) (video_memory + columns * i + columns) mem)

unfoldable pub rows_down : ℕ → ℕ → (ℕ → ℕ) → ℕ → ℕ
unfolding copy_cells
rows_down zero columns mem = copy_cells columns video_memory (video_memory - columns) mem
rows_down (suc i) columns mem = rows_down i columns (
    copy_cells columns (video_memory + columns * suc i) (video_memory + columns * suc i - columns)
      mem)

-- `up_down` as a Boolean; the second loop ends at row 0 in both calls of the source.
unfoldable pub swap_line : Bool → ℕ → ℕ → ℕ → (ℕ → ℕ) → ℕ → ℕ
unfolding rows_up rows_down
swap_line true start_row end_row columns mem =
    rows_up (end_row + 1 - start_row) start_row columns mem
swap_line false start_row end_row columns mem = rows_down start_row columns mem

unfoldable pub scroll : Screen → Screen
unfolding copy_cells swap_line
scroll s =
    let saved =
      if s.vram_up == 0 then s.mem else copy_cells (s.columns) (s.vram_up) video_memory (s.mem) in
    let up = if s.vram_up == 0 then 0 else s.vram_up + s.columns in
    if leb (s.rows) (s.y)
    then record s {
      mem = swap_line true 0 (s.rows - 1) (s.columns) saved;
      vram_up = up;
      y = s.y - 1;
    }
    else s

-- The line that leaves the screen below goes to `vram_down`, the one that comes is the last of `vram_up`.
unfoldable pub scroll_up : Screen → Screen
unfolding copy_cells clear_cells swap_line
scroll_up s =
    let last = video_memory + (s.rows - 1) * s.columns in
    let mem1 = clear_cells (s.columns) last (copy_cells (s.columns) (s.vram_down) last (s.mem)) in
    let mem2 = swap_line false (s.rows) 0 (s.columns) mem1 in
    let up = s.vram_up - s.columns in
    if ltb (s.vram_up_start) (s.vram_up)
    then record s {
      mem = copy_cells (s.columns) video_memory up mem2;
      vram_up = up;
      vram_down = s.vram_down + s.columns;
    }
    else s

unfoldable pub scroll_down : Screen → Screen
unfolding copy_cells clear_cells swap_line
scroll_down s =
    let mem1 =
      clear_cells (s.columns) video_memory
        (copy_cells (s.columns) (s.vram_up) video_memory (s.mem)) in
    let mem2 = swap_line true 0 (s.rows - 1) (s.columns) mem1 in
    let down = s.vram_down - s.columns in
    if ltb (s.vram_down_start) (s.vram_down)
    then record s {
      mem = copy_cells (s.columns) (video_memory + (s.rows - 1) * s.columns) down mem2;
      vram_up = s.vram_up + s.columns;
      vram_down = down;
    }
    else s

-- `while (*pos != '\0') pos += 2;` of `get_latest_character_position`, on fuel: the first cell with an
-- empty low byte; `none` means that the fuel ran out.
unfoldable pub first_empty : ℕ → (ℕ → ℕ) → ℕ → Option ℕ
first_empty zero mem pos = none
first_empty (suc n) mem pos =
    let rest = first_empty n mem (pos + 1) in if mem pos % 256 == 0 then some pos else rest

-- The `do … while` of the backspace, for `x` columns left; two cells are passed in each round.
unfoldable pub back_over : ℕ → (ℕ → ℕ) → ℕ → ℕ
back_over zero mem pos = 0
back_over (suc x) mem pos =
    let rest = back_over x mem (pos - 2) in
    if (mem (pos - 2) == 32) && (mem (pos - 4) == 32) && ltb 0 x then rest else x

unfoldable pub backspace_cell : Screen → ℕ
backspace_cell s = video_memory + s.y * s.columns + s.x - 1

unfoldable pub blank_cell : Screen → ℕ → ℕ
unfolding store get_attribute_text_value backspace_cell
blank_cell s = store (s.mem) (backspace_cell s) (get_attribute_text_value 0 (s.attributes))

-- The backspace: `none` when the search for the end of the line above runs out of fuel. The differences
-- of pointers, `short` in the source, do not wrap.
unfoldable pub backspace : ℕ → Screen → Option Screen
unfolding blank_cell backspace_cell back_over first_empty
backspace fuel s =
    let mem1 = blank_cell s in
    let line = video_memory + (s.y - 1) * s.columns in
    if ltb 0 (s.x)
    then some (record s { mem = mem1; x = back_over (s.x) mem1 (backspace_cell s) })
    else elim (first_empty fuel mem1 line) [
      | none ↦ none
      | some pos ↦ some (record s { mem = mem1; y = s.y - 1; x = pos - line })
    ]

-- Printing a character that is no backspace.
unfoldable pub advance : ℕ → Screen → Screen
unfolding store get_attribute_text_value
advance c s =
    if c == 9
    then record s { x = (s.x + 8) / 8 * 8 }
    else if c == b'\r'
    then record s { x = 0 }
    else if c == b'\n'
    then record s { x = 0; y = s.y + 1 }
    else if leb 32 c && ltb c 128
    then record s {
      mem =
          store (s.mem) (video_memory + s.y * s.columns + s.x)
            (get_attribute_text_value c (s.attributes));
      x = s.x + 1;
    }
    else s

-- The end of `putc`: the edge of the columns, scrolling and the cursor.
unfoldable pub settle : Screen → Screen
unfolding scroll update_cursor
settle s =
    update_cursor (scroll (if ltb (s.columns) (s.x) then record s { x = 0; y = s.y + 1 } else s))

-- `c` is the byte of the `char`, which is signed: those from 128 on are below ' '.
unfoldable pub putc : ℕ → ℕ → Screen → Option Screen
unfolding backspace advance settle
putc fuel c s =
    let moved : Option Screen = elim (backspace fuel s) [
      | none ↦ none
      | some s1 ↦ some (settle s1)
    ] in
    if c == 8
    then if (s.x == 0) && (s.y == 0) then some s else moved
    else some (settle (advance c s))

unfoldable pub puts : ℕ → List ℕ → Screen → Option Screen
unfolding putc
puts fuel [] s = some s
puts fuel (c ∷ str) s = elim (putc fuel c s) [ none ↦ none | some s1 ↦ puts fuel str s1 ]

unfoldable pub char_to_hex_char : ℕ → ℕ
char_to_hex_char i = if ltb i 10 then (b'0' + i) % 256 else (b'A' + (i - 10)) % 256

-- The loop of `puthex`: the digits of `i`, `pos` of them, behind those of `result`.
unfoldable pub hex_digits : ℕ → ℕ → List ℕ → List ℕ
unfolding char_to_hex_char
hex_digits zero i result = result
hex_digits (suc pos) i result = hex_digits pos (i / 16) (char_to_hex_char (i % 16) ∷ result)

-- What `puthex` hands to `puts`.
unfoldable pub puthex : ℕ → List ℕ
unfolding hex_digits
puthex i = b'0' ∷ b'x' ∷ hex_digits 8 i []

unfoldable pub set_text_color : Screen → ℕ → ℕ → Screen
unfolding get_text_attribute
set_text_color s foreground background = record s {
  attributes = get_text_attribute foreground background;
}

unfoldable pub reset_text_color : Screen → Screen
unfolding get_text_attribute
reset_text_color s = record s { attributes = get_text_attribute 15 0 }

unfoldable pub println : ℕ → Option (List ℕ) → Screen → Option Screen
unfolding puts
println fuel none s = puts fuel (b'\n' ∷ []) s
println fuel (some str) s = elim (puts fuel str s) [
  | none ↦ none
  | some s1 ↦ puts fuel (b'\n' ∷ []) s1
]

-- The bits that `printbin` prints from bit `n - 1` on, 0 and 1 as digits.
unfoldable pub bits_from : ℕ → ℕ → List ℕ
bits_from zero num = []
bits_from (suc i) num = (b'0' + num / 2 ^ i % 2) ∷ bits_from i num

unfoldable pub printbin : ℕ → List ℕ
unfolding bits_from
printbin num = if num == 0 then [] else bits_from 32 num
