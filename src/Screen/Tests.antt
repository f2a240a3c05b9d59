-- ===== src/Screen/Tests.antt =====
-- The theorems on src/screen.c at a screen of two rows of ten columns.
use nibras_os.Prelude.{ℕ, ◌+◌, ◌≤◌, ◌<◌, ◌⊎◌, ◌≡◌, refl, inl, some, [], ◌∷◌, arith}
use nibras_os.Screen.{Screen, video_memory, puts, scroll_up, scroll_down, puthex}
use nibras_os.Screen.Memory.{row}
use nibras_os.Screen.Cursor.{IsPlaced, Kept, puts-Kept}
use nibras_os.Screen.History.{IsScrollable, scroll_down-scroll_up}

abbrev screen : Screen
screen = record {
  mem = λ a. a;
  attributes = 15;
  x = 3;
  y = 1;
  rows = 2;
  columns = 10;
  vram_up = 1020;
  vram_up_start = 1000;
  vram_down = 2000;
  vram_down_start = 2000;
  ports = [];
}

screen-IsPlaced : IsPlaced screen
screen-IsPlaced = omega arith

puthex_run : puthex 48879 ≡ b'0' ∷ b'x' ∷ b'0' ∷ b'0' ∷ b'0' ∷ b'0' ∷ b'B' ∷ b'E' ∷ b'E' ∷ b'F' ∷ []
unfolding puthex
puthex_run = refl

puts-Kept_example :
    (s1 : Screen) × (puts 10 (72 ∷ 10 ∷ 8 ∷ 9 ∷ []) screen ≡ some s1) × Kept screen s1
puts-Kept_example = puts-Kept 10 (72 ∷ 10 ∷ 8 ∷ 9 ∷ []) screen screen-IsPlaced (omega arith)

-- The cursor is behind the last row.
abbrev low_screen : Screen
low_screen = record screen { y = 2 }

screen-IsScrollable : IsScrollable screen
screen-IsScrollable = record {
  some_rows = omega arith;
  some_columns = omega arith;
  more = omega arith;
  whole = omega arith;
  below = omega arith;
  up_away = inl (omega arith);
  down_away = inl (omega arith);
  apart = inl (omega arith);
}

scroll_down-scroll_up_example :
    ((scroll_down (scroll_up screen)).mem (row 10 1 + 4) ≡ row 10 1 + 4)
    × ((scroll_down (scroll_up screen)).vram_up ≡ 1020)
    × ((scroll_down (scroll_up screen)).vram_down ≡ 2000)
    × ((scroll_down (scroll_up screen)).mem 1014 ≡ 1014)
    × ((a : ℕ)
        → (a < video_memory) ⊎ (row 10 3 ≤ a)
        → (a < 2000) ⊎ (2010 ≤ a)
        → (a < 1010) ⊎ (1020 ≤ a)
        → (scroll_down (scroll_up screen)).mem a ≡ a)
scroll_down-scroll_up_example =
    scroll_down-scroll_up screen 1 4 screen-IsScrollable (omega arith) (omega arith)
