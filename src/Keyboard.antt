-- ===== src/Keyboard.antt =====
-- The keyboard: src/kb.c and the tables of include/kb.h. A handler is the state after it and
-- what it has done, in order.
pub mod Tables
mod Tests
use nibras_os.Prelude.{
  ℕ, zero, suc, ◌+◌, ◌≤◌, ◌<◌, ◌≡◌, refl, ◌≢◌, Bool, true, false, not, ◌&&◌, ◌||◌, List, [], ◌∷◌,
  ◌++◌, arith, if◌then◌else◌, ◌==◌, ltb, leb, get_or, bit_or, bit_and, Bool-cases, ap, ◌∙◌,
}
use nibras_os.Keyboard.Tables.{st_keymap, st_shiftmap}

pub data Action : Type 0 where
  end_of_interrupt : Action
  scroll_up : Action
  scroll_down : Action
  move_left : Action
  move_right : Action
  put : ℕ → Action

-- Left and right shift, pressed and released, and caps lock.
unfoldable pub toggles : ℕ → Bool
toggles keycode =
    keycode == 42 || keycode == 170 || keycode == 54 || keycode == 182 || keycode == 58

unfoldable pub arrow : ℕ → List Action
arrow keycode =
    if keycode == 72
    then scroll_up ∷ []
    else if keycode == 80
    then scroll_down ∷ []
    else if keycode == 75
    then move_left ∷ []
    else if keycode == 77
    then move_right ∷ []
    else []

-- A code from 128 on is a key that is released: the `char` is negative.
unfoldable pub keyboard_handler : Bool → ℕ → Bool × List Action
unfolding toggles arrow
keyboard_handler shift_flag keycode =
    let shift_flag1 = if toggles keycode then not shift_flag else shift_flag in
    let moves = if toggles keycode then [] else arrow keycode in
    let char = get_or (if shift_flag1 then st_shiftmap else st_keymap) keycode 0 in
    (shift_flag1, end_of_interrupt ∷ moves ++ (if leb 128 keycode then [] else put char ∷ []))

-- The bytes for the encoder: the command 0xED and the state of the LEDs.
unfoldable pub kkybrd_set_leds : ℕ → ℕ → ℕ → List ℕ
kkybrd_set_leds num_led caps_led scroll_led =
    237 ∷ (if caps_led == 0 then bit_and num_led 4 else bit_or num_led 4) ∷ []

unfoldable pub run_keys : Bool → List ℕ → Bool × List Action
unfolding keyboard_handler
run_keys shift_flag [] = (shift_flag, [])
run_keys shift_flag (k ∷ keys) =
    let (shift_flag1, done) = keyboard_handler shift_flag k in
    let (shift_flag2, rest) = run_keys shift_flag1 keys in (shift_flag2, done ++ rest)

-- No key of the list is a shift or the caps lock.
abbrev pub Plain : List ℕ → Type 0
Plain [] = Unit
Plain (k ∷ keys) = (toggles k ≡ false) × Plain keys

run_keys-Plain : (flag : Bool) (keys : List ℕ) → Plain keys → (run_keys flag keys).0 ≡ flag
unfolding run_keys
run_keys-Plain flag [] p = refl
run_keys-Plain flag (k ∷ keys) (e, p) = rw e (run_keys-Plain flag keys p)

run_keys-append :
    (flag : Bool) (xs ys : List ℕ)
    → (run_keys flag (xs ++ ys)).0 ≡ (run_keys ((run_keys flag xs).0) ys).0
unfolding run_keys
run_keys-append flag [] ys = refl
run_keys-append flag (k ∷ xs) ys = run_keys-append ((keyboard_handler flag k).0) xs ys

not-not : (b : Bool) → not (not b) ≡ b
not-not true = refl
not-not false = refl

-- Pressing the left shift, typing any keys that are no shift and no caps lock, and releasing it leaves
-- the flag as it was.
pub run_keys-shift :
    (flag : Bool) (keys : List ℕ) → Plain keys → (run_keys flag (42 ∷ keys ++ 170 ∷ [])).0 ≡ flag
unfolding run_keys keyboard_handler toggles
run_keys-shift flag keys p =
    run_keys-append (not flag) keys (170 ∷ [])
    ∙ ap not (run_keys-Plain (not flag) keys p)
    ∙ not-not flag
