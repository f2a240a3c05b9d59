-- ===== src/Keyboard/Tests.antt =====
-- The theorems on src/kb.c at concrete keys.
use nibras_os.Prelude.{◌≡◌, refl, true, [], ◌∷◌}
use nibras_os.Keyboard.{keyboard_handler, end_of_interrupt, put}

-- The key `q` with the shift held.
typed_q : keyboard_handler true 16 ≡ (true, end_of_interrupt ∷ put 81 ∷ [])
unfolding keyboard_handler
typed_q = refl
