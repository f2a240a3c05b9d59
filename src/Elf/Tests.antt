-- ===== src/Elf/Tests.antt =====
-- `valid_elf` of src/elf.c at concrete headers.
use nibras_os.Prelude.{◌≡◌, refl, [], ◌∷◌}
use nibras_os.Elf.{Header, valid_elf}

abbrev executable : Header
executable = record { e_ident = 127 ∷ 69 ∷ 76 ∷ 70 ∷ 1 ∷ 1 ∷ 1 ∷ []; e_type = 2; e_machine = 3 }

abbrev garbage : Header
garbage = record { e_ident = 127 ∷ 0 ∷ []; e_type = 0; e_machine = 0 }

accepted : valid_elf executable ≡ 1
unfolding valid_elf
accepted = refl

refused : valid_elf garbage ≡ 9
unfolding valid_elf
refused = refl
