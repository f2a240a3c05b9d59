-- ===== src/Keyboard/Tables.antt =====
-- The scan code tables `st_keymap` and `st_shiftmap` of include/kb.h; the elements that the source does
-- not list are 0.
use nibras_os.Prelude.{
  ℕ, zero, suc, ◌≤◌, ◌≡◌, refl, Bool, true, false, ◌&&◌, List, [], ◌∷◌, arith, if◌then◌else◌, ◌==◌,
  leb, get_or, replicate,
}
use nibras_os.Strings.{small_to_cap}

abbrev pub st_keymap : List ℕ
st_keymap =
    0
    ∷ 27
    ∷ 49
    ∷ 50
    ∷ 51
    ∷ 52
    ∷ 53
    ∷ 54
    ∷ 55
    ∷ 56
    ∷ 57
    ∷ 48
    ∷ 45
    ∷ 61
    ∷ 8
    ∷ 9
    ∷ 113
    ∷ 119
    ∷ 101
    ∷ 114
    ∷ 116
    ∷ 121
    ∷ 117
    ∷ 105
    ∷ 111
    ∷ 112
    ∷ 91
    ∷ 93
    ∷ 10
    ∷ 0
    ∷ 97
    ∷ 115
    ∷ 100
    ∷ 102
    ∷ 103
    ∷ 104
    ∷ 106
    ∷ 107
    ∷ 108
    ∷ 59
    ∷ 39
    ∷ 96
    ∷ 0
    ∷ 92
    ∷ 122
    ∷ 120
    ∷ 99
    ∷ 118
    ∷ 98
    ∷ 110
    ∷ 109
    ∷ 44
    ∷ 46
    ∷ 47
    ∷ 0
    ∷ 42
    ∷ 0
    ∷ 32
    ∷ 0
    ∷ 0
    ∷ 0
    ∷ 0
    ∷ 0
    ∷ 0
    ∷ 0
    ∷ 0
    ∷ 0
    ∷ 0
    ∷ 0
    ∷ 0
    ∷ 0
    ∷ 0
    ∷ 0
    ∷ 0
    ∷ 45
    ∷ 0
    ∷ 0
    ∷ 0
    ∷ 43
    ∷ 0
    ∷ 0
    ∷ 0
    ∷ 0
    ∷ 0
    ∷ 0
    ∷ 0
    ∷ 0
    ∷ 0
    ∷ 0
    ∷ 0
    ∷ replicate 38 0

abbrev pub st_shiftmap : List ℕ
st_shiftmap =
    0
    ∷ 27
    ∷ 33
    ∷ 64
    ∷ 35
    ∷ 36
    ∷ 37
    ∷ 94
    ∷ 38
    ∷ 42
    ∷ 40
    ∷ 41
    ∷ 95
    ∷ 43
    ∷ 8
    ∷ 9
    ∷ 81
    ∷ 87
    ∷ 69
    ∷ 82
    ∷ 84
    ∷ 89
    ∷ 85
    ∷ 73
    ∷ 79
    ∷ 80
    ∷ 123
    ∷ 125
    ∷ 10
    ∷ 0
    ∷ 65
    ∷ 83
    ∷ 68
    ∷ 70
    ∷ 71
    ∷ 72
    ∷ 74
    ∷ 75
    ∷ 76
    ∷ 58
    ∷ 34
    ∷ 126
    ∷ 0
    ∷ 124
    ∷ 90
    ∷ 88
    ∷ 67
    ∷ 86
    ∷ 66
    ∷ 78
    ∷ 77
    ∷ 60
    ∷ 62
    ∷ 63
    ∷ 0
    ∷ 42
    ∷ 0
    ∷ 32
    ∷ 0
    ∷ 0
    ∷ 0
    ∷ 0
    ∷ 0
    ∷ 0
    ∷ 0
    ∷ 0
    ∷ 0
    ∷ 0
    ∷ 0
    ∷ 0
    ∷ 0
    ∷ 0
    ∷ 0
    ∷ 0
    ∷ 45
    ∷ 0
    ∷ 0
    ∷ 0
    ∷ 43
    ∷ 0
    ∷ 0
    ∷ 0
    ∷ 0
    ∷ 0
    ∷ 0
    ∷ 0
    ∷ 0
    ∷ 0
    ∷ 0
    ∷ 0
    ∷ replicate 38 0

-- Of two tables: wherever the first has a small letter, the second has its capital.
unfoldable capitals : List ℕ → List ℕ → Bool
unfolding small_to_cap
capitals [] ds = true
capitals (c ∷ cs) [] = false
capitals (c ∷ cs) (d ∷ ds) =
    (if leb 97 c && leb c 122 then d == small_to_cap c else true) && capitals cs ds

capitals-at :
    (cs ds : List ℕ) (k : ℕ)
    → capitals cs ds ≡ true
    → 97 ≤ get_or cs k 0
    → get_or cs k 0 ≤ 122
    → get_or ds k 0 ≡ small_to_cap (get_or cs k 0)
unfolding capitals
capitals-at [] ds k h a b = absurd (omega arith)
capitals-at (c ∷ cs) [] k h a b = cc
capitals-at (c ∷ cs) (d ∷ ds) zero h a b = ground arith
capitals-at (c ∷ cs) (d ∷ ds) (suc k) h a b = capitals-at cs ds k (ground arith) a b

-- A key that types a small letter types its capital with shift.
pub st_shiftmap-capital :
    (k : ℕ)
    → 97 ≤ get_or st_keymap k 0
    → get_or st_keymap k 0 ≤ 122
    → get_or st_shiftmap k 0 ≡ small_to_cap (get_or st_keymap k 0)
unfolding capitals
st_shiftmap-capital k a b = capitals-at st_keymap st_shiftmap k refl a b
