-- ===== src/Input/Layouts/Dvorak.antt =====
-- input/keymap.c: `layout_dvorak`, as code points.
use zythos.Base.{ℕ, List, [], ◌∷◌, true, false}
use zythos.Input.Keycodes.{
  key_1, key_2, key_3, key_4, key_5, key_6, key_7, key_8, key_9, key_0, key_minus, key_equal, key_q,
  key_w, key_e, key_r, key_t, key_y, key_u, key_i, key_o, key_p, key_lbracket, key_rbracket, key_a,
  key_s, key_d, key_f, key_g, key_h, key_j, key_k, key_l, key_semicolon, key_apostrophe, key_grave,
  key_backslash, key_z, key_x, key_c, key_v, key_b, key_n, key_m, key_comma, key_dot, key_slash,
  key_space,
}
use zythos.Input.Layouts.{KeymapEntry, entry}

abbrev pub layout_dvorak : List (ℕ × KeymapEntry)
layout_dvorak =
    (key_1, entry 49 33 0 0 0 false)
    ∷ (key_2, entry 50 64 0 0 0 false)
    ∷ (key_3, entry 51 35 0 0 0 false)
    ∷ (key_4, entry 52 36 0 0 0 false)
    ∷ (key_5, entry 53 37 0 0 0 false)
    ∷ (key_6, entry 54 94 0 0 0 false)
    ∷ (key_7, entry 55 38 0 0 0 false)
    ∷ (key_8, entry 56 42 0 0 0 false)
    ∷ (key_9, entry 57 40 0 0 0 false)
    ∷ (key_0, entry 48 41 0 0 0 false)
    ∷ (key_minus, entry 91 123 0 0 0 false)
    ∷ (key_equal, entry 93 125 0 0 0 false)
    ∷ (key_q, entry 39 34 0 0 0 false)
    ∷ (key_w, entry 44 60 0 0 0 false)
    ∷ (key_e, entry 46 62 0 0 0 false)
    ∷ (key_r, entry 112 80 0 0 0 true)
    ∷ (key_t, entry 121 89 0 0 0 true)
    ∷ (key_y, entry 102 70 0 0 0 true)
    ∷ (key_u, entry 103 71 0 0 0 true)
    ∷ (key_i, entry 99 67 0 0 0 true)
    ∷ (key_o, entry 114 82 0 0 0 true)
    ∷ (key_p, entry 108 76 0 0 0 true)
    ∷ (key_lbracket, entry 47 63 0 0 0 false)
    ∷ (key_rbracket, entry 61 43 0 0 0 false)
    ∷ (key_a, entry 97 65 0 0 0 true)
    ∷ (key_s, entry 111 79 0 0 0 true)
    ∷ (key_d, entry 101 69 0 0 0 true)
    ∷ (key_f, entry 117 85 0 0 0 true)
    ∷ (key_g, entry 105 73 0 0 0 true)
    ∷ (key_h, entry 100 68 0 0 0 true)
    ∷ (key_j, entry 104 72 0 0 0 true)
    ∷ (key_k, entry 116 84 0 0 0 true)
    ∷ (key_l, entry 110 78 0 0 0 true)
    ∷ (key_semicolon, entry 115 83 0 0 0 true)
    ∷ (key_apostrophe, entry 45 95 0 0 0 false)
    ∷ (key_grave, entry 96 126 0 0 0 false)
    ∷ (key_backslash, entry 92 124 0 0 0 false)
    ∷ (key_z, entry 59 58 0 0 0 false)
    ∷ (key_x, entry 113 81 0 0 0 true)
    ∷ (key_c, entry 106 74 0 0 0 true)
    ∷ (key_v, entry 107 75 0 0 0 true)
    ∷ (key_b, entry 120 88 0 0 0 true)
    ∷ (key_n, entry 98 66 0 0 0 true)
    ∷ (key_m, entry 109 77 0 0 0 true)
    ∷ (key_comma, entry 119 87 0 0 0 true)
    ∷ (key_dot, entry 118 86 0 0 0 true)
    ∷ (key_slash, entry 122 90 0 0 0 true)
    ∷ (key_space, entry 32 32 0 0 0 false)
    ∷ []
