-- ===== src/Input/Layouts/Azerty.antt =====
-- input/keymap.c: `layout_azerty`, as code points.
use zythos.Base.{ℕ, List, [], ◌∷◌, true, false}
use zythos.Input.Keycodes.{
  key_1, key_2, key_3, key_4, key_5, key_6, key_7, key_8, key_9, key_0, key_minus, key_equal, key_q,
  key_w, key_e, key_r, key_t, key_y, key_u, key_i, key_o, key_p, key_lbracket, key_rbracket, key_a,
  key_s, key_d, key_f, key_g, key_h, key_j, key_k, key_l, key_semicolon, key_apostrophe, key_grave,
  key_backslash, key_z, key_x, key_c, key_v, key_b, key_n, key_m, key_comma, key_dot, key_slash,
  key_kp_star, key_space,
}
use zythos.Input.MoreKeycodes.{
  key_kp_7, key_kp_8, key_kp_9, key_kp_minus, key_kp_4, key_kp_5, key_kp_6, key_kp_plus, key_kp_1,
  key_kp_2, key_kp_3, key_kp_0, key_kp_dot, key_kp_slash,
}
use zythos.Input.Layouts.{KeymapEntry, entry}

abbrev pub layout_azerty : List (ℕ × KeymapEntry)
layout_azerty =
    (key_1, entry 38 49 0 0 0 false)
    ∷ (key_2, entry 233 50 126 0 0 false)
    ∷ (key_3, entry 34 51 35 0 0 false)
    ∷ (key_4, entry 39 52 123 0 0 false)
    ∷ (key_5, entry 40 53 91 0 0 false)
    ∷ (key_6, entry 45 54 124 0 0 false)
    ∷ (key_7, entry 232 55 96 0 0 false)
    ∷ (key_8, entry 95 56 92 0 0 false)
    ∷ (key_9, entry 231 57 94 0 0 false)
    ∷ (key_0, entry 224 48 64 0 0 false)
    ∷ (key_minus, entry 41 176 93 0 0 false)
    ∷ (key_equal, entry 61 43 125 0 0 false)
    ∷ (key_q, entry 97 65 0 0 0 true)
    ∷ (key_w, entry 122 90 0 0 0 true)
    ∷ (key_e, entry 101 69 8364 0 0 true)
    ∷ (key_r, entry 114 82 0 0 0 true)
    ∷ (key_t, entry 116 84 0 0 0 true)
    ∷ (key_y, entry 121 89 0 0 0 true)
    ∷ (key_u, entry 117 85 0 0 0 true)
    ∷ (key_i, entry 105 73 0 0 0 true)
    ∷ (key_o, entry 111 79 0 0 0 true)
    ∷ (key_p, entry 112 80 0 0 0 true)
    ∷ (key_lbracket, entry 94 168 0 0 3 false)
    ∷ (key_rbracket, entry 36 163 0 0 0 false)
    ∷ (key_a, entry 113 81 0 0 0 true)
    ∷ (key_s, entry 115 83 0 0 0 true)
    ∷ (key_d, entry 100 68 0 0 0 true)
    ∷ (key_f, entry 102 70 0 0 0 true)
    ∷ (key_g, entry 103 71 0 0 0 true)
    ∷ (key_h, entry 104 72 0 0 0 true)
    ∷ (key_j, entry 106 74 0 0 0 true)
    ∷ (key_k, entry 107 75 0 0 0 true)
    ∷ (key_l, entry 108 76 0 0 0 true)
    ∷ (key_semicolon, entry 109 77 0 0 0 true)
    ∷ (key_apostrophe, entry 249 37 0 0 0 false)
    ∷ (key_grave, entry 178 0 0 0 0 false)
    ∷ (key_backslash, entry 42 181 0 0 0 false)
    ∷ (key_z, entry 119 87 0 0 0 true)
    ∷ (key_x, entry 120 88 0 0 0 true)
    ∷ (key_c, entry 99 67 0 0 0 true)
    ∷ (key_v, entry 118 86 0 0 0 true)
    ∷ (key_b, entry 98 66 0 0 0 true)
    ∷ (key_n, entry 110 78 0 0 0 true)
    ∷ (key_m, entry 44 63 0 0 0 false)
    ∷ (key_comma, entry 59 46 0 0 0 false)
    ∷ (key_dot, entry 58 47 0 0 0 false)
    ∷ (key_slash, entry 33 167 0 0 0 false)
    ∷ (key_space, entry 32 32 0 0 0 false)
    ∷ (key_kp_slash, entry 47 47 0 0 0 false)
    ∷ (key_kp_star, entry 42 42 0 0 0 false)
    ∷ (key_kp_minus, entry 45 45 0 0 0 false)
    ∷ (key_kp_plus, entry 43 43 0 0 0 false)
    ∷ (key_kp_dot, entry 46 46 0 0 0 false)
    ∷ (key_kp_0, entry 48 48 0 0 0 false)
    ∷ (key_kp_1, entry 49 49 0 0 0 false)
    ∷ (key_kp_2, entry 50 50 0 0 0 false)
    ∷ (key_kp_3, entry 51 51 0 0 0 false)
    ∷ (key_kp_4, entry 52 52 0 0 0 false)
    ∷ (key_kp_5, entry 53 53 0 0 0 false)
    ∷ (key_kp_6, entry 54 54 0 0 0 false)
    ∷ (key_kp_7, entry 55 55 0 0 0 false)
    ∷ (key_kp_8, entry 56 56 0 0 0 false)
    ∷ (key_kp_9, entry 57 57 0 0 0 false)
    ∷ []
