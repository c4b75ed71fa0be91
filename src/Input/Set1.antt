-- ===== src/Input/Set1.antt =====
-- input/keyboard.c: the tables from scan codes of set 1 to key codes, as pairs of an index and its
-- entry; the entries that are not listed are 0.
use zythos.Base.{ℕ, List, [], ◌∷◌}
use zythos.Input.Keycodes.{
  key_esc, key_1, key_2, key_3, key_4, key_5, key_6, key_7, key_8, key_9, key_0, key_minus,
  key_equal, key_backspace, key_tab, key_q, key_w, key_e, key_r, key_t, key_y, key_u, key_i, key_o,
  key_p, key_lbracket, key_rbracket, key_enter, key_left_ctrl, key_a, key_s, key_d, key_f, key_g,
  key_h, key_j, key_k, key_l, key_semicolon, key_apostrophe, key_grave, key_left_shift,
  key_backslash, key_z, key_x, key_c, key_v, key_b, key_n, key_m, key_comma, key_dot, key_slash,
  key_right_shift, key_kp_star, key_left_alt, key_space, key_caps_lock,
}
use zythos.Input.MoreKeycodes.{
  key_f1, key_f2, key_f3, key_f4, key_f5, key_f6, key_f7, key_f8, key_f9, key_f10, key_num_lock,
  key_scroll_lock, key_kp_7, key_kp_8, key_kp_9, key_kp_minus, key_kp_4, key_kp_5, key_kp_6,
  key_kp_plus, key_kp_1, key_kp_2, key_kp_3, key_kp_0, key_kp_dot, key_f11, key_f12, key_kp_enter,
  key_right_ctrl, key_kp_slash, key_right_alt, key_home, key_arrow_up, key_page_up, key_arrow_left,
  key_arrow_right, key_end, key_arrow_down, key_page_down, key_insert, key_delete,
}

abbrev pub set1_table : List (ℕ × ℕ)
set1_table =
    (0x01, key_esc)
    ∷ (0x02, key_1)
    ∷ (0x03, key_2)
    ∷ (0x04, key_3)
    ∷ (0x05, key_4)
    ∷ (0x06, key_5)
    ∷ (0x07, key_6)
    ∷ (0x08, key_7)
    ∷ (0x09, key_8)
    ∷ (0x0A, key_9)
    ∷ (0x0B, key_0)
    ∷ (0x0C, key_minus)
    ∷ (0x0D, key_equal)
    ∷ (0x0E, key_backspace)
    ∷ (0x0F, key_tab)
    ∷ (0x10, key_q)
    ∷ (0x11, key_w)
    ∷ (0x12, key_e)
    ∷ (0x13, key_r)
    ∷ (0x14, key_t)
    ∷ (0x15, key_y)
    ∷ (0x16, key_u)
    ∷ (0x17, key_i)
    ∷ (0x18, key_o)
    ∷ (0x19, key_p)
    ∷ (0x1A, key_lbracket)
    ∷ (0x1B, key_rbracket)
    ∷ (0x1C, key_enter)
    ∷ (0x1D, key_left_ctrl)
    ∷ (0x1E, key_a)
    ∷ (0x1F, key_s)
    ∷ (0x20, key_d)
    ∷ (0x21, key_f)
    ∷ (0x22, key_g)
    ∷ (0x23, key_h)
    ∷ (0x24, key_j)
    ∷ (0x25, key_k)
    ∷ (0x26, key_l)
    ∷ (0x27, key_semicolon)
    ∷ (0x28, key_apostrophe)
    ∷ (0x29, key_grave)
    ∷ (0x2A, key_left_shift)
    ∷ (0x2B, key_backslash)
    ∷ (0x2C, key_z)
    ∷ (0x2D, key_x)
    ∷ (0x2E, key_c)
    ∷ (0x2F, key_v)
    ∷ (0x30, key_b)
    ∷ (0x31, key_n)
    ∷ (0x32, key_m)
    ∷ (0x33, key_comma)
    ∷ (0x34, key_dot)
    ∷ (0x35, key_slash)
    ∷ (0x36, key_right_shift)
    ∷ (0x37, key_kp_star)
    ∷ (0x38, key_left_alt)
    ∷ (0x39, key_space)
    ∷ (0x3A, key_caps_lock)
    ∷ (0x3B, key_f1)
    ∷ (0x3C, key_f2)
    ∷ (0x3D, key_f3)
    ∷ (0x3E, key_f4)
    ∷ (0x3F, key_f5)
    ∷ (0x40, key_f6)
    ∷ (0x41, key_f7)
    ∷ (0x42, key_f8)
    ∷ (0x43, key_f9)
    ∷ (0x44, key_f10)
    ∷ (0x45, key_num_lock)
    ∷ (0x46, key_scroll_lock)
    ∷ (0x47, key_kp_7)
    ∷ (0x48, key_kp_8)
    ∷ (0x49, key_kp_9)
    ∷ (0x4A, key_kp_minus)
    ∷ (0x4B, key_kp_4)
    ∷ (0x4C, key_kp_5)
    ∷ (0x4D, key_kp_6)
    ∷ (0x4E, key_kp_plus)
    ∷ (0x4F, key_kp_1)
    ∷ (0x50, key_kp_2)
    ∷ (0x51, key_kp_3)
    ∷ (0x52, key_kp_0)
    ∷ (0x53, key_kp_dot)
    ∷ (0x57, key_f11)
    ∷ (0x58, key_f12)
    ∷ []

abbrev pub set1_extended_table : List (ℕ × ℕ)
set1_extended_table =
    (0x1C, key_kp_enter)
    ∷ (0x1D, key_right_ctrl)
    ∷ (0x35, key_kp_slash)
    ∷ (0x38, key_right_alt)
    ∷ (0x47, key_home)
    ∷ (0x48, key_arrow_up)
    ∷ (0x49, key_page_up)
    ∷ (0x4B, key_arrow_left)
    ∷ (0x4D, key_arrow_right)
    ∷ (0x4F, key_end)
    ∷ (0x50, key_arrow_down)
    ∷ (0x51, key_page_down)
    ∷ (0x52, key_insert)
    ∷ (0x53, key_delete)
    ∷ []
