-- ===== src/Input/MoreKeycodes.antt =====
-- input/keycodes.h: the other key codes (function keys, keypad, cursor keys) and their number.
use zythos.Base.{ℕ}

abbrev pub key_f1 : ℕ
key_f1 = 59

abbrev pub key_f2 : ℕ
key_f2 = 60

abbrev pub key_f3 : ℕ
key_f3 = 61

abbrev pub key_f4 : ℕ
key_f4 = 62

abbrev pub key_f5 : ℕ
key_f5 = 63

abbrev pub key_f6 : ℕ
key_f6 = 64

abbrev pub key_f7 : ℕ
key_f7 = 65

abbrev pub key_f8 : ℕ
key_f8 = 66

abbrev pub key_f9 : ℕ
key_f9 = 67

abbrev pub key_f10 : ℕ
key_f10 = 68

abbrev pub key_num_lock : ℕ
key_num_lock = 69

abbrev pub key_scroll_lock : ℕ
key_scroll_lock = 70

abbrev pub key_kp_7 : ℕ
key_kp_7 = 71

abbrev pub key_kp_8 : ℕ
key_kp_8 = 72

abbrev pub key_kp_9 : ℕ
key_kp_9 = 73

abbrev pub key_kp_minus : ℕ
key_kp_minus = 74

abbrev pub key_kp_4 : ℕ
key_kp_4 = 75

abbrev pub key_kp_5 : ℕ
key_kp_5 = 76

abbrev pub key_kp_6 : ℕ
key_kp_6 = 77

abbrev pub key_kp_plus : ℕ
key_kp_plus = 78

abbrev pub key_kp_1 : ℕ
key_kp_1 = 79

abbrev pub key_kp_2 : ℕ
key_kp_2 = 80

abbrev pub key_kp_3 : ℕ
key_kp_3 = 81

abbrev pub key_kp_0 : ℕ
key_kp_0 = 82

abbrev pub key_kp_dot : ℕ
key_kp_dot = 83

abbrev pub key_f11 : ℕ
key_f11 = 84

abbrev pub key_f12 : ℕ
key_f12 = 85

abbrev pub key_kp_enter : ℕ
key_kp_enter = 86

abbrev pub key_right_ctrl : ℕ
key_right_ctrl = 87

abbrev pub key_kp_slash : ℕ
key_kp_slash = 88

abbrev pub key_right_alt : ℕ
key_right_alt = 89

abbrev pub key_home : ℕ
key_home = 90

abbrev pub key_arrow_up : ℕ
key_arrow_up = 91

abbrev pub key_page_up : ℕ
key_page_up = 92

abbrev pub key_arrow_left : ℕ
key_arrow_left = 93

abbrev pub key_arrow_right : ℕ
key_arrow_right = 94

abbrev pub key_end : ℕ
key_end = 95

abbrev pub key_arrow_down : ℕ
key_arrow_down = 96

abbrev pub key_page_down : ℕ
key_page_down = 97

abbrev pub key_insert : ℕ
key_insert = 98

abbrev pub key_delete : ℕ
key_delete = 99

abbrev pub key_max : ℕ
key_max = 100
