-- ===== src/Input/Keymap.antt =====
-- input/keymap.c: the layout in use, the levels of a key and the dead keys.
pub mod Dead
pub mod Control
pub mod Current
use zythos.Base.{
  ltb, ℕ, ◌^◌, Bool, true, false, not, ◌&&◌, ◌||◌, List, [], ◌∷◌, leb, ◌==◌, if◌then◌else◌, length,
  get_or,
}
use zythos.Input.Keycodes.{
  key_esc, key_backspace, key_tab, key_enter, key_left_ctrl, key_left_shift, key_right_shift,
  key_left_alt, key_caps_lock,
}
use zythos.Input.MoreKeycodes.{
  key_max, key_kp_enter, key_arrow_up, key_arrow_down, key_arrow_left, key_arrow_right,
  key_right_ctrl, key_right_alt, key_delete, key_f1, key_f2, key_f3, key_f4, key_f5, key_f6, key_f7,
  key_f8, key_f9, key_f10, key_f11, key_f12,
}
use zythos.Input.Flags.{has_flag}
use zythos.Input.Layouts.{KeymapEntry, entry}
use zythos.Input.Layouts.Qwerty.{layout_qwerty}
use zythos.Input.Layouts.Azerty.{layout_azerty}
use zythos.Input.Layouts.Qwertz.{layout_qwertz}
use zythos.Input.Layouts.Dvorak.{layout_dvorak}

abbrev pub kb_mod_shift : ℕ
kb_mod_shift = 1

abbrev pub kb_mod_ctrl : ℕ
kb_mod_ctrl = 2

abbrev pub kb_mod_alt : ℕ
kb_mod_alt = 4

abbrev pub kb_mod_altgr : ℕ
kb_mod_altgr = 8

abbrev pub kb_mod_caps : ℕ
kb_mod_caps = 16

abbrev pub kb_mod_num : ℕ
kb_mod_num = 32

abbrev pub kb_mod_scroll : ℕ
kb_mod_scroll = 64

-- The file's variables `g_current` and `g_active_dead`.
pub record Keymap : Type 0 where
  pub current : ℕ
  pub active_dead : ℕ

pub record KeymapResult : Type 0 where
  pub codepoint : ℕ
  pub is_text : Bool
  pub is_dead : Bool

abbrev pub g_layouts : List (List (ℕ × KeymapEntry))
g_layouts = layout_qwerty ∷ layout_azerty ∷ layout_qwertz ∷ layout_dvorak ∷ []

abbrev pub g_compose_table : List (ℕ × ℕ × ℕ)
g_compose_table =
    (94, 97, 226)
    ∷ (94, 101, 234)
    ∷ (94, 105, 238)
    ∷ (94, 111, 244)
    ∷ (94, 117, 251)
    ∷ (94, 65, 194)
    ∷ (94, 69, 202)
    ∷ (94, 73, 206)
    ∷ (94, 79, 212)
    ∷ (94, 85, 219)
    ∷ (168, 97, 228)
    ∷ (168, 101, 235)
    ∷ (168, 105, 239)
    ∷ (168, 111, 246)
    ∷ (168, 117, 252)
    ∷ (168, 121, 255)
    ∷ (168, 65, 196)
    ∷ (168, 69, 203)
    ∷ (168, 73, 207)
    ∷ (168, 79, 214)
    ∷ (168, 85, 220)
    ∷ (180, 97, 225)
    ∷ (180, 101, 233)
    ∷ (180, 105, 237)
    ∷ (180, 111, 243)
    ∷ (180, 117, 250)
    ∷ (180, 65, 193)
    ∷ (180, 69, 201)
    ∷ (180, 73, 205)
    ∷ (180, 79, 211)
    ∷ (180, 85, 218)
    ∷ (96, 97, 224)
    ∷ (96, 101, 232)
    ∷ (96, 105, 236)
    ∷ (96, 111, 242)
    ∷ (96, 117, 249)
    ∷ []

pub keymap_init : Keymap → Keymap
keymap_init s = record s { current = 0 }

abbrev pub keymap_get_count : ℕ
keymap_get_count = length g_layouts

-- `id` is a 32-bit word; as an `int` it is negative from 2^31 on.
pub keymap_set_current : ℕ → Keymap → Keymap
keymap_set_current id s =
    if leb (2 ^ 31) id || leb keymap_get_count id then s else record s { current = id }

pub keymap_get_current : Keymap → ℕ
keymap_get_current s = s.current

-- The names of the layouts, and "Unknown".
abbrev pub layout_names : List (List ℕ)
layout_names =
    (b'Q' ∷ b'W' ∷ b'E' ∷ b'R' ∷ b'T' ∷ b'Y' ∷ b' ' ∷ b'(' ∷ b'U' ∷ b'S' ∷ b')' ∷ [])
    ∷ (b'A' ∷ b'Z' ∷ b'E' ∷ b'R' ∷ b'T' ∷ b'Y' ∷ b' ' ∷ b'(' ∷ b'F' ∷ b'R' ∷ b')' ∷ [])
    ∷ (b'Q' ∷ b'W' ∷ b'E' ∷ b'R' ∷ b'T' ∷ b'Z' ∷ b' ' ∷ b'(' ∷ b'D' ∷ b'E' ∷ b')' ∷ [])
    ∷ (b'D' ∷ b'V' ∷ b'O' ∷ b'R' ∷ b'A' ∷ b'K' ∷ [])
    ∷ []

pub keymap_get_name : ℕ → List ℕ
keymap_get_name id =
    if leb (2 ^ 31) id || leb keymap_get_count id
    then (b'U' ∷ b'n' ∷ b'k' ∷ b'n' ∷ b'o' ∷ b'w' ∷ b'n' ∷ [])
    else get_or layout_names id []

-- `entries[keycode]`; an entry that the initialiser does not name is 0.
abbrev pub entries_at : List (ℕ × KeymapEntry) → ℕ → KeymapEntry
entries_at [] keycode = entry 0 0 0 0 0 false
entries_at ((k, e) ∷ rest) keycode = if k == keycode then e else entries_at rest keycode

abbrev pub make_result : ℕ → Bool → KeymapResult
make_result cp dead = record { codepoint = cp; is_text = not (cp == 0); is_dead = dead }

abbrev pub compose_in : List (ℕ × ℕ × ℕ) → ℕ → ℕ → ℕ
compose_in [] dead_codepoint base_codepoint = 0
compose_in ((dead, base, result) ∷ rest) dead_codepoint base_codepoint =
    if (dead == dead_codepoint) && (base == base_codepoint)
    then result
    else compose_in rest dead_codepoint base_codepoint

unfoldable pub keymap_compose : ℕ → ℕ → ℕ
keymap_compose = compose_in g_compose_table

abbrev pub xor : Bool → Bool → Bool
xor a b = if a then not b else b

-- `cp` and `dead_mask_bit`.
abbrev pub level : KeymapEntry → ℕ → ℕ × ℕ
level e mods =
    let shift = has_flag kb_mod_shift mods in
    let caps = has_flag kb_mod_caps mods in
    if has_flag kb_mod_altgr mods
    then (if shift then (e.shift_altgr, 8) else (e.altgr, 4))
    else if e.alpha
    then (if xor shift caps then (e.shift, 2) else (e.normal, 1))
    else if shift
    then (e.shift, 2)
    else (e.normal, 1)

-- The tail of `keymap_translate_keycode`, from the code point and whether its level is dead.
abbrev pub produce : ℕ → Bool → Keymap → KeymapResult × Keymap
produce cp is_dead s =
    if is_dead && not (cp == 0)
    then (make_result 0 true, record s { active_dead = cp })
    else if not (s.active_dead == 0) && not (cp == 0)
    then (let combined = keymap_compose s.active_dead cp in
        (make_result (if combined == 0 then cp else combined) false, record s { active_dead = 0 }))
    else (make_result cp false, s)

abbrev pub is_unused : KeymapEntry → Bool
is_unused e = (e.normal == 0) && (e.shift == 0) && (e.altgr == 0) && (e.shift_altgr == 0)

unfoldable pub keymap_translate_keycode : ℕ → ℕ → Keymap → KeymapResult × Keymap
keymap_translate_keycode keycode mods s =
    let e = entries_at (get_or g_layouts s.current []) keycode in
    let (cp, dead_mask_bit) = level e mods in
    if (keycode == 0) || leb key_max keycode
    then (make_result 0 false, s)
    else if is_unused e
    then (make_result 0 false, s)
    else produce cp (has_flag dead_mask_bit e.dead_mask) s
