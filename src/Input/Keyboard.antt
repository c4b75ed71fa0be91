-- ===== src/Input/Keyboard.antt =====
-- input/keyboard.c: scan codes of set 1 to key events, and the modifiers.
pub mod Scan
pub mod Stream
mod Bits
pub mod Modifiers
pub mod Release
use zythos.Base.{
  ℕ, ◌%◌, Bool, true, false, not, ◌&&◌, ◌||◌, Option, none, some, List, [], ◌∷◌, leb, ◌==◌,
  if◌then◌else◌,
}
use zythos.Input.Keycodes.{
  key_left_ctrl, key_left_shift, key_right_shift, key_left_alt, key_caps_lock,
}
use zythos.Input.MoreKeycodes.{key_num_lock, key_scroll_lock, key_right_ctrl, key_right_alt}
use zythos.Input.Flags.{set_flag, clear_flag, toggle_flag, has_flag}
use zythos.Input.Set1.{set1_table, set1_extended_table}
use zythos.Input.Keymap.{
  Keymap, keymap_init, keymap_translate_keycode, kb_mod_shift, kb_mod_ctrl, kb_mod_alt,
  kb_mod_altgr, kb_mod_caps, kb_mod_num, kb_mod_scroll,
}

-- The file's variables and the keymap's.
pub record Keyboard : Type 0 where
  pub current_mods : ℕ
  pub pending_extended : Bool
  pub keymap : Keymap

pub record KeyboardEvent : Type 0 where
  pub keycode : ℕ
  pub codepoint : ℕ
  pub mods : ℕ
  pub pressed : Bool
  pub repeat : Bool
  pub is_text : Bool

abbrev pub table_at : List (ℕ × ℕ) → ℕ → ℕ
table_at [] index = 0
table_at ((i, keycode) ∷ rest) index = if i == index then keycode else table_at rest index

-- The index is `scancode & 0x7F`, so the test that it is below 128 always holds.
pub keyboard_keycode_from_set1 : ℕ → Bool → ℕ
keyboard_keycode_from_set1 scancode extended =
    let index = scancode % 128 in
    if leb 128 index
    then 0
    else if extended
    then table_at set1_extended_table index
    else table_at set1_table index

unfoldable pub update_modifier : ℕ → Bool → ℕ → ℕ
update_modifier keycode pressed mods =
    let hold = λ (flag : ℕ). if pressed then set_flag flag mods else clear_flag flag mods in
    let toggle = λ (flag : ℕ). if pressed then toggle_flag flag mods else mods in
    if (keycode == key_left_shift) || (keycode == key_right_shift)
    then hold kb_mod_shift
    else if (keycode == key_left_ctrl) || (keycode == key_right_ctrl)
    then hold kb_mod_ctrl
    else if keycode == key_left_alt
    then hold kb_mod_alt
    else if keycode == key_right_alt
    then hold kb_mod_altgr
    else if keycode == key_caps_lock
    then toggle kb_mod_caps
    else if keycode == key_num_lock
    then toggle kb_mod_num
    else if keycode == key_scroll_lock
    then toggle kb_mod_scroll
    else mods

-- `none` where the code returns false and leaves the event as it is.
pub keyboard_handle_set1_scancode : ℕ → Keyboard → Option KeyboardEvent × Keyboard
keyboard_handle_set1_scancode scancode s =
    if scancode == 0xE0
    then (none, record s { pending_extended = true })
    else (let pressed = not (has_flag 0x80 scancode) in
        let keycode = keyboard_keycode_from_set1 scancode s.pending_extended in
        if keycode == 0
        then (none, record s { pending_extended = false })
        else (let mods = update_modifier keycode pressed s.current_mods in
            let (translated, keymap) = keymap_translate_keycode keycode mods s.keymap in
            (
              some (record {
                keycode = keycode;
                codepoint = translated.codepoint;
                mods = mods;
                pressed = pressed;
                repeat = false;
                is_text = translated.is_text && pressed;
              }),
              record { current_mods = mods; pending_extended = false; keymap = keymap },
            )))

pub keyboard_init : Keyboard → Keyboard
keyboard_init s = record s { current_mods = 0; keymap = keymap_init s.keymap }

abbrev pub keyboard_shift_pressed : Keyboard → Bool
keyboard_shift_pressed s = has_flag kb_mod_shift s.current_mods

abbrev pub keyboard_ctrl_pressed : Keyboard → Bool
keyboard_ctrl_pressed s = has_flag kb_mod_ctrl s.current_mods
