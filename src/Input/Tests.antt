-- ===== src/Input/Tests.antt =====
-- The theorems on input/ at a few keys.
use zythos.Base.{◌≡◌, refl, true, false, List, [], ◌∷◌, arith}
use zythos.Input.Keycodes.{key_a, key_left_shift, key_caps_lock}
use zythos.Input.MoreKeycodes.{key_arrow_up}
use zythos.Input.Flags.{has_flag}
use zythos.Input.Keyboard.Release.{release_rearms}
use zythos.Base.{◌≢◌}
use zythos.Input.Keymap.{keymap_translate_keycode, kb_mod_caps, kb_mod_shift}
use zythos.Input.Keyboard.{update_modifier, Keyboard}
use zythos.Input.Keyboard.Stream.{
  Stroke, AllKeys, encode_all, handle_all, strike_all, handle_all-encode_all,
}
use zythos.Input.Keyboard.Modifiers.{handle_all-modifiers}

abbrev boot : Keyboard
boot = record {
  current_mods = 0;
  pending_extended = false;
  keymap = record { current = 0; active_dead = 0 };
}

abbrev typed : List Stroke
typed =
    (key_caps_lock, true)
    ∷ (key_left_shift, true)
    ∷ (key_a, true)
    ∷ (key_arrow_up, true)
    ∷ (key_left_shift, false)
    ∷ []

typed_keys : AllKeys typed
typed_keys = (
  (omega arith, omega arith),
  (
    (omega arith, omega arith),
    ((omega arith, omega arith), ((omega arith, omega arith), ((omega arith, omega arith), tt))),
  ),
)

handle_all-encode_all_example : handle_all (encode_all typed) boot ≡ strike_all typed boot
handle_all-encode_all_example = handle_all-encode_all typed boot refl typed_keys

handle_all-modifiers_example :
    let new = (handle_all (encode_all typed) boot).1.current_mods in
    (has_flag kb_mod_caps new ≡ true) × (has_flag kb_mod_shift new ≡ false)
handle_all-modifiers_example = handle_all-modifiers typed boot refl typed_keys

-- The French layout.
abbrev azerty : Keyboard
azerty = record boot { keymap = record { current = 1; active_dead = 0 } }

-- `^` is pressed and composed, and then released.
release_rearms_example :
    let pressed = (handle_all (encode_all ((26, true) ∷ [])) azerty).1 in
    let released = (handle_all (encode_all ((26, false) ∷ [])) azerty).1 in
    (released.keymap.active_dead ≢ 0) × (released.keymap.active_dead ≡ pressed.keymap.active_dead)
unfolding keymap_translate_keycode update_modifier
release_rearms_example =
    release_rearms 26 azerty azerty (omega arith) (omega arith) refl refl refl refl refl refl
