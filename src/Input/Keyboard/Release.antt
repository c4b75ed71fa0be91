-- ===== src/Input/Keyboard/Release.antt =====
-- input/keyboard.c at the release of a dead key.
use zythos.Base.{ℕ, ◌<◌, ◌≡◌, sym, ap, ◌∙◌, ◌≢◌, true, false, [], ◌∷◌}
use zythos.Input.Keymap.{keymap_translate_keycode}
use zythos.Input.Keymap.Dead.{dead_again}
use zythos.Input.Keyboard.{Keyboard, update_modifier}
use zythos.Input.Keyboard.Stream.{encode_all, strike, strike_all, handle_all, handle_all-encode_all}

-- A key that is dead, is no modifier, and is pressed, then any other keys in between that leave the
-- modifiers and the layout as they are, then its release: after the release the key waits again to be
-- composed, whether or not it has been composed in between.
pub release_rearms :
    (k : ℕ) (s t : Keyboard)
    → 0 < k
    → k < 100
    → s.pending_extended ≡ false
    → t.pending_extended ≡ false
    → update_modifier k true s.current_mods ≡ s.current_mods
    → update_modifier k false t.current_mods ≡ s.current_mods
    → s.keymap.current ≡ t.keymap.current
    → (keymap_translate_keycode k s.current_mods s.keymap).0.is_dead ≡ true
    → let pressed = (handle_all (encode_all ((k, true) ∷ [])) s).1 in
      let released = (handle_all (encode_all ((k, false) ∷ [])) t).1 in
      (released.keymap.active_dead ≢ 0) × (released.keymap.active_dead ≡ pressed.keymap.active_dead)
unfolding strike_all strike
release_rearms k s t pos lt settled settled' held held' same dead =
    let down = handle_all-encode_all ((k, true) ∷ []) s settled ((pos, lt), tt) in
    let up = handle_all-encode_all ((k, false) ∷ []) t settled' ((pos, lt), tt) in
    let (cp, ne, first, second) = dead_again k s.current_mods s.keymap t.keymap same dead in
    let pressed =
      ap (λ r. r.1.keymap.active_dead) down
      ∙ ap (λ w. (keymap_translate_keycode k w s.keymap).1.active_dead) held
      ∙ ap (λ r. r.1.active_dead) first in
    let released =
      ap (λ r. r.1.keymap.active_dead) up
      ∙ ap (λ w. (keymap_translate_keycode k w t.keymap).1.active_dead) held'
      ∙ ap (λ r. r.1.active_dead) second in
    ((λ z. ne (sym released ∙ z)), released ∙ sym pressed)
