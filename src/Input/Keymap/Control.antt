-- ===== src/Input/Keymap/Control.antt =====
-- The keys without a character in the layouts of input/keymap.c.
use zythos.Base.{
  all_below-at, all_below, all_below, ℕ, zero, suc, ◌<◌, ◌≡◌, refl, Bool, true, false, not, ◌&&◌,
  ◌||◌, [], arith, leb, ◌==◌, if◌then◌else◌, get_or,
}
use zythos.Input.Keycodes.{key_esc, key_backspace, key_tab, key_enter}
use zythos.Input.MoreKeycodes.{key_max, key_kp_enter, key_delete}
use zythos.Input.Layouts.Qwerty.{layout_qwerty}
use zythos.Input.Layouts.Azerty.{layout_azerty}
use zythos.Input.Layouts.Qwertz.{layout_qwertz}
use zythos.Input.Layouts.Dvorak.{layout_dvorak}
use zythos.Input.Keymap.{
  Keymap, g_layouts, entries_at, is_unused, make_result, keymap_translate_keycode,
}

abbrev pub is_control : ℕ → Bool
is_control k =
    (k == key_esc)
    || (k == key_backspace)
    || (k == key_tab)
    || (k == key_enter)
    || (k == key_kp_enter)
    || (k == key_delete)

abbrev silent : ℕ → Bool
silent k =
    not (is_control k)
    || (is_unused (entries_at layout_qwerty k)
        && is_unused (entries_at layout_azerty k)
        && is_unused (entries_at layout_qwertz k)
        && is_unused (entries_at layout_dvorak k))

all_silent : all_below 100 silent ≡ true
all_silent = refl

implied : (a b : Bool) → (not a || b) ≡ true → a ≡ true → b ≡ true
implied true b holds on = holds
implied false b holds on = absurd (cc on)

four :
    (a b c d : Bool) → (a && b && c && d) ≡ true → (a ≡ true) × (b ≡ true) × (c ≡ true) × (d ≡ true)
four true true true true holds = (refl, refl, refl, refl)
four true true true false holds = absurd (cc holds)
four true true false d holds = absurd (cc holds)
four true false c d holds = absurd (cc holds)
four false b c d holds = absurd (cc holds)

by_layout :
    (k current : ℕ)
    → current < 4
    → is_unused (entries_at layout_qwerty k) ≡ true
    → is_unused (entries_at layout_azerty k) ≡ true
    → is_unused (entries_at layout_qwertz k) ≡ true
    → is_unused (entries_at layout_dvorak k) ≡ true
    → is_unused (entries_at (get_or g_layouts current []) k) ≡ true
by_layout k zero in_range a b c d = a
by_layout k (suc zero) in_range a b c d = b
by_layout k (suc (suc zero)) in_range a b c d = c
by_layout k (suc (suc (suc zero))) in_range a b c d = d
by_layout k (suc (suc (suc (suc n)))) in_range a b c d = absurd (omega arith)

either_way {ℓ} :
    {A : Type ℓ} (g u : Bool) (r x : A) → u ≡ true → (if g then r else if u then r else x) ≡ r
either_way true u r x on = refl
either_way false true r x on = refl
either_way false false r x on = absurd (cc on)

-- Every layout has the entry of 0s for them.
control-unused :
    (k current : ℕ)
    → k < 100
    → is_control k ≡ true
    → current < 4
    → is_unused (entries_at (get_or g_layouts current []) k) ≡ true
control-unused k current lt control in_range =
    let all =
      four (is_unused (entries_at layout_qwerty k)) (is_unused (entries_at layout_azerty k))
        (is_unused (entries_at layout_qwertz k)) (is_unused (entries_at layout_dvorak k))
        (implied (is_control k) _ (all_below-at 100 silent k all_silent lt) control) in
    by_layout k current in_range all.0 all.1 all.2 all.3

-- In no layout, and with no modifiers, do escape, backspace, tab, enter, the keypad's enter and delete
-- give a character; they leave a dead key waiting.
pub control_silent :
    (k mods : ℕ) (s : Keymap)
    → k < 100
    → is_control k ≡ true
    → s.current < 4
    → keymap_translate_keycode k mods s ≡ (make_result 0 false, s)
unfolding keymap_translate_keycode
control_silent k mods s lt control in_range =
    let e = entries_at (get_or g_layouts s.current []) k in
    either_way ((k == 0) || leb key_max k) (is_unused e) (make_result 0 false, s) _
      (control-unused k s.current lt control in_range)
