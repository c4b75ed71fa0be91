-- ===== src/Input/Keymap/Current.antt =====
-- The index of the layout in use, of input/keymap.c.

use zythos.Base.{
  ℕ, ◌^◌, ◌<◌, ◌≡◌, refl, inl, inr, Bool, true, false, not, ◌&&◌, ◌||◌, List, [], ◌∷◌, arith, leb,
  ◌==◌, if◌then◌else◌, Bool-cases, length, get_or,
}
use zythos.Input.MoreKeycodes.{key_max}
use zythos.Input.Flags.{has_flag}
use zythos.Input.Keymap.{
  Keymap, KeymapResult, g_layouts, entries_at, level, is_unused, produce, make_result, keymap_init,
  keymap_set_current, keymap_get_count, keymap_translate_keycode,
}

-- The calls that change the state of the file.
pub data Call : Type 0 where
  init : Call
  set_current : ℕ → Call
  translate : ℕ → ℕ → Call

abbrev pub call : Call → Keymap → Keymap
call init s = keymap_init s
call (set_current id) s = keymap_set_current id s
call (translate keycode mods) s = (keymap_translate_keycode keycode mods s).1

abbrev pub calls : List Call → Keymap → Keymap
calls [] s = s
calls (c ∷ cs) s = calls cs (call c s)

set_current-in_range : (id : ℕ) (s : Keymap) → s.current < 4 → (keymap_set_current id s).current < 4
unfolding keymap_set_current
set_current-in_range id s lt = elim (Bool-cases (leb (2 ^ 31) id || leb keymap_get_count id)) [
  | inl refused ↦ rw refused lt
  | inr taken ↦ rw taken (ground (arith, taken))
]

produce-current : (cp : ℕ) (d : Bool) (s : Keymap) → (produce cp d s).1.current ≡ s.current
produce-current cp d s = elim (Bool-cases (d && not (cp == 0))) [
  | inl dead ↦ rw dead refl
  | inr alive ↦ elim (Bool-cases (not (s.active_dead == 0) && not (cp == 0))) [
    | inl pending ↦ rw (alive, pending) refl
    | inr idle ↦ rw (alive, idle) refl
  ]
]

either :
    (g u : Bool) (r : KeymapResult) (s : Keymap) (x : KeymapResult × Keymap)
    → x.1.current ≡ s.current
    → (if g then (r, s) else if u then (r, s) else x).1.current ≡ s.current
either true u r s x same = refl
either false true r s x same = refl
either false false r s x same = same

translate-current :
    (keycode mods : ℕ) (s : Keymap)
    → (keymap_translate_keycode keycode mods s).1.current ≡ s.current
unfolding keymap_translate_keycode
translate-current keycode mods s =
    let e = entries_at (get_or g_layouts s.current []) keycode in
    let (cp, bit) = level e mods in
    either ((keycode == 0) || leb key_max keycode) (is_unused e) (make_result 0 false) s _
      (produce-current cp (has_flag bit e.dead_mask) s)

call-in_range : (c : Call) (s : Keymap) → s.current < 4 → (call c s).current < 4
unfolding keymap_init
call-in_range init s lt = omega arith
call-in_range (set_current id) s lt = set_current-in_range id s lt
call-in_range (translate keycode mods) s lt = omega (arith, translate-current keycode mods s, lt)

-- Whatever calls are made, and with whatever index as a 32-bit word, the index of the layout in use
-- stays below the number of layouts, so that every access to the table of layouts is in its bounds.
calls-in_range :
    (cs : List Call) (s : Keymap)
    → s.current < length g_layouts
    → (calls cs s).current < length g_layouts
calls-in_range [] s lt = lt
calls-in_range (c ∷ cs) s lt = calls-in_range cs (call c s) (call-in_range c s lt)
