-- ===== src/Input/Legacy.antt =====
-- input/keymap.c: `keymap_legacy_key`, the codes that applications read for the keys.
use zythos.Base.{
  ℕ, ◌≤◌, ◌<◌, ◌≡◌, refl, ◌⊎◌, inl, inr, Bool, true, false, not, ◌&&◌, ◌||◌, List, [], ◌∷◌, arith,
  ltb, leb, ◌==◌, if◌then◌else◌, Bool-cases,
}
use zythos.Base.{and_true}
use zythos.Input.Keycodes.{
  key_esc, key_backspace, key_tab, key_enter, key_left_ctrl, key_left_shift, key_right_shift,
  key_left_alt, key_caps_lock,
}
use zythos.Input.MoreKeycodes.{
  key_kp_enter, key_arrow_up, key_arrow_down, key_arrow_left, key_arrow_right, key_right_ctrl,
  key_right_alt, key_delete, key_f1, key_f2, key_f3, key_f4, key_f5, key_f6, key_f7, key_f8, key_f9,
  key_f10, key_f11, key_f12,
}

-- The `switch` of `keymap_legacy_key`: the labels with their results; 0 for another key.
abbrev pub legacy_cases : List (ℕ × ℕ)
legacy_cases =
    (key_esc, 27)
    ∷ (key_backspace, 8)
    ∷ (key_tab, 9)
    ∷ (key_enter, 10)
    ∷ (key_kp_enter, 10)
    ∷ (key_arrow_up, 17)
    ∷ (key_arrow_down, 18)
    ∷ (key_arrow_left, 19)
    ∷ (key_arrow_right, 20)
    ∷ (key_left_ctrl, 21)
    ∷ (key_right_ctrl, 21)
    ∷ (key_left_shift, 24)
    ∷ (key_right_shift, 24)
    ∷ (key_left_alt, 25)
    ∷ (key_right_alt, 22)
    ∷ (key_caps_lock, 23)
    ∷ (key_delete, 127)
    ∷ (key_f1, 141)
    ∷ (key_f2, 142)
    ∷ (key_f3, 143)
    ∷ (key_f4, 144)
    ∷ (key_f5, 145)
    ∷ (key_f6, 146)
    ∷ (key_f7, 147)
    ∷ (key_f8, 148)
    ∷ (key_f9, 149)
    ∷ (key_f10, 150)
    ∷ (key_f11, 151)
    ∷ (key_f12, 152)
    ∷ []

abbrev pub case_of : List (ℕ × ℕ) → ℕ → ℕ
case_of [] keycode = 0
case_of ((k, value) ∷ rest) keycode = if k == keycode then value else case_of rest keycode

pub keymap_legacy_key : ℕ → ℕ → ℕ
keymap_legacy_key keycode codepoint =
    if not (codepoint == 0) && ltb codepoint 128 then codepoint else case_of legacy_cases keycode

abbrev apart : ℕ → Bool
apart v = ltb v 32 || (leb 127 v && leb v 152)

abbrev all_apart : List (ℕ × ℕ) → Bool
all_apart [] = true
all_apart ((k, v) ∷ rest) = apart v && all_apart rest

case_of-apart :
    (rows : List (ℕ × ℕ)) (k : ℕ) → all_apart rows ≡ true → apart (case_of rows k) ≡ true
case_of-apart [] k all = refl
case_of-apart ((j, v) ∷ rows) k all =
    let (here, rest) = and_true (apart v) (all_apart rows) all in
    elim (Bool-cases (j == k)) [
      | inl hit ↦ rw hit here
      | inr miss ↦ rw miss (case_of-apart rows k rest)
    ]

apart_of : (v : ℕ) → apart v ≡ true → (v < 32) ⊎ ((127 ≤ v) × (v ≤ 152))
apart_of v is = ground (arith, is)

-- For a key without an ASCII character, the code of `keymap_legacy_key` is one that no printable ASCII
-- character has: below 32, or from 127 to 152.
keymap_legacy_key-apart :
    (keycode codepoint : ℕ)
    → (codepoint ≡ 0) ⊎ (128 ≤ codepoint)
    → (keymap_legacy_key keycode codepoint < 32)
      ⊎ ((127 ≤ keymap_legacy_key keycode codepoint) × (keymap_legacy_key keycode codepoint ≤ 152))
unfolding keymap_legacy_key
keymap_legacy_key-apart keycode codepoint outside =
    let other : (not (codepoint == 0) && ltb codepoint 128) ≡ false = ground (arith, outside) in
    rw other (apart_of _ (case_of-apart legacy_cases keycode refl))
