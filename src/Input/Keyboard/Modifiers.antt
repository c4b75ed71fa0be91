-- ===== src/Input/Keyboard/Modifiers.antt =====
-- The modifier word of input/keyboard.c after any sequence of keys.
use zythos.Base.{
  ℕ, ◌≡◌, refl, ap, ◌∙◌, Bool, true, false, ◌&&◌, ◌||◌, List, [], ◌∷◌, arith, ◌==◌, if◌then◌else◌,
}
use zythos.Input.Keycodes.{key_caps_lock, key_left_shift, key_right_shift}
use zythos.Input.Flags.{has_flag}
use zythos.Input.Keymap.{xor, kb_mod_caps, kb_mod_shift}
use zythos.Input.Keyboard.{
  Keyboard, key_scroll_lock, key_num_lock, key_right_alt, key_right_ctrl, key_left_alt,
  key_left_ctrl, update_modifier,
}
use zythos.Input.Keyboard.Stream.{
  Stroke, AllKeys, encode_all, strike, strike_all, handle_all, handle_all-encode_all,
}
use zythos.Input.Keyboard.Bits.{
  hold, toggle, caps-hold_shift, caps-hold_ctrl, caps-hold_alt, caps-hold_altgr, caps-toggle_num,
  caps-toggle_scroll, caps-toggle, shift-hold, shift-hold_ctrl, shift-hold_alt, shift-hold_altgr,
  shift-toggle_caps, shift-toggle_num, shift-toggle_scroll,
}

unless : (b : Bool) (x y z : Bool) → b ≡ false → z ≡ y → z ≡ (if b then x else y)
unless b x y z off e = rw off e

when : (b : Bool) (x y z : Bool) → b ≡ true → z ≡ x → z ≡ (if b then x else y)
when b x y z on e = rw on e

abbrev pub is_shift : ℕ → Bool
is_shift k = (k == key_left_shift) || (k == key_right_shift)

abbrev is_ctrl : ℕ → Bool
is_ctrl k = (k == key_left_ctrl) || (k == key_right_ctrl)

-- What `f` makes of a word that is chosen by seven tests.
chain :
    (f : ℕ → Bool) (r : Bool) (b1 b2 b3 b4 b5 b6 b7 : Bool) (x1 x2 x3 x4 x5 x6 x7 x8 : ℕ)
    → (b1 ≡ true → f x1 ≡ r)
    → (b2 ≡ true → f x2 ≡ r)
    → (b3 ≡ true → f x3 ≡ r)
    → (b4 ≡ true → f x4 ≡ r)
    → (b5 ≡ true → f x5 ≡ r)
    → (b6 ≡ true → f x6 ≡ r)
    → (b7 ≡ true → f x7 ≡ r)
    → (b1 ≡ false → b5 ≡ false → f x8 ≡ r)
    → f (
        if b1
        then x1
        else if b2
        then x2
        else if b3
        then x3
        else if b4
        then x4
        else if b5
        then x5
        else if b6
        then x6
        else if b7
        then x7
        else x8)
      ≡ r
chain f r true b2 b3 b4 b5 b6 b7 x1 x2 x3 x4 x5 x6 x7 x8 h1 h2 h3 h4 h5 h6 h7 h8 = h1 refl
chain f r false true b3 b4 b5 b6 b7 x1 x2 x3 x4 x5 x6 x7 x8 h1 h2 h3 h4 h5 h6 h7 h8 = h2 refl
chain f r false false true b4 b5 b6 b7 x1 x2 x3 x4 x5 x6 x7 x8 h1 h2 h3 h4 h5 h6 h7 h8 = h3 refl
chain f r false false false true b5 b6 b7 x1 x2 x3 x4 x5 x6 x7 x8 h1 h2 h3 h4 h5 h6 h7 h8 = h4 refl
chain f r false false false false true b6 b7 x1 x2 x3 x4 x5 x6 x7 x8 h1 h2 h3 h4 h5 h6 h7 h8 =
    h5 refl
chain f r false false false false false true b7 x1 x2 x3 x4 x5 x6 x7 x8 h1 h2 h3 h4 h5 h6 h7 h8 =
    h6 refl
chain f r false false false false false false true x1 x2 x3 x4 x5 x6 x7 x8 h1 h2 h3 h4 h5 h6 h7 h8 =
    h7 refl
chain f r false false false false false false false x1 x2 x3 x4 x5 x6 x7 x8 h1 h2 h3 h4 h5 h6 h7
      h8 =
    h8 refl refl

-- Caps lock changes with a press of its key, and with nothing else.
update_modifier-caps :
    (k : ℕ) (p : Bool) (w : ℕ)
    → has_flag 16 (update_modifier k p w)
      ≡ (if k == key_caps_lock then xor p (has_flag 16 w) else has_flag 16 w)
unfolding update_modifier
update_modifier-caps k p w =
    let other = unless (k == key_caps_lock) (xor p (has_flag 16 w)) (has_flag 16 w) in
    chain (has_flag 16) (if k == key_caps_lock then xor p (has_flag 16 w) else has_flag 16 w)
      (is_shift k) (is_ctrl k) (k == key_left_alt) (k == key_right_alt) (k == key_caps_lock)
      (k == key_num_lock) (k == key_scroll_lock) (hold 1 p w) (hold 2 p w) (hold 4 p w) (hold 8 p w)
      (toggle 16 p w) (toggle 32 p w) (toggle 64 p w) w
      (λ is. other _ (ground (arith, is)) (caps-hold_shift p w))
      (λ is. other _ (ground (arith, is)) (caps-hold_ctrl p w))
      (λ is. other _ (ground (arith, is)) (caps-hold_alt p w))
      (λ is. other _ (ground (arith, is)) (caps-hold_altgr p w))
      (λ is.
        when (k == key_caps_lock) (xor p (has_flag 16 w)) (has_flag 16 w) _ is (caps-toggle p w))
      (λ is. other _ (ground (arith, is)) (caps-toggle_num p w))
      (λ is. other _ (ground (arith, is)) (caps-toggle_scroll p w)) (λ a b. other _ b refl)

-- Shift is on after a press of one of its keys and off after a release of one of them.
update_modifier-shift :
    (k : ℕ) (p : Bool) (w : ℕ)
    → has_flag 1 (update_modifier k p w) ≡ (if is_shift k then p else has_flag 1 w)
unfolding update_modifier
update_modifier-shift k p w =
    let other = unless (is_shift k) (p) (has_flag 1 w) in
    chain (has_flag 1) (if is_shift k then p else has_flag 1 w) (is_shift k) (is_ctrl k)
      (k == key_left_alt) (k == key_right_alt) (k == key_caps_lock) (k == key_num_lock)
      (k == key_scroll_lock) (hold 1 p w) (hold 2 p w) (hold 4 p w) (hold 8 p w) (toggle 16 p w)
      (toggle 32 p w) (toggle 64 p w) w
      (λ is. when (is_shift k) (p) (has_flag 1 w) _ is (shift-hold p w))
      (λ is. other _ (ground (arith, is)) (shift-hold_ctrl p w))
      (λ is. other _ (ground (arith, is)) (shift-hold_alt p w))
      (λ is. other _ (ground (arith, is)) (shift-hold_altgr p w))
      (λ is. other _ (ground (arith, is)) (shift-toggle_caps p w))
      (λ is. other _ (ground (arith, is)) (shift-toggle_num p w))
      (λ is. other _ (ground (arith, is)) (shift-toggle_scroll p w)) (λ a b. other _ a refl)

-- The modifier word after a sequence of keys.
abbrev pub mods_after : List Stroke → ℕ → ℕ
mods_after [] w = w
mods_after ((k, p) ∷ ks) w = mods_after ks (update_modifier k p w)

-- Whether the number of presses of caps lock is odd.
abbrev pub odd_caps : List Stroke → Bool
odd_caps [] = false
odd_caps ((k, p) ∷ ks) = xor ((k == key_caps_lock) && p) (odd_caps ks)

-- Whether the last of the shift keys to change was pressed, `before` if none changed.
abbrev pub last_shift : List Stroke → Bool → Bool
last_shift [] before = before
last_shift ((k, p) ∷ ks) before = last_shift ks (if is_shift k then p else before)

xor_step :
    (on p old odd : Bool) → xor odd (if on then xor p old else old) ≡ xor (xor (on && p) odd) old
xor_step true true true true = refl
xor_step true true true false = refl
xor_step true true false true = refl
xor_step true true false false = refl
xor_step true false old odd = refl
xor_step false p old odd = refl

mods_after_lem :
    (ks : List Stroke) (w : ℕ)
    → (has_flag kb_mod_caps (mods_after ks w) ≡ xor (odd_caps ks) (has_flag kb_mod_caps w))
      × (has_flag kb_mod_shift (mods_after ks w) ≡ last_shift ks (has_flag kb_mod_shift w))
mods_after_lem [] w = (refl, refl)
mods_after_lem ((k, p) ∷ ks) w =
    let (caps, shift) = mods_after_lem ks (update_modifier k p w) in
    (
      caps
          ∙ ap (xor (odd_caps ks)) (update_modifier-caps k p w)
          ∙ xor_step (k == key_caps_lock) p (has_flag 16 w) (odd_caps ks),
      shift ∙ ap (last_shift ks) (update_modifier-shift k p w),
    )

strike_all-mods :
    (ks : List Stroke) (s : Keyboard)
    → (strike_all ks s).1.current_mods ≡ mods_after ks s.current_mods
unfolding strike_all strike
strike_all-mods [] s = refl
strike_all-mods ((k, p) ∷ ks) s = strike_all-mods ks (strike (k, p) s).1

-- After the bytes of any sequence of key presses and releases, caps lock is as before if its key was
-- pressed an even number of times and the other way round if the number is odd; and shift is on if
-- the last change of a shift key was a press, whichever of the two keys it was and whatever the other
-- one does.
pub handle_all-modifiers :
    (ks : List Stroke) (s : Keyboard)
    → s.pending_extended ≡ false
    → AllKeys ks
    → let old = s.current_mods in
      let new = (handle_all (encode_all ks) s).1.current_mods in
      (has_flag kb_mod_caps new ≡ xor (odd_caps ks) (has_flag kb_mod_caps old))
      × (has_flag kb_mod_shift new ≡ last_shift ks (has_flag kb_mod_shift old))
handle_all-modifiers ks s pending keys =
    let same : (handle_all (encode_all ks) s).1.current_mods ≡ mods_after ks s.current_mods =
      ap (λ r. r.1.current_mods) (handle_all-encode_all ks s pending keys) ∙ strike_all-mods ks s in
    let (caps, shift) = mods_after_lem ks s.current_mods in
    (ap (has_flag kb_mod_caps) same ∙ caps, ap (has_flag kb_mod_shift) same ∙ shift)
