-- ===== src/Input/Keyboard/Scan.antt =====
-- The scan codes of the tables in input/keyboard.c.
use zythos.Base.{
  all_below, ℕ, zero, suc, ◌<◌, ◌≡◌, refl, sym, ap, ◌∙◌, ◌≢◌, ◌⊎◌, inl, inr, Bool, true, false, not,
  ◌&&◌, ◌||◌, Option, none, some, List, [], ◌∷◌, arith, ltb, ◌==◌, if◌then◌else◌, ==_iff,
}
use mathlib.Core.Path.{subst}
use native.Mathlib.Decide.{ℕ_discrete}
use zythos.Base.{and_true, all_below-at}
use zythos.Input.Set1.{set1_table, set1_extended_table}
use zythos.Input.Keyboard.{keyboard_keycode_from_set1}

-- The position of a key code in a table.
abbrev position : List (ℕ × ℕ) → ℕ → Option ℕ
position [] k = none
position ((i, keycode) ∷ rest) k = if keycode == k then some i else position rest k

-- The scan code of a key and whether the prefix 0xE0 stands before it.
unfoldable pub scancode_of : ℕ → ℕ × Bool
scancode_of k = elim (position set1_table k) [
  | some i ↦ (i, false)
  | none ↦ elim (position set1_extended_table k) [ some i ↦ (i, true) | none ↦ (0, false) ]
]

same_bool : Bool → Bool → Bool
same_bool true b = b
same_bool false b = not b

-- Encoding after decoding.
abbrev decodes_back : Bool → ℕ → Bool
decodes_back extended s =
    let k = keyboard_keycode_from_set1 s extended in
    (k == 0) || ((((scancode_of k).0 == s) && same_bool ((scancode_of k).1) extended) && ltb k 100)

-- Decoding after encoding.
abbrev encodes_back : ℕ → Bool
encodes_back k =
    let (s, extended) = scancode_of (suc k) in
    (keyboard_keycode_from_set1 s extended == suc k) && (ltb s 128 && not (s == 0x60))

all_plain : all_below 128 (decodes_back false) ≡ true
unfolding scancode_of same_bool keyboard_keycode_from_set1
all_plain = refl

all_extended : all_below 128 (decodes_back true) ≡ true
unfolding scancode_of same_bool keyboard_keycode_from_set1
all_extended = refl

all_keys : all_below 99 encodes_back ≡ true
unfolding scancode_of keyboard_keycode_from_set1
all_keys = refl

same_bool-eq : (a b : Bool) → same_bool a b ≡ true → a ≡ b
unfolding same_bool
same_bool-eq true true e = refl
same_bool-eq true false e = absurd (cc e)
same_bool-eq false true e = absurd (cc e)
same_bool-eq false false e = refl

read_back :
    (k s : ℕ) (p : ℕ × Bool) (extended : Bool)
    → ((k == 0) || (((p.0 == s) && same_bool p.1 extended) && ltb k 100)) ≡ true
    → (k ≡ 0) ⊎ ((p ≡ (s, extended)) × (k < 100))
read_back k s (t, e) extended holds = elim (ℕ_discrete k 0) [
  | yes z ↦ inl z
  | no nz ↦
      let apart : (k == 0) ≡ false = ground (arith, nz) in
      let rest : (((t == s) && same_bool e extended) && ltb k 100) ≡ true =
        subst (λ b. (b || (((t == s) && same_bool e extended) && ltb k 100)) ≡ true) apart holds in
      let (both, small) = and_true _ _ rest in
      let (same, sort) = and_true (t == s) (same_bool e extended) both in
      inr ((cc ((==_iff t s).0 same, same_bool-eq e extended sort)), ground (arith, small))
]

decode_back :
    (s : ℕ) (extended : Bool)
    → s < 128
    → let k = keyboard_keycode_from_set1 s extended in
      (k ≡ 0) ⊎ ((scancode_of k ≡ (s, extended)) × (k < 100))
decode_back s false lt =
    read_back _ s _ false (all_below-at 128 (decodes_back false) s all_plain lt)
decode_back s true lt =
    read_back _ s _ true (all_below-at 128 (decodes_back true) s all_extended lt)

read_key :
    (s k decoded : ℕ)
    → ((decoded == k) && (ltb s 128 && not (s == 0x60))) ≡ true
    → (decoded ≡ k) × (s < 128) × (s ≢ 0x60)
read_key s k decoded holds =
    let (same, rest) = and_true (decoded == k) _ holds in
    let (small, other) = and_true (ltb s 128) _ rest in
    ((==_iff decoded k).0 same, ground (arith, small), ground (arith, other))

pub decode_key :
    (k : ℕ)
    → 0 < k
    → k < 100
    → let (s, extended) = scancode_of k in
      (keyboard_keycode_from_set1 s extended ≡ k) × (s < 128) × (s ≢ 0x60)
decode_key zero pos lt = absurd (omega arith)
decode_key (suc k) pos lt =
    read_key _ (suc k) _ (all_below-at 99 encodes_back k all_keys (omega arith))

-- Every key code has exactly one scan code: the one below 128 that `scancode_of` gives, with or
-- without the prefix, is decoded to it, and no other is.
scancode_unique :
    (k : ℕ)
    → 0 < k
    → k < 100
    → let (s, extended) = scancode_of k in
      (s < 128)
      × (keyboard_keycode_from_set1 s extended ≡ k)
      × ((t : ℕ) (e : Bool)
          → t < 128
          → keyboard_keycode_from_set1 t e ≡ k
          → (t ≡ s) × (e ≡ extended))
scancode_unique k pos lt =
    let (here, small, _) = decode_key k pos lt in
    (
      small,
      here,
      λ t e below decoded. elim (decode_back t e below) [
        | inl z ↦ absurd (omega (arith, z, decoded))
        | inr (back, _) ↦
            let same = sym back ∙ ap scancode_of decoded in (ap (λ p. p.0) same, ap (λ p. p.1) same)
      ],
    )
