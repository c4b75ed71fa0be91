-- ===== src/Input/Keyboard/Stream.antt =====
-- Streams of bytes from the keyboard, against the key events that they stand for.
use zythos.Base.{
  ℕ, ◌+◌, ◌%◌, ◌<◌, ◌≡◌, refl, ap, ◌∙◌, ◌≢◌, Bool, true, false, not, ◌&&◌, none, some, List, [],
  ◌∷◌, ◌++◌, arith, ◌==◌, if◌then◌else◌,
}
use zythos.Input.Flags.{has_flag}
use zythos.Input.Keymap.{keymap_translate_keycode}
use zythos.Input.Keyboard.{
  Keyboard, KeyboardEvent, keyboard_keycode_from_set1, update_modifier,
  keyboard_handle_set1_scancode,
}
use zythos.Input.Keyboard.Scan.{scancode_of, decode_key}

-- A key and whether it is pressed or released.
abbrev pub Stroke : Type 0
Stroke = ℕ × Bool

abbrev byte_of : ℕ → Bool → ℕ
byte_of s pressed = if pressed then s else s + 128

abbrev bytes_of : ℕ × Bool → Bool → List ℕ
bytes_of (s, true) pressed = 0xE0 ∷ byte_of s pressed ∷ []
bytes_of (s, false) pressed = byte_of s pressed ∷ []

-- The bytes that the keyboard sends: a release is the scan code with its top bit set.
abbrev pub encode : Stroke → List ℕ
encode (k, pressed) = bytes_of (scancode_of k) pressed

abbrev pub encode_all : List Stroke → List ℕ
encode_all [] = []
encode_all (k ∷ ks) = encode k ++ encode_all ks

-- All are keys of the enumeration.
abbrev pub AllKeys : List Stroke → Type 0
AllKeys [] = Unit
AllKeys ((k, pressed) ∷ ks) = ((0 < k) × (k < 100)) × AllKeys ks

-- The handler, byte after byte, with the events that it reports.
unfoldable pub handle_all : List ℕ → Keyboard → List KeyboardEvent × Keyboard
handle_all [] s = ([], s)
handle_all (byte ∷ bytes) s =
    let (ev, t) = keyboard_handle_set1_scancode byte s in
    let (events, u) = handle_all bytes t in (elim ev [ some e ↦ e ∷ events | none ↦ events ], u)

-- What a key does to the state, and the event that it is reported as.
unfoldable pub strike : Stroke → Keyboard → KeyboardEvent × Keyboard
strike (k, pressed) s =
    let mods = update_modifier k pressed s.current_mods in
    let (translated, keymap) = keymap_translate_keycode k mods s.keymap in
    (
      record {
        keycode = k;
        codepoint = translated.codepoint;
        mods = mods;
        pressed = pressed;
        repeat = false;
        is_text = translated.is_text && pressed;
      },
      record { current_mods = mods; pending_extended = false; keymap = keymap },
    )

unfoldable pub strike_all : List Stroke → Keyboard → List KeyboardEvent × Keyboard
strike_all [] s = ([], s)
strike_all (k ∷ ks) s =
    let (e, t) = strike k s in let (events, u) = strike_all ks t in (e ∷ events, u)

keycode_mod :
    (s : ℕ) (e : Bool)
    → s < 128
    → keyboard_keycode_from_set1 (s + 128) e ≡ keyboard_keycode_from_set1 s e
unfolding keyboard_keycode_from_set1
keycode_mod s e lt = let same : (s + 128) % 128 ≡ s % 128 = omega (arith, lt) in rw same refl

handle-byte :
    (byte k : ℕ) (pressed : Bool) (s : Keyboard)
    → (byte == 0xE0) ≡ false
    → has_flag 0x80 byte ≡ not pressed
    → keyboard_keycode_from_set1 byte s.pending_extended ≡ k
    → (k == 0) ≡ false
    → keyboard_handle_set1_scancode byte s
      ≡ (some (strike (k, pressed) s).0, (strike (k, pressed) s).1)
unfolding keyboard_handle_set1_scancode strike
handle-byte byte k true s plain up decoded key = rw plain (simp up (rw decoded (rw key refl)))
handle-byte byte k false s plain up decoded key = rw plain (simp up (rw decoded (rw key refl)))

handle_all-prefix :
    (bytes : List ℕ) (s : Keyboard)
    → handle_all (0xE0 ∷ bytes) s ≡ handle_all bytes (record s { pending_extended = true })
unfolding handle_all keyboard_handle_set1_scancode
handle_all-prefix bytes s = refl

handle_all-byte :
    (byte : ℕ) (bytes : List ℕ) (s t : Keyboard) (e : KeyboardEvent)
    → keyboard_handle_set1_scancode byte s ≡ (some e, t)
    → handle_all (byte ∷ bytes) s ≡ (e ∷ (handle_all bytes t).0, (handle_all bytes t).1)
unfolding handle_all
handle_all-byte byte bytes s t e run =
    ap
      (λ r. (
        elim r.0 [ some f ↦ f ∷ (handle_all bytes r.1).0 | none ↦ (handle_all bytes r.1).0 ],
        (handle_all bytes r.1).1,
      ))
      run

byte_of-flag : (s : ℕ) (pressed : Bool) → s < 128 → has_flag 0x80 (byte_of s pressed) ≡ not pressed
byte_of-flag s true lt = ground arith
byte_of-flag s false lt = ground arith

byte_of-plain : (s : ℕ) (pressed : Bool) → s < 128 → s ≢ 0x60 → (byte_of s pressed == 0xE0) ≡ false
byte_of-plain s true lt ne = ground arith
byte_of-plain s false lt ne = ground arith

byte_of-decoded :
    (s : ℕ) (pressed extended : Bool)
    → s < 128
    → keyboard_keycode_from_set1 (byte_of s pressed) extended
      ≡ keyboard_keycode_from_set1 s extended
byte_of-decoded s true extended lt = refl
byte_of-decoded s false extended lt = keycode_mod s extended lt

strike-pending :
    (k : Stroke) (s : Keyboard) → strike k (record s { pending_extended = true }) ≡ strike k s
unfolding strike
strike-pending k s = refl

handle-last :
    (sc k : ℕ) (pressed extended : Bool) (s : Keyboard)
    → s.pending_extended ≡ extended
    → keyboard_keycode_from_set1 sc extended ≡ k
    → sc < 128
    → sc ≢ 0x60
    → (k == 0) ≡ false
    → keyboard_handle_set1_scancode (byte_of sc pressed) s
      ≡ (some (strike (k, pressed) s).0, (strike (k, pressed) s).1)
handle-last sc k pressed extended s pending decoded lt ne key =
    handle-byte (byte_of sc pressed) k pressed s (byte_of-plain sc pressed lt ne)
      (byte_of-flag sc pressed lt)
      (ap (keyboard_keycode_from_set1 (byte_of sc pressed)) pending
        ∙ byte_of-decoded sc pressed extended lt
        ∙ decoded)
      key

handle_all-bytes :
    (p : ℕ × Bool) (k : ℕ) (pressed : Bool) (rest : List ℕ) (s : Keyboard)
    → s.pending_extended ≡ false
    → keyboard_keycode_from_set1 p.0 p.1 ≡ k
    → p.0 < 128
    → p.0 ≢ 0x60
    → (k == 0) ≡ false
    → let (e, t) = strike (k, pressed) s in
      handle_all (bytes_of p pressed ++ rest) s ≡ (e ∷ (handle_all rest t).0, (handle_all rest t).1)
handle_all-bytes (sc, true) k pressed rest s pending decoded lt ne key =
    let t = record s { pending_extended = true } in
    handle_all-prefix (byte_of sc pressed ∷ rest) s
    ∙ handle_all-byte (byte_of sc pressed) rest t (strike (k, pressed) s).1
        (strike (k, pressed) s).0
        (handle-last sc k pressed true t refl decoded lt ne key
          ∙ ap (λ r. (some r.0, r.1)) (strike-pending (k, pressed) s))
handle_all-bytes (sc, false) k pressed rest s pending decoded lt ne key =
    handle_all-byte (byte_of sc pressed) rest s (strike (k, pressed) s).1 (strike (k, pressed) s).0
      (handle-last sc k pressed false s pending decoded lt ne key)

strike-settled : (k : Stroke) (s : Keyboard) → (strike k s).1.pending_extended ≡ false
unfolding strike
strike-settled k s = refl

-- From a state that has read no prefix, the handler reads the bytes of any sequence of key presses
-- and releases as these events, in their order, each once and each with the modifiers and the
-- character that the keys before it and it itself make.
pub handle_all-encode_all :
    (ks : List Stroke) (s : Keyboard)
    → s.pending_extended ≡ false
    → AllKeys ks
    → handle_all (encode_all ks) s ≡ strike_all ks s
unfolding strike_all handle_all
handle_all-encode_all [] s pending keys = refl
handle_all-encode_all ((k, pressed) ∷ ks) s pending ((pos, lt), keys) =
    let (decoded, small, plain) = decode_key k pos lt in
    handle_all-bytes (scancode_of k) k pressed (encode_all ks) s pending decoded small plain
      (ground arith)
    ∙ ap (λ r. ((strike (k, pressed) s).0 ∷ r.0, r.1))
        (handle_all-encode_all ks (strike (k, pressed) s).1 (strike-settled (k, pressed) s) keys)
