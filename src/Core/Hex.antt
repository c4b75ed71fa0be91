-- ===== src/Core/Hex.antt =====
-- Numbers on the serial line in core/panic.c.
use Prim.Native.Nat.pow
use zythos.Base.{
  ℕ, zero, suc, ◌+◌, ◌-◌, ◌*◌, ◌/◌, ◌%◌, ◌^◌, ◌<◌, ◌≡◌, refl, sym, ap, ◌∙◌, List, [], ◌∷◌, ◌++◌,
  arith, ltb, if◌then◌else◌, length, length-append,
}
use zythos.Core.{hex_digit, hex_digits, serial_puts_hex}

-- The number that hexadecimal digits stand for, behind those read already.
abbrev pub hex_value : ℕ → List ℕ → ℕ
hex_value front [] = front
hex_value front (c ∷ s) =
    hex_value (front * 16 + (if ltb c b'a' then c - b'0' else c - b'a' + 10)) s

digit-value : (d : ℕ) → d < 16 → hex_value 0 (hex_digit d ∷ []) ≡ d
digit-value d lt = ground (arith, lt)

hex_value-append :
    (s : List ℕ) (front d : ℕ)
    → d < 16
    → hex_value front (s ++ hex_digit d ∷ []) ≡ hex_value front s * 16 + d
hex_value-append [] front d lt =
    let digit = digit-value d lt in ap (λ x. front * 16 + x) (sym (omega arith) ∙ digit)
hex_value-append (c ∷ s) front d lt = hex_value-append s _ d lt

hex_value-digits : (n v : ℕ) → v < 16 ^ n → hex_value 0 (hex_digits n v) ≡ v
hex_value-digits zero v lt = let it : v < 1 = lt in omega (arith, it)
hex_value-digits (suc n) v lt =
    let power : 16 ^ suc n ≡ 16 ^ n * 16 = λ i. pow.suc 16 n i in
    let rest = hex_value-digits n (v / 16) (omega (arith, lt, power)) in
    hex_value-append (hex_digits n (v / 16)) 0 (v % 16) (omega arith) ∙ omega (arith, rest)

hex_digits-length : (n v : ℕ) → length (hex_digits n v) ≡ n
hex_digits-length zero v = refl
hex_digits-length (suc n) v =
    length-append (hex_digits n (v / 16)) (hex_digit (v % 16) ∷ [])
    ∙ omega (arith, hex_digits-length n (v / 16))

-- What `serial_puts_hex` writes of a number of 32 bits is "0x" and 8 digits, and as a hexadecimal numeral
-- they stand for that number.
pub serial_puts_hex-value :
    (v : ℕ)
    → v < 2 ^ 32
    → (digits : List ℕ) × (serial_puts_hex v ≡ b'0' ∷ b'x' ∷ digits)
      × (length digits ≡ 8)
      × (hex_value 0 digits ≡ v)
unfolding serial_puts_hex
serial_puts_hex-value v lt =
    (hex_digits 8 v, refl, hex_digits-length 8 v, hex_value-digits 8 v (omega (arith, lt)))
