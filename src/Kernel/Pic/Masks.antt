-- ===== src/Kernel/Pic/Masks.antt =====
-- The masks of kernel/pic.c, on controllers whose data ports read back what was written.
use zythos.Base.{
  ℕ, ◌-◌, ◌%◌, ◌^◌, ◌<◌, ◌≡◌, refl, sym, ap, ◌∙◌, inl, inr, Bool, true, false, not, ◌&&◌, ◌||◌, ◌∷◌,
  arith, ltb, ◌==◌, if◌then◌else◌, Bool-cases, ==_iff, set,
}
use zythos.Base.{and_true, all_below, all_below-at}
use zythos.Ports.{Accesses, input, output, Machine, inb, last_written}
use zythos.Input.Flags.{has_flag, set_flag, clear_flag}
use zythos.Kernel.Pic.{
  pic1_data, pic2_data, pic_remap, data_port, bit_flag, pic_set_mask, pic_clear_mask,
}

-- The mask registers read back what was written last, `start` at first.
pub record IsReadBack (machine : Machine) (start : ℕ → ℕ) : Type 0 where
  pub first : (io : Accesses) → machine pic1_data io ≡ last_written (start pic1_data) pic1_data io
  pub second : (io : Accesses) → machine pic2_data io ≡ last_written (start pic2_data) pic2_data io

-- Bit `irq` of the master's data port, which is 0x21, or bit `irq - 8` of the slave's, which is 0xA1.
abbrev pub is_masked : Machine → ℕ → Accesses → Bool
is_masked machine irq io =
    if ltb irq 8
    then has_flag (2 ^ irq) (machine 0x21 io % 256)
    else has_flag (2 ^ (irq - 8)) (machine 0xA1 io % 256)

abbrev mask_bit : Machine → ℕ → Accesses → Bool
mask_bit machine irq io = has_flag (bit_flag irq) (inb machine (data_port irq) io).0

mask_bit_lem :
    (machine : Machine) (irq : ℕ) (io : Accesses)
    → is_masked machine irq io ≡ mask_bit machine irq io
mask_bit_lem machine irq io = elim (Bool-cases (ltb irq 8)) [
  | inl it ↦ rw it refl
  | inr it ↦ rw it refl
]

abbrev same : Bool → Bool → Bool
same true b = b
same false b = not b

same-true : (a b : Bool) → same a b ≡ true → a ≡ b
same-true true true e = refl
same-true true false e = sym e
same-true false true e = e
same-true false false e = refl

abbrev bits : ℕ → ℕ → ℕ → Bool
bits b c v =
    same (has_flag (2 ^ b) (set_flag (2 ^ c) v % 256)) ((c == b) || has_flag (2 ^ b) v)
    && same (has_flag (2 ^ b) (clear_flag (2 ^ c) v % 256)) (not (c == b) && has_flag (2 ^ b) v)

all_bits : all_below 8 (λ b. all_below 8 (λ c. all_below 256 (λ v. bits b c v))) ≡ true
all_bits = refl

bits-at :
    (b c v : ℕ)
    → b < 8
    → c < 8
    → v < 256
    → (has_flag (2 ^ b) (set_flag (2 ^ c) v % 256) ≡ ((c == b) || has_flag (2 ^ b) v))
      × (has_flag (2 ^ b) (clear_flag (2 ^ c) v % 256) ≡ (not (c == b) && has_flag (2 ^ b) v))
bits-at b c v lb lc lv =
    let row = all_below-at 8 (λ x. all_below 8 (λ y. all_below 256 (bits x y))) b all_bits lb in
    let cell = all_below-at 8 (λ y. all_below 256 (bits b y)) c row lc in
    let (set, clear) = and_true _ _ (all_below-at 256 (bits b c) v cell lv) in
    (same-true _ _ set, same-true _ _ clear)

module _ (machine : Machine) (start : ℕ → ℕ) (law : IsReadBack machine start) where
  reads :
      (irq : ℕ) (io : Accesses)
      → machine (data_port irq) io ≡ last_written (start (data_port irq)) (data_port irq) io
  reads irq io = elim (Bool-cases (ltb irq 8)) [
    | inl it ↦ rw it (law.first io)
    | inr it ↦ rw it (law.second io)
  ]

  -- What a data port reads after one of them is read and written.
  after_write :
      (irq j v : ℕ) (io : Accesses)
      → machine (data_port j) (output (data_port irq) v ∷ input (data_port irq) ∷ io)
        ≡ (if data_port irq == data_port j then v else machine (data_port j) io)
  after_write irq j v io = elim (Bool-cases (data_port irq == data_port j)) [
    | inl it ↦ rw it (reads j _ ∙ rw it refl)
    | inr it ↦ rw it (reads j _ ∙ rw it (sym (reads j io)))
  ]

  abbrev lane : ℕ → ℕ
  lane irq = if ltb irq 8 then irq else irq - 8

  lane_small : (irq : ℕ) → irq < 16 → lane irq < 8
  lane_small irq lt = elim (Bool-cases (ltb irq 8)) [
    | inl it ↦ rw it (ground (arith, it))
    | inr it ↦ rw it (omega (arith, lt))
  ]

  same_lane :
      (irq j : ℕ)
      → irq < 16
      → j < 16
      → (data_port irq == data_port j) ≡ true
      → (lane irq == lane j) ≡ (irq == j)
  same_lane irq j li lj e = ground (arith, li, lj, e)

  other_lane : (irq j : ℕ) → (data_port irq == data_port j) ≡ false → (irq == j) ≡ false
  other_lane irq j e = ground (arith, e)

  after_remap :
      (j : ℕ) (io : Accesses)
      → machine (data_port j) (pic_remap machine io) ≡ machine (data_port j) io % 256
  unfolding pic_remap
  after_remap j io = elim (Bool-cases (ltb j 8)) [
    | inl it ↦ rw it (law.first _)
    | inr it ↦
        let unread : machine pic2_data (input pic1_data ∷ io) ≡ machine pic2_data io =
          law.second _ ∙ sym (law.second io) in
        rw it (law.second _ ∙ ap (λ v. v % 256) unread)
  ]

  mask_bits :
      (irq j : ℕ) (io : Accesses)
      → irq < 16
      → j < 16
      → (mask_bit machine j (pic_set_mask machine irq io) ≡ ((irq == j) || mask_bit machine j io))
        × (mask_bit machine j (pic_clear_mask machine irq io)
            ≡ (not (irq == j) && mask_bit machine j io))
        × (mask_bit machine j (pic_remap machine io) ≡ mask_bit machine j io)
  unfolding pic_set_mask pic_clear_mask
  mask_bits irq j io li lj =
      let twice : machine (data_port j) io % 256 % 256 ≡ machine (data_port j) io % 256 =
        omega arith in
      let value = machine (data_port irq) io % 256 in
      let small : value < 256 = omega arith in
      let (set, clear) =
        bits-at (lane j) (lane irq) value (lane_small j lj) (lane_small irq li) small in
      (
        elim (Bool-cases (data_port irq == data_port j)) [
          | inl it ↦
              let at = (==_iff (data_port irq) (data_port j)).0 it in
              rw (pic_set_mask, after_write irq j _ io, it)
                (set
                  ∙ rw (same_lane irq j li lj it)
                      (ap (λ p. (irq == j) || has_flag (bit_flag j) (machine p io % 256)) at))
          | inr it ↦ rw (pic_set_mask, after_write irq j _ io, it, other_lane irq j it) refl
        ],
        elim (Bool-cases (data_port irq == data_port j)) [
          | inl it ↦
              let at = (==_iff (data_port irq) (data_port j)).0 it in
              rw (pic_clear_mask, after_write irq j _ io, it)
                (clear
                  ∙ rw (same_lane irq j li lj it)
                      (ap (λ p. not (irq == j) && has_flag (bit_flag j) (machine p io % 256)) at))
          | inr it ↦ rw (pic_clear_mask, after_write irq j _ io, it, other_lane irq j it) refl
        ],
        ap (has_flag (bit_flag j)) (ap (λ v. v % 256) (after_remap j io) ∙ twice),
      )

  -- On controllers whose mask registers read back what was written, `pic_set_mask` masks its interrupt
  -- and `pic_clear_mask` unmasks it, both leave all the other interrupts of the 16 as they are, and
  -- `pic_remap` leaves all of them.
  pub masks_lem :
      (irq j : ℕ) (io : Accesses)
      → irq < 16
      → j < 16
      → (is_masked machine j (pic_set_mask machine irq io) ≡ ((irq == j) || is_masked machine j io))
        × (is_masked machine j (pic_clear_mask machine irq io)
            ≡ (not (irq == j) && is_masked machine j io))
        × (is_masked machine j (pic_remap machine io) ≡ is_masked machine j io)
  masks_lem irq j io li lj =
      let (set, clear, kept) = mask_bits irq j io li lj in
      let at = mask_bit_lem machine j in
      rw
        (
          at (pic_set_mask machine irq io),
          at (pic_clear_mask machine irq io),
          at (pic_remap machine io),
          at io,
        )
        (set, clear, kept)
