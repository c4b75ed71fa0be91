-- ===== src/Kernel/KeyboardIrq/Typed.antt =====
-- What kernel/keyboard_irq.c puts into the buffer for a sequence of keys.
use zythos.Base.{
  ℕ, ◌%◌, ◌≡◌, refl, inl, inr, false, ◌&&◌, Option, none, some, List, [], ◌∷◌, if◌then◌else◌,
  Bool-cases,
}
use mathlib.Core.Path.{subst}
use zythos.Input.Keyboard.{KeyboardEvent, keyboard_handle_set1_scancode}
use zythos.Input.Keyboard.Stream.{
  Stroke, AllKeys, encode_all, strike_all, handle_all, handle_all-encode_all,
}
use zythos.Kernel.KbdBuffer.{KbdBuffer}
use zythos.Kernel.KbdBuffer.Fifo.{Holds, enqueue, push-Holds}
use zythos.Kernel.KeyboardIrq.{Machine, irq_all, irq1_handler, deliver}

-- The characters of the events that are presses with a text.
abbrev pub text : List KeyboardEvent → List ℕ
text [] = []
text (e ∷ es) = if e.pressed && e.is_text then e.codepoint % 256 ∷ text es else text es

abbrev pub enqueue_all : List ℕ → List ℕ → List ℕ
enqueue_all [] queue = queue
enqueue_all (c ∷ cs) queue = enqueue_all cs (enqueue c queue)

-- The queue after one byte.
abbrev received : Option KeyboardEvent → List ℕ → List ℕ
received none queue = queue
received (some e) queue =
    if e.pressed && e.is_text then enqueue (e.codepoint % 256) queue else queue

deliver-Holds :
    (e : Option KeyboardEvent) (b : KbdBuffer) (queue : List ℕ)
    → Holds b queue
    → Holds (deliver e b) (received e queue)
deliver-Holds none b queue is = is
deliver-Holds (some e) b queue is = elim (Bool-cases (e.pressed && e.is_text)) [
  | inl shown ↦ rw shown (push-Holds (e.codepoint % 256) b queue is)
  | inr silent ↦ rw silent is
]

text-received :
    (e : Option KeyboardEvent) (es : List KeyboardEvent) (queue : List ℕ)
    → enqueue_all (text es) (received e queue)
      ≡ enqueue_all (text (elim e [ some f ↦ f ∷ es | none ↦ es ])) queue
text-received none es queue = refl
text-received (some e) es queue = elim (Bool-cases (e.pressed && e.is_text)) [
  | inl shown ↦ rw shown refl
  | inr silent ↦ rw silent refl
]

irq_all-handle_all :
    (bytes : List ℕ) (m : Machine) (queue : List ℕ)
    → Holds m.buffer queue
    → let (events, keyboard) = handle_all bytes m.keyboard in
      let after = irq_all bytes m in
      (after.keyboard ≡ keyboard) × Holds after.buffer (enqueue_all (text events) queue)
unfolding handle_all irq1_handler
irq_all-handle_all [] m queue is = (refl, is)
irq_all-handle_all (byte ∷ bytes) m queue is =
    let (e, t) = keyboard_handle_set1_scancode byte m.keyboard in
    let (same, holds) =
      irq_all-handle_all bytes (irq1_handler byte m) (received e queue)
        (deliver-Holds e m.buffer queue is) in
    (same, subst (Holds _) (text-received e (handle_all bytes t).0 queue) holds)

-- When the bytes of a sequence of key presses and releases have come in, the keyboard is in the state
-- that the keys make, and the buffer holds what it held before, followed by the characters of the
-- presses with a text, in their order, up to the first 127.
pub irq_all-encode_all :
    (ks : List Stroke) (m : Machine) (queue : List ℕ)
    → Holds m.buffer queue
    → m.keyboard.pending_extended ≡ false
    → AllKeys ks
    → let (events, keyboard) = strike_all ks m.keyboard in
      let after = irq_all (encode_all ks) m in
      (after.keyboard ≡ keyboard) × Holds after.buffer (enqueue_all (text events) queue)
irq_all-encode_all ks m queue is pending keys =
    subst
      (λ r.
        let after = irq_all (encode_all ks) m in
        (after.keyboard ≡ r.1) × Holds after.buffer (enqueue_all (text r.0) queue))
      (handle_all-encode_all ks m.keyboard pending keys)
      (irq_all-handle_all (encode_all ks) m queue is)
