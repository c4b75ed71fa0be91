-- ===== src/Kernel/KeyboardIrq/Control.antt =====
-- kernel/keyboard_irq.c with keys without a character.
use zythos.Base.{ℕ, ◌<◌, ◌≡◌, refl, ap, Bool, true, false, ◌&&◌, List, [], ◌∷◌, if◌then◌else◌}
use mathlib.Core.Path.{subst}
use zythos.Input.Keymap.Control.{is_control, control_silent}
use zythos.Input.Keyboard.{update_modifier}
use zythos.Input.Keyboard.Stream.{encode_all, strike, strike_all}
use zythos.Kernel.KbdBuffer.Fifo.{Holds}
use zythos.Kernel.KeyboardIrq.{Machine, irq_all}
use zythos.Kernel.KeyboardIrq.Typed.{enqueue_all, irq_all-encode_all}

unshown :
    (pressed is_text : Bool) (c : ℕ)
    → is_text ≡ false
    → (if pressed && is_text then c ∷ [] else []) ≡ []
unshown true true c off = absurd (cc off)
unshown true false c off = refl
unshown false is_text c off = refl

-- When one of the keys escape, backspace, tab, enter, the keypad's enter and delete is pressed or
-- released, in any of the four layouts, with any modifiers and with no half of a longer scan code
-- pending, the buffer keeps what it holds.
pub control_unread :
    (k : ℕ) (pressed : Bool) (m : Machine) (queue : List ℕ)
    → Holds m.buffer queue
    → m.keyboard.pending_extended ≡ false
    → m.keyboard.keymap.current < 4
    → 0 < k
    → k < 100
    → is_control k ≡ true
    → Holds (irq_all (encode_all ((k, pressed) ∷ [])) m).buffer queue
unfolding strike_all strike
control_unread k pressed m queue is pending layout pos lt control =
    let (_, holds) = irq_all-encode_all ((k, pressed) ∷ []) m queue is pending ((pos, lt), tt) in
    let mods = update_modifier k pressed m.keyboard.current_mods in
    let quiet = control_silent k mods m.keyboard.keymap lt control layout in
    subst (Holds _)
      (ap (λ cs. enqueue_all cs queue)
        (unshown pressed _ _ (ap (λ r. r.0.is_text && pressed) quiet)))
      holds
