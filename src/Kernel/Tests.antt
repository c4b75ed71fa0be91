-- ===== src/Kernel/Tests.antt =====
-- The theorems on kernel/ at an empty buffer and a few keys.
use zythos.Base.{◌≡◌, refl, true, false, none, some, List, [], ◌∷◌, arith}
use zythos.Input.Keycodes.{key_a, key_b}
use zythos.Input.Keyboard.Stream.{Stroke, encode_all, strike_all}
use zythos.Kernel.KbdBuffer.{KbdBuffer, empty, kbd_buffer_push}
use zythos.Kernel.KbdBuffer.Fifo.{
  push, pop, Holds, empty-Holds, push-Holds, run_ring, run_queue, run_ring-run_queue,
}
use zythos.Kernel.KeyboardIrq.{Machine, irq_all, sys_read}
use zythos.Kernel.KeyboardIrq.Typed.{text, enqueue_all, irq_all-encode_all}
use zythos.Kernel.KeyboardIrq.Control.{control_unread}
use zythos.Kernel.KeyboardIrq.Read.{sys_read_lem}

abbrev boot : Machine
boot = record {
  keyboard = record {
    current_mods = 0;
    pending_extended = false;
    keymap = record { current = 0; active_dead = 0 };
  };
  buffer = empty;
  outs = [];
}

abbrev typed : List Stroke
typed = (key_a, true) ∷ (key_a, false) ∷ (key_b, true) ∷ []

run_ring-run_queue_example :
    run_ring (pop ∷ push 97 ∷ push 98 ∷ pop ∷ []) empty ≡ none ∷ some 97 ∷ []
unfolding run_queue
run_ring-run_queue_example =
    run_ring-run_queue (pop ∷ push 97 ∷ push 98 ∷ pop ∷ []) empty [] empty-Holds

irq_all-encode_all_example :
    let (events, keyboard) = strike_all typed boot.keyboard in
    let after = irq_all (encode_all typed) boot in
    (after.keyboard ≡ keyboard) × Holds after.buffer (enqueue_all (text events) [])
irq_all-encode_all_example =
    irq_all-encode_all typed boot [] empty-Holds refl
      ((omega arith, omega arith), ((omega arith, omega arith), ((omega arith, omega arith), tt)))

-- A character has come in.
abbrev ready : Machine
ready = record boot { buffer = kbd_buffer_push 97 empty }

sys_read_lem_example :
    (b : KbdBuffer) × (sys_read 1 ([] ∷ []) ready
      ≡ some (97 ∷ [], [] ∷ [], record ready { buffer = b }))
    × Holds b []
sys_read_lem_example =
    sys_read_lem 1 0 ([] ∷ []) ready 97 [] (omega arith) (omega arith)
      (λ j lt. absurd (omega arith)) (push-Holds 97 empty [] empty-Holds)

-- Enter.
control_unread_example : Holds (irq_all (encode_all ((28, true) ∷ [])) ready).buffer (97 ∷ [])
control_unread_example =
    control_unread 28 true ready (97 ∷ []) (push-Holds 97 empty [] empty-Holds) refl (omega arith)
      (omega arith) (omega arith) refl
