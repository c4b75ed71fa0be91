-- ===== src/Kernel/KeyboardIrq.antt =====
-- kernel/keyboard_irq.c, `sys_read` of kernel/syscall.c, and the end of interrupt of kernel/pic.c. The
-- byte that `ps2_read_data` reads is an argument.
pub mod Typed
pub mod Read
pub mod Control
use zythos.Base.{
  ℕ, zero, suc, ◌+◌, ◌-◌, ◌*◌, ◌/◌, ◌%◌, ◌^◌, ◌≤◌, ◌<◌, ◌≡◌, refl, sym, ap, ◌∙◌, ◌≢◌, ◌↔◌, ◌⊎◌, inl,
  inr, Bool, true, false, not, ◌&&◌, ◌||◌, Option, none, some, List, [], ◌∷◌, ◌++◌, map, arith, ltb,
  leb, ◌==◌, if◌then◌else◌, add32, ◌>>=◌, Bool-cases, Option-cases, ==_iff, ==-refl, length,
  get_elem?, get_or, set, take, drop, replicate, length-append, length-set, get_or-set_self,
  get_or-set_ne,
}
use zythos.Input.Keyboard.{Keyboard, KeyboardEvent, keyboard_handle_set1_scancode}
use zythos.Kernel.KbdBuffer.{KbdBuffer, kbd_buffer_push, kbd_buffer_pop}

-- The variables of the parts, and all port writes, each a port and a value.
pub record Machine : Type 0 where
  pub keyboard : Keyboard
  pub buffer : KbdBuffer
  pub outs : List (ℕ × ℕ)

pub pic_send_eoi : ℕ → List (ℕ × ℕ)
pic_send_eoi irq = (if leb 8 irq then (0xA0, 0x20) ∷ [] else []) ++ (0x20, 0x20) ∷ []

-- The character is the code point's low byte.
abbrev pub deliver : Option KeyboardEvent → KbdBuffer → KbdBuffer
deliver none buffer = buffer
deliver (some ev) buffer =
    if ev.pressed && ev.is_text then kbd_buffer_push (ev.codepoint % 256) buffer else buffer

pub irq1_handler : ℕ → Machine → Machine
irq1_handler scancode m =
    let (ev, keyboard) = keyboard_handle_set1_scancode scancode m.keyboard in
    record { keyboard = keyboard; buffer = deliver ev m.buffer; outs = m.outs ++ pic_send_eoi 1 }

-- The interrupts of a sequence of bytes.
abbrev pub irq_all : List ℕ → Machine → Machine
irq_all [] m = m
irq_all (byte ∷ bytes) m = irq_all bytes (irq1_handler byte m)

-- The inner loop of `sys_read`. `yields` has the bytes that arrive during each `sys_yield`, as many as
-- the run is followed; `none` if there is no character by their end.
pub wait_loop : List (List ℕ) → Machine → Option (ℕ × List (List ℕ) × Machine)
wait_loop [] m = do
  (c, buffer) ← kbd_buffer_pop m.buffer
  some (c, [], record m { buffer = buffer })
wait_loop (arrived ∷ yields) m =
    let again = wait_loop yields (irq_all arrived m) in
    elim (kbd_buffer_pop m.buffer) [
      | none ↦ again
      | some (c, buffer) ↦ some (c, arrived ∷ yields, record m { buffer = buffer })
    ]

-- The characters that are written to the caller, of which there are `i` in the end. The outer loop
-- leaves after the first.
pub sys_read : ℕ → List (List ℕ) → Machine → Option (List ℕ × List (List ℕ) × Machine)
sys_read count yields m =
    if ltb 0 count
    then (do (c, later, after) ← wait_loop yields m; some (c ∷ [], later, after))
    else some ([], yields, m)
