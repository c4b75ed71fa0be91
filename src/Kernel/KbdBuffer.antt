-- ===== src/Kernel/KbdBuffer.antt =====
-- kernel/kbd_buffer.c: a ring of 128 characters of which one slot stays free.
pub mod Fifo
use zythos.Base.{
  ℕ, zero, suc, ◌+◌, ◌-◌, ◌*◌, ◌/◌, ◌%◌, ◌^◌, ◌≤◌, ◌<◌, ◌≡◌, refl, sym, ap, ◌∙◌, ◌≢◌, ◌↔◌, ◌⊎◌, inl,
  inr, Bool, true, false, not, ◌&&◌, ◌||◌, Option, none, some, List, [], ◌∷◌, ◌++◌, map, arith, ltb,
  leb, ◌==◌, if◌then◌else◌, add32, ◌>>=◌, Bool-cases, Option-cases, ==_iff, ==-refl, length,
  get_elem?, get_or, set, take, drop, replicate, length-append, length-set, get_or-set_self,
  get_or-set_ne,
}

abbrev pub kbd_buf_size : ℕ
kbd_buf_size = 128

-- The file's variables.
pub record KbdBuffer : Type 0 where
  pub g_buf : List ℕ
  pub g_head : ℕ
  pub g_tail : ℕ

abbrev pub empty : KbdBuffer
empty = record { g_buf = replicate kbd_buf_size 0; g_head = 0; g_tail = 0 }

pub kbd_buffer_push : ℕ → KbdBuffer → KbdBuffer
kbd_buffer_push c s =
    let next = add32 s.g_head 1 % kbd_buf_size in
    if next == s.g_tail then s else record s { g_buf = set s.g_buf s.g_head c; g_head = next }

-- `none` where the code returns false.
pub kbd_buffer_pop : KbdBuffer → Option (ℕ × KbdBuffer)
kbd_buffer_pop s =
    if s.g_tail == s.g_head
    then none
    else some (get_or s.g_buf s.g_tail 0, record s { g_tail = add32 s.g_tail 1 % kbd_buf_size })
