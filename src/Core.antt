-- ===== src/Core.antt =====
-- core/panic.c: what `panic` writes to the serial line before it stops the machine for good.
pub mod Hex
mod Tests
use zythos.Base.{
  ℕ, zero, suc, ◌+◌, ◌-◌, ◌*◌, ◌/◌, ◌%◌, ◌^◌, ◌≤◌, ◌<◌, ◌≡◌, refl, sym, ap, ◌∙◌, ◌≢◌, ◌↔◌, ◌⊎◌, inl,
  inr, Bool, true, false, not, ◌&&◌, ◌||◌, Option, none, some, List, [], ◌∷◌, ◌++◌, map, arith, ltb,
  leb, ◌==◌, if◌then◌else◌, add32, ◌>>=◌, Bool-cases, Option-cases, ==_iff, ==-refl, length,
  get_elem?, get_or, set, take, drop, replicate, length-append, length-set, get_or-set_self,
  get_or-set_ne,
}

pub data PanicCause : Type 0 where
  panic_general_protection_fault : PanicCause
  panic_init_died : PanicCause
  panic_vfs_no_blockdev : PanicCause
  panic_rootfs_not_mounted : PanicCause
  panic_init_missing : PanicCause
  panic_cannot_exec_init : PanicCause
  panic_kernel_died : PanicCause
  panic_unknown : PanicCause

pub record PanicRegs : Type 0 where
  pub eax : ℕ
  pub ebx : ℕ
  pub ecx : ℕ
  pub edx : ℕ
  pub esi : ℕ
  pub edi : ℕ
  pub ebp : ℕ
  pub esp : ℕ
  pub eip : ℕ
  pub err_code : ℕ

abbrev pub panic_cause_str : PanicCause → List ℕ
panic_cause_str panic_general_protection_fault =
    b'G' ∷ b'e' ∷ b'n' ∷ b'e' ∷ b'r' ∷ b'a' ∷ b'l' ∷ b' ' ∷ b'P' ∷ b'r' ∷ b'o' ∷ b't' ∷ b'e' ∷ b'c'
    ∷ b't' ∷ b'i' ∷ b'o' ∷ b'n' ∷ b' ' ∷ b'F' ∷ b'a' ∷ b'u' ∷ b'l' ∷ b't' ∷ []
panic_cause_str panic_init_died = b'i' ∷ b'n' ∷ b'i' ∷ b't' ∷ b' ' ∷ b'd' ∷ b'i' ∷ b'e' ∷ b'd' ∷ []
panic_cause_str panic_vfs_no_blockdev =
    b'V' ∷ b'F' ∷ b'S' ∷ b':' ∷ b' ' ∷ b'c' ∷ b'o' ∷ b'u' ∷ b'l' ∷ b'd' ∷ b' ' ∷ b'n' ∷ b'o' ∷ b't'
    ∷ b' ' ∷ b'f' ∷ b'i' ∷ b'n' ∷ b'd' ∷ b' ' ∷ b'b' ∷ b'l' ∷ b'o' ∷ b'c' ∷ b'k' ∷ b'd' ∷ b'e'
    ∷ b'v' ∷ b' ' ∷ b'0' ∷ b',' ∷ b'0' ∷ []
panic_cause_str panic_rootfs_not_mounted =
    b'r' ∷ b'o' ∷ b'o' ∷ b't' ∷ b'f' ∷ b's' ∷ b' ' ∷ b'n' ∷ b'o' ∷ b't' ∷ b' ' ∷ b'm' ∷ b'o' ∷ b'u'
    ∷ b'n' ∷ b't' ∷ b'e' ∷ b'd' ∷ []
panic_cause_str panic_init_missing =
    b'i' ∷ b'n' ∷ b'i' ∷ b't' ∷ b' ' ∷ b'm' ∷ b'i' ∷ b's' ∷ b's' ∷ b'i' ∷ b'n' ∷ b'g' ∷ []
panic_cause_str panic_cannot_exec_init =
    b'k' ∷ b'e' ∷ b'r' ∷ b'n' ∷ b'e' ∷ b'l' ∷ b' ' ∷ b'c' ∷ b'o' ∷ b'u' ∷ b'l' ∷ b'd' ∷ b' ' ∷ b'n'
    ∷ b'o' ∷ b't' ∷ b' ' ∷ b'r' ∷ b'u' ∷ b'n' ∷ b' ' ∷ b'i' ∷ b'n' ∷ b'i' ∷ b't' ∷ []
panic_cause_str panic_kernel_died =
    b'k' ∷ b'e' ∷ b'r' ∷ b'n' ∷ b'e' ∷ b'l' ∷ b' ' ∷ b'd' ∷ b'i' ∷ b'e' ∷ b'd' ∷ []
panic_cause_str panic_unknown =
    b'u' ∷ b'n' ∷ b'k' ∷ b'n' ∷ b'o' ∷ b'w' ∷ b'n' ∷ b' ' ∷ b'p' ∷ b'a' ∷ b'n' ∷ b'i' ∷ b'c' ∷ []

-- The character of a digit.
abbrev pub hex_digit : ℕ → ℕ
hex_digit d = if ltb d 10 then b'0' + d else b'a' + (d - 10)

-- The loop of `serial_puts_hex`, which fills the buffer from its end: `n` digits of `val`.
abbrev pub hex_digits : ℕ → ℕ → List ℕ
hex_digits zero val = []
hex_digits (suc n) val = hex_digits n (val / 16) ++ hex_digit (val % 16) ∷ []

pub serial_puts_hex : ℕ → List ℕ
serial_puts_hex val = b'0' ∷ b'x' ∷ hex_digits 8 val

-- The code ends its lines by "/n", and so does this.
abbrev pub line_end : List ℕ
line_end = b'/' ∷ b'n' ∷ []

-- `regs` that are null are `none`.
pub dump_regs : Option PanicRegs → List ℕ
dump_regs none = []
dump_regs (some r) =
    (b'e' ∷ b'a' ∷ b'x' ∷ b'=' ∷ [])
    ++ serial_puts_hex r.eax
    ++ (b' ' ∷ b'e' ∷ b'b' ∷ b'x' ∷ b'=' ∷ [])
    ++ serial_puts_hex r.ebx
    ++ (b' ' ∷ b'e' ∷ b'c' ∷ b'x' ∷ b'=' ∷ [])
    ++ serial_puts_hex r.ecx
    ++ (b' ' ∷ b'e' ∷ b'd' ∷ b'x' ∷ b'=' ∷ [])
    ++ serial_puts_hex r.edx
    ++ line_end
    ++ (b'e' ∷ b's' ∷ b'i' ∷ b'=' ∷ [])
    ++ serial_puts_hex r.esi
    ++ (b' ' ∷ b'e' ∷ b'd' ∷ b'i' ∷ b'=' ∷ [])
    ++ serial_puts_hex r.edi
    ++ (b' ' ∷ b'e' ∷ b'b' ∷ b'p' ∷ b'=' ∷ [])
    ++ serial_puts_hex r.ebp
    ++ (b' ' ∷ b'e' ∷ b's' ∷ b'p' ∷ b'=' ∷ [])
    ++ serial_puts_hex r.esp
    ++ line_end
    ++ (b'e' ∷ b'i' ∷ b'p' ∷ b'=' ∷ [])
    ++ serial_puts_hex r.eip
    ++ (b' ' ∷ b'e' ∷ b'r' ∷ b'r' ∷ b'=' ∷ [])
    ++ serial_puts_hex r.err_code
    ++ line_end

-- `extra` that is null is `none`.
pub panic : PanicCause → Option (List ℕ) → Option PanicRegs → List ℕ
panic cause extra regs =
    let info : List ℕ = elim extra [
      | none ↦ []
      | some text ↦ (b'i' ∷ b'n' ∷ b'f' ∷ b'o' ∷ b':' ∷ b' ' ∷ []) ++ text ++ line_end
    ] in
    line_end
    ++ (b'*' ∷ b'*' ∷ b'*' ∷ b' ' ∷ b'K' ∷ b'E' ∷ b'R' ∷ b'N' ∷ b'E' ∷ b'L' ∷ b' ' ∷ b'P' ∷ b'A'
        ∷ b'N' ∷ b'I' ∷ b'C' ∷ b' ' ∷ b'[' ∷ [])
    ++ (b'p' ∷ b'a' ∷ b'n' ∷ b'i' ∷ b'c' ∷ [])
    ++ (b']' ∷ b' ' ∷ b'*' ∷ b'*' ∷ b'*' ∷ [])
    ++ line_end
    ++ (b'c' ∷ b'a' ∷ b'u' ∷ b's' ∷ b'e' ∷ b':' ∷ b' ' ∷ [])
    ++ panic_cause_str cause
    ++ line_end
    ++ info
    ++ dump_regs regs
    ++ (b's' ∷ b'y' ∷ b's' ∷ b't' ∷ b'e' ∷ b'm' ∷ b' ' ∷ b'h' ∷ b'a' ∷ b'l' ∷ b't' ∷ b'e' ∷ b'd'
        ∷ b'.' ∷ [])
    ++ line_end
