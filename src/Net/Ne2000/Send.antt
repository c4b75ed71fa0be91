-- ===== src/Net/Ne2000/Send.antt =====
-- `ne2000_send` of net/ne2000.c.
use mathlib.Core.List.{append_assoc, append-nil}
use zythos.Base.{
  ℕ, zero, suc, ◌+◌, ◌*◌, ◌/◌, ◌%◌, ◌≤◌, ◌<◌, ◌≡◌, refl, sym, ap, ◌∙◌, ◌⊎◌, inl, inr, Bool, true,
  false, ◌&&◌, List, [], ◌∷◌, ◌++◌, map, arith, ltb, leb, ◌==◌, if◌then◌else◌, Bool-cases, length,
}
use zythos.Ports.{Accesses, Machine, outb, written}
use zythos.Input.Flags.{has_flag}
use zythos.Net.Ne2000.{
  Ne2000, ne_isr, ne_cmd, ne_data, ne_rsar0, ne_rsar1, ne_tpsr, ne_tx_start, ne_rbcr0, ne_rbcr1,
  ne_tbcr0, ne_tbcr1, port_at, ne_outs, wait_isr, poll_rounds, ne2000_send,
}

-- The values that go to one of the registers, of 8 bits.
abbrev values : ℕ → List (ℕ × ℕ) → List ℕ
values reg [] = []
values reg (w ∷ ws) = if w.0 == reg then w.1 % 256 ∷ values reg ws else values reg ws

-- The registers of the card.
abbrev in_card : List (ℕ × ℕ) → Bool
in_card [] = true
in_card (w ∷ ws) = leb w.0 31 && in_card ws

same_port :
    (io_base a b : ℕ)
    → io_base + 31 < 65536
    → a ≤ 31
    → b ≤ 31
    → (port_at io_base a == port_at io_base b) ≡ (a == b)
same_port io_base a b fits la lb =
    let left : (io_base + a) % 65536 ≡ io_base + a = omega (arith, fits, la) in
    let right : (io_base + b) % 65536 ≡ io_base + b = omega (arith, fits, lb) in
    rw (left, right) (ground arith)

written-ne_outs :
    (io_base reg : ℕ) (ws : List (ℕ × ℕ)) (io : Accesses)
    → io_base + 31 < 65536
    → reg ≤ 31
    → in_card ws ≡ true
    → written (port_at io_base reg) (ne_outs io_base ws io)
      ≡ written (port_at io_base reg) io ++ values reg ws
written-ne_outs io_base reg [] io fits small ok = sym (append-nil _)
written-ne_outs io_base reg (w ∷ ws) io fits small ok =
    let here : w.0 ≤ 31 = ground (arith, ok) in
    let others : in_card ws ≡ true = ground (arith, ok) in
    let rest =
      written-ne_outs io_base reg ws (outb (port_at io_base w.0) (w.1 % 256) io) fits small
        others in
    let port = same_port io_base w.0 reg fits here small in
    elim (Bool-cases (w.0 == reg)) [
      | inl it ↦
          rest
          ∙ rw (port, it)
              (append_assoc (written (port_at io_base reg) io) (w.1 % 256 ∷ []) (values reg ws))
      | inr away ↦ rest ∙ rw (port, away) refl
    ]

written-wait_isr :
    (machine : Machine) (io_base flag port n : ℕ) (io : Accesses)
    → written port (wait_isr machine io_base flag n io).1 ≡ written port io
unfolding wait_isr
written-wait_isr machine io_base flag port zero io =
    elim (Bool-cases (has_flag flag (machine (port_at io_base ne_isr) io % 256))) [
      | inl it ↦ rw it refl
      | inr it ↦ rw it refl
    ]
written-wait_isr machine io_base flag port (suc n) io =
    elim (Bool-cases (has_flag flag (machine (port_at io_base ne_isr) io % 256))) [
      | inl it ↦ rw it refl
      | inr it ↦ rw it (written-wait_isr machine io_base flag port n _)
    ]

-- The values of a list that are given to a port of 8 bits.
abbrev pub bytes_of : List ℕ → List ℕ
bytes_of [] = []
bytes_of (b ∷ bs) = b % 256 ∷ bytes_of bs

values-data : (frame : List ℕ) → values ne_data (map (λ b. (ne_data, b)) frame) ≡ bytes_of frame
values-data [] = refl
values-data (b ∷ frame) = ap (λ bs. b % 256 ∷ bs) (values-data frame)

values-other :
    (reg : ℕ) (frame : List ℕ)
    → (ne_data == reg) ≡ false
    → values reg (map (λ b. (ne_data, b)) frame) ≡ []
values-other reg [] other = refl
values-other reg (b ∷ frame) other = rw other (values-other reg frame other)

data-in_card : (frame : List ℕ) → in_card (map (λ b. (ne_data, b)) frame) ≡ true
data-in_card [] = refl
data-in_card (b ∷ frame) = data-in_card frame

-- The writes of `ne2000_send` before the frame and after it.
abbrev before_frame : ℕ → List (ℕ × ℕ)
before_frame len =
    (ne_isr, 0x40)
    ∷ (ne_rsar0, 0)
    ∷ (ne_rsar1, ne_tx_start)
    ∷ (ne_rbcr0, len % 256)
    ∷ (ne_rbcr1, len / 256 % 256)
    ∷ (ne_cmd, 0x12)
    ∷ []

abbrev after_frame : ℕ → List (ℕ × ℕ)
after_frame len =
    (ne_isr, 0x40)
    ∷ (ne_tpsr, ne_tx_start)
    ∷ (ne_tbcr0, len % 256)
    ∷ (ne_tbcr1, len / 256 % 256)
    ∷ (ne_cmd, 0x26)
    ∷ []

-- What `ne2000_send` writes to a register.
sent-written :
    {R : Type 0} (machine : Machine) (frame : List ℕ) (s : Ne2000 R) (reg : ℕ)
    → s.g_io_base + 31 < 65536
    → reg ≤ 31
    → length frame ≤ 1536
    → written (port_at s.g_io_base reg) (ne2000_send machine frame s).1.io
      ≡ written (port_at s.g_io_base reg) s.io
        ++ values reg (before_frame (length frame))
        ++ values reg (map (λ b. (ne_data, b)) frame)
        ++ values reg (after_frame (length frame))
unfolding ne2000_send
sent-written machine frame s reg fits small short =
    let room : ltb 1536 (length frame) ≡ false = ground (arith, short) in
    let base = s.g_io_base in
    let addressed = ne_outs base (before_frame (length frame)) s.io in
    let copied = ne_outs base (map (λ b. (ne_data, b)) frame) addressed in
    let waited = (wait_isr machine base 0x40 poll_rounds copied).1 in
    let first = written-ne_outs base reg (before_frame (length frame)) s.io fits small refl in
    let second =
      written-ne_outs base reg (map (λ b. (ne_data, b)) frame) addressed fits small
        (data-in_card frame) in
    let third = written-wait_isr machine base 0x40 (port_at base reg) poll_rounds copied in
    let fourth = written-ne_outs base reg (after_frame (length frame)) waited fits small refl in
    rw (ne2000_send, room)
      (fourth
        ∙ ap (λ l. l ++ values reg (after_frame (length frame)))
            (third ∙ second ∙ ap (λ l. l ++ values reg (map (λ b. (ne_data, b)) frame)) first))

sent-register :
    {R : Type 0} (machine : Machine) (frame : List ℕ) (s : Ne2000 R) (reg : ℕ)
    → s.g_io_base + 31 < 65536
    → reg ≤ 31
    → length frame ≤ 1536
    → (ne_data == reg) ≡ false
    → written (port_at s.g_io_base reg) (ne2000_send machine frame s).1.io
      ≡ written (port_at s.g_io_base reg) s.io
        ++ (values reg (before_frame (length frame)) ++ values reg (after_frame (length frame)))
sent-register machine frame s reg fits small short other =
    let start = written (port_at s.g_io_base reg) s.io in
    let front = values reg (before_frame (length frame)) in
    let back = values reg (after_frame (length frame)) in
    sent-written machine frame s reg fits small short
    ∙ ap (λ v. start ++ front ++ v ++ back) (values-other reg frame other)
    ∙ ap (λ l. l ++ back) (append-nil (start ++ front))
    ∙ append_assoc start front back

sent-data :
    {R : Type 0} (machine : Machine) (frame : List ℕ) (s : Ne2000 R)
    → s.g_io_base + 31 < 65536
    → length frame ≤ 1536
    → written (port_at s.g_io_base ne_data) (ne2000_send machine frame s).1.io
      ≡ written (port_at s.g_io_base ne_data) s.io ++ bytes_of frame
sent-data machine frame s fits short =
    let start = written (port_at s.g_io_base ne_data) s.io in
    sent-written machine frame s ne_data fits (omega arith) short
    ∙ append-nil _
    ∙ ap (λ v. start ++ [] ++ v) (values-data frame)
    ∙ ap (λ l. l ++ bytes_of frame) (append-nil start)

-- What a register has been given: the bytes `more` behind those of before.
abbrev pub Gets : {R : Type 0} → Ne2000 R → Ne2000 R → ℕ → List ℕ → Type 0
Gets s after reg more =
    written (port_at s.g_io_base reg) after.io ≡ written (port_at s.g_io_base reg) s.io ++ more

-- On a card whose ports do not wrap around, `ne2000_send` of a frame of at most 1536 bytes succeeds: the
-- data port is given the frame in order, each value modulo 256, the two counters the length of the frame
-- in a low and a high byte, both below 256, and the command register a remote write and then the transmission. A longer frame is
-- refused, and no port is touched.
pub ne2000_send_lem :
    {R : Type 0} (machine : Machine) (frame : List ℕ) (s : Ne2000 R)
    → s.g_io_base + 31 < 65536
    → let (ok, after) = ne2000_send machine frame s in
      ((ok ≡ true)
        × (length frame ≤ 1536)
        × Gets s after ne_data (bytes_of frame)
        × Gets s after ne_cmd (0x12 ∷ 0x26 ∷ [])
        × (low : ℕ) × (high : ℕ) × (low < 256)
        × (high < 256)
        × (low + 256 * high ≡ length frame)
        × Gets s after ne_rbcr0 (low ∷ [])
        × Gets s after ne_rbcr1 (high ∷ [])
        × Gets s after ne_tbcr0 (low ∷ [])
        × Gets s after ne_tbcr1 (high ∷ []))
      ⊎ ((ok ≡ false) × (1536 < length frame) × (after ≡ s))
unfolding ne2000_send
ne2000_send_lem machine frame s fits = elim (Bool-cases (ltb 1536 (length frame))) [
  | inl long ↦ inr (rw (ne2000_send, long) refl, ground (arith, long), rw (ne2000_send, long) refl)
  | inr room ↦
      let short : length frame ≤ 1536 = ground (arith, room) in
      let at = λ (reg : ℕ) (small : reg ≤ 31) (other : (ne_data == reg) ≡ false).
        sent-register machine frame s reg fits small short other in
      let len = length frame in
      inl (
        rw (ne2000_send, room) refl,
        short,
        sent-data machine frame s fits short,
        at ne_cmd (omega arith) refl,
        len % 256 % 256,
        len / 256 % 256 % 256,
        omega arith,
        omega arith,
        omega (arith, short),
        at ne_rbcr0 (omega arith) refl,
        at ne_rbcr1 (omega arith) refl,
        at ne_tbcr0 (omega arith) refl,
        at ne_tbcr1 (omega arith) refl,
      )
]
