-- ===== src/Net/Ne2000.antt =====
-- net/ne2000.c, on the ports of the card. The lines that are printed are left out.
pub mod Wait
pub mod Send
pub mod Receive
mod Tests
use zythos.Base.{
  ℕ, zero, suc, ◌+◌, ◌-◌, ◌*◌, ◌/◌, ◌%◌, ◌^◌, ◌≤◌, ◌<◌, ◌≡◌, refl, sym, ap, ◌∙◌, ◌≢◌, ◌↔◌, ◌⊎◌, inl,
  inr, Bool, true, false, not, ◌&&◌, ◌||◌, Option, none, some, List, [], ◌∷◌, ◌++◌, map, arith, ltb,
  leb, ◌==◌, if◌then◌else◌, add32, ◌>>=◌, Bool-cases, Option-cases, ==_iff, ==-refl, length,
  get_elem?, get_or, set, take, drop, replicate, length-append, length-set, get_or-set_self,
  get_or-set_ne,
}
use zythos.Ports.{Accesses, Machine, inb, outb, outs}
use zythos.Input.Flags.{has_flag}
use zythos.Net.Network.{Netdev}

abbrev pub ne_cmd : ℕ
ne_cmd = 0x00

abbrev pub ne_pstart : ℕ
ne_pstart = 0x01

abbrev pub ne_pstop : ℕ
ne_pstop = 0x02

abbrev pub ne_bnry : ℕ
ne_bnry = 0x03

abbrev pub ne_tpsr : ℕ
ne_tpsr = 0x04

abbrev pub ne_tbcr0 : ℕ
ne_tbcr0 = 0x05

abbrev pub ne_tbcr1 : ℕ
ne_tbcr1 = 0x06

abbrev pub ne_isr : ℕ
ne_isr = 0x07

abbrev pub ne_rsar0 : ℕ
ne_rsar0 = 0x08

abbrev pub ne_rsar1 : ℕ
ne_rsar1 = 0x09

abbrev pub ne_rbcr0 : ℕ
ne_rbcr0 = 0x0A

abbrev pub ne_rbcr1 : ℕ
ne_rbcr1 = 0x0B

abbrev pub ne_rcr : ℕ
ne_rcr = 0x0C

abbrev pub ne_tcr : ℕ
ne_tcr = 0x0D

abbrev pub ne_dcr : ℕ
ne_dcr = 0x0E

abbrev pub ne_imr : ℕ
ne_imr = 0x0F

abbrev pub ne_data : ℕ
ne_data = 0x10

abbrev pub ne_reset : ℕ
ne_reset = 0x1F

abbrev pub ne_page_size : ℕ
ne_page_size = 256

abbrev pub ne_rx_start : ℕ
ne_rx_start = 0x46

abbrev pub ne_rx_stop : ℕ
ne_rx_stop = 0x60

abbrev pub ne_tx_start : ℕ
ne_tx_start = 0x40

-- The fields of `g_dev` that are data; its `send` and `recv` are those of this file.
pub record DeviceData : Type 0 where
  pub name : List ℕ
  pub mac : List ℕ

-- The variables of the file, the accesses to ports and what `netdev_register` keeps.
pub record Ne2000 (R : Type 0) : Type 0 where
  pub g_io_base : ℕ
  pub g_mac : List ℕ
  pub g_dev : DeviceData
  pub registry : R
  pub io : Accesses

-- A port number has 16 bits.
abbrev pub port_at : ℕ → ℕ → ℕ
port_at io_base reg = (io_base + reg) % 65536

abbrev pub ne_in : Machine → ℕ → ℕ → Accesses → ℕ × Accesses
ne_in machine io_base reg io = inb machine (port_at io_base reg) io

-- A value has 8 bits.
abbrev pub ne_out : ℕ → ℕ → ℕ → Accesses → Accesses
ne_out io_base reg value io = outb (port_at io_base reg) (value % 256) io

-- Writes to registers, in their order.
abbrev pub ne_outs : ℕ → List (ℕ × ℕ) → Accesses → Accesses
ne_outs io_base ws io = outs (map (λ w. (port_at io_base w.0, w.1 % 256)) ws) io

-- The loop `while (!(ne_in(NE_ISR) & flag) && timeout--)`. The result is the value of `timeout`
-- afterwards, `none` for -1.
pub wait_isr : Machine → ℕ → ℕ → ℕ → Accesses → Option ℕ × Accesses
wait_isr machine io_base flag zero io =
    let (isr, seen) = ne_in machine io_base ne_isr io in
    if has_flag flag isr then (some 0, seen) else (none, seen)
wait_isr machine io_base flag (suc n) io =
    let (isr, seen) = ne_in machine io_base ne_isr io in
    let rest = wait_isr machine io_base flag n seen in
    if has_flag flag isr then (some (suc n), seen) else rest

-- `timeout <= 0`
abbrev pub is_over : Option ℕ → Bool
is_over none = true
is_over (some n) = n == 0

-- `n` bytes from the data port.
abbrev pub read_prom : Machine → ℕ → ℕ → Accesses → List ℕ × Accesses
read_prom machine io_base zero io = ([], io)
read_prom machine io_base (suc n) io =
    let (byte, seen) = ne_in machine io_base ne_data io in
    let (bytes, after) = read_prom machine io_base n seen in (byte ∷ bytes, after)

-- The settings before the address is read, and those after.
abbrev pub setup_writes : List (ℕ × ℕ)
setup_writes =
    (ne_isr, 0xFF)
    ∷ (ne_cmd, 0x21)
    ∷ (ne_dcr, 0x49)
    ∷ (ne_rbcr0, 0)
    ∷ (ne_rbcr1, 0)
    ∷ (ne_rcr, 0x20)
    ∷ (ne_tcr, 0x02)
    ∷ (ne_pstart, ne_rx_start)
    ∷ (ne_pstop, ne_rx_stop)
    ∷ (ne_bnry, ne_rx_start)
    ∷ (ne_isr, 0xFF)
    ∷ (ne_imr, 0x00)
    ∷ (ne_cmd, 0x22)
    ∷ (ne_rsar0, 0)
    ∷ (ne_rsar1, 0)
    ∷ (ne_rbcr0, 32)
    ∷ (ne_rbcr1, 0)
    ∷ (ne_cmd, 0x0A)
    ∷ []

abbrev pub start_writes : List (ℕ × ℕ)
start_writes = (ne_rcr, 0x04) ∷ (ne_tcr, 0x00) ∷ (ne_cmd, 0x22) ∷ []

-- `g_mac[i] = prom[i * 2]`
abbrev pub mac_of : List ℕ → List ℕ
mac_of prom = map (λ i. get_or prom (i * 2) 0) (0 ∷ 1 ∷ 2 ∷ 3 ∷ 4 ∷ 5 ∷ [])

-- "eth0"
abbrev pub eth0 : List ℕ
eth0 = b'e' ∷ b't' ∷ b'h' ∷ b'0' ∷ []

-- The rounds of both waiting loops.
pub poll_rounds : ℕ
poll_rounds = 10000

module _ {R : Type 0} (machine : Machine) (netdev_register : DeviceData → R → R) where
  -- `true` stands for 0, `false` for -1.
  pub ne2000_probe : ℕ → Ne2000 R → Bool × Ne2000 R
  ne2000_probe io_base s =
      let (reset_val, seen) = ne_in machine io_base ne_reset s.io in
      let (timeout, waited) =
        wait_isr machine io_base 0x80 poll_rounds (ne_out io_base ne_reset reset_val seen) in
      let (prom, read) = read_prom machine io_base 32 (ne_outs io_base setup_writes waited) in
      let mac = mac_of prom in
      let dev : DeviceData = record { name = eth0; mac = mac } in
      if is_over timeout then (false, record s { g_io_base = io_base; io = waited }) else (
        true,
        record {
          g_io_base = io_base;
          g_mac = mac;
          g_dev = dev;
          registry = netdev_register dev s.registry;
          io = ne_outs io_base start_writes read;
        },
      )

pub ne2000_get_device : {R : Type 0} → Ne2000 R → DeviceData
ne2000_get_device s = s.g_dev

-- `result > 0` of a signed word.
abbrev pub is_positive : ℕ → Bool
is_positive result = ltb 0 result && ltb result (2 ^ 31)

module _ {R : Type 0} (machine : Machine) where
  -- The frame is `len` bytes. `true` stands for 0, `false` for -1.
  pub ne2000_send : List ℕ → Ne2000 R → Bool × Ne2000 R
  ne2000_send frame s =
      let len = length frame in
      let low = len % 256 in
      let high = len / 256 % 256 in
      let addressed =
        ne_outs s.g_io_base
          ((ne_isr, 0x40)
            ∷ (ne_rsar0, 0)
            ∷ (ne_rsar1, ne_tx_start)
            ∷ (ne_rbcr0, low)
            ∷ (ne_rbcr1, high)
            ∷ (ne_cmd, 0x12)
            ∷ [])
          s.io in
      let copied = ne_outs s.g_io_base (map (λ b. (ne_data, b)) frame) addressed in
      let (_, waited) = wait_isr machine s.g_io_base 0x40 poll_rounds copied in
      let sent =
        ne_outs s.g_io_base
          ((ne_isr, 0x40)
            ∷ (ne_tpsr, ne_tx_start)
            ∷ (ne_tbcr0, low)
            ∷ (ne_tbcr1, high)
            ∷ (ne_cmd, 0x26)
            ∷ [])
          waited in
      if ltb (ne_page_size * 6) len then (false, s) else (true, record s { io = sent })

  -- The result is 0 or the word of -1; nothing is written to the buffer.
  pub ne2000_recv : Ne2000 R → ℕ × Ne2000 R
  ne2000_recv s =
      let (bound, read) = ne_in machine s.g_io_base ne_bnry s.io in
      let (curr, paged) = ne_in machine s.g_io_base 0x07 (ne_out s.g_io_base ne_cmd 0x62 read) in
      let after = record s { io = ne_out s.g_io_base ne_cmd 0x22 paged } in
      if bound == curr then (0, after) else (2 ^ 32 - 1, after)

  -- The device that `ne2000_probe` registers. A caller has bytes in its buffer, and a positive result
  -- says how many of them it takes for the frame.
  pub ne2000_netdev : List ℕ → List ℕ → Netdev (Ne2000 R)
  ne2000_netdev mac buffer = record {
    mac = mac;
    has_send = true;
    has_recv = true;
    send = ne2000_send;
    recv = λ max_len s.
        let (result, after) = ne2000_recv s in
        ((if is_positive result then take result buffer else []), after);
  }
