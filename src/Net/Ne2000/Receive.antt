-- ===== src/Net/Ne2000/Receive.antt =====
-- Connections of net/tcp.c on the driver of net/ne2000.c.
use zythos.Base.{
  false, ℕ, ◌≡◌, refl, inl, inr, none, some, List, [], ◌==◌, if◌then◌else◌, Bool-cases,
}
use zythos.Ports.{Machine}
use zythos.Net.Tcp.{TcpConn, Tcp, is_established, tcp_recv}
use zythos.Net.Tcp.Silent.{tcp_recv-silent}
use zythos.Net.Ne2000.{
  Ne2000, ne_bnry, ne_cmd, ne_in, ne_out, is_positive, ne2000_recv, ne2000_netdev,
}

-- Neither result of `ne2000_recv` is positive.
never_positive :
    {R : Type 0} (machine : Machine) (s : Ne2000 R) → is_positive (ne2000_recv machine s).0 ≡ false
unfolding ne2000_recv
never_positive machine s =
    let (bound, read) = ne_in machine s.g_io_base ne_bnry s.io in
    let (curr, paged) = ne_in machine s.g_io_base 0x07 (ne_out s.g_io_base ne_cmd 0x62 read) in
    elim (Bool-cases (bound == curr)) [
      | inl same ↦ rw (ne2000_recv, same) refl
      | inr other ↦ rw (ne2000_recv, other) refl
    ]

-- On the driver of the NE2000, whatever the card answers and whatever stands in the buffer, `tcp_recv`
-- gives 0 bytes if the connection is established and no result if it is not, and the connection stays
-- as it was.
pub tcp_recv-ne2000 :
    {R : Type 0} (machine : Machine) (mac buffer : List ℕ) (c : TcpConn) (max_len : ℕ)
    (stale : ℕ → ℕ) (s : Tcp (Ne2000 R))
    → let (bytes, d, after) = tcp_recv (ne2000_netdev machine mac buffer) c max_len stale s in
      (bytes ≡ (if is_established c.state then some [] else none)) × (d ≡ c)
unfolding ne2000_netdev
tcp_recv-ne2000 machine mac buffer c max_len stale s =
    tcp_recv-silent (ne2000_netdev machine mac buffer) c max_len stale s
      (rw (never_positive machine s.network.card) refl)
