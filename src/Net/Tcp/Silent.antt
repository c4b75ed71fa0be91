-- ===== src/Net/Tcp/Silent.antt =====
-- `tcp_recv` of net/tcp.c on a card that never has a frame.
use zythos.Base.{ℕ, ◌≡◌, refl, if◌then◌else◌, inl, inr, none, some, [], Bool-cases}
use zythos.Net.Network.{Netdev}
use zythos.Net.Network.Up.{receive_frame-silent}
use zythos.Net.Tcp.{TcpConn, Tcp, is_established, tcp_recv}

pub tcp_recv-silent :
    {D : Type 0} (dev : Netdev D) (c : TcpConn) (max_len : ℕ) (stale : ℕ → ℕ) (s : Tcp D)
    → (dev.recv 1500 s.network.card).0 ≡ []
    → ((tcp_recv dev c max_len stale s).0 ≡ (if is_established c.state then some [] else none))
      × ((tcp_recv dev c max_len stale s).1 ≡ c)
unfolding tcp_recv
tcp_recv-silent dev c max_len stale s silent =
    let none_got = receive_frame-silent dev 1500 s.network silent in
    elim (Bool-cases (is_established c.state)) [
      | inl up ↦ (rw (tcp_recv, up, none_got) refl, rw (tcp_recv, up, none_got) refl)
      | inr down ↦ (rw (tcp_recv, down) refl, rw (tcp_recv, down) refl)
    ]
