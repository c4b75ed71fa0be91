-- ===== src/Net/Tests.antt =====
-- The theorems on net/ at a connection to 10.0.0.2 and cards that keep the last frame.
use zythos.Base.{
  ℕ, ◌+◌, ◌≤◌, ◌<◌, ◌≡◌, refl, ◌≢◌, true, some, List, [], ◌∷◌, arith, length, get_or, replicate,
}
use zythos.Net.Network.{Netdev, Ipv4Address}
use zythos.Net.Network.Up.{IsUp}
use zythos.Net.Tcp.{
  tcp_closed, tcp_syn_sent, tcp_established, tcp_fin_wait, TcpConn, Tcp, build_tcp_segment,
  tcp_send, tcp_recv,
}
use zythos.Net.Tcp.Transfer.{tcp_recv-tcp_send, tcp_recv-overread}
use zythos.Net.Tcp.States.{Call, connects, handles, receives, closes, calls}
use zythos.Net.Tcp.Calls.{Opened, Started, calls_lem}

-- A card whose state is the frame on the wire.
abbrev card : Netdev (List ℕ)
card = record {
  mac = [];
  has_send = true;
  has_recv = true;
  send = λ f d. (true, f);
  recv = λ n d. (d, []);
}

abbrev peer : Ipv4Address
peer = record { b0 = 10; b1 = 0; b2 = 0; b3 = 2 }

abbrev conn : TcpConn
conn = record {
  state = tcp_established;
  remote_ip = peer;
  remote_port = 80;
  local_port = 40000;
  seq = 2;
  ack = 1;
}

abbrev wire : List ℕ → Tcp (List ℕ)
wire f = record {
  g_next_local_port = 40001;
  network = record {
    g_dev = true;
    g_initialized = true;
    g_ip = peer;
    g_frames_sent = 0;
    g_frames_received = 0;
    card = f;
  };
}

wire-IsUp : (f : List ℕ) → IsUp card (wire f).network
wire-IsUp f = record { initialized = refl; found = refl; sends = refl; receives = refl }

abbrev hello : List ℕ
hello = b'h' ∷ b'i' ∷ []

abbrev hello_frame : List ℕ
hello_frame = build_tcp_segment conn 24 hello

tcp_recv-tcp_send_example :
    ((tcp_send card conn hello (wire [])).0 ≡ true)
    × ((tcp_send card conn hello (wire [])).1 ≡ record conn { seq = 4 })
    × ((tcp_send card conn hello (wire [])).2.network.card ≡ hello_frame)
    × ((tcp_recv card conn 1024 (λ _. 7) (wire hello_frame)).0 ≡ some hello)
    × ((tcp_recv card conn 1024 (λ _. 7) (wire hello_frame)).1 ≡ record conn { ack = 3 })
tcp_recv-tcp_send_example =
    tcp_recv-tcp_send card card conn conn hello 1024 (λ _. 7) (wire []) (wire hello_frame)
      hello_frame [] refl refl (wire-IsUp []) (wire-IsUp hello_frame) (omega arith) (omega arith)
      refl refl

-- A frame of 40 bytes whose header says 48.
abbrev short_frame : List ℕ
short_frame = 0x45 ∷ 0 ∷ 0 ∷ 48 ∷ replicate 36 0

tcp_recv-overread_example :
    (r : List ℕ) × ((tcp_recv card conn 1024 (λ _. 7) (wire short_frame)).0 ≡ some r)
    × (length r ≡ 8)
    × ((i : ℕ) → length short_frame ≤ 40 + i → i < 8 → get_or r i 0 ≡ 7)
tcp_recv-overread_example =
    tcp_recv-overread card conn 1024 (λ _. 7) (wire short_frame) short_frame [] 8 refl
      (wire-IsUp short_frame) refl (omega arith) (omega arith) refl refl (omega arith) (omega arith)

abbrev idle : TcpConn
idle = record conn { state = tcp_closed }

-- A `tcp_connect`, a frame of SYN and ACK, a `tcp_recv` and a `tcp_close`; the last one first.
abbrev some_calls : List Call
some_calls = closes ∷ receives 100 (λ _. 0) ∷ handles (λ _. 0x12) 40 ∷ connects peer 80 ∷ []

calls_lem_example :
    let t = (calls card some_calls idle (wire [])).0.state in
    (t ≡ tcp_established → Opened some_calls)
    × (t ≡ tcp_syn_sent → Started some_calls)
    × (t ≢ tcp_fin_wait)
calls_lem_example = calls_lem card some_calls idle (wire []) refl
