-- ===== src/Net/Tcp.antt =====
-- net/tcp.c: one connection, on frames that are lists of bytes from the header of IP on.
pub mod Silent
pub mod Frames
pub mod Transfer
pub mod States
pub mod Calls
use zythos.Base.{
  ℕ, zero, suc, ◌+◌, ◌-◌, ◌*◌, ◌/◌, ◌%◌, ◌^◌, ◌≤◌, ◌<◌, ◌≡◌, refl, sym, ap, ◌∙◌, ◌≢◌, ◌↔◌, ◌⊎◌, inl,
  inr, Bool, true, false, not, ◌&&◌, ◌||◌, Option, none, some, List, [], ◌∷◌, ◌++◌, map, arith, ltb,
  leb, ◌==◌, if◌then◌else◌, add32, ◌>>=◌, Bool-cases, Option-cases, ==_iff, ==-refl, length,
  get_elem?, get_or, set, take, drop, replicate, length-append, length-set, get_or-set_self,
  get_or-set_ne,
}
use zythos.Net.Network.{Netdev, Ipv4Address, Network, network_send_frame, network_receive_frame}

abbrev pub tcp_flag_syn : ℕ
tcp_flag_syn = 0x02

abbrev pub tcp_flag_ack : ℕ
tcp_flag_ack = 0x10

abbrev pub tcp_flag_fin : ℕ
tcp_flag_fin = 0x01

abbrev pub tcp_flag_psh : ℕ
tcp_flag_psh = 0x08

-- `flags & f` is not 0, for a flag of one bit.
abbrev pub has_flag : ℕ → ℕ → Bool
has_flag f flags = flags / f % 2 == 1

pub data TcpState : Type 0 where
  tcp_closed tcp_syn_sent tcp_established tcp_fin_wait tcp_closing : TcpState

abbrev pub is_established : TcpState → Bool
is_established tcp_established = true
is_established s = false

abbrev pub is_syn_sent : TcpState → Bool
is_syn_sent tcp_syn_sent = true
is_syn_sent s = false

pub record TcpConn : Type 0 where
  pub state : TcpState
  pub remote_ip : Ipv4Address
  pub remote_port : ℕ
  pub local_port : ℕ
  pub seq : ℕ
  pub ack : ℕ

-- `g_next_local_port`, which has 16 bits, and the network layer.
pub record Tcp (D : Type 0) : Type 0 where
  pub g_next_local_port : ℕ
  pub network : Network D

abbrev pub hton16 : ℕ → ℕ
hton16 v = v * 256 % 65536 + v / 256

abbrev pub ip_to_u32 : Ipv4Address → ℕ
ip_to_u32 ip = ip.b0 * 2 ^ 24 + ip.b1 * 2 ^ 16 + ip.b2 * 2 ^ 8 + ip.b3

-- A number of 16 or 32 bits in memory, lowest byte first.
abbrev pub half : ℕ → List ℕ
half v = v % 256 ∷ v / 256 % 256 ∷ []

abbrev pub word : ℕ → List ℕ
word v = half v ++ half (v / 65536)

-- `sizeof(ipv4_hdr_t)`, and with `sizeof(tcp_hdr_t)`.
abbrev pub sizeof_ip : ℕ
sizeof_ip = 20

abbrev pub sizeof_headers : ℕ
sizeof_headers = 40

abbrev pub ipv4_header : TcpConn → ℕ → List ℕ
ipv4_header c payload_len =
    let ip = ip_to_u32 c.remote_ip in
    0x45 ∷ 0 ∷ half (hton16 ((sizeof_headers + payload_len) % 65536))
    ++ half 0
    ++ half 0
    ++ 64 ∷ 6 ∷ half 0
    ++ word 0
    ++ word (hton16 (ip % 65536) * 65536 + hton16 (ip / 65536 % 65536))

abbrev pub tcp_header : TcpConn → ℕ → List ℕ
tcp_header c flags =
    half (hton16 c.local_port)
    ++ half (hton16 c.remote_port)
    ++ word c.seq
    ++ word c.ack
    ++ 80 ∷ flags ∷ half (hton16 4096)
    ++ half 0
    ++ half 0

pub build_tcp_segment : TcpConn → ℕ → List ℕ → List ℕ
build_tcp_segment c flags payload = ipv4_header c (length payload) ++ tcp_header c flags ++ payload

-- The fields of a frame at their places: the length of IP, the sequence number and the flags.
abbrev pub total_len : (ℕ → ℕ) → ℕ
total_len frame = frame 2 + 256 * frame 3

abbrev pub frame_seq : (ℕ → ℕ) → ℕ
frame_seq frame = frame 24 + 256 * frame 25 + 65536 * frame 26 + 16777216 * frame 27

abbrev pub frame_flags : (ℕ → ℕ) → ℕ
frame_flags frame = frame 33

-- An array on the stack: what has been received, and behind it what stood there before.
abbrev pub over : List ℕ → (ℕ → ℕ) → ℕ → ℕ
over bytes stale i = get_or bytes i (stale i)

-- The bytes `from`, `from + 1`, ... of an array.
abbrev pub slice : ℕ → ℕ → (ℕ → ℕ) → List ℕ
slice zero from frame = []
slice (suc n) from frame = frame from ∷ slice n (from + 1) frame

module _ {D : Type 0} (dev : Netdev D) where
  pub tcp_connect : TcpConn → Ipv4Address → ℕ → Tcp D → Bool × TcpConn × Tcp D
  tcp_connect c ip port s =
      let opened : TcpConn = record {
        state = tcp_syn_sent;
        remote_ip = ip;
        remote_port = port;
        local_port = s.g_next_local_port;
        seq = 1;
        ack = 0;
      } in
      let (ret, network) =
        network_send_frame dev (build_tcp_segment opened tcp_flag_syn []) s.network in
      let after : Tcp D = record {
        g_next_local_port = (s.g_next_local_port + 1) % 65536;
        network = network;
      } in
      if ret then (true, opened, after) else (false, record opened { state = tcp_closed }, after)

  -- `true` for 0.
  pub tcp_send : TcpConn → List ℕ → Tcp D → Bool × TcpConn × Tcp D
  tcp_send c payload s =
      let sent = if ltb 1024 (length payload) then take 1024 payload else payload in
      let (ret, network) =
        network_send_frame dev (build_tcp_segment c (tcp_flag_ack + tcp_flag_psh) sent) s.network in
      let after = record s { network = network } in
      if not (is_established c.state)
      then (false, c, s)
      else if ret
      then (true, record c { seq = add32 c.seq (length sent) }, after)
      else (false, c, after)

  pub tcp_on_frame : TcpConn → (ℕ → ℕ) → ℕ → Tcp D → TcpConn × Tcp D
  tcp_on_frame c frame len s =
      let flags = frame_flags frame in
      let opened = record c {
        ack = add32 (frame_seq frame) 1;
        seq = add32 c.seq 1;
        state = tcp_established;
      } in
      let (_, network) =
        network_send_frame dev (build_tcp_segment opened tcp_flag_ack []) s.network in
      if ltb len sizeof_headers
      then (c, s)
      else if is_syn_sent c.state && (has_flag tcp_flag_syn flags || has_flag tcp_flag_ack flags)
      then (opened, record s { network = network })
      else if has_flag tcp_flag_fin flags
      then (record c { state = tcp_closing }, s)
      else (c, s)

  -- `none` for -1, the bytes written to `buf` otherwise. `stale` is what stands on the stack where
  -- `frame` is.
  pub tcp_recv : TcpConn → ℕ → (ℕ → ℕ) → Tcp D → Option (List ℕ) × TcpConn × Tcp D
  tcp_recv c max_len stale s =
      let (bytes, network) = network_receive_frame dev 1500 s.network in
      let received = record s { network = network } in
      let frame = over bytes stale in
      let (d, after) = tcp_on_frame c frame (length bytes) received in
      let payload_len = (hton16 (total_len frame) + (65536 - sizeof_headers)) % 65536 in
      if not (is_established c.state)
      then (none, c, s)
      else if length bytes == 0
      then (some [], c, received)
      else if (payload_len == 0) || ltb max_len payload_len
      then (some [], d, after)
      else (
        some (slice payload_len sizeof_headers frame),
        record d { ack = add32 d.ack payload_len },
        after,
      )

  pub tcp_close : TcpConn → Tcp D → TcpConn × Tcp D
  tcp_close c s =
      let (_, network) =
        network_send_frame dev (build_tcp_segment c (tcp_flag_fin + tcp_flag_ack) []) s.network in
      if not (is_established c.state)
      then (record c { state = tcp_closed }, s)
      else (record c { state = tcp_closed }, record s { network = network })
