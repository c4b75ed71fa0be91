-- ===== src/Net/Tcp/Transfer.antt =====
-- Frames of net/tcp.c from `tcp_send` to `tcp_recv`.
use zythos.Base.{
  length-take-le, ℕ, suc, ◌+◌, ◌%◌, ◌≤◌, ◌<◌, ◌≡◌, refl, ap, ◌∙◌, inl, inr, true, false, ◌||◌, some,
  List, [], ◌∷◌, ◌++◌, arith, ltb, ◌==◌, if◌then◌else◌, add32, Bool-cases, length, get_or, take,
}
use zythos.Net.Network.{Netdev}
use zythos.Net.Network.Up.{IsUp, send_frame-up, receive_frame-up}
use zythos.Net.Tcp.{
  tcp_established, is_established, TcpConn, Tcp, hton16, build_tcp_segment, ipv4_header, tcp_header,
  total_len, frame_flags, has_flag, tcp_flag_fin, over, slice, tcp_on_frame, tcp_send, tcp_recv,
}
use zythos.Net.Tcp.Frames.{
  sent_half, get_or-append, get_or-outside, slice_over, length-slice, get_or-slice,
}

-- What `tcp_send` sends of the bytes.
abbrev cut : List ℕ → List ℕ
cut p = if ltb 1024 (length p) then take 1024 p else p

module _ {D : Type 0} (dev : Netdev D) where
  tcp_send-up :
      (c : TcpConn) (p : List ℕ) (s : Tcp D) (k : D)
      → c.state ≡ tcp_established
      → IsUp dev s.network
      → dev.send (build_tcp_segment c 24 (cut p)) s.network.card ≡ (true, k)
      → ((tcp_send dev c p s).0 ≡ true)
        × ((tcp_send dev c p s).1 ≡ record c { seq = add32 c.seq (length (cut p)) })
        × ((tcp_send dev c p s).2.network.card ≡ k)
  unfolding tcp_send
  tcp_send-up c p s k established is sent =
      let run = send_frame-up dev (build_tcp_segment c 24 (cut p)) s.network k is sent in
      let open_now : is_established c.state ≡ true = ap is_established established in
      (
        rw (tcp_send, run, open_now) refl,
        rw (tcp_send, run, open_now) refl,
        rw (tcp_send, run, open_now) refl,
      )

  -- A frame that is not asked to close anything leaves an established connection as it is.
  on_frame-established :
      (c : TcpConn) (frame : ℕ → ℕ) (len : ℕ) (s : Tcp D)
      → c.state ≡ tcp_established
      → has_flag tcp_flag_fin (frame_flags frame) ≡ false
      → tcp_on_frame dev c frame len s ≡ (c, s)
  unfolding tcp_on_frame
  on_frame-established c frame len s established stays = elim (Bool-cases (ltb len 40)) [
    | inl short ↦ rw (tcp_on_frame, short) refl
    | inr whole ↦ rw (tcp_on_frame, whole, established, stays) refl
  ]

  recv-steps :
      (c : TcpConn) (max_len : ℕ) (stale : ℕ → ℕ) (s : Tcp D) (bytes : List ℕ) (k : D) (n : ℕ)
      → c.state ≡ tcp_established
      → IsUp dev s.network
      → dev.recv 1500 s.network.card ≡ (bytes, k)
      → 0 < length bytes
      → has_flag tcp_flag_fin (frame_flags (over bytes stale)) ≡ false
      → hton16 (total_len (over bytes stale)) ≡ 40 + n
      → 0 < n
      → n ≤ max_len
      → 40 + n < 65536
      → ((tcp_recv dev c max_len stale s).0 ≡ some (slice n 40 (over bytes stale)))
        × ((tcp_recv dev c max_len stale s).1 ≡ record c { ack = add32 c.ack n })
  unfolding tcp_recv
  recv-steps c max_len stale s bytes k n established is got some_bytes stays claimed more fits
        small =
      let open_now : is_established c.state ≡ true = ap is_established established in
      let run = receive_frame-up dev bytes s.network k is some_bytes got in
      let network = record s.network {
        card = k;
        g_frames_received = add32 s.network.g_frames_received 1;
      } in
      let handled =
        on_frame-established c (over bytes stale) (length bytes) (record s { network = network })
          established stays in
      let arrived : (length bytes == 0) ≡ false = ground (arith, some_bytes) in
      let size : (40 + n + 65496) % 65536 ≡ n = omega arith in
      let good : ((n == 0) || ltb max_len n) ≡ false = ground (arith, more, fits) in
      (
        rw (tcp_recv, run, open_now, arrived, claimed, size, good) refl,
        rw (tcp_recv, run, open_now, arrived, claimed, size, good, handled) refl,
      )

cut_size : (p : List ℕ) → 0 < length p → (0 < length (cut p)) × (length (cut p) ≤ 1024)
cut_size [] more = absurd (omega arith)
cut_size (x ∷ p) more = elim (Bool-cases (ltb 1024 (suc (length p)))) [
  | inl long ↦ rw long (omega arith, omega (arith, length-take-le 1024 (x ∷ p)))
  | inr short ↦ rw short (omega arith, ground (arith, short))
]

-- The fields of a segment, read where they stand.
segment_fields :
    (c : TcpConn) (q : List ℕ) (stale : ℕ → ℕ)
    → length q ≤ 1024
    → let f = build_tcp_segment c 24 q in
      (hton16 (total_len (over f stale)) ≡ 40 + length q)
      × (frame_flags (over f stale) ≡ 24)
      × (40 ≤ length f)
      × (slice (length q) 40 (over f stale) ≡ q)
unfolding build_tcp_segment
segment_fields c q stale small =
    let headers = ipv4_header c (length q) ++ tcp_header c 24 in
    (
      sent_half (40 + length q) (omega (arith, small)),
      refl,
      omega arith,
      slice_over q 40 (over (headers ++ q) stale) (λ i. stale (40 + i))
          (λ i. get_or-append headers q i (stale (40 + i))),
    )

-- Two ends with an established connection, each with a card that works, and some bytes to send:
-- `tcp_send` returns 0 and gives its card a frame, and when the other end's card receives that frame,
-- `tcp_recv` with room for 1024 bytes returns the bytes. If there are more than 1024, both take the first
-- 1024 of them only. The sender's sequence number and the receiver's acknowledgement advance by their
-- number, and the receiver stays established.
pub tcp_recv-tcp_send :
    {D E : Type 0} (dev : Netdev D) (other : Netdev E) (c d : TcpConn) (p : List ℕ) (max_len : ℕ)
    (stale : ℕ → ℕ) (s : Tcp D) (r : Tcp E) (k : D) (e : E)
    → c.state ≡ tcp_established
    → d.state ≡ tcp_established
    → IsUp dev s.network
    → IsUp other r.network
    → 0 < length p
    → 1024 ≤ max_len
    → let sent = if ltb 1024 (length p) then take 1024 p else p in
      let f = build_tcp_segment c 24 sent in
      dev.send f s.network.card ≡ (true, k)
      → other.recv 1500 r.network.card ≡ (f, e)
      → ((tcp_send dev c p s).0 ≡ true)
        × ((tcp_send dev c p s).1 ≡ record c { seq = add32 c.seq (length sent) })
        × ((tcp_send dev c p s).2.network.card ≡ k)
        × ((tcp_recv other d max_len stale r).0 ≡ some sent)
        × ((tcp_recv other d max_len stale r).1 ≡ record d { ack = add32 d.ack (length sent) })
tcp_recv-tcp_send dev other c d p max_len stale s r k e up up' is is' more room sent got =
    let q = cut p in
    let f = build_tcp_segment c 24 q in
    let (some_bytes, few) = cut_size p more in
    let (size, flags, whole, inside) = segment_fields c q stale few in
    let stays : has_flag tcp_flag_fin (frame_flags (over f stale)) ≡ false = rw flags refl in
    let (answer, after) =
      recv-steps other d max_len stale r f e (length q) up' is' got (omega (arith, whole)) stays
        size some_bytes (omega (arith, few, room)) (omega (arith, few)) in
    let (ret, next, card) = tcp_send-up dev c p s k up is sent in
    (ret, next, card, answer ∙ ap some inside, after)

-- The number of bytes is taken from the header, not from the frame. When an established connection on a
-- card that works receives a frame of at least 40 bytes, so that both headers are whole, without the
-- FIN flag, whose header says 40 + n bytes, fewer than 65536 and more than the frame has, and n fits the
-- room given, then `tcp_recv` returns n bytes, and those past the end of the frame are the ones that
-- stood on the stack behind it.
pub tcp_recv-overread :
    {D : Type 0} (dev : Netdev D) (c : TcpConn) (max_len : ℕ) (stale : ℕ → ℕ) (s : Tcp D)
    (bytes : List ℕ) (k : D) (n : ℕ)
    → c.state ≡ tcp_established
    → IsUp dev s.network
    → dev.recv 1500 s.network.card ≡ (bytes, k)
    → 40 ≤ length bytes
    → length bytes < 40 + n
    → has_flag tcp_flag_fin (frame_flags (over bytes stale)) ≡ false
    → hton16 (total_len (over bytes stale)) ≡ 40 + n
    → n ≤ max_len
    → 40 + n < 65536
    → (r : List ℕ) × ((tcp_recv dev c max_len stale s).0 ≡ some r)
      × (length r ≡ n)
      × ((i : ℕ) → length bytes ≤ 40 + i → i < n → get_or r i 0 ≡ stale (40 + i))
tcp_recv-overread dev c max_len stale s bytes k n up is got whole over_read stays claimed fits
      small =
    let (answer, _) =
      recv-steps dev c max_len stale s bytes k n up is got (omega (arith, whole)) stays claimed
        (omega (arith, whole, over_read)) fits small in
    (
      slice n 40 (over bytes stale),
      answer,
      length-slice n 40 (over bytes stale),
      λ i out below.
          get_or-slice n 40 (over bytes stale) i below
          ∙ get_or-outside bytes (40 + i) (stale (40 + i)) out,
    )
