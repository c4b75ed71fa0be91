-- ===== src/Net/Tcp/States.antt =====
-- The states of net/tcp.c.
use zythos.Base.{
  ℕ, ◌+◌, ◌%◌, ◌≤◌, ◌≡◌, refl, sym, ap, Bool, true, not, ◌&&◌, ◌||◌, Option, List, [], ◌∷◌, arith,
  ltb, ◌==◌, if◌then◌else◌, length, take,
}
use mathlib.Core.Path.{subst}
use zythos.Base.{if_either}
use zythos.Net.Network.{Netdev, Ipv4Address, network_send_frame, network_receive_frame}
use zythos.Net.Tcp.{
  TcpState, tcp_closed, tcp_syn_sent, tcp_established, tcp_fin_wait, tcp_closing, is_established,
  is_syn_sent, total_len, hton16, TcpConn, Tcp, build_tcp_segment, tcp_flag_syn, tcp_flag_ack,
  tcp_flag_fin, frame_flags, has_flag, over, tcp_connect, tcp_send, tcp_on_frame, tcp_recv,
  tcp_close,
}

-- The calls on a connection.
pub data Call : Type 0 where
  connects : Ipv4Address → ℕ → Call
  sends : List ℕ → Call
  handles : (ℕ → ℕ) → ℕ → Call
  receives : ℕ → (ℕ → ℕ) → Call
  closes : Call

-- A frame that answers: it has its headers, and SYN or ACK is set.
pub record Answers (frame : ℕ → ℕ) (len : ℕ) : Type 0 where
  pub whole : 40 ≤ len
  pub flagged :
      has_flag tcp_flag_syn (frame_flags frame) || has_flag tcp_flag_ack (frame_flags frame) ≡ true

-- The steps of the calls between the states.
pub data Edge (o : Call) : TcpState → TcpState → Type 0 where
  stays : {s : TcpState} → Edge o s s
  starts :
      {s : TcpState} (ip : Ipv4Address) (port : ℕ) → o ≡ connects ip port → Edge o s tcp_syn_sent
  opens :
      (frame : ℕ → ℕ) (len : ℕ)
      → o ≡ handles frame len
      → Answers frame len
      → Edge o tcp_syn_sent tcp_established
  finishes : {s : TcpState} → Edge o s tcp_closing
  ends : {s : TcpState} → Edge o s tcp_closed

syn_sent_is : (s : TcpState) → is_syn_sent s ≡ true → s ≡ tcp_syn_sent
syn_sent_is tcp_syn_sent e = refl
syn_sent_is tcp_closed e = absurd (cc e)
syn_sent_is tcp_established e = absurd (cc e)
syn_sent_is tcp_fin_wait e = absurd (cc e)
syn_sent_is tcp_closing e = absurd (cc e)

established_is : (s : TcpState) → is_established s ≡ true → s ≡ tcp_established
established_is tcp_established e = refl
established_is tcp_closed e = absurd (cc e)
established_is tcp_syn_sent e = absurd (cc e)
established_is tcp_fin_wait e = absurd (cc e)
established_is tcp_closing e = absurd (cc e)

module _ {D : Type 0} (dev : Netdev D) where
  abbrev pub call : Call → TcpConn → Tcp D → TcpConn × Tcp D
  call (connects ip port) c s = let (_, d, t) = tcp_connect dev c ip port s in (d, t)
  call (sends payload) c s = let (_, d, t) = tcp_send dev c payload s in (d, t)
  call (handles frame len) c s = tcp_on_frame dev c frame len s
  call (receives max_len stale) c s = let (_, d, t) = tcp_recv dev c max_len stale s in (d, t)
  call closes c s = tcp_close dev c s

  abbrev To : Call → TcpState → TcpConn × Tcp D → Type 0
  To o s (d, t) = Edge o s d.state

  abbrev With {ℓ} : {R : Type ℓ} → Call → TcpState → R × TcpConn × Tcp D → Type 0
  With o s (r, d, t) = Edge o s d.state

  frame-Edge :
      (o : Call) (c : TcpConn) (frame : ℕ → ℕ) (len : ℕ) (s : Tcp D)
      → ((c.state ≡ tcp_syn_sent) → Answers frame len → Edge o c.state tcp_established)
      → Edge o c.state (tcp_on_frame dev c frame len s).0.state
  unfolding tcp_on_frame
  frame-Edge o c frame len s opening =
      if_either (To o c.state) (ltb len 40) (λ _. stays)
        (λ whole.
          if_either (To o c.state)
            (is_syn_sent c.state
              && (has_flag tcp_flag_syn (frame_flags frame)
                  || has_flag tcp_flag_ack (frame_flags frame)))
            (λ e.
              opening (syn_sent_is c.state (ground (arith, e)))
                (record { whole = ground (arith, whole); flagged = ground (arith, e) }))
            (λ _.
              if_either (To o c.state) (has_flag tcp_flag_fin (frame_flags frame)) (λ _. finishes)
                (λ _. stays)))

  pub call-Edge : (o : Call) (c : TcpConn) (s : Tcp D) → Edge o c.state (call o c s).0.state
  unfolding tcp_connect tcp_send tcp_recv tcp_close
  call-Edge (connects ip port) c s =
      let opened : TcpConn = record {
        state = tcp_syn_sent;
        remote_ip = ip;
        remote_port = port;
        local_port = s.g_next_local_port;
        seq = 1;
        ack = 0;
      } in
      if_either (With {R = Bool} (connects ip port) c.state)
        (network_send_frame dev (build_tcp_segment opened tcp_flag_syn []) s.network).0
        (λ _. starts ip port refl) (λ _. ends)
  call-Edge (sends payload) c s =
      let sent = if ltb 1024 (length payload) then take 1024 payload else payload in
      if_either (With {R = Bool} (sends payload) c.state) (not (is_established c.state))
        (λ _. stays)
        (λ _.
          if_either (With {R = Bool} (sends payload) c.state)
            (network_send_frame dev (build_tcp_segment c 24 sent) s.network).0 (λ _. stays)
            (λ _. stays))
  call-Edge (handles frame len) c s = frame-Edge (handles frame len) c frame len s (λ e is.
      subst (λ t. Edge (handles frame len) t tcp_established) (sym e) (opens frame len refl is))
  call-Edge (receives max_len stale) c s =
      let o = receives max_len stale in
      let (bytes, network) = network_receive_frame dev 1500 s.network in
      let frame = over bytes stale in
      let payload_len = (hton16 (total_len frame) + 65496) % 65536 in
      if_either (With {R = Option (List ℕ)} o c.state) (not (is_established c.state)) (λ _. stays)
        (λ e.
          let handled =
            frame-Edge o c frame (length bytes) (record s { network = network })
              (λ waiting. absurd (ground (arith, ap is_established waiting, e))) in
          if_either (With {R = Option (List ℕ)} o c.state) (length bytes == 0) (λ _. stays)
            (λ _.
              if_either (With {R = Option (List ℕ)} o c.state)
                ((payload_len == 0) || ltb max_len payload_len) (λ _. handled) (λ _. handled)))
  call-Edge closes c s =
      if_either (To closes c.state) (not (is_established c.state)) (λ _. ends) (λ _. ends)

  -- The connection after some calls, the last one first.
  abbrev pub calls : List Call → TcpConn → Tcp D → TcpConn × Tcp D
  calls [] c s = (c, s)
  calls (o ∷ past) c s = let (d, t) = calls past c s in call o d t
