-- ===== src/Net/Tcp/Calls.antt =====
-- What the state of a connection of net/tcp.c says of the calls before.
use zythos.Base.{
  ℕ, ◌≤◌, ◌≡◌, refl, sym, ◌≢◌, ◌⊎◌, inl, inr, true, false, List, [], ◌∷◌, arith, ltb, add32,
}
use mathlib.Core.Path.{subst}
use zythos.Net.Network.{Netdev, Ipv4Address}
use zythos.Net.Network.Up.{IsUp, send_frame-up}
use zythos.Net.Tcp.{
  TcpState, tcp_closed, tcp_syn_sent, tcp_established, tcp_fin_wait, is_syn_sent, TcpConn, Tcp,
  build_tcp_segment, tcp_flag_syn, frame_flags, frame_seq, tcp_connect, tcp_on_frame,
}
use zythos.Net.Tcp.States.{
  Call, connects, sends, handles, receives, closes, Answers, Edge, stays, starts, opens, finishes,
  ends, call-Edge, calls,
}

-- The calls have a `tcp_connect`, the last one first.
abbrev pub Started : List Call → Type 0
Started [] = ⊥
Started (connects ip port ∷ past) = Unit
Started (o ∷ past) = Started past

-- The calls have a `tcp_connect` and after it a frame that answers, the last one first.
abbrev pub Opened : List Call → Type 0
Opened [] = ⊥
Opened (handles frame len ∷ past) = (Answers frame len × Started past) ⊎ Opened past
Opened (o ∷ past) = Opened past

later-Started : (o : Call) (past : List Call) → Started past → Started (o ∷ past)
later-Started (connects ip port) past is = tt
later-Started (sends payload) past is = is
later-Started (handles frame len) past is = is
later-Started (receives max_len stale) past is = is
later-Started closes past is = is

later-Opened : (o : Call) (past : List Call) → Opened past → Opened (o ∷ past)
later-Opened (connects ip port) past is = is
later-Opened (sends payload) past is = is
later-Opened (handles frame len) past is = inr is
later-Opened (receives max_len stale) past is = is
later-Opened closes past is = is

-- What the state says of the calls.
record Explained (past : List Call) (t : TcpState) : Type 0 where
  syn_sent : t ≡ tcp_syn_sent → Started past
  established : t ≡ tcp_established → Opened past
  fin_wait : t ≢ tcp_fin_wait

Edge-Explained :
    (o : Call) (past : List Call) {a b : TcpState}
    → Edge o a b
    → Explained past a
    → Explained (o ∷ past) b
Edge-Explained o past stays is = record {
  syn_sent = λ e. later-Started o past (is.syn_sent e);
  established = λ e. later-Opened o past (is.established e);
  fin_wait = is.fin_wait;
}
Edge-Explained o past (starts ip port e) is = record {
  syn_sent = λ _. subst (λ c. Started (c ∷ past)) (sym e) tt;
  established = λ x. absurd (cc x);
  fin_wait = λ x. absurd (cc x);
}
Edge-Explained o past (opens frame len e answers) is = record {
  syn_sent = λ x. absurd (cc x);
  established = λ _. subst (λ c. Opened (c ∷ past)) (sym e) (inl (answers, is.syn_sent refl));
  fin_wait = λ x. absurd (cc x);
}
Edge-Explained o past finishes is = record {
  syn_sent = λ x. absurd (cc x);
  established = λ x. absurd (cc x);
  fin_wait = λ x. absurd (cc x);
}
Edge-Explained o past ends is = record {
  syn_sent = λ x. absurd (cc x);
  established = λ x. absurd (cc x);
  fin_wait = λ x. absurd (cc x);
}

calls-Explained :
    {D : Type 0} (dev : Netdev D) (os : List Call) (c : TcpConn) (s : Tcp D)
    → c.state ≡ tcp_closed
    → Explained os (calls dev os c s).0.state
calls-Explained dev [] c s start = record {
  syn_sent = λ x. absurd (cc (start, x));
  established = λ x. absurd (cc (start, x));
  fin_wait = λ x. absurd (cc (start, x));
}
calls-Explained dev (o ∷ past) c s start =
    let before = calls dev past c s in
    Edge-Explained o past (call-Edge dev o before.0 before.1) (calls-Explained dev past c s start)

-- From a closed connection on, in whatever order the functions are called and whatever the card does:
-- a connection is in the state TCP_ESTABLISHED only after a `tcp_connect` and, later, a frame with whole
-- headers and the flag SYN or ACK that `tcp_on_frame` was given; it is in the state TCP_SYN_SENT only
-- after a `tcp_connect`; and it is never in the state TCP_FIN_WAIT.
pub calls_lem :
    {D : Type 0} (dev : Netdev D) (os : List Call) (c : TcpConn) (s : Tcp D)
    → c.state ≡ tcp_closed
    → let t = (calls dev os c s).0.state in
      (t ≡ tcp_established → Opened os) × (t ≡ tcp_syn_sent → Started os) × (t ≢ tcp_fin_wait)
calls_lem dev os c s start =
    let is = calls-Explained dev os c s start in (is.established, is.syn_sent, is.fin_wait)

connect-sent :
    {D : Type 0} (dev : Netdev D) (c : TcpConn) (ip : Ipv4Address) (port : ℕ) (s : Tcp D) (k : D)
    → IsUp dev s.network
    → let opened : TcpConn = record {
      state = tcp_syn_sent;
      remote_ip = ip;
      remote_port = port;
      local_port = s.g_next_local_port;
      seq = 1;
      ack = 0;
    } in
      dev.send (build_tcp_segment opened tcp_flag_syn []) s.network.card ≡ (true, k)
      → (after : Tcp D) × (tcp_connect dev c ip port s ≡ (true, opened, after))
unfolding tcp_connect
connect-sent dev c ip port s k is sent =
    let opened : TcpConn = record {
      state = tcp_syn_sent;
      remote_ip = ip;
      remote_port = port;
      local_port = s.g_next_local_port;
      seq = 1;
      ack = 0;
    } in
    let run = send_frame-up dev (build_tcp_segment opened tcp_flag_syn []) s.network k is sent in
    ((tcp_connect dev c ip port s).2, rw (tcp_connect, run) refl)

frame-answers :
    {D : Type 0} (dev : Netdev D) (c : TcpConn) (frame : ℕ → ℕ) (len : ℕ) (s : Tcp D)
    → is_syn_sent c.state ≡ true
    → 40 ≤ len
    → frame_flags frame ≡ 0x14
    → (tcp_on_frame dev c frame len s).0
      ≡ record c { state = tcp_established; seq = add32 c.seq 1; ack = add32 (frame_seq frame) 1 }
unfolding tcp_on_frame
frame-answers dev c frame len s waiting whole flags =
    let long : ltb len 40 ≡ false = ground (arith, whole) in
    rw (tcp_on_frame, long, waiting, flags) refl

-- A connection that is refused is taken for one that is open: if the card sends the frame of
-- `tcp_connect`, and the answer is a whole frame whose flags are RST and ACK, then the connection is
-- established, whoever the frame is from.
pub tcp_connect-refused :
    {D : Type 0} (dev : Netdev D) (c : TcpConn) (ip : Ipv4Address) (port : ℕ) (s : Tcp D) (k : D)
    (frame : ℕ → ℕ) (len : ℕ)
    → IsUp dev s.network
    → let opened : TcpConn = record {
      state = tcp_syn_sent;
      remote_ip = ip;
      remote_port = port;
      local_port = s.g_next_local_port;
      seq = 1;
      ack = 0;
    } in
      dev.send (build_tcp_segment opened tcp_flag_syn []) s.network.card ≡ (true, k)
      → 40 ≤ len
      → frame_flags frame ≡ 0x14
      → let (ret, d, t) = tcp_connect dev c ip port s in
        (ret ≡ true)
        × ((tcp_on_frame dev d frame len t).0
            ≡ record opened { state = tcp_established; seq = 2; ack = add32 (frame_seq frame) 1 })
unfolding tcp_connect tcp_on_frame
tcp_connect-refused dev c ip port s k frame len is sent whole flags =
    let (after, run) = connect-sent dev c ip port s k is sent in
    rw run (refl, frame-answers dev _ frame len after refl whole flags)
