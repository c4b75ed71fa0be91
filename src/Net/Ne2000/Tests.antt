-- ===== src/Net/Ne2000/Tests.antt =====
-- Runs of net/ne2000.c on a card at port 768, and its theorems there.
use zythos.Base.{
  ℕ, zero, suc, ◌+◌, ◌*◌, ◌≤◌, ◌<◌, ◌≡◌, refl, ◌⊎◌, true, false, some, List, [], ◌∷◌, arith, ltb,
  ◌==◌, if◌then◌else◌, length,
}
use zythos.Ports.{Machine}
use zythos.Net.Tcp.{tcp_established, TcpConn, Tcp, tcp_recv}
use zythos.Net.Ne2000.{
  setup_writes, ne_outs, Ne2000, DeviceData, eth0, ne_cmd, ne_data, ne_rbcr0, ne_rbcr1, ne_tbcr0,
  ne_tbcr1, ne_isr, port_at, ne2000_probe, ne2000_send, ne2000_netdev,
}
use zythos.Net.Ne2000.Wait.{prom_address, polled, is_ready, after_reset, ne2000_probe_lem}
use zythos.Net.Ne2000.Send.{Gets, bytes_of, ne2000_send_lem}
use zythos.Net.Ne2000.Receive.{tcp_recv-ne2000}

-- The card is reset once its status has been read.
abbrev card : Machine
card = λ port io. if port == 775 then (if ltb 2 (length io) then 0xC0 else 0) else 0x52

abbrev idle : Ne2000 (List DeviceData)
idle = record {
  g_io_base = 768;
  g_mac = [];
  g_dev = record { name = []; mac = [] };
  registry = [];
  io = [];
}

abbrev keep : DeviceData → List DeviceData → List DeviceData
keep dev devs = dev ∷ devs

not_at_once :
    (i : ℕ)
    → i < 1
    → is_ready card
        (port_at 768 ne_isr)
        0x80
        (polled (port_at 768 ne_isr) i (after_reset card 768 []))
      ≡ false
not_at_once zero lt = refl
not_at_once (suc i) lt = absurd (omega (arith, lt))

ne2000_probe_lem_example :
    let (found, after) = ne2000_probe card keep 768 idle in
    let ready = polled (port_at 768 ne_isr) 2 (after_reset card 768 []) in
    let address = prom_address card 768 (ne_outs 768 setup_writes ready) in
    (found ≡ ltb 1 10000)
    × (after.g_mac ≡ (if found then address else []))
    × (after.registry ≡ (if found then keep (record { name = eth0; mac = address }) [] else []))
ne2000_probe_lem_example = ne2000_probe_lem card keep 768 1 idle not_at_once refl

abbrev frame : List ℕ
frame = 1 ∷ 2 ∷ 3 ∷ []

ne2000_send_lem_example :
    let (ok, after) = ne2000_send card frame idle in
    ((ok ≡ true)
      × (length frame ≤ 1536)
      × Gets idle after ne_data (bytes_of frame)
      × Gets idle after ne_cmd (0x12 ∷ 0x26 ∷ [])
      × (low : ℕ) × (high : ℕ) × (low < 256)
      × (high < 256)
      × (low + 256 * high ≡ length frame)
      × Gets idle after ne_rbcr0 (low ∷ [])
      × Gets idle after ne_rbcr1 (high ∷ [])
      × Gets idle after ne_tbcr0 (low ∷ [])
      × Gets idle after ne_tbcr1 (high ∷ []))
    ⊎ ((ok ≡ false) × (1536 < length frame) × (after ≡ idle))
ne2000_send_lem_example = ne2000_send_lem card frame idle (omega arith)

abbrev connected : TcpConn
connected = record {
  state = tcp_established;
  remote_ip = record { b0 = 10; b1 = 0; b2 = 0; b3 = 2 };
  remote_port = 80;
  local_port = 40000;
  seq = 1;
  ack = 0;
}

abbrev network : Tcp (Ne2000 (List DeviceData))
network = record {
  g_next_local_port = 40001;
  network = record {
    g_dev = true;
    g_initialized = true;
    g_ip = record { b0 = 10; b1 = 0; b2 = 0; b3 = 1 };
    g_frames_sent = 0;
    g_frames_received = 0;
    card = idle;
  };
}

tcp_recv-ne2000_example :
    let (bytes, d, after) = tcp_recv (ne2000_netdev card [] frame) connected 64 (λ a. 0) network in
    (bytes ≡ some []) × (d ≡ connected)
tcp_recv-ne2000_example = tcp_recv-ne2000 card [] frame connected 64 (λ a. 0) network
