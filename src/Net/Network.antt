-- ===== src/Net/Network.antt =====
-- net/network.c above a card, which is a parameter. The printed lines are left out.
pub mod Up
use zythos.Base.{
  ℕ, Bool, true, false, not, ◌||◌, Option, none, some, List, [], ltb, if◌then◌else◌, add32, length,
  take,
}

-- The functions of `netdev_t`, on a state of the card. `send` gives `true` for 0, and `recv` gives no
-- bytes for a result of at most 0.
pub record Netdev (D : Type 0) : Type 0 where
  pub mac : List ℕ
  pub has_send : Bool
  pub has_recv : Bool
  pub send : List ℕ → D → Bool × D
  pub recv : ℕ → D → List ℕ × D

pub record Ipv4Address : Type 0 where
  pub b0 : ℕ
  pub b1 : ℕ
  pub b2 : ℕ
  pub b3 : ℕ

-- The variables of the file, and the card. `g_dev` is whether there is a device.
pub record Network (D : Type 0) : Type 0 where
  pub g_dev : Bool
  pub g_initialized : Bool
  pub g_ip : Ipv4Address
  pub g_frames_sent : ℕ
  pub g_frames_received : ℕ
  pub card : D

-- `found` is whether `netdev_get_default` gives a device.
pub network_init : {D : Type 0} → Bool → Network D → Bool × Network D
network_init found s =
    if s.g_initialized
    then (true, s)
    else if not found
    then (false, record s { g_dev = false })
    else (true, record s { g_dev = true; g_initialized = true })

module _ {D : Type 0} (dev : Netdev D) where
  -- `mac` is not null.
  pub network_get_mac_address : Network D → Option (List ℕ)
  network_get_mac_address s = if not s.g_initialized then none else some (take 6 dev.mac)

  pub network_send_frame : List ℕ → Network D → Bool × Network D
  network_send_frame bytes s =
      let (ret, d) = dev.send bytes s.card in
      if not s.g_initialized || not s.g_dev || not dev.has_send
      then (false, s)
      else if ret
      then (true, record s { card = d; g_frames_sent = add32 s.g_frames_sent 1 })
      else (false, record s { card = d })

  -- A result of at most 0 is `[]`.
  pub network_receive_frame : ℕ → Network D → List ℕ × Network D
  network_receive_frame max_len s =
      let (bytes, d) = dev.recv max_len s.card in
      if not s.g_initialized || not s.g_dev || not dev.has_recv
      then ([], s)
      else if ltb 0 (length bytes)
      then (bytes, record s { card = d; g_frames_received = add32 s.g_frames_received 1 })
      else ([], record s { card = d })

pub network_get_ipv4_address : {D : Type 0} → Network D → Ipv4Address
network_get_ipv4_address s = s.g_ip

pub network_set_ipv4_address : {D : Type 0} → Ipv4Address → Network D → Network D
network_set_ipv4_address ip s = record s { g_ip = ip }

pub network_on_frame_received : {D : Type 0} → Network D → Network D
network_on_frame_received s = record s { g_frames_received = add32 s.g_frames_received 1 }
