-- ===== src/Net/Network/Up.antt =====
-- net/network.c with a card that works.
use zythos.Base.{
  ◌||◌, not, if_either, [], false, ℕ, ◌<◌, ◌≡◌, refl, true, List, arith, ltb, add32, length,
}
use zythos.Net.Network.{network_init, Netdev, Network, network_send_frame, network_receive_frame}

-- The network layer is initialised, and its card can send and receive.
pub record IsUp {D : Type 0} (dev : Netdev D) (s : Network D) : Type 0 where
  pub initialized : s.g_initialized ≡ true
  pub found : s.g_dev ≡ true
  pub sends : dev.has_send ≡ true
  pub receives : dev.has_recv ≡ true

module _ {D : Type 0} (dev : Netdev D) where
  pub send_frame-up :
      (bytes : List ℕ) (s : Network D) (k : D)
      → IsUp dev s
      → dev.send bytes s.card ≡ (true, k)
      → network_send_frame dev bytes s
        ≡ (true, record s { card = k; g_frames_sent = add32 s.g_frames_sent 1 })
  unfolding network_send_frame
  send_frame-up bytes s k is sent = rw (is.initialized, is.found, is.sends, sent) refl

  pub receive_frame-up :
      (bytes : List ℕ) (s : Network D) (k : D)
      → IsUp dev s
      → 0 < length bytes
      → dev.recv 1500 s.card ≡ (bytes, k)
      → network_receive_frame dev 1500 s
        ≡ (bytes, record s { card = k; g_frames_received = add32 s.g_frames_received 1 })
  unfolding network_receive_frame
  receive_frame-up bytes s k is more got =
      let some_bytes : ltb 0 (length bytes) ≡ true = ground (arith, more) in
      rw (is.initialized, is.found, is.receives, got, some_bytes) refl

-- A device that is found and can send and receive is up after the first `network_init`.
network_init-IsUp :
    {D : Type 0} (dev : Netdev D) (s : Network D)
    → s.g_initialized ≡ false
    → dev.has_send ≡ true
    → dev.has_recv ≡ true
    → ((network_init true s).0 ≡ true) × IsUp dev (network_init true s).1
unfolding network_init
network_init-IsUp dev s first sends receives =
    rw (network_init, first)
      (refl, record { initialized = refl; found = refl; sends = sends; receives = receives })

-- What a card that never has a frame gives.
pub receive_frame-silent :
    {D : Type 0} (dev : Netdev D) (n : ℕ) (s : Network D)
    → (dev.recv n s.card).0 ≡ []
    → (network_receive_frame dev n s).0 ≡ []
unfolding network_receive_frame
receive_frame-silent {D} dev n s silent =
    if_either (λ (r : List ℕ × Network D). r.0 ≡ [])
      (not s.g_initialized || not s.g_dev || not dev.has_recv) (λ _. refl) λ _. rw silent refl
