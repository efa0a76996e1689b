-- ===== src/Faye/Handshake/Connected.antt =====
-- The state of a client that `HandshakeAndConnect` has connected.
use matrix_groupme_bridge.Prelude.{
  ℕ, ◌≡◌, String, Option, none, some, Ends, Ends-mono, Ends-continue,
}
use matrix_groupme_bridge.Faye.Transport.{Net}
use matrix_groupme_bridge.Faye.Client.{connected, Sys}
use matrix_groupme_bridge.Faye.Client.Stable.{Stable}
use matrix_groupme_bridge.Faye.Handshake.{after_handshake, handshake_and_connect, handshake}
use matrix_groupme_bridge.Faye.Handshake.Stable.{after_handshake-Keeps}
use matrix_groupme_bridge.Faye.Handshake.Success.{Success, handshake-Success}

module _ (net : Net) where
  abbrev pub IsOnline : Sys net → Type 0
  IsOnline u = u.client.state ≡ connected

  pub IsOnline-stable : Stable net IsOnline
  IsOnline-stable = record {
    counted = λ u msg h. h;
    elsewhere = λ u w h. h;
    advised = λ u a h. h;
    handed = λ u ms h. h;
    delivered = λ u c m h. h;
  }

  -- Where no error is returned the client is connected.
  abbrev pub Connected : Option String → Sys net → Type 0
  Connected none u = IsOnline u
  Connected (some e) u = Unit

  after_handshake-Connected :
      (e : Option String) (u : Sys net) → Success net e u → Ends Connected (after_handshake net e u)
  unfolding after_handshake
  after_handshake-Connected (some e) u h = tt
  after_handshake-Connected none u h =
      Ends-mono _ Connected _ only
        ((after_handshake-Keeps net IsOnline IsOnline-stable (λ s h. h) none).at u h.1.state)
    where
      only : (e : Option String) (v : Sys net) → IsOnline v → Connected e v
      only none v k = k
      only (some e) v k = tt

  pub handshake_and_connect-Connected :
      (fuel : ℕ) (s : Sys net) → Ends Connected (handshake_and_connect net fuel s)
  unfolding handshake_and_connect
  handshake_and_connect-Connected fuel s = Ends-continue Connected (handshake net fuel s) _ (
      Ends-mono (Success net) _ (handshake net fuel s) after_handshake-Connected
        (handshake-Success net fuel s))
