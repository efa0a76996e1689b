-- ===== src/Faye/Handshake/Refused.antt =====
-- A client that the server has told not to reconnect.
use matrix_groupme_bridge.Prelude.{ℕ, ◌≡◌, some, done, refl}
use matrix_groupme_bridge.Faye.Transport.{Net}
use matrix_groupme_bridge.Faye.Client.{disconnected, Sys, stack_error}
use matrix_groupme_bridge.Faye.Handshake.{
  handshake, handshake_and_connect, after_handshake, is_disconnected,
}

-- A disconnected client refuses to handshake: the call returns the error, sends nothing and changes
-- nothing.
pub handshake_and_connect_disconnected :
    (net : Net) (fuel : ℕ) (s : Sys net)
    → s.client.state ≡ disconnected
    → handshake_and_connect net fuel s
      ≡ done (some (stack_error "handshake" "GTFO: Server told us not to reconnect :(")) s
unfolding handshake_and_connect handshake after_handshake is_disconnected
handshake_and_connect_disconnected net fuel s e = rw (handshake_and_connect, handshake, e) refl
