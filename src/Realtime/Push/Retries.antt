-- ===== src/Realtime/Push/Retries.antt =====
-- What becomes of the connection when the server has told the client not to reconnect.
use matrix_groupme_bridge.Prelude.{ℕ, zero, suc, ◌≡◌, refl, false, done}
use matrix_groupme_bridge.Faye.Transport.{Net}
use matrix_groupme_bridge.Faye.Client.{disconnected, Sys, is_connected}
use matrix_groupme_bridge.Faye.Handshake.Refused.{handshake_and_connect_disconnected}
use matrix_groupme_bridge.Realtime.Push.{
  reconnect, stay_connected, pause_if, pause, rounds, stay_connected_loop,
}

module _ (net : Net) where
  -- The world after so many waits of five seconds.
  unfoldable pub after_waits : ℕ → net.World → net.World
  after_waits zero w = w
  after_waits (suc n) w = after_waits n (net.sleep 5 w)

  reconnect_disconnected :
      (fuel tries : ℕ) (s : Sys net)
      → s.client.state ≡ disconnected
      → reconnect net fuel tries s ≡ done false (record s { world = after_waits tries s.world })
  unfolding reconnect after_waits
  reconnect_disconnected fuel zero s h = refl
  reconnect_disconnected fuel (suc tries) s h =
      rw (handshake_and_connect_disconnected net fuel s h, reconnect)
        (reconnect_disconnected fuel tries (record s { world = net.sleep 5 s.world }) h)

  lost : (s : Sys net) → s.client.state ≡ disconnected → is_connected s.client ≡ false
  unfolding is_connected
  lost s h = rw (is_connected, h) refl

  gives_up :
      (fuel : ℕ) (s : Sys net)
      → s.client.state ≡ disconnected
      → stay_connected net fuel s ≡ done false (record s { world = after_waits 3 s.world })
  unfolding stay_connected pause_if
  gives_up fuel s h = rw (stay_connected, lost s h) (rw (reconnect_disconnected fuel 3 s h) refl)

  -- For a client that the server has disconnected the loop that keeps the connection waits five seconds,
  -- tries three times with five seconds after each, changes nothing but the time, and ends, in its first
  -- round.
  pub stay_connected_loop_disconnected :
      (fuel n : ℕ) (s : Sys net)
      → s.client.state ≡ disconnected
      → stay_connected_loop net fuel (suc n) s
        ≡ done tt (record s { world = after_waits 4 s.world })
  unfolding stay_connected_loop rounds pause after_waits
  stay_connected_loop_disconnected fuel n s h =
      rw (stay_connected_loop, rounds, gives_up fuel (pause net s) h) refl
