-- ===== src/Faye/Handshake/Stable.antt =====
-- What the first wait and the greetings of a handshake keep, and what follows a handshake.
use matrix_groupme_bridge.Prelude.{
  ℕ, zero, suc, ◌≡◌, refl, String, List, [], ◌∷◌, ◌++◌, Option, none, some, Outcome, done, panics,
  unfinished, Result, ok, err, Ends, Keeps, Keeps-bind, Keeps-pure, Keeps-if, Bool-cases,
  Option-cases, inl, inr, slt64, ◌==◌,
}
use matrix_groupme_bridge.Faye.Message.{Message}
use matrix_groupme_bridge.Faye.Transport.{Net, connection_type, websocket_type}
use matrix_groupme_bridge.Faye.Client.{Sys, unconnected, send, read_poll_task}
use matrix_groupme_bridge.Faye.Client.Stable.{Stable, send-Keeps, current_transport-Keeps}
use matrix_groupme_bridge.Faye.Connect.Stable.{connect-Keeps}
use matrix_groupme_bridge.Faye.Handshake.{
  sleep_for, handshake_message, wait_first, until_greeted, start_reading, after_connect,
  after_handshake,
}

module _ (net : Net) (P : Sys net → Type 0) (stable : Stable net P) where
  pub wait_first-Keeps : Keeps P (wait_first net)
  unfolding wait_first
  wait_first-Keeps = record {
    at = λ s h.
        let (now, w) = net.unix_now s.world in
        let (past, w') = net.unix_now w in
        elim (Bool-cases (slt64 now s.client.next_handshake)) [
          | inr go ↦ rw go (stable.elsewhere s w h)
          | inl wait ↦ rw wait (elim (Option-cases (sleep_for s.client.next_handshake now past)) [
            | inl e ↦ rw (e, wait_first) (stable.elsewhere s w' h)
            | inr (n, e) ↦ rw (e, wait_first) (stable.elsewhere s (net.sleep n w') h)
          ])
        ];
  }

  -- Where a failed greeting may make the client unconnected.
  module _
      (parted : (s : Sys net)
        → P s
        → P (record s { client = record s.client { state = unconnected } })) where
    pub until_greeted-Keeps : (fuel : ℕ) → Keeps P (until_greeted net fuel)
    unfolding until_greeted
    until_greeted-Keeps zero = record { at = λ s h. tt }
    until_greeted-Keeps (suc fuel) = record {
      at = λ s h.
          round s (send net (handshake_message s.client) s) refl
            ((send-Keeps net P stable (handshake_message s.client)).at s h)
            (until_greeted-Keeps fuel);
    }
      where
        round :
            (s : Sys net) (o : Outcome (Sys net) (Result (Message × List Message)))
            → send net (handshake_message s.client) s ≡ o
            → Ends (λ _ u. P u) o
            → Keeps P (until_greeted net fuel)
            → Ends (λ _ u. P u) (until_greeted net (suc fuel) s)
        round s (done (ok r) u) e h k = rw (e, until_greeted) h
        round s (done (err x) u) e h k =
            rw (e, until_greeted) (k.at _ (stable.elsewhere _ (net.sleep 10 u.world) (parted u h)))
        round s (panics p) e h k = rw (e, until_greeted) tt
        round s unfinished e h k = rw (e, until_greeted) tt

  -- Where the goroutine that reads may be started.
  module _
      (reading : (s : Sys net)
        → P s
        → P (record s { spawned = s.spawned ++ read_poll_task ∷ [] })) where
    start_reading-Keeps : Keeps P (start_reading net)
    unfolding start_reading
    start_reading-Keeps = Keeps-bind _ _ (current_transport-Keeps net P stable) λ t.
        Keeps-bind _ _
          (Keeps-if (connection_type t == websocket_type) _ _ (record { at = reading })
            (Keeps-pure tt))
          λ _. Keeps-pure none

    after_connect-Keeps : (e : Option String) → Keeps P (after_connect net e)
    unfolding after_connect
    after_connect-Keeps (some e) = Keeps-pure _
    after_connect-Keeps none = start_reading-Keeps

    pub after_handshake-Keeps : (e : Option String) → Keeps P (after_handshake net e)
    unfolding after_handshake
    after_handshake-Keeps (some e) = Keeps-pure _
    after_handshake-Keeps none = Keeps-bind _ _ (connect-Keeps net P stable) after_connect-Keeps
