-- ===== src/Faye/Connect/Advised.antt =====
-- What the server's advice does to the client.
use matrix_groupme_bridge.Prelude.{
  ◌≡◌, ◌≢◌, refl, String, done, eq_iff, add64, mul64, ltb, if◌then◌else◌, ◌==◌, ◌&&◌, false,
  Bool-cases, inl, inr, ◌⊎◌,
}
use matrix_groupme_bridge.Faye.Message.{Advice}
use matrix_groupme_bridge.Faye.Transport.{Net}
use matrix_groupme_bridge.Faye.Client.{State, unconnected, disconnected, Sys}
use matrix_groupme_bridge.Faye.Connect.{
  handle_advice, retry_advice, handshake_advice, none_advice, postpone, next_time,
}

-- The client's state after advice.
unfoldable pub advised_state : String → State → State
advised_state advice state =
    if advice == handshake_advice
    then unconnected
    else if advice == none_advice
    then disconnected
    else state

Text-cases : (s t : String) → (s ≡ t) ⊎ ((s == t) ≡ false)
Text-cases s t = elim (Bool-cases (s == t)) [ inl e ↦ inl ((eq_iff s t).0 e) | inr e ↦ inr e ]

equal_false : {s t : String} → s ≢ t → (s == t) ≡ false
equal_false {s} {t} h = elim (Text-cases s t) [ inl e ↦ absurd (h e) | inr e ↦ e ]

module _ (net : Net) (s : Sys net) where
  -- The client after advice other than `retry`.
  unfoldable pub advised : Advice → Sys net
  unfolding advised_state
  advised advice =
      let late = advice.reconnect == handshake_advice && ltb 0 advice.interval in
      record s {
        client = record s.client {
          state = advised_state advice.reconnect s.client.state;
          next_handshake =
              if late
              then add64 (net.unix_now s.world).0 (mul64 advice.interval 1000000)
              else s.client.next_handshake;
        };
        world = if late then (net.unix_now s.world).1 else s.world;
      }

  -- Advice other than `retry` always returns, and asks the server for nothing. It makes the client
  -- unconnected if it is `handshake`, disconnected if it is `none`, and else leaves its state; and the
  -- time to wait for changes only where it is `handshake` with an interval, to the clock's seconds plus
  -- a million for each millisecond of the interval, as an int64. Nothing else changes but for the
  -- reading of the clock.
  pub handle_advice_lem :
      (advice : Advice)
      → advice.reconnect ≢ retry_advice
      → handle_advice net advice s ≡ done tt (advised advice)
  unfolding handle_advice advised advised_state postpone next_time
  handle_advice_lem advice h = elim (Text-cases advice.reconnect "") [
    | inl e ↦ rw (e, advised) refl
    | inr a ↦ elim (Text-cases advice.reconnect handshake_advice) [
      | inl e ↦ elim (Bool-cases (ltb 0 advice.interval)) [
        | inl l ↦ rw (e, l, advised) refl
        | inr l ↦ rw (e, l, advised) refl
      ]
      | inr b ↦ elim (Text-cases advice.reconnect none_advice) [
        | inl e ↦ rw (e, advised) refl
        | inr d ↦ rw (a, b, d, equal_false h, advised) refl
      ]
    ]
  ]
