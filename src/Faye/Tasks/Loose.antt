-- ===== src/Faye/Tasks/Loose.antt =====
-- What every goroutine keeps that the client starts: a predicate on the transports, and on a state that
-- may be left for `unconnected` or `disconnected`.
use matrix_groupme_bridge.Prelude.{
  ℕ, ◌≡◌, String, List, [], ◌∷◌, ◌++◌, Option, none, some, Result, ok, err, Keeps, Keeps-bind,
  Keeps-pure, Keeps-if, Bool-cases, inl, inr, ◌==◌, ltb, length, get_elem?,
}
use matrix_groupme_bridge.Faye.Message.{Message, Advice}
use matrix_groupme_bridge.Faye.Transport.{Net, transport_read, close}
use matrix_groupme_bridge.Faye.Client.{
  unconnected, disconnected, Task, handle_advice_task, handle_messages_task, read_poll_task,
  ping_poll_task, ping_loop_task, resubscribe_task, deliver_task, Sys, Subscription, is_connected,
  spawn, update_client,
}
use matrix_groupme_bridge.Faye.Client.Stable.{
  Stable, current_transport-Keeps, on_world-Keeps, decode_response-Keeps, send_only-Keeps,
}
use matrix_groupme_bridge.Faye.Connect.{
  handle_advice, postpone, retry_advice, handshake_advice, none_advice,
}
use matrix_groupme_bridge.Faye.Connect.Stable.{connect-Keeps, handle_messages-Keeps}
use matrix_groupme_bridge.Faye.Subscribe.{append_subscription, resubscribe, wait_subscribe}
use matrix_groupme_bridge.Faye.Subscribe.Stable.{until_subscribed-Keeps, subscription_at-Keeps}
use matrix_groupme_bridge.Faye.Polling.{
  read_reply, read_body, websocket_read, read_again, websocket_read_poll, websocket_ping, stop_ping,
  ping_again, ping_loop, websocket_ping_poll,
}
use matrix_groupme_bridge.Faye.Tasks.{run_task}

pub record Loose (net : Net) (P : Sys net → Type 0) : Type 0 where
  pub stable : Stable net P
  pub respawned : (s : Sys net) (ts : List Task) → P s → P (record s { spawned = ts })
  pub restored : (s : Sys net) (subs : List Subscription) → P s → P (record s { subs = subs })
  pub relisted :
      (s : Sys net) (is : List ℕ)
      → P s
      → P (record s { client = record s.client { subscriptions = is } })
  pub delayed :
      (s : Sys net) (n : ℕ) → P s → P (record s { client = record s.client { next_handshake = n } })
  pub parted :
      (s : Sys net) → P s → P (record s { client = record s.client { state = unconnected } })
  pub dismissed :
      (s : Sys net) → P s → P (record s { client = record s.client { state = disconnected } })

module _ (net : Net) (P : Sys net → Type 0) (loose : Loose net P) where
  postpone-Keeps : (interval : ℕ) → Keeps P (postpone net interval)
  unfolding postpone
  postpone-Keeps interval = record { at = λ s h. loose.stable.elsewhere _ _ (loose.delayed s _ h) }

  parted-Keeps : Keeps P (update_client net (λ c. record c { state = unconnected }))
  parted-Keeps = record { at = loose.parted }

  dismissed-Keeps : Keeps P (update_client net (λ c. record c { state = disconnected }))
  dismissed-Keeps = record { at = loose.dismissed }

  handle_advice-Keeps : (advice : Advice) → Keeps P (handle_advice net advice)
  unfolding handle_advice
  handle_advice-Keeps advice = Keeps-if (advice.reconnect == "") _ _ (Keeps-pure tt) (
      Keeps-if (advice.reconnect == retry_advice) _ _
        (Keeps-bind _ _ (connect-Keeps net P loose.stable) (λ _. Keeps-pure tt))
        (Keeps-if (advice.reconnect == handshake_advice) _ _
          (Keeps-bind _ _ parted-Keeps (λ _.
            Keeps-if (ltb 0 advice.interval) _ _ (postpone-Keeps advice.interval) (Keeps-pure tt)))
          (Keeps-if (advice.reconnect == none_advice) _ _ dismissed-Keeps (Keeps-pure tt))))

  read_reply-Keeps : (r : Result (Message × List Message)) → Keeps P (read_reply net r)
  unfolding read_reply
  read_reply-Keeps (err e) = Keeps-pure _
  read_reply-Keeps (ok (response, ms)) =
      Keeps-bind (spawn net (handle_advice_task response.advice)) _
        (record { at = λ s h. loose.respawned s _ h })
        λ _. Keeps-bind _ _ (handle_messages-Keeps net P loose.stable ms) λ _. Keeps-pure none

  read_body-Keeps : (r : Result String) → Keeps P (read_body net r)
  unfolding read_body
  read_body-Keeps (err e) = Keeps-pure _
  read_body-Keeps (ok body) =
      Keeps-bind _ _ (decode_response-Keeps net P loose.stable _) read_reply-Keeps

  websocket_read-Keeps : Keeps P (websocket_read net)
  unfolding websocket_read
  websocket_read-Keeps =
      Keeps-bind _ _ (current_transport-Keeps net P loose.stable) λ t.
        Keeps-bind _ _ (on_world-Keeps net P loose.stable (transport_read net t)) read_body-Keeps

  read_again-Keeps : (e : Option String) → Keeps P (read_again net e)
  unfolding read_again
  read_again-Keeps none = record { at = λ s h. loose.respawned s _ h }
  read_again-Keeps (some e) = Keeps-bind _ _ (current_transport-Keeps net P loose.stable) λ t.
      Keeps-bind _ _ (on_world-Keeps net P loose.stable (close net t))
        λ _. record { at = λ s h. loose.parted _ (loose.restored s _ h) }

  websocket_read_poll-Keeps : Keeps P (websocket_read_poll net)
  unfolding websocket_read_poll
  websocket_read_poll-Keeps = Keeps-bind _ _ websocket_read-Keeps read_again-Keeps

  stop_ping-Keeps : (i : ℕ) → Keeps P (stop_ping net i)
  unfolding stop_ping
  stop_ping-Keeps i = record { at = λ s h. loose.restored s _ h }

  ping_again-Keeps : (i : ℕ) (e : Option String) → Keeps P (ping_again net i e)
  unfolding ping_again
  ping_again-Keeps i (some e) = stop_ping-Keeps i
  ping_again-Keeps i none = record {
    at = λ s h. loose.stable.elsewhere _ _ (loose.respawned s _ h);
  }

  ping_sent-Keeps : (channel : String) → Keeps P (websocket_ping net channel)
  unfolding websocket_ping
  ping_sent-Keeps channel = record {
    at = λ s h. (Keeps-bind _ _ (send_only-Keeps net P loose.stable _) (λ e. Keeps-pure _)).at s h;
  }

  pinged :
      (i : ℕ) (s : Sys net) (sub : Subscription)
      → get_elem? s.subs i ≡ some sub
      → P s
      → P (record s { spawned = s.spawned ++ ping_poll_task i ∷ [] })
  pinged i s sub e h = loose.respawned s _ h

  ping_loop-Keeps : (i : ℕ) → Keeps P (ping_loop net i)
  unfolding ping_loop
  ping_loop-Keeps i = record {
    at = λ s h. elim (Bool-cases (is_connected s.client)) [
      | inl on ↦ rw on (
          (Keeps-bind _ _ (subscription_at-Keeps net P loose.stable i (pinged i)) λ sub.
              Keeps-if _ _ _ (stop_ping-Keeps i)
                (Keeps-bind _ _ (ping_sent-Keeps sub.channel) (ping_again-Keeps i))).at
            s h)
      | inr off ↦ rw off ((stop_ping-Keeps i).at s h)
    ];
  }

  websocket_ping_poll-Keeps : (i : ℕ) → Keeps P (websocket_ping_poll net i)
  unfolding websocket_ping_poll
  websocket_ping_poll-Keeps i = record {
    at = λ s h. (ping_loop-Keeps i).at _ (loose.restored s _ h);
  }

  resubscribe-Keeps : (fuel i : ℕ) → Keeps P (resubscribe net fuel i)
  unfolding resubscribe append_subscription
  resubscribe-Keeps fuel i =
      Keeps-bind _ _ (until_subscribed-Keeps net P loose.stable i (pinged i) fuel)
        λ _. record { at = λ s h. loose.relisted s _ h }

  pub wait_subscribe-Keeps :
      (fuel : ℕ) (channel : String) (msg_chan : ℕ)
      → Keeps P (wait_subscribe net fuel channel msg_chan)
  unfolding wait_subscribe append_subscription
  wait_subscribe-Keeps fuel channel msg_chan = record {
    at = λ s h.
        (Keeps-bind _ _
            (until_subscribed-Keeps net P loose.stable (length s.subs) (pinged (length s.subs))
              fuel)
            (λ _. record { at = λ u k. loose.relisted u _ k })).at
          _ (loose.restored s _ h);
  }

  pub run_task-Keeps : (fuel : ℕ) (t : Task) → Keeps P (run_task net fuel t)
  unfolding run_task
  run_task-Keeps fuel (handle_advice_task advice) = handle_advice-Keeps advice
  run_task-Keeps fuel (handle_messages_task ms) = handle_messages-Keeps net P loose.stable ms
  run_task-Keeps fuel read_poll_task = websocket_read_poll-Keeps
  run_task-Keeps fuel (ping_poll_task i) = websocket_ping_poll-Keeps i
  run_task-Keeps fuel (ping_loop_task i) = ping_loop-Keeps i
  run_task-Keeps fuel (resubscribe_task i) = resubscribe-Keeps fuel i
  run_task-Keeps fuel (deliver_task c m) = Keeps-pure tt
