-- ===== src/Faye/Tasks/Goroutines.antt =====
-- Every goroutine keeps the pointers valid.
use matrix_groupme_bridge.Prelude.{
  ℕ, ◌≡◌, String, List, [], ◌∷◌, ◌++◌, Option, none, some, true, false, All-append, arith, length,
  get_elem?, Result, ok, err, ◌>>=◌, Ends, Ends-mono, Ends-continue, Keeps, Keeps-bind, Keeps-pure,
  Keeps-if, modify, Bool-cases, inl, inr, ◌==◌, ltb, if◌then◌else◌,
}
use matrix_groupme_bridge.Faye.Message.{Message, Advice}
use matrix_groupme_bridge.Faye.Transport.{Net, transport_read, close}
use matrix_groupme_bridge.Faye.Client.{
  State, unconnected, disconnected, spawn, Task, handle_advice_task, handle_messages_task,
  read_poll_task, ping_poll_task, ping_loop_task, resubscribe_task, deliver_task, Sys, Subscription,
  is_connected, update_client,
}
use matrix_groupme_bridge.Faye.Client.Stable.{
  current_transport-Keeps, on_world-Keeps, decode_response-Keeps, send_only-Keeps,
}
use matrix_groupme_bridge.Faye.Connect.{
  handle_advice, postpone, retry_advice, handshake_advice, none_advice,
}
use matrix_groupme_bridge.Faye.Connect.Stable.{connect-Keeps, handle_messages-Keeps}
use matrix_groupme_bridge.Faye.Subscribe.{until_subscribed, append_subscription, resubscribe}
use matrix_groupme_bridge.Faye.Subscribe.Stable.{until_subscribed-Keeps, subscription_at-Keeps}
use matrix_groupme_bridge.Faye.Polling.{
  read_reply, read_body, websocket_read, read_again, websocket_read_poll, websocket_ping, stop_ping,
  ping_again, ping_loop, websocket_ping_poll, stop_all,
}
use matrix_groupme_bridge.Faye.Tasks.{run_task}
use matrix_groupme_bridge.Faye.Tasks.Pointers.{
  TaskIsValid, IsValid, IsValid-subs, IsValid-spawn, IsValid-stable, ValidAt, ValidAt-stable,
  length-set_polling, length-stop_all,
}

module _ (net : Net) where
  abbrev Valid : Sys net → Type 0
  Valid s = IsValid s

  set_state-IsValid :
      (state : State) → Keeps Valid (update_client net (λ c. record c { state = state }))
  set_state-IsValid state = record {
    at =
        λ s h. record { transport = h.transport; subscriptions = h.subscriptions; tasks = h.tasks };
  }

  postpone-IsValid : (interval : ℕ) → Keeps Valid (postpone net interval)
  unfolding postpone
  postpone-IsValid interval = record {
    at =
        λ s h. record { transport = h.transport; subscriptions = h.subscriptions; tasks = h.tasks };
  }

  handle_advice-IsValid : (advice : Advice) → Keeps Valid (handle_advice net advice)
  unfolding handle_advice
  handle_advice-IsValid advice = Keeps-if (advice.reconnect == "") _ _ (Keeps-pure tt) (
      Keeps-if (advice.reconnect == retry_advice) _ _
        (Keeps-bind _ _ (connect-Keeps net Valid (IsValid-stable net)) (λ _. Keeps-pure tt))
        (Keeps-if (advice.reconnect == handshake_advice) _ _
          (Keeps-bind _ _ (set_state-IsValid unconnected) (λ _.
            Keeps-if (ltb 0 advice.interval) _ _ (postpone-IsValid advice.interval)
              (Keeps-pure tt)))
          (Keeps-if (advice.reconnect == none_advice) _ _ (set_state-IsValid disconnected)
            (Keeps-pure tt))))

  advise-IsValid : (a : Advice) → Keeps Valid (spawn net (handle_advice_task a))
  advise-IsValid a = record { at = λ s h. IsValid-spawn h (handle_advice_task a) tt }

  read_reply-IsValid : (r : Result (Message × List Message)) → Keeps Valid (read_reply net r)
  unfolding read_reply
  read_reply-IsValid (err e) = Keeps-pure _
  read_reply-IsValid (ok (response, ms)) = Keeps-bind _ _ (advise-IsValid response.advice) λ _.
      Keeps-bind _ _ (handle_messages-Keeps net Valid (IsValid-stable net) ms) λ _. Keeps-pure none

  read_body-IsValid : (r : Result String) → Keeps Valid (read_body net r)
  unfolding read_body
  read_body-IsValid (err e) = Keeps-pure _
  read_body-IsValid (ok body) =
      Keeps-bind _ _ (decode_response-Keeps net Valid (IsValid-stable net) _) read_reply-IsValid

  websocket_read-IsValid : Keeps Valid (websocket_read net)
  unfolding websocket_read
  websocket_read-IsValid =
      Keeps-bind _ _ (current_transport-Keeps net Valid (IsValid-stable net)) λ t.
        Keeps-bind _ _ (on_world-Keeps net Valid (IsValid-stable net) (transport_read net t))
          read_body-IsValid

  read_again-IsValid : (e : Option String) → Keeps Valid (read_again net e)
  unfolding read_again
  read_again-IsValid none = record { at = λ s h. IsValid-spawn h read_poll_task tt }
  read_again-IsValid (some e) =
      Keeps-bind _ _ (current_transport-Keeps net Valid (IsValid-stable net)) λ t.
        Keeps-bind _ _ (on_world-Keeps net Valid (IsValid-stable net) (close net t)) λ _. stopped
    where
      stopped : Keeps Valid (
          modify λ s. record s {
            subs = stop_all s.client.subscriptions s.subs;
            client = record s.client { state = unconnected };
          })
      stopped = record {
        at = λ s h.
            (set_state-IsValid unconnected).at _
              (IsValid-subs h _ (length-stop_all s.client.subscriptions s.subs));
      }

  websocket_read_poll-IsValid : Keeps Valid (websocket_read_poll net)
  unfolding websocket_read_poll
  websocket_read_poll-IsValid = Keeps-bind _ _ websocket_read-IsValid read_again-IsValid

  stop_ping-ValidAt : (i : ℕ) → Keeps (ValidAt net i) (stop_ping net i)
  unfolding stop_ping
  stop_ping-ValidAt i = record {
    at = λ s h. (
      IsValid-subs h.0 _ (length-set_polling false i s.subs),
      omega (arith, length-set_polling false i s.subs, h.1),
    );
  }

  ping_again-ValidAt : (i : ℕ) (e : Option String) → Keeps (ValidAt net i) (ping_again net i e)
  unfolding ping_again
  ping_again-ValidAt i (some e) = stop_ping-ValidAt i
  ping_again-ValidAt i none = record {
    at =
        λ s h. ((IsValid-stable net).elsewhere _ _ (IsValid-spawn h.0 (ping_loop_task i) h.1), h.1);
  }

  ping_sent-ValidAt :
      (i : ℕ) (channel : String) → Keeps (ValidAt net i) (websocket_ping net channel)
  unfolding websocket_ping
  ping_sent-ValidAt i channel = record {
    at = λ s h.
        (Keeps-bind _ _ (send_only-Keeps net (ValidAt net i) (ValidAt-stable net i) _)
            (λ e. Keeps-pure _)).at
          s h;
  }

  ping_round-ValidAt :
      (i : ℕ) (sub : Subscription)
      → Keeps (ValidAt net i) (
          if sub.stop_polling
          then stop_ping net i
          else (websocket_ping net sub.channel >>= ping_again net i))
  ping_round-ValidAt i sub =
      Keeps-if _ _ _ (stop_ping-ValidAt i)
        (Keeps-bind _ _ (ping_sent-ValidAt i sub.channel) (ping_again-ValidAt i))

  ping_loop-ValidAt : (i : ℕ) → Keeps (ValidAt net i) (ping_loop net i)
  unfolding ping_loop
  ping_loop-ValidAt i = record {
    at = λ s h. elim (Bool-cases (is_connected s.client)) [
      | inl on ↦ rw on (
          (Keeps-bind _ _
              (subscription_at-Keeps net (ValidAt net i) (ValidAt-stable net i) i (ping_task i))
              (ping_round-ValidAt i)).at
            s h)
      | inr off ↦ rw off ((stop_ping-ValidAt i).at s h)
    ];
  }
    where
      ping_task :
          (i : ℕ) (s : Sys net) (sub : Subscription)
          → get_elem? s.subs i ≡ some sub
          → ValidAt net i s
          → ValidAt net i (record s { spawned = s.spawned ++ ping_poll_task i ∷ [] })
      ping_task i s sub e h = (IsValid-spawn h.0 (ping_poll_task i) h.1, h.1)

  websocket_ping_poll-ValidAt : (i : ℕ) → Keeps (ValidAt net i) (websocket_ping_poll net i)
  unfolding websocket_ping_poll
  websocket_ping_poll-ValidAt i = record {
    at = λ s h. (ping_loop-ValidAt i).at _ (
      IsValid-subs h.0 _ (length-set_polling true i s.subs),
      omega (arith, length-set_polling true i s.subs, h.1),
    );
  }

  resubscribe-IsValid :
      (fuel i : ℕ) (s : Sys net)
      → ValidAt net i s
      → Ends (λ _ u. IsValid u) (resubscribe net fuel i s)
  unfolding resubscribe append_subscription
  resubscribe-IsValid fuel i s h = Ends-continue _ (until_subscribed net fuel i s) _ (
      Ends-mono _ _ (until_subscribed net fuel i s) (λ _ u v. appended v)
        ((until_subscribed-Keeps net (ValidAt net i) (ValidAt-stable net i) i ping_task fuel).at s
          h))
    where
      ping_task :
          (s : Sys net) (sub : Subscription)
          → get_elem? s.subs i ≡ some sub
          → ValidAt net i s
          → ValidAt net i (record s { spawned = s.spawned ++ ping_poll_task i ∷ [] })
      ping_task s sub e h = (IsValid-spawn h.0 (ping_poll_task i) h.1, h.1)

      appended :
          {u : Sys net}
          → ValidAt net i u
          → IsValid (record u {
            client = record u.client { subscriptions = u.client.subscriptions ++ i ∷ [] };
          })
      appended {u} (v, lt) = record {
        transport = v.transport;
        subscriptions = All-append _ u.client.subscriptions (i ∷ []) v.subscriptions (lt, tt);
        tasks = v.tasks;
      }

  -- A task whose subscription exists keeps the pointers valid.
  pub run_task-IsValid :
      (fuel : ℕ) (t : Task) (s : Sys net)
      → TaskIsValid (length s.subs) t
      → IsValid s
      → Ends (λ _ u. IsValid u) (run_task net fuel t s)
  unfolding run_task
  run_task-IsValid fuel (handle_advice_task advice) s v h = (handle_advice-IsValid advice).at s h
  run_task-IsValid fuel (handle_messages_task ms) s v h =
      (handle_messages-Keeps net Valid (IsValid-stable net) ms).at s h
  run_task-IsValid fuel read_poll_task s v h = websocket_read_poll-IsValid.at s h
  run_task-IsValid fuel (ping_poll_task i) s v h =
      Ends-mono _ _ (websocket_ping_poll net i s) (λ _ u k. k.0)
        ((websocket_ping_poll-ValidAt i).at s (h, v))
  run_task-IsValid fuel (ping_loop_task i) s v h =
      Ends-mono _ _ (ping_loop net i s) (λ _ u k. k.0) ((ping_loop-ValidAt i).at s (h, v))
  run_task-IsValid fuel (resubscribe_task i) s v h = resubscribe-IsValid fuel i s (h, v)
  run_task-IsValid fuel (deliver_task c m) s v h = h
