-- ===== src/Faye/Tests/Recovered.antt =====
-- A client whose subscription comes back after a new handshake.
use matrix_groupme_bridge.Prelude.{
  add64, ℕ, ◌+◌, ◌≡◌, refl, sym, ap, List, [], ◌∷◌, ok, done, ◌++◌, ◌∙◌,
}
use mathlib.Core.Path.{subst}
use matrix_groupme_bridge.Faye.Message.{new_message, no_advice, decode_response}
use matrix_groupme_bridge.Faye.Transport.{Net, initial_transports, connection_type, transport_send}
use matrix_groupme_bridge.Faye.Client.{
  Task, Sys, new_faye_client, handle_advice_task, handle_messages_task, deliver_task, send,
  setup_send, send_prepared, prepared, addressed, run_outgoing, run_incoming, received, shown,
  current_transport, on_world,
}
use matrix_groupme_bridge.Faye.Client.Stable.{Stable}
use matrix_groupme_bridge.Faye.Subscribe.{
  resubscribe_all, set_stop_polling, request_subscription, subscription_at, subscribe_reply,
}
use matrix_groupme_bridge.Faye.Subscribe.All.{resubscribe_all_lem}
use matrix_groupme_bridge.Faye.Subscribe.Waiting.{Fails}
use matrix_groupme_bridge.Faye.Tasks.{Reach}
use matrix_groupme_bridge.Faye.Tasks.Recovery.{Undisturbed, IsGranted, resubscribe_all_recovers}
use matrix_groupme_bridge.Faye.Tests.{server}
use matrix_groupme_bridge.Faye.Tests.Handshakes.{connected_client}

-- The server that refuses nothing.
abbrev kind : Net
kind = record server {
  post = λ _ _ w. (ok (record { status_code = 200; status = ""; body = ok "[]" }), w + 1);
}

-- The connected client, but for what the condition does not look at.
abbrev like : ℕ → List ℕ → List Task → ℕ → Sys kind
like n is ts w = record {
  client = record connected_client.client { message_id = n; subscriptions = is };
  registered = connected_client.registered;
  subs = connected_client.subs;
  spawned = ts;
  world = w;
}

abbrev IsAlike : Sys kind → Type 0
IsAlike s = (n : ℕ) × (is : List ℕ) × (ts : List Task) × (w : ℕ) × (s ≡ like n is ts w)

alike-stable : Stable kind IsAlike
alike-stable = record {
  counted = λ s msg (n, is, ts, w, e). (
    add64 n 1,
    is,
    ts,
    w,
    ap
        (λ (s : Sys kind). record s {
          client = record s.client { message_id = add64 s.client.message_id 1 };
        })
        e,
  );
  elsewhere =
      λ s v (n, is, ts, w, e). (n, is, ts, v, ap (λ (s : Sys kind). record s { world = v }) e);
  advised = λ s a (n, is, ts, w, e). (
    n,
    is,
    _,
    w,
    ap (λ (s : Sys kind). record s { spawned = s.spawned ++ handle_advice_task a ∷ [] }) e,
  );
  handed = λ s ms (n, is, ts, w, e). (
    n,
    is,
    _,
    w,
    ap (λ (s : Sys kind). record s { spawned = s.spawned ++ handle_messages_task ms ∷ [] }) e,
  );
  delivered = λ s c m (n, is, ts, w, e). (
    n,
    is,
    _,
    w,
    ap (λ (s : Sys kind). record s { spawned = s.spawned ++ deliver_task c m ∷ [] }) e,
  );
}

alike : Undisturbed kind IsAlike
alike = record {
  stable = alike-stable;
  respawned =
      λ s us (n, is, ts, w, e). (n, is, us, w, ap (λ (s : Sys kind). record s { spawned = us }) e);
  relisted = λ s js (n, is, ts, w, e). (
    n,
    js,
    ts,
    w,
    ap (λ (s : Sys kind). record s { client = record s.client { subscriptions = js } }) e,
  );
}

granted : IsGranted kind IsAlike 0
unfolding IsGranted request_subscription subscription_at subscribe_reply connection_type send
    setup_send send_prepared prepared addressed run_outgoing run_incoming received shown
    current_transport on_world transport_send decode_response new_message new_faye_client
    initial_transports no_advice
granted s (n, is, ts, w, e) =
    subst (λ t. (k : ℕ) × (u : Sys kind) × Fails kind 0 k t u) (sym e) (0, _, Fails.succeeds refl)

abbrev before : Sys kind
before = like 3 (0 ∷ []) [] 2

resubscribe_all_recovers_example :
    (t : Sys kind) × (u : Sys kind) × (resubscribe_all kind before ≡ done tt t)
    × (t.client.subscriptions ≡ [])
    × Reach kind t u
    × (u.client.subscriptions ≡ 0 ∷ [])
    × IsAlike u
unfolding set_stop_polling
resubscribe_all_recovers_example =
    resubscribe_all_recovers kind IsAlike alike before (granted, tt)
      (λ t e. (
        3,
        [],
        _,
        2,
        ap (λ o. elim o [ done _ s ↦ s | _ ↦ t ]) (sym e ∙ resubscribe_all_lem kind before),
      ))
