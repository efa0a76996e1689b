-- ===== src/Faye/Client/Stable.antt =====
-- What sending a message keeps: every predicate that a step of the counter of messages keeps and that does
-- not look at the network or at the goroutines that a reply starts.
use matrix_groupme_bridge.Prelude.{
  ℕ, String, List, [], ◌∷◌, ◌++◌, Result, ok, err, Outcome, done, panics, unfinished, Run, Ends,
  Keeps, Keeps-bind, Keeps-pure, Keeps-panic, get_elem?, add64, Option-cases, inl, inr,
}
use matrix_groupme_bridge.Faye.Message.{Message, Advice, decode_response}
use matrix_groupme_bridge.Faye.Transport.{Net, transport_send, transport_send_only}
use matrix_groupme_bridge.Faye.Client.{
  handle_advice_task, handle_messages_task, deliver_task, Sys, setup_send, send, send_only,
  send_prepared, send_only_prepared, received, shown, current_transport, on_world, resumed,
}

pub record Stable (net : Net) (P : Sys net → Type 0) : Type 0 where
  pub counted :
      (s : Sys net) (msg : Message)
      → P s
      → P (record s { client = record s.client { message_id = add64 s.client.message_id 1 } })
  pub elsewhere : (s : Sys net) (w : net.World) → P s → P (record s { world = w })
  pub advised :
      (s : Sys net) (a : Advice)
      → P s
      → P (record s { spawned = s.spawned ++ handle_advice_task a ∷ [] })
  pub handed :
      (s : Sys net) (ms : List Message)
      → P s
      → P (record s { spawned = s.spawned ++ handle_messages_task ms ∷ [] })
  pub delivered :
      (s : Sys net) (c : ℕ) (m : Message)
      → P s
      → P (record s { spawned = s.spawned ++ deliver_task c m ∷ [] })

module _ (net : Net) (P : Sys net → Type 0) (stable : Stable net P) where
  pub setup_send-Keeps : (msg : Message) → Keeps P (setup_send net msg)
  unfolding setup_send
  setup_send-Keeps msg = record { at = λ s h. stable.counted s msg h }

  pub current_transport-Keeps : Keeps P (current_transport net)
  unfolding current_transport
  current_transport-Keeps = record {
    at = λ s h. elim (Option-cases s.client.transport) [
      | inl e ↦ rw (e, current_transport) tt
      | inr (i, e) ↦
          rw (e, current_transport)
            (elim (Option-cases (get_elem? s.registered i)) [
              | inl q ↦ rw (q, current_transport) tt
              | inr (t, q) ↦ rw (q, current_transport) h
            ])
    ];
  }

  back :
      {A : Type 0} (s : Sys net)
      → P s
      → (o : Outcome net.World A) → Ends (λ _ u. P u) (resumed net s o)
  back s h (done a w) = stable.elsewhere s w h
  back s h (panics p) = tt
  back s h unfinished = tt

  pub on_world-Keeps : {A : Type 0} (m : Run net.World A) → Keeps P (on_world net m)
  unfolding on_world
  on_world-Keeps m = record { at = λ s h. back s h (m s.world) }

  pub decode_response-Keeps :
      (r : Result (List Message)) → Keeps P (decode_response {S = Sys net} r)
  unfolding decode_response
  decode_response-Keeps (err e) = Keeps-pure _
  decode_response-Keeps (ok []) = Keeps-panic _
  decode_response-Keeps (ok (m ∷ ms)) = Keeps-pure _

  shown-Keeps : (r : Result (Message × List Message)) → Keeps P (shown net r)
  unfolding shown
  shown-Keeps (err e) = Keeps-pure _
  shown-Keeps (ok (m, [])) = Keeps-pure _
  shown-Keeps (ok (m, n ∷ ms)) = record { at = λ s h. h }

  received-Keeps : (r : Result String) → Keeps P (received net r)
  unfolding received
  received-Keeps (err e) = Keeps-pure _
  received-Keeps (ok body) = Keeps-bind _ _ (decode_response-Keeps _) shown-Keeps

  send_prepared-Keeps : (r : Result Message) → Keeps P (send_prepared net r)
  unfolding send_prepared
  send_prepared-Keeps (err e) = Keeps-pure _
  send_prepared-Keeps (ok msg) =
      Keeps-bind _ _ current_transport-Keeps
        λ t. Keeps-bind _ _ (on_world-Keeps (transport_send net t msg)) received-Keeps

  pub send-Keeps : (msg : Message) → Keeps P (send net msg)
  unfolding send
  send-Keeps msg = Keeps-bind _ _ (setup_send-Keeps msg) send_prepared-Keeps

  send_only_prepared-Keeps : (r : Result Message) → Keeps P (send_only_prepared net r)
  unfolding send_only_prepared
  send_only_prepared-Keeps (err e) = Keeps-pure _
  send_only_prepared-Keeps (ok msg) =
      Keeps-bind _ _ current_transport-Keeps
        λ t. Keeps-bind _ _ (on_world-Keeps (transport_send_only net t msg)) λ e. Keeps-pure _

  pub send_only-Keeps : (msg : Message) → Keeps P (send_only net msg)
  unfolding send_only
  send_only-Keeps msg = Keeps-bind _ _ (setup_send-Keeps msg) send_only_prepared-Keeps
