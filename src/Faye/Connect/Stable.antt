-- ===== src/Faye/Connect/Stable.antt =====
-- What connecting, publishing and the delivery of messages keep.
use matrix_groupme_bridge.Prelude.{
  String, List, [], ◌∷◌, Result, ok, err, Keeps, Keeps-bind, Keeps-pure, Keeps-if, Bool-cases,
  Option-cases, inl, inr,
}
use matrix_groupme_bridge.Prelude.Json.{Fields}
use matrix_groupme_bridge.Faye.Message.{Message}
use matrix_groupme_bridge.Faye.Transport.{Net}
use matrix_groupme_bridge.Faye.Client.{Sys, run_incoming}
use matrix_groupme_bridge.Faye.Client.Stable.{
  Stable, send-Keeps, send_only-Keeps, current_transport-Keeps,
}
use matrix_groupme_bridge.Faye.Connect.{
  find_subscription, handle_messages, connect_reply, connect_as, connect, publish_reply, publish,
}

module _ (net : Net) (P : Sys net → Type 0) (stable : Stable net P) where
  pub handle_messages-Keeps : (ms : List Message) → Keeps P (handle_messages net ms)
  unfolding handle_messages
  handle_messages-Keeps [] = record { at = λ s h. h }
  handle_messages-Keeps (m ∷ ms) = record {
    at = λ s h.
        elim (Option-cases (
          find_subscription s.subs s.client.subscriptions
            (run_incoming s.client.extns m).channel)) [
              | inl e ↦ rw (e, handle_messages) ((handle_messages-Keeps ms).at s h)
              | inr (sub, e) ↦ rw (e, handle_messages) (stable.delivered s sub.msg_chan _ h)
            ];
  }

  connect_reply-Keeps : (r : Result (Message × List Message)) → Keeps P (connect_reply net r)
  unfolding connect_reply
  connect_reply-Keeps (err e) = Keeps-pure _
  connect_reply-Keeps (ok (response, messages)) = record {
    at = λ s h. elim (Bool-cases response.successful) [
      | inl good ↦ rw good (stable.handed _ messages (stable.advised s response.advice h))
      | inr bad ↦ rw bad (stable.advised s response.advice h)
    ];
  }

  connect_as-Keeps : (kind : String) (msg : Message) → Keeps P (connect_as net kind msg)
  unfolding connect_as
  connect_as-Keeps kind msg =
      Keeps-if _ _ _ (send_only-Keeps net P stable msg)
        (Keeps-bind _ _ (send-Keeps net P stable msg) connect_reply-Keeps)

  pub connect-Keeps : Keeps P (connect net)
  unfolding connect
  connect-Keeps = record {
    at = λ s h.
        (Keeps-bind _ _ (current_transport-Keeps net P stable) (λ t. connect_as-Keeps _ _)).at s h;
  }

  publish_reply-Keeps : (r : Result (Message × List Message)) → Keeps P (publish_reply net r)
  unfolding publish_reply
  publish_reply-Keeps (err e) = Keeps-pure _
  publish_reply-Keeps (ok (response, ms)) = record {
    at = λ s h. stable.advised s response.advice h;
  }

  pub publish-Keeps : (channel : String) (content : Fields) → Keeps P (publish net channel content)
  unfolding publish
  publish-Keeps channel content = record {
    at = λ s h. (Keeps-bind _ _ (send-Keeps net P stable _) publish_reply-Keeps).at s h;
  }
