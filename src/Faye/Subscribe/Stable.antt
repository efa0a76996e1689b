-- ===== src/Faye/Subscribe/Stable.antt =====
-- What requests for subscriptions keep.
use matrix_groupme_bridge.Prelude.{
  ℕ, zero, suc, ◌≡◌, refl, String, List, [], ◌∷◌, ◌++◌, Option, none, some, Result, ok, err, done,
  panics, unfinished, Ends, Keeps, Keeps-bind, Keeps-pure, Keeps-if, Bool-cases, Option-cases, inl,
  inr, get_elem?, Outcome,
}
use matrix_groupme_bridge.Faye.Message.{Message}
use matrix_groupme_bridge.Faye.Transport.{Net}
use matrix_groupme_bridge.Faye.Client.{Subscription, ping_poll_task, Sys}
use matrix_groupme_bridge.Faye.Client.Stable.{
  Stable, send-Keeps, send_only-Keeps, current_transport-Keeps,
}
use matrix_groupme_bridge.Faye.Subscribe.{
  subscription_at, subscribe_reply, after_send_only, request_subscription, until_subscribed,
}

module _ (net : Net) (P : Sys net → Type 0) (stable : Stable net P) (i : ℕ)
    (pinged : (s : Sys net) (sub : Subscription)
      → get_elem? s.subs i ≡ some sub
      → P s
      → P (record s { spawned = s.spawned ++ ping_poll_task i ∷ [] })) where
  pub subscription_at-Keeps : Keeps P (subscription_at net i)
  unfolding subscription_at
  subscription_at-Keeps = record {
    at = λ s h. elim (Option-cases (get_elem? s.subs i)) [
      | inl e ↦ rw (e, subscription_at) tt
      | inr (sub, e) ↦ rw (e, subscription_at) h
    ];
  }

  subscribe_reply-Keeps : (r : Result (Message × List Message)) → Keeps P (subscribe_reply net r)
  unfolding subscribe_reply
  subscribe_reply-Keeps (err e) = Keeps-pure _
  subscribe_reply-Keeps (ok (response, ms)) = record {
    at = λ s h. stable.advised s response.advice h;
  }

  after_send_only-Keeps : (e : Option String) → Keeps P (after_send_only net i e)
  unfolding after_send_only
  after_send_only-Keeps (some e) = record { at = λ s h. h }
  after_send_only-Keeps none = record {
    at = λ s h. elim (Option-cases (get_elem? s.subs i)) [
      | inl e ↦ rw (e, after_send_only) tt
      | inr (sub, e) ↦
          rw (e, after_send_only)
            (elim (Bool-cases sub.polling) [
              | inl busy ↦ rw busy h
              | inr free ↦ rw free (pinged s sub e h)
            ])
    ];
  }

  pub request_subscription-Keeps : Keeps P (request_subscription net i)
  unfolding request_subscription
  request_subscription-Keeps = record {
    at = λ s h.
        (Keeps-bind _ _ subscription_at-Keeps λ sub.
            Keeps-bind _ _ (current_transport-Keeps net P stable) λ t.
              Keeps-if _ _ _ (Keeps-bind _ _ (send_only-Keeps net P stable _) after_send_only-Keeps)
                (Keeps-bind _ _ (send-Keeps net P stable _) subscribe_reply-Keeps)).at
          s h;
  }

  pub until_subscribed-Keeps : (fuel : ℕ) → Keeps P (until_subscribed net fuel i)
  unfolding until_subscribed
  until_subscribed-Keeps zero = record { at = λ s h. tt }
  until_subscribed-Keeps (suc fuel) = record {
    at = λ s h.
        round s (request_subscription net i s) refl (request_subscription-Keeps.at s h)
          (until_subscribed-Keeps fuel);
  }
    where
      round :
          (s : Sys net) (o : Outcome (Sys net) (Option String))
          → request_subscription net i s ≡ o
          → Ends (λ _ u. P u) o
          → Keeps P (until_subscribed net fuel i)
          → Ends (λ _ u. P u) (until_subscribed net (suc fuel) i s)
      round s (done none u) e h k = rw (e, until_subscribed) h
      round s (done (some x) u) e h k = rw (e, until_subscribed) (k.at _ (stable.elsewhere u _ h))
      round s (panics p) e h k = rw (e, until_subscribed) tt
      round s unfinished e h k = rw (e, until_subscribed) tt
