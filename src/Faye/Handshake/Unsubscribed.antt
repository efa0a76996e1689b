-- ===== src/Faye/Handshake/Unsubscribed.antt =====
-- A client without subscriptions has none after it has connected, and the extensions that it had.
use matrix_groupme_bridge.Prelude.{
  ℕ, ◌≡◌, refl, String, List, [], Option, none, some, not, ◌&&◌, ◌==◌, ltb, length, Keeps,
  Keeps-bind, Keeps-pure, Bool-cases, inl, inr,
}
use matrix_groupme_bridge.Faye.Message.{Message}
use matrix_groupme_bridge.Faye.Transport.{Net}
use matrix_groupme_bridge.Faye.Client.{Extension, Sys}
use matrix_groupme_bridge.Faye.Client.Stable.{Stable}
use matrix_groupme_bridge.Faye.Subscribe.All.{resubscribe_all_lem}
use matrix_groupme_bridge.Faye.Handshake.{
  is_disconnected, wait_first, select, begin, adopt, renew_subscriptions, greeted, handshake_with,
  handshake, handshake_and_connect,
}
use matrix_groupme_bridge.Faye.Handshake.Stable.{
  wait_first-Keeps, until_greeted-Keeps, after_handshake-Keeps,
}

module _ (net : Net) (xs : List Extension) where
  abbrev pub Unsubscribed : Sys net → Type 0
  Unsubscribed s = (s.client.subscriptions ≡ []) × (s.client.extns ≡ xs)

  Unsubscribed-stable : Stable net Unsubscribed
  Unsubscribed-stable = record {
    counted = λ s msg h. h;
    elsewhere = λ s w h. h;
    advised = λ s a h. h;
    handed = λ s ms h. h;
    delivered = λ s c m h. h;
  }

  renew_subscriptions-Unsubscribed :
      (old : String) → Keeps Unsubscribed (renew_subscriptions net old)
  unfolding renew_subscriptions
  renew_subscriptions-Unsubscribed old = record {
    at = λ s h.
        elim (Bool-cases
          (not (old == s.client.client_id) && ltb 0 (length s.client.subscriptions))) [
            | inl changed ↦ rw (changed, resubscribe_all_lem net s) (refl, h.1)
            | inr same ↦ rw same h
          ];
  }

  adopt-Unsubscribed : (found : Option ℕ) → Keeps Unsubscribed (adopt net found)
  unfolding adopt
  adopt-Unsubscribed none = record { at = λ s h. tt }
  adopt-Unsubscribed (some i) = record { at = λ s h. h }

  greeted-Unsubscribed : (response : Message) → Keeps Unsubscribed (greeted net response)
  unfolding greeted select
  greeted-Unsubscribed response = record {
    at = λ s h.
        (Keeps-bind _ _ (adopt-Unsubscribed _)
            (λ _. renew_subscriptions-Unsubscribed s.client.client_id)).at
          _ h;
  }

  handshake_with-Unsubscribed :
      (fuel : ℕ) (found : Option ℕ) → Keeps Unsubscribed (handshake_with net fuel found)
  unfolding handshake_with begin
  handshake_with-Unsubscribed fuel none = Keeps-pure _
  handshake_with-Unsubscribed fuel (some i) = record {
    at = λ s h.
        (Keeps-bind _ _ (until_greeted-Keeps net Unsubscribed Unsubscribed-stable (λ s h. h) fuel)
            (λ r. Keeps-bind _ _ (greeted-Unsubscribed r) λ _. Keeps-pure none)).at
          _ h;
  }

  handshake-Unsubscribed : (fuel : ℕ) → Keeps Unsubscribed (handshake net fuel)
  unfolding handshake select
  handshake-Unsubscribed fuel = record {
    at = λ s h. elim (Bool-cases (is_disconnected s.client.state)) [
      | inl told ↦ rw told h
      | inr free ↦ rw free (
          (Keeps-bind (wait_first net) _ (wait_first-Keeps net Unsubscribed Unsubscribed-stable)
              (λ _. record { at = λ t k. (handshake_with-Unsubscribed fuel _).at _ k })).at
            s h)
    ];
  }

  pub handshake_and_connect-Unsubscribed :
      (fuel : ℕ) → Keeps Unsubscribed (handshake_and_connect net fuel)
  unfolding handshake_and_connect
  handshake_and_connect-Unsubscribed fuel =
      Keeps-bind _ _ (handshake-Unsubscribed fuel)
        (after_handshake-Keeps net Unsubscribed Unsubscribed-stable (λ s h. h))
