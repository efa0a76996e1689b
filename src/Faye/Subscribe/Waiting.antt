-- ===== src/Faye/Subscribe/Waiting.antt =====
-- The loops that ask for a subscription until a request succeeds.
use matrix_groupme_bridge.Prelude.{
  ◌↔◌, ℕ, zero, suc, ◌<◌, ◌≡◌, refl, String, [], ◌∷◌, ◌++◌, Option, none, some, Outcome, done,
  panics, unfinished, arith,
}
use matrix_groupme_bridge.Faye.Transport.{Net}
use matrix_groupme_bridge.Faye.Client.{Sys}
use matrix_groupme_bridge.Faye.Subscribe.{
  request_subscription, until_subscribed, resubscribe, append_subscription,
}

module _ (net : Net) (i : ℕ) where
  -- `Fails k s t`: from `s`, k requests fail, with a sleep after each, and the next one succeeds.
  pub data Fails : ℕ → Sys net → Sys net → Type 0 where
    succeeds : {s t : Sys net} → request_subscription net i s ≡ done none t → Fails zero s t
    fails :
        {k : ℕ} {s t u : Sys net} (e : String)
        → request_subscription net i s ≡ done (some e) t
        → Fails k (record t { world = net.sleep 1 t.world }) u
        → Fails (suc k) s u

  until_subscribed_enough :
      (fuel : ℕ) {k : ℕ} {s u : Sys net}
      → Fails k s u
      → k < fuel
      → until_subscribed net fuel i s ≡ done tt u
  unfolding until_subscribed
  until_subscribed_enough zero w h = elim h [ ]
  until_subscribed_enough (suc fuel) (succeeds e) h = rw (e, until_subscribed)
  until_subscribed_enough (suc fuel) (fails {t = t} e p w) h =
      rw (p, until_subscribed) (until_subscribed_enough fuel w (omega arith))

  -- One round, by what the request returned.
  until_subscribed_round :
      (fuel : ℕ) (s u : Sys net) (o : Outcome (Sys net) (Option String))
      → request_subscription net i s ≡ o
      → ((t : Sys net)
          → until_subscribed net fuel i t ≡ done tt u
          → (k : ℕ) × (k < fuel) × Fails k t u)
      → until_subscribed net (suc fuel) i s ≡ done tt u
      → (k : ℕ) × (k < suc fuel) × Fails k s u
  unfolding until_subscribed
  until_subscribed_round fuel s u (done none t) p ih e =
      (0, omega arith, succeeds (cc (p, rw (p, until_subscribed) at e)))
  until_subscribed_round fuel s u (done (some x) t) p ih e =
      let (k, lt, w) = ih _ (rw (p, until_subscribed) at e) in (suc k, omega arith, fails x p w)
  until_subscribed_round fuel s u (panics x) p ih e = cc (rw (p, until_subscribed) at e)
  until_subscribed_round fuel s u unfinished p ih e = cc (rw (p, until_subscribed) at e)

  until_subscribed_only :
      (fuel : ℕ) (s u : Sys net)
      → until_subscribed net fuel i s ≡ done tt u
      → (k : ℕ) × (k < fuel) × Fails k s u
  until_subscribed_only zero s u e = unfold until_subscribed in cc e
  until_subscribed_only (suc fuel) s u e =
      until_subscribed_round fuel s u _ refl (λ t. until_subscribed_only fuel t u) e

  -- The loop returns with some fuel exactly when fewer requests than the fuel fail before one
  -- succeeds, and then in the state that the last request left.
  pub until_subscribed_iff :
      (fuel : ℕ) (s u : Sys net)
      → (until_subscribed net fuel i s ≡ done tt u) ↔ ((k : ℕ) × (k < fuel) × Fails k s u)
  until_subscribed_iff fuel s u =
      (until_subscribed_only fuel s u, λ w. until_subscribed_enough fuel w.2 w.1)

  -- Once a request succeeds, after fewer failures than the fuel, `resubscribe` returns with the
  -- subscription appended to the client's list, and has changed nothing else since that request.
  pub resubscribe_appends :
      (fuel : ℕ) {k : ℕ} {s u : Sys net}
      → Fails k s u
      → k < fuel
      → resubscribe net fuel i s
        ≡ done tt (record u {
          client = record u.client { subscriptions = u.client.subscriptions ++ i ∷ [] };
        })
  unfolding resubscribe append_subscription
  resubscribe_appends fuel w h = rw (until_subscribed_enough fuel w h)
