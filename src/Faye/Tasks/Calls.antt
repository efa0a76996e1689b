-- ===== src/Faye/Tasks/Calls.antt =====
-- Every call by the owner of the client keeps the pointers valid.
use matrix_groupme_bridge.Prelude.{
  ℕ, zero, suc, ◌<◌, ◌≡◌, refl, ◌∙◌, String, List, [], ◌∷◌, Option, none, some, false, not, ◌&&◌,
  ◌==◌, ltb, All-append, arith, length, length-set, get_elem?, ◌>>=◌, Ends, Ends-mono,
  Ends-continue, Keeps, Keeps-bind, Keeps-pure, Bool-cases, Option-cases, inl, inr,
}
use matrix_groupme_bridge.Faye.Message.{Message}
use matrix_groupme_bridge.Faye.Transport.{Net, mandatory_connection_types}
use matrix_groupme_bridge.Faye.Transport.Selection.{
  length-select_transport, Selected, select_transport-Selected,
}
use matrix_groupme_bridge.Faye.Client.{Subscription, Sys, unconnected}
use matrix_groupme_bridge.Faye.Subscribe.{resubscribe_all}
use matrix_groupme_bridge.Faye.Subscribe.All.{resubscribe_all_lem, restarted}
use matrix_groupme_bridge.Faye.Handshake.{
  update_at, is_disconnected, select, begin, adopt, renew_subscriptions, greeted, handshake_with,
  handshake,
}
use matrix_groupme_bridge.Faye.Handshake.Stable.{wait_first-Keeps, until_greeted-Keeps}
use matrix_groupme_bridge.Faye.Tasks.Pointers.{
  PointsBelow, IsValid, IsValid-stable, resubscribe_tasks, length-set_stop_polling,
}

length-update_at {ℓ} :
    {A : Type ℓ} (f : A → A) (i : ℕ) (xs : List A) → length (update_at f i xs) ≡ length xs
unfolding update_at
length-update_at f i xs = elim (Option-cases (get_elem? xs i)) [
  | inl e ↦ rw (e, update_at)
  | inr (x, e) ↦ rw (e, update_at) (length-set xs i _)
]

length-restarted :
    (is : List ℕ) (subs : List Subscription) → length (restarted is subs) ≡ length subs
length-restarted [] subs = refl
length-restarted (i ∷ is) subs = length-restarted is _ ∙ length-set_stop_polling false i subs

below_of_get_elem? {ℓ} :
    {A : Type ℓ} (xs : List A) (i : ℕ) {x : A} → get_elem? xs i ≡ some x → i < length xs
below_of_get_elem? [] i e = cc
below_of_get_elem? (x ∷ xs) zero e = omega arith
below_of_get_elem? (x ∷ xs) (suc i) e = omega (arith, below_of_get_elem? xs i e)

module _ (net : Net) where
  abbrev Valid : Sys net → Type 0
  Valid s = IsValid s

  -- Selection leaves as many transports as there were.
  selected-IsValid :
      (types : List String) (s : Sys net)
      → Valid s
      → Ends (λ found u. Valid u × PointsBelow (length u.registered) found) (select net types s)
  unfolding select
  selected-IsValid types s h =
      let same = length-select_transport net s.client.url types s.registered s.world in
      (
        record {
          transport = rw same h.transport;
          subscriptions = h.subscriptions;
          tasks = h.tasks;
        },
        found_below _ _ (select_transport-Selected net s.client.url types s.registered s.world),
      )
    where
      found_below :
          (ts : List _) (o : Option ℕ)
          → Selected net s.client.url types ts o
          → PointsBelow (length ts) o
      found_below ts none h = tt
      found_below ts (some i) (t, e, fits) = below_of_get_elem? ts i e

  begin-IsValid :
      (i : ℕ) (s : Sys net)
      → Valid s
      → i < length s.registered
      → Ends (λ _ u. Valid u) (begin net i s)
  unfolding begin
  begin-IsValid i s h lt = record {
    transport = rw length-update_at lt;
    subscriptions = h.subscriptions;
    tasks = h.tasks;
  }

  set_unconnected :
      (s : Sys net)
      → Valid s
      → Valid (record s { client = record s.client { state = unconnected } })
  set_unconnected s h = record {
    transport = h.transport;
    subscriptions = h.subscriptions;
    tasks = h.tasks;
  }

  pub resubscribe_all-IsValid : Keeps Valid (resubscribe_all net)
  resubscribe_all-IsValid = record {
    at = λ s h. rw resubscribe_all_lem (record {
      transport = h.transport;
      subscriptions = tt;
      tasks = rw length-restarted (
          All-append _ s.spawned _ h.tasks
            (resubscribe_tasks _ s.client.subscriptions h.subscriptions));
    });
  }

  renew_subscriptions-IsValid : (old : String) → Keeps Valid (renew_subscriptions net old)
  unfolding renew_subscriptions
  renew_subscriptions-IsValid old = record {
    at = λ s h.
        elim (Bool-cases
          (not (old == s.client.client_id) && ltb 0 (length s.client.subscriptions))) [
            | inl changed ↦ rw changed (resubscribe_all-IsValid.at s h)
            | inr same ↦ rw same h
          ];
  }

  adopt-IsValid :
      (found : Option ℕ) (s : Sys net)
      → Valid s × PointsBelow (length s.registered) found
      → Ends (λ _ u. Valid u) (adopt net found s)
  unfolding adopt
  adopt-IsValid none s h = tt
  adopt-IsValid (some i) s (h, lt) = record {
    transport = rw length-update_at lt;
    subscriptions = h.subscriptions;
    tasks = h.tasks;
  }

  adopted :
      (old : String) (found : Option ℕ) (s : Sys net)
      → Valid s × PointsBelow (length s.registered) found
      → Ends (λ _ u. Valid u) ((adopt net found >>= λ _. renew_subscriptions net old) s)
  adopted old found s h = Ends-continue _ (adopt net found s) _ (
      Ends-mono _ _ (adopt net found s) (λ _ u v. (renew_subscriptions-IsValid old).at u v)
        (adopt-IsValid found s h))

  greeted-IsValid : (response : Message) → Keeps Valid (greeted net response)
  unfolding greeted
  greeted-IsValid response = record {
    at = λ s h. Ends-continue _ (select net response.supported_connection_types _) _ (
        Ends-mono _ _ (select net response.supported_connection_types _)
          (adopted s.client.client_id)
          (selected-IsValid _ _ (record {
            transport = h.transport;
            subscriptions = h.subscriptions;
            tasks = h.tasks;
          })));
  }

  handshake_with-IsValid :
      (fuel : ℕ) (found : Option ℕ) (s : Sys net)
      → Valid s × PointsBelow (length s.registered) found
      → Ends (λ _ u. Valid u) (handshake_with net fuel found s)
  unfolding handshake_with
  handshake_with-IsValid fuel none s (h, _) = h
  handshake_with-IsValid fuel (some i) s (h, lt) = Ends-continue _ (begin net i s) _ (
      Ends-mono _ _ (begin net i s)
        (λ _ u v.
          (Keeps-bind _ _ (until_greeted-Keeps net Valid (IsValid-stable net) set_unconnected fuel)
              λ r. Keeps-bind _ _ (greeted-IsValid r) λ _. Keeps-pure none).at
            u v)
        (begin-IsValid i s h lt))

  pub handshake-IsValid : (fuel : ℕ) → Keeps Valid (handshake net fuel)
  unfolding handshake
  handshake-IsValid fuel = record {
    at = λ s h. elim (Bool-cases (is_disconnected s.client.state)) [
      | inl told ↦ rw told h
      | inr free ↦
          rw free
            ((Keeps-bind _ _ (wait_first-Keeps net Valid (IsValid-stable net)) λ _. looked).at s h)
    ];
  }
    where
      looked : Keeps Valid (select net mandatory_connection_types >>= handshake_with net fuel)
      looked = record {
        at = λ s h. Ends-continue _ (select net mandatory_connection_types s) _ (
            Ends-mono _ _ (select net mandatory_connection_types s) (handshake_with-IsValid fuel)
              (selected-IsValid mandatory_connection_types s h));
      }
