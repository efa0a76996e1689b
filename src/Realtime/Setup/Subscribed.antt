-- ===== src/Realtime/Setup/Subscribed.antt =====
-- What a subscription to a user, a group or a direct message leaves in the client.
use matrix_groupme_bridge.Prelude.{
  ℕ, ◌≡◌, refl, ap, String, List, [], ◌∷◌, ◌++◌, Option, none, some, true, false, Outcome, done,
  panics, unfinished, Ends, Ends-mono, Ends-continue, length, get_elem?, continue, pure,
}
use matrix_groupme_bridge.Faye.Transport.{Net}
use matrix_groupme_bridge.Faye.Client.{Subscription, Sys}
use matrix_groupme_bridge.Faye.Client.Stable.{Stable}
use matrix_groupme_bridge.Faye.Subscribe.{until_subscribed, append_subscription, wait_subscribe}
use matrix_groupme_bridge.Faye.Subscribe.Stable.{until_subscribed-Keeps}
use matrix_groupme_bridge.Realtime.Push.{subscribe_with_prefix}
use matrix_groupme_bridge.Realtime.Setup.{Push, subscribe_channel_of, forward, follow}

get_elem?-append_last {ℓ} :
    {A : Type ℓ} (xs : List A) (x : A) → get_elem? (xs ++ x ∷ []) (length xs) ≡ some x
get_elem?-append_last [] x = refl
get_elem?-append_last (y ∷ xs) x = get_elem?-append_last xs x

-- The new subscription is the last of the client's list.
pub record IsSubscribed (net : Net) (name : String) (c_new : ℕ) (s u : Sys net) : Type 0 where
  pub sub : Subscription
  pub stored : get_elem? u.subs (length s.subs) ≡ some sub
  pub channel : sub.channel ≡ name
  pub msg_chan : sub.msg_chan ≡ c_new
  pub listed : u.client.subscriptions ≡ s.client.subscriptions ++ length s.subs ∷ []
  pub state : u.client.state ≡ s.client.state
  pub extns : u.client.extns ≡ s.client.extns

module _ (net : Net) where
  -- The subscription stands in the store, and the list is as it was.
  abbrev IsStored : Subscription → Sys net → Sys net → Type 0
  IsStored sub s u =
      (get_elem? u.subs (length s.subs) ≡ some sub)
      × (u.client.subscriptions ≡ s.client.subscriptions)
      × (u.client.state ≡ s.client.state)
      × (u.client.extns ≡ s.client.extns)

  IsStored-stable : (sub : Subscription) (s : Sys net) → Stable net (IsStored sub s)
  IsStored-stable sub s = record {
    counted = λ u msg h. h;
    elsewhere = λ u w h. h;
    advised = λ u a h. h;
    handed = λ u ms h. h;
    delivered = λ u c m h. h;
  }

  until_subscribed-IsStored :
      (fuel : ℕ) (sub : Subscription) (s : Sys net)
      → Ends
          (λ _ u. IsStored sub s u)
          (until_subscribed net fuel (length s.subs) (record s { subs = s.subs ++ sub ∷ [] }))
  until_subscribed-IsStored fuel sub s =
      (until_subscribed-Keeps net (IsStored sub s) (IsStored-stable sub s) (length s.subs)
          (λ u p e h. h) fuel).at
        _ (get_elem?-append_last s.subs sub, refl, refl, refl)

  pub wait_subscribe-IsSubscribed :
      (fuel : ℕ) (channel : String) (c_new : ℕ) (s : Sys net)
      → Ends (λ _ u. IsSubscribed net channel c_new s u) (wait_subscribe net fuel channel c_new s)
  unfolding wait_subscribe append_subscription
  wait_subscribe-IsSubscribed fuel channel c_new s =
      Ends-continue (λ _ u. IsSubscribed net channel c_new s u)
        (until_subscribed net fuel (length s.subs) _) _
        (Ends-mono _ _ (until_subscribed net fuel (length s.subs) _)
          (λ _ u h. record {
            sub = record {
              channel = channel;
              msg_chan = c_new;
              polling = false;
              stop_polling = false;
            };
            stored = h.0;
            channel = refl;
            msg_chan = refl;
            listed = ap (λ is. is ++ length s.subs ∷ []) h.1;
            state = h.2;
            extns = h.3;
          })
          (until_subscribed-IsStored fuel _ s))

-- What `subscribeWithPrefix` leaves, once `Setup` has run.
pub record IsForwarded (net : Net) (name : String) (s : Push net) (e : Option String) (u : Push net)
    : Type 0 where
  pub succeeded : e ≡ none
  pub subscribed : IsSubscribed net name (length s.forwarded) s.faye u.faye
  pub forwarded : u.forwarded ≡ s.forwarded ++ length s.forwarded ∷ []
  pub subscription : u.subscription ≡ s.subscription
  pub loops : u.loops ≡ s.loops

module _ (net : Net) where
  forward-IsForwarded :
      (name : String) (s : Push net) (o : Outcome (Sys net) (Unit {0}))
      → Ends (λ _ u. IsSubscribed net name (length s.forwarded) s.faye u) o
      → Ends
          (IsForwarded net name s)
          (follow s (continue o (λ _. pure none)) (forward net (length s.forwarded)))
  unfolding forward
  forward-IsForwarded name s (done _ u) h = record {
    succeeded = refl;
    subscribed = h;
    forwarded = refl;
    subscription = refl;
    loops = refl;
  }
  forward-IsForwarded name s (panics p) h = tt
  forward-IsForwarded name s unfinished h = tt

  -- After `Setup` a subscription that returns reports no error.
  pub subscribe_channel_of-IsForwarded :
      (fuel : ℕ) (name : String) (s : Push net)
      → s.started ≡ true
      → Ends (IsForwarded net name s) (subscribe_channel_of net fuel name s)
  unfolding subscribe_channel_of subscribe_with_prefix
  subscribe_channel_of-IsForwarded fuel name s h = simp h (
      forward-IsForwarded name s (wait_subscribe net fuel name (length s.forwarded) s.faye)
        (wait_subscribe-IsSubscribed net fuel name (length s.forwarded) s.faye))
