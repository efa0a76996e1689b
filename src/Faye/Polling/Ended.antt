-- ===== src/Faye/Polling/Ended.antt =====
-- The end of the loop that reads the websocket.
use matrix_groupme_bridge.Prelude.{
  ℕ, zero, suc, ◌≡◌, refl, String, List, [], ◌∷◌, Option, none, some, true, done, All, Option-cases,
  inl, inr, get_elem?, set,
}
use matrix_groupme_bridge.Faye.Transport.{Net, Transport, close}
use matrix_groupme_bridge.Faye.Client.{unconnected, Subscription, Sys, current_transport, on_world}
use matrix_groupme_bridge.Faye.Subscribe.{set_stop_polling}
use matrix_groupme_bridge.Faye.Polling.{stop_all, websocket_read, read_again, websocket_read_poll}

-- The subscription, if there is one, is told to stop.
unfoldable pub IsStopped : Option Subscription → Type 0
IsStopped none = Unit
IsStopped (some sub) = sub.stop_polling ≡ true

set-IsStopped :
    (subs : List Subscription) (i j : ℕ) (v : Subscription)
    → v.stop_polling ≡ true
    → IsStopped (get_elem? subs j)
    → IsStopped (get_elem? (set subs i v) j)
unfolding IsStopped
set-IsStopped [] i j v h k = k
set-IsStopped (s ∷ subs) zero zero v h k = h
set-IsStopped (s ∷ subs) zero (suc j) v h k = k
set-IsStopped (s ∷ subs) (suc i) zero v h k = k
set-IsStopped (s ∷ subs) (suc i) (suc j) v h k = set-IsStopped subs i j v h k

set_self-IsStopped :
    (subs : List Subscription) (i : ℕ) (v : Subscription)
    → v.stop_polling ≡ true
    → IsStopped (get_elem? (set subs i v) i)
unfolding IsStopped
set_self-IsStopped [] i v h = tt
set_self-IsStopped (s ∷ subs) zero v h = h
set_self-IsStopped (s ∷ subs) (suc i) v h = set_self-IsStopped subs i v h

set_stop_polling-IsStopped :
    (i j : ℕ) (subs : List Subscription)
    → IsStopped (get_elem? subs j)
    → IsStopped (get_elem? (set_stop_polling true i subs) j)
unfolding set_stop_polling IsStopped
set_stop_polling-IsStopped i j subs h = elim (Option-cases (get_elem? subs i)) [
  | inl e ↦ rw (e, set_stop_polling) h
  | inr (sub, e) ↦ rw (e, set_stop_polling) (set-IsStopped subs i j _ refl h)
]

set_stop_polling_self-IsStopped :
    (i : ℕ) (subs : List Subscription) → IsStopped (get_elem? (set_stop_polling true i subs) i)
unfolding set_stop_polling IsStopped
set_stop_polling_self-IsStopped i subs = elim (Option-cases (get_elem? subs i)) [
  | inl e ↦ rw (e, set_stop_polling) (rw (e, IsStopped) tt)
  | inr (sub, e) ↦ rw (e, set_stop_polling) (set_self-IsStopped subs i _ refl)
]

stop_all-IsStopped :
    (is : List ℕ) (j : ℕ) (subs : List Subscription)
    → IsStopped (get_elem? subs j)
    → IsStopped (get_elem? (stop_all is subs) j)
unfolding stop_all
stop_all-IsStopped [] j subs h = h
stop_all-IsStopped (i ∷ is) j subs h =
    stop_all-IsStopped is j (set_stop_polling true i subs) (set_stop_polling-IsStopped i j subs h)

stop_all_self-IsStopped :
    (is : List ℕ) (subs : List Subscription)
    → All (λ i. IsStopped (get_elem? (stop_all is subs) i)) is
unfolding stop_all
stop_all_self-IsStopped [] subs = tt
stop_all_self-IsStopped (i ∷ is) subs = (
  stop_all-IsStopped is i (set_stop_polling true i subs) (set_stop_polling_self-IsStopped i subs),
  stop_all_self-IsStopped is (set_stop_polling true i subs),
)

-- When reading the websocket brings an error and its connection can be closed, the reading loop ends,
-- with no further goroutine: the client is unconnected, whatever its state was, and every subscription in
-- its list is told to stop its pings.
pub websocket_read_poll_ended :
    (net : Net) (s t closed : Sys net) (e : String) (transport : Transport net.Conn)
    → websocket_read net s ≡ done (some e) t
    → current_transport net t ≡ done transport t
    → on_world net (close net transport) t ≡ done tt closed
    → (u : Sys net) × (websocket_read_poll net s ≡ done tt u)
      × (u.client.state ≡ unconnected)
      × (u.spawned ≡ closed.spawned)
      × (u.client.subscriptions ≡ closed.client.subscriptions)
      × All (λ i. IsStopped (get_elem? u.subs i)) closed.client.subscriptions
unfolding websocket_read_poll read_again
websocket_read_poll_ended net s t closed e transport read at_ closes = (
  record closed {
    subs = stop_all closed.client.subscriptions closed.subs;
    client = record closed.client { state = unconnected };
  },
  rw (websocket_read_poll, read) (rw (read_again, at_) (rw closes refl)),
  refl,
  refl,
  refl,
  stop_all_self-IsStopped closed.client.subscriptions closed.subs,
)
