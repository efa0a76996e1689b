-- ===== src/Faye/Subscribe.antt =====
-- Subscriptions: `requestSubscription`, `WaitSubscribe`, `resubscribe` and `ResubscribeAll` of
-- pkg/faye/faye_client.go. The loops that wait for a success take fuel.
pub mod Waiting
pub mod All
pub mod Stable
use matrix_groupme_bridge.Prelude.{
  ℕ, zero, suc, String, List, [], ◌∷◌, ◌++◌, Option, none, some, Bool, true, false, not, ◌==◌,
  if◌then◌else◌, Result, ok, err, Outcome, done, panics, unfinished, Run, pure, modify, ◌>>=◌, ◌>>◌,
  nil_pointer, ◌⧺◌, get_elem?, set, length,
}
use matrix_groupme_bridge.Faye.Message.{Message, has_error, new_message}
use matrix_groupme_bridge.Faye.Transport.{Net, connection_type, websocket_type}
use matrix_groupme_bridge.Faye.Client.{
  Subscription, FayeClient, Sys, Go, update_client, spawn, handle_advice_task, ping_poll_task,
  resubscribe_task, current_transport, send, send_only, stack_error,
}

-- `existingSubscription.stopPolling = false`, through a pointer
unfoldable pub set_stop_polling : Bool → ℕ → List Subscription → List Subscription
set_stop_polling b i subs = elim (get_elem? subs i) [
  | none ↦ subs
  | some sub ↦ set subs i (record sub { stop_polling = b })
]

unfoldable pub set_polling : Bool → ℕ → List Subscription → List Subscription
set_polling b i subs = elim (get_elem? subs i) [
  | none ↦ subs
  | some sub ↦ set subs i (record sub { polling = b })
]

module _ (net : Net) where
  unfoldable pub subscription_at : ℕ → Go net Subscription
  subscription_at i s = elim (get_elem? s.subs i) [
    | none ↦ panics nil_pointer
    | some sub ↦ done sub s
  ]

  unfoldable pub subscribe_reply : Result (Message × List Message) → Go net (Option String)
  subscribe_reply (err e) = pure (some e)
  subscribe_reply (ok (response, _)) = do
    spawn net (handle_advice_task response.advice)
    pure (
        if response.successful
        then none
        else some (
            "Response was unsuccessful: "
            ⧺ (if has_error response then " / " ⧺ response.error else "")))

  -- The websocket branch: the answer comes later, through the reading loop.
  unfoldable pub after_send_only : ℕ → Option String → Go net (Option String)
  after_send_only i (some e) s = done (some (stack_error "sendOnly" e)) s
  after_send_only i none s = elim (get_elem? s.subs i) [
    | none ↦ panics nil_pointer
    | some sub ↦ (do (if sub.polling then pure tt else spawn net (ping_poll_task i)); pure none) s
  ]

  unfoldable pub request_subscription : ℕ → Go net (Option String)
  request_subscription i s =
      let c = s.client in
      (do
        sub ← subscription_at i
        t ← current_transport net
        let msg = record (new_message c.client_id c.subscribe_channel) {
          subscription = sub.channel;
        }
        if connection_type t == websocket_type
            then (do e ← send_only net msg; after_send_only i e)
            else (do reply ← send net msg; subscribe_reply reply))
        s

  -- `for { if err := faye.requestSubscription(...); err != nil { sleep(1s); continue }; break }`
  unfoldable pub until_subscribed : ℕ → ℕ → Go net (Unit {0})
  until_subscribed zero i s = unfinished
  until_subscribed (suc fuel) i s = elim (request_subscription i s) [
    | done e s' ↦ elim e [
      | none ↦ done tt s'
      | some _ ↦ until_subscribed fuel i (record s' { world = net.sleep 1 s'.world })
    ]
    | panics p ↦ panics p
    | unfinished ↦ unfinished
  ]

  unfoldable pub append_subscription : ℕ → Go net (Unit {0})
  append_subscription i =
      update_client net λ c. record c { subscriptions = c.subscriptions ++ i ∷ [] }

  unfoldable pub resubscribe : ℕ → ℕ → Go net (Unit {0})
  resubscribe fuel i = do until_subscribed fuel i; append_subscription i

  -- `WaitSubscribe` with the channel that its caller made.
  unfoldable pub wait_subscribe : ℕ → String → ℕ → Go net (Unit {0})
  wait_subscribe fuel channel msg_chan s =
      let i = length s.subs in
      let sub : Subscription = record {
        channel = channel;
        msg_chan = msg_chan;
        polling = false;
        stop_polling = false;
      } in
      (do until_subscribed fuel i; append_subscription i) (record s { subs = s.subs ++ sub ∷ [] })

  -- The loop of `ResubscribeAll`.
  unfoldable pub fork_all : List ℕ → Go net (Unit {0})
  fork_all [] s = done tt s
  fork_all (i ∷ is) s = fork_all is (record s {
    subs = set_stop_polling false i s.subs;
    spawned = s.spawned ++ resubscribe_task i ∷ [];
  })

  unfoldable pub resubscribe_all : Go net (Unit {0})
  resubscribe_all s =
      fork_all s.client.subscriptions (record s { client = record s.client { subscriptions = [] } })
