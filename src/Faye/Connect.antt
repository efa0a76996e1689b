-- ===== src/Faye/Connect.antt =====
-- Connecting, publishing, the server's advice, and the delivery of messages to subscriptions:
-- `connect`, `Publish`, `handleAdvice` and `handleMessages` of pkg/faye/faye_client.go.
pub mod Delivery
pub mod Advised
pub mod Stable
use matrix_groupme_bridge.Prelude.{
  ℕ, String, List, [], ◌∷◌, ◌++◌, Option, none, some, Bool, true, false, ◌&&◌, not, ◌==◌, ltb,
  if◌then◌else◌, Result, ok, err, Outcome, done, panics, unfinished, Run, pure, modify, ◌>>=◌, ◌>>◌,
  add64, mul64, get_elem?,
}
use matrix_groupme_bridge.Prelude.Json.{Fields}
use matrix_groupme_bridge.Prelude.Glob.{glob_match}
use matrix_groupme_bridge.Faye.Message.{Message, Advice, new_message}
use matrix_groupme_bridge.Faye.Transport.{Net, connection_type, websocket_type}
use matrix_groupme_bridge.Faye.Client.{
  disconnected, unconnected, Subscription, FayeClient, Sys, Go, update_client, spawn,
  handle_advice_task, handle_messages_task, deliver_task, run_incoming, current_transport, send,
  send_only,
}

abbrev pub retry_advice : String
retry_advice = "retry"

abbrev pub handshake_advice : String
handshake_advice = "handshake"

abbrev pub none_advice : String
none_advice = "none"

-- The first subscription of the list whose channel matches, with the pointers followed.
unfoldable pub find_subscription : List Subscription → List ℕ → String → Option Subscription
find_subscription subs [] channel = none
find_subscription subs (i ∷ is) channel = elim (get_elem? subs i) [
  | none ↦ find_subscription subs is channel
  | some sub ↦
      let rest = find_subscription subs is channel in
      if glob_match sub.channel channel then some sub else rest
]

module _ (net : Net) where
  -- The loop of `handleMessages`. It returns when it has delivered one message.
  unfoldable pub handle_messages : List Message → Go net (Unit {0})
  handle_messages [] s = done tt s
  handle_messages (m ∷ ms) s =
      let seen = run_incoming s.client.extns m in
      let rest = handle_messages ms s in
      elim (find_subscription s.subs s.client.subscriptions seen.channel) [
        | none ↦ rest
        | some sub ↦ spawn net (deliver_task sub.msg_chan seen) s
      ]

  unfoldable pub connect_reply : Result (Message × List Message) → Go net (Option String)
  connect_reply (err e) = pure (some e)
  connect_reply (ok (response, messages)) = do
    spawn net (handle_advice_task response.advice)
    if response.successful
        then (do spawn net (handle_messages_task messages); pure none)
        else pure (some response.error)

  unfoldable pub connect_as : String → Message → Go net (Option String)
  connect_as kind msg =
      if kind == websocket_type
      then send_only net msg
      else (do reply ← send net msg; connect_reply reply)

  unfoldable pub connect : Go net (Option String)
  connect s =
      let c = s.client in
      (current_transport net >>= λ t.
      let kind = connection_type t in
      connect_as kind
        (record (new_message c.client_id c.connect_channel) { connection_type = kind }))
        s

  unfoldable pub publish_reply : Result (Message × List Message) → Go net (Option String)
  publish_reply (err e) = pure (some e)
  publish_reply (ok (response, _)) = do
    spawn net (handle_advice_task response.advice)
    pure (if response.successful then none else some "Response was not successful")

  unfoldable pub publish : String → Fields → Go net (Option String)
  publish channel content s =
      (do
        reply ← send net (record (new_message s.client.client_id channel) { content = content })
        publish_reply reply)
        s

  -- The time at which the next handshake may start: the clock's seconds plus the interval in
  -- nanoseconds, as one int64.
  unfoldable pub next_time : ℕ → ℕ → ℕ
  next_time now interval = add64 now (mul64 interval 1000000)

  unfoldable pub postpone : ℕ → Go net (Unit {0})
  postpone interval s =
      let (now, w) = net.unix_now s.world in
      done tt (record s {
        client = record s.client { next_handshake = next_time now interval };
        world = w;
      })

  unfoldable pub handle_advice : Advice → Go net (Unit {0})
  handle_advice advice =
      if advice.reconnect == ""
      then pure tt
      else if advice.reconnect == retry_advice
      then (do connect; pure tt)
      else if advice.reconnect == handshake_advice
      then (do
        update_client net (λ c. record c { state = unconnected })
        if ltb 0 advice.interval then postpone advice.interval else pure tt)
      else if advice.reconnect == none_advice
      then update_client net (λ c. record c { state = disconnected })
      else pure tt
