-- ===== src/Faye/Polling.antt =====
-- The two polling goroutines, a round each: `websocketReadPoll`, `websocketRead`,
-- `websocketPingPoll` and `websocketPing` of pkg/faye/faye_client.go. A round that goes on starts
-- the next one as a task.
pub mod Ended
pub mod Received
use matrix_groupme_bridge.Prelude.{
  ℕ, String, List, [], ◌∷◌, ◌++◌, Option, none, some, true, false, Result, ok, err, pure, modify,
  ◌>>=◌, ◌>>◌, if◌then◌else◌,
}
use mathlib.Core.Option
use matrix_groupme_bridge.Prelude.Json.{str, field, no_fields}
use matrix_groupme_bridge.Faye.Message.{Message, new_message, decode_response}
use matrix_groupme_bridge.Faye.Transport.{Net, transport_read, close}
use matrix_groupme_bridge.Faye.Client.{
  unconnected, Subscription, Go, spawn, handle_advice_task, read_poll_task, ping_loop_task,
  is_connected, current_transport, on_world, send_only, stack_error,
}
use matrix_groupme_bridge.Faye.Connect.{handle_messages}
use matrix_groupme_bridge.Faye.Subscribe.{set_stop_polling, set_polling, subscription_at}

abbrev pub websocket_poll_interval : ℕ
websocket_poll_interval = 30

-- What `websocketReadPoll` does to every subscription when it ends.
unfoldable pub stop_all : List ℕ → List Subscription → List Subscription
stop_all [] subs = subs
stop_all (i ∷ is) subs = stop_all is (set_stop_polling true i subs)

module _ (net : Net) where
  unfoldable pub read_reply : Result (Message × List Message) → Go net (Option String)
  read_reply (err e) = pure (some (stack_error "decodeResponse" e))
  read_reply (ok (response, messages)) = do
    spawn net (handle_advice_task response.advice)
    handle_messages net messages
    pure none

  unfoldable pub read_body : Result String → Go net (Option String)
  read_body (err e) = pure (some (stack_error "transport.read" e))
  read_body (ok body) = decode_response (net.decode_messages body) >>= read_reply

  unfoldable pub websocket_read : Go net (Option String)
  websocket_read = do
    t ← current_transport net
    body ← on_world net (transport_read net t)
    read_body body

  unfoldable pub read_again : Option String → Go net (Unit {0})
  read_again none = spawn net read_poll_task
  read_again (some _) = do
    t ← current_transport net
    on_world net (close net t)
    modify λ s. record s {
      subs = stop_all s.client.subscriptions s.subs;
      client = record s.client { state = unconnected };
    }

  unfoldable pub websocket_read_poll : Go net (Unit {0})
  websocket_read_poll = do e ← websocket_read; read_again e

  -- The ping is `{"type": "ping"}` on the subscription's channel.
  unfoldable pub ping_message : String → String → Message
  ping_message client_id channel = record (new_message client_id channel) {
    content = field "type" (str "ping") no_fields;
  }

  unfoldable pub websocket_ping : String → Go net (Option String)
  websocket_ping channel s =
      (do
        e ← send_only net (ping_message s.client.client_id channel)
        pure (Option.map (stack_error "sendOnly") e))
        s

  unfoldable pub stop_ping : ℕ → Go net (Unit {0})
  stop_ping i = modify λ s. record s { subs = set_polling false i s.subs }

  unfoldable pub ping_again : ℕ → Option String → Go net (Unit {0})
  ping_again i (some _) = stop_ping i
  ping_again i none = modify λ s. record s {
    world = net.sleep websocket_poll_interval s.world;
    spawned = s.spawned ++ ping_loop_task i ∷ [];
  }

  -- One round of the loop of `websocketPingPoll`.
  unfoldable pub ping_loop : ℕ → Go net (Unit {0})
  ping_loop i s =
      if is_connected s.client
      then (do
        sub ← subscription_at net i
        if sub.stop_polling
            then stop_ping i
            else (do e ← websocket_ping sub.channel; ping_again i e))
          s
      else stop_ping i s

  unfoldable pub websocket_ping_poll : ℕ → Go net (Unit {0})
  websocket_ping_poll i s = ping_loop i (record s { subs = set_polling true i s.subs })
