-- ===== src/Faye/Tests/Subscriptions.antt =====
-- The theorems on subscriptions, messages, advice and polling at work.
use matrix_groupme_bridge.Prelude.{
  ℕ, ◌≡◌, refl, [], ◌∷◌, some, true, done, eq_iff, ◌<◌, ◌↔◌, ◌++◌, get_elem?, All,
}
use matrix_groupme_bridge.Faye.Message.{Message, Advice, new_message}
use matrix_groupme_bridge.Faye.Transport.{
  transport_read, close, initial_transports, Transport, websocket, select_transport, is_usable,
  contains, connection_type,
}
use matrix_groupme_bridge.Faye.Client.{
  Sys, new_faye_client, connected, unconnected, stack_error, handle_advice_task, deliver_task,
  run_incoming, current_transport, on_world,
}
use matrix_groupme_bridge.Faye.Connect.{
  handle_messages, find_subscription, handle_advice, handshake_advice,
}
use matrix_groupme_bridge.Faye.Connect.Advised.{advised, handle_advice_lem}
use matrix_groupme_bridge.Faye.Connect.Delivery.{handle_messages_first}
use matrix_groupme_bridge.Faye.Polling.{websocket_read, read_body, websocket_read_poll}
use matrix_groupme_bridge.Faye.Polling.Ended.{IsStopped, websocket_read_poll_ended}
use matrix_groupme_bridge.Faye.Subscribe.Waiting.{Fails, until_subscribed_iff}
use matrix_groupme_bridge.Faye.Transport.Selection.{select_transport_allowed}
use matrix_groupme_bridge.Prelude.Glob.{glob_match}
use matrix_groupme_bridge.Faye.Subscribe.{until_subscribed}
use matrix_groupme_bridge.Faye.Tests.{welcome, server, chat, both, unused, start}
use matrix_groupme_bridge.Faye.Tests.Handshakes.{connected_client}

-- A client that may ask for its subscription twice, and after the second time.
abbrev waiting : Sys server
waiting = record connected_client { spawned = []; world = 100 }

abbrev subscribed : Sys server
subscribed = record waiting {
  client = record waiting.client { message_id = 5 };
  spawned = handle_advice_task (welcome.advice) ∷ [];
  world = 103;
}

until_subscribed_iff_example :
    (until_subscribed server 2 0 waiting ≡ done tt subscribed)
    ↔ ((k : ℕ) × (k < 2) × Fails server 0 k waiting subscribed)
until_subscribed_iff_example = until_subscribed_iff server 0 2 waiting subscribed

-- A server that supports both kinds of transport cannot be dialled: the HTTP transport is taken.
select_transport_allowed_example :
    (t : Transport server.Conn) × (get_elem?
        (select_transport server "push" both initial_transports 0).1
        1
      ≡ some t)
    × (contains both (connection_type t) ≡ true)
unfolding select_transport is_usable contains connection_type initial_transports
select_transport_allowed_example =
    select_transport_allowed server "push" both initial_transports 0 1 refl

-- Messages to a channel without a subscription, and to one with a subscription.
abbrev stray : Message
stray = new_message "abc" "/group/9"

abbrev wanted : Message
wanted = new_message "abc" "/user/7"

handle_messages_first_example :
    handle_messages server ((stray ∷ []) ++ wanted ∷ wanted ∷ []) start
    ≡ done tt (record start {
      spawned = start.spawned ++ deliver_task 0 (run_incoming start.client.extns wanted) ∷ [];
    })
unfolding find_subscription glob_match run_incoming new_message new_faye_client
handle_messages_first_example =
    handle_messages_first server start (stray ∷ []) wanted (wanted ∷ []) chat (refl, tt) refl

abbrev again : Advice
again = record { reconnect = handshake_advice; interval = 5; timeout = 0 }

handle_advice_lem_example : handle_advice server again start ≡ done tt (advised server start again)
handle_advice_lem_example =
    handle_advice_lem server start again (λ e. cc ((eq_iff "handshake" "retry").1 e))

-- A client that reads a websocket, which is closed.
abbrev reading : Sys server
reading = record start {
  client = record start.client { state = connected; transport = some 0 };
  registered = websocket (record unused { connection = some tt }) ∷ [];
}

abbrev read_failed : Sys server
read_failed = record reading { world = 1 }

websocket_read_poll_ended_example :
    (u : Sys server) × (websocket_read_poll server reading ≡ done tt u)
    × (u.client.state ≡ unconnected)
    × (u.spawned ≡ read_failed.spawned)
    × (u.client.subscriptions ≡ read_failed.client.subscriptions)
    × All (λ i. IsStopped (get_elem? u.subs i)) read_failed.client.subscriptions
unfolding websocket_read read_body current_transport on_world transport_read close
websocket_read_poll_ended_example =
    websocket_read_poll_ended server reading read_failed read_failed
      (stack_error "transport.read" "closed") (websocket (record unused { connection = some tt }))
      refl refl refl
