-- ===== src/Faye/Tests/Handshakes.antt =====
-- The theorems on handshakes and goroutines at work.
use matrix_groupme_bridge.Prelude.{◌+◌, ◌≡◌, refl, [], ◌∷◌, none, some, ok, err, done, ◌>>=◌, arith}
use matrix_groupme_bridge.Faye.Message.{Message, new_message, no_advice, decode_response}
use matrix_groupme_bridge.Faye.Transport.{
  Net, mandatory_connection_types, Transport, initial_transports, http, websocket, select_transport,
  is_usable, contains, connection_type, set_url, set_timeout_seconds, transport_send,
}
use matrix_groupme_bridge.Faye.Client.{
  Sys, new_faye_client, connected, connecting, unconnected, stack_error, resubscribe_task,
  handle_advice_task, handle_messages_task, send, setup_send, send_prepared, prepared, addressed,
  run_outgoing, run_incoming, received, shown, current_transport, on_world,
}
use matrix_groupme_bridge.Faye.Handshake.{
  handshake, wait_first, select, begin, until_greeted, greeted, adopt, renew_subscriptions,
  handshake_with, handshake_message, is_disconnected, update_at, sleep_for, handshake_and_connect,
  after_handshake, after_connect, start_reading,
}
use matrix_groupme_bridge.Faye.Connect.{connect, connect_as, connect_reply}
use matrix_groupme_bridge.Faye.Handshake.Greeting.{Greets, taken, handshake_succeeds}
use matrix_groupme_bridge.Faye.Handshake.Success.{IsGreeted}
use matrix_groupme_bridge.Faye.Handshake.Wait.{handshake_waits}
use matrix_groupme_bridge.Faye.Tasks.{Step, Reach, run_task, take_task}
use matrix_groupme_bridge.Faye.Tasks.Pointers.{IsValid}
use matrix_groupme_bridge.Faye.Tasks.Online.{Reach-current_transport}
use matrix_groupme_bridge.Faye.Subscribe.{
  resubscribe_all, fork_all, set_stop_polling, request_subscription, until_subscribed,
  append_subscription, resubscribe, subscription_at, subscribe_reply,
}
use matrix_groupme_bridge.Faye.Tests.{welcome, server, unused, fresh_client, start}

-- The client after a handshake with that server: its subscription waits to be made again.
abbrev pub greeted_client : Sys server
greeted_client = record start {
  client = record fresh_client {
    state = connected;
    transport = some 1;
    client_id = "abc";
    message_id = 2;
  };
  registered =
      websocket (record { url = ""; connection = none; timeout_duration = 0 })
      ∷ http "https://push"
      ∷ [];
  spawned = resubscribe_task 0 ∷ [];
  world = 1;
}

handshake_run : handshake server 1 start ≡ done none greeted_client
unfolding handshake wait_first select begin until_greeted greeted adopt renew_subscriptions
    handshake_with handshake_message is_disconnected update_at select_transport is_usable contains
    connection_type set_url set_timeout_seconds send setup_send send_prepared prepared addressed
    run_outgoing run_incoming received shown current_transport on_world transport_send
    decode_response resubscribe_all fork_all set_stop_polling sleep_for new_message new_faye_client
    initial_transports no_advice
handshake_run = refl

-- A handshake of which the first message is refused.
abbrev late_start : Sys server
late_start = record start { world = 100 }

abbrev begun : Sys server
begun = record late_start {
  client = record late_start.client { transport = some 1; state = connecting };
  registered = websocket unused ∷ http "https://push" ∷ [];
}

abbrev refused : Sys server
refused = record begun { client = record begun.client { message_id = 2 }; world = 101 }

abbrev retrying : Sys server
retrying = record refused { client = record refused.client { state = unconnected }; world = 111 }

abbrev replied : Sys server
replied = record retrying { client = record retrying.client { message_id = 3 }; world = 112 }

first_greeting :
    send server (handshake_message begun.client) begun
    ≡ done (err (stack_error "transport.send" "busy")) refused
unfolding handshake wait_first select begin until_greeted greeted adopt renew_subscriptions
    handshake_with handshake_message is_disconnected update_at select_transport is_usable contains
    connection_type set_url set_timeout_seconds send setup_send send_prepared prepared addressed
    run_outgoing run_incoming received shown current_transport on_world transport_send
    decode_response resubscribe_all fork_all set_stop_polling sleep_for new_message new_faye_client
    initial_transports no_advice
first_greeting = refl

second_greeting :
    send server (handshake_message retrying.client) retrying
    ≡ done (ok (welcome, welcome ∷ [])) replied
unfolding handshake wait_first select begin until_greeted greeted adopt renew_subscriptions
    handshake_with handshake_message is_disconnected update_at select_transport is_usable contains
    connection_type set_url set_timeout_seconds send setup_send send_prepared prepared addressed
    run_outgoing run_incoming received shown current_transport on_world transport_send
    decode_response resubscribe_all fork_all set_stop_polling sleep_for new_message new_faye_client
    initial_transports no_advice
second_greeting = refl

handshake_succeeds_example :
    (u : Sys server) × (handshake server 2 late_start ≡ done none u) × IsGreeted server welcome u
unfolding wait_first select begin is_disconnected update_at select_transport is_usable contains
    connection_type set_url new_message new_faye_client initial_transports
handshake_succeeds_example =
    handshake_succeeds server 2 1 1 welcome late_start late_start late_start begun
      (taken server welcome replied) refl refl refl refl {answer = replied}
      (Greets.unanswered _ first_greeting (Greets.answered second_greeting)) (omega arith) refl

-- After the connection the reply's advice and messages wait to be handled.
abbrev pub connected_client : Sys server
connected_client = record greeted_client {
  client = record greeted_client.client { message_id = 3 };
  spawned =
      resubscribe_task 0
      ∷ handle_advice_task (welcome.advice)
      ∷ handle_messages_task (welcome ∷ [])
      ∷ [];
  world = 2;
}

connect_run : handshake_and_connect server 1 start ≡ done none connected_client
unfolding handshake_and_connect after_handshake after_connect start_reading connect connect_as
    connect_reply handshake wait_first select begin until_greeted greeted adopt renew_subscriptions
    handshake_with handshake_message is_disconnected update_at select_transport is_usable contains
    connection_type set_url set_timeout_seconds send setup_send send_prepared prepared addressed
    run_outgoing run_incoming received shown current_transport on_world transport_send
    decode_response resubscribe_all fork_all set_stop_polling sleep_for new_message new_faye_client
    initial_transports no_advice
connect_run = refl

abbrev resubscribed_client : Sys server
resubscribed_client = record connected_client {
  client = record connected_client.client { message_id = 4; subscriptions = 0 ∷ [] };
  spawned =
      handle_advice_task (welcome.advice)
      ∷ handle_messages_task (welcome ∷ [])
      ∷ handle_advice_task (welcome.advice)
      ∷ [];
  world = 3;
}

resubscribe_run :
    run_task server 1 (resubscribe_task 0) (record connected_client {
      spawned = handle_advice_task (welcome.advice) ∷ handle_messages_task (welcome ∷ []) ∷ [];
    })
    ≡ done tt resubscribed_client
unfolding run_task resubscribe until_subscribed append_subscription request_subscription
    subscription_at subscribe_reply handshake wait_first select begin until_greeted greeted adopt
    renew_subscriptions handshake_with handshake_message is_disconnected update_at select_transport
    is_usable contains connection_type set_url set_timeout_seconds send setup_send send_prepared
    prepared addressed run_outgoing run_incoming received shown current_transport on_world
    transport_send decode_response resubscribe_all fork_all set_stop_polling sleep_for new_message
    new_faye_client initial_transports no_advice
resubscribe_run = refl

start-IsValid : IsValid start
unfolding initial_transports fresh_client
start-IsValid = record { transport = tt; subscriptions = (omega arith, tt); tasks = tt }

-- A connection, and the goroutine of the subscription that waits to be made again.
resubscribed : Reach server start resubscribed_client
unfolding take_task
resubscribed =
    Reach.next (Reach.next Reach.here (Step.call_connect 1 none connect_run))
      (Step.task 1 0 (resubscribe_task 0) _ refl resubscribe_run)

-- The connected client has its transport, the HTTP one.
Reach-current_transport_example :
    (t : Transport Unit) × (current_transport server resubscribed_client
      ≡ done t resubscribed_client)
unfolding new_faye_client
Reach-current_transport_example =
    Reach-current_transport server resubscribed start-IsValid (λ e. cc e) refl

-- Two messages of one client.
abbrev hello : Message
hello = new_message "" "/user/7"

abbrev first_hello : Message
first_hello = record hello { id = "1" }

abbrev second_hello : Message
second_hello = record hello { id = "2" }

abbrev greeted_twice : Sys server
greeted_twice = record start { client = record start.client { message_id = 3 } }

-- A server whose clock runs on by seven seconds when it is read, and a client that is to wait until 10.
abbrev late_server : Net
late_server = record server { unix_now = λ w. (w, w + 7) }

abbrev early : Sys late_server
early = record {
  client = record fresh_client { next_handshake = 10 };
  registered = initial_transports;
  subs = [];
  spawned = [];
  world = 5;
}

handshake_waits_example :
    handshake late_server 1 early
    ≡ (select late_server mandatory_connection_types >>= handshake_with late_server 1)
        (record early { world = 21 })
unfolding is_disconnected new_faye_client
handshake_waits_example =
    handshake_waits late_server early refl refl (omega arith) (omega arith) (omega arith) 1 refl
