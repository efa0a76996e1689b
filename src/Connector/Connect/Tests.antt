-- ===== src/Connector/Connect/Tests.antt =====
-- A new login that connects, and one without a token.
use matrix_groupme_bridge.Prelude.{
  ℕ, all_chars, eq_iff, ◌≢◌, false, ◌≡◌, refl, String, [], ◌∷◌, ◌++◌, none, some, false, ok, done,
  ◌⊎◌, arith, Outcome, length,
}
use matrix_groupme_bridge.Prelude.Json.{insert, get_field, set_field}
use matrix_groupme_bridge.Faye.Message.{new_message, no_advice, decode_response, ext_of}
use matrix_groupme_bridge.Faye.Transport.{
  initial_transports, select_transport, is_usable, contains, connection_type, set_url,
  set_timeout_seconds, transport_send,
}
use matrix_groupme_bridge.Faye.Client.{
  Sys, add_extension, new_faye_client, send, setup_send, send_prepared, prepared, addressed,
  run_outgoing, run_incoming, received, shown, current_transport, on_world,
}
use matrix_groupme_bridge.Faye.Handshake.{
  handshake, wait_first, select, begin, until_greeted, greeted, adopt, renew_subscriptions,
  handshake_with, handshake_message, is_disconnected, update_at, sleep_for, handshake_and_connect,
  after_handshake, after_connect, start_reading,
}
use matrix_groupme_bridge.Faye.Connect.{connect_as, connect_reply}
use matrix_groupme_bridge.Faye.Connect as Polls
use matrix_groupme_bridge.Faye.Subscribe.{request_subscription, subscription_at, subscribe_reply}
use matrix_groupme_bridge.Faye.Subscribe.Waiting.{Fails}
use matrix_groupme_bridge.Faye.Tests.{server, start}
use matrix_groupme_bridge.Groupme.Http.{
  answer, new_client, call, with_auth_token, method_header, read_response, decode_body, new_request,
}
use matrix_groupme_bridge.Groupme.Groups.{my_user}
use matrix_groupme_bridge.Groupme.Tests
use matrix_groupme_bridge.Realtime.Push.{
  subscribe_with_prefix, user_channel, new_push_client, auth_ext, auth_out, log_ext, is_text,
}
use matrix_groupme_bridge.Connector.Events.{Env}
use matrix_groupme_bridge.Connector.Connect.{
  Session, connect, connect_with, after_user, take_user, after_setup, after_subscribe,
}
use matrix_groupme_bridge.Connector.Connect.Delivers.{connect_delivers}
use matrix_groupme_bridge.Realtime.Setup.{
  setup, start_loops, subscribe_to_user, subscribe_channel_of, forward,
}
use matrix_groupme_bridge.Realtime.Loop.{add_handler}
use matrix_groupme_bridge.Faye.Connect.{handle_messages}
use matrix_groupme_bridge.Faye.Client.{deliver_task}
use matrix_groupme_bridge.Faye.Message.{Message}
use matrix_groupme_bridge.Groupme.Ids.{id_valid, is_alphanumeric, is_digit}
use matrix_groupme_bridge.Faye.Subscribe.{wait_subscribe, until_subscribed, append_subscription}
use matrix_groupme_bridge.Connector.Connect.Reports.{IsListening, IsReported, connect_reports}
use matrix_groupme_bridge.Connector.Connect.Listens.{added, connect_listens}

-- GroupMe answers with the user 7.
abbrev env : Env
env = record {
  http = record Tests.server { decode_user = λ _. ok (Tests.user "7" 0) };
  url_path = λ url. some url;
  now = λ w. (w, w);
}

abbrev fresh : String → Session env server
fresh token = record {
  self = 1;
  client = record { user_login_id = ""; auth_token = token; user_id = ""; client = none };
  push = record {
    subscription = record {
      handlers = [];
      connection_timeout = 0;
      timeout_minutes = 3;
      calls = [];
      now = λ n. n;
      readings = 0;
    };
    started = false;
    faye = record start { subs = [] };
    loops = 0;
    forwarded = [];
  };
  states = [];
  world = 0;
}

got_user : my_user env.http (new_client "secret") 0 ≡ (answer (Tests.user "7" 0), 1)
unfolding my_user call with_auth_token method_header read_response decode_body new_request insert
got_user = refl

abbrev left_by : {A : Type 0} → Outcome (Sys server) A → Sys server
left_by (done _ s) = s
left_by _ = start

abbrev online : Sys server
online = left_by (
    handshake_and_connect server 1
      (record (fresh "secret").push.faye { client = new_push_client "secret"; spawned = [] }))

went_online :
    handshake_and_connect server 1
      (record (fresh "secret").push.faye { client = new_push_client "secret"; spawned = [] })
    ≡ done none online
unfolding handshake_and_connect after_handshake after_connect start_reading Polls.connect connect_as
    connect_reply handshake wait_first select begin until_greeted greeted adopt renew_subscriptions
    handshake_with handshake_message is_disconnected update_at select_transport is_usable contains
    connection_type set_url set_timeout_seconds send setup_send send_prepared prepared addressed
    run_outgoing run_incoming received shown current_transport on_world transport_send
    decode_response sleep_for new_message new_faye_client initial_transports no_advice
    new_push_client add_extension auth_ext auth_out log_ext is_text ext_of get_field set_field
went_online = refl

abbrev asking : Sys server
asking = record online { subs = online.subs ++ added (fresh "secret").push (Tests.user "7" 0) ∷ [] }

abbrev granted : Sys server
granted = left_by (request_subscription server (length online.subs) asking)

accepted : Fails server (length online.subs) 0 asking granted
unfolding handshake_and_connect after_handshake after_connect start_reading Polls.connect connect_as
    connect_reply handshake wait_first select begin until_greeted greeted adopt renew_subscriptions
    handshake_with handshake_message is_disconnected update_at select_transport is_usable contains
    connection_type set_url set_timeout_seconds send setup_send send_prepared prepared addressed
    run_outgoing run_incoming received shown current_transport on_world transport_send
    decode_response sleep_for new_message new_faye_client initial_transports no_advice
    new_push_client add_extension auth_ext auth_out log_ext is_text ext_of get_field set_field
    request_subscription subscription_at subscribe_reply
accepted = Fails.succeeds refl

connect_listens_example :
    (t : Session env server) × (connect env server 1 (fresh "secret") ≡ done tt t)
    × IsListening env server (fresh "secret") t
connect_listens_example =
    connect_listens env server 1 (fresh "secret") (Tests.user "7" 0) 1 online granted refl got_user
      went_online accepted (omega arith)

abbrev session_left_by : Outcome (Session env server) (Unit {0}) → Session env server
session_left_by (done _ s) = s
session_left_by _ = fresh ""

abbrev listening : Session env server
listening = session_left_by (connect env server 1 (fresh "secret"))

connected_run :
    (connect env server 1 (fresh "secret") ≡ done tt listening)
    × (listening.states ≡ [])
    × (listening.client.user_id ≡ "7")
unfolding connect connect_with after_user take_user setup start_loops after_setup after_subscribe
    subscribe_to_user subscribe_channel_of forward subscribe_with_prefix wait_subscribe
    until_subscribed append_subscription add_handler new_client my_user call with_auth_token
    method_header read_response decode_body new_request insert handshake_and_connect after_handshake
    after_connect start_reading Polls.connect connect_as connect_reply handshake wait_first select
    begin until_greeted greeted adopt renew_subscriptions handshake_with handshake_message
    is_disconnected update_at select_transport is_usable contains connection_type set_url
    set_timeout_seconds send setup_send send_prepared prepared addressed run_outgoing run_incoming
    received shown current_transport on_world transport_send decode_response sleep_for new_message
    new_faye_client initial_transports no_advice new_push_client add_extension auth_ext auth_out
    log_ext is_text ext_of get_field set_field request_subscription subscription_at subscribe_reply
connected_run = (refl, refl, refl)

connect_reports_example :
    IsListening env server (fresh "secret") listening
    ⊎ IsReported env server (fresh "secret") listening
connect_reports_example = connect_reports env server 1 (fresh "secret") listening connected_run.0

-- A message for another user, and one for the user.
abbrev for_user : Message
for_user = new_message "" "/user/7"

abbrev for_other : Message
for_other = new_message "" "/user/8"

elsewhere : for_other.channel ≢ user_channel "7"
unfolding new_message user_channel
elsewhere e = absurd (cc ((eq_iff "/user/8" "/user/7").1 e))

connect_delivers_example :
    (c : ℕ) × (listening.push.forwarded ≡ [] ++ c ∷ [])
    × (handle_messages server ((for_other ∷ []) ++ for_user ∷ []) listening.push.faye
        ≡ done tt (record listening.push.faye {
          spawned = listening.push.faye.spawned ++ deliver_task c for_user ∷ [];
        }))
unfolding user_channel id_valid is_alphanumeric is_digit all_chars new_message
connect_delivers_example =
    connect_delivers env server 1 (fresh "secret") listening (for_other ∷ []) for_user []
      connected_run.0 connected_run.1 (rw connected_run.2 refl)
      ((λ e. elsewhere (rw connected_run.2 at e)), tt) (rw connected_run.2 refl)
