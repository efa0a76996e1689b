-- ===== src/Faye/Tests.antt =====
-- A server that answers, and a client of it.
mod Handshakes
mod Subscriptions
mod Recovered
mod Received
use matrix_groupme_bridge.Prelude.{
  ℕ, ◌+◌, String, List, [], ◌∷◌, none, true, false, ok, err, if◌then◌else◌, eqb,
}
use matrix_groupme_bridge.Faye.Message.{Message, new_message}
use matrix_groupme_bridge.Faye.Transport.{
  Net, WebsocketTransport, websocket_type, long_polling, initial_transports,
}
use matrix_groupme_bridge.Faye.Client.{Sys, new_faye_client, FayeClient, Subscription, disconnected}
use matrix_groupme_bridge.Faye.Handshake.{handshake}
use matrix_groupme_bridge.Faye.Connect.{connect}

-- The reply to every request.
abbrev pub welcome : Message
welcome = record (new_message "abc" "/meta/handshake") {
  successful = true;
  supported_connection_types = long_polling ∷ [];
}

-- The world is the time. A request takes a second, and one that is made at the time 100 is
-- refused.
abbrev pub server : Net
server = record {
  World = ℕ;
  Conn = Unit {0};
  url_parses = λ _. true;
  marshal = λ m. ok m.channel;
  decode_messages = λ _. ok (welcome ∷ []);
  unix_now = λ w. (w, w);
  sleep = λ n w. w + n;
  post = λ _ _ w. (
    ok (record { status_code = if eqb w 100 then 503 else 200; status = "busy"; body = ok "[]" }),
    w + 1,
  );
  dial = λ _ w. (none, w);
  close_now = λ _ w. w;
  write_json = λ _ _ _ w. (none, w + 1);
  read_message = λ _ _ w. (err "closed", w + 1);
}

abbrev pub chat : Subscription
chat = record { channel = "/user/7"; msg_chan = 0; polling = false; stop_polling = false }

abbrev pub both : List String
both = websocket_type ∷ long_polling ∷ []

abbrev pub unused : WebsocketTransport server.Conn
unused = record { url = ""; connection = none; timeout_duration = 0 }

abbrev pub fresh_client : FayeClient
unfolding new_faye_client
fresh_client =
    new_faye_client "push" "/meta/handshake" "/meta/connect" "/meta/subscribe" "/meta/unsubscribe"

abbrev pub start : Sys server
start = record {
  client = record fresh_client { subscriptions = 0 ∷ [] };
  registered = initial_transports;
  subs = chat ∷ [];
  spawned = [];
  world = 0;
}

abbrev pub gone : Sys server
gone = record start { client = record start.client { state = disconnected } }
