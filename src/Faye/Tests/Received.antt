-- ===== src/Faye/Tests/Received.antt =====
-- A websocket that brings a batch of messages.
use matrix_groupme_bridge.Prelude.{
  ℕ, ◌+◌, ◌==◌, ◌≡◌, refl, String, List, [], ◌∷◌, map, Option, none, some, Result, ok, err, done,
  arith, if◌then◌else◌, parse_uint64-itoa,
}
use matrix_groupme_bridge.Prelude.Json.{Json, arr}
use matrix_groupme_bridge.Prelude.Json.Columns.{write_items}
use matrix_groupme_bridge.Prelude.Glob.{glob_match}
use matrix_groupme_bridge.Faye.Message.{Message, new_message}
use matrix_groupme_bridge.Faye.Message.Wire.{message_json, read_messages}
use matrix_groupme_bridge.Faye.Message.Wire.Tests.{floats, hello, retry}
use matrix_groupme_bridge.Faye.Transport.{Net, transport_read, websocket}
use matrix_groupme_bridge.Faye.Client.{
  Sys, connected, current_transport, on_world, run_incoming, new_faye_client,
}
use matrix_groupme_bridge.Faye.Connect.{find_subscription}
use matrix_groupme_bridge.Faye.Polling.{websocket_read}
use matrix_groupme_bridge.Faye.Polling.Received.{Decodes, started, websocket_read-message_json}
use matrix_groupme_bridge.Faye.Tests.{server, chat, unused, fresh_client}

-- The messages of an array without null.
present : List (Option Message) → Result (List Message)
present [] = ok []
present (none ∷ ms) = err "null"
present (some m ∷ ms) = elim (present ms) [ err e ↦ err e | ok rest ↦ ok (m ∷ rest) ]

present-some : (ms : List Message) → present (map some ms) ≡ ok ms
unfolding present
present-some [] = refl
present-some (m ∷ ms) = rw (present-some ms, present) refl

parsed_messages : Result (List (Option Message)) → Result (List Message)
parsed_messages (err e) = err e
parsed_messages (ok ms) = present ms

decoded : Result Json → Result (List Message)
decoded (err e) = err e
decoded (ok j) = parsed_messages (read_messages floats j)

-- There is one text.
parse : String → Result Json
parse text =
    if text == "batch"
    then ok (arr (write_items (message_json floats) (retry ∷ hello ∷ [])))
    else err "text"

abbrev pushing : Net
pushing = record {
  World = ℕ;
  Conn = Unit {0};
  url_parses = server.url_parses;
  marshal = server.marshal;
  decode_messages = λ text. decoded (parse text);
  unix_now = server.unix_now;
  sleep = server.sleep;
  post = server.post;
  dial = λ _ w. (none, w);
  close_now = λ _ w. w;
  write_json = λ _ _ _ w. (none, w + 1);
  read_message = λ _ _ w. (ok "batch", w + 1);
}

pushing-Decodes : Decodes floats parse pushing
unfolding Decodes decoded parsed_messages
pushing-Decodes text j ms parses reads = rw (parses, reads) (present-some ms)

abbrev listening : Sys pushing
listening = record {
  client = record fresh_client { subscriptions = 0 ∷ []; state = connected; transport = some 0 };
  registered = websocket (record unused { connection = some tt }) ∷ [];
  subs = chat ∷ [];
  spawned = [];
  world = 0;
}

websocket_read-message_json_example :
    websocket_read pushing listening
    ≡ done none (
        started pushing
          (record listening { world = 1 })
          (retry ∷ [])
          (record hello { ext = none })
          chat)
unfolding parse find_subscription glob_match run_incoming new_faye_client new_message
    current_transport on_world transport_read
websocket_read-message_json_example =
    websocket_read-message_json pushing floats parse
      (websocket (record unused { connection = some tt })) listening
      (record listening { world = 1 }) "batch" (retry ∷ hello ∷ []) (retry ∷ [])
      (record hello { ext = none }) [] chat pushing-Decodes
      (
        (parse_uint64-itoa 1000 (omega arith), parse_uint64-itoa 0 (omega arith)),
        ((parse_uint64-itoa 0 (omega arith), parse_uint64-itoa 0 (omega arith)), tt),
      )
      refl refl refl refl (refl, tt) refl
