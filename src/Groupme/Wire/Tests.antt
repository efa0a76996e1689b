-- ===== src/Groupme/Wire/Tests.antt =====
-- A server that answers with JSON.
use matrix_groupme_bridge.Prelude.{
  ◌≡◌, refl, ◌+◌, String, [], ◌∷◌, Option, none, some, Result, ok, err, ◌==◌, if◌then◌else◌, arith,
}
use matrix_groupme_bridge.Prelude.Json.{Json, null, arr, obj, field, no_fields}
use matrix_groupme_bridge.Prelude.Json.Struct.{write_all, same_folded}
use matrix_groupme_bridge.Prelude.Json.Columns.{write_items}
use matrix_groupme_bridge.Groupme.Types.{Meta, Message, reply, type_text}
use matrix_groupme_bridge.Groupme.Groups.{index_groups}
use matrix_groupme_bridge.Groupme.Messages.{create_message}
use matrix_groupme_bridge.Groupme.Http.{Http, Response, answer, error, api, read_response}
use matrix_groupme_bridge.Groupme.Tests.{server, client, picnic}
use matrix_groupme_bridge.Groupme.Wire.{group_columns, message_columns, attachment_type}
use matrix_groupme_bridge.Groupme.Types.Empty.{no_message, no_attachment}
use matrix_groupme_bridge.Groupme.Wire.Fits.{GroupFits, MessageFits}
use matrix_groupme_bridge.Groupme.Wire.Requests.{body_json}
use matrix_groupme_bridge.Groupme.Wire.Responses.{json_http, meta_columns}
use matrix_groupme_bridge.Groupme.Wire.Responses.Echoes.{
  response_json, index_groups-response_json, create_message-response_json,
}
use matrix_groupme_bridge.Groupme.Wire.Responses.Lost.{read_response-bad_status}

abbrev fine : Meta
fine = record { code = 200; errors = [] }

abbrev groups : Json
groups = arr (write_items (λ g. obj (write_all group_columns g)) (picnic ∷ []))

-- A reply to a message, which is about to be sent.
abbrev answering : Message
answering = record no_message {
  text = "yes";
  attachments = record no_attachment { type = reply; reply_id = "8" } ∷ [];
}

abbrev sent : Message
sent = record answering { source_guid = "0" }

abbrev sent_json : Json
sent_json = obj (field "message" (obj (write_all message_columns sent)) no_fields)

-- The texts that the server sends, and what they are parsed as.
abbrev parse : String → Result Json
parse text =
    if text == "groups"
    then ok (response_json groups fine)
    else if text == "sent"
    then ok (response_json sent_json fine)
    else err "invalid"

abbrev reply_of : String → Response
reply_of text = record { status_code = 200; body = ok text }

abbrev replying : String → Http
replying text = record server { perform = λ r w. (ok (reply_of text), w + 1) }

picnic-GroupFits : GroupFits picnic
picnic-GroupFits = record {
  created_at = omega arith;
  updated_at = omega arith;
  messages = record {
    count = omega arith;
    last_message_created_at = omega arith;
    attachments = tt;
  };
}

answering-MessageFits : MessageFits answering
unfolding attachment_type type_text
answering-MessageFits = record {
  created_at = omega arith;
  attachments = (record { named = refl; loci = tt; charmap = tt }, tt);
}

index_groups-response_json_example :
    index_groups (json_http parse (replying "groups")) client none 0 ≡ (answer (picnic ∷ []), 1)
index_groups-response_json_example =
    index_groups-response_json parse (replying "groups") client 0 {r = reply_of "groups"} fine
      (omega arith) refl (omega arith) none (picnic ∷ []) refl refl refl (picnic-GroupFits, tt)

create_message-response_json_example :
    create_message (json_http parse (replying "sent")) client "9" answering 0
    ≡ (answer (some sent), 1)
unfolding body_json
create_message-response_json_example =
    create_message-response_json parse (replying "sent") client 0 {r = reply_of "sent"} fine
      (omega arith) refl (omega arith) "9" answering "0" 0 refl refl refl sent_json refl refl
      answering-MessageFits

-- A refusal as GroupMe words it: the response is null.
abbrev unauthorized : Meta
unauthorized = record { code = 401; errors = "unauthorized" ∷ [] }

abbrev refusal : Json
refusal =
    obj (field "meta" (obj (write_all meta_columns unauthorized)) (field "response" null no_fields))

abbrev parse_refusal : String → Result Json
parse_refusal text = ok refusal

abbrev no_decoder : String → Result (Option Message)
no_decoder text = err text

read_response-bad_status_example :
    read_response
      (json_http parse_refusal server).decode_meta
      no_decoder
      (ok (record { status_code = 401; body = ok "{}" }))
    ≡ error (api (record { code = 401; errors = [] }))
unfolding same_folded
read_response-bad_status_example =
    read_response-bad_status parse_refusal server no_decoder
      (record { status_code = 401; body = ok "{}" }) "{}" unauthorized
      (field "response" null no_fields) (omega arith) refl refl (omega arith) refl
