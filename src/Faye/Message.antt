-- ===== src/Faye/Message.antt =====
-- Bayeux messages and their decoding: pkg/faye/response.go.
pub mod Wire
use matrix_groupme_bridge.Prelude.{
  ℕ, String, List, [], ◌∷◌, Option, none, some, Bool, false, not, ◌==◌, Result, ok, err, Run, pure,
  panic, index_out_of_range,
}
use matrix_groupme_bridge.Prelude.Json.{Fields, no_fields}

-- `advice`; the interval is in whole milliseconds, the timeout too.
pub record Advice : Type 0 where
  pub reconnect : String
  pub interval : ℕ
  pub timeout : ℕ

-- `message`. A nil `Data` reads as the empty map; a nil `Ext` is `none`, for `Ext()` makes the map.
pub record Message : Type 0 where
  pub id : String
  pub channel : String
  pub successful : Bool
  pub client_id : String
  pub supported_connection_types : List String
  pub content : Fields
  pub advice : Advice
  pub error : String
  pub ext : Option Fields
  pub connection_type : String
  pub subscription : String
  pub version : String

unfoldable pub no_advice : Advice
no_advice = record { reconnect = ""; interval = 0; timeout = 0 }

-- `NewMessage`
unfoldable pub new_message : String → String → Message
unfolding no_advice
new_message client_id channel = record {
  id = "";
  channel = channel;
  successful = false;
  client_id = client_id;
  supported_connection_types = [];
  content = no_fields;
  advice = no_advice;
  error = "";
  ext = none;
  connection_type = "";
  subscription = "";
  version = "";
}

-- `msgWrapper.Ext`: makes the map where it is nil, and returns it with the message that holds it.
unfoldable pub ext_of : Message → Message × Fields
ext_of msg = elim msg.ext [
  | none ↦ (record msg { ext = some no_fields }, no_fields)
  | some fields ↦ (msg, fields)
]

-- `msgWrapper.OK`, `HasError` and `SetError`
abbrev pub is_ok : Message → Bool
is_ok msg = msg.successful

abbrev pub has_error : Message → Bool
has_error msg = not (msg.error == "")

abbrev pub set_error : String → Message → Message
set_error text msg = record msg { error = text }

-- `decodeResponse`, given what the JSON decoder made of the body: the first message is the response,
-- and an empty array is read out of bounds.
unfoldable pub decode_response :
    {S : Type 0} → Result (List Message) → Run S (Result (Message × List Message))
decode_response (err e) = pure (err e)
decode_response (ok []) = panic index_out_of_range
decode_response (ok (first ∷ rest)) = pure (ok (first, first ∷ rest))
