-- ===== src/Faye/Message/Wire/Tests.antt =====
-- A batch of messages that is written and read.
use matrix_groupme_bridge.Prelude.{
  ◌≡◌, refl, [], ◌∷◌, some, none, true, ok, itoa, parse_uint64, arith, parse_uint64-itoa,
}
use matrix_groupme_bridge.Prelude.Json.{str, arr, obj, no_fields, field}
use matrix_groupme_bridge.Prelude.Json.Struct.{write_all}
use matrix_groupme_bridge.Prelude.Json.Columns.{
  write_items, text_column, flag_column, texts_column, map_column, struct_column, numeric_column,
}
use matrix_groupme_bridge.Faye.Message.{Message, new_message}
use matrix_groupme_bridge.Faye.Message.Wire.{
  Floats, message_json, message_columns, advice_columns, ext_column, read_messages,
}
use matrix_groupme_bridge.Faye.Message.Wire.RoundTrip.{read_messages-message_json}

-- Times that are whole numbers below 2^64.
abbrev pub floats : Floats
floats = record { print = itoa; parse = parse_uint64 }

abbrev pub hello : Message
hello = record (new_message "abc" "/user/7") {
  id = "1";
  content = field "text" (str "hello") no_fields;
  ext = some no_fields;
}

abbrev pub retry : Message
retry = record (new_message "abc" "/meta/connect") {
  successful = true;
  advice = record { reconnect = "retry"; interval = 1000; timeout = 0 };
}

-- The JSON of the first message: what is empty is left out, but for the advice.
message_json-hello :
    message_json floats hello
    ≡ obj (
        field "id" (str "1") (
          field "channel" (str "/user/7") (
            field "clientId" (str "abc") (
              field "data"
                (obj (field "text" (str "hello") no_fields))
                (field "advice" (obj no_fields) no_fields)))))
unfolding message_json write_all message_columns advice_columns ext_column text_column flag_column
    texts_column map_column struct_column numeric_column new_message
message_json-hello = refl

read_messages-message_json_example :
    read_messages floats (arr (write_items (message_json floats) (hello ∷ retry ∷ [])))
    ≡ ok (some (record hello { ext = none }) ∷ some retry ∷ [])
unfolding new_message
read_messages-message_json_example = read_messages-message_json floats (hello ∷ retry ∷ []) (
  (parse_uint64-itoa 0 (omega arith), parse_uint64-itoa 0 (omega arith)),
  ((parse_uint64-itoa 1000 (omega arith), parse_uint64-itoa 0 (omega arith)), tt),
)
