-- ===== src/Realtime/Decoded/Pushed.antt =====
-- The calls that pushed messages make, from their JSON.
use matrix_groupme_bridge.Prelude.{
  ℕ, ◌<◌, ◌≡◌, ◌^◌, refl, ap, ◌∙◌, String, List, [], Option, none, some, true, false, ◌==◌,
  if◌then◌else◌, itoa64, parse_int64, parse_int64-itoa64,
}
use matrix_groupme_bridge.Prelude.Json.{Json, null, str, num, arr, obj, no_fields, field}
use matrix_groupme_bridge.Prelude.Json.Struct.{
  fill, fill_skip, AllMissed, missed-AllMissed, write_all, find, resolve, same_folded, first_error,
  read_value, then_also,
}
use matrix_groupme_bridge.Prelude.Json.Columns.{
  kept_text, read_text, read_struct, struct_column, structs_column, text_column, flag_column,
  number_column, numeric_column, texts_column, write_items,
}
use matrix_groupme_bridge.Prelude.Json.Laws.{read_list-structs, read_number-num}
use matrix_groupme_bridge.Prelude.Json.Floats.{remade, remade_fields, Kept}
use matrix_groupme_bridge.Prelude.Json.Floats.Moves.{fill-remade_missed}
use matrix_groupme_bridge.Realtime.Decoded.Received.{
  received, message-received, received-Kept, MessageKept, members_json-same,
}
use matrix_groupme_bridge.Groupme.Types.{Message, Member}
use matrix_groupme_bridge.Groupme.Wire.{message_columns, member_columns}
use matrix_groupme_bridge.Groupme.Types.Empty.{no_message, no_member}
use matrix_groupme_bridge.Groupme.Wire.Fits.{MessageFits}
use matrix_groupme_bridge.Groupme.Wire.RoundTrip.{members-Read}
use matrix_groupme_bridge.Realtime.Calls.{
  Call, text_message, members, new_nickname, created_call, system_call,
}
use matrix_groupme_bridge.Realtime.Decoded.{
  json_codec, unmarshalled, system_columns, event_columns, added_columns, name_columns,
  user_columns, id_columns,
}

-- The JSON of a message, and of a system message with its event in front.
abbrev pub message_json : Message → Json
message_json m = obj (write_all message_columns m)

abbrev pub event_json : String → Json → Json
event_json kind raw = obj (field "type" (str kind) (field "data" raw no_fields))

abbrev pub system_json : Message → String → Json → Json
system_json m kind raw = obj (field "event" (event_json kind raw) (write_all message_columns m))

-- The group or the chat that a system message is about.
abbrev pub subject_of : Message → String
subject_of m = if m.group_id == "" then m.chat_id else m.group_id

abbrev pub added_json : List Member → Json
added_json ms =
    obj
      (field "added_users" (arr (write_items (λ v. obj (write_all member_columns v)) ms)) no_fields)

abbrev pub nickname_json : ℕ → String → Json
nickname_json user name = obj (
    field "user" (obj (field "id" (num (itoa64 user)) no_fields))
      (field "name" (str name) no_fields))

event_misses : resolve "event" message_columns ≡ none
unfolding resolve find same_folded message_columns text_column flag_column number_column
    numeric_column texts_column structs_column
event_misses = refl

message_misses : AllMissed system_columns message_columns
unfolding resolve find same_folded message_columns text_column flag_column number_column
    numeric_column texts_column structs_column system_columns struct_column
message_misses = missed-AllMissed system_columns message_columns refl

event_reads :
    (kind : String) (raw : Json)
    → read_value (resolve "event" system_columns) (event_json kind raw) ("", null)
      ≡ ((kind, raw), none)
unfolding fill resolve find same_folded read_value first_error system_columns event_columns
    struct_column kept_text read_struct read_text
event_reads kind raw = refl

added_reads : (ms : List Member) → unmarshalled added_columns [] (added_json ms) ≡ ms
unfolding unmarshalled read_struct fill resolve find same_folded read_value first_error
    added_columns structs_column
added_reads ms = ap (λ p. p.0) (read_list-structs member_columns no_member ms [] (members-Read ms))

user-Reads :
    (user : ℕ) (name : String)
    → user < 2 ^ 64
    → unmarshalled user_columns 0 (nickname_json user name) ≡ user
unfolding unmarshalled read_struct fill resolve find same_folded read_value first_error user_columns
    id_columns struct_column
user-Reads user name small =
    ap (λ p. p.0)
      (read_number-num parse_int64 "int" (itoa64 user) user 0 (parse_int64-itoa64 user small))

name_reads :
    (user : ℕ) (name : String) → unmarshalled name_columns "" (nickname_json user name) ≡ name
unfolding unmarshalled read_struct fill resolve find same_folded read_value first_error name_columns
    kept_text read_text
name_reads user name = refl

module _ (reprint : String → String) where
  to_message-message_json :
      (m : Message)
      → unmarshalled message_columns no_message (remade reprint (message_json m))
        ≡ received reprint m
  unfolding unmarshalled remade read_struct
  to_message-message_json m = message-received reprint m

  to_message-system_json :
      (m : Message) (kind : String) (raw : Json)
      → unmarshalled message_columns no_message (remade reprint (system_json m kind raw))
        ≡ received reprint m
  unfolding unmarshalled remade read_struct
  to_message-system_json m kind raw =
      ap (λ p. p.0)
        (fill_skip message_columns "event" (remade reprint (event_json kind raw))
          (remade_fields reprint (write_all message_columns m)) no_message event_misses)
      ∙ message-received reprint m

  to_event-system_json :
      (m : Message) (kind : String) (raw : Json)
      → unmarshalled system_columns ("", null) (remade reprint (system_json m kind raw))
        ≡ (kind, remade reprint raw)
  unfolding unmarshalled read_struct fill remade
  to_event-system_json m kind raw =
      ap (λ p. p.0)
        (ap
            (λ p.
              then_also p
                (fill system_columns (remade_fields reprint (write_all message_columns m))))
            (event_reads kind (remade reprint raw))
          ∙ fill-remade_missed reprint system_columns message_columns m (kind, remade reprint raw)
              message_misses)

  -- A pushed message that does not come from the system and is the JSON of a message whose numbers 64 bits
  -- hold and float64 keeps and whose attachments have types by their names is handed to the text
  -- handlers as that message, with the chat as its conversation.
  pub created_call-message_json :
      (m : Message)
      → MessageFits m
      → MessageKept reprint m
      → m.user_id == "system" ≡ false
      → created_call (json_codec reprint) (message_json m)
        ≡ some (text_message (record m { conversation_id = m.chat_id }))
  unfolding created_call json_codec
  created_call-message_json m fits kept user =
      rw (to_message-message_json m ∙ received-Kept reprint m fits kept, user) refl

  created_call-system_json :
      (m : Message) (kind : String) (raw : Json)
      → m.user_id == "system" ≡ true
      → created_call (json_codec reprint) (system_json m kind raw)
        ≡ system_call (json_codec reprint) kind (subject_of m) (remade reprint raw)
  unfolding created_call json_codec
  created_call-system_json m kind raw user =
      rw (to_message-system_json m kind raw, to_event-system_json m kind raw, user) refl

  added_json-same : (ms : List Member) → remade reprint (added_json ms) ≡ added_json ms
  unfolding remade
  added_json-same ms =
      ap (λ j. obj (field "added_users" j no_fields)) (members_json-same reprint ms)

  -- A pushed message of the system, which is about a group or a chat and has the event that some members were
  -- added, as their JSON: the handlers of members are called with that group or chat and just these members,
  -- in order, as added, whatever becomes of the numbers in the message.
  pub created_call-added :
      (m : Message) (ms : List Member)
      → m.user_id == "system" ≡ true
      → created_call
          (json_codec reprint)
          (system_json m "membership.announce.added" (added_json ms))
        ≡ some (members (subject_of m) ms true)
  unfolding system_call json_codec
  created_call-added m ms user =
      created_call-system_json m _ _ user
      ∙ ap
          (λ j.
            some (members (subject_of m) (unmarshalled added_columns [] (remade reprint j)) true))
          (added_json-same ms)
      ∙ ap (λ j. some (members (subject_of m) (unmarshalled added_columns [] j) true))
          (added_json-same ms)
      ∙ ap (λ xs. some (members (subject_of m) xs true)) (added_reads ms)

  nickname_json-same :
      (user : ℕ) (name : String)
      → Kept reprint (itoa64 user)
      → remade reprint (nickname_json user name) ≡ nickname_json user name
  unfolding remade
  nickname_json-same user name kept =
      ap
        (λ l.
          obj
            (field "user" (obj (field "id" (num l) no_fields)) (field "name" (str name) no_fields)))
        kept

  -- A pushed message of the system, which is about a group or a chat and has the event that a user whose
  -- number 64 bits hold and float64 keeps took a nickname: the handlers of nicknames are called with that
  -- group or chat, the user's number as a text and the nickname.
  pub created_call-nickname :
      (m : Message) (user : ℕ) (name : String)
      → m.user_id == "system" ≡ true
      → user < 2 ^ 64
      → Kept reprint (itoa64 user)
      → created_call
          (json_codec reprint)
          (system_json m "membership.nickname_changed" (nickname_json user name))
        ≡ some (new_nickname (subject_of m) (itoa64 user) name)
  unfolding system_call json_codec
  created_call-nickname m user name system small kept =
      created_call-system_json m _ _ system
      ∙ ap made_of (
          ap (remade reprint) (nickname_json-same user name kept)
          ∙ nickname_json-same user name kept)
      ∙ ap (λ n. told n (unmarshalled name_columns "" (nickname_json user name)))
          (user-Reads user name small)
      ∙ ap (told user) (name_reads user name)
    where
      told : ℕ → String → Option Call
      told n t = some (new_nickname (subject_of m) (itoa64 n) t)

      made_of : Json → Option Call
      made_of j = told (unmarshalled user_columns 0 j) (unmarshalled name_columns "" j)
