-- ===== src/Realtime/Decoded.antt =====
-- What the handlers of pkg/groupmerealtime/real_time_handlers.go decode of real-time data: their structs, of
-- which the fields without a tag have their names as tags. An error leaves what could be decoded.
pub mod Received
pub mod Pushed
pub mod Tests
use matrix_groupme_bridge.Prelude.{
  ℕ, String, List, [], ◌∷◌, Option, none, some, itoa64, parse_int64,
}
use matrix_groupme_bridge.Prelude.Json.{Json, null, num, obj}
use matrix_groupme_bridge.Prelude.Json.Struct.{Column}
use matrix_groupme_bridge.Prelude.Json.Columns.{
  kept, kept_text, read_number, read_struct, struct_column, structs_column,
}
use matrix_groupme_bridge.Prelude.Json.Floats.{remade}
use matrix_groupme_bridge.Groupme.Types.{Message, Member}
use matrix_groupme_bridge.Groupme.Wire.{message_columns, member_columns}
use matrix_groupme_bridge.Groupme.Types.Empty.{no_message, no_member}
use matrix_groupme_bridge.Realtime.Calls.{Codec}

-- The event of a system message, with its data as it is.
unfoldable pub event_columns : List (Column (String × Json))
event_columns =
    kept_text "type" (λ e. e.0) (λ v e. (v, e.1))
    ∷ kept "Data" (λ e. e.1) (λ v e. (e.0, v)) (λ j. j) (λ j old. (j, none))
    ∷ []

abbrev itself : {A : Type 0} → A → A
itself a = a

abbrev instead : {A : Type 0} → A → A → A
instead a b = a

unfoldable pub system_columns : List (Column (String × Json))
system_columns = struct_column "Event" event_columns itself instead ∷ []

unfoldable pub name_columns : List (Column String)
name_columns = kept_text "Name" itself instead ∷ []

unfoldable pub topic_columns : List (Column String)
topic_columns = kept_text "Topic" itself instead ∷ []

unfoldable pub avatar_url_columns : List (Column String)
avatar_url_columns = kept_text "avatar_url" itself instead ∷ []

abbrev kept_int : {S : Type 0} → String → (S → ℕ) → (ℕ → S → S) → Column S
kept_int tag get set = kept tag get set (λ n. num (itoa64 n)) (read_number parse_int64 "int")

unfoldable pub id_columns : List (Column ℕ)
id_columns = kept_int "ID" itself instead ∷ []

unfoldable pub user_columns : List (Column ℕ)
user_columns = struct_column "User" id_columns itself instead ∷ []

unfoldable pub added_columns : List (Column (List Member))
added_columns = structs_column "added_users" member_columns no_member itself instead ∷ []

unfoldable pub removed_columns : List (Column Member)
removed_columns = struct_column "removed_user" member_columns itself instead ∷ []

unfoldable pub icon_columns : List (Column (ℕ × ℕ × String))
icon_columns =
    kept_int "pack_id" (λ i. i.0) (λ v i. (v, i.1, i.2))
    ∷ kept_int "pack_index" (λ i. i.1) (λ v i. (i.0, v, i.2))
    ∷ kept_text "Type" (λ i. i.2) (λ v i. (i.0, i.1, v))
    ∷ []

unfoldable pub like_icon_columns : List (Column (ℕ × ℕ × String))
like_icon_columns = struct_column "like_icon" icon_columns itself instead ∷ []

-- `json.Unmarshal` into a new struct, its error not looked at.
unfoldable pub unmarshalled : {S : Type 0} → List (Column S) → S → Json → S
unfolding read_struct
unmarshalled cs zero j = (read_struct cs j zero).0

module _ (reprint : String → String) where
  -- The data is marshalled, its numbers as float64, and the text unmarshalled.
  abbrev pub decoded : {S : Type 0} → List (Column S) → S → Json → S
  decoded cs zero j = unmarshalled cs zero (remade reprint j)

  unfoldable pub json_codec : Codec
  json_codec = record {
    to_message = decoded message_columns no_message;
    to_event = decoded system_columns ("", null);
    to_name = decoded name_columns "";
    to_topic = decoded topic_columns "";
    to_avatar_url = decoded avatar_url_columns "";
    to_user_id = decoded user_columns 0;
    to_added = decoded added_columns [];
    to_removed = decoded removed_columns no_member;
    to_like_icon = decoded like_icon_columns (0, 0, "");
  }
