-- ===== src/Faye/Message/Wire.antt =====
-- The JSON form of messages: the tags of the structs in pkg/faye/response.go. The text of a
-- JSON value is made and parsed by encoding/json; floats are the parameter `Floats`.
pub mod RoundTrip
pub mod Tests
use matrix_groupme_bridge.Prelude.{
  ℕ, String, List, [], ◌∷◌, Option, none, some, Bool, false, true, Result, ok, err,
}
use matrix_groupme_bridge.Prelude.Json.{
  Json, Items, Fields, null, arr, obj, no_items, item, no_fields, field,
}
use matrix_groupme_bridge.Prelude.Json.Struct.{Column, fill, write_all, first_error}
use matrix_groupme_bridge.Prelude.Json.Columns.{
  verdict, text_column, flag_column, numeric_column, merged, mismatch, read_list, read_struct,
  texts_column, map_column, struct_column, omitting, no_entries, read_map,
}
use matrix_groupme_bridge.Faye.Message.{Message, Advice, no_advice, new_message}

-- strconv's printing and parsing of a float64, of which the whole part counts.
pub record Floats : Type 0 where
  pub print : ℕ → String
  pub parse : String → Option ℕ

-- A nil map has no entries.
abbrev pub entries : Option Fields → Fields
entries none = no_fields
entries (some fs) = fs

-- `Ext`, with omitempty: null makes the map nil, and an object a map.
unfoldable pub read_ext : Json → Option Fields → Option Fields × Option String
unfolding merged mismatch
read_ext null old = (none, none)
read_ext (obj fs) old = (some (merged (entries old) fs), none)
read_ext j old = (old, some (mismatch j "map[string]interface {}"))

unfoldable pub ext_column : Column Message
unfolding read_ext
ext_column =
    omitting "ext" (λ m. m.ext) (λ v m. record m { ext = v }) (λ v. no_entries (entries v))
      (λ v. obj (entries v)) read_ext

module _ (floats : Floats) where
  open floats use {print, parse}

  unfoldable pub advice_columns : List (Column Advice)
  advice_columns =
      text_column "reconnect" (λ a. a.reconnect) (λ v a. record a { reconnect = v })
      ∷ numeric_column "interval" parse "float64" print (λ a. a.interval)
          (λ v a. record a { interval = v })
      ∷ numeric_column "timeout" parse "float64" print (λ a. a.timeout)
          (λ v a. record a { timeout = v })
      ∷ []

  unfoldable pub message_columns : List (Column Message)
  unfolding advice_columns ext_column
  message_columns =
      text_column "id" (λ m. m.id) (λ v m. record m { id = v })
      ∷ text_column "channel" (λ m. m.channel) (λ v m. record m { channel = v })
      ∷ flag_column "successful" (λ m. m.successful) (λ v m. record m { successful = v })
      ∷ text_column "clientId" (λ m. m.client_id) (λ v m. record m { client_id = v })
      ∷ texts_column "supportedConnectionTypes" (λ m. m.supported_connection_types)
          (λ v m. record m { supported_connection_types = v })
      ∷ map_column "data" (λ m. m.content) (λ v m. record m { content = v })
      ∷ struct_column "advice" advice_columns (λ m. m.advice) (λ v m. record m { advice = v })
      ∷ text_column "error" (λ m. m.error) (λ v m. record m { error = v })
      ∷ ext_column
      ∷ text_column "connectionType" (λ m. m.connection_type)
          (λ v m. record m { connection_type = v })
      ∷ text_column "subscription" (λ m. m.subscription) (λ v m. record m { subscription = v })
      ∷ text_column "version" (λ m. m.version) (λ v m. record m { version = v })
      ∷ []

  -- `msgWrapper.MarshalJSON`, before the text is made.
  unfoldable pub message_json : Message → Json
  unfolding message_columns
  message_json m = obj (write_all message_columns m)

  -- A `message`, read into a new one; null is a nil pointer.
  unfoldable pub read_message : Json → Option Message → Option Message × Option String
  unfolding message_columns new_message
  read_message null old = (none, none)
  read_message (obj fs) old =
      let (m, e) = fill message_columns fs (new_message "" "") in (some m, e)
  read_message j old = (old, some (mismatch j "faye.message"))

  -- The array that `decodeResponse` decodes.
  unfoldable pub read_messages : Json → Result (List (Option Message))
  unfolding read_message
  read_messages j = verdict (read_list none read_message j [])

  -- `Decode` of the data of a message into a struct.
  unfoldable pub decode_data : {S : Type 0} → List (Column S) → Message → S → S × Option String
  decode_data cs m s = read_struct cs (obj m.content) s
