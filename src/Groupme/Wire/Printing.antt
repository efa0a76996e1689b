-- ===== src/Groupme/Wire/Printing.antt =====
-- The String methods that print JSON: `marshal` and the structs of pkg/groupmeclient that it is called with. The
-- text that json.MarshalIndent makes is a parameter.
use matrix_groupme_bridge.Prelude.{
  ℕ, ◌≡◌, refl, String, List, [], ◌∷◌, Bool, Result, ok, err, itoa64, parse_int64,
}
use matrix_groupme_bridge.Prelude.Json.{Json, num, obj, no_fields}
use matrix_groupme_bridge.Prelude.Json.Struct.{Column, write_all}
use matrix_groupme_bridge.Prelude.Json.Columns.{
  verdict, kept, kept_text, text_column, flag_column, number_column, read_number, read_struct,
}
use matrix_groupme_bridge.Groupme.Types.{Group, Member, Message, Attachment, User, Chat}
use matrix_groupme_bridge.Groupme.Http.{GroupSettings, ChangeOwnerRequest, ChangeOwnerResult}
use matrix_groupme_bridge.Groupme.Groups.{GroupsQuery}
use matrix_groupme_bridge.Groupme.Messages.{MessagesQuery, DirectMessagesQuery}
use matrix_groupme_bridge.Groupme.Wire.{
  group_columns, member_columns, message_columns, attachment_columns, user_columns, chat_columns,
}
use matrix_groupme_bridge.Groupme.Types.Empty.{no_message}
use matrix_groupme_bridge.Groupme.Wire.Fits.{MessageFits}
use matrix_groupme_bridge.Groupme.Wire.RoundTrip.{message-Reads}
use matrix_groupme_bridge.Groupme.Wire.Requests.{group_settings_columns, change_owner_columns}
use matrix_groupme_bridge.Groupme.Wire.Responses.{owner_result_columns, parsed}

record Bot : Type 0 where
  bot_id : String
  group_id : String
  name : String
  avatar_url : String
  callback_url : String
  dm_notification : Bool

record Block : Type 0 where
  user_id : String
  blocked_user_id : String
  created_at : ℕ

unfoldable bot_columns : List (Column Bot)
bot_columns =
    text_column "bot_id" (λ b. b.bot_id) (λ v b. record b { bot_id = v })
    ∷ text_column "group_id" (λ b. b.group_id) (λ v b. record b { group_id = v })
    ∷ text_column "name" (λ b. b.name) (λ v b. record b { name = v })
    ∷ text_column "avatar_url" (λ b. b.avatar_url) (λ v b. record b { avatar_url = v })
    ∷ text_column "callback_url" (λ b. b.callback_url) (λ v b. record b { callback_url = v })
    ∷ flag_column "dm_notification" (λ b. b.dm_notification)
        (λ v b. record b { dm_notification = v })
    ∷ []

unfoldable block_columns : List (Column Block)
block_columns =
    text_column "user_id" (λ b. b.user_id) (λ v b. record b { user_id = v })
    ∷ text_column "blocked_user_id" (λ b. b.blocked_user_id)
        (λ v b. record b { blocked_user_id = v })
    ∷ number_column "created_at" (λ b. b.created_at) (λ v b. record b { created_at = v })
    ∷ []

abbrev whole : {S : Type 0} → String → (S → ℕ) → (ℕ → S → S) → Column S
whole tag get set = kept tag get set (λ n. num (itoa64 n)) (read_number parse_int64 "int")

unfoldable groups_query_columns : List (Column GroupsQuery)
groups_query_columns =
    whole "page" (λ q. q.page) (λ v q. record q { page = v })
    ∷ whole "per_page" (λ q. q.per_page) (λ v q. record q { per_page = v })
    ∷ kept_text "omit" (λ q. q.omit) (λ v q. record q { omit = v })
    ∷ []

-- Its fields have no tags.
unfoldable messages_query_columns : List (Column MessagesQuery)
messages_query_columns =
    kept_text "BeforeID" (λ q. q.before_id) (λ v q. record q { before_id = v })
    ∷ kept_text "SinceID" (λ q. q.since_id) (λ v q. record q { since_id = v })
    ∷ kept_text "AfterID" (λ q. q.after_id) (λ v q. record q { after_id = v })
    ∷ whole "Limit" (λ q. q.limit) (λ v q. record q { limit = v })
    ∷ []

unfoldable direct_messages_query_columns : List (Column DirectMessagesQuery)
direct_messages_query_columns =
    kept_text "before_id" (λ q. q.before_id) (λ v q. record q { before_id = v })
    ∷ kept_text "since_id" (λ q. q.since_id) (λ v q. record q { since_id = v })
    ∷ []

unfoldable printed_or_empty : Result String → String
printed_or_empty (ok text) = text
printed_or_empty (err e) = ""

module _ (marshal_indent : Json → Result String) where
  unfoldable marshal : {S : Type 0} → List (Column S) → S → String
  unfolding printed_or_empty
  marshal cs s = printed_or_empty (marshal_indent (obj (write_all cs s)))

  unfoldable group_string : Group → String
  group_string = marshal group_columns

  unfoldable member_string : Member → String
  member_string = marshal member_columns

  unfoldable message_string : Message → String
  unfolding marshal
  message_string = marshal message_columns

  unfoldable attachment_string : Attachment → String
  attachment_string = marshal attachment_columns

  unfoldable user_string : User → String
  user_string = marshal user_columns

  unfoldable chat_string : Chat → String
  chat_string = marshal chat_columns

  unfoldable bot_string : Bot → String
  bot_string = marshal bot_columns

  unfoldable block_string : Block → String
  block_string = marshal block_columns

  unfoldable settings_string : GroupSettings → String
  settings_string = marshal group_settings_columns

  unfoldable groups_query_string : GroupsQuery → String
  groups_query_string = marshal groups_query_columns

  unfoldable owner_request_string : ChangeOwnerRequest → String
  owner_request_string = marshal change_owner_columns

  unfoldable owner_result_string : ChangeOwnerResult → String
  owner_result_string = marshal owner_result_columns

  unfoldable messages_query_string : MessagesQuery → String
  messages_query_string = marshal messages_query_columns

  unfoldable direct_messages_query_string : DirectMessagesQuery → String
  direct_messages_query_string = marshal direct_messages_query_columns

  -- A client has no exported fields.
  unfoldable client_string : String
  client_string = printed_or_empty (marshal_indent (obj no_fields))

  -- Where the text of a message's JSON can be made and is parsed to that JSON, what String prints of the
  -- message is read as that message, if its time is below 2^64 and its attachments have numbers that
  -- 64 bits hold and types by their names.
  message_string_lem :
      (parse : String → Result Json) (m : Message) (text : String)
      → marshal_indent (obj (write_all message_columns m)) ≡ ok text
      → parse text ≡ ok (obj (write_all message_columns m))
      → MessageFits m
      → parsed (parse (message_string m)) (λ j. verdict (read_struct message_columns j no_message))
        ≡ ok m
  unfolding message_string marshal printed_or_empty read_struct
  message_string_lem parse m text printed parses fits =
      rw (printed, parses, message-Reads m fits) refl
