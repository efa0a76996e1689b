-- ===== src/Groupme/Wire.antt =====
-- The JSON form of GroupMe's data: the tags of the structs in pkg/groupmeclient/json.go. The element null of
-- an array of pointers reads as the empty struct.
pub mod Requests
pub mod Responses
pub mod Fits
pub mod RoundTrip
pub mod Printing
mod Tests
use matrix_groupme_bridge.Prelude.{
  ℕ, String, List, [], ◌∷◌, Option, none, some, Bool, true, false, ◌==◌, if◌then◌else◌,
}
use matrix_groupme_bridge.Prelude.Json.{Json, null, obj}
use matrix_groupme_bridge.Prelude.Json.Struct.{Column, fill, write_all}
use matrix_groupme_bridge.Prelude.Json.Columns.{
  omitting, mismatch, text_column, flag_column, number_column, int_column, texts_column,
  int_lists_column, struct_column, structs_column,
}
use matrix_groupme_bridge.Groupme.Types.Empty.{no_attachment, no_member, no_message}
use matrix_groupme_bridge.Groupme.Types.{
  Attachment, AttachmentType, mentions, image, location, emoji, reply, other_type, type_text,
  MessagePreview, GroupMessages, Member, Group, Message, User, Chat,
}

-- The `attachmentType` of a text.
unfoldable pub attachment_type : String → AttachmentType
attachment_type t =
    if t == "mentions"
    then mentions
    else if t == "image"
    then image
    else if t == "location"
    then location
    else if t == "emoji"
    then emoji
    else if t == "reply"
    then reply
    else other_type t

unfoldable pub type_column : Column Attachment
unfolding text_column attachment_type type_text
type_column =
    text_column "type" (λ a. type_text a.type) (λ v a. record a { type = attachment_type v })

unfoldable pub attachment_columns : List (Column Attachment)
attachment_columns =
    type_column
    ∷ int_lists_column "loci" (λ s. s.loci) (λ v s. record s { loci = v })
    ∷ texts_column "user_ids" (λ s. s.user_ids) (λ v s. record s { user_ids = v })
    ∷ text_column "url" (λ s. s.url) (λ v s. record s { url = v })
    ∷ text_column "file_id" (λ s. s.file_id) (λ v s. record s { file_id = v })
    ∷ text_column "preview_url" (λ s. s.video_preview_url)
        (λ v s. record s { video_preview_url = v })
    ∷ text_column "name" (λ s. s.name) (λ v s. record s { name = v })
    ∷ text_column "lat" (λ s. s.latitude) (λ v s. record s { latitude = v })
    ∷ text_column "lng" (λ s. s.longitude) (λ v s. record s { longitude = v })
    ∷ text_column "placeholder" (λ s. s.placeholder) (λ v s. record s { placeholder = v })
    ∷ int_lists_column "charmap" (λ s. s.charmap) (λ v s. record s { charmap = v })
    ∷ text_column "reply_id" (λ s. s.reply_id) (λ v s. record s { reply_id = v })
    ∷ text_column "base_reply_id" (λ s. s.base_reply_id) (λ v s. record s { base_reply_id = v })
    ∷ []

unfoldable pub preview_columns : List (Column MessagePreview)
preview_columns =
    text_column "nickname" (λ s. s.nickname) (λ v s. record s { nickname = v })
    ∷ text_column "text" (λ s. s.text) (λ v s. record s { text = v })
    ∷ text_column "image_url" (λ s. s.image_url) (λ v s. record s { image_url = v })
    ∷ structs_column "attachments" attachment_columns no_attachment (λ s. s.attachments)
        (λ v s. record s { attachments = v })
    ∷ []

unfoldable pub group_messages_columns : List (Column GroupMessages)
group_messages_columns =
    number_column "count" (λ s. s.count) (λ v s. record s { count = v })
    ∷ text_column "last_message_id" (λ s. s.last_message_id)
        (λ v s. record s { last_message_id = v })
    ∷ number_column "last_message_created_at" (λ s. s.last_message_created_at)
        (λ v s. record s { last_message_created_at = v })
    ∷ struct_column "preview" preview_columns (λ s. s.preview) (λ v s. record s { preview = v })
    ∷ []

unfoldable pub member_columns : List (Column Member)
member_columns =
    text_column "id" (λ s. s.id) (λ v s. record s { id = v })
    ∷ text_column "user_id" (λ s. s.user_id) (λ v s. record s { user_id = v })
    ∷ text_column "nickname" (λ s. s.nickname) (λ v s. record s { nickname = v })
    ∷ flag_column "muted" (λ s. s.muted) (λ v s. record s { muted = v })
    ∷ text_column "image_url" (λ s. s.image_url) (λ v s. record s { image_url = v })
    ∷ flag_column "autokicked" (λ s. s.auto_kicked) (λ v s. record s { auto_kicked = v })
    ∷ flag_column "app_installed" (λ s. s.app_installed) (λ v s. record s { app_installed = v })
    ∷ text_column "guid" (λ s. s.guid) (λ v s. record s { guid = v })
    ∷ text_column "phone_number" (λ s. s.phone_number) (λ v s. record s { phone_number = v })
    ∷ text_column "email" (λ s. s.email) (λ v s. record s { email = v })
    ∷ []

unfoldable pub group_columns : List (Column Group)
group_columns =
    text_column "id" (λ s. s.id) (λ v s. record s { id = v })
    ∷ text_column "name" (λ s. s.name) (λ v s. record s { name = v })
    ∷ text_column "type" (λ s. s.type) (λ v s. record s { type = v })
    ∷ text_column "description" (λ s. s.description) (λ v s. record s { description = v })
    ∷ text_column "image_url" (λ s. s.image_url) (λ v s. record s { image_url = v })
    ∷ text_column "creator_user_id" (λ s. s.creator_user_id)
        (λ v s. record s { creator_user_id = v })
    ∷ number_column "created_at" (λ s. s.created_at) (λ v s. record s { created_at = v })
    ∷ number_column "updated_at" (λ s. s.updated_at) (λ v s. record s { updated_at = v })
    ∷ structs_column "members" member_columns no_member (λ s. s.members)
        (λ v s. record s { members = v })
    ∷ text_column "share_url" (λ s. s.share_url) (λ v s. record s { share_url = v })
    ∷ struct_column "messages" group_messages_columns (λ s. s.messages)
        (λ v s. record s { messages = v })
    ∷ []

unfoldable pub message_columns : List (Column Message)
message_columns =
    text_column "id" (λ s. s.id) (λ v s. record s { id = v })
    ∷ text_column "source_guid" (λ s. s.source_guid) (λ v s. record s { source_guid = v })
    ∷ number_column "created_at" (λ s. s.created_at) (λ v s. record s { created_at = v })
    ∷ text_column "group_id" (λ s. s.group_id) (λ v s. record s { group_id = v })
    ∷ text_column "user_id" (λ s. s.user_id) (λ v s. record s { user_id = v })
    ∷ text_column "bot_id" (λ s. s.bot_id) (λ v s. record s { bot_id = v })
    ∷ text_column "sender_id" (λ s. s.sender_id) (λ v s. record s { sender_id = v })
    ∷ text_column "sender_type" (λ s. s.sender_type) (λ v s. record s { sender_type = v })
    ∷ flag_column "system" (λ s. s.system) (λ v s. record s { system = v })
    ∷ text_column "name" (λ s. s.name) (λ v s. record s { name = v })
    ∷ text_column "recipient_id" (λ s. s.recipient_id) (λ v s. record s { recipient_id = v })
    ∷ text_column "chat_id" (λ s. s.chat_id) (λ v s. record s { chat_id = v })
    ∷ text_column "conversation_id" (λ s. s.conversation_id)
        (λ v s. record s { conversation_id = v })
    ∷ text_column "avatar_url" (λ s. s.avatar_url) (λ v s. record s { avatar_url = v })
    ∷ text_column "text" (λ s. s.text) (λ v s. record s { text = v })
    ∷ text_column "image_url" (λ s. s.image_url) (λ v s. record s { image_url = v })
    ∷ texts_column "favorited_by" (λ s. s.favorited_by) (λ v s. record s { favorited_by = v })
    ∷ structs_column "attachments" attachment_columns no_attachment (λ s. s.attachments)
        (λ v s. record s { attachments = v })
    ∷ []

unfoldable pub user_columns : List (Column User)
user_columns =
    text_column "id" (λ s. s.id) (λ v s. record s { id = v })
    ∷ text_column "phone_number" (λ s. s.phone_number) (λ v s. record s { phone_number = v })
    ∷ text_column "image_url" (λ s. s.image_url) (λ v s. record s { image_url = v })
    ∷ text_column "name" (λ s. s.name) (λ v s. record s { name = v })
    ∷ number_column "created_at" (λ s. s.created_at) (λ v s. record s { created_at = v })
    ∷ number_column "updated_at" (λ s. s.updated_at) (λ v s. record s { updated_at = v })
    ∷ text_column "avatar_url" (λ s. s.avatar_url) (λ v s. record s { avatar_url = v })
    ∷ text_column "email" (λ s. s.email) (λ v s. record s { email = v })
    ∷ flag_column "sms" (λ s. s.sms) (λ v s. record s { sms = v })
    ∷ []

-- `*Message` with omitempty: a pointer that is nil is left out, and null makes it nil.
abbrev pub is_nil_pointer : Option Message → Bool
is_nil_pointer none = true
is_nil_pointer (some m) = false

abbrev pub pointed : Option Message → Message
pointed none = no_message
pointed (some m) = m

unfoldable pub read_pointer : Json → Option Message → Option Message × Option String
unfolding message_columns fill mismatch
read_pointer null old = (none, none)
read_pointer (obj fs) old = let (m, e) = fill message_columns fs (pointed old) in (some m, e)
read_pointer j old = (old, some (mismatch j "groupmeclient.Message"))

unfoldable pub last_message_column : Column Chat
unfolding message_columns read_pointer write_all
last_message_column =
    omitting "last_message" (λ c. c.last_message) (λ v c. record c { last_message = v })
      is_nil_pointer (λ v. obj (write_all message_columns (pointed v))) read_pointer

unfoldable pub chat_columns : List (Column Chat)
chat_columns =
    number_column "created_at" (λ s. s.created_at) (λ v s. record s { created_at = v })
    ∷ number_column "updated_at" (λ s. s.updated_at) (λ v s. record s { updated_at = v })
    ∷ last_message_column
    ∷ int_column "messages_count" (λ s. s.messages_count) (λ v s. record s { messages_count = v })
    ∷ struct_column "other_user" user_columns (λ s. s.other_user)
        (λ v s. record s { other_user = v })
    ∷ []
