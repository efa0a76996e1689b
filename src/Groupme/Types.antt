-- ===== src/Groupme/Types.antt =====
-- The data of the GroupMe API: pkg/groupmeclient/json.go. Timestamps are seconds, as uint64; a list
-- of pointers to structs is a list of the structs.
pub mod Empty
use matrix_groupme_bridge.Prelude.{
  ℕ, String, List, [], ◌∷◌, Option, none, some, Bool, ◌==◌, if◌then◌else◌, ◌⧺◌, itoa64,
}

-- `Meta`
pub record Meta : Type 0 where
  pub code : ℕ
  pub errors : List String

join_from : String → List String → String
join_from sep [] = ""
join_from sep (x ∷ xs) = sep ⧺ x ⧺ join_from sep xs

-- `strings.Join`
unfoldable pub join : String → List String → String
unfolding join_from
join sep [] = ""
join sep (x ∷ xs) = x ⧺ join_from sep xs

-- `Meta.Error`: %v prints a slice of texts in brackets, with spaces between.
unfoldable pub meta_error : Meta → String
meta_error m = "Error Code " ⧺ itoa64 m.code ⧺ ": [" ⧺ join " " m.errors ⧺ "]"

pub data AttachmentType : Type 0 where
  mentions image location emoji reply : AttachmentType
  other_type : String → AttachmentType

-- The text of an `attachmentType`.
unfoldable pub type_text : AttachmentType → String
type_text mentions = "mentions"
type_text image = "image"
type_text location = "location"
type_text emoji = "emoji"
type_text reply = "reply"
type_text (other_type t) = t

-- The numbers in `Loci` and `Charmap` are not read by the bridge.
pub record Attachment : Type 0 where
  pub type : AttachmentType
  pub loci : List (List ℕ)
  pub user_ids : List String
  pub url : String
  pub file_id : String
  pub video_preview_url : String
  pub name : String
  pub latitude : String
  pub longitude : String
  pub placeholder : String
  pub charmap : List (List ℕ)
  pub reply_id : String
  pub base_reply_id : String

pub record MessagePreview : Type 0 where
  pub nickname : String
  pub text : String
  pub image_url : String
  pub attachments : List Attachment

pub record GroupMessages : Type 0 where
  pub count : ℕ
  pub last_message_id : String
  pub last_message_created_at : ℕ
  pub preview : MessagePreview

pub record Member : Type 0 where
  pub id : String
  pub user_id : String
  pub nickname : String
  pub muted : Bool
  pub image_url : String
  pub auto_kicked : Bool
  pub app_installed : Bool
  pub guid : String
  pub phone_number : String
  pub email : String

pub record Group : Type 0 where
  pub id : String
  pub name : String
  pub type : String
  pub description : String
  pub image_url : String
  pub creator_user_id : String
  pub created_at : ℕ
  pub updated_at : ℕ
  pub members : List Member
  pub share_url : String
  pub messages : GroupMessages

pub record Message : Type 0 where
  pub id : String
  pub source_guid : String
  pub created_at : ℕ
  pub group_id : String
  pub user_id : String
  pub bot_id : String
  pub sender_id : String
  pub sender_type : String
  pub system : Bool
  pub name : String
  pub recipient_id : String
  pub chat_id : String
  pub conversation_id : String
  pub avatar_url : String
  pub text : String
  pub image_url : String
  pub favorited_by : List String
  pub attachments : List Attachment

pub record User : Type 0 where
  pub id : String
  pub phone_number : String
  pub image_url : String
  pub name : String
  pub created_at : ℕ
  pub updated_at : ℕ
  pub avatar_url : String
  pub email : String
  pub sms : Bool

pub record Chat : Type 0 where
  pub created_at : ℕ
  pub updated_at : ℕ
  pub last_message : Option Message
  pub messages_count : ℕ
  pub other_user : User

-- `GetMemberByUserID`
unfoldable pub get_member_by_user_id : String → List Member → Option Member
get_member_by_user_id user_id [] = none
get_member_by_user_id user_id (m ∷ ms) =
    if m.user_id == user_id then some m else get_member_by_user_id user_id ms

-- `GetMemberByNickname`
unfoldable pub get_member_by_nickname : String → List Member → Option Member
get_member_by_nickname nickname [] = none
get_member_by_nickname nickname (m ∷ ms) =
    if m.nickname == nickname then some m else get_member_by_nickname nickname ms
