-- ===== src/Realtime/Calls.antt =====
-- Handlers and the calls that real-time messages make of them: the interfaces of
-- pkg/groupmerealtime/real_time.go, and real_time_handlers.go.
use matrix_groupme_bridge.Prelude.{
  ℕ, String, List, [], ◌∷◌, Option, none, some, Bool, true, false, ◌==◌, if◌then◌else◌, itoa64,
}
use matrix_groupme_bridge.Prelude.Json.{Json, str, obj, get_field, find_field}
use matrix_groupme_bridge.Groupme.Types.{Message, Member}

-- A call of a handler's method.
pub data Call : Type 0 where
  text_message like : Message → Call
  joined : (id : String) → Call
  group_topic group_name group_avatar : (group text : String) → Call
  like_icon : (group : String) (pack_id pack_index : ℕ) (type : String) → Call
  new_nickname new_avatar : (group user text : String) → Call
  members : (group : String) → List Member → (added : Bool) → Call

-- A handler is registered with the interfaces that it implements, as the calls that it takes.
pub record Handler : Type 0 where
  pub name : ℕ
  pub accepts : Call → Bool

-- What `json.Marshal` of a decoded value followed by `json.Unmarshal` into a struct gives; fields that
-- are missing or of another type are zero.
pub record Codec : Type 0 where
  pub to_message : Json → Message
  pub to_event : Json → String × Json
  pub to_name : Json → String
  pub to_topic : Json → String
  pub to_avatar_url : Json → String
  pub to_user_id : Json → ℕ
  pub to_added : Json → List Member
  pub to_removed : Json → Member
  pub to_like_icon : Json → ℕ × ℕ × String

-- The keys of `RealTimeHandlers`.
pub data Kind : Type 0 where
  create like_create membership_create favorite : Kind

unfoldable pub kind_of : String → Option Kind
kind_of content_type =
    if content_type == "direct_message.create"
    then some create
    else if content_type == "line.create"
    then some create
    else if content_type == "like.create"
    then some like_create
    else if content_type == "membership.create"
    then some membership_create
    else if content_type == "favorite"
    then some favorite
    else none

-- The system handlers, by the kind of the event; none for a kind that is not handled.
unfoldable pub system_call : Codec → String → String → Json → Option Call
system_call c kind id raw =
    if kind == "membership.nickname_changed"
    then some (new_nickname id (itoa64 (c.to_user_id raw)) (c.to_name raw))
    else if kind == "membership.avatar_changed"
    then some (new_avatar id (itoa64 (c.to_user_id raw)) (c.to_avatar_url raw))
    else if kind == "membership.announce.added"
    then some (members id (c.to_added raw) true)
    else if kind == "membership.notifications.removed"
    then some (members id (c.to_removed raw ∷ []) false)
    else if kind == "membership.name_change"
    then some (group_name id (c.to_name raw))
    else if kind == "group.name_change"
    then some (group_name id (c.to_name raw))
    else if kind == "group.topic_change"
    then some (group_topic id (c.to_topic raw))
    else if kind == "group.avatar_change"
    then some (group_avatar id (c.to_avatar_url raw))
    else if kind == "group.like_icon_set"
    then (let (pack_id, pack_index, type) = c.to_like_icon raw in
        some (like_icon id pack_id pack_index type))
    else if kind == "group.like_icon_removed"
    then some (like_icon id 0 0 "")
    else none

-- The text behind `c["id"].(string)`, with the failed assertion's zero value.
unfoldable pub text_or_empty : Json → String
text_or_empty (str s) = s
text_or_empty _ = ""

-- The message of a `create`: the push names the conversation `chat_id`.
unfoldable pub pushed : Codec → Json → Message
pushed c subject = let m = c.to_message subject in record m { conversation_id = m.chat_id }

unfoldable pub created_call : Codec → Json → Option Call
unfolding pushed system_call
created_call c subject =
    let m = pushed c subject in
    let (kind, raw) = c.to_event subject in
    if m.user_id == "system"
    then system_call c kind (if m.group_id == "" then m.conversation_id else m.group_id) raw
    else some (text_message m)

unfoldable pub joined_call : Json → Option Call
unfolding text_or_empty
joined_call (obj fields) = some (joined (text_or_empty (get_field "id" fields)))
joined_call _ = some (joined "")

unfoldable pub favorite_call : Codec → Json → Option Call
favorite_call c (obj fields) = elim (find_field "line" fields) [
  | none ↦ none
  | some line ↦ some (like (c.to_message line))
]
favorite_call c _ = none

-- The call that a message of a kind makes, if any.
unfoldable pub call_of : Codec → Kind → Json → Option Call
unfolding created_call joined_call favorite_call
call_of c create subject = created_call c subject
call_of c like_create subject = none
call_of c membership_create subject = joined_call subject
call_of c favorite subject = favorite_call c subject

-- Every registered handler that implements the method is called, in order.
unfoldable pub calls_of : List Handler → Call → List (ℕ × Call)
calls_of [] call = []
calls_of (h ∷ hs) call =
    let rest = calls_of hs call in if h.accepts call then (h.name, call) ∷ rest else rest
