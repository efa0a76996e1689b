-- ===== src/Groupme/Wire/RoundTrip.antt =====
-- GroupMe's data that is written and read.
pub mod Chats
use matrix_groupme_bridge.Prelude.{
  ◌≡◌, refl, ap, ◌∙◌, List, [], ◌∷◌, Option, none, some, All, All-map, if◌then◌else◌,
}
use mathlib.Core.Path.{subst}
use matrix_groupme_bridge.Prelude.Json.{obj}
use matrix_groupme_bridge.Prelude.Json.Struct.{
  Column, fill, write_all, fill-write_all, AllFound, found-AllFound, ReadsBack, Carries, Copies,
  copied, ◌▸◌, find, resolve, same_folded,
}
use matrix_groupme_bridge.Prelude.Json.Columns.{
  numeric_column, text_column, flag_column, number_column, int_column, texts_column,
  int_lists_column, struct_column, structs_column,
}
use matrix_groupme_bridge.Prelude.Json.Laws.{
  text-Carries, flag-Carries, number-Carries, int-Carries, texts-Carries, int_lists-Carries,
  struct-Carries, structs-Carries,
}
use matrix_groupme_bridge.Groupme.Types.{
  Attachment, other_type, type_text, MessagePreview, GroupMessages, Member, Group, Message, User,
  Chat,
}
use matrix_groupme_bridge.Groupme.Wire.{
  attachment_type, type_column, attachment_columns, preview_columns, group_messages_columns,
  member_columns, group_columns, message_columns, user_columns, chat_columns, last_message_column,
  read_pointer, pointed, is_nil_pointer,
}
use matrix_groupme_bridge.Groupme.Types.Empty.{
  no_attachment, no_preview, no_group_messages, no_member, no_group, no_message, no_user, no_chat,
}
use matrix_groupme_bridge.Groupme.Wire.Fits.{
  AttachmentFits, GroupMessagesFits, GroupFits, MessageFits, UserFits, ChatFits, PointerFits,
}

-- What is written of `s` is read from an empty struct as `s`.
abbrev pub Reads : {S : Type 0} → List (Column S) → S → S → Type 0
Reads cs zero s = fill cs (write_all cs s) zero ≡ (s, none)

type-Carries :
    {s t : Attachment}
    → attachment_type (type_text s.type) ≡ s.type
    → t ≡ record t { type = other_type "" }
    → Carries type_column s t (record t { type = s.type })
unfolding type_column
type-Carries {s} {t} named blank =
    subst (λ x. Carries type_column s t (record t { type = x })) named
      (text-Carries "type" (λ a. type_text a.type) (λ v a. record a { type = attachment_type v })
        blank)

attachment_found : AllFound attachment_columns attachment_columns
unfolding attachment_columns type_column last_message_column text_column flag_column number_column
    int_column numeric_column texts_column int_lists_column struct_column structs_column resolve
    find same_folded
attachment_found = found-AllFound attachment_columns attachment_columns refl

attachment-Copies :
    (s : Attachment) → AttachmentFits s → Copies s attachment_columns no_attachment s
unfolding attachment_columns
attachment-Copies s h =
    type-Carries h.named refl
    ▸ int_lists-Carries _ _ _ h.loci refl
    ▸ texts-Carries _ _ _ refl
    ▸ text-Carries _ _ _ refl
    ▸ text-Carries _ _ _ refl
    ▸ text-Carries _ _ _ refl
    ▸ text-Carries _ _ _ refl
    ▸ text-Carries _ _ _ refl
    ▸ text-Carries _ _ _ refl
    ▸ text-Carries _ _ _ refl
    ▸ int_lists-Carries _ _ _ h.charmap refl
    ▸ text-Carries _ _ _ refl
    ▸ text-Carries _ _ _ refl
    ▸ copied

pub attachment-Reads :
    (s : Attachment) → AttachmentFits s → Reads attachment_columns no_attachment s
attachment-Reads s h = fill-write_all _ _ attachment_found (attachment-Copies s h)

pub attachments-Read :
    (xs : List Attachment)
    → All AttachmentFits xs
    → All (λ a. Reads attachment_columns no_attachment a) xs
attachments-Read xs h = All-map AttachmentFits _ xs attachment-Reads h

preview_found : AllFound preview_columns preview_columns
unfolding preview_columns type_column last_message_column text_column flag_column number_column
    int_column numeric_column texts_column int_lists_column struct_column structs_column resolve
    find same_folded
preview_found = found-AllFound preview_columns preview_columns refl

preview-Copies :
    (s : MessagePreview) → All AttachmentFits s.attachments → Copies s preview_columns no_preview s
unfolding preview_columns
preview-Copies s h =
    text-Carries _ _ _ refl
    ▸ text-Carries _ _ _ refl
    ▸ text-Carries _ _ _ refl
    ▸ structs-Carries _ _ _ _ _ (attachments-Read s.attachments h) refl
    ▸ copied

pub preview-Reads :
    (s : MessagePreview) → All AttachmentFits s.attachments → Reads preview_columns no_preview s
preview-Reads s h = fill-write_all _ _ preview_found (preview-Copies s h)

group_messages_found : AllFound group_messages_columns group_messages_columns
unfolding group_messages_columns type_column last_message_column text_column flag_column
    number_column int_column numeric_column texts_column int_lists_column struct_column
    structs_column resolve find same_folded
group_messages_found = found-AllFound group_messages_columns group_messages_columns refl

group_messages-Copies :
    (s : GroupMessages) → GroupMessagesFits s → Copies s group_messages_columns no_group_messages s
unfolding group_messages_columns
group_messages-Copies s h =
    number-Carries _ _ _ h.count refl
    ▸ text-Carries _ _ _ refl
    ▸ number-Carries _ _ _ h.last_message_created_at refl
    ▸ struct-Carries _ _ _ _ (preview-Reads s.preview h.attachments)
    ▸ copied

pub group_messages-Reads :
    (s : GroupMessages) → GroupMessagesFits s → Reads group_messages_columns no_group_messages s
group_messages-Reads s h = fill-write_all _ _ group_messages_found (group_messages-Copies s h)

member_found : AllFound member_columns member_columns
unfolding member_columns type_column last_message_column text_column flag_column number_column
    int_column numeric_column texts_column int_lists_column struct_column structs_column resolve
    find same_folded
member_found = found-AllFound member_columns member_columns refl

member-Copies : (s : Member) → Copies s member_columns no_member s
unfolding member_columns
member-Copies s =
    text-Carries _ _ _ refl
    ▸ text-Carries _ _ _ refl
    ▸ text-Carries _ _ _ refl
    ▸ flag-Carries _ _ _ refl
    ▸ text-Carries _ _ _ refl
    ▸ flag-Carries _ _ _ refl
    ▸ flag-Carries _ _ _ refl
    ▸ text-Carries _ _ _ refl
    ▸ text-Carries _ _ _ refl
    ▸ text-Carries _ _ _ refl
    ▸ copied

pub member-Reads : (s : Member) → Reads member_columns no_member s
member-Reads s = fill-write_all _ _ member_found (member-Copies s)

pub members-Read : (xs : List Member) → All (λ m. Reads member_columns no_member m) xs
members-Read [] = tt
members-Read (m ∷ ms) = (member-Reads m, members-Read ms)

group_found : AllFound group_columns group_columns
unfolding group_columns type_column last_message_column text_column flag_column number_column
    int_column numeric_column texts_column int_lists_column struct_column structs_column resolve
    find same_folded
group_found = found-AllFound group_columns group_columns refl

group-Copies : (s : Group) → GroupFits s → Copies s group_columns no_group s
unfolding group_columns
group-Copies s h =
    text-Carries _ _ _ refl
    ▸ text-Carries _ _ _ refl
    ▸ text-Carries _ _ _ refl
    ▸ text-Carries _ _ _ refl
    ▸ text-Carries _ _ _ refl
    ▸ text-Carries _ _ _ refl
    ▸ number-Carries _ _ _ h.created_at refl
    ▸ number-Carries _ _ _ h.updated_at refl
    ▸ structs-Carries _ _ _ _ _ (members-Read s.members) refl
    ▸ text-Carries _ _ _ refl
    ▸ struct-Carries _ _ _ _ (group_messages-Reads s.messages h.messages)
    ▸ copied

pub group-Reads : (s : Group) → GroupFits s → Reads group_columns no_group s
group-Reads s h = fill-write_all _ _ group_found (group-Copies s h)

pub message_found : AllFound message_columns message_columns
unfolding message_columns type_column last_message_column text_column flag_column number_column
    int_column numeric_column texts_column int_lists_column struct_column structs_column resolve
    find same_folded
message_found = found-AllFound message_columns message_columns refl

message-Copies : (s : Message) → MessageFits s → Copies s message_columns no_message s
unfolding message_columns
message-Copies s h =
    text-Carries _ _ _ refl
    ▸ text-Carries _ _ _ refl
    ▸ number-Carries _ _ _ h.created_at refl
    ▸ text-Carries _ _ _ refl
    ▸ text-Carries _ _ _ refl
    ▸ text-Carries _ _ _ refl
    ▸ text-Carries _ _ _ refl
    ▸ text-Carries _ _ _ refl
    ▸ flag-Carries _ _ _ refl
    ▸ text-Carries _ _ _ refl
    ▸ text-Carries _ _ _ refl
    ▸ text-Carries _ _ _ refl
    ▸ text-Carries _ _ _ refl
    ▸ text-Carries _ _ _ refl
    ▸ text-Carries _ _ _ refl
    ▸ text-Carries _ _ _ refl
    ▸ texts-Carries _ _ _ refl
    ▸ structs-Carries _ _ _ _ _ (attachments-Read s.attachments h.attachments) refl
    ▸ copied

pub message-Reads : (s : Message) → MessageFits s → Reads message_columns no_message s
message-Reads s h = fill-write_all _ _ message_found (message-Copies s h)
