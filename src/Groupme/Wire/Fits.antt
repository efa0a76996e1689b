-- ===== src/Groupme/Wire/Fits.antt =====
-- Data that the JSON form can carry: numbers within 64 bits, and attachment types by their names.
use matrix_groupme_bridge.Prelude.{ℕ, ◌<◌, ◌^◌, ◌≡◌, Option, none, some, All}
use matrix_groupme_bridge.Prelude.Json.Laws.{AllInts}
use matrix_groupme_bridge.Groupme.Types.{
  Attachment, type_text, GroupMessages, Group, Message, User, Chat,
}
use matrix_groupme_bridge.Groupme.Wire.{attachment_type}

abbrev IsUint64 : ℕ → Type 0
IsUint64 n = n < 2 ^ 64

pub record AttachmentFits (a : Attachment) : Type 0 where
  pub named : attachment_type (type_text a.type) ≡ a.type
  pub loci : All AllInts a.loci
  pub charmap : All AllInts a.charmap

pub record GroupMessagesFits (g : GroupMessages) : Type 0 where
  pub count : IsUint64 g.count
  pub last_message_created_at : IsUint64 g.last_message_created_at
  pub attachments : All AttachmentFits g.preview.attachments

pub record GroupFits (g : Group) : Type 0 where
  pub created_at : IsUint64 g.created_at
  pub updated_at : IsUint64 g.updated_at
  pub messages : GroupMessagesFits g.messages

pub record MessageFits (m : Message) : Type 0 where
  pub created_at : IsUint64 m.created_at
  pub attachments : All AttachmentFits m.attachments

pub record UserFits (u : User) : Type 0 where
  pub created_at : IsUint64 u.created_at
  pub updated_at : IsUint64 u.updated_at

abbrev pub PointerFits : Option Message → Type 0
PointerFits none = Unit
PointerFits (some m) = MessageFits m

pub record ChatFits (c : Chat) : Type 0 where
  pub created_at : IsUint64 c.created_at
  pub updated_at : IsUint64 c.updated_at
  pub last_message : PointerFits c.last_message
  pub messages_count : IsUint64 c.messages_count
  pub other_user : UserFits c.other_user
