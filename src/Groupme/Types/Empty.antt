-- ===== src/Groupme/Types/Empty.antt =====
-- The empty structs of pkg/groupmeclient/json.go, which JSON is decoded into.
use matrix_groupme_bridge.Prelude.{[], none, false}
use matrix_groupme_bridge.Groupme.Types.{
  Attachment, other_type, MessagePreview, GroupMessages, Member, Group, Message, User, Chat,
}

abbrev pub no_attachment : Attachment
no_attachment = record {
  type = other_type "";
  loci = [];
  user_ids = [];
  url = "";
  file_id = "";
  video_preview_url = "";
  name = "";
  latitude = "";
  longitude = "";
  placeholder = "";
  charmap = [];
  reply_id = "";
  base_reply_id = "";
}

abbrev pub no_preview : MessagePreview
no_preview = record { nickname = ""; text = ""; image_url = ""; attachments = [] }

abbrev pub no_group_messages : GroupMessages
no_group_messages = record {
  count = 0;
  last_message_id = "";
  last_message_created_at = 0;
  preview = no_preview;
}

abbrev pub no_member : Member
no_member = record {
  id = "";
  user_id = "";
  nickname = "";
  muted = false;
  image_url = "";
  auto_kicked = false;
  app_installed = false;
  guid = "";
  phone_number = "";
  email = "";
}

abbrev pub no_group : Group
no_group = record {
  id = "";
  name = "";
  type = "";
  description = "";
  image_url = "";
  creator_user_id = "";
  created_at = 0;
  updated_at = 0;
  members = [];
  share_url = "";
  messages = no_group_messages;
}

abbrev pub no_message : Message
no_message = record {
  id = "";
  source_guid = "";
  created_at = 0;
  group_id = "";
  user_id = "";
  bot_id = "";
  sender_id = "";
  sender_type = "";
  system = false;
  name = "";
  recipient_id = "";
  chat_id = "";
  conversation_id = "";
  avatar_url = "";
  text = "";
  image_url = "";
  favorited_by = [];
  attachments = [];
}

abbrev pub no_user : User
no_user = record {
  id = "";
  phone_number = "";
  image_url = "";
  name = "";
  created_at = 0;
  updated_at = 0;
  avatar_url = "";
  email = "";
  sms = false;
}

abbrev pub no_chat : Chat
no_chat = record {
  created_at = 0;
  updated_at = 0;
  last_message = none;
  messages_count = 0;
  other_user = no_user;
}
