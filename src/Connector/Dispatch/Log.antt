-- ===== src/Connector/Dispatch/Log.antt =====
-- What the bridge promises of the real-time calls: a log of events, without the time at which each
-- was queued.
use matrix_groupme_bridge.Prelude.{
  ℕ, zero, suc, ◌≡◌, String, List, [], ◌∷◌, ◌++◌, Option, none, some, true, false, ◌==◌,
  if◌then◌else◌, All,
}
use matrix_groupme_bridge.Prelude.Json.{Dict, insert}
use matrix_groupme_bridge.Groupme.Types.{Member}
use matrix_groupme_bridge.Realtime.Calls.{
  Call, text_message, like, joined, group_topic, group_name, group_avatar, like_icon, new_nickname,
  new_avatar, members, Handler,
}
use matrix_groupme_bridge.Connector.Portal.{make_groupme_portal_id}
use matrix_groupme_bridge.Connector.Events.{
  Avatar, removed, avatar, unset, ChatMember, EventMeta, RemoteEvent, chat_info_changed, reaction,
  message, Env, GroupmeClient, path_base, no_info,
}
use matrix_groupme_bridge.Connector.Dispatch.{full_handler}
use matrix_groupme_bridge.Connector.Handlers.{info_change, member_change, user_change}
use matrix_groupme_bridge.Connector.Handlers.Members.{HasPicture}

unfoldable pub untimed_meta : EventMeta → EventMeta
untimed_meta meta = record meta { timestamp = 0 }

-- An event without its time.
unfoldable pub untimed : RemoteEvent → RemoteEvent
unfolding untimed_meta
untimed (chat_info_changed meta change) = chat_info_changed (untimed_meta meta) change
untimed (reaction meta sender target emoji) = reaction (untimed_meta meta) sender target emoji
untimed (message meta sender is_from_me content) =
    message (untimed_meta meta) sender is_from_me content

-- Every event of a group goes to its portal, which is made where it is missing.
unfoldable pub portal_of : GroupmeClient → String → EventMeta
portal_of g group = record {
  portal_id = make_groupme_portal_id group g.user_login_id;
  receiver = g.user_login_id;
  create_portal = true;
  timestamp = 0;
}

-- The bridge's handler, registered so many times: `Connect` registers it once more each time it is called.
unfoldable pub registered : ℕ → ℕ → List Handler
registered zero name = []
registered (suc n) name = full_handler name ∷ registered n name

unfoldable pub repeated : ℕ → List RemoteEvent → List RemoteEvent
repeated zero events = []
repeated (suc n) events = events ++ repeated n events

module _ (env : Env) (g : GroupmeClient) where
  -- The picture at a URL, a missing path read as the empty one.
  unfoldable pub picture : String → Avatar
  picture url = if url == "" then removed else elim (env.url_path url) [
    | none ↦ avatar (path_base "") url
    | some path ↦ avatar (path_base path) url
  ]

  unfoldable pub listed : Member → ChatMember
  listed m = record {
    nickname = some m.nickname;
    membership = unset;
    user_info = record {
      identifiers = [];
      name = some m.nickname;
      avatar = some (picture m.image_url);
    };
  }

  unfoldable pub all_listed : List Member → Dict ChatMember → Dict ChatMember
  all_listed [] found = found
  all_listed (m ∷ ms) found = all_listed ms (insert m.user_id (listed m) found)

  -- The events that a call promises.
  unfoldable pub promised : Call → List RemoteEvent
  promised (text_message m) =
      message (portal_of g m.group_id) m.sender_id (m.sender_id == g.user_id) m ∷ []
  promised (like m) = reaction (portal_of g m.group_id) m.sender_id m.id "❤\u{fe0f}" ∷ []
  promised (joined id) = chat_info_changed (portal_of g id) (info_change no_info) ∷ []
  promised (group_topic group text) =
      chat_info_changed (portal_of g group) (info_change (record no_info { topic = some text }))
      ∷ []
  promised (group_name group text) =
      chat_info_changed (portal_of g group) (info_change (record no_info { name = some text })) ∷ []
  promised (group_avatar group url) =
      chat_info_changed (portal_of g group)
        (info_change (record no_info { avatar = some (picture url) }))
      ∷ []
  promised (like_icon group pack_id pack_index type) = []
  promised (new_nickname group user name) =
      chat_info_changed (portal_of g group) (user_change user (some name) none) ∷ []
  promised (new_avatar group user url) =
      chat_info_changed (portal_of g group) (user_change user none (some (picture url))) ∷ []
  promised (members group ms added) =
      chat_info_changed (portal_of g group)
        (member_change (record { is_full = false; member_map = all_listed ms [] }))
      ∷ []

  -- A call whose pictures can be named, and that asks GroupMe nothing: only the removal of a member asks
  -- for the group.
  unfoldable pub IsLocal : Call → Type 0
  IsLocal (group_avatar group url) = HasPicture env g url
  IsLocal (new_avatar group user url) = HasPicture env g url
  IsLocal (members group ms added) = (added ≡ true) × All (λ m. HasPicture env g m.image_url) ms
  IsLocal (text_message m) = Unit
  IsLocal (like m) = Unit
  IsLocal (joined id) = Unit
  IsLocal (group_topic group text) = Unit
  IsLocal (group_name group text) = Unit
  IsLocal (like_icon group pack_id pack_index type) = Unit
  IsLocal (new_nickname group user name) = Unit

  unfoldable pub promised_by : Option Call → List RemoteEvent
  promised_by none = []
  promised_by (some call) = promised call

  unfoldable pub CallIsLocal : Option Call → Type 0
  CallIsLocal none = Unit
  CallIsLocal (some call) = IsLocal call
