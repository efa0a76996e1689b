-- ===== src/Connector/Handlers.antt =====
-- The handlers of real-time events: pkg/connector/handler.go.
pub mod Members
use matrix_groupme_bridge.Prelude.{
  ℕ, String, List, [], ◌∷◌, ◌++◌, Option, none, some, Bool, true, false, ◌==◌, if◌then◌else◌,
  Outcome, Run, done, panics, unfinished, nil_pointer, pure, ◌>>=◌, ◌>>◌,
}
use matrix_groupme_bridge.Prelude.Json.{Dict, insert}
use matrix_groupme_bridge.Groupme.Types.{Message, Member, Group}
use matrix_groupme_bridge.Groupme.Http.{Client, Answer, answer, error}
use matrix_groupme_bridge.Groupme.Groups.{show_group}
use matrix_groupme_bridge.Connector.Events.{
  Avatar, unset, UserInfo, ChatMember, ChatMemberList, ChatInfo, ChatInfoChange, EventMeta,
  RemoteEvent, reaction, message, Env, GroupmeClient, Bridge, Do, no_info, wrap_avatar, queue_event,
  send_chat_info_change,
}

unfoldable pub info_change : ChatInfo → ChatInfoChange
info_change info = record { chat_info = some info; member_changes = none }

unfoldable pub member_change : ChatMemberList → ChatInfoChange
member_change members = record { chat_info = none; member_changes = some members }

-- A change of one user's name or avatar.
unfoldable pub user_change : String → Option String → Option Avatar → ChatInfoChange
unfolding member_change
user_change user name avatar = member_change (record {
  is_full = false;
  member_map =
      (
        user,
        record {
          nickname = none;
          membership = unset;
          user_info = record { identifiers = []; name = name; avatar = avatar };
        },
      )
      ∷ [];
})

module _ (env : Env) (g : GroupmeClient) where
  unfoldable pub handle_group_avatar : String → String → Do env (Unit {0})
  unfolding info_change
  handle_group_avatar group new_avatar = do
    a ← wrap_avatar env new_avatar
    send_chat_info_change env g group (info_change (record no_info { avatar = some a }))

  unfoldable pub handle_group_name : String → String → Do env (Unit {0})
  unfolding info_change
  handle_group_name group new_name =
      send_chat_info_change env g group (info_change (record no_info { name = some new_name }))

  unfoldable pub handle_group_topic : String → String → Do env (Unit {0})
  unfolding info_change
  handle_group_topic group new_topic =
      send_chat_info_change env g group (info_change (record no_info { topic = some new_topic }))

  unfoldable pub handle_join : String → Do env (Unit {0})
  unfolding info_change
  handle_join group = send_chat_info_change env g group (info_change no_info)

  unfoldable pub handle_like : Message → Do env (Unit {0})
  unfolding queue_event
  handle_like m = queue_event env g m.group_id (λ meta. reaction meta m.sender_id m.id "❤\u{fe0f}")

  -- `HandleLikeIcon` only logs.
  unfoldable pub handle_like_icon : String → Do env (Unit {0})
  handle_like_icon group = pure tt

  unfoldable pub new_member : Member → Do env ChatMember
  new_member m = do
    a ← wrap_avatar env m.image_url
    pure (record {
      nickname = some m.nickname;
      membership = unset;
      user_info = record { identifiers = []; name = some m.nickname; avatar = some a };
    })

  -- The loop over the members: a user that is there twice keeps the last entry.
  unfoldable pub add_members : List Member → Dict ChatMember → Do env (Dict ChatMember)
  unfolding new_member
  add_members [] members s = done members s
  add_members (m ∷ ms) members s = elim (new_member m s) [
    | done cm s' ↦ add_members ms (insert m.user_id cm members) s'
    | panics p ↦ panics p
    | unfinished ↦ unfinished
  ]

  -- `ShowGroup` through the client, which is nil before `Connect`.
  unfoldable pub ask_group : String → Do env (Answer Group)
  ask_group group s = elim g.client [
    | none ↦ panics nil_pointer
    | some c ↦
        let (got, w) = show_group env.http c group s.world in done got (record s { world = w })
  ]

  -- On an error of the request the code reads a field of the group that it did not get.
  unfoldable pub members_of : Answer Group → Do env (List Member)
  members_of (error e) s = panics nil_pointer
  members_of (answer group) s = done group.members s

  unfoldable pub members_to_update : String → List Member → Bool → Do env (List Member)
  unfolding ask_group members_of
  members_to_update group members true = pure members
  members_to_update group members false = do got ← ask_group group; members_of got

  unfoldable pub handle_members : String → List Member → Bool → Do env (Unit {0})
  unfolding members_to_update add_members member_change
  handle_members group members added = do
    current ← members_to_update group members added
    member_map ← add_members current []
    send_chat_info_change env g group (
        member_change (record { is_full = if added then false else true; member_map = member_map }))

  unfoldable pub handle_new_avatar_in_group : String → String → String → Do env (Unit {0})
  unfolding user_change
  handle_new_avatar_in_group group user avatar_url = do
    a ← wrap_avatar env avatar_url
    send_chat_info_change env g group (user_change user none (some a))

  unfoldable pub handle_new_nickname : String → String → String → Do env (Unit {0})
  unfolding user_change
  handle_new_nickname group user new_name =
      send_chat_info_change env g group (user_change user (some new_name) none)

  unfoldable pub handle_text_message : Message → Do env (Unit {0})
  unfolding queue_event
  handle_text_message m =
      queue_event env g m.group_id (λ meta. message meta m.sender_id (m.sender_id == g.user_id) m)
