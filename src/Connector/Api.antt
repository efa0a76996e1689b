-- ===== src/Connector/Api.antt =====
-- The calls that the bridge framework makes: pkg/connector/client.go. `rfc3339` is the printing of
-- timestamps that the list of relations takes.
pub mod Found
pub mod Chats
use matrix_groupme_bridge.Prelude.{
  ℕ, String, List, [], ◌∷◌, Option, none, some, Bool, true, false, ◌==◌, if◌then◌else◌, Result, ok,
  err, Outcome, Run, done, panics, unfinished, nil_pointer, pure, ◌>>=◌, ◌⧺◌,
}
use matrix_groupme_bridge.Prelude.Json.{Dict, insert}
use matrix_groupme_bridge.Groupme.Types.{Message, Member, Group, User}
use matrix_groupme_bridge.Groupme.Http.{Client, Answer, answer, error, Error, failed}
use matrix_groupme_bridge.Groupme.Messages.{create_message}
use matrix_groupme_bridge.Groupme.Relations.{index_all_relations}
use matrix_groupme_bridge.Connector.Portal.{parse_portal_id}
use matrix_groupme_bridge.Connector.Events.{
  Membership, join, ban, UserInfo, ChatMember, ChatMemberList, ChatInfo, Env, GroupmeClient, Bridge,
  Do, wrap_avatar,
}
use matrix_groupme_bridge.Connector.Handlers.{ask_group}

-- The identifiers of the message that Matrix is told of.
pub record Sent : Type 0 where
  pub id : String
  pub sender_id : String

-- `IsThisUser`
unfoldable pub is_this_user : GroupmeClient → String → Bool
is_this_user g user_id = g.user_id == user_id

-- The first relation with an identifier.
unfoldable pub find_relation : String → List User → Option User
find_relation id [] = none
find_relation id (u ∷ us) = let rest = find_relation id us in if u.id == id then some u else rest

unfoldable pub membership_of : Member → Membership
membership_of m = if m.auto_kicked then ban else join

module _ (env : Env) (rfc3339 : ℕ → String) (g : GroupmeClient) where
  unfoldable pub chat_member : Member → Do env ChatMember
  unfolding membership_of
  chat_member m = do
    a ← wrap_avatar env m.image_url
    pure (record {
      nickname = some m.nickname;
      membership = membership_of m;
      user_info = record { identifiers = []; name = none; avatar = some a };
    })

  -- The loop over the members of `GetChatInfo`.
  unfoldable pub chat_members : List Member → Dict ChatMember → Do env (Dict ChatMember)
  chat_members [] members s = done members s
  chat_members (m ∷ ms) members s = elim (chat_member m s) [
    | done cm s' ↦ chat_members ms (insert m.user_id cm members) s'
    | panics p ↦ panics p
    | unfinished ↦ unfinished
  ]

  unfoldable pub chat_info : Answer Group → Do env (Answer ChatInfo)
  chat_info (error e) = pure (error e)
  chat_info (answer group) = do
    members ← chat_members group.members []
    a ← wrap_avatar env group.image_url
    pure (
        answer (record {
          name = some group.name;
          topic = some group.description;
          avatar = some a;
          members = some (record { is_full = true; member_map = members });
        }))

  -- `GetChatInfo`, of the group that a parsed portal identifier names.
  unfoldable pub chat_info_of : Result (String × String) → Do env (Answer ChatInfo)
  chat_info_of (err e) = pure (error (failed e))
  chat_info_of (ok (group_id, _)) = do got ← ask_group env g group_id; chat_info got

  unfoldable pub get_chat_info : String → Do env (Answer ChatInfo)
  get_chat_info portal_id = chat_info_of (parse_portal_id portal_id)

  -- What `GetUserInfo` makes of the relations that it got, or of their error.
  unfoldable pub user_info_of : String → List User → Option Error → Do env (Answer UserInfo)
  user_info_of ghost_id relations (some e) = pure (error e)
  user_info_of ghost_id relations none = elim (find_relation ghost_id relations) [
    | none ↦ pure (error (failed ("unable to find user with id: " ⧺ ghost_id)))
    | some u ↦ (do
      a ← wrap_avatar env u.avatar_url
      pure (
          answer (record {
            identifiers = u.name ∷ u.phone_number ∷ u.email ∷ [];
            name = some u.name;
            avatar = some a;
          })))
  ]

  -- `GetUserInfo`; the fuel is that of the list of relations.
  unfoldable pub get_user_info : ℕ → String → Do env (Answer UserInfo)
  get_user_info fuel ghost_id s = elim g.client [
    | none ↦ panics nil_pointer
    | some c ↦ elim (index_all_relations env.http rfc3339 c fuel s.world) [
      | none ↦ unfinished
      | some (relations, e, w) ↦ user_info_of ghost_id relations e (record s { world = w })
    ]
  ]

  -- A response without a message is a nil pointer.
  unfoldable pub sent_of : Answer (Option Message) → Do env (Answer Sent)
  sent_of (error e) s = done (error e) s
  sent_of (answer none) s = panics nil_pointer
  sent_of (answer (some m)) s = done (answer (record { id = m.id; sender_id = m.sender_id })) s

  unfoldable pub send_text : Message → Result (String × String) → Do env (Answer Sent)
  send_text m (err e) s = done (error (failed e)) s
  send_text m (ok (group_id, _)) s = elim g.client [
    | none ↦ panics nil_pointer
    | some c ↦
        let (got, w) = create_message env.http c group_id m s.world in
        sent_of got (record s { world = w })
  ]

  -- `HandleMatrixMessage`; `blank` is the zero value of a message.
  unfoldable pub handle_matrix_message : Message → String → String → Do env (Answer Sent)
  handle_matrix_message blank portal_id text =
      send_text (record blank { text = text }) (parse_portal_id portal_id)
