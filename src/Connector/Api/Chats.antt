-- ===== src/Connector/Api/Chats.antt =====
-- What `GetChatInfo` tells of a group.
use matrix_groupme_bridge.Prelude.{
  ℕ, ◌≡◌, refl, ap, ◌∙◌, inl, inr, String, List, [], ◌∷◌, Option, none, some, true, ◌==◌,
  if◌then◌else◌, done, Bool-cases, All,
}
use matrix_groupme_bridge.Prelude.Json.{Dict, lookup, insert, lookup-insert}
use matrix_groupme_bridge.Groupme.Types.{Member, Group}
use matrix_groupme_bridge.Groupme.Http.{Client, answer}
use matrix_groupme_bridge.Groupme.Groups.{show_group}
use matrix_groupme_bridge.Connector.Portal.{
  HasNoColon, make_groupme_portal_id, parse_portal_id-make,
}
use matrix_groupme_bridge.Connector.Events.{
  Membership, ChatMember, ChatInfo, Env, GroupmeClient, Bridge,
}
use matrix_groupme_bridge.Connector.Handlers.{ask_group}
use matrix_groupme_bridge.Connector.Handlers.Members.{HasPicture, wrap_avatar-returns}
use matrix_groupme_bridge.Connector.Api.{
  membership_of, chat_member, chat_members, chat_info, chat_info_of, get_chat_info,
}

-- Whether the last entry of a user says join or ban; or else what was there.
unfoldable pub last_membership : String → List Member → Option Membership → Option Membership
last_membership user [] found = found
last_membership user (m ∷ ms) found =
    last_membership user ms (if m.user_id == user then some (membership_of m) else found)

unfoldable pub membership_in : Option ChatMember → Option Membership
membership_in none = none
membership_in (some m) = some m.membership

membership_in-insert :
    (user key : String) (made : ChatMember) (members : Dict ChatMember)
    → membership_in (lookup user (insert key made members))
      ≡ (if key == user then some made.membership else membership_in (lookup user members))
unfolding membership_in
membership_in-insert user key made members = elim (Bool-cases (key == user)) [
  | inl e ↦ rw (lookup-insert key user made members, e) refl
  | inr e ↦ rw (lookup-insert key user made members, e) refl
]

module _ (env : Env) (rfc3339 : ℕ → String) (g : GroupmeClient) where
  chat_member_lem :
      (m : Member) (s : Bridge env)
      → HasPicture env g m.image_url
      → (made : ChatMember) × (chat_member env rfc3339 g m s ≡ done made s)
        × (made.membership ≡ membership_of m)
  unfolding chat_member
  chat_member_lem m s h =
      let (a, e) = wrap_avatar-returns env g m.image_url s h in rw (chat_member, e) (_, refl, refl)

  chat_members_lem :
      (ms : List Member) (members : Dict ChatMember) (s : Bridge env)
      → All (λ m. HasPicture env g m.image_url) ms
      → (got : Dict ChatMember) × (chat_members env rfc3339 g ms members s ≡ done got s)
        × ((user : String)
            → membership_in (lookup user got)
              ≡ last_membership user ms (membership_in (lookup user members)))
  unfolding chat_members last_membership
  chat_members_lem [] members s h = (members, refl, λ user. refl)
  chat_members_lem (m ∷ ms) members s h =
      let (made, e, same) = chat_member_lem m s h.0 in
      let (got, e', said) = chat_members_lem ms (insert m.user_id made members) s h.1 in
      (
        got,
        rw (chat_members, e) e',
        λ user.
            said user
            ∙ ap (last_membership user ms)
                (membership_in-insert user m.user_id made members ∙ rw same refl),
      )

  -- For the portal made of a group and a login that hold no colon, a group that the server shows, with
  -- pictures that are none or have a URL that can be parsed: `GetChatInfo` returns the group's name, its
  -- description as the topic, and a full list of members, in which just the users of the group stand, each
  -- banned if their last entry was kicked and joined otherwise.
  pub get_chat_info_shown :
      (c : Client) (group_id login_id : String) (group : Group) (s : Bridge env)
      (w : env.http.World)
      → HasNoColon group_id
      → HasNoColon login_id
      → g.client ≡ some c
      → show_group env.http c group_id s.world ≡ (answer group, w)
      → HasPicture env g group.image_url
      → All (λ m. HasPicture env g m.image_url) group.members
      → (info : ChatInfo) × (members : Dict ChatMember) × (get_chat_info env rfc3339 g
            (make_groupme_portal_id group_id login_id)
            s
          ≡ done (answer info) (record s { world = w }))
        × (info.name ≡ some group.name)
        × (info.topic ≡ some group.description)
        × (info.members ≡ some (record { is_full = true; member_map = members }))
        × ((user : String)
            → membership_in (lookup user members) ≡ last_membership user group.members none)
  unfolding get_chat_info chat_info_of ask_group chat_info membership_in lookup
  get_chat_info_shown c group_id login_id group s w free free' hc shown picture pictures =
      let t : Bridge env = record s { world = w } in
      let asked : ask_group env g group_id s ≡ done (answer group) t =
        rw (ask_group, hc) (rw shown refl) in
      let (members, e, said) = chat_members_lem group.members [] t pictures in
      let (a, e') = wrap_avatar-returns env g group.image_url t picture in
      (
        record {
          name = some group.name;
          topic = some group.description;
          avatar = some a;
          members = some (record { is_full = true; member_map = members });
        },
        members,
        rw (get_chat_info, parse_portal_id-make group_id login_id free free', chat_info_of, asked)
            (rw (chat_info, e) (rw e' refl)),
        refl,
        refl,
        refl,
        said,
      )
