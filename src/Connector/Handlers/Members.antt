-- ===== src/Connector/Handlers/Members.antt =====
-- The changes of a group's members that the bridge tells Matrix.
use matrix_groupme_bridge.Prelude.{
  ◌≡◌, refl, ap, ◌∙◌, String, List, [], ◌∷◌, Option, none, some, true, false, ◌==◌, ◌⊎◌, inl, inr,
  if◌then◌else◌, done, Bool-cases, All,
}
use matrix_groupme_bridge.Prelude.Json.{Dict, lookup, insert, lookup-insert}
use matrix_groupme_bridge.Groupme.Types.{Member}
use matrix_groupme_bridge.Connector.Events.{
  Avatar, ChatMember, Env, Bridge, GroupmeClient, wrap_avatar, send_chat_info_change,
}
use matrix_groupme_bridge.Connector.Handlers.{
  add_members, new_member, handle_members, members_to_update, member_change,
}

-- The nickname that the last entry of a user gives, or else the one that was there.
unfoldable pub last_nickname : String → List Member → Option String → Option String
last_nickname user [] found = found
last_nickname user (m ∷ ms) found =
    last_nickname user ms (if m.user_id == user then some m.nickname else found)

unfoldable pub nickname_of : Option ChatMember → Option String
nickname_of none = none
nickname_of (some m) = m.nickname

nickname_of-insert :
    (user key nickname : String) (made : ChatMember) (members : Dict ChatMember)
    → made.nickname ≡ some nickname
    → nickname_of (lookup user (insert key made members))
      ≡ (if key == user then some nickname else nickname_of (lookup user members))
unfolding nickname_of
nickname_of-insert user key nickname made members h = elim (Bool-cases (key == user)) [
  | inl e ↦ rw (lookup-insert key user made members, e) h
  | inr e ↦ rw (lookup-insert key user made members, e) refl
]

module _ (env : Env) (g : GroupmeClient) where
  -- A picture that can be named: none, or one whose URL can be parsed.
  abbrev pub HasPicture : String → Type 0
  HasPicture url = (url ≡ "") ⊎ ((path : String) × (env.url_path url ≡ some path))

  pub wrap_avatar-returns :
      (url : String) (s : Bridge env)
      → HasPicture url
      → (a : Avatar) × (wrap_avatar env url s ≡ done a s)
  unfolding wrap_avatar
  wrap_avatar-returns url s (inl e) = rw e (_, refl)
  wrap_avatar-returns url s (inr (path, e)) = elim (Bool-cases (url == "")) [
    | inl b ↦ rw b (_, refl)
    | inr b ↦ rw (b, e) (_, refl)
  ]

  new_member_lem :
      (m : Member) (s : Bridge env)
      → HasPicture m.image_url
      → (made : ChatMember) × (new_member env g m s ≡ done made s)
        × (made.nickname ≡ some m.nickname)
  unfolding new_member
  new_member_lem m s h =
      let (a, e) = wrap_avatar-returns m.image_url s h in rw (new_member, e) (_, refl, refl)

  add_members_lem :
      (ms : List Member) (members : Dict ChatMember) (s : Bridge env)
      → All (λ m. HasPicture m.image_url) ms
      → (got : Dict ChatMember) × (add_members env g ms members s ≡ done got s)
        × ((user : String)
            → nickname_of (lookup user got)
              ≡ last_nickname user ms (nickname_of (lookup user members)))
  unfolding add_members last_nickname
  add_members_lem [] members s h = (members, refl, λ user. refl)
  add_members_lem (m ∷ ms) members s h =
      let (made, e, name) = new_member_lem m s h.0 in
      let (got, e', names) = add_members_lem ms (insert m.user_id made members) s h.1 in
      (
        got,
        rw (add_members, e) e',
        λ user.
            names user
            ∙ ap (last_nickname user ms)
                (nickname_of-insert user m.user_id m.nickname made members name),
      )

  -- Members who were added, each with no picture or one whose URL can be parsed: `HandleMembers` asks
  -- GroupMe nothing and sends one change of the group, of some of its members, which gives a nickname to
  -- just the users of the list, to each the one of their last entry.
  pub handle_members_added :
      (group : String) (members : List Member) (s : Bridge env)
      → All (λ m. HasPicture m.image_url) members
      → (changed : Dict ChatMember) × (handle_members env g group members true s
          ≡ send_chat_info_change env g group
              (member_change (record { is_full = false; member_map = changed }))
              s)
        × ((user : String) → nickname_of (lookup user changed) ≡ last_nickname user members none)
  unfolding handle_members nickname_of lookup
  handle_members_added group members s h =
      let (got, e, names) = add_members_lem members [] s h in
      (got, rw (handle_members, members_to_update, e) refl, names)
