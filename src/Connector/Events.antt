-- ===== src/Connector/Events.antt =====
-- The events that the bridge queues, with the fields that the program sets: the structs of
-- maunium.net/go/mautrix/bridgev2, and `wrapAvatar` and `SendSimpleEventChatInfoChange` of
-- pkg/connector/handler.go.
use matrix_groupme_bridge.Prelude.{
  ℕ, String, List, [], ◌∷◌, ◌++◌, Option, none, some, Bool, true, ◌==◌, if◌then◌else◌, Run, done,
  panics, nil_pointer, split,
}
use matrix_groupme_bridge.Prelude.Json.{Dict}
use matrix_groupme_bridge.Groupme.Types.{Message}
use matrix_groupme_bridge.Groupme.Http.{Http, Client}
use matrix_groupme_bridge.Connector.Portal.{make_groupme_portal_id}

-- An avatar is removed, or downloaded from its URL when the bridge asks for it.
pub data Avatar : Type 0 where
  removed : Avatar
  avatar : (id url : String) → Avatar

pub data Membership : Type 0 where
  unset join ban : Membership

pub record UserInfo : Type 0 where
  pub identifiers : List String
  pub name : Option String
  pub avatar : Option Avatar

pub record ChatMember : Type 0 where
  pub nickname : Option String
  pub membership : Membership
  pub user_info : UserInfo

pub record ChatMemberList : Type 0 where
  pub is_full : Bool
  pub member_map : Dict ChatMember

pub record ChatInfo : Type 0 where
  pub name : Option String
  pub topic : Option String
  pub avatar : Option Avatar
  pub members : Option ChatMemberList

pub record ChatInfoChange : Type 0 where
  pub chat_info : Option ChatInfo
  pub member_changes : Option ChatMemberList

pub record EventMeta : Type 0 where
  pub portal_id : String
  pub receiver : String
  pub create_portal : Bool
  pub timestamp : ℕ

pub data RemoteEvent : Type 0 where
  chat_info_changed : EventMeta → ChatInfoChange → RemoteEvent
  reaction : EventMeta → (sender_login target emoji : String) → RemoteEvent
  message : EventMeta → (sender : String) (is_from_me : Bool) (content : Message) → RemoteEvent

-- `url_path` is the path of a parsed URL, none where it cannot be parsed.
pub record Env : Type 1 where
  pub http : Http
  pub url_path : String → Option String
  pub now : http.World → ℕ × http.World

-- `GroupmeClient`; its API client is nil before `Connect` made it.
pub record GroupmeClient : Type 0 where
  pub user_login_id : String
  pub auth_token : String
  pub user_id : String
  pub client : Option Client

pub record Bridge (env : Env) : Type 0 where
  pub queue : List RemoteEvent
  pub world : env.http.World

unfoldable pub no_info : ChatInfo
no_info = record { name = none; topic = none; avatar = none; members = none }

-- The last piece that is not empty; none where all are.
unfoldable pub last_piece : List String → Option String
last_piece [] = none
last_piece (p ∷ ps) =
    let later = last_piece ps in
    elim later [ some q ↦ some q | none ↦ if p == "" then none else some p ]

-- `path.Base`
unfoldable pub path_base : String → String
unfolding last_piece split
path_base path =
    if path == ""
    then "."
    else elim (last_piece (split b'/' path)) [ none ↦ "/" | some piece ↦ piece ]

module _ (env : Env) where
  abbrev pub Do : Type 0 → Type 0
  Do A = Run (Bridge env) A

  -- A URL that cannot be parsed is a nil pointer here.
  unfoldable pub wrap_avatar : String → Do Avatar
  unfolding path_base
  wrap_avatar url s = if url == "" then done removed s else elim (env.url_path url) [
    | none ↦ panics nil_pointer
    | some path ↦ done (avatar (path_base path) url) s
  ]

  -- `QueueRemoteEvent` with the metadata that every event of a group has.
  unfoldable pub queue_event : GroupmeClient → String → (EventMeta → RemoteEvent) → Do (Unit {0})
  unfolding make_groupme_portal_id
  queue_event g group event s =
      let (time, w) = env.now s.world in
      done tt (record s {
        queue =
            s.queue
            ++ event (record {
              portal_id = make_groupme_portal_id group g.user_login_id;
              receiver = g.user_login_id;
              create_portal = true;
              timestamp = time;
            })
              ∷ [];
        world = w;
      })

  -- `SendSimpleEventChatInfoChange`
  unfoldable pub send_chat_info_change : GroupmeClient → String → ChatInfoChange → Do (Unit {0})
  unfolding queue_event
  send_chat_info_change g group change = queue_event g group (λ meta. chat_info_changed meta change)
