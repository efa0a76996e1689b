-- ===== src/Connector/Connect.antt =====
-- `Connect`, `Disconnect`, `IsLoggedIn` and `LogoutRemote` of pkg/connector/client.go.
pub mod Reports
pub mod Listens
pub mod Delivers
mod Tests
use matrix_groupme_bridge.Prelude.{
  ℕ, String, List, [], ◌∷◌, ◌++◌, Option, none, some, Bool, true, ◌==◌, if◌then◌else◌, Outcome, Run,
  done, panics, unfinished, pure, ◌>>=◌, ◌>>◌, nil_pointer,
}
use matrix_groupme_bridge.Groupme.Types.{User, meta_error}
use matrix_groupme_bridge.Groupme.Http.{
  Client, Error, failed, api, Answer, answer, error, new_client,
}
use matrix_groupme_bridge.Groupme.Groups.{my_user}
use matrix_groupme_bridge.Faye.Transport.{Net}
use matrix_groupme_bridge.Realtime.Loop.{add_handler}
use matrix_groupme_bridge.Realtime.Push.{new_push_client}
use matrix_groupme_bridge.Realtime.Setup.{Push, setup, subscribe_to_user}
use matrix_groupme_bridge.Connector.Events.{Env, GroupmeClient}
use matrix_groupme_bridge.Connector.Dispatch.{full_handler}

-- A state of the bridge, which is always that of bad credentials; `go_error` is the entry of `Info`.
pub record BridgeState : Type 0 where
  pub error : String
  pub message : String
  pub go_error : Option String

-- A client with its subscription, and the states that it has sent. `self` names the client among the
-- handlers.
pub record Session (env : Env) (net : Net) : Type 0 where
  pub self : ℕ
  pub client : GroupmeClient
  pub push : Push net
  pub states : List BridgeState
  pub world : env.http.World

-- `err.Error()` of a call of the API.
unfoldable pub error_text : Error → String
error_text (failed e) = e
error_text (api m) = meta_error m

-- `IsLoggedIn`: it does not look at the connection.
unfoldable pub is_logged_in : GroupmeClient → Bool
is_logged_in g = true

module _ (env : Env) (net : Net) where
  abbrev pub InSession : Type 0 → Type 0
  InSession A = Run (Session env net) A

  unfoldable pub send_state : String → String → Option String → InSession (Unit {0})
  send_state code text go_error s = done tt (record s {
    states = s.states ++ record { error = code; message = text; go_error = go_error } ∷ [];
  })

  -- A run of the subscription.
  abbrev pub on_push :
      {A B : Type 0}
      → Session env net
      → Outcome (Push net) A
      → (A → InSession B)
      → Outcome (Session env net) B
  on_push s (done a push) f = f a (record s { push = push })
  on_push s (panics p) f = panics p
  on_push s unfinished f = unfinished

  unfoldable pub after_subscribe : Option String → InSession (Unit {0})
  after_subscribe (some e) =
      send_state "groupme-subscribe-to-user" "Failed to subscribe to user" (some e)
  after_subscribe none = pure tt

  unfoldable pub after_setup : ℕ → Option String → InSession (Unit {0})
  after_setup fuel (some e) =
      send_state "groupme-setup-pushsubscription" "Failed to setup PushSubscription" (some e)
  after_setup fuel none =
      λ s. on_push s (subscribe_to_user net fuel s.client.user_id s.push) after_subscribe

  unfoldable pub take_user : User → Session env net → Session env net
  take_user u s = record s {
    client = record s.client { user_id = u.id };
    push = record s.push { subscription = add_handler (full_handler s.self) s.push.subscription };
  }

  unfoldable pub after_user : ℕ → Answer User → InSession (Unit {0})
  after_user fuel (error e) =
      send_state "groupme-get-user" "Failed to get user information" (some (error_text e))
  after_user fuel (answer u) = λ s.
      let s' = take_user u s in
      on_push s' (setup net fuel (new_push_client s'.client.auth_token) s'.push) (after_setup fuel)

  -- `Connect` with a token.
  unfoldable pub connect_with : ℕ → Client → InSession (Unit {0})
  connect_with fuel c s =
      let (got, w) = my_user env.http c s.world in
      after_user fuel got (record s { client = record s.client { client = some c }; world = w })

  unfoldable pub connect : ℕ → InSession (Unit {0})
  connect fuel s =
      if s.client.auth_token == ""
      then send_state "groupme-connect-authtoken" "Failed to find existing authtoken" none s
      else connect_with fuel (new_client s.client.auth_token) s

  -- `Close` of the API client closes idle connections only; without a client it is a nil pointer.
  unfoldable pub close_client : InSession (Unit {0})
  close_client s = elim s.client.client [ none ↦ panics nil_pointer | some _ ↦ done tt s ]

  -- `Disconnect` and `LogoutRemote`
  unfoldable pub disconnect : InSession (Unit {0})
  disconnect = close_client

  unfoldable pub logout_remote : InSession (Unit {0})
  logout_remote = close_client
