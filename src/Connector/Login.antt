-- ===== src/Connector/Login.antt =====
-- Logging in: pkg/connector/login.go, and `LoadUserLogin` and the constants of
-- pkg/connector/connector.go.
pub mod Loaded
mod Tests
use matrix_groupme_bridge.Prelude.{
  ℕ, String, List, [], ◌∷◌, Option, none, some, Bool, ◌==◌, if◌then◌else◌, Result, ok, err, ◌⧺◌,
}
use matrix_groupme_bridge.Prelude.Json.{Dict, lookup}
use matrix_groupme_bridge.Realtime.Loop.{PushSubscription, new_push_subscription}
use matrix_groupme_bridge.Connector.Events.{GroupmeClient}

-- `database.UserLogin` with `UserLoginMetadata`.
pub record LoginRow : Type 0 where
  pub id : String
  pub remote_name : String
  pub auth_token : String

-- The network client of a login: what `login.Client` is set to.
pub record NetworkClient : Type 0 where
  pub client : GroupmeClient
  pub subscription : PushSubscription

-- `bridgev2.UserLogin`
pub record UserLogin : Type 0 where
  pub row : LoginRow
  pub network : Option NetworkClient

-- The framework's `NewLogin` is given the row and the function that loads a login; `now` is the
-- clock of the new subscriptions.
pub record Framework : Type 1 where
  pub World : Type 0
  pub now : ℕ → ℕ
  pub new_login : LoginRow → (UserLogin → UserLogin) → World → Result UserLogin × World

-- `GroupmeLogin`, whose other fields are never set.
pub record GroupmeLogin : Type 0 where
  pub auth_token : String
  pub user_id : String

pub data FieldType : Type 0 where
  password : FieldType

pub record InputField : Type 0 where
  pub type : FieldType
  pub id : String
  pub name : String
  pub pattern_text : String

pub data LoginStep : Type 0 where
  user_input : (step_id instructions : String) → List InputField → LoginStep
  complete : (step_id instructions : String) → UserLogin → LoginStep

pub record LoginFlow : Type 0 where
  pub name : String
  pub description : String
  pub id : String

-- `GetLoginFlows`
unfoldable pub get_login_flows : List LoginFlow
get_login_flows =
    record {
      name = "Auth token";
      description = "Log in with your Groupme access token from https://dev.groupmeclient.com/";
      id = "auth-token";
    }
    ∷ []

-- `CreateLogin`
unfoldable pub create_login : String → Result GroupmeLogin
create_login flow_id =
    if flow_id == "auth-token"
    then ok (record { auth_token = ""; user_id = "" })
    else err ("unknown login flow ID: " ⧺ flow_id)

-- `Start`
unfoldable pub start : LoginStep
start = user_input "groupmeclient.enter_api_key" "" (
    record {
      type = password;
      id = "auth_token";
      name = "Groupme auth token";
      pattern_text = "^[0-9a-zA-Z]{40}$";
    }
    ∷ [])

-- `input[key]`: a missing key reads as the empty text.
unfoldable pub input_at : String → Dict String → String
unfolding lookup
input_at key input = elim (lookup key input) [ none ↦ "" | some text ↦ text ]

-- The client of a login, with a subscription of its own.
unfoldable pub network_client : (ℕ → ℕ) → UserLogin → String → NetworkClient
unfolding new_push_subscription
network_client now login auth_token = record {
  client = record {
    user_login_id = login.row.id;
    auth_token = auth_token;
    user_id = "";
    client = none;
  };
  subscription = new_push_subscription now;
}

-- `LoadUserLogin`: the client of a stored login has the token of its metadata.
unfoldable pub load_user_login : (ℕ → ℕ) → UserLogin → UserLogin
unfolding network_client
load_user_login now login = record login {
  network = some (network_client now login login.row.auth_token);
}

-- The row that `SubmitUserInput` has stored.
unfoldable pub login_row : GroupmeLogin → LoginRow
login_row gl = record { id = gl.user_id; remote_name = gl.user_id; auth_token = gl.auth_token }

module _ (fw : Framework) where
  unfoldable pub completed : Result UserLogin → Result LoginStep
  completed (err e) = err e
  completed (ok login) = ok (complete "groupmeclient.complete" "Successfully logged in" login)

  -- `SubmitUserInput`: the login keeps the token of the input; the framework calls back with the
  -- login that it has made.
  unfoldable pub submit_user_input :
      Dict String → GroupmeLogin → fw.World → Result LoginStep × GroupmeLogin × fw.World
  unfolding network_client login_row completed
  submit_user_input input gl w =
      let gl' = record gl { auth_token = input_at "auth_token" input } in
      let (made, w') =
        fw.new_login (login_row gl')
          (λ login. record login { network = some (network_client fw.now login gl'.auth_token) })
          w in
      (completed made, gl', w')

-- The constants of `GetName` and `GetBridgeInfoVersion`.
pub record BridgeName : Type 0 where
  pub display_name : String
  pub network_url : String
  pub network_icon : String
  pub network_id : String
  pub beeper_bridge_type : String
  pub default_port : ℕ

unfoldable pub get_name : BridgeName
get_name = record {
  display_name = "Groupme";
  network_url = "https://groupme.com";
  network_icon = "mxc://maunium.net/FYuKJHaCrSeSpvBJfHwgYylP";
  network_id = "groupme";
  beeper_bridge_type = "jrgrover.com/matrix-groupme-bridge";
  default_port = 29322;
}

unfoldable pub get_bridge_info_version : ℕ × ℕ
get_bridge_info_version = (1, 1)
