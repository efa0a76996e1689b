-- ===== src/Groupme/Http.antt =====
-- The HTTP client of pkg/groupmeclient/client.go. What net/http, net/url and encoding/json do is the
-- parameter `Http`; the token and the query are put together here.
pub mod Answers
use matrix_groupme_bridge.Prelude.{
  ℕ, ◌≤◌, String, List, [], ◌∷◌, Option, none, some, Bool, true, false, leb, if◌then◌else◌, Result,
  ok, err, ◌⧺◌,
}
use matrix_groupme_bridge.Prelude.Json.{Dict, lookup, insert}
use matrix_groupme_bridge.Groupme.Types.{Meta, Group, Message, User, Chat}

pub data Method : Type 0 where
  get post : Method

-- The settings of `CreateGroup` and `UpdateGroup`.
pub record GroupSettings : Type 0 where
  pub name : String
  pub description : String
  pub image_url : String
  pub office_mode : Bool
  pub share : Bool

-- The settings of `UpdateMyUser`.
pub record UserSettings : Type 0 where
  pub avatar_url : String
  pub name : String
  pub email : String
  pub zip_code : String

pub record ChangeOwnerRequest : Type 0 where
  pub group_id : String
  pub owner_id : String

pub record ChangeOwnerResult : Type 0 where
  pub group_id : String
  pub owner_id : String
  pub status : String

-- A request's body, before `json.Marshal`, which does not fail on these types.
pub data Body : Type 0 where
  no_body : Body
  group_settings : GroupSettings → Body
  user_settings : UserSettings → Body
  rejoin : String → Body
  change_owners : List ChangeOwnerRequest → Body
  message : Message → Body
  direct_message : Message → Body

pub record Request : Type 0 where
  pub method : Method
  pub url : String
  pub query : Dict String
  pub content_type : String
  pub body : Body

pub record Response : Type 0 where
  pub status_code : ℕ
  pub body : Result String

-- The error of a call: one of the libraries', by its text, or what the server said.
pub data Error : Type 0 where
  failed : String → Error
  api : Meta → Error

pub data Answer (A : Type 0) : Type 0 where
  answer : A → Answer A
  error : Error → Answer A

-- `decode_meta` is the error response of a body, none where it cannot be parsed; `url_error` is the
-- error of `http.NewRequest`; `new_uuid` is that of github.com/google/uuid.
pub record Http : Type 1 where
  pub World : Type 0
  pub perform : Request → World → Result Response × World
  pub new_uuid : World → String × World
  pub url_error : String → Option String
  pub decode_meta : String → Option Meta
  pub decode_groups : String → Result (List Group)
  pub decode_group : String → Result Group
  pub decode_user : String → Result User
  pub decode_users : String → Result (List User)
  pub decode_chats : String → Result (List Chat)
  pub decode_message : String → Result (Option Message)
  pub decode_messages : String → Result (ℕ × List Message)
  pub decode_direct_message : String → Result (Option Message)
  pub decode_direct_messages : String → Result (ℕ × List Message)
  pub decode_owner_results : String → Result (List ChangeOwnerResult)

pub record Client : Type 0 where
  pub endpoint_base : String
  pub authorization_token : String

abbrev pub groupme_api_path : String
groupme_api_path = "https://api.groupme.com/"

-- `NewClient`
unfoldable pub new_client : String → Client
new_client auth_token = record {
  endpoint_base = groupme_api_path ⧺ "v3";
  authorization_token = auth_token;
}

abbrev pub error_status_code_min : ℕ
error_status_code_min = 300

-- `http.NewRequest`, its error apart.
unfoldable pub new_request : Method → String → Body → Request
new_request method url body = record {
  method = method;
  url = url;
  query = [];
  content_type = "";
  body = body;
}

-- The error that `do` makes of a bad status: with the server's list of errors if it can be read.
unfoldable pub status_error : ℕ → (String → Option Meta) → Result String → Error
status_error code decode (err e) = api (record { code = code; errors = [] })
status_error code decode (ok body) = elim (decode body) [
  | none ↦ api (record { code = code; errors = [] })
  | some m ↦ api m
]

unfoldable pub decode_body : {A : Type 0} → (String → Result A) → Result String → Answer A
decode_body decode (err e) = error (failed e)
decode_body decode (ok body) = elim (decode body) [ ok a ↦ answer a | err e ↦ error (failed e) ]

-- `do` after the request was sent.
unfoldable pub read_response :
    {A : Type 0} → (String → Option Meta) → (String → Result A) → Result Response → Answer A
unfolding status_error decode_body
read_response decode_meta decode (err e) = error (failed e)
read_response decode_meta decode (ok r) =
    if leb error_status_code_min r.status_code
    then error (status_error r.status_code decode_meta r.body)
    else decode_body decode r.body

-- `do` with a nil destination: the body of a good response is not read.
unfoldable pub read_status : (String → Option Meta) → Result Response → Answer (Unit {0})
unfolding status_error
read_status decode_meta (err e) = error (failed e)
read_status decode_meta (ok r) =
    if leb error_status_code_min r.status_code
    then error (status_error r.status_code decode_meta r.body)
    else answer tt

unfoldable pub method_header : Request → Request
method_header r = elim r.method [ get ↦ r | post ↦ record r { content_type = "application/json" } ]

-- The request that `doWithAuthToken` sends.
unfoldable pub with_auth_token : Client → Request → Request
unfolding method_header
with_auth_token c r =
    method_header (record r { query = insert "token" c.authorization_token r.query })

module _ (http : Http) where
  -- `http.NewRequest` and `doWithAuthToken`, with the decoder of the destination.
  unfoldable pub call :
      {A : Type 0} → Client → (String → Result A) → Request → http.World → Answer A × http.World
  unfolding with_auth_token read_response
  call c decode r w = elim (http.url_error r.url) [
    | some e ↦ (error (failed e), w)
    | none ↦
        let (reply, w') = http.perform (with_auth_token c r) w in
        (read_response http.decode_meta decode reply, w')
  ]

  unfoldable pub call_for_status : Client → Request → http.World → Answer (Unit {0}) × http.World
  unfolding with_auth_token read_status
  call_for_status c r w = elim (http.url_error r.url) [
    | some e ↦ (error (failed e), w)
    | none ↦
        let (reply, w') = http.perform (with_auth_token c r) w in
        (read_status http.decode_meta reply, w')
  ]
