-- ===== src/Groupme/Groups.antt =====
-- The endpoints for groups, users and chats: groups_api.go, users_api.go and chats_api.go of
-- pkg/groupmeclient. A page number is not negative.
use matrix_groupme_bridge.Prelude.{
  ℕ, String, List, [], ◌∷◌, Option, none, some, ◌==◌, eqb, if◌then◌else◌, ◌⧺◌, itoa,
}
use matrix_groupme_bridge.Prelude.Json.{Dict, insert}
use matrix_groupme_bridge.Groupme.Types.{Group, User, Chat}
use matrix_groupme_bridge.Groupme.Http.{
  Http, Client, get, post, no_body, group_settings, user_settings, rejoin, change_owners,
  GroupSettings, UserSettings, ChangeOwnerRequest, ChangeOwnerResult, Answer, answer, error, failed,
  new_request, call, call_for_status,
}

abbrev pub groups_endpoint_root : String
groups_endpoint_root = "/groups"

pub record GroupsQuery : Type 0 where
  pub page : ℕ
  pub per_page : ℕ
  pub omit : String

pub record ChatsQuery : Type 0 where
  pub page : ℕ
  pub per_page : ℕ

-- `query.Set(key, strconv.Itoa(n))` unless n is zero
unfoldable pub set_number : String → ℕ → Dict String → Dict String
set_number key n query = if eqb n 0 then query else insert key (itoa n) query

unfoldable pub set_text : String → String → Dict String → Dict String
set_text key s query = if s == "" then query else insert key s query

unfoldable pub groups_query : Option GroupsQuery → Dict String
unfolding set_number set_text
groups_query none = []
groups_query (some q) =
    set_text "omit" q.omit (set_number "per_page" q.per_page (set_number "page" q.page []))

unfoldable pub chats_query : Option ChatsQuery → Dict String
unfolding set_number
chats_query none = []
chats_query (some q) = set_number "per_page" q.per_page (set_number "page" q.page [])

-- The URL of a group's endpoint, fmt.Sprintf(base + "/groups/%s" + rest, id).
unfoldable pub group_url : Client → String → String → String
group_url c group_id rest = c.endpoint_base ⧺ "/groups/" ⧺ group_id ⧺ rest

-- What `ChangeGroupOwner` returns of the results.
unfoldable pub first_result : Answer (List ChangeOwnerResult) → Answer ChangeOwnerResult
first_result (error e) = error e
first_result (answer []) = error (failed "failed to parse results")
first_result (answer (r ∷ rs)) = answer r

-- `changeOwnerStatusCode.String`
unfoldable pub owner_status_text : String → String
owner_status_text status =
    if status == "200"
    then "success"
    else if status == "400"
    then "requester is also a new owner"
    else if status == "403"
    then "requester is not the owner of the group"
    else if status == "404"
    then "group or new owner not found or new owner is not member of the group"
    else if status == "405"
    then "request object is missing required field or any of the required fields is not an ID"
    else ""

module _ (http : Http) (c : Client) where
  open http use {World}

  unfoldable pub index_groups : Option GroupsQuery → World → Answer (List Group) × World
  index_groups q =
      call http c http.decode_groups
        (record (new_request get (c.endpoint_base ⧺ groups_endpoint_root) no_body) {
          query = groups_query q;
        })

  pub former_groups : World → Answer (List Group) × World
  former_groups =
      call http c http.decode_groups
        (new_request get (c.endpoint_base ⧺ groups_endpoint_root ⧺ "/former") no_body)

  unfoldable pub show_group : String → World → Answer Group × World
  show_group group_id =
      call http c http.decode_group (new_request get (group_url c group_id "") no_body)

  pub create_group : GroupSettings → World → Answer Group × World
  create_group gs =
      call http c http.decode_group
        (new_request post (c.endpoint_base ⧺ groups_endpoint_root) (group_settings gs))

  pub update_group : String → GroupSettings → World → Answer Group × World
  update_group group_id gs =
      call http c http.decode_group
        (new_request post (group_url c group_id "/update") (group_settings gs))

  pub destroy_group : String → World → Answer (Unit {0}) × World
  destroy_group group_id =
      call_for_status http c (new_request post (group_url c group_id "/destroy") no_body)

  pub join_group : String → String → World → Answer Group × World
  join_group group_id share_token =
      call http c http.decode_group
        (new_request post (group_url c group_id ("/join/" ⧺ share_token)) no_body)

  pub rejoin_group : String → World → Answer Group × World
  rejoin_group group_id =
      call http c http.decode_group
        (new_request post (c.endpoint_base ⧺ groups_endpoint_root ⧺ "/join") (rejoin group_id))

  pub change_group_owner : ChangeOwnerRequest → World → Answer ChangeOwnerResult × World
  change_group_owner req w =
      let (results, w') =
        call http c http.decode_owner_results
          (new_request post (c.endpoint_base ⧺ groups_endpoint_root ⧺ "/change_owners")
            (change_owners (req ∷ [])))
          w in
      (first_result results, w')

  unfoldable pub my_user : World → Answer User × World
  my_user = call http c http.decode_user (new_request get (c.endpoint_base ⧺ "/users/me") no_body)

  pub update_my_user : UserSettings → World → Answer User × World
  update_my_user us =
      call http c http.decode_user
        (new_request post (c.endpoint_base ⧺ "/users/update") (user_settings us))

  pub index_chats : Option ChatsQuery → World → Answer (List Chat) × World
  index_chats q =
      call http c http.decode_chats
        (record (new_request get (c.endpoint_base ⧺ "/chats") no_body) { query = chats_query q })
