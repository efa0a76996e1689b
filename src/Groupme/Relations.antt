-- ===== src/Groupme/Relations.antt =====
-- The paginated list of relations: pkg/groupmeclient/relations_api.go. The loop takes fuel, a round
-- for each page. `rfc3339` is how package time prints a timestamp as RFC 3339, in UTC.
pub mod Pages
use matrix_groupme_bridge.Prelude.{
  ℕ, zero, suc, ◌<◌, ◌≤◌, ◌≡◌, refl, String, List, [], ◌∷◌, ◌++◌, Option, none, some, Bool, true,
  false, ◌==◌, ltb, if◌then◌else◌, length, Result, ok, err, ◌⧺◌, arith,
}
use matrix_groupme_bridge.Prelude.Json.{Dict, insert}
use matrix_groupme_bridge.Groupme.Types.{User}
use matrix_groupme_bridge.Groupme.Http.{
  Http, Client, get, no_body, Answer, answer, error, Error, new_request, call, groupme_api_path,
}

-- A page of this many relations is not the last.
abbrev pub full_page : ℕ
full_page = 200

unfoldable pub last_updated : User → List User → ℕ
last_updated u [] = u.updated_at
last_updated u (v ∷ vs) = last_updated v vs

unfoldable pub relations_query : String → Dict String
relations_query since =
    let query = insert "include_blocked" "true" [] in
    if since == "" then query else insert "since" since query

module _ (http : Http) (rfc3339 : ℕ → String) (c : Client) where
  open http use {World}

  unfoldable pub index_relations : String → World → Answer (List User) × World
  index_relations since =
      call http c http.decode_users
        (record (new_request get (groupme_api_path ⧺ "v4" ⧺ "/relationships") no_body) {
          query = relations_query since;
        })

  -- The time from which the next page is asked for, after a page that is not empty.
  unfoldable pub next_since : List User → String
  unfolding last_updated
  next_since [] = ""
  next_since (u ∷ us) = rfc3339 (last_updated u us)

  -- The loop of `IndexAllRelations`: the relations gathered so far with the error, if one ends it;
  -- none where the fuel runs out.
  unfoldable pub gather : ℕ → List User → String → World → Option (List User × Option Error × World)
  gather zero got since w = none
  gather (suc fuel) got since w =
      let (page, w') = index_relations since w in
      elim page [
        | error e ↦ some (got, some e, w')
        | answer users ↦
            let rest = gather fuel (got ++ users) (next_since users) w' in
            if ltb (length users) full_page then some (got ++ users, none, w') else rest
      ]

  unfoldable pub index_all_relations : ℕ → World → Option (List User × Option Error × World)
  unfolding gather
  index_all_relations fuel w = gather fuel [] "" w
