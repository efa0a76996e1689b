-- ===== src/Connector/Api/Found.antt =====
-- The user that `GetUserInfo` finds.
use matrix_groupme_bridge.Prelude.{
  ℕ, ◌≤◌, ◌≡◌, refl, String, List, [], ◌∷◌, ◌++◌, none, some, false, ◌==◌, done, eq_iff, All,
}
use matrix_groupme_bridge.Groupme.Types.{User}
use matrix_groupme_bridge.Groupme.Http.{Client, answer}
use matrix_groupme_bridge.Groupme.Relations.Pages.{Fetched, index_all_relations-Fetched}
use matrix_groupme_bridge.Connector.Events.{Env, UserInfo, GroupmeClient, Bridge}
use matrix_groupme_bridge.Connector.Api.{find_relation, get_user_info, user_info_of}
use matrix_groupme_bridge.Connector.Events.{wrap_avatar}

find_relation-append :
    (id : String) (before after : List User) (u : User)
    → All (λ v. (v.id == id) ≡ false) before
    → u.id ≡ id
    → find_relation id (before ++ u ∷ after) ≡ some u
unfolding find_relation
find_relation-append id [] after u h e = rw (find_relation, (eq_iff u.id id).1 e) refl
find_relation-append id (v ∷ before) after u h e =
    rw (find_relation, h.0) (find_relation-append id before after u h.1 e)

-- A ghost whose identifier is that of a relation on some page that the server gives, and of no earlier
-- one, for a relation without a picture: with fuel for the pages `GetUserInfo` returns, and gives the
-- name, phone number and email of that relation.
pub get_user_info_found :
    (env : Env) (rfc3339 : ℕ → String) (g : GroupmeClient) (c : Client) (s : Bridge env)
    (fuel pages : ℕ) (before after : List User) (u : User) (w : env.http.World)
    → g.client ≡ some c
    → pages ≤ fuel
    → Fetched env.http rfc3339 c "" s.world pages (before ++ u ∷ after) none w
    → All (λ v. (v.id == u.id) ≡ false) before
    → u.avatar_url ≡ ""
    → (info : UserInfo) × (get_user_info env rfc3339 g fuel u.id s
        ≡ done (answer info) (record s { world = w }))
      × (info.identifiers ≡ u.name ∷ u.phone_number ∷ u.email ∷ [])
      × (info.name ≡ some u.name)
unfolding get_user_info user_info_of wrap_avatar
get_user_info_found env rfc3339 g c s fuel pages before after u w hc hf pagesFetched hb ha =
    rw (hc, get_user_info)
      (rw (index_all_relations-Fetched env.http rfc3339 c fuel pagesFetched hf) (
        rw (user_info_of, find_relation-append u.id before after u hb refl)
          (rw ha (_, refl, refl, refl))))
