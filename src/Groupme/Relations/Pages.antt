-- ===== src/Groupme/Relations/Pages.antt =====
-- The pages that `IndexAllRelations` gathers.
use matrix_groupme_bridge.Prelude.{
  ℕ, zero, suc, ◌<◌, ◌≤◌, ◌≡◌, refl, ◌∙◌, String, List, [], ◌++◌, Option, none, some, ltb, length,
  arith, true, false,
}
use mathlib.Core.List.{append_assoc, append-nil}
use matrix_groupme_bridge.Groupme.Types.{User}
use matrix_groupme_bridge.Groupme.Http.{Http, Client, answer, error, Error}
use matrix_groupme_bridge.Groupme.Relations.{
  full_page, index_relations, next_since, gather, index_all_relations,
}

module _ (http : Http) (rfc3339 : ℕ → String) (c : Client) where
  open http use {World}

  -- The requests for the pages from a time on, as the server answers them: how many there are, the
  -- relations on them, the error that ends them, if one does, and the world after them.
  pub data Fetched : String → World → ℕ → List User → Option Error → World → Type 0 where
    refused :
        {since : String} {w w' : World} {e : Error}
        → index_relations http rfc3339 c since w ≡ (error e, w')
        → Fetched since w 1 [] (some e) w'
    last_page :
        {since : String} {w w' : World} {users : List User}
        → index_relations http rfc3339 c since w ≡ (answer users, w')
        → length users < full_page
        → Fetched since w 1 users none w'
    another_page :
        {since : String} {w w' w'' : World} {users rest : List User} {pages : ℕ} {e : Option Error}
        → index_relations http rfc3339 c since w ≡ (answer users, w')
        → full_page ≤ length users
        → Fetched (next_since http rfc3339 c users) w' pages rest e w''
        → Fetched since w (suc pages) (users ++ rest) e w''

  gather-Fetched :
      {since : String} {w w' : World} {pages : ℕ} {users : List User} {e : Option Error}
      → Fetched since w pages users e w'
      → (fuel : ℕ) (got : List User) → pages ≤ fuel
      → gather http rfc3339 c fuel got since w ≡ some (got ++ users, e, w')
  unfolding gather
  gather-Fetched (refused e) zero got h = absurd (omega arith)
  gather-Fetched (last_page e l) zero got h = absurd (omega arith)
  gather-Fetched (another_page e l f) zero got h = absurd (omega arith)
  gather-Fetched (refused e) (suc fuel) got h = rw (e, gather) (rw (e, append-nil got) refl)
  gather-Fetched (last_page {users = users} e l) (suc fuel) got h =
      let short : ltb (length users) full_page ≡ true = ground (arith, l) in
      rw (e, gather) (rw (e, short) refl)
  gather-Fetched (another_page {users = users} {rest = rest} e l f) (suc fuel) got h =
      let full : ltb (length users) full_page ≡ false = ground (arith, l) in
      rw (e, gather)
        (rw (e, full)
          (gather-Fetched f fuel (got ++ users) (omega arith)
            ∙ rw (append_assoc got users rest) refl))

  -- For a server whose answers end, by a short page or an error, after so many pages: with that much
  -- fuel or more `IndexAllRelations` returns, with the relations of all the pages in their order, and
  -- the error if one ended them.
  pub index_all_relations-Fetched :
      {w w' : World} {pages : ℕ} {users : List User} {e : Option Error} (fuel : ℕ)
      → Fetched "" w pages users e w'
      → pages ≤ fuel
      → index_all_relations http rfc3339 c fuel w ≡ some (users, e, w')
  unfolding index_all_relations
  index_all_relations-Fetched fuel f h = gather-Fetched f fuel [] h
