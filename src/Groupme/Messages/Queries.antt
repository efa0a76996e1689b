-- ===== src/Groupme/Messages/Queries.antt =====
-- The parameters that the lists of messages are asked for with.
use matrix_groupme_bridge.Prelude.{
  String, [], ◌∷◌, ◌++◌, ◌≡◌, refl, ◌∙◌, Option, none, some, true, false, ◌==◌, eqb, if◌then◌else◌,
  itoa, Bool, Bool-cases, inl, inr, eq_refl,
}
use matrix_groupme_bridge.Prelude.Json.{Dict, lookup}
use matrix_groupme_bridge.Groupme.Messages.{
  MessagesQuery, DirectMessagesQuery, add_text, messages_query, direct_messages_query,
}

-- A parameter is left out where it is empty.
abbrev pub given : String → Option String
given s = if s == "" then none else some s

lookup-append_other :
    (key name value : String) (query : Dict String)
    → (name == key) ≡ false
    → lookup key (query ++ (name, value) ∷ []) ≡ lookup key query
unfolding lookup
lookup-append_other key name value [] h = rw h refl
lookup-append_other key name value ((k, v) ∷ query) h =
    rw (lookup-append_other key name value query h) refl

lookup-append_last :
    (key value : String) (query : Dict String)
    → lookup key query ≡ none
    → lookup key (query ++ (key, value) ∷ []) ≡ some value
unfolding lookup
lookup-append_last key value [] h = rw (eq_refl key) refl
lookup-append_last key value ((k, v) ∷ query) h = elim (Bool-cases (k == key)) [
  | inl e ↦ cc (rw e at h)
  | inr e ↦ rw e (lookup-append_last key value query (rw e at h))
]

lookup-add_text_other :
    (key name s : String) (query : Dict String)
    → (name == key) ≡ false
    → lookup key (add_text name s query) ≡ lookup key query
unfolding add_text
lookup-add_text_other key name s query h = elim (Bool-cases (s == "")) [
  | inl e ↦ rw e refl
  | inr e ↦ rw e (lookup-append_other key name s query h)
]

lookup-add_text :
    (key s : String) (query : Dict String)
    → lookup key query ≡ none
    → lookup key (add_text key s query) ≡ given s
unfolding add_text
lookup-add_text key s query h = elim (Bool-cases (s == "")) [
  | inl e ↦ rw e h
  | inr e ↦ rw e (lookup-append_last key s query h)
]

lookup-limited_other :
    (key value : String) (empty : Bool) (ids : Dict String)
    → ("limit" == key) ≡ false
    → lookup key (if empty then ids else ids ++ ("limit", value) ∷ []) ≡ lookup key ids
lookup-limited_other key value true ids h = refl
lookup-limited_other key value false ids h = lookup-append_other key "limit" value ids h

lookup-limited :
    (value : String) (empty : Bool) (ids : Dict String)
    → lookup "limit" ids ≡ none
    → lookup "limit" (if empty then ids else ids ++ ("limit", value) ∷ [])
      ≡ (if empty then none else some value)
lookup-limited value true ids h = h
lookup-limited value false ids h = lookup-append_last "limit" value ids h

-- The query of `IndexMessages` has each identifier that is given, under its documented key, and the limit where it
-- is not zero.
pub messages_query_lem :
    (q : MessagesQuery)
    → (lookup "before_id" (messages_query (some q)) ≡ given q.before_id)
      × (lookup "since_id" (messages_query (some q)) ≡ given q.since_id)
      × (lookup "after_id" (messages_query (some q)) ≡ given q.after_id)
      × (lookup "limit" (messages_query (some q))
          ≡ (if eqb q.limit 0 then none else some (itoa q.limit)))
unfolding messages_query lookup
messages_query_lem q = (
  lookup-limited_other "before_id" _ (eqb q.limit 0) _ refl
      ∙ lookup-add_text_other "before_id" "after_id" q.after_id _ refl
      ∙ lookup-add_text_other "before_id" "since_id" q.since_id _ refl
      ∙ lookup-add_text "before_id" q.before_id [] refl,
  lookup-limited_other "since_id" _ (eqb q.limit 0) _ refl
      ∙ lookup-add_text_other "since_id" "after_id" q.after_id _ refl
      ∙ lookup-add_text "since_id" q.since_id _
          (lookup-add_text_other "since_id" "before_id" q.before_id [] refl),
  lookup-limited_other "after_id" _ (eqb q.limit 0) _ refl
      ∙ lookup-add_text "after_id" q.after_id _ (
          lookup-add_text_other "after_id" "since_id" q.since_id _ refl
          ∙ lookup-add_text_other "after_id" "before_id" q.before_id [] refl),
  lookup-limited (itoa q.limit) (eqb q.limit 0) _ (
      lookup-add_text_other "limit" "after_id" q.after_id _ refl
      ∙ lookup-add_text_other "limit" "since_id" q.since_id _ refl
      ∙ lookup-add_text_other "limit" "before_id" q.before_id [] refl),
)

-- The query of `IndexDirectMessages` names the other user and has the identifier that the messages follow where it
-- is given, but never one under the documented key `before_id`: the identifier that they precede
-- stands under `before_ID`.
pub direct_messages_query_lem :
    (other_user_id : String) (q : DirectMessagesQuery)
    → (lookup "other_user_id" (direct_messages_query other_user_id (some q)) ≡ some other_user_id)
      × (lookup "since_id" (direct_messages_query other_user_id (some q)) ≡ given q.since_id)
      × (lookup "before_ID" (direct_messages_query other_user_id (some q)) ≡ given q.before_id)
      × (lookup "before_id" (direct_messages_query other_user_id (some q)) ≡ none)
unfolding direct_messages_query lookup
direct_messages_query_lem other_user_id q = (
  lookup-add_text_other "other_user_id" "since_id" q.since_id _ refl
      ∙ lookup-add_text_other "other_user_id" "before_ID" q.before_id _ refl,
  lookup-add_text "since_id" q.since_id _
      (lookup-add_text_other "since_id" "before_ID" q.before_id _ refl),
  lookup-add_text_other "before_ID" "since_id" q.since_id _ refl
      ∙ lookup-add_text "before_ID" q.before_id _ refl,
  lookup-add_text_other "before_id" "since_id" q.since_id _ refl
      ∙ lookup-add_text_other "before_id" "before_ID" q.before_id _ refl,
)
