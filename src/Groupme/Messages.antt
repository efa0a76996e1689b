-- ===== src/Groupme/Messages.antt =====
-- The endpoints for messages: messages_api.go and direct_messages_api.go of pkg/groupmeclient.
pub mod Queries
use matrix_groupme_bridge.Prelude.{
  ℕ, String, List, [], ◌∷◌, ◌++◌, Option, none, some, ◌==◌, eqb, if◌then◌else◌, ◌⧺◌, itoa,
}
use matrix_groupme_bridge.Prelude.Json.{Dict}
use matrix_groupme_bridge.Groupme.Types.{Message}
use matrix_groupme_bridge.Groupme.Http.{
  Http, Client, get, post, no_body, message, direct_message, Answer, new_request, call,
}
use matrix_groupme_bridge.Groupme.Groups.{group_url}

pub record MessagesQuery : Type 0 where
  pub before_id : String
  pub since_id : String
  pub after_id : String
  pub limit : ℕ

pub record DirectMessagesQuery : Type 0 where
  pub before_id : String
  pub since_id : String

-- `query.Add(key, value)` unless the value is empty
unfoldable pub add_text : String → String → Dict String → Dict String
add_text key s query = if s == "" then query else query ++ (key, s) ∷ []

unfoldable pub messages_query : Option MessagesQuery → Dict String
unfolding add_text
messages_query none = []
messages_query (some q) =
    let ids =
      add_text "after_id" q.after_id
        (add_text "since_id" q.since_id (add_text "before_id" q.before_id [])) in
    if eqb q.limit 0 then ids else ids ++ ("limit", itoa q.limit) ∷ []

-- The key of the first parameter is spelt `before_ID` by the program.
unfoldable pub direct_messages_query : String → Option DirectMessagesQuery → Dict String
unfolding add_text
direct_messages_query other_user_id none = ("other_user_id", other_user_id) ∷ []
direct_messages_query other_user_id (some q) =
    add_text "since_id" q.since_id
      (add_text "before_ID" q.before_id (("other_user_id", other_user_id) ∷ []))

module _ (http : Http) (c : Client) where
  open http use {World}

  pub index_messages : String → Option MessagesQuery → World → Answer (ℕ × List Message) × World
  index_messages group_id q =
      call http c http.decode_messages
        (record (new_request get (group_url c group_id "/messages") no_body) {
          query = messages_query q;
        })

  -- Both ways to send a message give it a fresh identifier first.
  unfoldable pub create_message : String → Message → World → Answer (Option Message) × World
  create_message group_id m w =
      let (guid, w') = http.new_uuid w in
      call http c http.decode_message
        (new_request post (group_url c group_id "/messages")
          (message (record m { source_guid = guid })))
        w'

  pub create_direct_message : Message → World → Answer (Option Message) × World
  create_direct_message m w =
      let (guid, w') = http.new_uuid w in
      call http c http.decode_direct_message
        (new_request post (c.endpoint_base ⧺ "/direct_messages")
          (direct_message (record m { source_guid = guid })))
        w'

  pub index_direct_messages :
      String → Option DirectMessagesQuery → World → Answer (ℕ × List Message) × World
  index_direct_messages other_user_id q =
      call http c http.decode_direct_messages
        (record (new_request get (c.endpoint_base ⧺ "/direct_messages") no_body) {
          query = direct_messages_query other_user_id q;
        })
