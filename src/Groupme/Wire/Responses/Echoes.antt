-- ===== src/Groupme/Wire/Responses/Echoes.antt =====
-- Calls of which the server answers with the JSON of data.
use matrix_groupme_bridge.Prelude.{
  ◌<◌, ◌≡◌, ◌^◌, refl, ap, ◌∙◌, String, List, [], Option, none, some, Result, ok, All, All-map, ◌⧺◌,
}
use mathlib.Core.Path.{subst}
use matrix_groupme_bridge.Prelude.Json.{Json, arr, obj, no_fields, field}
use matrix_groupme_bridge.Prelude.Json.Struct.{
  fill, write_all, fill-write_all, AllFound, found-AllFound, Copies, copied, ◌▸◌, find, resolve,
  same_folded, first_error, read_value,
}
use matrix_groupme_bridge.Prelude.Json.Columns.{
  int_column, numeric_column, texts_column, struct_column, read_struct, read_list, write_items,
}
use matrix_groupme_bridge.Prelude.Json.Laws.{int-Carries, texts-Carries, read_list-structs}
use matrix_groupme_bridge.Groupme.Types.{Meta, Group, Message}
use matrix_groupme_bridge.Groupme.Http.Answers.{answer_read_response}
use matrix_groupme_bridge.Groupme.Groups.{
  GroupsQuery, group_url, groups_query, groups_endpoint_root, index_groups,
}
use matrix_groupme_bridge.Groupme.Messages.{create_message}
use matrix_groupme_bridge.Groupme.Http.{
  Http, Client, Request, Response, answer, call, with_auth_token, new_request, get, post, no_body,
  message,
}
use matrix_groupme_bridge.Groupme.Wire.Requests.{body_json}
use matrix_groupme_bridge.Groupme.Wire.{group_columns, message_columns, read_pointer}
use matrix_groupme_bridge.Groupme.Types.Empty.{no_group}
use matrix_groupme_bridge.Groupme.Wire.Fits.{GroupFits, MessageFits}
use matrix_groupme_bridge.Groupme.Wire.RoundTrip.{group-Reads, message-Reads}
use matrix_groupme_bridge.Groupme.Wire.Responses.{
  meta_columns, no_meta, json_response_columns, response_column, read_answer, parsed, sent_columns,
  json_http,
}

-- The body of a good response.
abbrev pub response_json : Json → Meta → Json
response_json j meta =
    obj (field "response" j (field "meta" (obj (write_all meta_columns meta)) no_fields))

meta_found : AllFound meta_columns meta_columns
unfolding meta_columns int_column numeric_column texts_column resolve find same_folded
meta_found = found-AllFound meta_columns meta_columns refl

pub meta_reads :
    (meta : Meta)
    → meta.code < 2 ^ 64
    → fill meta_columns (write_all meta_columns meta) no_meta ≡ (meta, none)
unfolding meta_columns
meta_reads meta small = fill-write_all _ _ meta_found copies
  where
    copies : Copies meta meta_columns no_meta meta
    copies = int-Carries _ _ _ small refl ▸ texts-Carries _ _ _ refl ▸ copied

module _ {A : Type 0} (read : Json → A → A × Option String) (zero : A) (j : Json) (a : A)
    (meta : Meta) (reads : read j zero ≡ (a, none)) (small : meta.code < 2 ^ 64) where
  read_answer-response_json : read_answer read zero (response_json j meta) ≡ ok a
  unfolding read_answer fill resolve find same_folded json_response_columns response_column
      struct_column read_struct first_error read_value
  read_answer-response_json = rw (reads, meta_reads meta small) refl

parsed_answer :
    {A : Type 0} (read : Json → A → A × Option String) (zero : A) {j : Json} (a : A) (meta : Meta)
    {o : Result Json}
    → meta.code < 2 ^ 64
    → o ≡ ok (response_json j meta)
    → read j zero ≡ (a, none)
    → parsed o (read_answer read zero) ≡ ok a
parsed_answer read zero {j} a meta small parses reads =
    ap (λ o. parsed o (read_answer read zero)) parses
    ∙ read_answer-response_json read zero j a meta reads small

sent_reads :
    (m : Message)
    → MessageFits m
    → read_struct
        (sent_columns "message")
        (obj (field "message" (obj (write_all message_columns m)) no_fields))
        none
      ≡ (some m, none)
unfolding read_struct sent_columns fill resolve find same_folded read_value first_error read_pointer
sent_reads m fits = rw (message-Reads m fits) refl

-- The JSON of a body with a message is read as that message.
body_reads :
    (m : Message) (j : Json)
    → body_json (message m) ≡ some j
    → MessageFits m
    → read_struct (sent_columns "message") j none ≡ (some m, none)
unfolding body_json
body_reads m j written fits =
    subst (λ x. read_struct (sent_columns "message") x none ≡ (some m, none)) (cc written)
      (sent_reads m fits)

module _ (parse : String → Result Json) (http : Http) (c : Client) where
  call_answer :
      {A : Type 0} (decode : String → Result A) (req : Request) (w : http.World) {r : Response}
      {w' : http.World} {text : String} {a : A}
      → http.url_error req.url ≡ none
      → http.perform (with_auth_token c req) w ≡ (ok r, w')
      → r.status_code < 300
      → r.body ≡ ok text
      → decode text ≡ ok a
      → call (json_http parse http) c decode req w ≡ (answer a, w')
  unfolding call
  call_answer decode req w {r} {w'} {text} {a} fine replied good body decoded =
      rw (fine, call)
        (rw replied (ap (λ x. (x, w')) (answer_read_response _ decode a r text good body decoded)))

  module _ (w : http.World) {w' : http.World} {r : Response} {text : String} (meta : Meta)
      (good : r.status_code < 300) (body : r.body ≡ ok text) (small : meta.code < 2 ^ 64) where
    -- Where the URL can be parsed and the server answers with a status below 300 and a text that is
    -- parsed as the JSON of some groups and of a meta, with numbers that 64 bits hold and attachment types by
    -- their names: IndexGroups returns just these groups, in order.
    pub index_groups-response_json :
        (q : Option GroupsQuery) (gs : List Group)
        → http.url_error (c.endpoint_base ⧺ groups_endpoint_root) ≡ none
        → http.perform
            (with_auth_token c
              (record (new_request get (c.endpoint_base ⧺ groups_endpoint_root) no_body) {
                query = groups_query q;
              }))
            w
          ≡ (ok r, w')
        → parse text
          ≡ ok (response_json (arr (write_items (λ g. obj (write_all group_columns g)) gs)) meta)
        → All GroupFits gs
        → index_groups (json_http parse http) c q w ≡ (answer gs, w')
    unfolding index_groups new_request
    index_groups-response_json q gs fine replied parses fits =
        call_answer _ _ w fine replied good body (
          parsed_answer (read_list no_group (read_struct group_columns)) [] gs meta small parses (
            read_list-structs group_columns no_group gs []
              (All-map GroupFits _ gs group-Reads fits)))

    -- Where the URL can be parsed and the server answers the message that is sent, with the fresh identifier in
    -- it, with a status below 300 and a text that is parsed as the JSON of that message and of a meta:
    -- CreateMessage returns the message that was sent. The message's time is below 2^64 and its attachments have
    -- numbers that 64 bits hold and types by their names.
    pub create_message-response_json :
        (group_id : String) (m : Message) (guid : String) (v : http.World)
        → http.new_uuid v ≡ (guid, w)
        → http.url_error (group_url c group_id "/messages") ≡ none
        → http.perform
            (with_auth_token c (
              new_request post
                (group_url c group_id "/messages")
                (message (record m { source_guid = guid }))))
            w
          ≡ (ok r, w')
        → (j : Json) → body_json (message (record m { source_guid = guid })) ≡ some j
        → parse text ≡ ok (response_json j meta)
        → MessageFits m
        → create_message (json_http parse http) c group_id m v
          ≡ (answer (some (record m { source_guid = guid })), w')
    unfolding create_message new_request
    create_message-response_json group_id m guid v fresh fine replied j written parses fits =
        let sent = record m { source_guid = guid } in
        let carried : MessageFits sent = record {
          created_at = fits.created_at;
          attachments = fits.attachments;
        } in
        rw fresh (
          call_answer _ _ w fine replied good body (
            parsed_answer (read_struct (sent_columns "message")) none (some sent) meta small parses
              (body_reads sent j written carried)))
