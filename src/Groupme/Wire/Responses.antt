-- ===== src/Groupme/Wire/Responses.antt =====
-- The JSON of responses: jsonResponse of pkg/groupmeclient/client.go, and the values that the calls decode. A
-- response of which the body is null makes the code panic where its status is an error; here it is one that
-- cannot be parsed.
pub mod Echoes
pub mod Lost
use matrix_groupme_bridge.Prelude.{
  ℕ, String, List, [], ◌∷◌, Option, none, some, Result, ok, err, ◌>>=◌, itoa64, parse_int64,
}
use matrix_groupme_bridge.Prelude.Json.{Json, null, num, arr, obj}
use matrix_groupme_bridge.Prelude.Json.Struct.{Column, fill, write_all}
use matrix_groupme_bridge.Prelude.Json.Columns.{
  verdict, mismatch, into, kept, omitting, kept_text, int_column, texts_column, struct_column,
  read_number, read_list, read_struct, write_items,
}
use matrix_groupme_bridge.Groupme.Types.{Meta, Group, Message, User, Chat}
use matrix_groupme_bridge.Groupme.Http.{Http, ChangeOwnerResult}
use matrix_groupme_bridge.Groupme.Wire.{
  message_columns, group_columns, user_columns, chat_columns, is_nil_pointer, pointed, read_pointer,
}
use matrix_groupme_bridge.Groupme.Types.Empty.{no_message, no_group, no_user, no_chat}

unfoldable pub meta_columns : List (Column Meta)
meta_columns =
    int_column "code" (λ m. m.code) (λ v m. record m { code = v })
    ∷ texts_column "errors" (λ m. m.errors) (λ v m. record m { errors = v })
    ∷ []

abbrev pub no_meta : Meta
no_meta = record { code = 0; errors = [] }

-- `jsonResponse`, with the destination of the response.
pub record JsonResponse (A : Type 0) : Type 0 where
  pub response : A
  pub meta : Meta

-- The response is decoded into its destination by `response.UnmarshalJSON`; it is never written.
unfoldable pub response_column :
    {A : Type 0} → (Json → A → A × Option String) → Column (JsonResponse A)
response_column read = record {
  tag = "response";
  write = λ r. none;
  read = λ j r. into (λ v r. record r { response = v }) r (read j r.response);
}

unfoldable pub json_response_columns :
    {A : Type 0} → (Json → A → A × Option String) → List (Column (JsonResponse A))
json_response_columns read =
    response_column read
    ∷ struct_column "meta" meta_columns (λ r. r.meta) (λ v r. record r { meta = v })
    ∷ []

abbrev pub answered : {A : Type 0} → JsonResponse A × Option String → Result A
answered (r, none) = ok r.response
answered (r, some e) = err e

-- What `do` makes of the body of a good response: the destination is left as it is where there is no
-- response.
unfoldable pub read_answer : {A : Type 0} → (Json → A → A × Option String) → A → Json → Result A
unfolding fill
read_answer read zero null = ok zero
read_answer read zero (obj fs) =
    answered (fill (json_response_columns read) fs (record { response = zero; meta = no_meta }))
read_answer read zero j = err (mismatch j "groupmeclient.jsonResponse")

-- A nil destination takes nothing, not even null.
abbrev pub read_nothing : Json → Unit {0} → Unit {0} × Option String
read_nothing j u = (u, some "json: Unmarshal(nil)")

abbrev pub reported : JsonResponse (Unit {0}) × Option String → Option Meta
reported (r, none) = some r.meta
reported (r, some e) = none

-- What `do` makes of the body of a bad response.
unfoldable pub read_error : Json → Option Meta
unfolding fill
read_error (obj fs) =
    reported
      (fill (json_response_columns read_nothing) fs (record { response = tt; meta = no_meta }))
read_error j = none

-- The struct around a message that was sent.
unfoldable pub sent_columns : String → List (Column (Option Message))
sent_columns tag =
    omitting tag (λ o. o) (λ v o. v) is_nil_pointer
      (λ v. obj (write_all message_columns (pointed v))) read_pointer
    ∷ []

-- `IndexMessagesResponse` and `IndexDirectMessagesResponse`
unfoldable pub page_columns : String → List (Column (ℕ × List Message))
page_columns tag =
    kept "count" (λ p. p.0) (λ v p. (v, p.1)) (λ n. num (itoa64 n)) (read_number parse_int64 "int")
    ∷ kept tag (λ p. p.1) (λ v p. (p.0, v))
        (λ xs. arr (write_items (λ m. obj (write_all message_columns m)) xs))
        (read_list no_message (read_struct message_columns))
    ∷ []

unfoldable pub owner_result_columns : List (Column ChangeOwnerResult)
owner_result_columns =
    kept_text "group_id" (λ r. r.group_id) (λ v r. record r { group_id = v })
    ∷ kept_text "owner_id" (λ r. r.owner_id) (λ v r. record r { owner_id = v })
    ∷ kept_text "status" (λ r. r.status) (λ v r. record r { status = v })
    ∷ []

abbrev pub no_owner_result : ChangeOwnerResult
no_owner_result = record { group_id = ""; owner_id = ""; status = "" }

unfoldable pub owner_results_columns : List (Column (List ChangeOwnerResult))
owner_results_columns =
    kept "results" (λ o. o) (λ v o. v)
      (λ xs. arr (write_items (λ r. obj (write_all owner_result_columns r)) xs))
      (read_list no_owner_result (read_struct owner_result_columns))
    ∷ []

-- A text is parsed, and the value is read.
abbrev pub parsed : {A B : Type 0} → Result A → (A → Result B) → Result B
parsed (ok j) read = read j
parsed (err e) read = err e

abbrev pub parsed_meta : Result Json → Option Meta
parsed_meta (ok j) = read_error j
parsed_meta (err e) = none

-- The decoders of the calls, over a parser of JSON texts.
abbrev pub json_http : (String → Result Json) → Http → Http
json_http parse http = record http {
  decode_meta = λ text. parsed_meta (parse text);
  decode_groups =
      λ text. parsed (parse text) (read_answer (read_list no_group (read_struct group_columns)) []);
  decode_group = λ text. parsed (parse text) (read_answer (read_struct group_columns) no_group);
  decode_user = λ text. parsed (parse text) (read_answer (read_struct user_columns) no_user);
  decode_users =
      λ text. parsed (parse text) (read_answer (read_list no_user (read_struct user_columns)) []);
  decode_chats =
      λ text. parsed (parse text) (read_answer (read_list no_chat (read_struct chat_columns)) []);
  decode_message =
      λ text. parsed (parse text) (read_answer (read_struct (sent_columns "message")) none);
  decode_direct_message =
      λ text. parsed (parse text) (read_answer (read_struct (sent_columns "direct_message")) none);
  decode_messages =
      λ text. parsed (parse text) (read_answer (read_struct (page_columns "messages")) (0, []));
  decode_direct_messages = λ text.
      parsed (parse text) (read_answer (read_struct (page_columns "direct_messages")) (0, []));
  decode_owner_results =
      λ text. parsed (parse text) (read_answer (read_struct owner_results_columns) []);
}
