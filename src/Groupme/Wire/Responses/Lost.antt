-- ===== src/Groupme/Wire/Responses/Lost.antt =====
-- The errors that a bad response reports: decoding anything into the nil destination is an error itself.
use mathlib.Core.Path.{subst}
use matrix_groupme_bridge.Prelude.{
  ℕ, ◌≤◌, ◌<◌, ◌^◌, ◌≡◌, refl, sym, ap, ◌∙◌, String, List, [], Option, none, some, Bool, true,
  false, ◌||◌, ◌==◌, eq_iff, leb, if◌then◌else◌, Bool-cases, inl, inr, Result, ok, arith,
}
use matrix_groupme_bridge.Prelude.Json.{Json, Fields, obj, no_fields, field}
use matrix_groupme_bridge.Prelude.Json.Struct.{
  Column, fill, write_all, find, resolve, same_folded, then_also, read_value,
}
use matrix_groupme_bridge.Prelude.Json.Columns.{struct_column, read_struct}
use matrix_groupme_bridge.Groupme.Types.{Meta}
use matrix_groupme_bridge.Groupme.Http.{Http, Response, error, api, read_response, status_error}
use matrix_groupme_bridge.Groupme.Wire.Responses.{
  JsonResponse, meta_columns, json_response_columns, response_column, read_nothing, reported,
  read_error, parsed_meta, json_http,
}
use matrix_groupme_bridge.Groupme.Wire.Responses.Echoes.{meta_reads}

-- Some key of the object is the tag but for the case of its letters.
abbrev pub has_key : String → Fields → Bool
has_key tag no_fields = false
has_key tag (field key j fs) = same_folded key tag || has_key tag fs

abbrev columns : List (Column (JsonResponse (Unit {0})))
columns = json_response_columns read_nothing

exact :
    (key tag : String) → key == tag ≡ true → same_folded tag tag ≡ true → same_folded key tag ≡ true
exact key tag e h = subst (λ k. same_folded k tag ≡ true) (sym ((eq_iff key tag).0 e)) h

apart :
    (key tag : String)
    → key == tag ≡ true
    → same_folded tag "response" ≡ false
    → same_folded key "response" ≡ false
apart key tag e h = subst (λ k. same_folded k "response" ≡ false) (sym ((eq_iff key tag).0 e)) h

resolve_response :
    (key : String)
    → same_folded key "response" ≡ true
    → resolve key columns ≡ some (response_column read_nothing)
unfolding resolve find same_folded json_response_columns response_column struct_column
resolve_response key h = ground (arith, apart key "meta")

resolve_other :
    (key : String)
    → same_folded key "response" ≡ false
    → same_folded key "meta" ≡ false
    → resolve key columns ≡ none
unfolding resolve find same_folded json_response_columns response_column struct_column
resolve_other key h k = ground (arith, exact key "response", exact key "meta")

or_false : (a b : Bool) → (a || b) ≡ false → (a ≡ false) × (b ≡ false)
or_false a b h = ground arith

-- After the meta: an object of other keys reports it, and one with a response reports nothing.
reported-fill :
    (fs : Fields) (t : JsonResponse (Unit {0}))
    → has_key "meta" fs ≡ false
    → reported (fill columns fs t) ≡ (if has_key "response" fs then none else some t.meta)
unfolding fill response_column
reported-fill no_fields t h = refl
reported-fill (field key j fs) t h = elim (Bool-cases (same_folded key "response")) [
  | inl hit ↦ rw hit (
      ap (λ c. reported (then_also (read_value c j t) (fill columns fs)))
        (resolve_response key hit))
  | inr miss ↦
      let (other, later) = or_false (same_folded key "meta") (has_key "meta" fs) h in
      rw miss (
        ap (λ c. reported (then_also (read_value c j t) (fill columns fs)))
          (resolve_other key miss other)
        ∙ reported-fill fs t later)
]

read_error-meta :
    (meta : Meta) (rest : Fields)
    → meta.code < 2 ^ 64
    → has_key "meta" rest ≡ false
    → read_error (obj (field "meta" (obj (write_all meta_columns meta)) rest))
      ≡ (if has_key "response" rest then none else some meta)
unfolding read_error fill resolve find same_folded json_response_columns response_column
    struct_column read_struct read_value
read_error-meta meta rest small h =
    rw (meta_reads meta small) (reported-fill rest (record { response = tt; meta = meta }) h)

status_error-reported :
    (code : ℕ) (decode : String → Option Meta) (text : String) (lost : Bool) (meta : Meta)
    → decode text ≡ (if lost then none else some meta)
    → status_error code decode (ok text)
      ≡ api (if lost then record { code = code; errors = [] } else meta)
unfolding status_error
status_error-reported code decode text true meta e = rw (e, status_error) refl
status_error-reported code decode text false meta e = rw (e, status_error) refl

-- A reply with a status of 300 or more and a text that is parsed as an object of a meta and of other keys, none
-- of them meta but for the case of letters: the call ends in an error with the code and the errors of the
-- meta where no other key is response but for the case of letters, and else in one with the status as its
-- code and without any of the errors, whatever the response is.
pub read_response-bad_status :
    {A : Type 0} (parse : String → Result Json) (http : Http) (decode : String → Result A)
    (r : Response) (text : String) (meta : Meta) (rest : Fields)
    → 300 ≤ r.status_code
    → r.body ≡ ok text
    → parse text ≡ ok (obj (field "meta" (obj (write_all meta_columns meta)) rest))
    → meta.code < 2 ^ 64
    → has_key "meta" rest ≡ false
    → read_response (json_http parse http).decode_meta decode (ok r)
      ≡ error (
          api (
            if has_key "response" rest then record { code = r.status_code; errors = [] } else meta))
unfolding read_response
read_response-bad_status parse http decode r text meta rest bad body parses small h =
    let over : leb 300 r.status_code ≡ true = ground arith in
    let told =
      status_error-reported r.status_code (json_http parse http).decode_meta text
        (has_key "response" rest) meta
        (ap parsed_meta parses ∙ read_error-meta meta rest small h) in
    rw over
      (ap error (ap (status_error r.status_code (json_http parse http).decode_meta) body ∙ told))
