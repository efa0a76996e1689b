-- ===== src/Groupme/Http/Answers.antt =====
-- What a request of the GroupMe client carries, and when a call gives a value.
use matrix_groupme_bridge.Prelude.{
  ◌<◌, ◌≡◌, refl, ◌↔◌, String, Option, some, ◌==◌, if◌then◌else◌, leb, Result, ok, err, arith,
  Bool-cases, inl, inr, ap, ◌∙◌,
}
use matrix_groupme_bridge.Prelude.Json.{lookup, insert, lookup-insert}
use matrix_groupme_bridge.Groupme.Types.{Meta}
use matrix_groupme_bridge.Groupme.Http.{
  Client, Request, Response, answer, Method, get, post, with_auth_token, method_header,
  read_response, decode_body,
}

method_header_lem :
    (r : Request) (m : Method)
    → r.method ≡ m
    → ((method_header r).query ≡ r.query)
      × ((method_header r).url ≡ r.url)
      × ((method_header r).body ≡ r.body)
unfolding method_header
method_header_lem r get e = (rw e refl, rw e refl, rw e refl)
method_header_lem r post e = (rw e refl, rw e refl, rw e refl)

-- Whatever the request, the one that is sent carries the client's token, in place of any token of its
-- own, and else the same query, to the same URL.
pub with_auth_token_lem :
    (c : Client) (r : Request) (key : String)
    → (lookup key (with_auth_token c r).query
        ≡ (if "token" == key then some c.authorization_token else lookup key r.query))
      × ((with_auth_token c r).url ≡ r.url)
      × ((with_auth_token c r).body ≡ r.body)
unfolding with_auth_token
with_auth_token_lem c r key =
    let (query, url, body) =
      method_header_lem (record r { query = insert "token" c.authorization_token r.query }) r.method
        refl in
    (ap (lookup key) query ∙ lookup-insert "token" key c.authorization_token r.query, url, body)

decode_body_answer :
    {A : Type 0} (decode : String → Result A) (b : Result String) (a : A)
    → decode_body decode b ≡ answer a
    → (body : String) × (b ≡ ok body) × (decode body ≡ ok a)
unfolding decode_body
decode_body_answer d (err e) a h = ground arith
decode_body_answer d (ok body) a h = (body, refl, ground arith)

read_response_answer :
    {A : Type 0} (decode_meta : String → Option Meta) (decode : String → Result A)
    (reply : Result Response) (a : A)
    → read_response decode_meta decode reply ≡ answer a
    → (r : Response) × (body : String) × (reply ≡ ok r)
      × (r.status_code < 300)
      × (r.body ≡ ok body)
      × (decode body ≡ ok a)
unfolding read_response
read_response_answer dm d (err e) a h = ground arith
read_response_answer dm d (ok r) a h = elim (Bool-cases (leb 300 r.status_code)) [
  | inl t ↦ ground arith
  | inr t ↦
      let (body, b, decoded) = decode_body_answer d r.body a (rw t at h) in
      (r, body, refl, ground arith, b, decoded)
]

pub answer_read_response :
    {A : Type 0} (decode_meta : String → Option Meta) (decode : String → Result A) (a : A)
    (r : Response) (body : String)
    → r.status_code < 300
    → r.body ≡ ok body
    → decode body ≡ ok a
    → read_response decode_meta decode (ok r) ≡ answer a
unfolding read_response decode_body
answer_read_response dm d a r body h b e = ground arith

-- A call gives a value exactly where the server replied with a status below 300 and a body that could
-- be read and decoded, and then that decoded value.
pub read_response_iff :
    {A : Type 0} (decode_meta : String → Option Meta) (decode : String → Result A)
    (reply : Result Response) (a : A)
    → (read_response decode_meta decode reply ≡ answer a) ↔ (
        (r : Response) × (body : String) × (reply ≡ ok r)
        × (r.status_code < 300)
        × (r.body ≡ ok body)
        × (decode body ≡ ok a))
read_response_iff dm d reply a = (
  read_response_answer dm d reply a,
  λ (r, body, e, h, b, decoded). rw e (answer_read_response dm d a r body h b decoded),
)
