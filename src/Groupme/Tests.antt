-- ===== src/Groupme/Tests.antt =====
-- A GroupMe server with two pages of relations, and the theorems at work on it.
use matrix_groupme_bridge.Prelude.{
  ℕ, zero, suc, ◌+◌, ◌<◌, ◌≡◌, refl, ◌↔◌, String, List, [], ◌∷◌, ◌++◌, none, some, ok, err, true,
  false, ◌==◌, if◌then◌else◌, arith,
}
use matrix_groupme_bridge.Prelude.Json.{lookup, insert}
use matrix_groupme_bridge.Groupme.Types.{User, Member, Group}
use matrix_groupme_bridge.Groupme.Http.{
  Http, Client, Response, answer, new_request, with_auth_token, read_response, call, method_header,
  decode_body,
}
use matrix_groupme_bridge.Groupme.Http.Answers.{read_response_iff}
use matrix_groupme_bridge.Groupme.Relations.{
  index_all_relations, index_relations, relations_query, next_since, last_updated,
}
use matrix_groupme_bridge.Groupme.Relations.Pages.{Fetched, index_all_relations-Fetched}

abbrev pub user : String → ℕ → User
user id updated_at = record {
  id = id;
  phone_number = "+1 5551234567";
  image_url = "";
  name = "Ada";
  created_at = 0;
  updated_at = updated_at;
  avatar_url = "";
  email = "ada@example.org";
  sms = false;
}

abbrev pub copies : ℕ → User → List User
copies zero u = []
copies (suc n) u = u ∷ copies n u

-- The first page is full, and the second, asked for by its time, has one relation.
abbrev pub first_page : List User
first_page = copies 200 (user "1" 5)

abbrev pub second_page : List User
second_page = user "2" 9 ∷ []

abbrev pub ada : Member
ada = record {
  id = "70";
  user_id = "7";
  nickname = "Ada";
  muted = false;
  image_url = "";
  auto_kicked = false;
  app_installed = true;
  guid = "";
  phone_number = "";
  email = "";
}

-- A group of two members, of whom one was kicked.
abbrev pub picnic : Group
picnic = record {
  id = "9";
  name = "Picnic";
  type = "private";
  description = "On Sunday";
  image_url = "";
  creator_user_id = "7";
  created_at = 0;
  updated_at = 0;
  members = ada ∷ record ada { user_id = "8"; auto_kicked = true } ∷ [];
  share_url = "";
  messages = record {
    count = 0;
    last_message_id = "";
    last_message_created_at = 0;
    preview = record { nickname = ""; text = ""; image_url = ""; attachments = [] };
  };
}

-- The world counts the requests.
abbrev pub server : Http
server = record {
  World = ℕ;
  perform = λ r w. (
    ok (record {
      status_code = 200;
      body = ok (elim (lookup "since" r.query) [ none ↦ "first" | some _ ↦ "second" ]);
    }),
    w + 1,
  );
  new_uuid = λ w. ("0", w);
  url_error = λ _. none;
  decode_meta = λ _. none;
  decode_groups = λ _. err "";
  decode_group = λ _. ok picnic;
  decode_user = λ _. err "";
  decode_users = λ body. ok (if body == "first" then first_page else second_page);
  decode_chats = λ _. err "";
  decode_message = λ _. err "";
  decode_messages = λ _. err "";
  decode_owner_results = λ _. err "";
  decode_direct_message = λ _. err "";
  decode_direct_messages = λ _. err "";
}

abbrev pub client : Client
client = record { endpoint_base = "https://api.groupme.com/v3"; authorization_token = "secret" }

abbrev pub rfc3339 : ℕ → String
rfc3339 n = "1970-01-01T00:00:05Z"

first_answer : index_relations server rfc3339 client "" 0 ≡ (answer first_page, 1)
unfolding index_relations call with_auth_token method_header read_response decode_body
    relations_query new_request insert lookup
first_answer = refl

second_answer :
    index_relations server rfc3339 client "1970-01-01T00:00:05Z" 1 ≡ (answer second_page, 2)
unfolding index_relations call with_auth_token method_header read_response decode_body
    relations_query new_request insert lookup
second_answer = refl

pub pages : Fetched server rfc3339 client "" 0 2 (first_page ++ second_page) none 2
unfolding next_since last_updated
pages =
    Fetched.another_page first_answer (omega arith) (Fetched.last_page second_answer (omega arith))

index_all_relations-Fetched_example :
    index_all_relations server rfc3339 client 3 0 ≡ some (first_page ++ second_page, none, 2)
index_all_relations-Fetched_example =
    index_all_relations-Fetched server rfc3339 client 3 pages (omega arith)

abbrev page_body : Response
page_body = record { status_code = 200; body = ok "first" }

read_response_iff_example :
    (read_response server.decode_meta server.decode_users (ok page_body) ≡ answer first_page) ↔ (
      (r : Response) × (body : String) × (ok page_body ≡ ok r)
      × (r.status_code < 300)
      × (r.body ≡ ok body)
      × (server.decode_users body ≡ ok first_page))
read_response_iff_example =
    read_response_iff server.decode_meta server.decode_users (ok page_body) first_page
