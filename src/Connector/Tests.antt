-- ===== src/Connector/Tests.antt =====
-- A message with an image and a reply, members, portals, and the theorems at work on them.
use matrix_groupme_bridge.Prelude.{
  ℕ, ◌+◌, ◌≡◌, refl, ◌↔◌, String, List, [], ◌∷◌, none, some, true, false, ok, err, done, map, inl,
  arith, all_chars, zero, suc, All, ◌==◌, ◌⧺◌,
}
use matrix_groupme_bridge.Prelude.Json.{Dict, lookup}
use matrix_groupme_bridge.Groupme.Types.{Attachment, AttachmentType, image, reply, Message, Member}
use matrix_groupme_bridge.Groupme.Http.{answer}
use matrix_groupme_bridge.Groupme.Tests.{
  ada, picnic, user, server, client, rfc3339, pages, copies, first_page,
}
use matrix_groupme_bridge.Realtime.Tests.{blank_message}
use matrix_groupme_bridge.Media.{Web}
use matrix_groupme_bridge.Media.Notices.{IsReadable}
use matrix_groupme_bridge.Connector.Portal.{
  make_groupme_portal_id, parse_portal_id, parse_portal_id-make, HasNoColon,
}
use matrix_groupme_bridge.Connector.Portal.Parsed.{parse_portal_id_iff}
use matrix_groupme_bridge.Connector.Convert.{Part, Converted, convert_message}
use matrix_groupme_bridge.Connector.Convert.Parts.{
  positions, text_count, content_count, last_reply, convert_message_lem,
}
use matrix_groupme_bridge.Connector.Events.{
  ChatMember, ChatInfo, UserInfo, Env, GroupmeClient, Bridge, send_chat_info_change,
}
use matrix_groupme_bridge.Connector.Handlers.{handle_members, member_change}
use matrix_groupme_bridge.Connector.Handlers.Members.{
  nickname_of, last_nickname, handle_members_added,
}
use matrix_groupme_bridge.Groupme.Http.{
  call, with_auth_token, method_header, read_response, decode_body, new_request,
}
use matrix_groupme_bridge.Groupme.Groups.{show_group, group_url}
use matrix_groupme_bridge.Prelude.Json.{insert}
use matrix_groupme_bridge.Connector.Api.Chats.{last_membership, membership_in, get_chat_info_shown}
use matrix_groupme_bridge.Connector.Api.{get_chat_info, get_user_info}
use matrix_groupme_bridge.Connector.Api.Found.{get_user_info_found}

parse_portal_id-make_example : parse_portal_id (make_groupme_portal_id "9" "7") ≡ ok ("9", "7")
unfolding all_chars
parse_portal_id-make_example = parse_portal_id-make "9" "7" refl refl

parse_portal_id_iff_example : (parse_portal_id "GroupmeID:7:9" ≡ ok ("9", "7")) ↔ (
    (kind : String) × ("GroupmeID:7:9" ≡ kind ⧺ ":" ⧺ "7" ⧺ ":" ⧺ "9")
    × HasNoColon kind
    × HasNoColon "7"
    × HasNoColon "9")
parse_portal_id_iff_example = parse_portal_id_iff "GroupmeID:7:9" "9" "7"

-- The world counts the calls. Every image is a byte, and every upload gets the same URL.
abbrev web : Web
web = record {
  World = ℕ;
  Bytes = ℕ;
  size = λ _. 1;
  url_path = λ url. some url;
  request_error = λ _. none;
  fetch = λ _ _ w. (err "", w);
  get_image = λ _ w. (ok (record { content_type = "image/png"; body = ok 0 }), w + 1);
  detect_content_type = λ _. "";
  image_size = λ _. (3, 4);
  upload = λ _ _ _ _ w. (ok ("mxc://x", none), w + 1);
  user_agent = "";
  reupload_failed = "";
}

abbrev attached : AttachmentType → Attachment
attached t = record {
  type = t;
  loci = [];
  user_ids = [];
  url = "a.png.b";
  file_id = "";
  video_preview_url = "";
  name = "";
  latitude = "";
  longitude = "";
  placeholder = "";
  charmap = [];
  reply_id = "5";
  base_reply_id = "5";
}

abbrev illustrated : Message
illustrated = record blank_message { attachments = attached image ∷ attached reply ∷ [] }

convert_message_lem_example :
    (made : Converted) × (w' : ℕ) × (convert_message web "!room" illustrated 0 ≡ done made w')
    × (map Part.id made.parts
        ≡ positions 0 (text_count "hello" + content_count illustrated.attachments))
    × (made.reply_to ≡ last_reply illustrated.attachments none)
unfolding IsReadable
convert_message_lem_example =
    convert_message_lem web "!room" illustrated 0 (("a.png.b", refl), (tt, tt))

abbrev pub env : Env
env = record { http = server; url_path = λ url. some url; now = λ w. (w, w) }

abbrev pub bridge : GroupmeClient
bridge = record { user_login_id = "3"; auth_token = "secret"; user_id = "7"; client = some client }

abbrev pub idle : Bridge env
idle = record { queue = []; world = 0 }

-- A user who is listed twice.
abbrev joined : List Member
joined = ada ∷ record ada { nickname = "Countess" } ∷ []

handle_members_added_example :
    (changed : Dict ChatMember) × (handle_members env bridge "9" joined true idle
      ≡ send_chat_info_change env bridge "9"
          (member_change (record { is_full = false; member_map = changed }))
          idle)
    × ((id : String) → nickname_of (lookup id changed) ≡ last_nickname id joined none)
handle_members_added_example =
    handle_members_added env bridge "9" joined idle (inl refl, (inl refl, tt))

others : (n : ℕ) → All (λ v. (v.id == "2") ≡ false) (copies n (user "1" 5))
others zero = tt
others (suc n) = (refl, others n)

-- The ghost is on the second page of the relations.
get_user_info_found_example :
    (info : UserInfo) × (get_user_info env rfc3339 bridge 3 "2" idle
      ≡ done (answer info) (record idle { world = 2 }))
    × (info.identifiers ≡ "Ada" ∷ "+1 5551234567" ∷ "ada@example.org" ∷ [])
    × (info.name ≡ some "Ada")
get_user_info_found_example =
    get_user_info_found env rfc3339 bridge client idle 3 2 first_page [] (user "2" 9) 2 refl
      (omega arith) pages (others 200) refl

shown : show_group server client "9" 0 ≡ (answer picnic, 1)
unfolding show_group group_url call with_auth_token method_header read_response decode_body
    new_request insert lookup
shown = refl

get_chat_info_shown_example :
    (info : ChatInfo) × (members : Dict ChatMember) × (get_chat_info env rfc3339 bridge
        (make_groupme_portal_id "9" "3")
        idle
      ≡ done (answer info) (record idle { world = 1 }))
    × (info.name ≡ some "Picnic")
    × (info.topic ≡ some "On Sunday")
    × (info.members ≡ some (record { is_full = true; member_map = members }))
    × ((user : String)
        → membership_in (lookup user members) ≡ last_membership user picnic.members none)
unfolding all_chars
get_chat_info_shown_example =
    get_chat_info_shown env rfc3339 bridge client "9" "3" picnic idle 1 refl refl refl shown
      (inl refl) (inl refl, (inl refl, tt))
