-- ===== src/Realtime/Tests.antt =====
-- Messages as the push server sends them, and the theorems at work on them.
use matrix_groupme_bridge.Prelude.{
  Panic, panics, ◌≡◌, refl, String, List, [], ◌∷◌, ◌++◌, some, true, false, done, ◌==◌, ◌||◌, ◌&&◌,
  if◌then◌else◌,
}
use matrix_groupme_bridge.Prelude.Json.{Json, null, str, field, no_fields, find_field, get_field}
use matrix_groupme_bridge.Faye.Message.{Message, new_message}
use matrix_groupme_bridge.Faye.Client.{run_outgoing}
use matrix_groupme_bridge.Groupme.Types
use matrix_groupme_bridge.Groupme.Tests.{ada}
use matrix_groupme_bridge.Realtime.Calls.{Codec, kind_of}
use matrix_groupme_bridge.Realtime.Loop.{PushSubscription, is_nil, handle_message_loop}
use matrix_groupme_bridge.Realtime.Loop.Rounds.{
  handle_message_loop-harmful, is_harmless, harmless_typed, harmless_type,
}
use matrix_groupme_bridge.Faye.Tests.{server, gone}
use matrix_groupme_bridge.Realtime.Push.Retries.{after_waits, stay_connected_loop_disconnected}
use matrix_groupme_bridge.Realtime.Push.{
  stay_connected_loop, new_push_client, is_text, subscribe_channel,
}
use matrix_groupme_bridge.Faye.Logging.{Printer, out_line}
use matrix_groupme_bridge.Realtime.Push.Secret.{out_line-run_outgoing}
use matrix_groupme_bridge.Realtime.Push.Token.{fields_of, run_outgoing-new_push_client}

abbrev pub text_of : Json → String
text_of (str s) = s
text_of _ = ""

abbrev pub blank_message : Types.Message
blank_message = record {
  id = "8";
  source_guid = "";
  created_at = 0;
  group_id = "9";
  user_id = "7";
  bot_id = "";
  sender_id = "7";
  sender_type = "user";
  system = false;
  name = "Ada";
  recipient_id = "";
  chat_id = "7+8";
  conversation_id = "";
  avatar_url = "";
  text = "hello";
  image_url = "";
  favorited_by = [];
  attachments = [];
}

-- Every subject reads as the same message.
abbrev pub codec : Codec
codec = record {
  to_message = λ _. blank_message;
  to_event = λ _. ("", null);
  to_name = text_of;
  to_topic = text_of;
  to_avatar_url = text_of;
  to_user_id = λ _. 7;
  to_added = λ _. ada ∷ [];
  to_removed = λ _. ada;
  to_like_icon = λ _. (1, 2, "emoji");
}

abbrev pub typed : String → Message
typed t = record (new_message "abc" "/user/7") {
  content = field "type" (str t) (field "subject" (str "subject") no_fields);
}

abbrev pub two_messages : List Message
two_messages = typed "ping" ∷ typed "line.create" ∷ []

abbrev pub listening : PushSubscription
listening = record {
  handlers = record { name = 1; accepts = λ _. true } ∷ [];
  connection_timeout = 0;
  timeout_minutes = 3;
  calls = [];
  now = λ n. n;
  readings = 0;
}

abbrev subscription : Message
subscription = new_message "abc" "/meta/subscribe"

run_outgoing-new_push_client_example :
    find_field "access_token"
      (fields_of (run_outgoing (new_push_client "secret").extns subscription).ext)
    ≡ (if (subscription.channel == subscribe_channel
            || is_text "ping" (get_field "type" subscription.content))
          && "access_token" == "access_token"
        then some (str "secret")
        else find_field "access_token" (fields_of subscription.ext))
run_outgoing-new_push_client_example =
    run_outgoing-new_push_client "secret" "access_token" subscription

handle_message_loop-harmful_example :
    (p : Panic) × (handle_message_loop codec ((typed "ping" ∷ []) ++ typed "typing" ∷ []) listening
      ≡ panics p)
unfolding is_harmless harmless_typed harmless_type kind_of get_field is_nil new_message
handle_message_loop-harmful_example =
    handle_message_loop-harmful codec (typed "ping" ∷ []) (typed "typing") [] listening (refl, tt)
      refl

stay_connected_loop_disconnected_example :
    stay_connected_loop server 4 1 gone ≡ done tt (record gone { world = after_waits server 4 0 })
stay_connected_loop_disconnected_example = stay_connected_loop_disconnected server 4 0 gone refl

-- The JSON text of a message is its identifier here, and any value under %s is a question mark.
abbrev printer : Printer
printer = record { first_four = λ s. s; marshal = λ m. m.id; show = λ v. "?" }

out_line-run_outgoing_example :
    out_line printer (run_outgoing (new_push_client "secret").extns subscription)
    ≡ out_line printer subscription
out_line-run_outgoing_example = out_line-run_outgoing printer "secret" subscription
