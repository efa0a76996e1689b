-- ===== src/Realtime/Push/Token.antt =====
-- The access token in the messages that the push client sends.
use matrix_groupme_bridge.Prelude.{
  ◌≡◌, refl, String, Option, none, some, ◌==◌, ◌||◌, ◌&&◌, if◌then◌else◌, Bool-cases, Option-cases,
  inl, inr, true,
}
use matrix_groupme_bridge.Prelude.Json.{
  str, Fields, no_fields, find_field, get_field, find_field-set_field,
}
use matrix_groupme_bridge.Faye.Message.{Message, ext_of}
use matrix_groupme_bridge.Faye.Client.{run_outgoing, add_extension, new_faye_client}
use matrix_groupme_bridge.Realtime.Push.{
  auth_ext, log_ext, auth_out, new_push_client, is_text, subscribe_channel,
}

-- A nil map reads as the empty one.
unfoldable pub fields_of : Option Fields → Fields
fields_of none = no_fields
fields_of (some fs) = fs

abbrev NeedsToken : Message → Type 0
NeedsToken m =
    (m.channel == subscribe_channel || is_text "ping" (get_field "type" m.content)) ≡ true

ext_of_lem : (msg : Message) → (ext_of msg).1 ≡ fields_of msg.ext
unfolding ext_of fields_of
ext_of_lem msg = elim (Option-cases msg.ext) [ inl e ↦ rw e refl | inr (_, e) ↦ rw e refl ]

auth_out_lem :
    (token key : String) (msg : Message)
    → find_field key (fields_of (auth_out token msg).ext) ≡ (
        if (msg.channel == subscribe_channel || is_text "ping" (get_field "type" msg.content))
          && "access_token" == key
        then some (str token)
        else find_field key (fields_of msg.ext))
unfolding auth_out fields_of
auth_out_lem token key msg =
    elim (Bool-cases
      (msg.channel == subscribe_channel || is_text "ping" (get_field "type" msg.content))) [
        | inl e ↦
            rw
              (
                e,
                find_field-set_field "access_token" key (str token) (ext_of msg).1,
                ext_of_lem msg,
              )
              refl
        | inr e ↦ rw e refl
      ]

-- The extensions of the push client put the access token into every subscription and every ping, and
-- into no other message, and change no other entry of the message's `ext`.
pub run_outgoing-new_push_client :
    (token key : String) (msg : Message)
    → find_field key (fields_of (run_outgoing (new_push_client token).extns msg).ext) ≡ (
        if (msg.channel == subscribe_channel || is_text "ping" (get_field "type" msg.content))
          && "access_token" == key
        then some (str token)
        else find_field key (fields_of msg.ext))
unfolding run_outgoing new_push_client auth_ext log_ext add_extension new_faye_client
run_outgoing-new_push_client token key msg = auth_out_lem token key msg
