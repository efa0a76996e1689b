-- ===== src/Realtime/Push/Secret.antt =====
-- The access token is not written to the log with the messages that carry it.
use matrix_groupme_bridge.Prelude.{
  ◌≡◌, refl, ap, ◌∙◌, String, Option, none, some, true, ◌==◌, ◌||◌, Bool-cases, inl, inr, arith,
}
use matrix_groupme_bridge.Prelude.Json.{
  Json, null, bool, num, str, arr, obj, Fields, no_fields, get_field,
}
use matrix_groupme_bridge.Faye.Message.{Message, ext_of}
use matrix_groupme_bridge.Faye.Logging.{Printer, out_typed, out_line}
use matrix_groupme_bridge.Faye.Client.{run_outgoing, add_extension, new_faye_client}
use matrix_groupme_bridge.Realtime.Push.{
  auth_ext, log_ext, auth_out, new_push_client, is_text, subscribe_channel,
}

module _ (printer : Printer) where
  out_typed_ping :
      (type : Json) (m : Message) (x : Option Fields)
      → is_text "ping" type ≡ true
      → out_typed printer type (record m { ext = x }) ≡ out_typed printer type m
  unfolding out_typed is_text
  out_typed_ping (str s) m x h = refl
  out_typed_ping null m x h = cc h
  out_typed_ping (bool _) m x h = cc h
  out_typed_ping (num _) m x h = cc h
  out_typed_ping (arr _) m x h = cc h
  out_typed_ping (obj _) m x h = cc h

  -- The line of a subscription or a ping does not show `ext`.
  out_line_ext :
      (m : Message) (x : Option Fields)
      → (m.channel == subscribe_channel || is_text "ping" (get_field "type" m.content)) ≡ true
      → out_line printer (record m { ext = x }) ≡ out_line printer m
  unfolding out_line
  out_line_ext m x h = elim (Bool-cases (m.channel == subscribe_channel)) [
    | inl e ↦ rw e refl
    | inr e ↦ rw (out_typed_ping (get_field "type" m.content) m x (ground (arith, h, e))) refl
  ]

  ext_of_only :
      (m : Message) (x : Option Fields) → record (ext_of m).0 { ext = x } ≡ record m { ext = x }
  unfolding ext_of
  ext_of_only m x =
      elim m.ext
        as (λ o.
          record (elim o as (λ _. Message × Fields) [
            | none ↦ (record m { ext = some no_fields }, no_fields)
            | some xs ↦ (m, xs)
          ]).0 { ext = x }
          ≡ record m { ext = x }) [ none ↦ refl | some xs ↦ refl ]

  out_line-auth_out :
      (token : String) (m : Message) → out_line printer (auth_out token m) ≡ out_line printer m
  unfolding auth_out
  out_line-auth_out token m =
      elim (Bool-cases
        (m.channel == subscribe_channel || is_text "ping" (get_field "type" m.content))) [
          | inl e ↦ rw e (ap (out_line printer) (ext_of_only m _) ∙ out_line_ext m _ e)
          | inr e ↦ rw e refl
        ]

  -- The line that the push client logs of an outgoing message, after its other extension has put the access
  -- token in, is the line of the message without the token.
  pub out_line-run_outgoing :
      (token : String) (m : Message)
      → out_line printer (run_outgoing (new_push_client token).extns m) ≡ out_line printer m
  unfolding run_outgoing new_push_client auth_ext log_ext add_extension new_faye_client
  out_line-run_outgoing token m = out_line-auth_out token m
