-- ===== src/Connector/Dispatch/Lines.antt =====
-- From the JSON of text messages that are pushed to the events that the bridge queues.
use matrix_groupme_bridge.Prelude.{
  ℕ, ◌≡◌, refl, ap, ◌∙◌, String, List, [], ◌∷◌, ◌++◌, some, true, false, ◌==◌, done, All, map,
}
use matrix_groupme_bridge.Prelude.Json.{str, no_fields, field, get_field}
use matrix_groupme_bridge.Groupme.Types.{Message}
use matrix_groupme_bridge.Groupme.Wire.Fits.{MessageFits}
use matrix_groupme_bridge.Faye.Message.{new_message}
use matrix_groupme_bridge.Faye.Message as Faye
use matrix_groupme_bridge.Realtime.Calls.{text_message, kind_of, call_of}
use matrix_groupme_bridge.Realtime.Loop.Rounds.{
  is_harmless, harmless_typed, harmless_type, announced, announced_typed,
}
use matrix_groupme_bridge.Realtime.Decoded.{json_codec}
use matrix_groupme_bridge.Realtime.Decoded.Received.{MessageKept}
use matrix_groupme_bridge.Realtime.Decoded.Pushed.{message_json, created_call-message_json}
use matrix_groupme_bridge.Connector.Events.{Env, GroupmeClient, RemoteEvent, message}
use matrix_groupme_bridge.Connector.Dispatch.{full_handler, Listener, bridge_loop}
use matrix_groupme_bridge.Connector.Dispatch.Log.{
  registered, repeated, untimed, portal_of, promised, promised_by, IsLocal, CallIsLocal,
}
use matrix_groupme_bridge.Connector.Dispatch.Refined.{log, IsServed, bridge_loop-log}

-- What GroupMe pushes for a new message of a group.
abbrev pub line_push : String → Message → Faye.Message
line_push channel m = record (new_message "" channel) {
  content = field "type" (str "line.create") (field "subject" (message_json m) no_fields);
}

-- A message of which its JSON holds everything, float64 holds the numbers, and which the system did not send.
abbrev pub IsLine : (String → String) → Message → Type 0
IsLine reprint m = MessageFits m × MessageKept reprint m × (m.user_id == "system" ≡ false)

line_push_harmless : (channel : String) (m : Message) → is_harmless (line_push channel m) ≡ true
unfolding is_harmless harmless_typed harmless_type get_field kind_of new_message
line_push_harmless channel m = refl

-- The message, with the chat as its conversation, to its group's portal.
abbrev pub told : GroupmeClient → Message → RemoteEvent
told g m =
    message (portal_of g m.group_id) m.sender_id (m.sender_id == g.user_id)
      (record m { conversation_id = m.chat_id })

module _ (reprint : String → String) where
  announced-line_push :
      (channel : String) (m : Message)
      → IsLine reprint m
      → announced (json_codec reprint) (line_push channel m)
        ≡ some (text_message (record m { conversation_id = m.chat_id }))
  unfolding announced announced_typed get_field kind_of call_of new_message
  announced-line_push channel m (fits, kept, user) =
      created_call-message_json reprint m fits kept user

  module _ (env : Env) (g : GroupmeClient) where
    line_push-IsServed :
        (channel : String) (m : Message)
        → IsLine reprint m
        → IsServed env g (json_codec reprint) (line_push channel m)
    unfolding IsServed CallIsLocal IsLocal
    line_push-IsServed channel m h =
        (line_push_harmless channel m, rw (announced-line_push channel m h) tt)

    lines-IsServed :
        (channel : String) (ms : List Message)
        → All (IsLine reprint) ms
        → All (IsServed env g (json_codec reprint)) (map (line_push channel) ms)
    lines-IsServed channel [] h = tt
    lines-IsServed channel (m ∷ ms) (h, hs) =
        (line_push-IsServed channel m h, lines-IsServed channel ms hs)

    log-line_push :
        (channel : String) (ms : List Message)
        → All (IsLine reprint) ms
        → log env g (json_codec reprint) 1 (map (line_push channel) ms) ≡ map (told g) ms
    unfolding log promised_by promised repeated
    log-line_push channel [] h = refl
    log-line_push channel (m ∷ ms) (h, hs) =
        rw (announced-line_push channel m h)
          (ap (λ es. told g m ∷ es) (log-line_push channel ms hs))

    -- For a bridge whose handler is registered once, and a stream of pushes of new messages, each the JSON of a
    -- message that the system did not send, whose numbers 64 bits hold and float64 keeps and whose
    -- attachments have types by their names: the loop reads the whole stream, and the events that it has queued are, but for their
    -- times, those that were there and then one for each message in order, which carries that message, with its
    -- chat as its conversation, from its sender to the portal of its group.
    pub bridge_loop-line_push :
        (channel : String) (ms : List Message) (name : ℕ) (s : Listener env)
        → s.push.handlers ≡ full_handler name ∷ []
        → All (IsLine reprint) ms
        → (s' : Listener env) × (bridge_loop env g
              (json_codec reprint)
              (map (line_push channel) ms)
              s
            ≡ done tt s')
          × (map untimed s'.bridge.queue ≡ map untimed s.bridge.queue ++ map (told g) ms)
    unfolding registered
    bridge_loop-line_push channel ms name s hs h =
        let (s', e, q) =
          bridge_loop-log env g (json_codec reprint) (map (line_push channel) ms) 1 name s hs
            (lines-IsServed channel ms h) in
        (s', e, q ∙ ap (λ es. map untimed s.bridge.queue ++ es) (log-line_push channel ms h))
