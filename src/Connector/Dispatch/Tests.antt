-- ===== src/Connector/Dispatch/Tests.antt =====
-- A ping and a text message, brought to an idle bridge that has connected twice.
use matrix_groupme_bridge.Prelude.{◌≡◌, refl, [], ◌∷◌, ◌++◌, done, map, arith}
use matrix_groupme_bridge.Prelude.Json.{get_field}
use matrix_groupme_bridge.Faye.Message.{new_message}
use matrix_groupme_bridge.Realtime.Calls.{kind_of, call_of, created_call, pushed}
use matrix_groupme_bridge.Realtime.Loop.{is_nil}
use matrix_groupme_bridge.Realtime.Loop.Rounds.{
  is_harmless, harmless_typed, harmless_type, announced, announced_typed,
}
use matrix_groupme_bridge.Realtime.Tests.{codec, two_messages, listening}
use matrix_groupme_bridge.Realtime.Tests.{blank_message}
use matrix_groupme_bridge.Realtime.Decoded.{json_codec}
use matrix_groupme_bridge.Realtime.Decoded.Tests.{whole, whole-Kept}
use matrix_groupme_bridge.Groupme.Types.{Message}
use matrix_groupme_bridge.Connector.Dispatch.Lines.{line_push, told, IsLine, bridge_loop-line_push}
use matrix_groupme_bridge.Connector.Tests.{env, bridge, idle}
use matrix_groupme_bridge.Connector.Dispatch.{Listener, full_handler, bridge_loop}
use matrix_groupme_bridge.Connector.Dispatch.Log.{registered, untimed, IsLocal, CallIsLocal}
use matrix_groupme_bridge.Connector.Dispatch.Refined.{log, IsServed, bridge_loop-log}

abbrev bridging : Listener env
bridging = record {
  push = record listening { handlers = full_handler 1 ∷ full_handler 1 ∷ [] };
  bridge = idle;
}

bridge_loop-log_example :
    (s' : Listener env) × (bridge_loop env bridge codec two_messages bridging ≡ done tt s')
    × (map untimed s'.bridge.queue
        ≡ map untimed bridging.bridge.queue ++ log env bridge codec 2 two_messages)
unfolding IsServed CallIsLocal IsLocal is_harmless harmless_typed harmless_type kind_of get_field
    is_nil new_message announced announced_typed call_of created_call pushed full_handler registered
bridge_loop-log_example =
    bridge_loop-log env bridge codec two_messages 2 1 bridging refl ((refl, tt), ((refl, tt), tt))

-- A bridge that has connected once.
abbrev connected_once : Listener env
connected_once = record bridging { push = record listening { handlers = full_handler 1 ∷ [] } }

abbrev greeting : Message
greeting = record blank_message { created_at = 1719792000; text = "good morning" }

blank_message-IsLine : IsLine whole blank_message
blank_message-IsLine = (
  record { created_at = omega arith; attachments = tt },
  record { created_at = whole-Kept 0 (omega arith); attachments = tt },
  refl,
)

greeting-IsLine : IsLine whole greeting
greeting-IsLine = (
  record { created_at = omega arith; attachments = tt },
  record { created_at = whole-Kept 1719792000 (omega arith); attachments = tt },
  refl,
)

bridge_loop-line_push_example :
    (s' : Listener env) × (bridge_loop env bridge
        (json_codec whole)
        (map (line_push "/user/7") (blank_message ∷ greeting ∷ []))
        connected_once
      ≡ done tt s')
    × (map untimed s'.bridge.queue
        ≡ map untimed connected_once.bridge.queue
          ++ map (told bridge) (blank_message ∷ greeting ∷ []))
bridge_loop-line_push_example =
    bridge_loop-line_push whole env bridge "/user/7" (blank_message ∷ greeting ∷ []) 1
      connected_once refl (blank_message-IsLine, (greeting-IsLine, tt))
