-- ===== src/Realtime/Loop.antt =====
-- `HandleMessageLoop` of pkg/groupmerealtime/real_time.go.
pub mod Rounds
use matrix_groupme_bridge.Prelude.{
  ℕ, ◌+◌, ◌*◌, ◌≡◌, String, List, [], ◌∷◌, ◌++◌, Option, none, some, Bool, true, false, ◌||◌, ◌==◌,
  if◌then◌else◌, Outcome, Run, done, panics, pure, nil_pointer, bad_type_assertion, ◌>>=◌, ◌>>◌,
  add64,
}
use matrix_groupme_bridge.Prelude.Json.{Json, null, bool, num, str, arr, obj, get_field}
use matrix_groupme_bridge.Faye.Message.{Message}
use matrix_groupme_bridge.Realtime.Calls.{Call, Handler, Codec, Kind, kind_of, call_of, calls_of}

-- `PushSubscription`, with the calls that were made of its handlers and the clock's readings to come.
pub record PushSubscription : Type 0 where
  pub handlers : List Handler
  pub connection_timeout : ℕ
  pub timeout_minutes : ℕ
  pub calls : List (ℕ × Call)
  pub now : ℕ → ℕ
  pub readings : ℕ

-- `NewPushSubscription`
unfoldable pub new_push_subscription : (ℕ → ℕ) → PushSubscription
new_push_subscription now = record {
  handlers = [];
  connection_timeout = 0;
  timeout_minutes = 3;
  calls = [];
  now = now;
  readings = 0;
}

-- `AddHandler` and `AddFullHandler`
unfoldable pub add_handler : Handler → PushSubscription → PushSubscription
add_handler h r = record r { handlers = r.handlers ++ h ∷ [] }

unfoldable pub is_nil : Json → Bool
is_nil null = true
is_nil _ = false

-- The time until which the connection counts as alive.
unfoldable pub touch : PushSubscription → PushSubscription
touch r = record r {
  connection_timeout = add64 (r.now r.readings) (60 * r.timeout_minutes);
  readings = r.readings + 1;
}

unfoldable pub perform : Option Call → PushSubscription → PushSubscription
unfolding calls_of
perform none r = r
perform (some call) r = record r { calls = r.calls ++ calls_of r.handlers call }

-- A type without a handler: what is neither a ping nor empty is logged, and then the missing
-- handler, a nil function, is called.
unfoldable pub unhandled : String → Json → Run PushSubscription (Unit {0})
unfolding is_nil
unhandled content_type content r =
    if content_type == "ping" || content_type == "" || is_nil content
    then done tt r
    else panics nil_pointer

-- The calls of the handlers are noted; what the connector's handlers do then, and that they may panic, is in
-- Connector/Dispatch.
unfoldable pub handle_content : Codec → String → Json → Run PushSubscription (Unit {0})
unfolding kind_of call_of perform unhandled
handle_content c content_type content r = elim (kind_of content_type) [
  | none ↦ unhandled content_type content r
  | some kind ↦ done tt (perform (call_of c kind content) r)
]

-- By the type's value: `dataType.(string)` panics on what is no text.
unfoldable pub handle_typed : Codec → Json → Json → Run PushSubscription (Unit {0})
unfolding handle_content
handle_typed c null content r = done tt r
handle_typed c (str content_type) content r = handle_content c content_type content r
handle_typed c _ content r = panics bad_type_assertion

-- One round of the loop.
unfoldable pub handle_message : Codec → Message → Run PushSubscription (Unit {0})
unfolding touch handle_typed
handle_message c msg r =
    handle_typed c (get_field "type" msg.content) (get_field "subject" msg.content) (touch r)

-- The loop, over the messages that the channel brings.
unfoldable pub handle_message_loop : Codec → List Message → Run PushSubscription (Unit {0})
unfolding handle_message
handle_message_loop c [] = pure tt
handle_message_loop c (m ∷ ms) = do handle_message c m; handle_message_loop c ms
