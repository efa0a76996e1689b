-- ===== src/Realtime/Loop/Rounds.antt =====
-- What a stream of messages makes the handlers see, and which messages end the program.
use matrix_groupme_bridge.Prelude.{
  Panic, panics, false, ℕ, ◌≡◌, refl, sym, String, List, [], ◌∷◌, ◌++◌, Option, none, some, Bool,
  true, false, ◌||◌, ◌==◌, Outcome, done, arith, Option-cases, inl, inr, All,
}
use mathlib.Core.List.{append-nil}
use matrix_groupme_bridge.Prelude.Json.{Json, null, bool, num, str, arr, obj, get_field}
use matrix_groupme_bridge.Faye.Message.{Message}
use matrix_groupme_bridge.Realtime.Calls.{Call, Handler, Codec, kind_of, call_of, calls_of}
use matrix_groupme_bridge.Realtime.Loop.{
  PushSubscription, touch, is_nil, perform, unhandled, handle_content, handle_typed, handle_message,
  handle_message_loop,
}

-- A message that the loop survives: it has no type, or one that has a handler, or it is a ping, or it
-- is empty.
unfoldable pub harmless_type : String → Json → Bool
harmless_type t content = elim (kind_of t) [
  | none ↦ t == "ping" || t == "" || is_nil content
  | some _ ↦ true
]

unfoldable pub harmless_typed : Json → Json → Bool
unfolding harmless_type
harmless_typed null content = true
harmless_typed (str t) content = harmless_type t content
harmless_typed _ content = false

unfoldable pub is_harmless : Message → Bool
unfolding harmless_typed
is_harmless m = harmless_typed (get_field "type" m.content) (get_field "subject" m.content)

-- The call that a message announces.
unfoldable pub announced_typed : Codec → Json → Json → Option Call
announced_typed c (str t) content = elim (kind_of t) [
  | none ↦ none
  | some kind ↦ call_of c kind content
]
announced_typed c _ content = none

unfoldable pub announced : Codec → Message → Option Call
unfolding announced_typed
announced c m = announced_typed c (get_field "type" m.content) (get_field "subject" m.content)

unfoldable pub made : List Handler → Option Call → List (ℕ × Call)
made hs none = []
made hs (some call) = calls_of hs call

abbrev IsSurvived :
    Codec → PushSubscription → Option Call → Outcome PushSubscription (Unit {0}) → Type 0
IsSurvived c r call o =
    (r' : PushSubscription) × (o ≡ done tt r')
    × (r'.handlers ≡ r.handlers)
    × (r'.calls ≡ r.calls ++ made r.handlers call)

perform_lem :
    (r : PushSubscription) (call : Option Call)
    → ((perform call r).handlers ≡ r.handlers)
      × ((perform call r).calls ≡ r.calls ++ made r.handlers call)
unfolding perform made
perform_lem r none = (refl, sym (append-nil r.calls))
perform_lem r (some call) = (refl, refl)

handle_content_harmless :
    (c : Codec) (t : String) (content : Json) (r : PushSubscription)
    → harmless_type t content ≡ true
    → IsSurvived c r (announced_typed c (str t) content) (handle_content c t content r)
unfolding harmless_type handle_content announced_typed made unhandled
handle_content_harmless c t content r h = elim (Option-cases (kind_of t)) [
  | inl e ↦
      let calm : (t == "ping" || t == "" || is_nil content) ≡ true = rw (e, harmless_type) at h in
      rw (e, announced_typed, handle_content, unhandled, calm)
        (r, refl, refl, sym (append-nil r.calls))
  | inr (kind, e) ↦
      let (hs, cs) = perform_lem r (call_of c kind content) in
      rw (e, announced_typed, handle_content) (perform (call_of c kind content) r, refl, hs, cs)
]

handle_typed_harmless :
    (c : Codec) (type content : Json) (r : PushSubscription)
    → harmless_typed type content ≡ true
    → IsSurvived c r (announced_typed c type content) (handle_typed c type content r)
unfolding harmless_typed handle_typed announced_typed made
handle_typed_harmless c null content r h = (r, refl, refl, sym (append-nil r.calls))
handle_typed_harmless c (str t) content r h = handle_content_harmless c t content r h
handle_typed_harmless c (bool _) content r h = ground (arith, h)
handle_typed_harmless c (num _) content r h = ground (arith, h)
handle_typed_harmless c (arr _) content r h = ground (arith, h)
handle_typed_harmless c (obj _) content r h = ground (arith, h)

pub handle_message-harmless :
    (c : Codec) (m : Message) (r : PushSubscription)
    → is_harmless m ≡ true
    → IsSurvived c r (announced c m) (handle_message c m r)
unfolding is_harmless handle_message announced touch
handle_message-harmless c m r h =
    handle_typed_harmless c (get_field "type" m.content) (get_field "subject" m.content) (touch r) h

handle_content_harmful :
    (c : Codec) (t : String) (content : Json) (r : PushSubscription)
    → harmless_type t content ≡ false
    → (p : Panic) × (handle_content c t content r ≡ panics p)
unfolding harmless_type handle_content unhandled
handle_content_harmful c t content r h = elim (Option-cases (kind_of t)) [
  | inl e ↦
      let loud : (t == "ping" || t == "" || is_nil content) ≡ false = rw (e, harmless_type) at h in
      rw (e, handle_content, unhandled, loud) (_, refl)
  | inr (kind, e) ↦ cc (rw (e, harmless_type) at h)
]

handle_typed_harmful :
    (c : Codec) (type content : Json) (r : PushSubscription)
    → harmless_typed type content ≡ false
    → (p : Panic) × (handle_typed c type content r ≡ panics p)
unfolding harmless_typed handle_typed
handle_typed_harmful c null content r h = cc h
handle_typed_harmful c (str t) content r h = handle_content_harmful c t content r h
handle_typed_harmful c (bool _) content r h = (_, refl)
handle_typed_harmful c (num _) content r h = (_, refl)
handle_typed_harmful c (arr _) content r h = (_, refl)
handle_typed_harmful c (obj _) content r h = (_, refl)

handle_message-harmful :
    (c : Codec) (m : Message) (r : PushSubscription)
    → is_harmless m ≡ false
    → (p : Panic) × (handle_message c m r ≡ panics p)
unfolding is_harmless handle_message
handle_message-harmful c m r h =
    handle_typed_harmful c (get_field "type" m.content) (get_field "subject" m.content) (touch r) h

-- A message whose type is no text, or is unknown, not that of a ping and not empty while the message has
-- a subject, ends the program with a panic, whatever harmless messages precede it and whatever
-- messages follow.
pub handle_message_loop-harmful :
    (c : Codec) (before : List Message) (m : Message) (after : List Message) (r : PushSubscription)
    → All (λ b. is_harmless b ≡ true) before
    → is_harmless m ≡ false
    → (p : Panic) × (handle_message_loop c (before ++ m ∷ after) r ≡ panics p)
unfolding handle_message_loop
handle_message_loop-harmful c [] m after r h e =
    let (p, e') = handle_message-harmful c m r e in (p, rw (handle_message_loop, e') refl)
handle_message_loop-harmful c (b ∷ before) m after r h e =
    let (r1, e1, _, _) = handle_message-harmless c b r h.0 in
    let (p, e') = handle_message_loop-harmful c before m after r1 h.1 e in
    (p, rw (handle_message_loop, e1) e')
