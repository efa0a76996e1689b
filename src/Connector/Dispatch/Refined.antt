-- ===== src/Connector/Dispatch/Refined.antt =====
-- The loop over the connector refines the log of events.
use matrix_groupme_bridge.Prelude.{
  ℕ, zero, suc, ◌≡◌, refl, sym, ap, ◌∙◌, String, List, [], ◌∷◌, ◌++◌, Option, none, some, true,
  ◌==◌, Outcome, done, All, map, Bool-cases, inl, inr,
}
use mathlib.Core.List.{append_assoc, append-nil, map-append}
use matrix_groupme_bridge.Prelude.Json.{Dict}
use matrix_groupme_bridge.Groupme.Types.{Member}
use matrix_groupme_bridge.Faye.Message.{Message}
use matrix_groupme_bridge.Realtime.Calls.{
  Call, text_message, like, joined, group_topic, group_name, group_avatar, like_icon, new_nickname,
  new_avatar, members, Codec, calls_of,
}
use matrix_groupme_bridge.Realtime.Loop.Rounds.{
  is_harmless, announced, made, handle_message-harmless,
}
use matrix_groupme_bridge.Connector.Events.{
  ChatMember, RemoteEvent, Env, GroupmeClient, Bridge, wrap_avatar, queue_event,
  send_chat_info_change,
}
use matrix_groupme_bridge.Connector.Handlers.{
  handle_group_avatar, handle_group_name, handle_group_topic, handle_join, handle_like,
  handle_like_icon, handle_members, handle_new_avatar_in_group, handle_new_nickname,
  handle_text_message, new_member, add_members, members_to_update,
}
use matrix_groupme_bridge.Connector.Handlers.Members.{HasPicture}
use matrix_groupme_bridge.Connector.Dispatch.{
  full_handler, handle_call, handle_calls, Listener, bridge_message, bridge_loop,
}
use matrix_groupme_bridge.Connector.Dispatch.Log.{
  registered, repeated, untimed, untimed_meta, portal_of, picture, listed, all_listed, promised,
  IsLocal, promised_by, CallIsLocal,
}

module _ (env : Env) (g : GroupmeClient) where
  -- The run returns, and has queued these events, but for their times.
  abbrev Queues : List RemoteEvent → Bridge env → Outcome (Bridge env) (Unit {0}) → Type 0
  Queues events s o =
      (s' : Bridge env) × (o ≡ done tt s') × (map untimed s'.queue ≡ map untimed s.queue ++ events)

  wrap_avatar-picture :
      (url : String) (s : Bridge env)
      → HasPicture env g url
      → wrap_avatar env url s ≡ done (picture env g url) s
  unfolding wrap_avatar picture
  wrap_avatar-picture url s (inl e) = rw e refl
  wrap_avatar-picture url s (inr (path, e)) = elim (Bool-cases (url == "")) [
    | inl b ↦ rw b refl
    | inr b ↦ rw (b, e) refl
  ]

  add_members-all_listed :
      (ms : List Member) (found : Dict ChatMember) (s : Bridge env)
      → All (λ m. HasPicture env g m.image_url) ms
      → add_members env g ms found s ≡ done (all_listed env g ms found) s
  unfolding add_members all_listed new_member listed
  add_members-all_listed [] found s h = refl
  add_members-all_listed (m ∷ ms) found s h =
      rw (add_members, wrap_avatar-picture m.image_url s h.0) (add_members-all_listed ms _ s h.1)

  handle_call-Queues :
      (call : Call) (s : Bridge env)
      → IsLocal env g call
      → Queues (promised env g call) s (handle_call env g call s)
  unfolding handle_call promised IsLocal handle_text_message handle_like handle_join
      handle_group_topic handle_group_name handle_new_nickname handle_like_icon handle_group_avatar
      handle_new_avatar_in_group handle_members members_to_update send_chat_info_change untimed
      untimed_meta portal_of queue_event
  handle_call-Queues (text_message m) s h = (_, refl, map-append untimed s.queue _)
  handle_call-Queues (like m) s h = (_, refl, map-append untimed s.queue _)
  handle_call-Queues (joined id) s h = (_, refl, map-append untimed s.queue _)
  handle_call-Queues (group_topic group text) s h = (_, refl, map-append untimed s.queue _)
  handle_call-Queues (group_name group text) s h = (_, refl, map-append untimed s.queue _)
  handle_call-Queues (group_avatar group url) s h =
      rw (wrap_avatar-picture url s h) ((_, refl, map-append untimed s.queue _))
  handle_call-Queues (like_icon group pack_id pack_index type) s h = (s, refl, sym (append-nil _))
  handle_call-Queues (new_nickname group user name) s h = (_, refl, map-append untimed s.queue _)
  handle_call-Queues (new_avatar group user url) s h =
      rw (wrap_avatar-picture url s h) ((_, refl, map-append untimed s.queue _))
  handle_call-Queues (members group ms added) s h =
      rw (h.0, members_to_update, add_members-all_listed ms [] s h.1)
        ((_, refl, map-append untimed s.queue _))

  made_calls-Queues :
      (n name : ℕ) (call : Call) (s : Bridge env)
      → IsLocal env g call
      → Queues
          (repeated n (promised env g call))
          s
          (handle_calls env g (calls_of (registered n name) call) s)
  unfolding handle_calls calls_of registered full_handler repeated
  made_calls-Queues zero name call s h = (s, refl, sym (append-nil _))
  made_calls-Queues (suc n) name call s h =
      let (s1, e1, q1) = handle_call-Queues call s h in
      let (s2, e2, q2) = made_calls-Queues n name call s1 h in
      (
        s2,
        rw (handle_calls, e1) e2,
        q2
            ∙ rw q1 (
                append_assoc (map untimed s.queue) (promised env g call)
                  (repeated n (promised env g call))),
      )

  repeated-nil : (n : ℕ) → repeated n [] ≡ []
  unfolding repeated
  repeated-nil zero = refl
  repeated-nil (suc n) = repeated-nil n

  -- The handlers of one message.
  handle_calls-Queues :
      (n name : ℕ) (call : Option Call) (s : Bridge env)
      → CallIsLocal env g call
      → Queues
          (repeated n (promised_by env g call))
          s
          (handle_calls env g (made (registered n name) call) s)
  unfolding handle_calls promised_by CallIsLocal made
  handle_calls-Queues n name none s h = (s, refl, rw (repeated-nil n) (sym (append-nil _)))
  handle_calls-Queues n name (some call) s h = made_calls-Queues n name call s h

  module _ (c : Codec) where
    -- The events that a stream of messages promises, those of each message repeated.
    unfoldable pub log : ℕ → List Message → List RemoteEvent
    log n [] = []
    log n (m ∷ ms) = repeated n (promised_by env g (announced c m)) ++ log n ms

    unfoldable pub IsServed : Message → Type 0
    IsServed m = (is_harmless m ≡ true) × CallIsLocal env g (announced c m)

    bridge_message-Queues :
        (m : Message) (n name : ℕ) (s : Listener env)
        → s.push.handlers ≡ registered n name
        → IsServed m
        → (s' : Listener env) × (bridge_message env g c m s ≡ done tt s')
          × (s'.push.handlers ≡ registered n name)
          × (map untimed s'.bridge.queue
              ≡ map untimed s.bridge.queue ++ repeated n (promised_by env g (announced c m)))
    unfolding bridge_message IsServed
    bridge_message-Queues m n name s hs (calm, local) =
        let (push, e, kept, calls) =
          handle_message-harmless c m (record s.push { calls = [] }) calm in
        let (bridge, e', q) = handle_calls-Queues n name (announced c m) s.bridge local in
        let made_calls = calls ∙ ap (λ hs. made hs (announced c m)) hs in
        (
          record { push = push; bridge = bridge },
          rw (bridge_message, e) (rw made_calls (rw e' refl)),
          kept ∙ hs,
          q,
        )

    -- For a bridge whose handler is registered some number of times, and a stream of messages that the loop
    -- survives and of which the calls ask GroupMe nothing and have pictures that can be named: the loop reads
    -- the whole stream, and the events that it has queued are, but for their times, those that were there and
    -- then, for each message in order, the events that its call promises, as many times as the handler is
    -- registered.
    pub bridge_loop-log :
        (ms : List Message) (n name : ℕ) (s : Listener env)
        → s.push.handlers ≡ registered n name
        → All IsServed ms
        → (s' : Listener env) × (bridge_loop env g c ms s ≡ done tt s')
          × (map untimed s'.bridge.queue ≡ map untimed s.bridge.queue ++ log n ms)
    unfolding bridge_loop log
    bridge_loop-log [] n name s hs h = (s, refl, sym (append-nil _))
    bridge_loop-log (m ∷ ms) n name s hs h =
        let (s1, e1, hs1, q1) = bridge_message-Queues m n name s hs h.0 in
        let (s2, e2, q2) = bridge_loop-log ms n name s1 hs1 h.1 in
        (
          s2,
          rw (bridge_loop, e1) e2,
          q2
              ∙ rw q1 (
                  append_assoc (map untimed s.bridge.queue)
                    (repeated n (promised_by env g (announced c m))) (log n ms)),
        )
