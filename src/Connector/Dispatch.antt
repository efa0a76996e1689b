-- ===== src/Connector/Dispatch.antt =====
-- The connector as the handler of the real-time messages: `HandleMessageLoop` of
-- pkg/groupmerealtime/real_time.go, whose handlers call the methods of pkg/connector/handler.go.
pub mod Log
pub mod Refined
pub mod Lines
pub mod Tests
use matrix_groupme_bridge.Prelude.{
  ℕ, List, [], ◌∷◌, ◌++◌, Option, none, some, Bool, true, Outcome, Run, done, panics, unfinished,
  pure, continue, ◌>>=◌, ◌>>◌, map,
}
use matrix_groupme_bridge.Faye.Message.{Message}
use matrix_groupme_bridge.Realtime.Calls.{
  Call, text_message, like, joined, group_topic, group_name, group_avatar, like_icon, new_nickname,
  new_avatar, members, Handler, Codec,
}
use matrix_groupme_bridge.Realtime.Loop.{PushSubscription, add_handler, handle_message}
use matrix_groupme_bridge.Connector.Events.{Env, GroupmeClient, Bridge, Do}
use matrix_groupme_bridge.Connector.Handlers.{
  handle_group_avatar, handle_group_name, handle_group_topic, handle_join, handle_like,
  handle_like_icon, handle_members, handle_new_avatar_in_group, handle_new_nickname,
  handle_text_message,
}

-- `GroupmeClient` implements every interface, so `AddFullHandler` registers it for every call.
unfoldable pub full_handler : ℕ → Handler
full_handler name = record { name = name; accepts = λ _. true }

module _ (env : Env) (g : GroupmeClient) where
  -- The method that a call is of.
  unfoldable pub handle_call : Call → Do env (Unit {0})
  handle_call (text_message m) = handle_text_message env g m
  handle_call (like m) = handle_like env g m
  handle_call (joined id) = handle_join env g id
  handle_call (group_topic group text) = handle_group_topic env g group text
  handle_call (group_name group text) = handle_group_name env g group text
  handle_call (group_avatar group url) = handle_group_avatar env g group url
  handle_call (like_icon group pack_id pack_index type) = handle_like_icon env g group
  handle_call (new_nickname group user name) = handle_new_nickname env g group user name
  handle_call (new_avatar group user url) = handle_new_avatar_in_group env g group user url
  handle_call (members group ms added) = handle_members env g group ms added

  unfoldable pub handle_calls : List (ℕ × Call) → Do env (Unit {0})
  handle_calls [] s = done tt s
  handle_calls ((_, call) ∷ calls) s = continue (handle_call call s) (λ _. handle_calls calls)

-- The loop's state: the subscription, and the bridge that its handlers write to.
pub record Listener (env : Env) : Type 0 where
  pub push : PushSubscription
  pub bridge : Bridge env

module _ (env : Env) (g : GroupmeClient) (c : Codec) where
  -- One round: what the message makes the handlers do is done before the next message is read.
  unfoldable pub bridge_message : Message → Run (Listener env) (Unit {0})
  bridge_message m s = elim (handle_message c m (record s.push { calls = [] })) [
    | done _ push ↦ elim (handle_calls env g push.calls s.bridge) [
      | done _ bridge ↦ done tt (record { push = push; bridge = bridge })
      | panics p ↦ panics p
      | unfinished ↦ unfinished
    ]
    | panics p ↦ panics p
    | unfinished ↦ unfinished
  ]

  unfoldable pub bridge_loop : List Message → Run (Listener env) (Unit {0})
  bridge_loop [] s = done tt s
  bridge_loop (m ∷ ms) s = continue (bridge_message m s) (λ _. bridge_loop ms)
