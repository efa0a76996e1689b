-- ===== src/Faye/Connect/Delivery.antt =====
-- The delivery of a batch of messages.
use matrix_groupme_bridge.Prelude.{
  ◌≡◌, refl, List, [], ◌∷◌, ◌++◌, Option, none, some, done, arith, All,
}
use matrix_groupme_bridge.Faye.Message.{Message}
use matrix_groupme_bridge.Faye.Transport.{Net}
use matrix_groupme_bridge.Faye.Client.{Subscription, Sys, deliver_task, run_incoming}
use matrix_groupme_bridge.Faye.Connect.{find_subscription, handle_messages}

module _ (net : Net) (s : Sys net) where
  -- The message as the extensions leave it, and the subscription that it goes to.
  abbrev seen : Message → Message
  seen m = run_incoming s.client.extns m

  abbrev pub target : Message → Option Subscription
  target m = find_subscription s.subs s.client.subscriptions (seen m).channel

  -- A batch of messages that no subscription matches changes nothing.
  pub handle_messages_unmatched :
      (ms : List Message) → All (λ m. target m ≡ none) ms → handle_messages net ms s ≡ done tt s
  unfolding handle_messages
  handle_messages_unmatched [] h = refl
  handle_messages_unmatched (m ∷ ms) (h, hs) = ground (arith, handle_messages_unmatched ms hs)

  -- Of a batch, the first message that a subscription matches is sent to the channel of the first
  -- such subscription, and nothing else is done, whatever messages follow it.
  pub handle_messages_first :
      (before : List Message) (m : Message) (after : List Message) (sub : Subscription)
      → All (λ m'. target m' ≡ none) before
      → target m ≡ some sub
      → handle_messages net (before ++ m ∷ after) s
        ≡ done tt (record s {
          spawned = s.spawned ++ deliver_task sub.msg_chan (run_incoming s.client.extns m) ∷ [];
        })
  unfolding handle_messages
  handle_messages_first [] m after sub h e = ground arith
  handle_messages_first (m' ∷ before) m after sub (h, hs) e =
      ground (arith, handle_messages_first before m after sub hs e)
