-- ===== src/Realtime/Setup.antt =====
-- `Setup` and `SubscribeToUser` of pkg/groupmerealtime/real_time.go: the subscription together with
-- its Faye client.
pub mod Subscribed
use matrix_groupme_bridge.Prelude.{
  ℕ, ◌+◌, String, List, [], ◌∷◌, ◌++◌, Option, none, some, Bool, true, if◌then◌else◌, Outcome, Run,
  done, panics, unfinished, length,
}
use matrix_groupme_bridge.Faye.Transport.{Net}
use matrix_groupme_bridge.Faye.Client.{FayeClient, Sys}
use matrix_groupme_bridge.Faye.Handshake.{handshake_and_connect}
use matrix_groupme_bridge.Realtime.Loop.{PushSubscription}
use matrix_groupme_bridge.Realtime.Push.{
  user_channel, group_channel, dm_channel, subscribe_with_prefix,
}

-- `started` is whether `fayeClient` is set; before that `faye.client` stands for no client. `loops`
-- counts the pairs of goroutines that `Setup` started, `HandleMessageLoop` and `StayConnectedLoop`, and
-- `forwarded` lists the channels whose messages goroutines pass on to the loop. The goroutines of an
-- earlier client are not followed.
pub record Push (net : Net) : Type 0 where
  pub subscription : PushSubscription
  pub started : Bool
  pub faye : Sys net
  pub loops : ℕ
  pub forwarded : List ℕ

module _ {net : Net} {A B : Type 0} where
  -- What follows a run of the client.
  abbrev pub follow : Push net → Outcome (Sys net) A → (A → Run (Push net) B) → Outcome (Push net) B
  follow s (done a faye) f = f a (record s { faye = faye })
  follow s (panics p) f = panics p
  follow s unfinished f = unfinished

module _ (net : Net) where
  unfoldable pub start_loops : Option String → Run (Push net) (Option String)
  start_loops (some e) s = done (some e) s
  start_loops none s = done none (record s { loops = s.loops + 1 })

  -- `Setup`: the client is set before it connects, and stays set where it cannot.
  unfoldable pub setup : ℕ → FayeClient → Run (Push net) (Option String)
  setup fuel client s =
      follow (record s { started = true })
        (handshake_and_connect net fuel (record s.faye { client = client; spawned = [] }))
        start_loops

  unfoldable pub forward : ℕ → Option String → Run (Push net) (Option String)
  forward c_new (some e) s = done (some e) s
  forward c_new none s = done none (record s { forwarded = s.forwarded ++ c_new ∷ [] })

  -- `subscribeWithPrefix`: the new channel's messages are passed on from then on.
  unfoldable pub subscribe_channel_of : ℕ → String → Run (Push net) (Option String)
  subscribe_channel_of fuel channel s =
      let c_new = length s.forwarded in
      follow s (subscribe_with_prefix net fuel s.started channel c_new s.faye) (forward c_new)

  unfoldable pub subscribe_to_user : ℕ → String → Run (Push net) (Option String)
  subscribe_to_user fuel id = subscribe_channel_of fuel (user_channel id)

  unfoldable pub subscribe_to_group : ℕ → String → Run (Push net) (Option String)
  subscribe_to_group fuel id = subscribe_channel_of fuel (group_channel id)

  unfoldable pub subscribe_to_dm : ℕ → String → Run (Push net) (Option String)
  subscribe_to_dm fuel id = subscribe_channel_of fuel (dm_channel id)
