-- ===== src/Connector/Connect/Listens.antt =====
-- When `Connect` succeeds, and what `Disconnect` does after it had no token.
use matrix_groupme_bridge.Prelude.{
  ℕ, ◌+◌, ◌<◌, ◌≡◌, refl, [], ◌∷◌, ◌++◌, String, none, false, done, length, inl, inr, ◌==◌, arith,
}
use matrix_groupme_bridge.Groupme.Types.{User}
use matrix_groupme_bridge.Groupme.Http.{answer, new_client}
use matrix_groupme_bridge.Groupme.Groups.{my_user}
use matrix_groupme_bridge.Faye.Transport.{Net}
use matrix_groupme_bridge.Faye.Client.{Subscription, Sys}
use matrix_groupme_bridge.Faye.Handshake.{handshake_and_connect}
use matrix_groupme_bridge.Faye.Subscribe.{wait_subscribe, append_subscription}
use matrix_groupme_bridge.Faye.Subscribe.Waiting.{Fails, until_subscribed_iff}
use matrix_groupme_bridge.Realtime.Push.{user_channel, new_push_client, subscribe_with_prefix}
use matrix_groupme_bridge.Realtime.Setup.{
  Push, setup, start_loops, forward, subscribe_channel_of, subscribe_to_user,
}
use matrix_groupme_bridge.Connector.Events.{Env}
use matrix_groupme_bridge.Connector.Connect.{
  Session, after_subscribe, after_setup, take_user, after_user, connect_with, connect,
}
use matrix_groupme_bridge.Connector.Connect.Reports.{IsListening, connect_reports}

-- The subscription to the user's channel that a client adds.
abbrev pub added : {net : Net} → Push net → User → Subscription
added s u = record {
  channel = user_channel u.id;
  msg_chan = length s.forwarded;
  polling = false;
  stop_polling = false;
}

module _ (env : Env) (net : Net) where
  wait_subscribe_enough :
      (fuel : ℕ) {k : ℕ} (channel : String) (c_new : ℕ) (s v : Sys net)
      → Fails net
          (length s.subs)
          k
          (record s {
            subs =
                s.subs
                ++ record {
                  channel = channel;
                  msg_chan = c_new;
                  polling = false;
                  stop_polling = false;
                }
                  ∷ [];
          })
          v
      → k < fuel
      → wait_subscribe net fuel channel c_new s
        ≡ done tt (record v {
          client = record v.client { subscriptions = v.client.subscriptions ++ length s.subs ∷ [] };
        })
  unfolding wait_subscribe append_subscription
  wait_subscribe_enough fuel channel c_new s v f h =
      rw ((until_subscribed_iff net (length s.subs) fuel _ v).1 (_, h, f), wait_subscribe) refl

  -- With a token, for which GroupMe answers with the user, a Faye client that connects, and a request for
  -- the subscription that succeeds after fewer failures than the fuel: `Connect` returns, and leaves a
  -- client that listens.
  pub connect_listens :
      (fuel : ℕ) {k : ℕ} (s : Session env net) (u : User) (w : env.http.World) (faye v : Sys net)
      → (s.client.auth_token == "") ≡ false
      → my_user env.http (new_client s.client.auth_token) s.world ≡ (answer u, w)
      → handshake_and_connect net fuel
          (record s.push.faye { client = new_push_client s.client.auth_token; spawned = [] })
        ≡ done none faye
      → Fails net (length faye.subs) k (record faye { subs = faye.subs ++ added s.push u ∷ [] }) v
      → k < fuel
      → (t : Session env net) × (connect env net fuel s ≡ done tt t) × IsListening env net s t
  unfolding connect connect_with after_user take_user setup start_loops after_setup
      subscribe_to_user subscribe_channel_of subscribe_with_prefix forward after_subscribe
  connect_listens fuel s u w faye v given got online f h =
      let run : (t : Session env net) × (connect env net fuel s ≡ done tt t)
          × (t.push.loops ≡ s.push.loops + 1) =
        rw (connect, given)
          (rw (got, connect_with)
            (rw (online, setup)
              (rw
                (wait_subscribe_enough fuel (user_channel u.id) (length s.push.forwarded) faye v f
                  h)
                (_, refl, refl)))) in
      elim (connect_reports env net fuel s run.0 run.1) [
        | inl listening ↦ (run.0, run.1, listening)
        | inr reported ↦ absurd (omega (arith, run.2, reported.loops))
      ]
