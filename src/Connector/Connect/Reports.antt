-- ===== src/Connector/Connect/Reports.antt =====
-- What `Connect` leaves: a client that listens, or one state that tells what failed.
use matrix_groupme_bridge.Prelude.{
  ℕ, ◌+◌, ◌≡◌, refl, ap, ◌∙◌, String, [], ◌∷◌, ◌++◌, Option, none, some, true, Outcome, done,
  panics, unfinished, Ends, Ends-at, Ends-and, length, get_elem?, ◌⊎◌, inl, inr, Bool-cases, ◌==◌,
}
use matrix_groupme_bridge.Groupme.Types.{User}
use matrix_groupme_bridge.Groupme.Http.{Answer, answer, error, new_client}
use matrix_groupme_bridge.Faye.Transport.{Net}
use matrix_groupme_bridge.Faye.Handshake.Unsubscribed.{
  Unsubscribed, handshake_and_connect-Unsubscribed,
}
use matrix_groupme_bridge.Faye.Client.{
  new_faye_client, add_extension, Sys, connected, FayeClient, Subscription,
}
use matrix_groupme_bridge.Faye.Handshake.{handshake_and_connect}
use matrix_groupme_bridge.Faye.Handshake.Connected.{Connected, handshake_and_connect-Connected}
use matrix_groupme_bridge.Realtime.Loop.{add_handler}
use matrix_groupme_bridge.Realtime.Push.{user_channel, new_push_client}
use matrix_groupme_bridge.Realtime.Setup.{Push, follow, setup, start_loops, subscribe_to_user}
use matrix_groupme_bridge.Realtime.Setup.Subscribed.{IsForwarded, subscribe_channel_of-IsForwarded}
use matrix_groupme_bridge.Connector.Events.{Env}
use matrix_groupme_bridge.Connector.Dispatch.{full_handler}
use matrix_groupme_bridge.Connector.Connect.{
  BridgeState, Session, send_state, on_push, after_subscribe, after_setup, take_user, after_user,
  connect_with, connect,
}

-- `Setup` ran to its end, or returned an error.
pub record IsSetUp (net : Net) (client : FayeClient) (s u : Push net) : Type 0 where
  pub started : u.started ≡ true
  pub loops : u.loops ≡ s.loops + 1
  pub online : u.faye.client.state ≡ connected
  pub bare : Unsubscribed net client.extns u.faye
  pub subscription : u.subscription ≡ s.subscription
  pub forwarded : u.forwarded ≡ s.forwarded

module _ (net : Net) where
  abbrev SetUp : FayeClient → Push net → Option String → Push net → Type 0
  SetUp client s none u = IsSetUp net client s u
  SetUp client s (some e) u = (u.loops ≡ s.loops) × (u.forwarded ≡ s.forwarded)

  start_loops-SetUp :
      (client : FayeClient) (s : Push net) (o : Outcome (Sys net) (Option String))
      → Ends (λ e u. Connected net e u × Unsubscribed net client.extns u) o
      → Ends (SetUp client s) (follow (record s { started = true }) o (start_loops net))
  unfolding start_loops
  start_loops-SetUp client s (done none faye) h = record {
    started = refl;
    loops = refl;
    online = h.0;
    bare = h.1;
    subscription = refl;
    forwarded = refl;
  }
  start_loops-SetUp client s (done (some e) faye) h = (refl, refl)
  start_loops-SetUp client s (panics p) h = tt
  start_loops-SetUp client s unfinished h = tt

  setup-SetUp :
      (fuel : ℕ) (client : FayeClient) (s : Push net)
      → client.subscriptions ≡ []
      → Ends (SetUp client s) (setup net fuel client s)
  unfolding setup
  setup-SetUp fuel client s bare = start_loops-SetUp client s (handshake_and_connect net fuel _) (
      Ends-and _ _ (handshake_and_connect net fuel _) (handshake_and_connect-Connected net fuel _)
        ((handshake_and_connect-Unsubscribed net client.extns fuel).at _ (bare, refl)))

-- The client listens: it has an API client, its handler is registered, `Setup` has started the
-- loops, the Faye client is connected, has the extensions of a new one, and its only subscription is to the
-- user's channel, of which the messages are passed on. No state was sent.
pub record IsListening (env : Env) (net : Net) (s u : Session env net) : Type 0 where
  pub client : u.client.client ≡ some (new_client s.client.auth_token)
  pub states : u.states ≡ s.states
  pub handlers :
      u.push.subscription.handlers ≡ s.push.subscription.handlers ++ full_handler s.self ∷ []
  pub loops : u.push.loops ≡ s.push.loops + 1
  pub online : u.push.faye.client.state ≡ connected
  pub extns : u.push.faye.client.extns ≡ (new_push_client s.client.auth_token).extns
  pub position : ℕ
  pub listed : u.push.faye.client.subscriptions ≡ position ∷ []
  pub sub : Subscription
  pub stored : get_elem? u.push.faye.subs position ≡ some sub
  pub channel : sub.channel ≡ user_channel u.client.user_id
  pub forwarded : u.push.forwarded ≡ s.push.forwarded ++ sub.msg_chan ∷ []

-- One state was sent, no loops were started, and no further channel is passed on.
pub record IsReported (env : Env) (net : Net) (s u : Session env net) : Type 0 where
  pub reported : BridgeState
  pub states : u.states ≡ s.states ++ reported ∷ []
  pub loops : u.push.loops ≡ s.push.loops
  pub forwarded : u.push.forwarded ≡ s.push.forwarded

-- `Connect` has made the API client, got the user and registered the handler.
record IsBegun (env : Env) (net : Net) (s t : Session env net) : Type 0 where
  client : t.client.client ≡ some (new_client s.client.auth_token)
  states : t.states ≡ s.states
  handlers : t.push.subscription.handlers ≡ s.push.subscription.handlers ++ full_handler s.self ∷ []
  loops : t.push.loops ≡ s.push.loops
  forwarded : t.push.forwarded ≡ s.push.forwarded

module _ (env : Env) (net : Net) where
  abbrev Ended : Session env net → Unit {0} → Session env net → Type 0
  Ended s _ u = IsListening env net s u ⊎ IsReported env net s u

  send_state-Ended :
      (s t : Session env net) (code text : String) (go_error : Option String)
      → t.states ≡ s.states
      → t.push.loops ≡ s.push.loops
      → t.push.forwarded ≡ s.push.forwarded
      → Ends (Ended s) (send_state env net code text go_error t)
  unfolding send_state
  send_state-Ended s t code text go_error hs hl hf = inr (record {
    reported = _;
    states = ap (λ l. l ++ record { error = code; message = text; go_error = go_error } ∷ []) hs;
    loops = hl;
    forwarded = hf;
  })

  -- After the subscription: `Setup` has made `q` of the session `t`.
  after_subscribe-Ended :
      (s t : Session env net) (q : Push net)
      → IsBegun env net s t
      → IsSetUp net (new_push_client s.client.auth_token) t.push q
      → (o : Outcome (Push net) (Option String))
      → Ends (IsForwarded net (user_channel t.client.user_id) q) o
      → Ends (Ended s) (on_push env net (record t { push = q }) o (after_subscribe env net))
  unfolding after_subscribe
  after_subscribe-Ended s t q b up (done (some e) u) h = cc (h.succeeded)
  after_subscribe-Ended s t q b up (done none u) h = inl (record {
    client = b.client;
    states = b.states;
    handlers = rw (h.subscription, up.subscription) (b.handlers);
    loops = h.loops ∙ rw (up.loops, b.loops) refl;
    online = h.subscribed.state ∙ up.online;
    extns = h.subscribed.extns ∙ up.bare.1;
    position = length q.faye.subs;
    listed = h.subscribed.listed ∙ ap (λ is. is ++ length q.faye.subs ∷ []) up.bare.0;
    sub = h.subscribed.sub;
    stored = h.subscribed.stored;
    channel = h.subscribed.channel;
    forwarded = rw (h.forwarded, h.subscribed.msg_chan, up.forwarded, b.forwarded) refl;
  })
  after_subscribe-Ended s t q b up (panics p) h = tt
  after_subscribe-Ended s t q b up unfinished h = tt

  -- After `Setup`, which began with the session `t`.
  after_setup-Ended :
      (fuel : ℕ) (s t : Session env net)
      → IsBegun env net s t
      → (o : Outcome (Push net) (Option String))
      → Ends (SetUp net (new_push_client s.client.auth_token) t.push) o
      → Ends (Ended s) (on_push env net t o (after_setup env net fuel))
  unfolding after_setup subscribe_to_user
  after_setup-Ended fuel s t b (done (some e) u) h =
      send_state-Ended s _ _ _ _ b.states (h.0 ∙ b.loops) (h.1 ∙ b.forwarded)
  after_setup-Ended fuel s t b (done none u) h =
      after_subscribe-Ended s t u b h _
        (subscribe_channel_of-IsForwarded net fuel (user_channel t.client.user_id) u h.started)
  after_setup-Ended fuel s t b (panics p) h = tt
  after_setup-Ended fuel s t b unfinished h = tt

  after_user-Ended :
      (fuel : ℕ) (s : Session env net) (w : env.http.World) (got : Answer User)
      → Ends (Ended s) (
          after_user env net fuel got (record s {
            client = record s.client { client = some (new_client s.client.auth_token) };
            world = w;
          }))
  unfolding after_user take_user add_handler new_push_client add_extension new_faye_client
  after_user-Ended fuel s w (error e) = send_state-Ended s _ _ _ _ refl refl refl
  after_user-Ended fuel s w (answer u) =
      after_setup-Ended fuel s _
        (record { client = refl; states = refl; handlers = refl; loops = refl; forwarded = refl }) _
        (setup-SetUp net fuel _ _ refl)

  connect-Ended : (fuel : ℕ) (s : Session env net) → Ends (Ended s) (connect env net fuel s)
  unfolding connect connect_with
  connect-Ended fuel s = elim (Bool-cases (s.client.auth_token == "")) [
    | inl missing ↦ rw missing (send_state-Ended s s _ _ _ refl refl refl)
    | inr given ↦ rw given (after_user-Ended fuel s _ _)
  ]

  -- A call of `Connect` that returns leaves a client that listens and has sent no state, or has sent just
  -- one state, started no loops and passes on the messages of no further channel. A client that listens has
  -- the API client of its token and one more registration of its handler, runs one more pair of loops, is
  -- connected with the extensions of a new push client, and has as its only subscription that to the user's
  -- channel, of which the messages are passed on.
  pub connect_reports :
      (fuel : ℕ) (s u : Session env net)
      → connect env net fuel s ≡ done tt u
      → IsListening env net s u ⊎ IsReported env net s u
  connect_reports fuel s u e = Ends-at (Ended s) (connect env net fuel s) (connect-Ended fuel s) e
