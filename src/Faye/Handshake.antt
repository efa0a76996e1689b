-- ===== src/Faye/Handshake.antt =====
-- `handshake` and `HandshakeAndConnect` of pkg/faye/faye_client.go. The handshake loop takes fuel.
pub mod Wait
pub mod Refused
pub mod Success
pub mod Stable
pub mod Connected
pub mod Unsubscribed
pub mod Greeting
use matrix_groupme_bridge.Prelude.{
  ℕ, zero, suc, String, List, [], ◌∷◌, ◌++◌, Option, none, some, Bool, true, false, not, ◌&&◌, ◌==◌,
  if◌then◌else◌, Result, ok, err, Outcome, done, panics, unfinished, Run, pure, modify, ◌>>=◌, ◌>>◌,
  nil_pointer, ◌⧺◌, get_elem?, set, slt64, sub64, ltb, length,
}
use matrix_groupme_bridge.Faye.Message.{Message, new_message}
use matrix_groupme_bridge.Faye.Transport.{
  Net, Transport, connection_type, websocket_type, long_polling, mandatory_connection_types,
  set_url, set_timeout_seconds, select_transport,
}
use matrix_groupme_bridge.Faye.Client.{
  State, unconnected, connecting, connected, disconnected, FayeClient, Sys, Go, update_client,
  spawn, read_poll_task, current_transport, send, stack_error,
}
use matrix_groupme_bridge.Faye.Connect.{connect}
use matrix_groupme_bridge.Faye.Subscribe.{resubscribe_all}

abbrev pub connection_timeout_seconds : ℕ
connection_timeout_seconds = 180

-- A write to an object behind a pointer.
unfoldable pub update_at {ℓ} : {A : Type ℓ} → (A → A) → ℕ → List A → List A
update_at f i xs = elim (get_elem? xs i) [ none ↦ xs | some x ↦ set xs i (f x) ]

-- The seconds that `handshake` sleeps first, given the two times that it reads; none where it does
-- not sleep. All are int64 patterns.
unfoldable pub sleep_for : ℕ → ℕ → ℕ → Option ℕ
sleep_for next_handshake now later =
    if slt64 now next_handshake
    then (if slt64 0 (sub64 later next_handshake) then some (sub64 later next_handshake) else none)
    else none

-- The handshake message.
unfoldable pub handshake_message : FayeClient → Message
handshake_message c = record (new_message c.client_id c.handshake_channel) {
  version = "1.0";
  supported_connection_types = long_polling ∷ [];
}

unfoldable pub is_disconnected : State → Bool
is_disconnected disconnected = true
is_disconnected _ = false

module _ (net : Net) where
  -- The second reading of the clock is made only if the first is before the time to wait for.
  unfoldable pub wait_first : Go net (Unit {0})
  wait_first s =
      let next = s.client.next_handshake in
      let (now, w) = net.unix_now s.world in
      let (later, w') = net.unix_now w in
      if slt64 now next
      then elim (sleep_for next now later) [
        | none ↦ done tt (record s { world = w' })
        | some seconds ↦ done tt (record s { world = net.sleep seconds w' })
      ]
      else done tt (record s { world = w })

  -- `selectTransport` and the assignment of what it returns.
  unfoldable pub select : List String → Go net (Option ℕ)
  select types s =
      let (found, registered, w) = select_transport net s.client.url types s.registered s.world in
      done found (record s { registered = registered; world = w })

  unfoldable pub begin : ℕ → Go net (Unit {0})
  begin i s = done tt (record s {
    client = record s.client { transport = some i; state = connecting };
    registered = update_at (set_url s.client.url) i s.registered;
  })

  -- The loop that sends the handshake message until a reply comes.
  unfoldable pub until_greeted : ℕ → Go net Message
  until_greeted zero s = unfinished
  until_greeted (suc fuel) s = elim (send net (handshake_message s.client) s) [
    | done r s' ↦ elim r [
      | ok reply ↦ done reply.0 s'
      | err _ ↦ until_greeted fuel (record s' {
        client = record s'.client { state = unconnected };
        world = net.sleep 10 s'.world;
      })
    ]
    | panics p ↦ panics p
    | unfinished ↦ unfinished
  ]

  -- The transport is used before its error is looked at: a server that supports no usable transport
  -- makes a nil pointer of it, and the return of the error is never reached.
  unfoldable pub adopt : Option ℕ → Go net (Unit {0})
  adopt none s = panics nil_pointer
  adopt (some i) s = done tt (record s {
    client = record s.client { transport = some i };
    registered = update_at (set_timeout_seconds connection_timeout_seconds) i s.registered;
  })

  unfoldable pub renew_subscriptions : String → Go net (Unit {0})
  renew_subscriptions old_client_id s =
      if not (old_client_id == s.client.client_id) && ltb 0 (length s.client.subscriptions)
      then resubscribe_all net s
      else done tt s

  unfoldable pub greeted : Message → Go net (Unit {0})
  greeted response s =
      let old_client_id = s.client.client_id in
      (do
        update_client net (λ c. record c { client_id = response.client_id; state = connected })
        found ← select response.supported_connection_types
        adopt found
        renew_subscriptions old_client_id)
        s

  unfoldable pub handshake_with : ℕ → Option ℕ → Go net (Option String)
  handshake_with fuel none = pure (some "no usable transports available")
  handshake_with fuel (some i) = do
    begin i
    response ← until_greeted fuel
    greeted response
    pure none

  unfoldable pub handshake : ℕ → Go net (Option String)
  handshake fuel s =
      if is_disconnected s.client.state
      then done (some "GTFO: Server told us not to reconnect :(") s
      else (do wait_first; found ← select mandatory_connection_types; handshake_with fuel found) s

  unfoldable pub start_reading : Go net (Option String)
  start_reading = do
    t ← current_transport net
    (if connection_type t == websocket_type then spawn net read_poll_task else pure tt)
    pure none

  unfoldable pub after_connect : Option String → Go net (Option String)
  after_connect (some e) = pure (some (stack_error "connect" e))
  after_connect none = start_reading

  unfoldable pub after_handshake : Option String → Go net (Option String)
  after_handshake (some e) = pure (some (stack_error "handshake" e))
  after_handshake none = do e ← connect net; after_connect e

  unfoldable pub handshake_and_connect : ℕ → Go net (Option String)
  handshake_and_connect fuel = do e ← handshake fuel; after_handshake e
