-- ===== src/Faye/Client.antt =====
-- The client's state, its environment, and sending: pkg/faye/faye.go and faye_client.go.
-- A `go` statement appends to `spawned`: Faye/Tasks runs what stands there, in any order.
-- Messages written to the log are not modelled.
pub mod Numbered
pub mod Stable
use matrix_groupme_bridge.Prelude.{
  ℕ, String, List, [], ◌∷◌, ◌++◌, Option, none, some, Bool, true, false, ◌&&◌, not, ◌==◌,
  if◌then◌else◌, Result, ok, err, Outcome, done, panics, unfinished, Run, pure, panic, gets, modify,
  ◌>>=◌, ◌>>◌, nil_pointer, ◌⧺◌, itoa64, add64, get_elem?,
}
use mathlib.Core.Option
use matrix_groupme_bridge.Faye.Message.{Message, Advice, has_error, decode_response}
use matrix_groupme_bridge.Faye.Transport.{
  Net, Transport, connection_type, transport_send, transport_send_only,
}

pub data State : Type 0 where
  unconnected connecting connected disconnected : State

-- The channel of a subscription is a number that stands for the Go channel.
pub record Subscription : Type 0 where
  pub channel : String
  pub msg_chan : ℕ
  pub polling : Bool
  pub stop_polling : Bool

-- An extension changes the message that it is shown.
pub record Extension : Type 0 where
  pub incoming : Message → Message
  pub outgoing : Message → Message

-- `subscriptions` and `transport` are pointers: positions in `subs` and `registered` of `Sys`.
pub record FayeClient : Type 0 where
  pub state : State
  pub url : String
  pub handshake_channel : String
  pub connect_channel : String
  pub subscribe_channel : String
  pub unsubscribe_channel : String
  pub subscriptions : List ℕ
  pub transport : Option ℕ
  pub client_id : String
  pub next_handshake : ℕ
  pub extns : List Extension
  pub message_id : ℕ

-- The goroutines that the client starts.
pub data Task : Type 0 where
  handle_advice_task : Advice → Task
  handle_messages_task : List Message → Task
  read_poll_task : Task
  ping_poll_task ping_loop_task resubscribe_task : ℕ → Task
  deliver_task : ℕ → Message → Task

unfoldable pub new_faye_client : String → String → String → String → String → FayeClient
new_faye_client url handshake_channel connect_channel subscribe_channel unsubscribe_channel =
    record {
      state = unconnected;
      url = url;
      handshake_channel = handshake_channel;
      connect_channel = connect_channel;
      subscribe_channel = subscribe_channel;
      unsubscribe_channel = unsubscribe_channel;
      subscriptions = [];
      transport = none;
      client_id = "";
      next_handshake = 0;
      extns = [];
      message_id = 1;
    }

unfoldable pub add_extension : Extension → FayeClient → FayeClient
add_extension extn c = record c { extns = c.extns ++ extn ∷ [] }

unfoldable pub is_connected : FayeClient → Bool
is_connected c = elim c.state [ connected ↦ true | _ ↦ false ]

-- `StackError`
unfoldable pub stack_error : String → String → String
stack_error callsite e = callsite ⧺ " error:\n\t" ⧺ e

-- `runExtensions`, by direction
unfoldable pub run_outgoing : List Extension → Message → Message
run_outgoing [] msg = msg
run_outgoing (x ∷ xs) msg = run_outgoing xs (x.outgoing msg)

unfoldable pub run_incoming : List Extension → Message → Message
run_incoming [] msg = msg
run_incoming (x ∷ xs) msg = run_incoming xs (x.incoming msg)

-- The message that `setupSend` hands to the extensions.
unfoldable pub addressed : FayeClient → Message → Message
addressed c msg =
    let with_client =
      if msg.client_id == "" && not (msg.channel == c.handshake_channel) && not (c.client_id == "")
      then record msg { client_id = c.client_id }
      else msg in
    record with_client { id = itoa64 c.message_id }

unfoldable pub prepared : FayeClient → Message → Message
unfolding addressed run_outgoing
prepared c msg = run_outgoing c.extns (addressed c msg)

pub record Sys (net : Net) : Type 0 where
  pub client : FayeClient
  pub registered : List (Transport net.Conn)
  pub subs : List Subscription
  pub spawned : List Task
  pub world : net.World

module _ (net : Net) where
  abbrev pub Go : Type 0 → Type 0
  Go A = Run (Sys net) A

  abbrev pub update_client : (FayeClient → FayeClient) → Go (Unit {0})
  update_client f = modify λ s. record s { client = f s.client }

  abbrev pub spawn : Task → Go (Unit {0})
  spawn t = modify λ s. record s { spawned = s.spawned ++ t ∷ [] }

  -- `faye.transport`: a nil pointer has no method.
  unfoldable pub current_transport : Go (Transport net.Conn)
  current_transport s = elim s.client.transport [
    | none ↦ panics nil_pointer
    | some i ↦ elim (get_elem? s.registered i) [ none ↦ panics nil_pointer | some t ↦ done t s ]
  ]

  abbrev pub resumed : {A : Type 0} → Sys net → Outcome net.World A → Outcome (Sys net) A
  resumed s (done a w) = done a (record s { world = w })
  resumed s (panics p) = panics p
  resumed s unfinished = unfinished

  unfoldable pub on_world : {A : Type 0} → Run net.World A → Go A
  on_world m s = resumed s (m s.world)

  -- An error set by an extension is the error that is returned.
  unfoldable pub setup_send : Message → Go (Result Message)
  unfolding prepared
  setup_send msg s =
      let sent = prepared s.client msg in
      done (if has_error sent then err sent.error else ok sent)
        (record s { client = record s.client { message_id = add64 s.client.message_id 1 } })

  -- The response is the first message of the reply, and the same object.
  unfoldable pub shown : Result (Message × List Message) → Go (Result (Message × List Message))
  shown (err e) s = done (err e) s
  shown (ok (response, [])) s = done (ok (response, [])) s
  shown (ok (response, _ ∷ rest)) s =
      let seen = run_incoming s.client.extns response in done (ok (seen, seen ∷ rest)) s

  unfoldable pub received : Result String → Go (Result (Message × List Message))
  received (err e) = pure (err (stack_error "transport.send" e))
  received (ok body) = decode_response (net.decode_messages body) >>= shown

  unfoldable pub send_prepared : Result Message → Go (Result (Message × List Message))
  send_prepared (err e) = pure (err e)
  send_prepared (ok msg) = do
    t ← current_transport
    body ← on_world (transport_send net t msg)
    received body

  unfoldable pub send : Message → Go (Result (Message × List Message))
  send msg = do m ← setup_send msg; send_prepared m

  unfoldable pub send_only_prepared : Result Message → Go (Option String)
  send_only_prepared (err e) = pure (some (stack_error "setupSend" e))
  send_only_prepared (ok msg) = do
    t ← current_transport
    e ← on_world (transport_send_only net t msg)
    pure (Option.map (stack_error "transport.sendOnly") e)

  unfoldable pub send_only : Message → Go (Option String)
  send_only msg = do m ← setup_send msg; send_only_prepared m
