-- ===== src/Faye/Transport.antt =====
-- The two transports and their selection: pkg/faye/transport.go, http_transport.go and
-- websocket_transport.go. The network, the clock and the codecs of net/http, net/url, encoding/json
-- and github.com/coder/websocket are the parameter `Net`; time.Now and time.Sleep are in it too.
pub mod Selection
use matrix_groupme_bridge.Prelude.{
  ℕ, suc, ◌^◌, String, List, [], ◌∷◌, Option, none, some, Bool, true, false, ◌||◌, ◌&&◌, ◌==◌, eqb,
  not, if◌then◌else◌, Result, ok, err, Run, pure, panic, done, nil_pointer, not_implemented, ◌⧺◌,
  mul64, ◌>>=◌, get_elem?,
}
use mathlib.Core.Option
use matrix_groupme_bridge.Faye.Message.{Message}

pub record HttpReply : Type 0 where
  pub status_code : ℕ
  pub status : String
  pub body : Result String

-- A call that fails returns the text of its error.
pub record Net : Type 1 where
  pub World : Type 0
  pub Conn : Type 0
  pub url_parses : String → Bool
  pub marshal : Message → Result String
  pub decode_messages : String → Result (List Message)
  pub unix_now : World → ℕ × World
  pub sleep : ℕ → World → World
  pub post : String → String → World → Result HttpReply × World
  pub dial : String → World → Option Conn × World
  pub close_now : Conn → World → World
  pub write_json : ℕ → Conn → Message → World → Option String × World
  pub read_message : ℕ → Conn → World → Result String × World

abbrev pub long_polling : String
long_polling = "long-polling"

abbrev pub websocket_type : String
websocket_type = "websocket"

abbrev pub mandatory_connection_types : List String
mandatory_connection_types = long_polling ∷ []

pub record WebsocketTransport (Conn : Type 0) : Type 0 where
  pub url : String
  pub connection : Option Conn
  pub timeout_duration : ℕ

pub data Transport (Conn : Type 0) : Type 0 where
  http : String → Transport Conn
  websocket : WebsocketTransport Conn → Transport Conn

-- The transports that the init function of pkg/groupmerealtime/real_time.go registers.
unfoldable pub initial_transports : {Conn : Type 0} → List (Transport Conn)
initial_transports =
    websocket (record { url = ""; connection = none; timeout_duration = 0 }) ∷ http "" ∷ []

-- `slices.Contains`
unfoldable pub contains : List String → String → Bool
contains [] s = false
contains (t ∷ ts) s = t == s || contains ts s

unfoldable pub connection_type : {Conn : Type 0} → Transport Conn → String
connection_type (http url) = long_polling
connection_type (websocket wt) = websocket_type

unfoldable pub set_url : {Conn : Type 0} → String → Transport Conn → Transport Conn
set_url url (http _) = http ("https://" ⧺ url)
set_url url (websocket wt) = websocket (record wt { url = "ws://" ⧺ url })

-- The duration is an int64 of nanoseconds.
unfoldable pub set_timeout_seconds : {Conn : Type 0} → ℕ → Transport Conn → Transport Conn
set_timeout_seconds seconds (http url) = http url
set_timeout_seconds seconds (websocket wt) =
    websocket (record wt { timeout_duration = mul64 1000000000 seconds })

module _ (net : Net) where
  open net use {World, Conn}

  close_old : Option Conn → World → World
  close_old none w = w
  close_old (some c) w = net.close_now c w

  -- The dial's result: on an error the transport keeps its old, closed connection.
  dialled : WebsocketTransport Conn → Option Conn × World → Bool × Transport Conn × World
  dialled wt (none, w) = (false, websocket wt, w)
  dialled wt (some c, w) = (true, websocket (record wt { connection = some c }), w)

  unfoldable pub is_usable : String → Transport Conn → World → Bool × Transport Conn × World
  unfolding close_old dialled
  is_usable client_url (http url) w = (net.url_parses ("https://" ⧺ client_url), http url, w)
  is_usable client_url (websocket wt) w =
      dialled (record wt { url = "ws://" ⧺ client_url })
        (net.dial ("ws://" ⧺ client_url) (close_old wt.connection w))

  unfoldable pub close : Transport Conn → Run World (Unit {0})
  close (http url) w = done tt w
  close (websocket wt) w = elim wt.connection [
    | none ↦ panic nil_pointer w
    | some c ↦ done tt (net.close_now c w)
  ]

  -- What `HTTPTransport.send` makes of the reply to its request.
  http_reply : Result HttpReply → Result String
  http_reply (err e) = err e
  http_reply (ok reply) = if eqb reply.status_code 200 then reply.body else err reply.status

  http_send : String → Result String → Run World (Result String)
  unfolding http_reply
  http_send url (err e) w = done (err e) w
  http_send url (ok body) w = let (reply, w') = net.post url body w in done (http_reply reply) w'

  write : WebsocketTransport Conn → Message → Run World (Option String)
  write wt msg w = elim wt.connection [
    | none ↦ panic nil_pointer w
    | some c ↦ let (e, w') = net.write_json wt.timeout_duration c msg w in done e w'
  ]

  receive : WebsocketTransport Conn → Run World (Result String)
  receive wt w = elim wt.connection [
    | none ↦ panic nil_pointer w
    | some c ↦ let (r, w') = net.read_message wt.timeout_duration c w in done r w'
  ]

  read_unless : WebsocketTransport Conn → Option String → Run World (Result String)
  read_unless wt (some e) = pure (err e)
  read_unless wt none = receive wt

  -- `send`, `sendOnly` and `read`; a body is what the decoder is given.
  unfoldable pub transport_send : Transport Conn → Message → Run World (Result String)
  unfolding http_send write receive read_unless
  transport_send (http url) msg = http_send url (net.marshal msg)
  transport_send (websocket wt) msg = do e ← write wt msg; read_unless wt e

  unfoldable pub transport_send_only : Transport Conn → Message → Run World (Option String)
  unfolding write
  transport_send_only (http url) msg = panic not_implemented
  transport_send_only (websocket wt) msg = write wt msg

  unfoldable pub transport_read : Transport Conn → Run World (Result String)
  unfolding receive
  transport_read (http url) = panic not_implemented
  transport_read (websocket wt) = receive wt

  -- The loop of `selectTransport`: the index of the transport, or none for its error. `isUsable` may
  -- change the transport that it is asked of, whatever it answers.
  unfoldable pub select_transport :
      String
      → List String
      → List (Transport Conn)
      → World
      → Option ℕ × List (Transport Conn) × World
  unfolding is_usable contains connection_type
  select_transport client_url types [] w = (none, [], w)
  select_transport client_url types (t ∷ ts) w = elim (contains types (connection_type t)) [
    | false ↦
        let (found, ts', w') = select_transport client_url types ts w in
        (Option.map suc found, t ∷ ts', w')
    | true ↦
        let (usable, t', w') = is_usable client_url t w in
        elim usable [
          | true ↦ (some 0, t' ∷ ts, w')
          | false ↦
              let (found, ts', w'') = select_transport client_url types ts w' in
              (Option.map suc found, t' ∷ ts', w'')
        ]
  ]
