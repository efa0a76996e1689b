-- ===== src/Lib.antt =====
-- A verification library for the Matrix bridge to GroupMe. The bridge is a Go program of five parts:
-- a client of the Faye (Bayeux) protocol, by which GroupMe pushes messages; the interpretation of those
-- messages; a client of the GroupMe web API; the download and conversion of media; and the connector,
-- which turns GroupMe's messages into events of the bridge framework and answers that framework's calls.
--
-- How the parts are modelled:
--   Faye         pkg/faye: messages (response.go) and their lines in the log, the two transports and their
--                selection (transport.go, http_transport.go, websocket_transport.go), the client (faye.go,
--                faye_client.go). The state is `Sys`: the client, the registered transports and the subscriptions as stores of
--                objects, with positions for pointers, the goroutines that wait to run, and the world. A
--                method is a function of that state into an `Outcome`: a value with the new state, a panic,
--                or fuel that ran out. A `go` statement appends to the goroutines; Faye/Tasks is the step
--                relation that runs them in any order among the owner's calls. The net, the clock and the
--                codecs are the parameter `Net`. Faye/Message/Wire is the JSON of a message: what MarshalJSON
--                prints, decodeResponse and Decode parse.
--   Realtime     pkg/groupmerealtime: the calls of the handlers (real_time_handlers.go), the loop that makes
--                them, the push client with the token's extension (auth_ext.go), its set-up, subscription
--                and reconnection (real_time.go). What decoding gives is a `Codec`: Realtime/Decoded is
--                the one of the handlers' structs, over the parameter `reprint`: what json.Marshal prints of
--                the float64 that a number's literal was parsed as. Realtime/Setup
--                joins the subscription's state with that of its Faye client.
--   Groupme      pkg/groupmeclient: the data (json.go, data_types.go), the HTTP client (client.go) and the
--                calls of the API (the files named after them). net/http and the decoders are the
--                parameter `Http`. Groupme/Wire has the JSON of the data and of the bodies of requests, and
--                Groupme/Wire/Responses what client.go makes of the JSON of a response: `json_http` fills
--                the decoders in. Groupme/Wire/Printing is the String methods that print JSON.
--   Media        pkg/util/media.go, over the parameter `Web`.
--   Connector    pkg/connector: portal identifiers, conversion of messages and event handlers (handler.go),
--                and the framework's calls (client.go). A queued event is appended to a list.
--                Connector/Dispatch runs the real-time loop with these handlers: a listener has the
--                subscription and the bridge, and the log of Dispatch/Log is what the two together promise.
--                Dispatch/Lines is that loop from the JSON of the messages on.
--                Connector/Connect is `Connect`: a session has the client, the subscription with its
--                Faye client, and the states that were sent. Connector/Login is the login process of
--                login.go and `LoadUserLogin` of connector.go, over the parameter `Framework`.
--   Prelude      helpers: Boolean tests, lists, outcomes, texts, 64-bit words, JSON values and
--                filepath.Match. Prelude/Json is what encoding/json does by the tags of a struct: a
--                `Column` is a field with its tag, `write_all` makes the object of a struct, and `fill`
--                reads an object into one, by tags whose case is not looked at.
--
-- Numbers: an int64 is its pattern below 2^64, with the wrap-around of each operation written out.
--
-- Fuel: the loops that wait for the server (the handshake, the subscription, the pages of relations) take
-- fuel, a unit for each round. Fuel for as many rounds as the server asks for is enough, since each
-- round uses one unit. A goroutine that never ends is a task that starts itself again,
-- so it takes none.
--
-- Not modelled: log output but for the lines of the client's messages; the mutexes, and what
-- goroutines do to each other within a task, such as two of them in setupSend at once, for a step of
-- the relation runs a task to its end; the text of a JSON value; a null in an array of Faye messages,
-- which the code takes for a nil message; the part of an advice's times that is no whole number of
-- milliseconds, and times below zero; negative numbers in queries; the empty records for the
-- framework; the entry points; time values but for the one that RFC3339 prints.
pub mod Prelude
pub mod Faye
pub mod Groupme
pub mod Realtime
pub mod Media
pub mod Connector
