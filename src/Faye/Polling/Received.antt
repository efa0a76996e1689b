-- ===== src/Faye/Polling/Received.antt =====
-- From the text that the websocket brings to the goroutines that it starts.
use matrix_groupme_bridge.Prelude.{
  ◌≡◌, refl, ap, ◌∙◌, String, List, [], ◌∷◌, ◌++◌, map, none, some, Result, ok, All, done,
}
use matrix_groupme_bridge.Prelude.Json.{Json, arr}
use matrix_groupme_bridge.Prelude.Json.Columns.{write_items}
use matrix_groupme_bridge.Faye.Message.{Message, decode_response}
use matrix_groupme_bridge.Faye.Message.Wire.{Floats, message_json, read_messages}
use matrix_groupme_bridge.Faye.Message.Wire.RoundTrip.{
  as_written, Prints, read_messages-message_json,
}
use matrix_groupme_bridge.Faye.Transport.{Net, Transport, transport_read}
use matrix_groupme_bridge.Faye.Client.{
  Subscription, Sys, handle_advice_task, deliver_task, run_incoming, current_transport, on_world,
}
use matrix_groupme_bridge.Faye.Connect.Delivery.{target, handle_messages_first}
use matrix_groupme_bridge.Faye.Polling.{read_reply, read_body, websocket_read}

-- The net's decoder takes a text to the messages of the JSON array that it is parsed as, none of
-- which is null.
unfoldable pub Decodes : Floats → (String → Result Json) → Net → Type 0
Decodes floats parse net =
    (text : String) (j : Json) (ms : List Message)
    → parse text ≡ ok j
    → read_messages floats j ≡ ok (map some ms)
    → net.decode_messages text ≡ ok ms

abbrev pub first_of : List Message → Message → Message
first_of [] m = m
first_of (first ∷ _) m = first

map-some : (ms : List Message) → map (λ m. some (as_written m)) ms ≡ map some (map as_written ms)
map-some [] = refl
map-some (m ∷ ms) = ap (λ xs. some (as_written m) ∷ xs) (map-some ms)

module _ (net : Net) where
  -- The goroutines that a batch starts: one for the advice of its first message, and one that sends the
  -- message to the subscription's channel.
  abbrev pub started : Sys net → List Message → Message → Subscription → Sys net
  started s before m sub = record s {
    spawned =
        (s.spawned ++ handle_advice_task (first_of before m).advice ∷ [])
        ++ deliver_task sub.msg_chan (run_incoming s.client.extns m) ∷ [];
  }

  read_body-batch :
      (text : String) (before : List Message) (m : Message) (after : List Message)
      (sub : Subscription) (s : Sys net)
      → net.decode_messages text ≡ ok (before ++ m ∷ after)
      → All (λ m'. target net s m' ≡ none) before
      → target net s m ≡ some sub
      → read_body net (ok text) s ≡ done none (started s before m sub)
  unfolding read_body read_reply decode_response
  read_body-batch text [] m after sub s decoded others found = rw decoded (
      rw
        (handle_messages_first net
          (record s { spawned = s.spawned ++ handle_advice_task m.advice ∷ [] }) [] m after sub tt
          found)
        refl)
  read_body-batch text (first ∷ before) m after sub s decoded others found = rw decoded (
      rw
        (handle_messages_first net
          (record s { spawned = s.spawned ++ handle_advice_task first.advice ∷ [] })
          (first ∷ before) m after sub others found)
        refl)

  -- The websocket brings a text that is parsed as the array of what MarshalJSON makes of messages, of which
  -- the times of the advice are printed so that they are parsed again. Where m is the first of the messages
  -- as they are read that a subscription matches, websocketRead returns no error and starts just two
  -- goroutines: one that handles the advice of the first message, and one that sends m, as the extensions
  -- leave it, to the channel of the first such subscription.
  pub websocket_read-message_json :
      (floats : Floats) (parse : String → Result Json) (transport : Transport net.Conn)
      (s s' : Sys net) (text : String) (ms before : List Message) (m : Message)
      (after : List Message) (sub : Subscription)
      → Decodes floats parse net
      → All (λ m. Prints floats m.advice.interval × Prints floats m.advice.timeout) ms
      → current_transport net s ≡ done transport s
      → on_world net (transport_read net transport) s ≡ done (ok text) s'
      → parse text ≡ ok (arr (write_items (message_json floats) ms))
      → map as_written ms ≡ before ++ m ∷ after
      → All (λ m'. target net s' m' ≡ none) before
      → target net s' m ≡ some sub
      → websocket_read net s ≡ done none (started s' before m sub)
  unfolding websocket_read Decodes
  websocket_read-message_json floats parse transport s s' text ms before m after sub decodes times
        at_ reads parses batch others found =
      let decoded : net.decode_messages text ≡ ok (map as_written ms) =
        decodes text _ _ parses
          (read_messages-message_json floats ms times ∙ ap ok (map-some ms)) in
      rw at_
        (rw reads (read_body-batch text before m after sub s' (decoded ∙ ap ok batch) others found))
