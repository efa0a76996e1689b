-- ===== src/Faye/Logging.antt =====
-- `Out` and `In` of pkg/faye/faye_client.go: the client as an extension of itself, which writes each
-- message to the log.
use Prim.Native.Char.{code}
use matrix_groupme_bridge.Prelude.{String, Bool, true, false, eqb, ◌==◌, if◌then◌else◌, ◌⧺◌}
use matrix_groupme_bridge.Prelude.Json.{Json, null, str, get_field}
use matrix_groupme_bridge.Faye.Message.{Message}

-- `strings.HasPrefix`
unfoldable pub has_prefix : String → String → Bool
has_prefix String.[] s = true
has_prefix (String.◌∷◌ c p) String.[] = false
has_prefix (String.◌∷◌ c p) (String.◌∷◌ d s) =
    let rest = has_prefix p s in if eqb (code c) (code d) then rest else false

-- What the standard library writes: the first four runes of a client identifier, which a slice takes
-- as far as its capacity goes; the JSON text of a message; and a value of JSON under %s.
pub record Printer : Type 0 where
  pub first_four : String → String
  pub marshal : Message → String
  pub show : Json → String

unfoldable pub parenthesised : String → String
parenthesised s = " (" ⧺ s ⧺ ")"

unfoldable pub bracketed : String → String
bracketed s = "[" ⧺ s ⧺ "] "

module _ (printer : Printer) where
  -- A message without a type.
  unfoldable pub untyped_line : Message → String
  unfolding has_prefix parenthesised bracketed
  untyped_line m =
      if has_prefix "/user/" m.channel
      then bracketed (printer.first_four m.client_id) ⧺ m.channel ⧺ parenthesised m.id
      else printer.marshal m

  unfoldable pub out_typed : Json → Message → String
  unfolding untyped_line
  out_typed null m = untyped_line m
  out_typed type m =
      bracketed (printer.first_four m.client_id)
      ⧺ m.channel
      ⧺ " - "
      ⧺ printer.show type
      ⧺ parenthesised m.id

  -- The line of `Out`.
  unfoldable pub out_line : Message → String
  unfolding out_typed
  out_line m =
      "→ "
      ⧺ (if m.channel == "/meta/handshake"
          then "Handshake" ⧺ parenthesised m.id
          else if m.channel == "/meta/connect"
          then bracketed (printer.first_four m.client_id) ⧺ "Connect" ⧺ parenthesised m.id
          else if m.channel == "/meta/subscribe"
          then bracketed (printer.first_four m.client_id)
            ⧺ m.subscription
            ⧺ " Subscribe"
            ⧺ parenthesised m.id
          else out_typed (get_field "type" m.content) m)

  unfoldable pub is_ping : Json → Bool
  is_ping (str s) = s == "ping"
  is_ping _ = false

  unfoldable pub in_typed : Json → Message → String
  unfolding untyped_line is_ping
  in_typed null m = untyped_line m
  in_typed type m =
      bracketed (printer.first_four m.client_id)
      ⧺ m.channel
      ⧺ " - "
      ⧺ (if is_ping type then "ping" ⧺ parenthesised m.id else printer.marshal m)

  -- The line of `In`.
  unfoldable pub in_line : Message → String
  unfolding in_typed
  in_line m =
      "← "
      ⧺ (if m.channel == "/meta/handshake"
          then bracketed (printer.first_four m.client_id) ⧺ "Handshake" ⧺ parenthesised m.id
          else if m.channel == "/meta/connect"
          then bracketed (printer.first_four m.client_id) ⧺ "Connect" ⧺ parenthesised m.id
          else if m.channel == "/meta/subscribe"
          then bracketed (printer.first_four m.client_id)
            ⧺ "Subscribe - "
            ⧺ m.subscription
            ⧺ parenthesised m.id
          else in_typed (get_field "type" m.content) m)
