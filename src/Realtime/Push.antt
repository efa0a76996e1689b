-- ===== src/Realtime/Push.antt =====
-- The subscription to GroupMe's push server: auth_ext.go and the connection part of real_time.go of
-- pkg/groupmerealtime.
pub mod Token
pub mod Secret
pub mod Retries
use matrix_groupme_bridge.Prelude.{
  ℕ, zero, suc, String, List, [], ◌∷◌, ◌++◌, Option, none, some, Bool, true, false, ◌||◌, ◌==◌, not,
  if◌then◌else◌, Outcome, Run, done, panics, unfinished, pure, ◌>>=◌, ◌>>◌, ◌⧺◌, replace_first,
}
use matrix_groupme_bridge.Prelude.Json.{Json, str, Fields, no_fields, get_field, set_field}
use matrix_groupme_bridge.Faye.Message.{Message, ext_of}
use matrix_groupme_bridge.Faye.Transport.{Net}
use matrix_groupme_bridge.Faye.Client.{
  FayeClient, Extension, Sys, Go, new_faye_client, add_extension, is_connected,
}
use matrix_groupme_bridge.Faye.Subscribe.{wait_subscribe}
use matrix_groupme_bridge.Faye.Handshake.{handshake_and_connect}

abbrev pub push_server : String
push_server = "push.groupme.com/faye"

abbrev pub subscribe_channel : String
subscribe_channel = "/meta/subscribe"

abbrev pub err_listener_not_started : String
err_listener_not_started = "GroupMe listener not started"

unfoldable pub is_text : String → Json → Bool
is_text s (str t) = t == s
is_text s _ = false

-- `AuthExt.Out`: subscriptions and pings carry the access token.
unfoldable pub auth_out : String → Message → Message
unfolding is_text ext_of
auth_out token msg =
    if msg.channel == subscribe_channel || is_text "ping" (get_field "type" msg.content)
    then (let (m, ext) = ext_of msg in
        record m { ext = some (set_field "access_token" (str token) ext) })
    else msg

unfoldable pub auth_ext : String → Extension
unfolding auth_out
auth_ext token = record { incoming = λ m. m; outgoing = auth_out token }

-- The client as an extension of itself only logs.
unfoldable pub log_ext : Extension
log_ext = record { incoming = λ m. m; outgoing = λ m. m }

-- `NewFayeClient` of pkg/groupmerealtime
unfoldable pub new_push_client : String → FayeClient
unfolding auth_ext log_ext add_extension new_faye_client
new_push_client auth_token = add_extension log_ext (
    add_extension (auth_ext auth_token) (
      new_faye_client push_server "/meta/handshake" "/meta/connect" subscribe_channel
        "/meta/unsubscribe"))

-- The channels of `SubscribeToUser`, `SubscribeToGroup` and `SubscribeToDM`.
unfoldable pub user_channel : String → String
user_channel id = "/user/" ⧺ id

unfoldable pub group_channel : String → String
group_channel id = "/group/" ⧺ id

unfoldable pub dm_channel : String → String
dm_channel id = "/direct_message/" ⧺ replace_first b'+' "_" id

module _ (net : Net) where
  -- `subscribeWithPrefix`, with the channel that it makes; `started` is whether `Setup` has run.
  unfoldable pub subscribe_with_prefix : ℕ → Bool → String → ℕ → Go net (Option String)
  subscribe_with_prefix fuel started channel c_new =
      if started
      then (do wait_subscribe net fuel channel c_new; pure none)
      else pure (some err_listener_not_started)

  -- The retries of `StayConnectedLoop`: whether one of them connected.
  unfoldable pub reconnect : ℕ → ℕ → Go net Bool
  reconnect fuel zero s = done false s
  reconnect fuel (suc retries) s = elim (handshake_and_connect net fuel s) [
    | done e s' ↦ elim e [
      | none ↦ done true s'
      | some _ ↦ reconnect fuel retries (record s' { world = net.sleep 5 s'.world })
    ]
    | panics p ↦ panics p
    | unfinished ↦ unfinished
  ]

  unfoldable pub pause : Sys net → Sys net
  pause s = record s { world = net.sleep 5 s.world }

  -- The end of a round: the loop waits where it goes on.
  unfoldable pub pause_if : Bool → Go net Bool
  pause_if again s = done again (if again then pause s else s)

  -- One round of `StayConnectedLoop`: whether the loop goes on.
  unfoldable pub stay_connected : ℕ → Go net Bool
  stay_connected fuel s =
      if is_connected s.client then pause_if true s else (reconnect fuel 3 >>= pause_if) s

  -- The rounds of the loop, a unit of fuel for each.
  unfoldable pub rounds : ℕ → ℕ → Go net (Unit {0})
  rounds fuel zero s = unfinished
  rounds fuel (suc n) s = elim (stay_connected fuel s) [
    | done again s' ↦ let rest = rounds fuel n s' in if again then rest else done tt s'
    | panics p ↦ panics p
    | unfinished ↦ unfinished
  ]

  -- `StayConnectedLoop`
  unfoldable pub stay_connected_loop : ℕ → ℕ → Go net (Unit {0})
  stay_connected_loop fuel n s = rounds fuel n (pause s)
