-- ===== src/Faye/Tasks.antt =====
-- The goroutines of the client, as a step relation: each step runs one task that has been started,
-- in any order, to its end, with its waits for the network and the clock; what one goroutine does
-- within a task of another is not covered.
pub mod Pointers
pub mod Goroutines
pub mod Calls
pub mod Safety
pub mod Recovery
pub mod Loose
pub mod Online
use matrix_groupme_bridge.Prelude.{
  ℕ, zero, suc, String, List, [], ◌∷◌, Option, none, some, Outcome, done, Run, ◌≡◌,
}
use matrix_groupme_bridge.Faye.Transport.{Net}
use matrix_groupme_bridge.Faye.Client.{
  Task, handle_advice_task, handle_messages_task, read_poll_task, ping_poll_task, ping_loop_task,
  resubscribe_task, deliver_task, Sys, Go, Extension, add_extension,
}
use matrix_groupme_bridge.Faye.Connect.{handle_advice, handle_messages, publish}
use matrix_groupme_bridge.Faye.Subscribe.{resubscribe, resubscribe_all, wait_subscribe}
use matrix_groupme_bridge.Faye.Handshake.{handshake_and_connect}
use matrix_groupme_bridge.Faye.Polling.{websocket_read_poll, websocket_ping_poll, ping_loop}
use matrix_groupme_bridge.Prelude.Json.{Fields}

-- The task at a position, and the tasks without it.
unfoldable pub take_task : ℕ → List Task → Option (Task × List Task)
take_task i [] = none
take_task zero (t ∷ ts) = some (t, ts)
take_task (suc i) (t ∷ ts) = elim (take_task i ts) [ none ↦ none | some (u, us) ↦ some (u, t ∷ us) ]

module _ (net : Net) where
  -- A delivery ends when the receiver takes the message: that is pkg/groupmerealtime's part.
  unfoldable pub run_task : ℕ → Task → Go net (Unit {0})
  run_task fuel (handle_advice_task advice) = handle_advice net advice
  run_task fuel (handle_messages_task messages) = handle_messages net messages
  run_task fuel read_poll_task = websocket_read_poll net
  run_task fuel (ping_poll_task i) = websocket_ping_poll net i
  run_task fuel (ping_loop_task i) = ping_loop net i
  run_task fuel (resubscribe_task i) = resubscribe net fuel i
  run_task fuel (deliver_task c m) = λ s. done tt s

  -- A step of a goroutine, or a call by the owner of the client.
  pub data Step (s : Sys net) : Sys net → Type 0 where
    task :
        {u : Sys net} (fuel i : ℕ) (t : Task) (rest : List Task)
        → take_task i s.spawned ≡ some (t, rest)
        → run_task fuel t (record s { spawned = rest }) ≡ done tt u
        → Step s u
    call_connect :
        {u : Sys net} (fuel : ℕ) (e : Option String)
        → handshake_and_connect net fuel s ≡ done e u
        → Step s u
    call_subscribe :
        {u : Sys net} (fuel : ℕ) (channel : String) (msg_chan : ℕ)
        → wait_subscribe net fuel channel msg_chan s ≡ done tt u
        → Step s u
    call_publish :
        {u : Sys net} (channel : String) (content : Fields) (e : Option String)
        → publish net channel content s ≡ done e u
        → Step s u
    call_resubscribe : {u : Sys net} → resubscribe_all net s ≡ done tt u → Step s u
    call_add_extension :
        (extn : Extension) → Step s (record s { client = add_extension extn s.client })

  pub data Reach (s : Sys net) : Sys net → Type 0 where
    here : Reach s s
    next : {t u : Sys net} → Reach s t → Step t u → Reach s u
