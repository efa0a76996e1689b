-- ===== src/Faye/Tasks/Safety.antt =====
-- No pointer dangles in any state that the client reaches.
use matrix_groupme_bridge.Prelude.{
  ℕ, zero, suc, ◌≤◌, ◌≡◌, String, List, [], ◌∷◌, ◌++◌, Option, none, some, All, All-append, arith,
  length, length-append, get_elem?, Ends-at, Ends-mono, Ends-continue, Keeps, Keeps-bind,
  Option-cases, inl, inr,
}
use mathlib.Core.Path.{subst}
use matrix_groupme_bridge.Faye.Transport.{Net}
use matrix_groupme_bridge.Faye.Client.{
  add_extension, Task, Subscription, Sys, read_poll_task, ping_poll_task,
}
use matrix_groupme_bridge.Faye.Connect.Stable.{publish-Keeps}
use matrix_groupme_bridge.Faye.Subscribe.{until_subscribed, append_subscription, wait_subscribe}
use matrix_groupme_bridge.Faye.Subscribe.Stable.{until_subscribed-Keeps}
use matrix_groupme_bridge.Faye.Handshake.{handshake_and_connect}
use matrix_groupme_bridge.Faye.Tasks.{
  take_task, run_task, Step, task, call_connect, call_subscribe, call_publish, call_resubscribe,
  call_add_extension, Reach, here, next,
}
use matrix_groupme_bridge.Faye.Tasks.Pointers.{
  TaskIsValid, IsValid, IsValid-spawn, IsValid-stable, ValidAt, ValidAt-stable, All-below,
  tasks_mono,
}
use matrix_groupme_bridge.Faye.Tasks.Goroutines.{run_task-IsValid}
use matrix_groupme_bridge.Faye.Handshake.Stable.{after_handshake-Keeps}
use matrix_groupme_bridge.Faye.Tasks.Calls.{handshake-IsValid, resubscribe_all-IsValid}

abbrev Parts : ℕ → Option (Task × List Task) → Type 0
Parts n none = Unit
Parts n (some (t, rest)) = TaskIsValid n t × All (TaskIsValid n) rest

-- Taking a task from a list of valid ones.
take_task-Parts : (n i : ℕ) (ts : List Task) → All (TaskIsValid n) ts → Parts n (take_task i ts)
unfolding take_task
take_task-Parts n i [] h = tt
take_task-Parts n zero (u ∷ us) h = h
take_task-Parts n (suc i) (u ∷ us) (v, h) = elim (Option-cases (take_task i us)) [
  | inl e ↦ rw (e, take_task) tt
  | inr (p, e) ↦
      rw (e, take_task) (let (w, ws) = subst (Parts n) e (take_task-Parts n i us h) in (w, (v, ws)))
]

module _ (net : Net) where
  abbrev Valid : Sys net → Type 0
  Valid s = IsValid s

  handshake_and_connect-IsValid : (fuel : ℕ) → Keeps Valid (handshake_and_connect net fuel)
  unfolding handshake_and_connect
  handshake_and_connect-IsValid fuel = Keeps-bind _ _ (handshake-IsValid net fuel) (
      after_handshake-Keeps net Valid (IsValid-stable net)
        (λ s h. IsValid-spawn h read_poll_task tt))

  appended :
      (i : ℕ) (u : Sys net)
      → ValidAt net i u
      → IsValid (record u {
        client = record u.client { subscriptions = u.client.subscriptions ++ i ∷ [] };
      })
  appended i u (v, lt) = record {
    transport = v.transport;
    subscriptions = All-append _ u.client.subscriptions (i ∷ []) v.subscriptions (lt, tt);
    tasks = v.tasks;
  }

  ping_task :
      (i : ℕ) (s : Sys net) (sub : Subscription)
      → get_elem? s.subs i ≡ some sub
      → ValidAt net i s
      → ValidAt net i (record s { spawned = s.spawned ++ ping_poll_task i ∷ [] })
  ping_task i s sub e h = (IsValid-spawn h.0 (ping_poll_task i) h.1, h.1)

  -- The new subscription is the last object of the store.
  allocated :
      (s : Sys net) (sub : Subscription)
      → IsValid s
      → ValidAt net (length s.subs) (record s { subs = s.subs ++ sub ∷ [] })
  allocated s sub h =
      let more : length s.subs ≤ length (s.subs ++ sub ∷ []) =
        omega (arith, length-append s.subs (sub ∷ [])) in
      (
        record {
          transport = h.transport;
          subscriptions = All-below _ _ s.client.subscriptions more h.subscriptions;
          tasks = tasks_mono _ _ s.spawned more h.tasks;
        },
        omega (arith, length-append s.subs (sub ∷ [])),
      )

  wait_subscribe-IsValid :
      (fuel : ℕ) (channel : String) (msg_chan : ℕ)
      → Keeps Valid (wait_subscribe net fuel channel msg_chan)
  unfolding wait_subscribe append_subscription
  wait_subscribe-IsValid fuel channel msg_chan = record {
    at = λ s h.
        let i = length s.subs in
        Ends-continue _ (until_subscribed net fuel i _) _ (
          Ends-mono _ _ (until_subscribed net fuel i _) (λ _ u v. appended i u v)
            ((until_subscribed-Keeps net (ValidAt net i) (ValidAt-stable net i) i (ping_task i)
                fuel).at
              _ (allocated s _ h)));
  }

  -- A step of a goroutine or of the owner keeps the pointers valid.
  pub Step-IsValid : {s u : Sys net} → Step net s u → IsValid s → IsValid u
  unfolding add_extension
  Step-IsValid {s} (task fuel i t rest found ran) h =
      let (v, vs) = subst (Parts (length s.subs)) found (take_task-Parts _ i s.spawned h.tasks) in
      Ends-at _ (run_task net fuel t (record s { spawned = rest }))
        (run_task-IsValid net fuel t (record s { spawned = rest }) v
          (record { transport = h.transport; subscriptions = h.subscriptions; tasks = vs }))
        ran
  Step-IsValid {s} (call_connect fuel e ran) h =
      Ends-at _ (handshake_and_connect net fuel s) ((handshake_and_connect-IsValid fuel).at s h) ran
  Step-IsValid {s} (call_subscribe fuel channel c ran) h =
      Ends-at _ (wait_subscribe net fuel channel c s)
        ((wait_subscribe-IsValid fuel channel c).at s h) ran
  Step-IsValid {s} (call_publish channel content e ran) h =
      Ends-at _ _ ((publish-Keeps net Valid (IsValid-stable net) channel content).at s h) ran
  Step-IsValid {s} (call_resubscribe ran) h = Ends-at _ _ ((resubscribe_all-IsValid net).at s h) ran
  Step-IsValid {s} (call_add_extension extn) h = record {
    transport = h.transport;
    subscriptions = h.subscriptions;
    tasks = h.tasks;
  }

  -- From a state where no pointer dangles, whatever the goroutines do in whatever order and whatever
  -- the owner calls, none dangles: the transport of the client is registered, and the subscriptions
  -- in its list and those that goroutines work on exist.
  pub Reach-IsValid : {s u : Sys net} → Reach net s u → IsValid s → IsValid u
  Reach-IsValid here h = h
  Reach-IsValid (next r st) h = Step-IsValid st (Reach-IsValid r h)
