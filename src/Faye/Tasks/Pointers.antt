-- ===== src/Faye/Tasks/Pointers.antt =====
-- No pointer of the client dangles: the invariant, and its rules for the parts of the operations.
use matrix_groupme_bridge.Prelude.{
  ℕ, ◌<◌, ◌≤◌, ◌≡◌, refl, ◌∙◌, List, [], ◌∷◌, ◌++◌, Option, none, some, Bool, true, All, All-append,
  arith, length, length-set, get_elem?, map, Option-cases, inl, inr,
}
use matrix_groupme_bridge.Faye.Transport.{Net}
use matrix_groupme_bridge.Faye.Client.{
  Task, handle_advice_task, handle_messages_task, ping_poll_task, ping_loop_task, resubscribe_task,
  deliver_task, Sys, Subscription,
}
use matrix_groupme_bridge.Faye.Client.Stable.{Stable}
use matrix_groupme_bridge.Faye.Subscribe.{set_stop_polling, set_polling}
use matrix_groupme_bridge.Faye.Polling.{stop_all}

-- The subscription that a goroutine works on exists.
abbrev pub TaskIsValid : ℕ → Task → Type 0
TaskIsValid n (ping_poll_task i) = i < n
TaskIsValid n (ping_loop_task i) = i < n
TaskIsValid n (resubscribe_task i) = i < n
TaskIsValid n _ = Unit

abbrev pub PointsBelow : ℕ → Option ℕ → Type 0
PointsBelow n none = Unit
PointsBelow n (some i) = i < n

-- The transport, the subscriptions of the client and those of the goroutines are among the objects
-- that exist.
pub record IsValid {net : Net} (s : Sys net) : Type 0 where
  pub transport : PointsBelow (length s.registered) s.client.transport
  pub subscriptions : All (λ i. i < length s.subs) s.client.subscriptions
  pub tasks : All (TaskIsValid (length s.subs)) s.spawned

pub length-set_stop_polling :
    (b : Bool) (i : ℕ) (subs : List Subscription) → length (set_stop_polling b i subs) ≡ length subs
unfolding set_stop_polling
length-set_stop_polling b i subs = elim (Option-cases (get_elem? subs i)) [
  | inl e ↦ rw (e, set_stop_polling)
  | inr (sub, e) ↦ rw (e, set_stop_polling) (length-set subs i _)
]

pub length-set_polling :
    (b : Bool) (i : ℕ) (subs : List Subscription) → length (set_polling b i subs) ≡ length subs
unfolding set_polling
length-set_polling b i subs = elim (Option-cases (get_elem? subs i)) [
  | inl e ↦ rw (e, set_polling)
  | inr (sub, e) ↦ rw (e, set_polling) (length-set subs i _)
]

pub length-stop_all :
    (is : List ℕ) (subs : List Subscription) → length (stop_all is subs) ≡ length subs
unfolding stop_all
length-stop_all [] subs = refl
length-stop_all (i ∷ is) subs =
    length-stop_all is (set_stop_polling true i subs) ∙ length-set_stop_polling true i subs

pub All-below : (m n : ℕ) (is : List ℕ) → m ≤ n → All (λ i. i < m) is → All (λ i. i < n) is
All-below m n [] h a = tt
All-below m n (i ∷ is) h (lt, a) = (omega arith, All-below m n is h a)

TaskIsValid-mono : (m n : ℕ) (t : Task) → m ≤ n → TaskIsValid m t → TaskIsValid n t
TaskIsValid-mono m n (ping_poll_task i) h a = omega arith
TaskIsValid-mono m n (ping_loop_task i) h a = omega arith
TaskIsValid-mono m n (resubscribe_task i) h a = omega arith
TaskIsValid-mono m n _ h a = tt

pub tasks_mono :
    (m n : ℕ) (ts : List Task) → m ≤ n → All (TaskIsValid m) ts → All (TaskIsValid n) ts
tasks_mono m n [] h a = tt
tasks_mono m n (t ∷ ts) h (v, a) = (TaskIsValid-mono m n t h v, tasks_mono m n ts h a)

pub resubscribe_tasks :
    (n : ℕ) (is : List ℕ) → All (λ i. i < n) is → All (TaskIsValid n) (map resubscribe_task is)
resubscribe_tasks n [] a = tt
resubscribe_tasks n (i ∷ is) (lt, a) = (lt, resubscribe_tasks n is a)

module _ {net : Net} {s : Sys net} (h : IsValid s) where
  -- Another list of as many subscriptions.
  pub IsValid-subs :
      (subs : List Subscription) → length subs ≡ length s.subs → IsValid (record s { subs = subs })
  IsValid-subs subs e = record {
    transport = h.transport;
    subscriptions = rw e h.subscriptions;
    tasks = rw e h.tasks;
  }

  pub IsValid-spawn :
      (t : Task)
      → TaskIsValid (length s.subs) t
      → IsValid (record s { spawned = s.spawned ++ t ∷ [] })
  IsValid-spawn t v = record {
    transport = h.transport;
    subscriptions = h.subscriptions;
    tasks = All-append _ s.spawned (t ∷ []) h.tasks (v, tt);
  }

-- Valid, with a subscription at hand.
abbrev pub ValidAt : (net : Net) → ℕ → Sys net → Type 0
ValidAt net i s = IsValid s × (i < length s.subs)

module _ (net : Net) where
  pub IsValid-stable : Stable net (IsValid {net = net})
  IsValid-stable = record {
    counted = λ s msg h. record {
      transport = h.transport;
      subscriptions = h.subscriptions;
      tasks = h.tasks;
    };
    elsewhere = λ s w h. record {
      transport = h.transport;
      subscriptions = h.subscriptions;
      tasks = h.tasks;
    };
    advised = λ s a h. IsValid-spawn h (handle_advice_task a) tt;
    handed = λ s ms h. IsValid-spawn h (handle_messages_task ms) tt;
    delivered = λ s c m h. IsValid-spawn h (deliver_task c m) tt;
  }

  pub ValidAt-stable : (i : ℕ) → Stable net (ValidAt net i)
  ValidAt-stable i = record {
    counted = λ s msg h. (IsValid-stable.counted s msg h.0, h.1);
    elsewhere = λ s w h. (IsValid-stable.elsewhere s w h.0, h.1);
    advised = λ s a h. (IsValid-stable.advised s a h.0, h.1);
    handed = λ s ms h. (IsValid-stable.handed s ms h.0, h.1);
    delivered = λ s c m h. (IsValid-stable.delivered s c m h.0, h.1);
  }
