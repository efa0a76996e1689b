-- ===== src/Faye/Tasks/Recovery.antt =====
-- The goroutines of `ResubscribeAll` can bring every subscription back into the client's list.
use matrix_groupme_bridge.Prelude.{
  ℕ, suc, ◌≡◌, refl, sym, ap, ◌∙◌, List, [], ◌∷◌, ◌++◌, some, done, map, length, All, Ends-at,
  arith,
}
use mathlib.Core.List.{append_assoc, append-nil}
use matrix_groupme_bridge.Faye.Transport.{Net}
use matrix_groupme_bridge.Faye.Client.{
  Task, handle_advice_task, handle_messages_task, ping_poll_task, deliver_task, resubscribe_task,
  Sys,
}
use matrix_groupme_bridge.Faye.Client.Stable.{Stable}
use matrix_groupme_bridge.Faye.Subscribe.{resubscribe_all, until_subscribed}
use matrix_groupme_bridge.Faye.Subscribe.All.{resubscribe_all_lem}
use matrix_groupme_bridge.Faye.Subscribe.Waiting.{Fails, until_subscribed_iff, resubscribe_appends}
use matrix_groupme_bridge.Faye.Subscribe.Stable.{until_subscribed-Keeps}
use matrix_groupme_bridge.Faye.Tasks.{take_task, run_task, Step, Reach}

take_task-append :
    (before : List Task) (t : Task) (after : List Task)
    → take_task (length before) (before ++ t ∷ after) ≡ some (t, before ++ after)
unfolding take_task
take_task-append [] t after = refl
take_task-append (b ∷ before) t after = rw (take_task-append before t after) refl

Reach-trans : (net : Net) {s t u : Sys net} → Reach net s t → Reach net t u → Reach net s u
Reach-trans net r Reach.here = r
Reach-trans net r (Reach.next q step) = Reach.next (Reach-trans net r q) step

-- A condition on the connection: it does not look at the counter of messages, the world, the goroutines or
-- the client's list.
pub record Undisturbed (net : Net) (P : Sys net → Type 0) : Type 0 where
  pub stable : Stable net P
  pub respawned : (s : Sys net) (ts : List Task) → P s → P (record s { spawned = ts })
  pub relisted :
      (s : Sys net) (is : List ℕ)
      → P s
      → P (record s { client = record s.client { subscriptions = is } })

module _ (net : Net) (P : Sys net → Type 0) where
  -- Under the condition, requests for the subscription succeed after some failures.
  unfoldable pub IsGranted : ℕ → Type 0
  IsGranted i = (s : Sys net) → P s → (k : ℕ) × (u : Sys net) × Fails net i k s u

  module _ (undisturbed : Undisturbed net P) where
    -- The goroutines begin with these, and the list is this one.
    abbrev Holds : List Task → List ℕ → Sys net → Type 0
    Holds ts is s =
        P s × ((others : List Task) × (s.spawned ≡ ts ++ others)) × (s.client.subscriptions ≡ is)

    grown :
        (ts : List Task) (is : List ℕ) (s : Sys net) (t : Task)
        → Holds ts is s
        → Holds ts is (record s { spawned = s.spawned ++ t ∷ [] })
    grown ts is s t (p, (others, e), l) =
        (undisturbed.respawned s _ p, (others ++ t ∷ [], rw e (append_assoc ts others (t ∷ []))), l)

    Holds-stable : (ts : List Task) (is : List ℕ) → Stable net (Holds ts is)
    Holds-stable ts is = record {
      counted = λ s msg h. (undisturbed.stable.counted s msg h.0, h.1, h.2);
      elsewhere = λ s w h. (undisturbed.stable.elsewhere s w h.0, h.1, h.2);
      advised = λ s a. grown ts is s (handle_advice_task a);
      handed = λ s ms. grown ts is s (handle_messages_task ms);
      delivered = λ s c m. grown ts is s (deliver_task c m);
    }

    resubscribe_one :
        (i : ℕ) (before after : List Task) (is : List ℕ) (s : Sys net)
        → IsGranted i
        → Holds (before ++ resubscribe_task i ∷ after) is s
        → (u : Sys net) × Reach net s u × Holds (before ++ after) (is ++ i ∷ []) u
    unfolding IsGranted run_task
    resubscribe_one i before after is s granted (p, (others, e), l) =
        let s1 = record s { spawned = before ++ (after ++ others) } in
        let p1 = undisturbed.respawned s (before ++ (after ++ others)) p in
        let (k, u, f) = granted s1 p1 in
        let kept =
          Ends-at (λ _ v. Holds (before ++ after) is v) (until_subscribed net (suc k) i s1)
            ((until_subscribed-Keeps net (Holds (before ++ after) is)
                (Holds-stable (before ++ after) is) i
                (λ v sub _. grown (before ++ after) is v (ping_poll_task i)) (suc k)).at
              s1 (p1, (others, sym (append_assoc before after others)), l))
            ((until_subscribed_iff net i (suc k) s1 u).1 (k, omega arith, f)) in
        (
          _,
          Reach.next Reach.here (
              Step.task (suc k) (length before) (resubscribe_task i) (before ++ (after ++ others))
                (rw e (
                  rw (append_assoc before (resubscribe_task i ∷ after) others)
                    (take_task-append before (resubscribe_task i) (after ++ others))))
                (resubscribe_appends net i (suc k) f (omega arith))),
          (undisturbed.relisted u _ kept.0, kept.1, ap (λ is. is ++ i ∷ []) kept.2),
        )

    resubscribe_each :
        (js : List ℕ) (before : List Task) (is : List ℕ) (s : Sys net)
        → All IsGranted js
        → Holds (before ++ map resubscribe_task js) is s
        → (u : Sys net) × Reach net s u × (u.client.subscriptions ≡ is ++ js) × P u
    resubscribe_each [] before is s granted h = (s, Reach.here, h.2 ∙ sym (append-nil is), h.0)
    resubscribe_each (j ∷ js) before is s granted h =
        let (t, r, h') = resubscribe_one j before (map resubscribe_task js) is s granted.0 h in
        let (u, q, listed, p) = resubscribe_each js before (is ++ j ∷ []) t granted.1 h' in
        (u, Reach-trans net r q, listed ∙ append_assoc is (j ∷ []) js, p)

    -- `ResubscribeAll` returns with the list emptied. If the connection then meets a condition under which every
    -- subscription that was in the list is granted after some failures, the goroutines can be run so that the
    -- client reaches a state that has all of them in its list again, in their order, and still meets the
    -- condition.
    pub resubscribe_all_recovers :
        (s : Sys net)
        → All IsGranted s.client.subscriptions
        → ((t : Sys net) → resubscribe_all net s ≡ done tt t → P t)
        → (t : Sys net) × (u : Sys net) × (resubscribe_all net s ≡ done tt t)
          × (t.client.subscriptions ≡ [])
          × Reach net t u
          × (u.client.subscriptions ≡ s.client.subscriptions)
          × P u
    resubscribe_all_recovers s granted start =
        let e = resubscribe_all_lem net s in
        let (u, r, listed, p) =
          resubscribe_each s.client.subscriptions s.spawned [] _ granted
            (start _ e, ([], sym (append-nil _)), refl) in
        (_, u, e, refl, r, listed, p)
