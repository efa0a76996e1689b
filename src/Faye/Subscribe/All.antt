-- ===== src/Faye/Subscribe/All.antt =====
-- What `ResubscribeAll` starts.
use matrix_groupme_bridge.Prelude.{ℕ, ◌≡◌, List, [], ◌∷◌, ◌++◌, done, map, false}
use mathlib.Core.List.{append_assoc, append-nil}
use matrix_groupme_bridge.Faye.Transport.{Net}
use matrix_groupme_bridge.Faye.Client.{Subscription, Sys, resubscribe_task}
use matrix_groupme_bridge.Faye.Subscribe.{set_stop_polling, fork_all, resubscribe_all}

-- The subscriptions behind the pointers, told to poll again.
abbrev pub restarted : List ℕ → List Subscription → List Subscription
restarted [] subs = subs
restarted (i ∷ is) subs = restarted is (set_stop_polling false i subs)

module _ (net : Net) where
  fork_all_lem :
      (is : List ℕ) (s : Sys net)
      → fork_all net is s
        ≡ done tt (record s {
          subs = restarted is s.subs;
          spawned = s.spawned ++ map resubscribe_task is;
        })
  unfolding fork_all
  fork_all_lem [] s = rw append-nil
  fork_all_lem (i ∷ is) s = rw (fork_all_lem is) (simp append_assoc)

  -- `ResubscribeAll` empties the client's list, starts one goroutine for each subscription that was
  -- in it, in order, and clears the stop flags of those subscriptions; nothing else changes.
  pub resubscribe_all_lem :
      (s : Sys net)
      → resubscribe_all net s
        ≡ done tt (record s {
          client = record s.client { subscriptions = [] };
          subs = restarted s.client.subscriptions s.subs;
          spawned = s.spawned ++ map resubscribe_task s.client.subscriptions;
        })
  unfolding resubscribe_all
  resubscribe_all_lem s = fork_all_lem s.client.subscriptions _
