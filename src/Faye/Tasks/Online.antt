-- ===== src/Faye/Tasks/Online.antt =====
-- A connected client has a transport, whatever the goroutines do.
use mathlib.Core.Path.{ap, subst, ◌∙◌}
use matrix_groupme_bridge.Prelude.{
  ℕ, ◌≡◌, ◌≢◌, ◌∷◌, refl, String, List, [], Option, panics, nil_pointer, none, some, not, ◌&&◌,
  ◌==◌, ltb, length, done, Ends-at, Ends-mono, Keeps, Keeps-bind, Keeps-pure, Bool-cases, inl, inr,
  get_elem?, ◌<◌, zero, suc, arith,
}
use matrix_groupme_bridge.Faye.Message.{Message}
use matrix_groupme_bridge.Faye.Transport.{Net, Transport}
use matrix_groupme_bridge.Faye.Client.{add_extension, connected, Sys, current_transport}
use matrix_groupme_bridge.Faye.Client.Stable.{Stable}
use matrix_groupme_bridge.Faye.Connect.Stable.{publish-Keeps}
use matrix_groupme_bridge.Faye.Subscribe.{resubscribe_all}
use matrix_groupme_bridge.Faye.Subscribe.All.{resubscribe_all_lem}
use matrix_groupme_bridge.Faye.Handshake.{
  is_disconnected, wait_first, select, begin, adopt, renew_subscriptions, greeted, handshake_with,
  handshake, handshake_and_connect,
}
use matrix_groupme_bridge.Faye.Handshake.Stable.{
  wait_first-Keeps, until_greeted-Keeps, after_handshake-Keeps,
}
use matrix_groupme_bridge.Faye.Tasks.{
  Step, task, call_connect, call_subscribe, call_publish, call_resubscribe, call_add_extension,
  Reach, here, next, run_task,
}
use matrix_groupme_bridge.Faye.Tasks.Loose.{Loose, run_task-Keeps, wait_subscribe-Keeps}
use matrix_groupme_bridge.Faye.Tasks.Pointers.{IsValid, PointsBelow}
use matrix_groupme_bridge.Faye.Tasks.Safety.{Reach-IsValid}

get_elem?_below {ℓ} :
    {A : Type ℓ} (xs : List A) (i : ℕ) → i < length xs → (x : A) × (get_elem? xs i ≡ some x)
get_elem?_below [] i h = elim h [ ]
get_elem?_below (x ∷ xs) zero h = (x, refl)
get_elem?_below (x ∷ xs) (suc i) h = get_elem?_below xs i (omega arith)

module _ (net : Net) where
  abbrev HasTransport : Sys net → Type 0
  HasTransport s = (i : ℕ) × (s.client.transport ≡ some i)

  abbrev Carried : Sys net → Type 0
  Carried s = s.client.state ≡ connected → HasTransport s

  HasTransport-stable : Stable net HasTransport
  HasTransport-stable = record {
    counted = λ s msg h. h;
    elsewhere = λ s w h. h;
    advised = λ s a h. h;
    handed = λ s ms h. h;
    delivered = λ s c m h. h;
  }

  Carried-stable : Stable net Carried
  Carried-stable = record {
    counted = λ s msg h. h;
    elsewhere = λ s w h. h;
    advised = λ s a h. h;
    handed = λ s ms h. h;
    delivered = λ s c m h. h;
  }

  Carried-loose : Loose net Carried
  Carried-loose = record {
    stable = Carried-stable;
    respawned = λ s ts h. h;
    restored = λ s subs h. h;
    relisted = λ s is h. h;
    delayed = λ s n h. h;
    parted = λ s h e. cc e;
    dismissed = λ s h e. cc e;
  }

  renew_subscriptions-HasTransport :
      (old : String) → Keeps HasTransport (renew_subscriptions net old)
  unfolding renew_subscriptions
  renew_subscriptions-HasTransport old = record {
    at = λ s h.
        elim (Bool-cases
          (not (old == s.client.client_id) && ltb 0 (length s.client.subscriptions))) [
            | inl changed ↦ rw (changed, resubscribe_all_lem net s) h
            | inr same ↦ rw same h
          ];
  }

  adopt-HasTransport : (found : Option ℕ) → Keeps HasTransport (adopt net found)
  unfolding adopt
  adopt-HasTransport none = record { at = λ s h. tt }
  adopt-HasTransport (some i) = record { at = λ s h. (i, refl) }

  greeted-HasTransport : (response : Message) → Keeps HasTransport (greeted net response)
  unfolding greeted select
  greeted-HasTransport response = record {
    at = λ s h.
        (Keeps-bind _ _ (adopt-HasTransport _)
            (λ _. renew_subscriptions-HasTransport s.client.client_id)).at
          _ h;
  }

  handshake_with-Carried :
      (fuel : ℕ) (found : Option ℕ) → Keeps Carried (handshake_with net fuel found)
  unfolding handshake_with begin
  handshake_with-Carried fuel none = Keeps-pure _
  handshake_with-Carried fuel (some i) = record {
    at = λ s h.
        Ends-mono (λ _ u. HasTransport u) (λ _ u. Carried u) _ (λ _ u k _. k)
          ((Keeps-bind _ _
              (until_greeted-Keeps net HasTransport HasTransport-stable (λ t k. k) fuel)
              (λ r. Keeps-bind _ _ (greeted-HasTransport r) λ _. Keeps-pure none)).at
            _ (i, refl));
  }

  handshake-Carried : (fuel : ℕ) → Keeps Carried (handshake net fuel)
  unfolding handshake select
  handshake-Carried fuel = record {
    at = λ s h. elim (Bool-cases (is_disconnected s.client.state)) [
      | inl told ↦ rw told h
      | inr free ↦ rw free (
          (Keeps-bind (wait_first net) _ (wait_first-Keeps net Carried Carried-stable)
              (λ _. record { at = λ t k. (handshake_with-Carried fuel _).at _ k })).at
            s h)
    ];
  }

  handshake_and_connect-Carried : (fuel : ℕ) → Keeps Carried (handshake_and_connect net fuel)
  unfolding handshake_and_connect
  handshake_and_connect-Carried fuel =
      Keeps-bind _ _ (handshake-Carried fuel)
        (after_handshake-Keeps net Carried Carried-stable (λ s h. h))

  Step-Carried : {s u : Sys net} → Step net s u → Carried s → Carried u
  unfolding add_extension
  Step-Carried {s} (task fuel i t rest found ran) h =
      Ends-at _ (run_task net fuel t (record s { spawned = rest }))
        ((run_task-Keeps net Carried Carried-loose fuel t).at (record s { spawned = rest }) h) ran
  Step-Carried {s} (call_connect fuel e ran) h =
      Ends-at _ (handshake_and_connect net fuel s) ((handshake_and_connect-Carried fuel).at s h) ran
  Step-Carried {s} (call_subscribe fuel channel c ran) h =
      Ends-at _ _ ((wait_subscribe-Keeps net Carried Carried-loose fuel channel c).at s h) ran
  Step-Carried {s} (call_publish channel content e ran) h =
      Ends-at _ _ ((publish-Keeps net Carried Carried-stable channel content).at s h) ran
  Step-Carried {s} (call_resubscribe ran) h =
      Ends-at (λ _ u. Carried u) (resubscribe_all net s) (rw resubscribe_all_lem h) ran
  Step-Carried {s} (call_add_extension extn) h = h

  Reach-Carried : {s u : Sys net} → Reach net s u → Carried s → Carried u
  Reach-Carried here h = h
  Reach-Carried (next r st) h = Step-Carried st (Reach-Carried r h)

  current_transport_lem :
      {u : Sys net}
      → {i : ℕ} → {t : Transport net.Conn} → u.client.transport ≡ some i
      → get_elem? u.registered i ≡ some t
      → current_transport net u ≡ done t u
  unfolding current_transport
  current_transport_lem {u} {i} {t} e found =
      ap
        (λ o. elim o [
          | none ↦ panics nil_pointer
          | some j ↦ elim (get_elem? u.registered j) [
            | none ↦ panics nil_pointer
            | some v ↦ done v u
          ]
        ])
        e
      ∙ ap (λ o. elim o [ none ↦ panics nil_pointer | some v ↦ done v u ]) found

  -- From a state of a client that is not connected in which no pointer dangles, whatever the goroutines do in
  -- whatever order and whatever the owner calls: whenever the client is connected, it has a transport to send
  -- with, and reading the pointer to it does not panic.
  pub Reach-current_transport :
      {s u : Sys net}
      → Reach net s u
      → IsValid s
      → s.client.state ≢ connected
      → u.client.state ≡ connected
      → (t : Transport net.Conn) × (current_transport net u ≡ done t u)
  Reach-current_transport {u = u} r valid off on =
      let (i, e) = Reach-Carried r (λ h. absurd (off h)) on in
      let (t, found) =
        get_elem?_below u.registered i
          (subst (PointsBelow (length u.registered)) e (Reach-IsValid net r valid).transport) in
      (t, current_transport_lem e found)
