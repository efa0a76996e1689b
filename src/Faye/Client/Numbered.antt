-- ===== src/Faye/Client/Numbered.antt =====
-- The identifiers of the messages that a client prepares: the counter of `setupSend`.
use matrix_groupme_bridge.Prelude.{
  ◌≡◌, refl, sym, ap, ◌∙◌, ◌+◌, ◌<◌, ◌^◌, ◌%◌, List, [], ◌∷◌, String, itoa64, ◌++◌, Bool, true,
  false, if◌then◌else◌, Result, ok, err, done, Ends, Ends-at, length, arith, add64,
}
use matrix_groupme_bridge.Faye.Message.{Message}
use matrix_groupme_bridge.Faye.Transport.{Net}
use matrix_groupme_bridge.Faye.Client.{
  Extension, Sys, run_outgoing, addressed, prepared, setup_send,
}

-- Extensions that leave the identifier of a message alone.
abbrev pub KeepsIds : List Extension → Type 0
KeepsIds xs = (m : Message) → (run_outgoing xs m).id ≡ m.id

ok_of_if : (x : String) {m a : Message} (b : Bool) → (if b then err x else ok m) ≡ ok a → m ≡ a
ok_of_if x true e = absurd (cc e)
ok_of_if x false e = cc e

module _ (net : Net) where
  -- `Prepares s rs u`: on the way from `s` to `u` the calls of setupSend give `rs`, and nothing else
  -- touches the counter or the extensions.
  pub data Prepares : Sys net → List (Result Message) → Sys net → Type 0 where
    finished : {s : Sys net} → Prepares s [] s
    elsewhere :
        {s t u : Sys net} {rs : List (Result Message)}
        → t.client.message_id ≡ s.client.message_id
        → t.client.extns ≡ s.client.extns
        → Prepares t rs u
        → Prepares s rs u
    sends :
        {s t u : Sys net} {r : Result Message} {rs : List (Result Message)} (msg : Message)
        → setup_send net msg s ≡ done r t
        → Prepares t rs u
        → Prepares s (r ∷ rs) u

  -- What a call of setupSend leaves.
  record Counted (s : Sys net) (r : Result Message) (t : Sys net) : Type 0 where
    counter : t.client.message_id ≡ add64 s.client.message_id 1
    extns : t.client.extns ≡ s.client.extns
    numbered :
        (a : Message) → r ≡ ok a → KeepsIds s.client.extns → a.id ≡ itoa64 s.client.message_id

  setup_send-Counted :
      (msg : Message) (s : Sys net) → Ends (λ r t. Counted s r t) (setup_send net msg s)
  unfolding setup_send prepared addressed
  setup_send-Counted msg s = record {
    counter = refl;
    extns = refl;
    numbered = λ a e keep. ap (λ m. m.id) (sym (ok_of_if _ _ e)) ∙ keep _;
  }

  pub Prepares-advances :
      {s u : Sys net} {rs : List (Result Message)}
      → Prepares s rs u
      → s.client.message_id < 2 ^ 64
      → (u.client.message_id ≡ (s.client.message_id + length rs) % 2 ^ 64)
        × (u.client.extns ≡ s.client.extns)
  Prepares-advances finished small = (omega (arith, small), refl)
  Prepares-advances {s} {rs = rs} (elsewhere {t = t} same extns p) small =
      let (counter, kept) = Prepares-advances p (omega (arith, same, small)) in
      (counter ∙ ap (λ n. (n + length rs) % 2 ^ 64) same, kept ∙ extns)
  Prepares-advances {s} (sends msg ran p) small =
      let c = Ends-at _ _ (setup_send-Counted msg s) ran in
      let step = c.counter in
      let (counter, kept) = Prepares-advances p (omega (arith, step)) in
      (omega (arith, counter, step), kept ∙ c.extns)

  pub Prepares-++ :
      {s t u : Sys net} {rs qs : List (Result Message)}
      → Prepares s rs t
      → Prepares t qs u
      → Prepares s (rs ++ qs) u
  Prepares-++ finished q = q
  Prepares-++ (elsewhere same extns p) q = elsewhere same extns (Prepares-++ p q)
  Prepares-++ (sends msg ran p) q = sends msg ran (Prepares-++ p q)
