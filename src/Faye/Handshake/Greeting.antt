-- ===== src/Faye/Handshake/Greeting.antt =====
-- The loop that sends the handshake message until a reply comes, and a handshake that returns.
use matrix_groupme_bridge.Prelude.{
  ℕ, zero, suc, ◌<◌, ◌≡◌, refl, List, String, none, some, false, not, ◌&&◌, ◌==◌, ltb, length, ok,
  err, done, arith, Bool-cases, inl, inr, Ends-at,
}
use matrix_groupme_bridge.Faye.Message.{Message}
use matrix_groupme_bridge.Faye.Transport.{Net, mandatory_connection_types}
use matrix_groupme_bridge.Faye.Client.{Sys, send, unconnected, connected}
use matrix_groupme_bridge.Faye.Subscribe.All.{resubscribe_all_lem}
use matrix_groupme_bridge.Faye.Handshake.{
  handshake_message, until_greeted, select, adopt, renew_subscriptions, greeted, begin, wait_first,
  handshake_with, handshake, is_disconnected,
}
use matrix_groupme_bridge.Faye.Handshake.Success.{IsGreeted, greeted-IsGreeted}

module _ (net : Net) where
  -- `Greets k s response u`: from `s`, k handshake messages bring an error, with a sleep of ten seconds
  -- after each, and the next one brings the response.
  pub data Greets : ℕ → Sys net → Message → Sys net → Type 0 where
    answered :
        {s t : Sys net} {response : Message} {messages : List Message}
        → send net (handshake_message s.client) s ≡ done (ok (response, messages)) t
        → Greets zero s response t
    unanswered :
        {k : ℕ} {s t u : Sys net} {response : Message} (e : String)
        → send net (handshake_message s.client) s ≡ done (err e) t
        → Greets k
            (record t {
              client = record t.client { state = unconnected };
              world = net.sleep 10 t.world;
            })
            response
            u
        → Greets (suc k) s response u

  until_greeted_enough :
      (fuel : ℕ) {k : ℕ} {s u : Sys net} {response : Message}
      → Greets k s response u
      → k < fuel
      → until_greeted net fuel s ≡ done response u
  unfolding until_greeted
  until_greeted_enough zero g h = absurd (omega (arith, h))
  until_greeted_enough (suc fuel) (answered e) h = rw (e, until_greeted)
  until_greeted_enough (suc fuel) (unanswered {t = t} e p g) h =
      rw (p, until_greeted) (until_greeted_enough fuel g (omega arith))

  renew_subscriptions_returns :
      (old : String) (s : Sys net) → (u : Sys net) × (renew_subscriptions net old s ≡ done tt u)
  unfolding renew_subscriptions
  renew_subscriptions_returns old s =
      elim (Bool-cases (not (old == s.client.client_id) && ltb 0 (length s.client.subscriptions))) [
        | inl changed ↦ rw changed (_, resubscribe_all_lem net s)
        | inr same ↦ rw same (_, refl)
      ]

  -- The client once it has taken the response.
  abbrev pub taken : Message → Sys net → Sys net
  taken response s = record s {
    client = record s.client { client_id = response.client_id; state = connected };
  }

  greeted_returns :
      (response : Message) (s t : Sys net) (j : ℕ)
      → select net response.supported_connection_types (taken response s) ≡ done (some j) t
      → (u : Sys net) × (greeted net response s ≡ done tt u)
  unfolding greeted adopt
  greeted_returns response s t j e = rw (e, greeted) (renew_subscriptions_returns _ _)

  -- A client that is not disconnected, for which a transport for the handshake is selected, whose
  -- handshake message is answered after fewer errors than the fuel, and for which a transport of the
  -- kinds that the response supports is then selected: the handshake returns without an error, and
  -- leaves the client connected, with the response's client identifier and with a registered transport of a
  -- kind that the response supports.
  pub handshake_succeeds :
      (fuel i j : ℕ) {k : ℕ} (response : Message) (s waited selected greeting t : Sys net)
      → is_disconnected s.client.state ≡ false
      → wait_first net s ≡ done tt waited
      → select net mandatory_connection_types waited ≡ done (some i) selected
      → begin net i selected ≡ done tt greeting
      → {answer : Sys net} → Greets k greeting response answer
      → k < fuel
      → select net response.supported_connection_types (taken response answer) ≡ done (some j) t
      → (u : Sys net) × (handshake net fuel s ≡ done none u) × IsGreeted net response u
  unfolding handshake handshake_with
  handshake_succeeds fuel i j response s waited selected greeting t free w sel b {answer} g h sel' =
      let (u, e) = greeted_returns response answer t j sel' in
      (
        u,
        rw (handshake, free)
            (rw w
              (rw (sel, handshake_with) (rw b (rw (until_greeted_enough fuel g h) (rw e refl))))),
        Ends-at _ (greeted net response answer) (greeted-IsGreeted net response answer) e,
      )
