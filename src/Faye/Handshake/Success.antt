-- ===== src/Faye/Handshake/Success.antt =====
-- What a handshake that succeeds has established.
use matrix_groupme_bridge.Prelude.{
  ℕ, ◌≡◌, refl, String, List, [], ◌∷◌, Option, none, some, true, not, ◌&&◌, ◌==◌, ltb, ◌>>=◌, zero,
  suc, length, get_elem?, set, Bool-cases, inl, inr, Ends, Ends-continue, Ends-all, Ends-mono, pure,
}
use matrix_groupme_bridge.Faye.Message.{Message}
use matrix_groupme_bridge.Faye.Transport.{
  Net, Transport, http, websocket, connection_type, contains, set_timeout_seconds,
}
use matrix_groupme_bridge.Faye.Transport.Selection.{Selected, select_transport-Selected}
use matrix_groupme_bridge.Faye.Client.{connected, Sys}
use matrix_groupme_bridge.Faye.Subscribe.All.{resubscribe_all_lem}
use matrix_groupme_bridge.Faye.Handshake.{
  update_at, select, adopt, renew_subscriptions, greeted, until_greeted, begin, handshake_with,
  wait_first, is_disconnected, handshake, connection_timeout_seconds,
}

pub connection_type-set_timeout_seconds :
    {Conn : Type 0} (n : ℕ) (t : Transport Conn)
    → connection_type (set_timeout_seconds n t) ≡ connection_type t
unfolding connection_type set_timeout_seconds
connection_type-set_timeout_seconds n (http url) = refl
connection_type-set_timeout_seconds n (websocket wt) = refl

get_elem?-set_present {ℓ} :
    {A : Type ℓ} (xs : List A) (i : ℕ) (v : A) {x : A}
    → get_elem? xs i ≡ some x
    → get_elem? (set xs i v) i ≡ some v
get_elem?-set_present [] i v e = cc
get_elem?-set_present (y ∷ xs) zero v e = refl
get_elem?-set_present (y ∷ xs) (suc i) v e = get_elem?-set_present xs i v e

pub get_elem?-update_at {ℓ} :
    {A : Type ℓ} (f : A → A) (i : ℕ) (xs : List A) {x : A}
    → get_elem? xs i ≡ some x
    → get_elem? (update_at f i xs) i ≡ some (f x)
unfolding update_at
get_elem?-update_at f i xs e = rw (e, update_at) (get_elem?-set_present xs i _ e)

-- The client took the response's identifier, is connected, and its transport is a registered one of a
-- kind that the response supports.
pub record IsGreeted (net : Net) (response : Message) (s : Sys net) : Type 0 where
  pub state : s.client.state ≡ connected
  pub client_id : s.client.client_id ≡ response.client_id
  pub index : ℕ
  pub chosen : Transport net.Conn
  pub transport : s.client.transport ≡ some index
  pub registered : get_elem? s.registered index ≡ some chosen
  pub supported : contains response.supported_connection_types (connection_type chosen) ≡ true

module _ (net : Net) (response : Message) where
  renew_subscriptions-IsGreeted :
      (old_client_id : String) (s : Sys net)
      → IsGreeted net response s
      → Ends (λ _ u. IsGreeted net response u) (renew_subscriptions net old_client_id s)
  unfolding renew_subscriptions
  renew_subscriptions-IsGreeted old_client_id s h =
      elim (Bool-cases
        (not (old_client_id == s.client.client_id) && ltb 0 (length s.client.subscriptions))) [
          | inl changed ↦
              rw (changed, resubscribe_all_lem net s)
                (record {
                  state = h.state;
                  client_id = h.client_id;
                  index = h.index;
                  chosen = h.chosen;
                  transport = h.transport;
                  registered = h.registered;
                  supported = h.supported;
                })
          | inr same ↦ rw same h
        ]

  -- Adopting what was selected among the kinds that the response supports.
  adopt-IsGreeted :
      (found : Option ℕ) (old_client_id : String) (s : Sys net)
      → Selected net s.client.url response.supported_connection_types s.registered found
      → s.client.state ≡ connected
      → s.client.client_id ≡ response.client_id
      → Ends
          (λ _ u. IsGreeted net response u)
          ((adopt net found >>= λ _. renew_subscriptions net old_client_id) s)
  unfolding adopt
  adopt-IsGreeted none old_client_id s h p q = tt
  adopt-IsGreeted (some i) old_client_id s (t, at, fits) p q =
      renew_subscriptions-IsGreeted old_client_id _ (record {
        state = p;
        client_id = q;
        index = i;
        chosen = set_timeout_seconds connection_timeout_seconds t;
        transport = refl;
        registered = get_elem?-update_at _ i s.registered at;
        supported = rw connection_type-set_timeout_seconds fits;
      })

  pub greeted-IsGreeted :
      (s : Sys net) → Ends (λ _ u. IsGreeted net response u) (greeted net response s)
  unfolding greeted select adopt
  greeted-IsGreeted s =
      adopt-IsGreeted _ s.client.client_id _
        (select_transport-Selected net s.client.url response.supported_connection_types s.registered
          s.world)
        refl refl

abbrev pub Success : (net : Net) → Option String → Sys net → Type 0
Success net none u = (response : Message) × IsGreeted net response u
Success net (some e) u = Unit

module _ (net : Net) (fuel : ℕ) where
  after_greeting :
      (response : Message) (s : Sys net)
      → Ends (Success net) ((greeted net response >>= λ _. pure none) s)
  after_greeting response s =
      Ends-continue (Success net) (greeted net response s) (λ _. pure none)
        (Ends-mono _ _ (greeted net response s) (λ _ u h. (response, h))
          (greeted-IsGreeted net response s))

  handshake_with-Success :
      (found : Option ℕ) (s : Sys net) → Ends (Success net) (handshake_with net fuel found s)
  unfolding handshake_with begin until_greeted
  handshake_with-Success none s = tt
  handshake_with-Success (some i) s =
      Ends-continue (Success net) (until_greeted net fuel _) _
        (Ends-all _ (until_greeted net fuel _) after_greeting)

  pub handshake-Success : (s : Sys net) → Ends (Success net) (handshake net fuel s)
  unfolding handshake select
  handshake-Success s = elim (Bool-cases (is_disconnected s.client.state)) [
    | inl told ↦ rw told tt
    | inr free ↦ rw free (
        Ends-continue (Success net) (wait_first net s) _
          (Ends-all _ (wait_first net s) λ _ t. handshake_with-Success _ _))
  ]
