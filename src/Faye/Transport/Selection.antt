-- ===== src/Faye/Transport/Selection.antt =====
-- Which transport `selectTransport` finds.
use matrix_groupme_bridge.Prelude.{
  ℕ, suc, ◌≡◌, refl, String, List, [], ◌∷◌, Option, none, some, true, arith, length, get_elem?,
  Bool-cases, inl, inr, ◌⧺◌, if◌then◌else◌,
}
use mathlib.Core.Option
use mathlib.Core.Path.{subst}
use matrix_groupme_bridge.Faye.Transport.{
  Net, Transport, http, websocket, connection_type, contains, is_usable, select_transport,
  mandatory_connection_types, WebsocketTransport,
}

module _ (net : Net) (client_url : String) (types : List String) where
  -- Asking a transport whether it is usable does not change its kind.
  connection_type-is_usable :
      (t : Transport net.Conn) (w : net.World)
      → connection_type (is_usable net client_url t w).1 ≡ connection_type t
  unfolding connection_type is_usable
  connection_type-is_usable (http url) w = refl
  connection_type-is_usable (websocket wt) w = ground arith

  -- Selection neither adds nor removes a transport.
  pub length-select_transport :
      (ts : List (Transport net.Conn)) (w : net.World)
      → length (select_transport net client_url types ts w).1 ≡ length ts
  unfolding select_transport
  length-select_transport [] w = refl
  length-select_transport (t ∷ ts) w = ground (
    arith,
    length-select_transport ts w,
    length-select_transport ts (is_usable net client_url t w).2,
  )

  -- The properties of the selected transport at the head and further down.
  abbrev pub Selected : List (Transport net.Conn) → Option ℕ → Type 0
  Selected ts none = Unit
  Selected ts (some i) =
      (t : Transport net.Conn) × (get_elem? ts i ≡ some t)
      × (contains types (connection_type t) ≡ true)

  Selected-later :
      (t : Transport net.Conn) (ts : List (Transport net.Conn)) (o : Option ℕ)
      → Selected ts o
      → Selected (t ∷ ts) (Option.map suc o)
  Selected-later t ts none h = tt
  Selected-later t ts (some i) h = h

  pub select_transport-Selected :
      (ts : List (Transport net.Conn)) (w : net.World)
      → Selected
          (select_transport net client_url types ts w).1
          (select_transport net client_url types ts w).0
  unfolding select_transport
  select_transport-Selected [] w = tt
  select_transport-Selected (t ∷ ts) w = elim (Bool-cases (contains types (connection_type t))) [
    | inr skip ↦ rw (skip, select_transport) (Selected-later t _ _ (select_transport-Selected ts w))
    | inl fits ↦
        rw (fits, select_transport)
          (elim (Bool-cases (is_usable net client_url t w).0) [
            | inl usable ↦
                rw (usable, select_transport)
                  ((is_usable net client_url t w).1, refl, rw connection_type-is_usable fits)
            | inr broken ↦
                rw (broken, select_transport)
                  (Selected-later _ _ _
                    (select_transport-Selected ts (is_usable net client_url t w).2))
          ])
  ]

  -- A transport that is selected stands at its index among the registered ones, and its kind is one
  -- of those asked for.
  pub select_transport_allowed :
      (ts : List (Transport net.Conn)) (w : net.World) (i : ℕ)
      → (select_transport net client_url types ts w).0 ≡ some i
      → (t : Transport net.Conn) × (get_elem? (select_transport net client_url types ts w).1 i
          ≡ some t)
        × (contains types (connection_type t) ≡ true)
  select_transport_allowed ts w i e =
      subst (Selected (select_transport net client_url types ts w).1) e
        (select_transport-Selected ts w)

-- Where the websocket and the HTTP transport are registered in this order, the first selection of a
-- handshake is of the HTTP transport, if the client's URL can be parsed, and of none otherwise; it
-- opens no connection and changes no transport.
pub select_transport_mandatory :
    (net : Net) (client_url : String) (wt : WebsocketTransport net.Conn) (url : String)
    (w : net.World)
    → select_transport net client_url mandatory_connection_types (websocket wt ∷ http url ∷ []) w
      ≡ (
        (if net.url_parses ("https://" ⧺ client_url) then some 1 else none),
        websocket wt ∷ http url ∷ [],
        w,
      )
unfolding select_transport
select_transport_mandatory net client_url wt url w = ground arith
