-- ===== src/Connector/Connect/Delivers.antt =====
-- What becomes of the messages for the user, once `Connect` has succeeded.
use Prim.Native.Char.{code}
use text.Mathlib.TextLemmas.{nil-append, cons-append}
use matrix_groupme_bridge.Prelude.{
  ℕ, ◌≡◌, ◌≢◌, refl, sym, ap, ◌∙◌, String, List, [], ◌∷◌, ◌++◌, none, some, true, if◌then◌else◌,
  done, length, length-append, all_chars, ◌⧺◌, Bool-cases, inl, inr, All, All-map, arith,
}
use matrix_groupme_bridge.Prelude.Glob.{glob_match, literal_text, is_literal, glob_match-literal}
use matrix_groupme_bridge.Groupme.Ids.{id_valid, is_alphanumeric, is_digit}
use matrix_groupme_bridge.Faye.Message.{Message}
use matrix_groupme_bridge.Faye.Transport.{Net}
use matrix_groupme_bridge.Faye.Client.{deliver_task, run_incoming, add_extension, new_faye_client}
use matrix_groupme_bridge.Faye.Connect.{find_subscription, handle_messages}
use matrix_groupme_bridge.Faye.Connect.Delivery.{target, handle_messages_first}
use matrix_groupme_bridge.Realtime.Push.{user_channel, new_push_client, auth_ext, log_ext}
use matrix_groupme_bridge.Connector.Events.{Env}
use matrix_groupme_bridge.Connector.Connect.{Session, connect}
use matrix_groupme_bridge.Connector.Connect.Reports.{IsListening, connect_reports}

literal_text-append :
    (a b : String) → literal_text a ≡ true → literal_text b ≡ true → literal_text (a ⧺ b) ≡ true
unfolding literal_text
literal_text-append String.[] b ha hb = rw nil-append hb
literal_text-append (String.◌∷◌ c a) b ha hb =
    rw cons-append (ground (arith, ha, literal_text-append a b (ground (arith, ha)) hb))

alphanumeric_literal : (c : ℕ) → is_alphanumeric c ≡ true → is_literal c ≡ true
unfolding is_alphanumeric is_digit
alphanumeric_literal c h = ground (arith, h)

all_alphanumeric_literal :
    (s : String) → all_chars (λ c. is_alphanumeric (code c)) s ≡ true → literal_text s ≡ true
unfolding all_chars literal_text
all_alphanumeric_literal String.[] h = refl
all_alphanumeric_literal (String.◌∷◌ c s) h =
    let head : is_alphanumeric (code c) ≡ true = ground (arith, h) in
    rw (alphanumeric_literal (code c) head) (all_alphanumeric_literal s (ground (arith, h)))

user_channel_literal : (id : String) → id_valid id ≡ true → literal_text (user_channel id) ≡ true
unfolding id_valid user_channel literal_text
user_channel_literal String.[] h = cc
user_channel_literal (String.◌∷◌ c s) h =
    literal_text-append "/user/" (String.◌∷◌ c s) refl (all_alphanumeric_literal (String.◌∷◌ c s) h)

module _ (env : Env) (net : Net) where
  -- The push client's extensions leave an incoming message as it is.
  run_incoming-new_push_client :
      (token : String) (m : Message) → run_incoming (new_push_client token).extns m ≡ m
  unfolding run_incoming new_push_client auth_ext log_ext add_extension new_faye_client
  run_incoming-new_push_client token m = refl

  module _ (s u : Session env net) (l : IsListening env net s u) where
    incoming : (m : Message) → run_incoming u.push.faye.client.extns m ≡ m
    incoming m = rw (l.extns) (run_incoming-new_push_client s.client.auth_token m)

    target-listening :
        (m : Message)
        → target net u.push.faye m
          ≡ (if glob_match (user_channel u.client.user_id) m.channel then some l.sub else none)
    unfolding find_subscription
    target-listening m =
        rw (incoming m, l.listed) (rw (l.stored, find_subscription, l.channel) refl)

    literal : id_valid u.client.user_id ≡ true → literal_text (user_channel u.client.user_id) ≡ true
    literal h = user_channel_literal u.client.user_id h

    target-elsewhere :
        (b : Message)
        → id_valid u.client.user_id ≡ true
        → b.channel ≢ user_channel u.client.user_id
        → target net u.push.faye b ≡ none
    target-elsewhere b h other =
        elim (Bool-cases (glob_match (user_channel u.client.user_id) b.channel)) [
          | inl e ↦ absurd (other (sym ((glob_match-literal _ b.channel (literal h)).0 e)))
          | inr e ↦ target-listening b ∙ rw e refl
        ]

    target-here :
        (m : Message)
        → id_valid u.client.user_id ≡ true
        → m.channel ≡ user_channel u.client.user_id
        → target net u.push.faye m ≡ some l.sub
    target-here m h here =
        target-listening m
        ∙ rw
            ((glob_match-literal (user_channel u.client.user_id) m.channel (literal h)).1
              (sym here))
            refl

  -- After a call of `Connect` that returned and sent no state, for a user whose identifier is valid: of a batch
  -- of messages, the first on the user's channel is handed, as it is, to the one channel that `Connect`
  -- has added to those whose messages are passed on to the loop, and nothing else is done.
  pub connect_delivers :
      (fuel : ℕ) (s u : Session env net) (before : List Message) (m : Message)
      (after : List Message)
      → connect env net fuel s ≡ done tt u
      → u.states ≡ s.states
      → id_valid u.client.user_id ≡ true
      → All (λ b. b.channel ≢ user_channel u.client.user_id) before
      → m.channel ≡ user_channel u.client.user_id
      → (c : ℕ) × (u.push.forwarded ≡ s.push.forwarded ++ c ∷ [])
        × (handle_messages net (before ++ m ∷ after) u.push.faye
            ≡ done tt
                (record u.push.faye { spawned = u.push.faye.spawned ++ deliver_task c m ∷ [] }))
  connect_delivers fuel s u before m after ran quiet valid elsewhere here =
      elim (connect_reports env net fuel s u ran) [
        | inl l ↦ (
          l.sub.msg_chan,
          l.forwarded,
          handle_messages_first net u.push.faye before m after l.sub
                (All-map _ _ before (λ b. target-elsewhere s u l b valid) elsewhere)
                (target-here s u l m valid here)
              ∙ rw (incoming s u l m) refl,
        )
        | inr r ↦ absurd (
            omega
              (arith, ap length (sym quiet ∙ r.states), length-append s.states (r.reported ∷ [])))
      ]
