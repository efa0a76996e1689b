-- ===== src/Connector/Portal/Parsed.antt =====
-- Which texts `ParsePortalId` takes for portal identifiers.
use Prim.Native.Char.{Char, code}
use text.Mathlib.TextLemmas.{nil-append, cons-append}
use text.Mathlib.TextEquality.{Char-path}
use matrix_groupme_bridge.Prelude.{
  String, List, [], ◌∷◌, ◌≡◌, refl, sym, ap, ◌∙◌, ◌↔◌, true, ok, ◌⧺◌, split, single, all_chars, eqb,
  eqb_iff, split-append_single, split_single, All, Bool-cases, inl, inr, arith,
}
use matrix_groupme_bridge.Connector.Portal.{parse_parts, parse_portal_id, HasNoColon}

-- The pieces with the separator between them.
abbrev rejoined : List String → String
rejoined [] = ""
rejoined (p ∷ []) = p
rejoined (p ∷ q ∷ ps) = p ⧺ ":" ⧺ rejoined (q ∷ ps)

rejoined-onto :
    (c : Char) (p : String) (ps : List String)
    → rejoined (String.◌∷◌ c p ∷ ps) ≡ String.◌∷◌ c (rejoined (p ∷ ps))
rejoined-onto c p [] = refl
rejoined-onto c p (q ∷ ps) = cons-append c p _

colon_only : (c : Char) → eqb (code c) b':' ≡ true → single c ≡ ":"
colon_only c h = ap single (Char-path c ":" (omega (arith, (eqb_iff (code c) b':').0 h)))

-- The pieces of a text hold no colon, and make the text again.
IsSplit : String → List String → Type 0
IsSplit s ps = (s ≡ rejoined ps) × All HasNoColon ps

split-IsSplit :
    (s : String) → (p : String) × (ps : List String) × (split b':' s ≡ p ∷ ps) × IsSplit s (p ∷ ps)
unfolding split IsSplit all_chars
split-IsSplit String.[] = ("", [], refl, (refl, (refl, tt)))
split-IsSplit (String.◌∷◌ c s) =
    let (p, ps, e, (joins, free)) = split-IsSplit s in
    elim (Bool-cases (eqb (code c) b':')) [
      | inl here ↦ (
        "",
        p ∷ ps,
        rw (here, e) refl,
        (
          sym (cons-append c "" s ∙ ap (λ t. String.◌∷◌ c t) (nil-append s))
              ∙ rw (colon_only c here, nil-append) (ap (λ t. ":" ⧺ t) joins),
          (refl, free),
        ),
      )
      | inr elsewhere ↦ (
        String.◌∷◌ c p,
        ps,
        rw (elsewhere, e) refl,
        (
          ap (λ t. String.◌∷◌ c t) joins ∙ sym (rejoined-onto c p ps),
          (rw elsewhere free.0, free.1),
        ),
      )
    ]

-- A portal identifier is a text before a colon, a login, a colon and a group, none of which holds a
-- colon; the first text is not looked at.
IsPortal : String → String → String → Type 0
IsPortal portal_id group user_login_id =
    (kind : String) × (portal_id ≡ kind ⧺ ":" ⧺ user_login_id ⧺ ":" ⧺ group)
    × HasNoColon kind
    × HasNoColon user_login_id
    × HasNoColon group

parse_parts-IsPortal :
    (portal_id group user_login_id : String) (ps : List String)
    → IsSplit portal_id ps
    → parse_parts portal_id ps ≡ ok (group, user_login_id)
    → IsPortal portal_id group user_login_id
unfolding parse_parts IsSplit IsPortal
parse_parts-IsPortal portal_id group user_login_id [] h e = cc e
parse_parts-IsPortal portal_id group user_login_id (a ∷ []) h e = cc e
parse_parts-IsPortal portal_id group user_login_id (a ∷ b ∷ []) h e = cc e
parse_parts-IsPortal portal_id group user_login_id (a ∷ b ∷ c ∷ []) (joins, (fa, (fb, (fc, _)))) e =
    let group_is : c ≡ group = cc e in
    let login_is : b ≡ user_login_id = cc e in
    (a, rw (group_is, login_is) at joins, fa, rw login_is at fb, rw group_is at fc)
parse_parts-IsPortal portal_id group user_login_id (a ∷ b ∷ c ∷ d ∷ ps) h e = cc e

parse_portal_id-IsPortal :
    (portal_id group user_login_id : String)
    → parse_portal_id portal_id ≡ ok (group, user_login_id)
    → IsPortal portal_id group user_login_id
unfolding parse_portal_id
parse_portal_id-IsPortal portal_id group user_login_id e =
    let (p, ps, q, h) = split-IsSplit portal_id in
    parse_parts-IsPortal portal_id group user_login_id (p ∷ ps) h (rw q at e)

IsPortal-parse_portal_id :
    (portal_id group user_login_id : String)
    → IsPortal portal_id group user_login_id
    → parse_portal_id portal_id ≡ ok (group, user_login_id)
unfolding parse_portal_id parse_parts IsPortal
IsPortal-parse_portal_id portal_id group user_login_id (kind, e, k, u, g) =
    let parts : split b':' portal_id ≡ kind ∷ user_login_id ∷ group ∷ [] = rw e (
      split-append_single b':' kind ":" (user_login_id ⧺ ":" ⧺ group) k refl
      ∙ ap (λ ps. kind ∷ ps) (split-append_single b':' user_login_id ":" group u refl)
      ∙ ap (λ ps. kind ∷ user_login_id ∷ ps) (split_single b':' group g)) in
    rw (parts, parse_parts) refl

-- `ParsePortalId` succeeds just where the identifier is a text, a login and a group with colons between them
-- and none in them, and returns that group and that login.
pub parse_portal_id_iff :
    (portal_id group user_login_id : String)
    → (parse_portal_id portal_id ≡ ok (group, user_login_id)) ↔ (
        (kind : String) × (portal_id ≡ kind ⧺ ":" ⧺ user_login_id ⧺ ":" ⧺ group)
        × HasNoColon kind
        × HasNoColon user_login_id
        × HasNoColon group)
unfolding IsPortal
parse_portal_id_iff portal_id group user_login_id = (
  parse_portal_id-IsPortal portal_id group user_login_id,
  IsPortal-parse_portal_id portal_id group user_login_id,
)
