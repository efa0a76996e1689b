-- ===== src/Connector/Portal.antt =====
-- Portal identifiers: `MakeGroupmePortalId` and `ParsePortalId` of pkg/connector/handler.go.
pub mod Parsed
use matrix_groupme_bridge.Prelude.{
  String, List, [], ◌∷◌, ◌≡◌, refl, true, Result, ok, err, ◌⧺◌, split, all_chars, differs,
  split-append_single, split_single, ◌∙◌, ap,
}

-- fmt.Sprintf("%s:%s:%s", "GroupmeID", userLoginId, group)
unfoldable pub make_groupme_portal_id : String → String → String
make_groupme_portal_id group user_login_id = "GroupmeID" ⧺ ":" ⧺ user_login_id ⧺ ":" ⧺ group

pub parse_parts : String → List String → Result (String × String)
parse_parts portal_id (_ ∷ user_login_id ∷ groupme_id ∷ []) = ok (groupme_id, user_login_id)
parse_parts portal_id _ = err ("could not parse portalID (" ⧺ portal_id ⧺ ")")

unfoldable pub parse_portal_id : String → Result (String × String)
unfolding parse_parts
parse_portal_id portal_id = parse_parts portal_id (split b':' portal_id)

-- A text without the separator of the portal identifiers.
abbrev pub HasNoColon : String → Type 0
HasNoColon s = all_chars (differs b':') s ≡ true

-- A portal identifier made from a group and a login that hold no colon is parsed to that group and
-- that login.
pub parse_portal_id-make :
    (group user_login_id : String)
    → HasNoColon group
    → HasNoColon user_login_id
    → parse_portal_id (make_groupme_portal_id group user_login_id) ≡ ok (group, user_login_id)
unfolding make_groupme_portal_id parse_portal_id all_chars
parse_portal_id-make group user_login_id g u =
    let parts : split b':' (make_groupme_portal_id group user_login_id)
        ≡ "GroupmeID" ∷ user_login_id ∷ group ∷ [] =
      split-append_single b':' "GroupmeID" ":" (user_login_id ⧺ ":" ⧺ group) refl refl
      ∙ ap (λ ps. "GroupmeID" ∷ ps) (split-append_single b':' user_login_id ":" group u refl)
      ∙ ap (λ ps. "GroupmeID" ∷ user_login_id ∷ ps) (split_single b':' group g) in
    rw (parts, parse_parts)
