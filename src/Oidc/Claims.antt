-- ===== src/Oidc/Claims.antt =====
-- apps/minister/src/lib/oidc-claims.ts: the claims of a user that an app is told, and the badges
-- that are minted anew for it. The steps of a disclosure that other components take are parameters.
pub mod Disclosed
use minister.Common.{
  ℕ, String, Bool, true, false, ◌&&◌, Option, none, some, List, [], ◌∷◌, keep, Entries, lookup,
  includes, string_eq, pair_eq, ◌==◌, given, if◌then◌else◌,
}
use minister.Policy.{text}
use minister.Oidc.Store.{Attribute, plain, User, ProfileOverride, Badge, Store}

pub record ProfileGrant : Type 0 where
  pub name : Bool
  pub avatar : Bool

pub record ResolvedUserClaims : Type 0 where
  pub name : Option String
  pub picture : Option String
  pub sybil_bucket : Option ℕ
  pub minister_badges : List String

unfoldable pub resolve_name : User → Option ProfileOverride → Option String
resolve_name user none = user.display_name
resolve_name user (some persona) = persona.display_name

unfoldable pub resolve_picture : User → Option ProfileOverride → Option String
resolve_picture user none = user.avatar_url
resolve_picture user (some persona) = persona.avatar_url

unfoldable pub when {ℓ} : {A : Type ℓ} → Bool → Option A → Option A
when true o = o
when false o = none

unfoldable pub resolve_user_claims :
    User
    → ProfileGrant
    → List String
    → Option ProfileOverride
    → Bool
    → Option ℕ
    → ResolvedUserClaims
resolve_user_claims user profile jwts persona sybil_score_grant sybil_bucket = record {
  name = when profile.name (resolve_name user persona);
  picture = when profile.avatar (resolve_picture user persona);
  sybil_bucket = when sybil_score_grant sybil_bucket;
  minister_badges = jwts;
}

unfoldable pub find_override :
    Option (Entries (String × String) ProfileOverride) → String → String → Option ProfileOverride
find_override none user_id client_id = none
find_override (some overrides) user_id client_id = lookup overrides (user_id, client_id)

unfoldable pub load_profile_override : Store → String → String → Bool → Option ProfileOverride
load_profile_override store user_id client_id wants_profile =
    when wants_profile (find_override store.overrides user_id client_id)

-- What a badge is minted anew with; `role` replaces the role that the stored badge states.
pub record Mint : Type 0 where
  pub vc_jwt : String
  pub sub : String
  pub jti : String
  pub max_expires_at : Option ℕ
  pub nullifier : Option String
  pub role : Option String
  pub status : Option (String × ℕ)

pub data Omission : Type 0 where
  no_owner_handle : Omission
  disclose_failed : Omission
  drift_detected : Omission
  no_group_id : Omission
  no_membership : Omission
  no_status_entry : Omission
  re_mint_failed : Omission

pub data Disclosure : Type 0 where
  disclosed : String → Disclosure
  omitted : Omission → Disclosure

-- The records of an omission. A missing membership returns before the throw is caught.
unfoldable pub omission_audit : Disclosure → List String
omission_audit (disclosed jwt) = []
omission_audit (omitted drift_detected) =
    "nullifier.drift_detected" ∷ "oidc.badge_disclosure_omitted" ∷ []
omission_audit (omitted no_membership) = "group.membership_disclosure_omitted" ∷ []
omission_audit (omitted reason) = "oidc.badge_disclosure_omitted" ∷ []

unfoldable pub as_text : Option Attribute → Option String
as_text (some (plain (text t))) = some t
as_text _ = none

unfoldable pub group_id : Entries String Attribute → Option String
group_id attributes = as_text (lookup attributes "groupId")

abbrev pub group_membership_badge_type : String
group_membership_badge_type = "group-membership"

unfoldable pub add_disclosed : Disclosure → List String → List String
add_disclosed (disclosed jwt) jwts = jwt ∷ jwts
add_disclosed (omitted reason) jwts = jwts

-- The rows of a disclosure: of the user, approved, and issued by Minister itself.
unfoldable pub is_disclosable : String → String → List String → Badge → Bool
is_disclosable issuer user_id ids row =
    row.user_id == user_id && includes row.id ids && row.issuer == issuer

unfoldable pub owner_handle : Option User → Option String
owner_handle none = none
owner_handle (some user) = user.dedup_handle

-- A text that is tested for its truth, as in `if (row.statusAnchor)`: an empty one counts as missing.
unfoldable pub truthy : Option String → Option String
truthy none = none
truthy (some t) = if t == "" then none else some t

-- Operations of the other components: the nullifier of a ledger entry for an owner and a client,
-- whether it is the one recorded first, the handle of an anchor in a status list, the pairwise id
-- of a badge, and the mint, at the time
-- of the request. `none` is a throw.
module _ (disclose : String → String → String → Option String)
    (is_consistent : String → String → String → Bool)
    (allocate : String → String → Option (String × ℕ)) (pairwise_jti : String → String → String)
    (re_mint : Mint → Option String) where
  unfoldable pub with_nullifier :
      Option String → String → Option String → (Option String → Disclosure) → Disclosure
  with_nullifier handle client_id none k = k none
  with_nullifier handle client_id (some entry) k = given handle (omitted no_owner_handle) (λ owner.
      given (disclose entry owner client_id) (omitted disclose_failed) (λ nullifier.
        if is_consistent entry client_id nullifier
        then k (some nullifier)
        else omitted drift_detected))

  unfoldable pub with_role : Store → String → Badge → (Option String → Disclosure) → Disclosure
  with_role store user_id row k =
      if row.badge_type == group_membership_badge_type
      then given (group_id row.attributes) (omitted no_group_id) (λ id.
        given (lookup store.memberships (id, user_id)) (omitted no_membership)
          (λ role. k (some role)))
      else k none

  unfoldable pub with_status :
      String → Option String → (Option (String × ℕ) → Disclosure) → Disclosure
  with_status client_id none k = k none
  with_status client_id (some anchor) k =
      given (allocate anchor client_id) (omitted no_status_entry) (λ entry. k (some entry))

  unfoldable pub disclose_badge :
      Store → Option String → String → String → String → Badge → Disclosure
  disclose_badge store handle user_id client_id sub row =
      with_nullifier handle client_id (truthy row.nullifier_ref) (λ nullifier.
        with_role store user_id row (λ role.
          with_status client_id (truthy row.status_anchor) (λ status.
            given
              (re_mint (record {
                vc_jwt = row.vc_jwt;
                sub = sub;
                jti = pairwise_jti row.id client_id;
                max_expires_at = row.expires_at;
                nullifier = nullifier;
                role = role;
                status = status;
              }))
              (omitted re_mint_failed) (λ jwt. disclosed jwt))))

  unfoldable pub disclose_all :
      Store → Option String → String → String → String → List Badge → List String
  disclose_all store handle user_id client_id sub [] = []
  disclose_all store handle user_id client_id sub (row ∷ rows) =
      add_disclosed (disclose_badge store handle user_id client_id sub row)
        (disclose_all store handle user_id client_id sub rows)

  unfoldable pub load_approved_badge_jwts :
      Store → String → String → String → String → List String → List String
  load_approved_badge_jwts store issuer user_id client_id sub ids =
      disclose_all store (owner_handle (lookup store.users user_id)) user_id client_id sub
        (keep (is_disclosable issuer user_id ids) store.badges)
