-- ===== src/Oidc/Consent.antt =====
-- apps/minister/src/server/oidc-actions.ts, with the minimization of
-- apps/minister/src/server/oidc-consent-minimize.ts and the scopes of
-- apps/minister/src/server/wizard-helpers.ts: the answer of a user to an authorization request.
-- What the approval reads is `seen`; its transaction meets `store`.
pub mod Discloses
mod Tests
use minister.Common.{
  ℕ, ◌+◌, ◌*◌, ◌/◌, String, Bool, true, false, not, ◌&&◌, ◌||◌, Option, none, some, List, [], ◌∷◌,
  ◌++◌, map, all, any, keep, Entries, lookup, insert, includes, string_eq, pair_eq, ◌==◌,
  if◌then◌else◌, given, stop_if, after_prefix,
}
use minister.Policy.{AttrValue, PolicyNode, UserBadge}
use minister.Policy.Select.{select_minimal_anonymity_set}
use minister.Oidc.Authorize.{Client, ValidAuthorizeRequest, requested_badge_types}
use minister.Oidc.Store.{
  Attribute, plain, structured, Badge, AuthCode, ProfileOverride, Grant, Store,
}
use minister.Oidc.Claims.{when}
use minister.Oidc.Profile.{NormalizedProfile, normalize_profile_input}
use minister.Oidc.Grants.{load_grant, upsert_grant, add_all}

abbrev code_ttl_seconds : ℕ
code_ttl_seconds = 60

pub record ApproveInput : Type 0 where
  pub request_token : String
  pub approved_badge_ids : List String
  pub approve_name : Bool
  pub approve_avatar : Bool
  pub approve_sybil_score : Bool
  pub name_value : Option String
  pub avatar_value : Option String

pub data ConsentError : Type 0 where
  not_signed_in : ConsentError
  invalid_input : ConsentError
  request_expired : ConsentError
  invalid_profile : ConsentError

-- A redirect is its URI, the code and the state; one of an anonymous app hands over its id and the
-- epoch. `threw` is a throw of the transaction.
pub data Approval : Type 0 where
  not_approved : ConsentError → Approval
  threw : Approval
  redirect : String → String → String → Approval
  redirect_anon : String → String → String → String → ℕ → Approval

-- The refusal of a user: a redirect with the URI and the state, or an error.
pub data Denial : Type 0 where
  not_denied : ConsentError → Denial
  denied : String → String → Denial

unfoldable pub coerce_attrs : Entries String Attribute → Entries String AttrValue
coerce_attrs [] = []
coerce_attrs ((key, plain value) ∷ attributes) = (key, value) ∷ coerce_attrs attributes
coerce_attrs ((key, structured) ∷ attributes) = coerce_attrs attributes

unfoldable pub minimize_to_policy :
    Option PolicyNode → List UserBadge → Entries String ℕ → ℕ → List UserBadge
minimize_to_policy none submitted counts now = submitted
minimize_to_policy (some policy) submitted counts now =
    keep
      (λ b.
        includes b.id (select_minimal_anonymity_set policy submitted counts now).selected_badge_ids)
      submitted

unfoldable pub union_badges_by_id : List UserBadge → List UserBadge → List UserBadge
union_badges_by_id a b = a ++ keep (λ x. not (includes x.id (map (λ y. y.id) a))) b

unfoldable pub is_requested : List String → UserBadge → Bool
is_requested types b = includes b.badge_type types

-- What of a scope a user approves.
pub record EffectiveScopesInput : Type 0 where
  pub approve_profile : Bool
  pub approve_sybil_score : Bool
  pub approved_badge_ids : List String
  pub user_badges : List UserBadge

unfoldable pub has_approved : EffectiveScopesInput → Option String → Bool
has_approved input none = false
has_approved input (some type) =
    any (λ b. b.badge_type == type && includes b.id input.approved_badge_ids) input.user_badges

unfoldable pub is_effective : EffectiveScopesInput → String → Bool
is_effective input scope =
    if scope == "openid"
    then true
    else if scope == "profile"
    then input.approve_profile
    else if scope == "sybil-score"
    then input.approve_sybil_score
    else has_approved input (after_prefix "badge:" scope)

unfoldable pub effective_scopes : List String → EffectiveScopesInput → List String
effective_scopes requested input = keep (is_effective input) requested

unfoldable pub or_blank : Option String → String
or_blank none = ""
or_blank (some value) = value

unfoldable pub when_text : Bool → Option String → String
when_text true value = or_blank value
when_text false value = ""

-- What the approval has worked out before its transaction.
pub record Approved : Type 0 where
  pub user_badges : List UserBadge
  pub approve_name : Bool
  pub approve_avatar : Bool
  pub approve_sybil_score : Bool
  pub profile : NormalizedProfile
  pub sybil_bucket : Option ℕ
  pub anon_app_id : Option String
  pub anon_epoch : Option ℕ

-- A field that the user did not approve is left as it is.
unfoldable pub write_field : Bool → Option String → Option String → Option String
write_field true new old = new
write_field false new old = old

unfoldable pub write_persona : Approved → Option ProfileOverride → ProfileOverride
write_persona a none = record {
  display_name = write_field a.approve_name a.profile.display_name none;
  avatar_url = write_field a.approve_avatar a.profile.avatar_url none;
}
write_persona a (some old) = record {
  display_name = write_field a.approve_name a.profile.display_name old.display_name;
  avatar_url = write_field a.approve_avatar a.profile.avatar_url old.avatar_url;
}

-- The upsert of the override, which throws where the table is missing.
unfoldable pub upsert_override : String → String → Approved → Store → Option Store
upsert_override user_id client_id a store = given store.overrides none (λ overrides.
    some (record store {
      overrides = some (
          insert overrides (user_id, client_id)
            (write_persona a (lookup overrides (user_id, client_id))));
    }))

unfoldable pub code_row : ℕ → String → ValidAuthorizeRequest → Approved → AuthCode
code_row now user_id request a =
    let ids = map (λ b. b.id) a.user_badges in
    record {
      client_id = request.client_id;
      user_id = user_id;
      redirect_uri = request.redirect_uri;
      scopes = effective_scopes request.scopes (record {
        approve_profile = a.approve_name || a.approve_avatar;
        approve_sybil_score = a.approve_sybil_score;
        approved_badge_ids = ids;
        user_badges = a.user_badges;
      });
      approved_badge_ids = ids;
      profile_name = a.approve_name;
      profile_avatar = a.approve_avatar;
      sybil_score = a.approve_sybil_score;
      sybil_bucket = a.sybil_bucket;
      anon_epoch = a.anon_epoch;
      nonce = request.nonce;
      code_challenge = request.code_challenge;
      code_challenge_method = "S256";
      expires_at = now + code_ttl_seconds * 1000;
      consumed_at = none;
    }

unfoldable pub grant_of : Approved → Grant
grant_of a = record {
  badge_types = add_all (map (λ b. b.badge_type) a.user_badges) [];
  badge_ids = map (λ b. b.id) a.user_badges;
  profile_name = a.approve_name;
  profile_avatar = a.approve_avatar;
  sybil_score = a.approve_sybil_score;
}

-- The transaction: the code, the grant, and the persona if the profile is shared.
unfoldable pub write_approval :
    ℕ → String → String → ValidAuthorizeRequest → Approved → Store → Option Store
write_approval now code user_id request a store =
    let coded = record store { codes = insert store.codes code (code_row now user_id request a) } in
    let granted = upsert_grant user_id request.client_id (grant_of a) coded in
    if a.approve_name || a.approve_avatar
    then upsert_override user_id request.client_id a granted
    else some granted

unfoldable pub anon_app : Option Client → Option String
anon_app none = none
anon_app (some client) = client.anon_app_id

unfoldable pub epoch_or_one : Option ℕ → ℕ
epoch_or_one none = 1
epoch_or_one (some epoch) = epoch

unfoldable pub anon_epoch_of : Option String → Option ℕ → Option ℕ
anon_epoch_of none enrollment = none
anon_epoch_of (some app) enrollment = if app == "" then none else some (epoch_or_one enrollment)

unfoldable pub answer_redirect : Option String → Option ℕ → String → String → String → Approval
answer_redirect none epoch uri code state = redirect uri code state
answer_redirect (some app) epoch uri code state =
    redirect_anon uri code state app (epoch_or_one epoch)

-- `is_cuid` is zod's test of an id, `verify_request` the check of the signed request, where `none`
-- is a throw, `month_start` the start of a badge's month of issuance, `counts` the holders of each
-- badge type, and `bucket_of` the sybil bucket of a user, `none` where it throws or the config is
-- degenerate.
module _ (is_cuid : String → Bool) (verify_request : String → Option ValidAuthorizeRequest)
    (protocol : String → Option String) (to_lower : String → String) (is_email : String → Bool)
    (month_start : ℕ → ℕ) (counts : Entries String ℕ) (bucket_of : String → Option ℕ)
    (anon_identity_enabled : Bool) where
  unfoldable pub to_policy_user_badge : Badge → UserBadge
  to_policy_user_badge row = record {
    id = row.id;
    badge_type = row.badge_type;
    attributes = coerce_attrs row.attributes;
    issued_at = month_start row.issued_at;
  }

  unfoldable pub load_badges_for_user : Store → String → List String → List UserBadge
  load_badges_for_user store user_id ids =
      map to_policy_user_badge
        (keep (λ row. row.user_id == user_id && includes row.id ids) store.badges)

  unfoldable pub candidate_badges :
      Store → String → ValidAuthorizeRequest → List String → List UserBadge
  candidate_badges seen user_id request ids =
      let types = requested_badge_types request.scopes in
      union_badges_by_id (keep (is_requested types) (load_badges_for_user seen user_id ids)) (
        keep (is_requested types)
          (load_badges_for_user seen user_id (load_grant seen user_id request.client_id).badge_ids))

  unfoldable pub parse_input : ApproveInput → Bool
  parse_input input = not (input.request_token == "") && all is_cuid input.approved_badge_ids

  unfoldable pub approved_of :
      ℕ → String → ValidAuthorizeRequest → ApproveInput → NormalizedProfile → Store → Approved
  approved_of now user_id request input profile seen =
      let app = when anon_identity_enabled (anon_app (lookup seen.clients request.client_id)) in
      record {
        user_badges =
            minimize_to_policy request.policy
              (candidate_badges seen user_id request input.approved_badge_ids) counts (now / 1000);
        approve_name = includes "profile" request.scopes && input.approve_name;
        approve_avatar = includes "profile" request.scopes && input.approve_avatar;
        approve_sybil_score = includes "sybil-score" request.scopes && input.approve_sybil_score;
        profile = profile;
        sybil_bucket =
            when (includes "sybil-score" request.scopes && input.approve_sybil_score)
              (bucket_of user_id);
        anon_app_id = app;
        anon_epoch = anon_epoch_of app (lookup seen.enrollments user_id);
      }

  unfoldable pub approve_signed_in :
      ℕ → String → String → ApproveInput → Store → Store → Approval × Store
  approve_signed_in now code user_id input seen store =
      stop_if (not (parse_input input)) (not_approved invalid_input, store)
        (given (verify_request input.request_token) (not_approved request_expired, store)
          (λ request.
            given
              (normalize_profile_input protocol to_lower is_email
                (when_text (includes "profile" request.scopes && input.approve_name)
                  input.name_value)
                (when_text (includes "profile" request.scopes && input.approve_avatar)
                  input.avatar_value))
              (not_approved invalid_profile, store)
              (λ profile.
                let a = approved_of now user_id request input profile seen in
                given (write_approval now code user_id request a store) (threw, store)
                  (λ last. (
                    answer_redirect a.anon_app_id a.anon_epoch request.redirect_uri code
                        request.state,
                    last,
                  )))))

  unfoldable pub approve_consent :
      ℕ → String → Option String → ApproveInput → Store → Store → Approval × Store
  approve_consent now code session input seen store =
      given session (not_approved not_signed_in, store)
        (λ user_id. approve_signed_in now code user_id input seen store)

  unfoldable pub deny_consent : Option String → String → Denial
  deny_consent session request_token = given session (not_denied not_signed_in) (λ user_id.
      stop_if (request_token == "") (not_denied invalid_input) (
        given (verify_request request_token) (not_denied request_expired)
          (λ request. denied request.redirect_uri request.state)))
