-- ===== src/Oidc/Userinfo.antt =====
-- apps/minister/src/app/oidc/userinfo/route.ts: the claims of a user, for the access token of an app.
pub mod Agrees
use minister.Common.{
  ℕ, String, not, ◌||◌, Option, none, some, List, ltb, lookup, string_eq, given, stop_if, required,
  after_prefix, slice_from, trim, is_some,
}
use minister.Oidc.Authorize.{or_empty, is_text}
use minister.Oidc.Store.{AccessToken, User, Store}
use minister.Oidc.Claims.{resolve_user_claims, load_profile_override}
use minister.Oidc.Token.{some_if_any}

-- What the signature of an access token vouches for; a claim that is no text is missing.
pub record AccessPayload : Type 0 where
  pub token_use : Option String
  pub jti : Option String
  pub sub : Option String

pub record UserinfoClaims : Type 0 where
  pub sub : String
  pub name : Option String
  pub picture : Option String
  pub sybil_bucket : Option ℕ
  pub minister_anon_epoch : Option ℕ
  pub minister_badges : Option (List String)

pub data Unauthorized : Type 0 where
  bearer_required : Unauthorized
  not_verified : Unauthorized
  not_access : Unauthorized
  missing_jti : Unauthorized
  missing_sub : Unauthorized
  not_recognized : Unauthorized
  revoked : Unauthorized
  expired : Unauthorized

pub data UserinfoResponse : Type 0 where
  limited : ℕ → UserinfoResponse
  unauthorized : Unauthorized → UserinfoResponse
  claims : UserinfoClaims → UserinfoResponse

-- `to_lower` is `toLowerCase`, `verify` is the check of a token's signature, issuer, audience and
-- times, where `none` is a throw, and `badge_jwts` loads the approved badges,
-- as they are minted at the time of the request.
module _ (to_lower : String → String) (verify : String → Option AccessPayload)
    (badge_jwts : Store → String → String → String → List String → List String) where
  unfoldable pub bearer_token : Option String → Option String
  bearer_token authorization =
      let authz = or_empty authorization in
      stop_if (not (is_some (after_prefix "bearer " (to_lower authz)))) none
        (some (trim (slice_from 7 authz)))

  unfoldable pub user_claims : Store → String → AccessToken → User → UserinfoClaims
  user_claims store sub row user =
      let resolved =
        resolve_user_claims user (record { name = row.profile_name; avatar = row.profile_avatar })
          (badge_jwts store row.user_id row.client_id sub row.approved_badge_ids)
          (load_profile_override store row.user_id row.client_id
            (row.profile_name || row.profile_avatar))
          row.sybil_score row.sybil_bucket in
      record {
        sub = sub;
        name = resolved.name;
        picture = resolved.picture;
        sybil_bucket = resolved.sybil_bucket;
        minister_anon_epoch = row.anon_epoch;
        minister_badges = some_if_any resolved.minister_badges;
      }

  -- The row of the token, joined with that of its user, which it refers to.
  unfoldable pub userinfo_of_row : ℕ → Store → String → AccessToken → UserinfoResponse
  userinfo_of_row now store sub row =
      given row.revoked_at
        (stop_if (ltb row.expires_at now) (unauthorized expired) (
          given (lookup store.users row.user_id) (unauthorized not_recognized) (λ user.
            given user.merged_into_user_id (claims (user_claims store sub row user))
              (λ survivor. unauthorized not_recognized))))
        (λ at. unauthorized revoked)

  unfoldable pub userinfo_of_payload : ℕ → Store → AccessPayload → UserinfoResponse
  userinfo_of_payload now store payload =
      stop_if (not (is_text "access" payload.token_use)) (unauthorized not_access) (
        given payload.jti (unauthorized missing_jti) (λ jti.
          required payload.sub (unauthorized missing_sub) (λ sub.
            given (lookup store.tokens jti) (unauthorized not_recognized)
              (λ row. userinfo_of_row now store sub row))))

  -- The endpoint, with the seconds to wait where the limiter refuses.
  unfoldable pub get_userinfo : Option ℕ → ℕ → Option String → Store → UserinfoResponse
  get_userinfo limit now authorization store =
      given limit
        (given (bearer_token authorization) (unauthorized bearer_required) (λ token.
          given (verify token) (unauthorized not_verified)
            (λ payload. userinfo_of_payload now store payload)))
        (λ seconds. limited seconds)
