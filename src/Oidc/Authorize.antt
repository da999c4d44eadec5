-- ===== src/Oidc/Authorize.antt =====
-- apps/minister/src/lib/oidc-authorize.ts: the checks of an authorization request, with the lookup of a
-- client in apps/minister/src/lib/oidc-clients.ts. A client stands under its id, which is unique.
pub mod Valid
mod Tests
use minister.Common.{
  ℕ, String, Bool, true, false, not, Option, none, some, List, [], ◌∷◌, ltb, all, Entries, lookup,
  includes, string_eq, ◌==◌, given, stop_if, required, after_prefix, units, words,
}
use minister.Policy.{
  PolicyNode, policy_bounds_violation, policy_depth, max_policy_depth, policy_badge_types,
}

pub record Client : Type 0 where
  pub name : String
  pub redirect_uris : List String
  pub allowed_scopes : List String
  pub client_secret_hash : Option String
  pub anon_app_id : Option String

pub data OidcError : Type 0 where
  invalid_request : OidcError
  unauthorized_client : OidcError
  access_denied : OidcError
  unsupported_response_type : OidcError
  invalid_scope : OidcError
  server_error : OidcError
  temporarily_unavailable : OidcError

pub data Fatal : Type 0 where
  missing_client_id : Fatal
  unknown_client : Fatal
  invalid_redirect_uri : Fatal

-- The challenge method is always S256.
pub record ValidAuthorizeRequest : Type 0 where
  pub client_id : String
  pub client_name : String
  pub allowed_scopes : List String
  pub redirect_uri : String
  pub scopes : List String
  pub state : String
  pub nonce : String
  pub code_challenge : String
  pub policy : Option PolicyNode

-- An error redirect carries its URI, the state that it echoes and the error.
pub data AuthorizeResult : Type 0 where
  valid : ValidAuthorizeRequest → AuthorizeResult
  redirect_error : String → Option String → OidcError → AuthorizeResult
  fatal : Fatal → AuthorizeResult

pub data PolicyResult : Type 0 where
  parsed : Option PolicyNode → PolicyResult
  refused : OidcError → PolicyResult

abbrev max_policy_bytes : ℕ
max_policy_bytes = 4096

unfoldable pub is_registered_redirect_uri : Client → String → Bool
is_registered_redirect_uri client candidate = includes candidate client.redirect_uris

unfoldable pub add_type : Option String → List String → List String
add_type none types = types
add_type (some type) types = type ∷ types

-- The badge types that the scopes ask for.
unfoldable pub requested_badge_types : List String → List String
requested_badge_types [] = []
requested_badge_types (scope ∷ scopes) =
    add_type (after_prefix "badge:" scope) (requested_badge_types scopes)

unfoldable pub is_violation : Option String → Bool
is_violation none = false
is_violation (some reason) = true

unfoldable pub or_empty : Option String → String
or_empty none = ""
or_empty (some text) = text

unfoldable pub is_text : String → Option String → Bool
is_text text none = false
is_text text (some found) = found == text

-- The limits that a parsed policy meets, and its types against the scopes.
unfoldable pub check_policy : List String → PolicyNode → PolicyResult
check_policy scopes policy =
    stop_if (is_violation (policy_bounds_violation policy)) (refused invalid_request) (
      stop_if (ltb max_policy_depth (policy_depth policy)) (refused invalid_request) (
        stop_if
          (not (
            all (λ type. includes type (requested_badge_types scopes)) (policy_badge_types policy)))
          (refused invalid_scope) (parsed (some policy))))

-- `Buffer.from(text, "base64url")` read as UTF-8, `JSON.parse` and the parser that zod builds from the
-- schema of a policy; each is `none` where it throws.
module _ {Json : Type 0} (decode : String → Option String) (parse_json : String → Option Json)
    (parse_policy : Json → Option PolicyNode) where
  unfoldable pub parse_minister_policy : Option String → List String → PolicyResult
  parse_minister_policy raw_param scopes = required raw_param (parsed none) (λ param.
      given (decode param) (refused invalid_request) (λ json.
        stop_if (ltb max_policy_bytes (units json)) (refused invalid_request) (
          given (parse_json json) (refused invalid_request) (λ value.
            given (parse_policy value) (refused invalid_scope)
              (λ policy. check_policy scopes policy)))))

  unfoldable pub with_policy :
      PolicyResult
      → (OidcError → AuthorizeResult)
      → (Option PolicyNode → AuthorizeResult)
      → AuthorizeResult
  with_policy (parsed policy) stop k = k policy
  with_policy (refused e) stop k = stop e

  -- The checks that come once the redirect URI is known to be the client's.
  unfoldable pub validate_parameters :
      (String → Option String) → String → Client → String → AuthorizeResult
  validate_parameters raw client_id client redirect_uri =
      let scopes = words (or_empty (raw "scope")) in
      let refuse = redirect_error redirect_uri (raw "state") in
      stop_if (not (is_text "code" (raw "response_type"))) (refuse unsupported_response_type) (
        required (raw "state") (redirect_error redirect_uri none invalid_request) (λ state.
          required (raw "nonce") (refuse invalid_request) (λ nonce.
            required (raw "code_challenge") (refuse invalid_request) (λ challenge.
              stop_if (not (is_text "S256" (raw "code_challenge_method"))) (refuse invalid_request)
                (stop_if (not (includes "openid" scopes)) (refuse invalid_scope) (
                  stop_if (not (all (λ s. includes s client.allowed_scopes) scopes))
                    (refuse invalid_scope)
                    (with_policy (parse_minister_policy (raw "minister_policy") scopes) refuse
                      (λ policy. valid (record {
                        client_id = client_id;
                        client_name = client.name;
                        allowed_scopes = client.allowed_scopes;
                        redirect_uri = redirect_uri;
                        scopes = scopes;
                        state = state;
                        nonce = nonce;
                        code_challenge = challenge;
                        policy = policy;
                      })))))))))

  unfoldable pub validate_authorize_request :
      Entries String Client → (String → Option String) → AuthorizeResult
  validate_authorize_request clients raw =
      required (raw "client_id") (fatal missing_client_id) (λ client_id.
        given (lookup clients client_id) (fatal unknown_client) (λ client.
          required (raw "redirect_uri") (fatal invalid_redirect_uri) (λ redirect_uri.
            stop_if (not (is_registered_redirect_uri client redirect_uri))
              (fatal invalid_redirect_uri)
              (validate_parameters raw client_id client redirect_uri))))
