-- ===== src/Oidc/Authorize/Tests.antt =====
-- Runs of the checks of an authorization request, and the witnesses.
use minister.Common.{
  String, ◌≡◌, refl, Option, none, some, [], ◌∷◌, is_space, Entries, lookup, insert, string_eq,
  given, stop_if, required, after_prefix, units, words,
}
use minister.Policy.{
  PolicyNode, leaf, policy_bounds_violation, walk, walk_nodes, policy_depth, policy_badge_types,
  collect_types, collect_types_all, max_child_depth,
}
use minister.Oidc.Authorize.{
  Client, AuthorizeResult, ValidAuthorizeRequest, valid, redirect_error, fatal, unknown_client,
  unsupported_response_type, invalid_scope, is_registered_redirect_uri, requested_badge_types,
  add_type, is_violation, or_empty, is_text, check_policy, parse_minister_policy, with_policy,
  validate_parameters, validate_authorize_request,
}
use minister.Oidc.Authorize.Valid.{
  IsChecked, IsSound, validate_authorize_request-IsChecked, validate_authorize_request-IsSound,
}

abbrev chat : Client
chat = record {
  name = "Chat";
  redirect_uris = "https://chat.example/callback" ∷ [];
  allowed_scopes = "openid" ∷ "badge:age" ∷ [];
  client_secret_hash = none;
  anon_app_id = none;
}

abbrev clients : Entries String Client
clients = ("mc_chat", chat) ∷ []

abbrev parameters : Entries String String
parameters =
    ("client_id", "mc_chat")
    ∷ ("redirect_uri", "https://chat.example/callback")
    ∷ ("response_type", "code")
    ∷ ("state", "s1")
    ∷ ("nonce", "n1")
    ∷ ("code_challenge", "hash of v1")
    ∷ ("code_challenge_method", "S256")
    ∷ ("scope", "openid  badge:age")
    ∷ ("minister_policy", "age")
    ∷ []

-- A policy is written as the badge type of its only leaf.
abbrev type_leaf : String → Option PolicyNode
type_leaf type = some (leaf (record { badge_type = type; where_attrs = none; max_age_days = none }))

abbrev validate : Entries String String → AuthorizeResult
validate query =
    validate_authorize_request (λ s. some s) (λ s. some s) type_leaf clients
      (λ key. lookup query key)

abbrev accepted : ValidAuthorizeRequest
accepted = record {
  client_id = "mc_chat";
  client_name = "Chat";
  allowed_scopes = "openid" ∷ "badge:age" ∷ [];
  redirect_uri = "https://chat.example/callback";
  scopes = "openid" ∷ "badge:age" ∷ [];
  state = "s1";
  nonce = "n1";
  code_challenge = "hash of v1";
  policy = type_leaf "age";
}

validate-accepted : validate parameters ≡ valid accepted
unfolding validate_authorize_request validate_parameters lookup given stop_if required after_prefix
    units words with_policy parse_minister_policy check_policy is_text or_empty is_violation
    add_type requested_badge_types is_registered_redirect_uri policy_bounds_violation walk
    walk_nodes policy_depth policy_badge_types collect_types collect_types_all max_child_depth
    is_space
validate-accepted = refl

validate-wrong_type :
    validate (insert parameters "response_type" "token")
    ≡ redirect_error "https://chat.example/callback" (some "s1") unsupported_response_type
unfolding validate_authorize_request validate_parameters lookup insert given stop_if required
    is_text is_registered_redirect_uri
validate-wrong_type = refl

validate-no_scope :
    validate (insert parameters "scope" "openid")
    ≡ redirect_error "https://chat.example/callback" (some "s1") invalid_scope
unfolding validate_authorize_request validate_parameters lookup insert given stop_if required
    after_prefix units words with_policy parse_minister_policy check_policy is_text or_empty
    is_violation add_type requested_badge_types is_registered_redirect_uri policy_bounds_violation
    walk walk_nodes policy_depth policy_badge_types collect_types collect_types_all max_child_depth
    is_space
validate-no_scope = refl

validate-unknown : validate (insert parameters "client_id" "mc_other") ≡ fatal unknown_client
unfolding validate_authorize_request lookup insert given required
validate-unknown = refl

validate_authorize_request-IsChecked_example :
    IsChecked
      (λ s. some s)
      (λ s. some s)
      type_leaf
      clients
      (λ key. lookup (insert parameters "response_type" "token") key)
      (validate (insert parameters "response_type" "token"))
validate_authorize_request-IsChecked_example =
    validate_authorize_request-IsChecked (λ s. some s) (λ s. some s) type_leaf clients
      (λ key. lookup (insert parameters "response_type" "token") key)

validate_authorize_request-IsSound_example :
    (client : Client) × IsSound clients (λ key. lookup parameters key) accepted client
validate_authorize_request-IsSound_example =
    validate_authorize_request-IsSound (λ s. some s) (λ s. some s) type_leaf clients
      (λ key. lookup parameters key) accepted validate-accepted
