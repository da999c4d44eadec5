-- ===== src/Oidc/Flow/Tests.antt =====
-- A user who approves a request, and the app that redeems the code.
use minister.Common.{
  ℕ, String, refl, Bool, true, false, Option, none, some, List, [], ◌∷◌, arith, Entries, lookup,
  insert, string_eq, pair_eq, same_pair, given, stop_if, required, after_prefix, contains, units,
  trim, trim_start, trim_end, is_space, ◌==◌, if◌then◌else◌,
}
use minister.Oidc.Authorize.{
  ValidAuthorizeRequest, requested_badge_types, add_type, is_text, or_empty,
}
use minister.Oidc.Store.{User, Store}
use minister.Oidc.Claims.{when}
use minister.Oidc.Profile.{
  is_control, strip_control_chars, clean, normalize_display_name, normalize_avatar_url_or_null,
  normalize_profile_input,
}
use minister.Oidc.Grants.{
  or_empty_grant, load_grant, add_all, union_types, merge_grant, upsert_grant,
}
use minister.Oidc.Consent.{
  ApproveInput, Approval, approve_consent, approve_signed_in, parse_input, approved_of,
  candidate_badges, load_badges_for_user, to_policy_user_badge, answer_redirect, anon_epoch_of,
  anon_app, write_approval, grant_of, code_row, upsert_override, write_persona, write_field,
  when_text, or_blank, effective_scopes, is_effective, has_approved, is_requested,
  union_badges_by_id, minimize_to_policy, coerce_attrs,
}
use minister.Oidc.Token.{
  TokenRequest, Exchange, or_creds, decode_pair, basic_creds, read_client_credentials, authenticate,
  authenticate_client, admit, verify_pkce_s256, same_bytes, consume, post_token,
}
use minister.Oidc.Flow.{IsGranted, IsDelivery, approve_consent-delivers}

abbrev user : User
user = record {
  display_name = some "Ann";
  avatar_url = none;
  merged_into_user_id = none;
  dedup_handle = none;
}

abbrev tables : Store
tables = record {
  clients =
      (
        "mc_chat",
        record {
          name = "Chat";
          redirect_uris = "https://chat.example/cb" ∷ [];
          allowed_scopes = "openid" ∷ "badge:age" ∷ [];
          client_secret_hash = none;
          anon_app_id = none;
        },
      )
      ∷ [];
  codes = [];
  tokens = [];
  users = ("u1", user) ∷ [];
  overrides = some [];
  grants = [];
  subjects = [];
  badges =
      record {
        id = "b1";
        user_id = "u1";
        issuer = "did:minister";
        vc_jwt = "stored";
        expires_at = none;
        nullifier_ref = none;
        badge_type = "age";
        attributes = [];
        issued_at = 0;
        status_anchor = none;
      }
      ∷ [];
  memberships = [];
  enrollments = [];
}

abbrev request : ValidAuthorizeRequest
request = record {
  client_id = "mc_chat";
  client_name = "Chat";
  allowed_scopes = "openid" ∷ "badge:age" ∷ [];
  redirect_uri = "https://chat.example/cb";
  scopes = "openid" ∷ "badge:age" ∷ [];
  state = "s1";
  nonce = "n1";
  code_challenge = "v1";
  policy = none;
}

abbrev input : ApproveInput
input = record {
  request_token = "jwt";
  approved_badge_ids = "b1" ∷ [];
  approve_name = false;
  approve_avatar = false;
  approve_sybil_score = false;
  name_value = none;
  avatar_value = none;
}

abbrev any_id : String → Bool
any_id s = true

abbrev verified : String → Option ValidAuthorizeRequest
verified token = some request

abbrev https : String → Option String
https link = some "https:"

abbrev same : String → String
same s = s

abbrev at_month : ℕ → ℕ
at_month t = t

abbrev bucket : String → Option ℕ
bucket user_id = some 3

abbrev digest : String → List ℕ
digest s = if s == "v1" then 1 ∷ [] else []

abbrev component : String → Option String
component s = some s

abbrev any_secret : String → String → Bool
any_secret secret hash = secret == hash

abbrev jwts : Store → String → String → String → List String → List String
jwts store user_id client_id sub ids = ids

abbrev approved : Approval × Store
approved =
    approve_consent any_id verified https same any_id at_month [] bucket false 1000 "c1" (some "u1")
      input tables tables

abbrev form : Entries String String
form =
    ("grant_type", "authorization_code")
    ∷ ("code", "c1")
    ∷ ("redirect_uri", "https://chat.example/cb")
    ∷ ("code_verifier", "v1")
    ∷ ("client_id", "mc_chat")
    ∷ []

abbrev token_request : TokenRequest
token_request = record {
  content_type = some "application/x-www-form-urlencoded";
  authorization = none;
  form = λ key. lookup form key;
}

abbrev x : Exchange
x = record {
  client_id = "mc_chat";
  client = record {
    name = "Chat";
    redirect_uris = "https://chat.example/cb" ∷ [];
    allowed_scopes = "openid" ∷ "badge:age" ∷ [];
    client_secret_hash = none;
    anon_app_id = none;
  };
  code = "c1";
  redirect_uri = "https://chat.example/cb";
  code_verifier = "v1";
}

approve_consent-delivers_example :
    IsDelivery any_id verified https same any_id at_month [] bucket false same component any_secret
      digest digest same jwts 1000 tables approved.1
      (consume 5000 "c1" approved.1).1
      "c1"
      "u1"
      request
      input
      (post_token same component any_secret digest digest same jwts none 5000 "j1" token_request
        approved.1
        (consume 5000 "c1" approved.1).1)
unfolding approve_consent approve_signed_in parse_input approved_of candidate_badges
    load_badges_for_user to_policy_user_badge answer_redirect anon_epoch_of anon_app write_approval
    grant_of code_row upsert_override write_persona write_field when_text or_blank effective_scopes
    is_effective has_approved is_requested union_badges_by_id minimize_to_policy coerce_attrs
    requested_badge_types add_type when load_grant or_empty_grant add_all union_types merge_grant
    upsert_grant is_control strip_control_chars clean normalize_display_name
    normalize_avatar_url_or_null normalize_profile_input lookup insert same_pair given stop_if
    after_prefix units trim trim_start trim_end is_space IsGranted admit is_text or_empty required
    contains read_client_credentials or_creds basic_creds decode_pair authenticate_client
    authenticate verify_pkce_s256 same_bytes
approve_consent-delivers_example =
    approve_consent-delivers any_id verified https same any_id at_month [] bucket false same
      component any_secret digest digest same jwts 1000 5000 "c1" "u1" "j1" input tables tables
      approved.1 request approved.0 token_request x user refl tt refl (omega arith) refl refl refl
      refl refl refl refl
