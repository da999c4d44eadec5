-- ===== src/Oidc/Consent/Tests.antt =====
-- Runs of an approval, and the witnesses of the consent, the grants and the profile.
use minister.Common.{
  ℕ, String, ◌≡◌, refl, Bool, true, false, Option, none, some, [], ◌∷◌, map, lookup, insert,
  string_eq, pair_eq, same_pair, given, stop_if, after_prefix, units, trim, trim_start, trim_end,
  is_space,
}
use minister.Oidc.Authorize.{ValidAuthorizeRequest, requested_badge_types, add_type}
use minister.Oidc.Store.{Badge, Grant, Store}
use minister.Oidc.Claims.{when}
use minister.Oidc.Profile.{
  NormalizedProfile, max_display_name_length, max_avatar_url_length, is_control,
  strip_control_chars, clean, normalize_display_name, normalize_avatar_url_or_null,
  normalize_profile_input,
}
use minister.Oidc.Profile.Limits.{Fits, normalize_profile_input-Fits}
use minister.Oidc.Grants.{
  or_empty_grant, load_grant, add_all, union_types, merge_grant, upsert_grant,
}
use minister.Oidc.Consent.{
  ApproveInput, Approval, redirect, approve_consent, approve_signed_in, parse_input, approved_of,
  candidate_badges, load_badges_for_user, to_policy_user_badge, answer_redirect, anon_epoch_of,
  anon_app, write_approval, grant_of, code_row, upsert_override, write_persona, write_field,
  when_text, or_blank, effective_scopes, is_effective, has_approved, is_requested,
  union_badges_by_id, minimize_to_policy, coerce_attrs,
}
use minister.Oidc.Consent.Discloses.{IsApproval, approve_consent-IsApproval}

abbrev age_badge : Badge
age_badge = record {
  id = "b1";
  user_id = "u1";
  issuer = "did:minister";
  vc_jwt = "stored";
  expires_at = none;
  nullifier_ref = none;
  badge_type = "age";
  attributes = [];
  issued_at = 0;
  status_anchor = none;
}

-- Two badges of the user, of which the request asks for one type.
abbrev tables : Store
tables = record {
  clients = [];
  codes = [];
  tokens = [];
  users = [];
  overrides = some [];
  grants = [];
  subjects = [];
  badges = age_badge ∷ record age_badge { id = "b2"; badge_type = "email" } ∷ [];
  memberships = [];
  enrollments = [];
}

abbrev request : ValidAuthorizeRequest
request = record {
  client_id = "mc_chat";
  client_name = "Chat";
  allowed_scopes = "openid" ∷ "profile" ∷ "badge:age" ∷ [];
  redirect_uri = "https://chat.example/cb";
  scopes = "openid" ∷ "profile" ∷ "badge:age" ∷ [];
  state = "s1";
  nonce = "n1";
  code_challenge = "v1";
  policy = none;
}

abbrev input : ApproveInput
input = record {
  request_token = "jwt";
  approved_badge_ids = "b1" ∷ "b2" ∷ [];
  approve_name = true;
  approve_avatar = false;
  approve_sybil_score = true;
  name_value = some "Ann";
  avatar_value = none;
}

abbrev is_id : String → Bool
is_id s = true

abbrev verified : String → Option ValidAuthorizeRequest
verified token = some request

abbrev https : String → Option String
https link = some "https:"

abbrev same : String → String
same s = s

abbrev at_month : ℕ → ℕ
at_month t = t

abbrev bucket : String → Option ℕ
bucket user_id = some 3

abbrev approve : ApproveInput → Approval × Store
approve sent =
    approve_consent is_id verified https same is_id at_month [] bucket false 1000 "c1" (some "u1")
      sent tables tables

-- The code carries the one badge that was asked for, and no bucket, since no score was.
approve-code : (approve input).0 ≡ redirect "https://chat.example/cb" "c1" "s1"
unfolding approve_consent approve_signed_in parse_input approved_of candidate_badges
    load_badges_for_user to_policy_user_badge answer_redirect anon_epoch_of anon_app write_approval
    grant_of code_row upsert_override write_persona write_field when_text or_blank effective_scopes
    is_effective has_approved is_requested union_badges_by_id minimize_to_policy coerce_attrs
    requested_badge_types add_type when load_grant or_empty_grant add_all union_types merge_grant
    upsert_grant is_control strip_control_chars clean normalize_display_name
    normalize_avatar_url_or_null normalize_profile_input lookup insert same_pair given stop_if
    after_prefix units trim trim_start trim_end is_space
approve-code = refl

approve-badges :
    map (λ entry. entry.1.approved_badge_ids) (approve input).1.codes ≡ ("b1" ∷ []) ∷ []
unfolding approve_consent approve_signed_in parse_input approved_of candidate_badges
    load_badges_for_user to_policy_user_badge answer_redirect anon_epoch_of anon_app write_approval
    grant_of code_row upsert_override write_persona write_field when_text or_blank effective_scopes
    is_effective has_approved is_requested union_badges_by_id minimize_to_policy coerce_attrs
    requested_badge_types add_type when load_grant or_empty_grant add_all union_types merge_grant
    upsert_grant is_control strip_control_chars clean normalize_display_name
    normalize_avatar_url_or_null normalize_profile_input lookup insert same_pair given stop_if
    after_prefix units trim trim_start trim_end is_space
approve-badges = refl

approve_consent-IsApproval_example :
    IsApproval is_id verified https same is_id at_month [] bucket false 1000 "c1" "u1" input tables
      tables
      (approve input)
approve_consent-IsApproval_example =
    approve_consent-IsApproval is_id verified https same is_id at_month [] bucket false 1000 "c1"
      "u1" input tables tables

abbrev age_grant : Grant
age_grant = record {
  badge_types = "age" ∷ [];
  badge_ids = "b1" ∷ [];
  profile_name = true;
  profile_avatar = false;
  sybil_score = false;
}

abbrev ann : NormalizedProfile
ann = record { display_name = some "Ann"; avatar_url = none }

normalize-ann : normalize_profile_input https same is_id " Ann " "" ≡ some ann
unfolding is_control strip_control_chars clean normalize_display_name normalize_avatar_url_or_null
    normalize_profile_input given stop_if units trim trim_start trim_end is_space
normalize-ann = refl

normalize_profile_input-Fits_example :
    Fits max_display_name_length ann.display_name × Fits max_avatar_url_length ann.avatar_url
normalize_profile_input-Fits_example =
    normalize_profile_input-Fits https same is_id " Ann " "" ann normalize-ann
