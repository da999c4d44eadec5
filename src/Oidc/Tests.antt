-- ===== src/Oidc/Tests.antt =====
-- Runs of the endpoints for one app and one user, and the witnesses.
use minister.Common.{
  ℕ, String, ◌≡◌, ◌≢◌, refl, Option, none, some, List, [], ◌∷◌, arith, Entries, lookup, insert,
  erase, string_eq, pair_eq, same_pair, ◌==◌, given, stop_if, required, after_prefix, contains,
  slice_from, trim, trim_start, trim_end, is_space, if◌then◌else◌,
}
use minister.Oidc.Authorize.{is_text, or_empty}
use minister.Oidc.Store.{AccessToken, Store}
use minister.Oidc.ReMint.{
  erase_all, strip_reserved_claims, override_role, stamp_nullifier, stamp_claims, or_context,
  no_later, cap_seconds, disclosed_exp, is_empty, sanitize_disclosed_claims, sign_copy, re_mint_vc,
}
use minister.Oidc.Claims.{
  truthy, add_disclosed, is_disclosable, owner_handle, with_nullifier, with_role, with_status,
  disclose_badge, disclose_all, load_approved_badge_jwts, resolve_user_claims, resolve_name,
  resolve_picture, when, load_profile_override, find_override,
}
use minister.Oidc.Claims.Disclosed.{load_approved_badge_jwts-ignores}
use minister.Oidc.Token.{
  issued, token_error, pkce_failed, some_if_any, same_bytes, consume_row, is_unconsumed, consume_if,
  consume_found, consume, or_creds, decode_pair, basic_creds, read_client_credentials, authenticate,
  authenticate_client, admit, verify_pkce_s256, pairwise_sub_input, or_pairwise, resolve_sub,
  resolve_claims, mint_id_token, access_token_row, mint_tokens, redeem, after_consume, exchange,
  post_token,
}
use minister.Oidc.Token.Issued.{IsResponse, post_token-IsResponse}
use minister.Oidc.Token.Once.{stay, answer, post_token-once}
use minister.Oidc.Userinfo.{AccessPayload, bearer_token, get_userinfo}
use minister.Oidc.Userinfo.Agrees.{IsAgreed, payload_of, get_userinfo-agrees}
use minister.Oidc.Example.{
  tables, request, digest, keyed, component, any_secret, nullifier_of, first_seen, allocated,
  jti_of, minted, badges, post, access, id_token, consumed_tables, last_tables,
}

post-issued :
    post (request "v1") tables consumed_tables
    ≡ (issued access id_token, consumed_tables, last_tables)
unfolding post_token exchange after_consume redeem mint_tokens access_token_row mint_id_token
    resolve_claims resolve_sub or_pairwise pairwise_sub_input verify_pkce_s256 admit
    authenticate_client authenticate read_client_credentials basic_creds decode_pair or_creds
    consume consume_found consume_if is_unconsumed consume_row same_bytes some_if_any find_override
    load_profile_override when resolve_picture resolve_name resolve_user_claims
    load_approved_badge_jwts disclose_all disclose_badge with_status with_role with_nullifier
    owner_handle is_disclosable add_disclosed contains after_prefix given stop_if required lookup
    insert is_text or_empty same_pair truthy re_mint_vc sign_copy sanitize_disclosed_claims
    disclosed_exp cap_seconds no_later or_context stamp_claims stamp_nullifier override_role
    strip_reserved_claims erase_all erase is_empty
post-issued = refl

-- A wrong verifier is refused, and the code is spent all the same.
post-wrong_verifier :
    post (request "v2") tables consumed_tables
    ≡ (token_error pkce_failed, consumed_tables, consumed_tables)
unfolding post_token exchange after_consume redeem verify_pkce_s256 admit authenticate_client
    authenticate read_client_credentials basic_creds decode_pair or_creds consume consume_found
    consume_if is_unconsumed consume_row same_bytes contains after_prefix given stop_if required
    lookup insert is_text or_empty
post-wrong_verifier = refl

post_token-IsResponse_example :
    IsResponse keyed component any_secret digest digest keyed
      (badges 1000)
      1000
      "t1"
      (request "v1")
      tables
      consumed_tables
      (post (request "v1") tables consumed_tables)
post_token-IsResponse_example =
    post_token-IsResponse keyed component any_secret digest digest keyed (badges 1000) none 1000
      "t1" (request "v1") tables consumed_tables

answer-issued :
    answer keyed component any_secret digest digest keyed badges none 1000 "t1"
      (request "v1")
      tables
      consumed_tables
    ≡ (issued access id_token, consumed_tables, last_tables)
unfolding answer
answer-issued = post-issued

form-code : (request "v1").form "code" ≡ some "c1"
unfolding lookup
form-code = refl

post_token-once_example :
    (answer keyed component any_secret digest digest keyed badges none 2000 "t2"
      (request "v1")
      consumed_tables
      last_tables).0
    ≢ issued (record access { jti = "t2" }) id_token
post_token-once_example =
    post_token-once keyed component any_secret digest digest keyed badges none none 1000 2000 "t1"
      "t2" "c1" (request "v1") (request "v1") ("c1" ∷ []) tables consumed_tables consumed_tables
      last_tables last_tables (record { store = consumed_tables; made = "c1" ∷ [] }) access
      (record access { jti = "t2" }) id_token id_token form-code form-code refl answer-issued stay

abbrev to_lower : String → String
to_lower s = if s == "Bearer jwt" then "bearer jwt" else s

abbrev verify : String → Option AccessPayload
verify token = some (record { token_use = some "access"; jti = some "t1"; sub = some "u1:mc_chat" })

jwt-payload : verify "jwt" ≡ some (payload_of access)
unfolding payload_of
jwt-payload = refl

bearer-jwt : bearer_token to_lower verify (badges 2000) (some "Bearer jwt") ≡ some "jwt"
unfolding bearer_token or_empty stop_if after_prefix slice_from trim trim_start trim_end is_space
bearer-jwt = refl

badges-ignore :
    (now : ℕ) (store : Store) (tokens : Entries String AccessToken) (user_id client_id sub : String)
    (ids : List String)
    → badges now (record store { tokens = tokens }) user_id client_id sub ids
      ≡ badges now store user_id client_id sub ids
badges-ignore now store tokens user_id client_id sub ids =
    load_approved_badge_jwts-ignores nullifier_of first_seen allocated jti_of (minted now) store
      tokens "did:minister" user_id client_id sub ids

get_userinfo-agrees_example :
    IsAgreed keyed component any_secret digest digest keyed badges to_lower verify badges-ignore
      1000 2000 consumed_tables last_tables access id_token
      (get_userinfo to_lower verify (badges 2000) none 2000 (some "Bearer jwt") last_tables)
get_userinfo-agrees_example =
    get_userinfo-agrees keyed component any_secret digest digest keyed badges to_lower verify
      badges-ignore none 1000 2000 "t1" (request "v1") tables consumed_tables consumed_tables
      last_tables access id_token (some "Bearer jwt") "jwt" post-issued bearer-jwt jwt-payload
      (omega arith) refl
