-- ===== src/Oidc/Userinfo/Agrees.antt =====
-- The userinfo endpoint tells an app what its ID token said, with the badges minted anew.
use minister.Common.{
  ℕ, ◌+◌, ◌*◌, ◌≤◌, String, ◌≡◌, refl, Bool, false, Option, none, some, List, arith, lookup, insert,
  lookup-insert, same_refl, string_eq, ◌==◌, ltb, given, stop_if, required, Entries,
}
use minister.Oidc.Authorize.{is_text}
use minister.Oidc.Store.{AuthCode, AccessToken, User, Store}
use minister.Oidc.Claims.{resolve_user_claims, load_profile_override}
use minister.Oidc.Token.{
  TokenRequest, IdTokenClaims, AccessTokenClaims, TokenResponse, issued, Exchange, access_token_ttl,
  access_token_row, resolve_claims, mint_id_token, mint_tokens, post_token, some_if_any,
}
use minister.Oidc.Token.Issued.{IsResponse, IsIssued, post_token-IsResponse}
use minister.Oidc.Userinfo.{
  AccessPayload, UserinfoClaims, UserinfoResponse, claims, user_claims, userinfo_of_row,
  userinfo_of_payload, get_userinfo, bearer_token,
}

-- The claims of an ID token that the userinfo endpoint has too.
unfoldable pub shared_claims : IdTokenClaims → UserinfoClaims
shared_claims id = record {
  sub = id.sub;
  name = id.name;
  picture = id.picture;
  sybil_bucket = id.sybil_bucket;
  minister_anon_epoch = id.minister_anon_epoch;
  minister_badges = id.minister_badges;
}

-- The payload of an access token.
unfoldable pub payload_of : AccessTokenClaims → AccessPayload
payload_of access = record {
  token_use = some "access";
  jti = some access.jti;
  sub = some access.sub;
}

module _ (decode_basic : String → String) (decode_component : String → Option String)
    (verify_secret : String → String → Bool) (sha256 : String → List ℕ)
    (challenge_bytes : String → List ℕ) (pairwise_sub : String → String)
    (badge_jwts : ℕ → Store → String → String → String → List String → List String)
    (to_lower : String → String) (verify : String → Option AccessPayload)
    (ignores_tokens : (now : ℕ) (store : Store) (tokens : Entries String AccessToken)
        (user_id client_id sub : String) (ids : List String)
      → badge_jwts now (record store { tokens = tokens }) user_id client_id sub ids
        ≡ badge_jwts now store user_id client_id sub ids) where
  -- The answer for an access token that was issued with an ID token: its claims, but for the badges. Both
  -- have the badges of the row of the token, each as minted at its time.
  unfoldable pub IsAgreed :
      ℕ → ℕ → Store → Store → AccessTokenClaims → IdTokenClaims → UserinfoResponse → Type 0
  IsAgreed now now2 later last access id answer =
      (row : AccessToken) × (lookup last.tokens access.jti ≡ some row)
      × (id.minister_badges
          ≡ some_if_any
              (badge_jwts now later row.user_id row.client_id id.sub row.approved_badge_ids))
      × (answer
          ≡ claims (record (shared_claims id) {
            minister_badges =
                some_if_any
                  (badge_jwts now2 later row.user_id row.client_id id.sub row.approved_badge_ids);
          }))

  -- The claims that the access token of a code gives, and those of its ID token.
  minted_claims :
      (now now2 : ℕ) (jti sub client_id : String) (stored : AuthCode) (user : User) (store : Store)
      → lookup store.users stored.user_id ≡ some user
      → user.merged_into_user_id ≡ none
      → now2 ≤ now + access_token_ttl * 1000
      → (sub == "") ≡ false
      → userinfo_of_payload to_lower verify
          (badge_jwts now2)
          now2
          (record store {
            tokens = insert store.tokens jti (
                access_token_row decode_basic decode_component verify_secret sha256 challenge_bytes
                  pairwise_sub
                  (badge_jwts now)
                  now
                  client_id
                  stored);
          })
          (record { token_use = some "access"; jti = some jti; sub = some sub })
        ≡ claims
            (record (shared_claims (
              mint_id_token decode_basic decode_component verify_secret sha256 challenge_bytes
                pairwise_sub
                (badge_jwts now)
                sub
                client_id
                stored
                (resolve_claims decode_basic decode_component verify_secret sha256 challenge_bytes
                  pairwise_sub
                  (badge_jwts now)
                  store
                  user
                  stored.user_id
                  client_id
                  sub
                  stored))) {
                    minister_badges = some_if_any (
                        badge_jwts now2 store stored.user_id client_id sub
                          stored.approved_badge_ids);
                  })
  unfolding userinfo_of_payload userinfo_of_row given stop_if required is_text access_token_row
      user_claims shared_claims mint_id_token resolve_claims resolve_user_claims
      load_profile_override
  minted_claims now now2 jti sub client_id stored user store known alone in_time named =
      let row =
        access_token_row decode_basic decode_component verify_secret sha256 challenge_bytes
          pairwise_sub (badge_jwts now) now client_id stored in
      let fresh : ltb (now + access_token_ttl * 1000) now2 ≡ false = ground (arith, in_time) in
      rw
        (
          named,
          lookup-insert store.tokens jti jti row,
          same_refl jti,
          fresh,
          known,
          alone,
          ignores_tokens now2,
        )
        refl

  issued_parts :
      (a b : AccessTokenClaims) (i j : IdTokenClaims) (last store : Store)
      → ◌≡◌ {A = TokenResponse × Store} (issued a i, last) (issued b j, store)
      → (a ≡ b) × (i ≡ j) × (last ≡ store)
  issued_parts a b i j last store e = (cc, cc, cc)

  mint_tokens-agrees :
      (now now2 : ℕ) (jti : String) (x : Exchange) (stored : AuthCode) (user : User)
      (store last : Store) (access : AccessTokenClaims) (id : IdTokenClaims)
      → (issued access id, last)
        ≡ mint_tokens decode_basic decode_component verify_secret sha256 challenge_bytes
            pairwise_sub
            (badge_jwts now)
            now
            jti
            x
            stored
            user
            store
      → lookup store.users stored.user_id ≡ some user
      → user.merged_into_user_id ≡ none
      → now2 ≤ now + access_token_ttl * 1000
      → (access.sub == "") ≡ false
      → IsAgreed now now2 store last access id
          (userinfo_of_payload to_lower verify (badge_jwts now2) now2 last (payload_of access))
  unfolding mint_tokens payload_of IsAgreed access_token_row mint_id_token resolve_claims
      resolve_user_claims
  mint_tokens-agrees now now2 jti x stored user store last access id e known alone in_time named =
      let (same_access, same_id, same_store) = issued_parts access _ id _ last _ e in
      let named2 = rw same_access at named in
      let row =
        access_token_row decode_basic decode_component verify_secret sha256 challenge_bytes
          pairwise_sub (badge_jwts now) now x.client_id stored in
      rw (same_access, same_id, same_store)
        ((
          row,
          rw (lookup-insert store.tokens jti jti row, same_refl jti) refl,
          refl,
          minted_claims now now2 jti _ x.client_id stored user store known alone in_time named2,
        ))

  -- An app that was issued an access token and an ID token, and presents the access token before it
  -- expires and before the tables change, is told by the userinfo endpoint the claims of the ID
  -- token: subject, name, picture, sybil bucket and epoch are the same; and the badges of both are
  -- those approved in the row of the access token, for its user and app and the same subject, each
  -- minted at the time of its request. The subject is not empty, the signature verifies, and the
  -- badges do not depend on the rows of access tokens.
  pub get_userinfo-agrees :
      (limit : Option ℕ) (now now2 : ℕ) (jti : String) (request : TokenRequest)
      (store later consumed last : Store) (access : AccessTokenClaims) (id : IdTokenClaims)
      (authorization : Option String) (token : String)
      → post_token decode_basic decode_component verify_secret sha256 challenge_bytes pairwise_sub
          (badge_jwts now)
          limit
          now
          jti
          request
          store
          later
        ≡ (issued access id, consumed, last)
      → bearer_token to_lower verify (badge_jwts now2) authorization ≡ some token
      → verify token ≡ some (payload_of access)
      → now2 ≤ now + access_token_ttl * 1000
      → (access.sub == "") ≡ false
      → IsAgreed now now2 later last access id
          (get_userinfo to_lower verify (badge_jwts now2) none now2 authorization last)
  unfolding get_userinfo given IsResponse IsIssued
  get_userinfo-agrees limit now now2 jti request store later consumed last access id authorization
        token e bearer verified in_time named =
      let response : IsResponse decode_basic decode_component verify_secret sha256 challenge_bytes
          pairwise_sub (badge_jwts now) now jti request store later
          (post_token decode_basic decode_component verify_secret sha256 challenge_bytes
            pairwise_sub (badge_jwts now) limit now jti request store later) =
        post_token-IsResponse decode_basic decode_component verify_secret sha256 challenge_bytes
          pairwise_sub (badge_jwts now) limit now jti request store later in
      let (x, row, stored, user, posted, auth, found, fresh, c, kept, good, known, alone, minted) =
        rw e at response in
      rw (bearer, verified)
        (mint_tokens-agrees now now2 jti x stored user later last access id minted known alone
          in_time named)
