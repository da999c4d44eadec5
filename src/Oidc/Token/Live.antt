-- ===== src/Oidc/Token/Live.antt =====
-- A request that passes every check of the token endpoint is given tokens.
use minister.Common.{
  ℕ, String, ◌≡◌, refl, ◌∙◌, ◌≤◌, Bool, true, false, not, Option, none, some, List, arith, ltb,
  lookup, insert, lookup-insert, string_eq, ◌==◌, eq_iff, same_refl, given, stop_if,
}
use minister.Oidc.Store.{AuthCode, User, Store}
use minister.Oidc.Token.{
  TokenRequest, Exchange, admitted, is_unconsumed, consume_row, consume_if, consume_found, consume,
  admit, mint_tokens, redeem, after_consume, exchange, post_token,
}
use minister.Oidc.Token.Issued.{IsFor}

in_time : (a b : ℕ) → a ≤ b → ltb b a ≡ false
in_time a b h = ground arith

passes : (s t : String) → s ≡ t → not (s == t) ≡ false
passes s t p = ground (arith, eq_iff s t, p)

consume-succeeds :
    (now : ℕ) (code : String) (row : AuthCode) (store : Store)
    → lookup store.codes code ≡ some row
    → row.consumed_at ≡ none
    → consume now code store
      ≡ (true, record store { codes = insert store.codes code (consume_row now row) })
unfolding consume consume_found consume_if is_unconsumed
consume-succeeds now code row store found fresh = rw (found, fresh) refl

-- The row of a code that was consumed, and the users, which stay.
pub consumed-row :
    (now : ℕ) (code : String) (row : AuthCode) (store : Store)
    → lookup store.codes code ≡ some row
    → row.consumed_at ≡ none
    → (lookup (consume now code store).1.codes code ≡ some (consume_row now row))
      × ((consume now code store).1.users ≡ store.users)
consumed-row now code row store found fresh =
    rw (consume-succeeds now code row store found fresh)
      (lookup-insert store.codes code code (consume_row now row) ∙ rw (same_refl code) refl, refl)

module _ (decode_basic : String → String) (decode_component : String → Option String)
    (verify_secret : String → String → Bool) (sha256 : String → List ℕ)
    (challenge_bytes : String → List ℕ) (pairwise_sub : String → String)
    (badge_jwts : Store → String → String → String → List String → List String) where
  redeem-mints :
      (now : ℕ) (jti : String) (x : Exchange) (stored : AuthCode) (user : User) (store : Store)
      → IsFor decode_basic decode_component verify_secret sha256 challenge_bytes pairwise_sub
          badge_jwts now x stored
      → lookup store.users stored.user_id ≡ some user
      → user.merged_into_user_id ≡ none
      → redeem decode_basic decode_component verify_secret sha256 challenge_bytes pairwise_sub
          badge_jwts now jti x
          (some stored)
          store
        ≡ mint_tokens decode_basic decode_component verify_secret sha256 challenge_bytes
            pairwise_sub badge_jwts now jti x stored user store
  unfolding redeem given stop_if IsFor
  redeem-mints now jti x stored user store (fresh, client, uri, method, pkce) known alone =
      rw
        (
          in_time now stored.expires_at fresh,
          passes stored.client_id x.client_id client,
          passes stored.redirect_uri x.redirect_uri uri,
          passes stored.code_challenge_method "S256" method,
          pkce,
          known,
          alone,
        )
        refl

  -- A request that is admitted, with a code that is not consumed, and is still the client's, in
  -- time and met by the verifier when its row is read again, is given the tokens of that row.
  pub post_token-issues :
      (now : ℕ) (jti : String) (request : TokenRequest) (x : Exchange) (row stored : AuthCode)
      (user : User) (store later : Store)
      → admit decode_basic decode_component verify_secret sha256 challenge_bytes pairwise_sub
          badge_jwts store.clients request
        ≡ admitted x
      → lookup store.codes x.code ≡ some row
      → row.consumed_at ≡ none
      → lookup later.codes x.code ≡ some stored
      → IsFor decode_basic decode_component verify_secret sha256 challenge_bytes pairwise_sub
          badge_jwts now x stored
      → lookup later.users stored.user_id ≡ some user
      → user.merged_into_user_id ≡ none
      → let minted =
          mint_tokens decode_basic decode_component verify_secret sha256 challenge_bytes
            pairwise_sub badge_jwts now jti x stored user later in
        post_token decode_basic decode_component verify_secret sha256 challenge_bytes pairwise_sub
          badge_jwts none now jti request store later
        ≡ (
          minted.0,
          record store { codes = insert store.codes x.code (consume_row now row) },
          minted.1,
        )
  unfolding post_token exchange after_consume
  post_token-issues now jti request x row stored user store later pass found fresh again good known
        alone =
      rw
        (
          pass,
          consume-succeeds now x.code row store found fresh,
          again,
          redeem-mints now jti x stored user later good known alone,
        )
        refl
