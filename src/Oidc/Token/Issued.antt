-- ===== src/Oidc/Token/Issued.antt =====
-- What the token endpoint has checked when it issues tokens, and what a refusal leaves.
use minister.Common.{
  ℕ, String, ◌≡◌, refl, ◌≢◌, ◌≤◌, ◌⊎◌, inl, inr, Bool, true, false, not, Option, none, some, List,
  arith, Option-cases, Entries, lookup, string_eq, ◌==◌, eq_iff, given-rule, stop_if-rule,
  required-rule,
}
use minister.Oidc.Authorize.{Client}
use minister.Oidc.Store.{AuthCode, User, Store}
use minister.Oidc.Token.{
  TokenRequest, ClientCreds, IdTokenClaims, AccessTokenClaims, TokenResponse, rate_limited,
  token_error, client_error, issued, Exchange, Admission, admitted, rejected, is_unconsumed,
  consume_if, consume_found, consume, read_client_credentials, authenticate, authenticate_client,
  admit, verify_pkce_s256, mint_tokens, redeem, after_consume, exchange, post_token, code_used,
}

is_same : (s t : String) → not (s == t) ≡ false → s ≡ t
is_same s t h = (eq_iff s t).0 (ground (arith, h))

one_hash :
    (verify_secret : String → String → Bool) (o : Option String) (hash other secret : String)
    → o ≡ some hash
    → o ≡ some other
    → not (verify_secret secret hash) ≡ false
    → verify_secret secret other ≡ true
one_hash verify_secret o hash other secret e f h = ground (arith, e, f, h)

module _ (decode_basic : String → String) (decode_component : String → Option String)
    (verify_secret : String → String → Bool) (sha256 : String → List ℕ)
    (challenge_bytes : String → List ℕ) (pairwise_sub : String → String)
    (badge_jwts : Store → String → String → String → List String → List String) where
  -- The client that the request names is known, and has shown its secret if it has one.
  unfoldable pub IsAuthenticated : Entries String Client → ClientCreds → String → Client → Type 0
  IsAuthenticated clients creds client_id client =
      (creds.client_id ≡ some client_id)
      × (lookup clients client_id ≡ some client)
      × ((hash : String)
          → client.client_secret_hash ≡ some hash
          → (hash == "") ≡ false
          → (secret : String) × (creds.client_secret ≡ some secret)
            × (verify_secret secret hash ≡ true))

  -- What the code of an exchange is known to be: of the client, for the redirect URI, in time, and
  -- asked for by whoever knows the verifier.
  unfoldable pub IsFor : ℕ → Exchange → AuthCode → Type 0
  IsFor now x stored =
      (now ≤ stored.expires_at)
      × (stored.client_id ≡ x.client_id)
      × (stored.redirect_uri ≡ x.redirect_uri)
      × (stored.code_challenge_method ≡ "S256")
      × (verify_pkce_s256 decode_basic decode_component verify_secret sha256 challenge_bytes
            pairwise_sub badge_jwts x.code_verifier stored.code_challenge
          ≡ true)

  unfoldable IsAdmission : Entries String Client → TokenRequest → Admission → Type 0
  IsAdmission clients request (admitted x) =
      (request.form "code" ≡ some x.code)
      × IsAuthenticated clients
          (read_client_credentials decode_basic decode_component verify_secret sha256
            challenge_bytes pairwise_sub badge_jwts request)
          x.client_id x.client
  IsAdmission clients request (rejected response) =
      (access : AccessTokenClaims) (id : IdTokenClaims) → response ≢ issued access id

  admit-IsAdmission :
      (clients : Entries String Client) (request : TokenRequest)
      → IsAdmission clients request (
          admit decode_basic decode_component verify_secret sha256 challenge_bytes pairwise_sub
            badge_jwts clients request)
  unfolding admit authenticate_client authenticate IsAdmission IsAuthenticated
  admit-IsAdmission clients request =
      let P = IsAdmission clients request in
      stop_if-rule P _ _ _ (λ _. λ access id e. cc)
        (λ _.
          stop_if-rule P _ _ _ (λ _. λ access id e. cc)
            (λ _.
              required-rule P _ _ _ (λ _. λ access id e. cc)
                (λ code posted _.
                  required-rule P _ _ _ (λ _. λ access id e. cc)
                    (λ uri _ _.
                      required-rule P _ _ _ (λ _. λ access id e. cc)
                        (λ verifier _ _.
                          required-rule P _ _ _ (λ _. λ access id e. cc)
                            (λ client_id named _.
                              given-rule P _ _ _ (λ _. λ access id e. cc)
                                (λ client found.
                                  required-rule P _ _ _
                                    (λ public. (
                                      posted,
                                      (named, found, λ hash e full. absurd (public hash e full)),
                                    ))
                                    (λ hash has_hash full.
                                      required-rule P _ _ _ (λ _. λ access id e. cc)
                                        (λ secret has_secret _.
                                          stop_if-rule P _ _ _ (λ _. λ access id e. cc)
                                            (λ verified. (
                                              posted,
                                              (
                                                named,
                                                found,
                                                λ other e f. (
                                                  secret,
                                                  has_secret,
                                                  one_hash verify_secret client.client_secret_hash
                                                      hash other secret has_hash e verified,
                                                ),
                                              ),
                                            )))))))))))

  unfoldable IsRedeemed :
      ℕ → String → Exchange → Option AuthCode → Store → TokenResponse × Store → Type 0
  IsRedeemed now jti x found store (issued access id, last) =
      (stored : AuthCode) × (user : User) × (found ≡ some stored)
      × IsFor now x stored
      × (lookup store.users stored.user_id ≡ some user)
      × (user.merged_into_user_id ≡ none)
      × ((issued access id, last)
          ≡ mint_tokens decode_basic decode_component verify_secret sha256 challenge_bytes
              pairwise_sub badge_jwts now jti x stored user store)
  IsRedeemed now jti x found store (rate_limited seconds, last) = last ≡ store
  IsRedeemed now jti x found store (token_error e, last) = last ≡ store
  IsRedeemed now jti x found store (client_error e basic, last) = last ≡ store

  redeem-IsRedeemed :
      (now : ℕ) (jti : String) (x : Exchange) (found : Option AuthCode) (store : Store)
      → IsRedeemed now jti x found store (
          redeem decode_basic decode_component verify_secret sha256 challenge_bytes pairwise_sub
            badge_jwts now jti x found store)
  unfolding redeem IsRedeemed IsFor mint_tokens
  redeem-IsRedeemed now jti x found store =
      let P = IsRedeemed now jti x found store in
      given-rule P _ _ _ (λ _. refl)
        (λ stored is_stored.
          stop_if-rule P _ _ _ (λ _. refl)
            (λ in_time.
              stop_if-rule P _ _ _ (λ _. refl)
                (λ client.
                  stop_if-rule P _ _ _ (λ _. refl)
                    (λ uri.
                      stop_if-rule P _ _ _ (λ _. refl)
                        (λ method.
                          stop_if-rule P _ _ _ (λ _. refl)
                            (λ pkce.
                              given-rule P _ _ _ (λ _. refl)
                                (λ user has_user.
                                  given-rule P _ _ _
                                    (λ alone. (
                                      stored,
                                      user,
                                      is_stored,
                                      (
                                        ground (arith, in_time),
                                        is_same stored.client_id x.client_id client,
                                        is_same stored.redirect_uri x.redirect_uri uri,
                                        is_same stored.code_challenge_method "S256" method,
                                        ground (arith, pkce),
                                      ),
                                      has_user,
                                      alone,
                                      refl,
                                    ))
                                    (λ survivor _. refl))))))))

  -- Tokens are issued only for an authenticated client and an unconsumed code, which is consumed.
  unfoldable pub IsIssued :
      ℕ → String → TokenRequest → Store → Store → TokenResponse → Store → Store → Type 0
  IsIssued now jti request store later response consumed last =
      (x : Exchange) × (row stored : AuthCode) × (user : User) × (request.form "code" ≡ some x.code)
      × IsAuthenticated store.clients
          (read_client_credentials decode_basic decode_component verify_secret sha256
            challenge_bytes pairwise_sub badge_jwts request)
          x.client_id x.client
      × (lookup store.codes x.code ≡ some row)
      × (row.consumed_at ≡ none)
      × (consume now x.code store ≡ (true, consumed))
      × (lookup later.codes x.code ≡ some stored)
      × IsFor now x stored
      × (lookup later.users stored.user_id ≡ some user)
      × (user.merged_into_user_id ≡ none)
      × ((response, last)
          ≡ mint_tokens decode_basic decode_component verify_secret sha256 challenge_bytes
              pairwise_sub badge_jwts now jti x stored user later)

  -- A refusal issues nothing, and changes nothing but a code that it has consumed.
  unfoldable pub IsRefused : ℕ → Store → Store → Store → Store → Type 0
  IsRefused now store later consumed last =
      (last ≡ later)
      × ((consumed ≡ store) ⊎ ((code : String) × (consume now code store ≡ (true, consumed))))

  unfoldable pub IsResponse :
      ℕ → String → TokenRequest → Store → Store → TokenResponse × Store × Store → Type 0
  IsResponse now jti request store later (issued access id, consumed, last) =
      IsIssued now jti request store later (issued access id) consumed last
  IsResponse now jti request store later (rate_limited seconds, consumed, last) =
      IsRefused now store later consumed last
  IsResponse now jti request store later (token_error e, consumed, last) =
      IsRefused now store later consumed last
  IsResponse now jti request store later (client_error e basic, consumed, last) =
      IsRefused now store later consumed last

  refusal :
      (now : ℕ) (jti : String) (request : TokenRequest) (store later consumed last : Store)
      (response : TokenResponse)
      → ((access : AccessTokenClaims) (id : IdTokenClaims) → response ≢ issued access id)
      → IsRefused now store later consumed last
      → IsResponse now jti request store later (response, consumed, last)
  unfolding IsResponse
  refusal now jti request store later consumed last (issued access id) h r =
      absurd (h access id refl)
  refusal now jti request store later consumed last (rate_limited seconds) h r = r
  refusal now jti request store later consumed last (token_error e) h r = r
  refusal now jti request store later consumed last (client_error e basic) h r = r

  consume-cases :
      (now : ℕ) (code : String) (store : Store)
      → (consume now code store ≡ (false, store))
        ⊎ ((row : AuthCode) × (consumed : Store) × (lookup store.codes code ≡ some row)
            × (row.consumed_at ≡ none)
            × (consume now code store ≡ (true, consumed)))
  unfolding consume consume_found consume_if is_unconsumed
  consume-cases now code store = elim (Option-cases (lookup store.codes code)) [
    | inl missing ↦ inl (rw missing refl)
    | inr (row, found) ↦ elim (Option-cases row.consumed_at) [
      | inl fresh ↦ inr (row, (consume now code store).1, found, fresh, rw (found, fresh) refl)
      | inr (t, spent) ↦ inl (rw (found, spent) refl)
    ]
  ]

  redeemed-IsResponse :
      (now : ℕ) (jti : String) (request : TokenRequest) (store later consumed : Store)
      (x : Exchange) (row : AuthCode)
      → request.form "code" ≡ some x.code
      → IsAuthenticated store.clients
          (read_client_credentials decode_basic decode_component verify_secret sha256
            challenge_bytes pairwise_sub badge_jwts request)
          x.client_id
          x.client
      → lookup store.codes x.code ≡ some row
      → row.consumed_at ≡ none
      → consume now x.code store ≡ (true, consumed)
      → (out : TokenResponse × Store) → IsRedeemed now jti x (lookup later.codes x.code) later out
      → IsResponse now jti request store later (out.0, consumed, out.1)
  unfolding IsResponse IsIssued IsRefused IsRedeemed
  redeemed-IsResponse now jti request store later consumed x row posted auth found fresh c
        (issued access id, last) (stored, user, there_still, for, known, alone, minted) =
      (x, row, stored, user, posted, auth, found, fresh, c, there_still, for, known, alone, minted)
  redeemed-IsResponse now jti request store later consumed x row posted auth found fresh c
        (rate_limited s, last) r =
      (r, inr (x.code, c))
  redeemed-IsResponse now jti request store later consumed x row posted auth found fresh c
        (token_error e, last) r =
      (r, inr (x.code, c))
  redeemed-IsResponse now jti request store later consumed x row posted auth found fresh c
        (client_error e b, last) r =
      (r, inr (x.code, c))

  exchange-IsResponse :
      (now : ℕ) (jti : String) (request : TokenRequest) (store later : Store)
      (admission : Admission)
      → IsAdmission store.clients request admission
      → IsResponse now jti request store later (
          exchange decode_basic decode_component verify_secret sha256 challenge_bytes pairwise_sub
            badge_jwts now jti admission store later)
  unfolding exchange after_consume IsAdmission IsRefused
  exchange-IsResponse now jti request store later (rejected response) denied =
      refusal now jti request store later store later response denied (refl, inl refl)
  exchange-IsResponse now jti request store later (admitted x) (posted, auth) =
      elim (consume-cases now x.code store) [
        | inl used ↦ rw used (
            refusal now jti request store later store later (token_error code_used)
              (λ access id e. cc) (refl, inl refl))
        | inr (row, consumed, found, fresh, c) ↦ rw c (
            redeemed-IsResponse now jti request store later consumed x row posted auth found fresh c
              _ (redeem-IsRedeemed now jti x (lookup later.codes x.code) later))
      ]

  -- Every response of the token endpoint, whatever tables it meets at the consumption of the code
  -- and after it. If tokens are issued, the client is known and has shown its secret if it has one;
  -- the code was there, unconsumed, and is consumed now; it has not expired, was issued to this
  -- client for this redirect URI, and its challenge is met by the verifier; its user is there and
  -- not merged; and the tokens, with the row of the access token, are those of the stored consent.
  -- Any other response adds no access token, and changes nothing but at most one code, which it has
  -- consumed.
  pub post_token-IsResponse :
      (limit : Option ℕ) (now : ℕ) (jti : String) (request : TokenRequest) (store later : Store)
      → IsResponse now jti request store later (
          post_token decode_basic decode_component verify_secret sha256 challenge_bytes pairwise_sub
            badge_jwts limit now jti request store later)
  unfolding post_token IsResponse IsRefused
  post_token-IsResponse none now jti request store later =
      exchange-IsResponse now jti request store later _ (admit-IsAdmission store.clients request)
  post_token-IsResponse (some seconds) now jti request store later = (refl, inl refl)
