-- ===== src/Oidc/Flow.antt =====
-- From the consent of a user to the tokens of the app: approveConsent of
-- apps/minister/src/server/oidc-actions.ts, then apps/minister/src/app/oidc/token/route.ts.
mod Tests
use minister.Common.{
  ℕ, ◌+◌, ◌*◌, String, ◌≡◌, refl, sym, ap, ◌∙◌, ◌≤◌, Bool, true, Option, none, some, List, Entries,
  lookup, arith, string_eq,
}
use minister.Oidc.Authorize.{ValidAuthorizeRequest}
use minister.Oidc.Store.{AuthCode, User, Store}
use minister.Oidc.Consent.{
  ApproveInput, Approval, not_approved, threw, redirect, redirect_anon, approve_consent,
}
use minister.Oidc.Consent.Discloses.{IsFresh, IsDisclosure, IsApproval, approve_consent-IsApproval}
use minister.Oidc.Token.{
  TokenRequest, TokenResponse, rate_limited, token_error, client_error, issued, Exchange, admitted,
  some_if_any, consume_row, consume, admit, verify_pkce_s256, mint_tokens, mint_id_token,
  resolve_sub, resolve_claims, post_token,
}
use minister.Oidc.Claims.{resolve_user_claims}
use minister.Oidc.Token.Issued.{IsFor}
use minister.Oidc.Token.Live.{consumed-row, post_token-issues}

-- The outcomes of an approval that give the app a code.
unfoldable pub IsGranted : Approval → Type 0
IsGranted (redirect uri code state) = Unit
IsGranted (redirect_anon uri code state app epoch) = Unit
IsGranted threw = ⊥
IsGranted (not_approved e) = ⊥

some-same : {A : Type 0} {a b : A} → some a ≡ some b → a ≡ b
some-same e = cc

module _ (is_cuid : String → Bool) (verify_request : String → Option ValidAuthorizeRequest)
    (protocol : String → Option String) (fold : String → String) (is_email : String → Bool)
    (month_start : ℕ → ℕ) (counts : Entries String ℕ) (bucket_of : String → Option ℕ)
    (anon_identity_enabled : Bool) where
  -- The row of the code of an approval.
  pub granted-row :
      (now : ℕ) (code user_id : String) (input : ApproveInput) (seen store last : Store)
      (request : ValidAuthorizeRequest) (out : Approval)
      → IsGranted out
      → verify_request input.request_token ≡ some request
      → IsApproval is_cuid verify_request protocol fold is_email month_start counts bucket_of
          anon_identity_enabled now code user_id input seen store
          (out, last)
      → (row : AuthCode) × (lookup last.codes code ≡ some row)
        × IsDisclosure is_cuid verify_request protocol fold is_email month_start counts bucket_of
            anon_identity_enabled now seen user_id request input row
  unfolding IsGranted IsApproval
  granted-row now code user_id input seen store last request (redirect uri sent state) g v
        (asked, row, verified, u, s, c, found, d) =
      let p : asked ≡ request = some-same (sym verified ∙ v) in (row, found, rw p at d)
  granted-row now code user_id input seen store last request
        (redirect_anon uri sent state app epoch) g v (asked, row, verified, u, s, c, found, d) =
      let p : asked ≡ request = some-same (sym verified ∙ v) in (row, found, rw p at d)
  granted-row now code user_id input seen store last request threw g v h = absurd g
  granted-row now code user_id input seen store last request (not_approved e) g v h = absurd g

  module _ (decode_basic : String → String) (decode_component : String → Option String)
      (verify_secret : String → String → Bool) (sha256 : String → List ℕ)
      (challenge_bytes : String → List ℕ) (pairwise_sub : String → String)
      (badge_jwts : Store → String → String → String → List String → List String) where
    -- Tokens for the user, the app and the nonce of the request, with the scopes and the badges of
    -- the row of the code, which says what the user has approved.
    unfoldable pub IsDelivery :
        ℕ
        → Store
        → Store
        → Store
        → String
        → String
        → ValidAuthorizeRequest
        → ApproveInput
        → TokenResponse × Store × Store
        → Type 0
    IsDelivery now seen approved later code user_id request input
          (issued access id, consumed, last) =
        (row : AuthCode) × (lookup approved.codes code ≡ some row)
        × IsDisclosure is_cuid verify_request protocol fold is_email month_start counts bucket_of
            anon_identity_enabled now seen user_id request input row
        × (access.client_id ≡ request.client_id)
        × (access.scopes ≡ row.scopes)
        × (access.sub ≡ id.sub)
        × (id.aud ≡ request.client_id)
        × (id.nonce ≡ request.nonce)
        × (id.minister_badges
            ≡ some_if_any
                (badge_jwts later user_id request.client_id id.sub row.approved_badge_ids))
    IsDelivery now seen approved later code user_id request input
          (rate_limited seconds, consumed, last) =
        ⊥
    IsDelivery now seen approved later code user_id request input (token_error e, consumed, last) =
        ⊥
    IsDelivery now seen approved later code user_id request input
          (client_error e basic, consumed, last) =
        ⊥

    minted-IsDelivery :
        (now t : ℕ) (jti code user_id : String) (seen approved later consumed : Store)
        (request : ValidAuthorizeRequest) (input : ApproveInput) (x : Exchange) (row : AuthCode)
        (user : User)
        → lookup approved.codes code ≡ some row
        → IsDisclosure is_cuid verify_request protocol fold is_email month_start counts bucket_of
            anon_identity_enabled now seen user_id request input row
        → x.client_id ≡ request.client_id
        → let minted =
            mint_tokens decode_basic decode_component verify_secret sha256 challenge_bytes
              pairwise_sub badge_jwts t jti x
              (consume_row t row)
              user
              later in
          IsDelivery now seen approved later code user_id request input
            (minted.0, consumed, minted.1)
    unfolding mint_tokens IsDelivery mint_id_token resolve_claims resolve_user_claims consume_row
        IsDisclosure IsFresh
    minted-IsDelivery now t jti code user_id seen approved later consumed request input x row user
          found d client =
        let (own, _, _, _, _, _, _, _, _, fresh) = d in
        let sub =
          resolve_sub decode_basic decode_component verify_secret sha256 challenge_bytes
            pairwise_sub badge_jwts later row.user_id x.client_id in
        (
          row,
          found,
          d,
          client,
          refl,
          refl,
          client,
          fresh.0,
          ap (λ u. some_if_any (badge_jwts later u x.client_id sub row.approved_badge_ids)) own
              ∙ ap (λ c. some_if_any (badge_jwts later user_id c sub row.approved_badge_ids))
                  client,
        )

    code_row-IsFor :
        (now t : ℕ) (seen : Store) (user_id : String) (request : ValidAuthorizeRequest)
        (input : ApproveInput) (x : Exchange) (row : AuthCode)
        → IsDisclosure is_cuid verify_request protocol fold is_email month_start counts bucket_of
            anon_identity_enabled now seen user_id request input row
        → t ≤ now + 60 * 1000
        → x.client_id ≡ request.client_id
        → x.redirect_uri ≡ request.redirect_uri
        → verify_pkce_s256 decode_basic decode_component verify_secret sha256 challenge_bytes
            pairwise_sub badge_jwts x.code_verifier request.code_challenge
          ≡ true
        → IsFor decode_basic decode_component verify_secret sha256 challenge_bytes pairwise_sub
            badge_jwts t x
            (consume_row t row)
    unfolding IsDisclosure IsFresh IsFor consume_row
    code_row-IsFor now t seen user_id request input x row d soon client uri pkce =
        let (own, its_client, its_uri, _, _, _, _, _, _, fresh) = d in
        let (_, challenge, method, ends, _) = fresh in
        (
          omega (arith, ends, soon),
          its_client ∙ sym client,
          its_uri ∙ sym uri,
          method,
          ap
                (λ c.
                  verify_pkce_s256 decode_basic decode_component verify_secret sha256
                    challenge_bytes pairwise_sub badge_jwts x.code_verifier c)
                challenge
              ∙ pkce,
        )

    -- A user who approves a request, and the app that sent it. Within a minute of the approval, and
    -- with no change of the tables between, the app presents the code in a request that the token
    -- endpoint admits, for the client and the redirect URI of the request and with the verifier of
    -- its challenge, while the user is there and not merged. Then it is given tokens: for that
    -- client and that nonce, with one subject in both, the scopes of the row that the approval has
    -- stored under the code, which discloses what the user has approved and no more, and the badges
    -- that stand in that row.
    pub approve_consent-delivers :
        (now t : ℕ) (code user_id jti : String) (input : ApproveInput) (seen store last : Store)
        (request : ValidAuthorizeRequest) (out : Approval) (token_request : TokenRequest)
        (x : Exchange) (user : User)
        → approve_consent is_cuid verify_request protocol fold is_email month_start counts bucket_of
            anon_identity_enabled now code
            (some user_id)
            input
            seen
            store
          ≡ (out, last)
        → IsGranted out
        → verify_request input.request_token ≡ some request
        → t ≤ now + 60 * 1000
        → admit decode_basic decode_component verify_secret sha256 challenge_bytes pairwise_sub
            badge_jwts last.clients token_request
          ≡ admitted x
        → x.code ≡ code
        → x.client_id ≡ request.client_id
        → x.redirect_uri ≡ request.redirect_uri
        → verify_pkce_s256 decode_basic decode_component verify_secret sha256 challenge_bytes
            pairwise_sub badge_jwts x.code_verifier request.code_challenge
          ≡ true
        → lookup last.users user_id ≡ some user
        → user.merged_into_user_id ≡ none
        → IsDelivery now seen last (consume t code last).1 code user_id request input (
            post_token decode_basic decode_component verify_secret sha256 challenge_bytes
              pairwise_sub badge_jwts none t jti token_request last
              (consume t code last).1)
    unfolding IsDisclosure IsFresh consume_row
    approve_consent-delivers now t code user_id jti input seen store last request out token_request
          x user approved granted asked soon pass its_code client uri pkce known alone =
        let approval : IsApproval is_cuid verify_request protocol fold is_email month_start counts
            bucket_of anon_identity_enabled now code user_id input seen store (out, last) =
          rw approved at (
            approve_consent-IsApproval is_cuid verify_request protocol fold is_email month_start
              counts bucket_of anon_identity_enabled now code user_id input seen store) in
        let (row, found, d) =
          granted-row now code user_id input seen store last request out granted asked approval in
        let (own, _, _, _, _, _, _, _, _, (_, _, _, _, fresh)) = d in
        let (again, users) = consumed-row t code row last found fresh in
        let by_code = ap (λ c. lookup last.codes c) its_code ∙ found in
        rw
          (post_token-issues decode_basic decode_component verify_secret sha256 challenge_bytes
            pairwise_sub badge_jwts t jti token_request x row (consume_row t row) user last
            (consume t code last).1 pass by_code fresh
            (ap (λ c. lookup (consume t code last).1.codes c) its_code ∙ again)
            (code_row-IsFor now t seen user_id request input x row d soon client uri pkce)
            (ap (λ us. lookup us row.user_id) users ∙ ap (λ u. lookup last.users u) own ∙ known)
            alone)
          (minted-IsDelivery now t jti code user_id seen last (consume t code last).1 _ request
            input x row user found d client)
