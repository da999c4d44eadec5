-- ===== src/Oidc/Token.antt =====
-- apps/minister/src/app/oidc/token/route.ts, with the payloads of
-- apps/minister/src/lib/oidc-tokens.ts and the subject of apps/minister/src/lib/oidc-subject.ts.
-- The authorization code is consumed first, by one update, and what follows meets the tables later:
-- `store` and `later`. The signature of a token is left out: a token is its payload.
pub mod Issued
pub mod Live
pub mod Once
use Prim.Native.String
use minister.Common.{
  ℕ, ◌+◌, ◌*◌, String, Bool, true, false, not, ◌&&◌, ◌||◌, Option, none, some, List, [], ◌∷◌, ltb,
  nat_beq, Entries, lookup, insert, string_eq, pair_eq, ◌==◌, given, stop_if, required,
  after_prefix, contains, split_first,
}
use minister.Oidc.Authorize.{Client, or_empty, is_text}
use minister.Oidc.Store.{AuthCode, AccessToken, User, Store}
use minister.Oidc.Claims.{ResolvedUserClaims, resolve_user_claims, load_profile_override}

abbrev pub access_token_ttl : ℕ
access_token_ttl = 3600

-- The headers and the form of a request.
pub record TokenRequest : Type 0 where
  pub content_type : Option String
  pub authorization : Option String
  pub form : String → Option String

pub record ClientCreds : Type 0 where
  pub client_id : Option String
  pub client_secret : Option String
  pub from_basic : Bool

-- mintIdToken: badges are left out when there are none.
pub record IdTokenClaims : Type 0 where
  pub sub : String
  pub aud : String
  pub nonce : String
  pub name : Option String
  pub picture : Option String
  pub minister_badges : Option (List String)
  pub sybil_bucket : Option ℕ
  pub minister_anon_epoch : Option ℕ

pub record AccessTokenClaims : Type 0 where
  pub jti : String
  pub sub : String
  pub client_id : String
  pub scopes : List String

pub data TokenError : Type 0 where
  wrong_content_type : TokenError
  unsupported_grant_type : TokenError
  parameters_required : TokenError
  client_id_required : TokenError
  code_used : TokenError
  code_missing : TokenError
  code_expired : TokenError
  other_client : TokenError
  other_redirect_uri : TokenError
  unsupported_method : TokenError
  pkce_failed : TokenError
  no_user : TokenError
  user_merged : TokenError

pub data ClientError : Type 0 where
  client_unknown : ClientError
  secret_required : ClientError
  bad_secret : ClientError

-- `client_error` says whether the client came by HTTP Basic, which sets a header of the response.
pub data TokenResponse : Type 0 where
  rate_limited : ℕ → TokenResponse
  token_error : TokenError → TokenResponse
  client_error : ClientError → Bool → TokenResponse
  issued : AccessTokenClaims → IdTokenClaims → TokenResponse

-- A request that has passed the checks which read no code.
pub record Exchange : Type 0 where
  pub client_id : String
  pub client : Client
  pub code : String
  pub redirect_uri : String
  pub code_verifier : String

pub data Admission : Type 0 where
  admitted : Exchange → Admission
  rejected : TokenResponse → Admission

unfoldable pub some_if_any : List String → Option (List String)
some_if_any [] = none
some_if_any (jwt ∷ jwts) = some (jwt ∷ jwts)

unfoldable pub same_bytes : List ℕ → List ℕ → Bool
same_bytes [] [] = true
same_bytes (b ∷ bs) (c ∷ cs) = nat_beq b c && same_bytes bs cs
same_bytes _ _ = false

unfoldable pub consume_row : ℕ → AuthCode → AuthCode
consume_row now row = record row { consumed_at = some now }

unfoldable pub is_unconsumed : Option ℕ → Bool
is_unconsumed none = true
is_unconsumed (some t) = false

unfoldable pub consume_if : Bool → ℕ → String → AuthCode → Store → Bool × Store
consume_if true now code row store =
    (true, record store { codes = insert store.codes code (consume_row now row) })
consume_if false now code row store = (false, store)

-- The update of the codes where the code stands and is not consumed: whether it met a row.
unfoldable pub consume_found : ℕ → String → Option AuthCode → Store → Bool × Store
consume_found now code none store = (false, store)
consume_found now code (some row) store =
    consume_if (is_unconsumed row.consumed_at) now code row store

unfoldable pub consume : ℕ → String → Store → Bool × Store
consume now code store = consume_found now code (lookup store.codes code) store

unfoldable pub or_creds : Option ClientCreds → ClientCreds → ClientCreds
or_creds none creds = creds
or_creds (some basic) creds = basic

-- `decode_basic` reads base64 as UTF-8, `decode_component` is `decodeURIComponent`, where `none` is
-- its throw. `verify_secret` is argon2, `sha256` the digest of a text and `challenge_bytes` reads
-- base64url; `pairwise_sub` is the keyed digest of a user and a client, and `badge_jwts` loads the
-- approved badges, as they are minted at the time of the request.
module _ (decode_basic : String → String) (decode_component : String → Option String)
    (verify_secret : String → String → Bool) (sha256 : String → List ℕ)
    (challenge_bytes : String → List ℕ) (pairwise_sub : String → String)
    (badge_jwts : Store → String → String → String → List String → List String) where
  unfoldable pub decode_pair : Option (String × String) → Option ClientCreds
  decode_pair none = none
  decode_pair (some (id, secret)) = given (decode_component id) none (λ client_id.
      given (decode_component secret) none (λ client_secret. some (record {
        client_id = some client_id;
        client_secret = some client_secret;
        from_basic = true;
      })))

  unfoldable pub basic_creds : Option String → Option ClientCreds
  basic_creds authorization = given authorization none (λ header.
      given (after_prefix "Basic " header) none
        (λ encoded. decode_pair (split_first b':' (decode_basic encoded))))

  unfoldable pub read_client_credentials : TokenRequest → ClientCreds
  read_client_credentials request = or_creds (basic_creds request.authorization) (record {
    client_id = request.form "client_id";
    client_secret = request.form "client_secret";
    from_basic = false;
  })

  unfoldable pub authenticate : ClientCreds → String → Admission → Admission
  authenticate creds hash k =
      required creds.client_secret (rejected (client_error secret_required creds.from_basic))
        (λ secret.
          stop_if (not (verify_secret secret hash))
            (rejected (client_error bad_secret creds.from_basic)) k)

  unfoldable pub authenticate_client :
      Entries String Client → ClientCreds → String → String → String → Admission
  authenticate_client clients creds code redirect_uri code_verifier =
      required creds.client_id (rejected (token_error client_id_required)) (λ client_id.
        given (lookup clients client_id) (rejected (client_error client_unknown creds.from_basic))
          (λ client.
            let admission = admitted (record {
              client_id = client_id;
              client = client;
              code = code;
              redirect_uri = redirect_uri;
              code_verifier = code_verifier;
            }) in
            required client.client_secret_hash admission
              (λ hash. authenticate creds hash admission)))

  -- The checks of a request up to the consumption of its code.
  unfoldable pub admit : Entries String Client → TokenRequest → Admission
  admit clients request =
      let missing = rejected (token_error parameters_required) in
      stop_if (not (contains "application/x-www-form-urlencoded" (or_empty request.content_type)))
        (rejected (token_error wrong_content_type))
        (stop_if (not (is_text "authorization_code" (request.form "grant_type")))
          (rejected (token_error unsupported_grant_type))
          (required (request.form "code") missing (λ code.
            required (request.form "redirect_uri") missing (λ redirect_uri.
              required (request.form "code_verifier") missing (λ code_verifier.
                authenticate_client clients (read_client_credentials request) code redirect_uri
                  code_verifier)))))

  -- A comparison in constant time is that of the bytes.
  unfoldable pub verify_pkce_s256 : String → String → Bool
  verify_pkce_s256 verifier challenge = same_bytes (sha256 verifier) (challenge_bytes challenge)

  unfoldable pub pairwise_sub_input : String → String → String
  pairwise_sub_input user_id client_id = String.◌++◌ user_id (String.◌++◌ ":" client_id)

  unfoldable pub or_pairwise : Option String → String → String → String
  or_pairwise none user_id client_id = pairwise_sub (pairwise_sub_input user_id client_id)
  or_pairwise (some sub) user_id client_id = sub

  unfoldable pub resolve_sub : Store → String → String → String
  resolve_sub store user_id client_id =
      or_pairwise (lookup store.subjects (user_id, client_id)) user_id client_id

  unfoldable pub resolve_claims :
      Store → User → String → String → String → AuthCode → ResolvedUserClaims
  resolve_claims store user user_id client_id sub stored =
      resolve_user_claims user
        (record { name = stored.profile_name; avatar = stored.profile_avatar })
        (badge_jwts store user_id client_id sub stored.approved_badge_ids)
        (load_profile_override store user_id client_id
          (stored.profile_name || stored.profile_avatar))
        stored.sybil_score stored.sybil_bucket

  unfoldable pub mint_id_token : String → String → AuthCode → ResolvedUserClaims → IdTokenClaims
  mint_id_token sub client_id stored claims = record {
    sub = sub;
    aud = client_id;
    nonce = stored.nonce;
    name = claims.name;
    picture = claims.picture;
    minister_badges = some_if_any claims.minister_badges;
    sybil_bucket = claims.sybil_bucket;
    minister_anon_epoch = stored.anon_epoch;
  }

  unfoldable pub access_token_row : ℕ → String → AuthCode → AccessToken
  access_token_row now client_id stored = record {
    user_id = stored.user_id;
    client_id = client_id;
    scopes = stored.scopes;
    approved_badge_ids = stored.approved_badge_ids;
    profile_name = stored.profile_name;
    profile_avatar = stored.profile_avatar;
    sybil_score = stored.sybil_score;
    sybil_bucket = stored.sybil_bucket;
    anon_epoch = stored.anon_epoch;
    expires_at = now + access_token_ttl * 1000;
    revoked_at = none;
  }

  unfoldable pub mint_tokens :
      ℕ → String → Exchange → AuthCode → User → Store → TokenResponse × Store
  mint_tokens now jti x stored user store =
      let sub = resolve_sub store stored.user_id x.client_id in
      let claims = resolve_claims store user stored.user_id x.client_id sub stored in
      (
        issued (record { jti = jti; sub = sub; client_id = x.client_id; scopes = stored.scopes })
            (mint_id_token sub x.client_id stored claims),
        record store { tokens = insert store.tokens jti (access_token_row now x.client_id stored) },
      )

  -- The checks of a consumed code, and the tokens.
  unfoldable pub redeem : ℕ → String → Exchange → Option AuthCode → Store → TokenResponse × Store
  redeem now jti x found store =
      given found (token_error code_missing, store)
        (λ stored.
          stop_if (ltb stored.expires_at now) (token_error code_expired, store)
            (stop_if (not (stored.client_id == x.client_id)) (token_error other_client, store)
              (stop_if (not (stored.redirect_uri == x.redirect_uri))
                (token_error other_redirect_uri, store)
                (stop_if (not (stored.code_challenge_method == "S256"))
                  (token_error unsupported_method, store)
                  (stop_if (not (verify_pkce_s256 x.code_verifier stored.code_challenge))
                    (token_error pkce_failed, store)
                    (given (lookup store.users stored.user_id) (token_error no_user, store)
                      (λ user.
                        given user.merged_into_user_id (mint_tokens now jti x stored user store)
                          (λ survivor. (token_error user_merged, store)))))))))

  unfoldable pub after_consume :
      ℕ → String → Exchange → Bool × Store → Store → TokenResponse × Store × Store
  after_consume now jti x (false, store) later = (token_error code_used, store, later)
  after_consume now jti x (true, store) later =
      let (response, last) = redeem now jti x (lookup later.codes x.code) later in
      (response, store, last)

  unfoldable pub exchange : ℕ → String → Admission → Store → Store → TokenResponse × Store × Store
  exchange now jti (rejected response) store later = (response, store, later)
  exchange now jti (admitted x) store later =
      after_consume now jti x (consume now x.code store) later

  -- The endpoint, with the seconds to wait where the limiter refuses, and the id of a new token.
  unfoldable pub post_token :
      Option ℕ → ℕ → String → TokenRequest → Store → Store → TokenResponse × Store × Store
  post_token none now jti request store later =
      exchange now jti (admit store.clients request) store later
  post_token (some seconds) now jti request store later = (rate_limited seconds, store, later)
