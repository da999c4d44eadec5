-- ===== src/Oidc/Example.antt =====
-- One app and one user, with a badge whose credential Minister has signed, and the tables of a run.
use minister.Common.{
  ℕ, String, Bool, true, false, Option, none, some, List, [], ◌∷◌, Entries, lookup, erase, ltb,
  string_eq, pair_eq, ◌==◌, if◌then◌else◌,
}
use minister.Policy.{text}
use minister.Oidc.Store.{plain, structured, AuthCode, Badge, Store}
use minister.Oidc.ReMint.{SubjectClaims, StoredVc, DisclosedVc, re_mint_vc}
use minister.Oidc.Claims.{Mint, load_approved_badge_jwts}
use minister.Oidc.Token.{TokenRequest, TokenResponse, IdTokenClaims, AccessTokenClaims, post_token}

-- A public client, a user with a name, one badge with a ledger entry and a status anchor.
abbrev pub age_badge : Badge
age_badge = record {
  id = "b1";
  user_id = "u1";
  issuer = "did:minister";
  vc_jwt = "stored";
  expires_at = some 9000;
  nullifier_ref = some "entry";
  badge_type = "age";
  attributes = [];
  issued_at = 0;
  status_anchor = some "anchor";
}

abbrev pub code_row : AuthCode
code_row = record {
  client_id = "mc_chat";
  user_id = "u1";
  redirect_uri = "https://chat.example/cb";
  scopes = "openid" ∷ "profile" ∷ "badge:age" ∷ [];
  approved_badge_ids = "b1" ∷ [];
  profile_name = true;
  profile_avatar = false;
  sybil_score = true;
  sybil_bucket = some 0;
  anon_epoch = none;
  nonce = "n1";
  code_challenge = "v1";
  code_challenge_method = "S256";
  expires_at = 60000;
  consumed_at = none;
}

abbrev pub tables : Store
tables = record {
  clients =
      (
        "mc_chat",
        record {
          name = "Chat";
          redirect_uris = "https://chat.example/cb" ∷ [];
          allowed_scopes = "openid" ∷ "profile" ∷ "badge:age" ∷ [];
          client_secret_hash = none;
          anon_app_id = none;
        },
      )
      ∷ [];
  codes = ("c1", code_row) ∷ [];
  tokens = [];
  users =
      (
        "u1",
        record {
          display_name = some "Ann";
          avatar_url = none;
          merged_into_user_id = none;
          dedup_handle = some "handle";
        },
      )
      ∷ [];
  overrides = some [];
  grants = [];
  subjects = [];
  badges = age_badge ∷ [];
  memberships = [];
  enrollments = [];
}

abbrev form : String → Entries String String
form verifier =
    ("grant_type", "authorization_code")
    ∷ ("code", "c1")
    ∷ ("redirect_uri", "https://chat.example/cb")
    ∷ ("code_verifier", verifier)
    ∷ ("client_id", "mc_chat")
    ∷ []

abbrev pub request : String → TokenRequest
request verifier = record {
  content_type = some "application/x-www-form-urlencoded";
  authorization = none;
  form = λ key. lookup (form verifier) key;
}

-- A digest that tells the verifier of the code from other texts, and the other parameters.
abbrev pub digest : String → List ℕ
digest s = if s == "v1" then 1 ∷ [] else []

abbrev pub keyed : String → String
keyed s = s

abbrev pub component : String → Option String
component s = some s

abbrev pub any_secret : String → String → Bool
any_secret secret hash = secret == hash

abbrev pub nullifier_of : String → String → String → Option String
nullifier_of entry owner client_id = some "tag"

abbrev pub first_seen : String → String → String → Bool
first_seen entry client_id tag = true

abbrev pub allocated : String → String → Option (String × ℕ)
allocated anchor client_id = some ("list", 5)

abbrev pub jti_of : String → String → String
jti_of badge_id client_id = "jti"

-- The stored badge, which expires before the end of its row, and states an anchor that its schema has
-- dropped.
abbrev pub stored_vc : StoredVc
stored_vc = record {
  typ = some "vc+jwt";
  iss = some "did:minister";
  iat = some 0;
  exp = some 8;
  context = none;
  types = "VerifiableCredential" ∷ "AgeBadge" ∷ [];
  credential_subject =
      some
        (("id", plain (text "did:u1")) ∷ ("age", plain (text "18")) ∷ ("anchor", structured) ∷ []);
}

abbrev pub read_vc : String → Option StoredVc
read_vc jwt = if jwt == "stored" then some stored_vc else none

abbrev pub age_schema : SubjectClaims → Option SubjectClaims
age_schema stated = some (erase stated "anchor")

abbrev pub schema_of : String → Option (SubjectClaims → Option SubjectClaims)
schema_of t = if t == "AgeBadge" then some age_schema else none

abbrev pub month_of : ℕ → Option String
month_of instant = some "1970-01"

-- A signature that depends on the time.
abbrev pub signed : DisclosedVc → Option String
signed vc = some (if ltb 1 vc.iat then "badge minted later" else "badge for chat")

abbrev pub minted : ℕ → Mint → Option String
minted now m = re_mint_vc read_vc schema_of month_of signed "did:minister" now m

abbrev pub badges : ℕ → Store → String → String → String → List String → List String
badges now store user_id client_id sub ids =
    load_approved_badge_jwts nullifier_of first_seen allocated jti_of (minted now) store
      "did:minister" user_id client_id sub ids

abbrev pub post : TokenRequest → Store → Store → TokenResponse × Store × Store
post sent store later =
    post_token keyed component any_secret digest digest keyed (badges 1000) none 1000 "t1" sent
      store later

abbrev pub access : AccessTokenClaims
access = record {
  jti = "t1";
  sub = "u1:mc_chat";
  client_id = "mc_chat";
  scopes = "openid" ∷ "profile" ∷ "badge:age" ∷ [];
}

abbrev pub id_token : IdTokenClaims
id_token = record {
  sub = "u1:mc_chat";
  aud = "mc_chat";
  nonce = "n1";
  name = some "Ann";
  picture = none;
  minister_badges = some ("badge for chat" ∷ []);
  sybil_bucket = some 0;
  minister_anon_epoch = none;
}

abbrev pub consumed_tables : Store
consumed_tables = record tables { codes = ("c1", record code_row { consumed_at = some 1000 }) ∷ [] }

abbrev pub last_tables : Store
last_tables = record consumed_tables {
  tokens =
      (
        "t1",
        record {
          user_id = "u1";
          client_id = "mc_chat";
          scopes = "openid" ∷ "profile" ∷ "badge:age" ∷ [];
          approved_badge_ids = "b1" ∷ [];
          profile_name = true;
          profile_avatar = false;
          sybil_score = true;
          sybil_bucket = some 0;
          anon_epoch = none;
          expires_at = 3601000;
          revoked_at = none;
        },
      )
      ∷ [];
}
