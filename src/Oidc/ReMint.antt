-- ===== src/Oidc/ReMint.antt =====
-- packages/vc/src/issue.ts (reMintVc) and apps/minister/src/lib/disclosure-claims.ts: the credential
-- that Minister signs anew when it discloses a badge.
pub mod Stamped
pub mod Bound
use minister.Common.{
  ℕ, ◌+◌, ◌/◌, ltb, String, Bool, true, false, not, if◌then◌else◌, Option, none, some, List, [],
  ◌∷◌, Entries, insert, erase, string_eq, given, stop_if,
}
use minister.Policy.{text}
use minister.Oidc.Store.{Attribute, plain}
use minister.Oidc.Authorize.{is_text}
use minister.Oidc.Claims.{Mint}
use minister.Oidc.Token.{access_token_ttl}

abbrev pub SubjectClaims : Type 0
SubjectClaims = Entries String Attribute

-- What the JWT of a stored credential states; `none` is a value that is missing or not of its type,
-- and a type that is missing is empty.
pub record StoredVc : Type 0 where
  pub typ : Option String
  pub iss : Option String
  pub iat : Option ℕ
  pub exp : Option ℕ
  pub context : Option (List String)
  pub types : List String
  pub credential_subject : Option SubjectClaims

-- What is signed; times are seconds.
pub record DisclosedVc : Type 0 where
  pub context : List String
  pub types : List String
  pub credential_subject : SubjectClaims
  pub credential_status : Option (String × ℕ)
  pub iss : String
  pub sub : String
  pub iat : ℕ
  pub nbf : ℕ
  pub jti : String
  pub exp : ℕ

abbrev pub vc_context : String
vc_context = "https://www.w3.org/ns/credentials/v2"

abbrev pub reserved_credential_subject_keys : List String
reserved_credential_subject_keys = "id" ∷ "issuanceMonth" ∷ "nullifier" ∷ []

unfoldable pub erase_all : SubjectClaims → List String → SubjectClaims
erase_all claims [] = claims
erase_all claims (key ∷ keys) = erase_all (erase claims key) keys

unfoldable pub strip_reserved_claims : SubjectClaims → SubjectClaims
strip_reserved_claims claims = erase_all claims reserved_credential_subject_keys

-- A badge of a group has its role replaced.
unfoldable pub override_role : Option String → SubjectClaims → SubjectClaims
override_role none claims = claims
override_role (some role) claims = insert claims "role" (plain (text role))

unfoldable pub stamp_nullifier : Option String → SubjectClaims → SubjectClaims
stamp_nullifier none claims = claims
stamp_nullifier (some nullifier) claims = insert claims "nullifier" (plain (text nullifier))

unfoldable pub stamp_claims : String → String → Option String → SubjectClaims → SubjectClaims
stamp_claims subject_id month nullifier claims =
    stamp_nullifier nullifier
      (insert (insert claims "id" (plain (text subject_id))) "issuanceMonth" (plain (text month)))

unfoldable pub or_context : Option (List String) → List String
or_context none = vc_context ∷ []
or_context (some context) = context

unfoldable pub no_later : Option ℕ → ℕ → ℕ
no_later none exp = exp
no_later (some cap) exp = if ltb cap exp then cap else exp

-- `Math.floor(maxExpiresAt.getTime() / 1000)`
unfoldable pub cap_seconds : Option ℕ → Option ℕ
cap_seconds none = none
cap_seconds (some cap) = some (cap / 1000)

-- The end of the copy, where `none` is a throw: neither end is known.
unfoldable pub disclosed_exp : ℕ → Option ℕ → Option ℕ → Option ℕ
disclosed_exp now_sec none none = none
disclosed_exp now_sec none (some cap) = some (no_later (some cap) (now_sec + access_token_ttl))
disclosed_exp now_sec (some exp) cap =
    some (no_later cap (no_later (some exp) (now_sec + access_token_ttl)))

unfoldable pub is_empty {ℓ} : {A : Type ℓ} → List A → Bool
is_empty [] = true
is_empty (x ∷ xs) = false

-- `verify` checks the signature of a JWT with the issuer's key and parses it; `schema_of` is the
-- parser that zod builds for a credential type, if there is one; `month_of` formats a month; `sign`
-- signs. `none` is a throw of theirs. `did` is the issuer.
module _ (verify : String → Option StoredVc)
    (schema_of : String → Option (SubjectClaims → Option SubjectClaims))
    (month_of : ℕ → Option String) (sign : DisclosedVc → Option String) (did : String) where
  unfoldable pub sanitize_disclosed_claims : List String → SubjectClaims → Option SubjectClaims
  sanitize_disclosed_claims [] claims = some claims
  sanitize_disclosed_claims (t ∷ types) claims =
      given (schema_of t) (sanitize_disclosed_claims types claims) (λ schema. schema claims)

  -- The credential of a mint at a time in milliseconds, once the stored one is read.
  unfoldable pub sign_copy : ℕ → Mint → StoredVc → ℕ → SubjectClaims → Option String
  sign_copy now m stored iat subject =
      given (sanitize_disclosed_claims stored.types (strip_reserved_claims subject)) none
        (λ sanitized. given (month_of iat) none (λ month.
          given (disclosed_exp (now / 1000) stored.exp (cap_seconds m.max_expires_at)) none (λ exp.
            sign (record {
              context = or_context stored.context;
              types = stored.types;
              credential_subject =
                  stamp_claims m.sub month m.nullifier
                    (strip_reserved_claims (override_role m.role sanitized));
              credential_status = m.status;
              iss = did;
              sub = m.sub;
              iat = now / 1000;
              nbf = now / 1000;
              jti = m.jti;
              exp = exp;
            }))))

  unfoldable pub re_mint_vc : ℕ → Mint → Option String
  re_mint_vc now m = given (verify m.vc_jwt) none (λ stored.
      stop_if (not (is_text "vc+jwt" stored.typ)) none (
        stop_if (not (is_text did stored.iss)) none (
          stop_if (is_empty stored.types) none (
            given stored.credential_subject none
              (λ subject. given stored.iat none (λ iat. sign_copy now m stored iat subject))))))
