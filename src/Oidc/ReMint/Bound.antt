-- ===== src/Oidc/ReMint/Bound.antt =====
-- What an app can rely on in a badge that it is told about.
use minister.Common.{
  ℕ, ◌+◌, ◌/◌, ◌≤◌, String, ◌≡◌, true, false, Option, none, some, includes, lookup, string_eq,
  pair_eq,
}
use minister.Policy.{text}
use minister.Oidc.Store.{plain, Store}
use minister.Oidc.Authorize.{is_text}
use minister.Oidc.Claims.{Mint}
use minister.Oidc.Token.{access_token_ttl}
use minister.Oidc.ReMint.{
  SubjectClaims, StoredVc, DisclosedVc, reserved_credential_subject_keys, strip_reserved_claims,
  override_role, cap_seconds, sanitize_disclosed_claims,
}
use minister.Oidc.ReMint.Stamped.{IsWithin, States, StatesRole}

module _ (verify : String → Option StoredVc)
    (schema_of : String → Option (SubjectClaims → Option SubjectClaims))
    (month_of : ℕ → Option String) (sign : DisclosedVc → Option String) (did : String) where
  -- The JWT signs what the mint asks for, at its time, with the type, the month and the sanitized claims
  -- of the credential that the issuer had signed.
  unfoldable pub IsCopy : ℕ → Mint → String → Type 0
  IsCopy now m jwt =
      (stored : StoredVc) × (iat : ℕ) × (subject sanitized : SubjectClaims) × (month : String)
      × (vc : DisclosedVc) × (verify m.vc_jwt ≡ some stored)
      × (is_text "vc+jwt" stored.typ ≡ true)
      × (is_text did stored.iss ≡ true)
      × (stored.iat ≡ some iat)
      × (stored.credential_subject ≡ some subject)
      × (sanitize_disclosed_claims verify schema_of month_of sign did stored.types
            (strip_reserved_claims subject)
          ≡ some sanitized)
      × (month_of iat ≡ some month)
      × (sign vc ≡ some jwt)
      × (vc.types ≡ stored.types)
      × (vc.iss ≡ did)
      × (vc.sub ≡ m.sub)
      × (vc.jti ≡ m.jti)
      × (vc.credential_status ≡ m.status)
      × (vc.iat ≡ now / 1000)
      × (vc.nbf ≡ now / 1000)
      × (vc.exp ≤ now / 1000 + access_token_ttl)
      × IsWithin stored.exp vc.exp
      × IsWithin (cap_seconds m.max_expires_at) vc.exp
      × (lookup vc.credential_subject "id" ≡ some (plain (text m.sub)))
      × (lookup vc.credential_subject "issuanceMonth" ≡ some (plain (text month)))
      × States vc.credential_subject "nullifier" m.nullifier
      × StatesRole vc.credential_subject m.role
      × ((key : String)
          → includes key reserved_credential_subject_keys ≡ false
          → lookup vc.credential_subject key ≡ lookup (override_role m.role sanitized) key)

  unfoldable IsMinted : ℕ → Mint → Option String → Type 0
  IsMinted now m none = Unit
  IsMinted now m (some jwt) = IsCopy now m jwt
