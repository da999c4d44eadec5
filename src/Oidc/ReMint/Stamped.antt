-- ===== src/Oidc/ReMint/Stamped.antt =====
-- The end of a copy, and the claims that are stamped on it.
use minister.Common.{
  ℕ, ◌+◌, ◌≤◌, String, ◌≡◌, refl, sym, ◌∙◌, false, Option, none, some, List, [], ◌∷◌, arith,
  includes, lookup, insert, erase, lookup-insert, lookup-erase, string_eq, pair_eq, ◌==◌,
}
use minister.Policy.{text}
use minister.Oidc.Store.{plain}
use minister.Oidc.Token.{access_token_ttl}
use minister.Oidc.ReMint.{
  SubjectClaims, reserved_credential_subject_keys, erase_all, strip_reserved_claims, override_role,
  stamp_nullifier, stamp_claims, no_later, disclosed_exp,
}

-- A time that is not after an end, if there is one.
unfoldable pub IsWithin : Option ℕ → ℕ → Type 0
IsWithin none exp = Unit
IsWithin (some cap) exp = exp ≤ cap

-- A claim that is stated exactly if there is a value for it.
unfoldable pub States : SubjectClaims → String → Option String → Type 0
States claims key none = lookup claims key ≡ none
States claims key (some value) = lookup claims key ≡ some (plain (text value))

-- A role that replaces the one that was stored.
unfoldable pub StatesRole : SubjectClaims → Option String → Type 0
StatesRole claims none = Unit
StatesRole claims (some role) = lookup claims "role" ≡ some (plain (text role))

no_later-IsWithin : (cap : Option ℕ) (exp : ℕ) → IsWithin cap (no_later cap exp)
unfolding no_later IsWithin
no_later-IsWithin none exp = tt
no_later-IsWithin (some cap) exp = ground arith

no_later_le : (cap : Option ℕ) (exp : ℕ) → no_later cap exp ≤ exp
unfolding no_later
no_later_le none exp = omega arith
no_later_le (some cap) exp = ground arith

no_later-keeps : (cap end : Option ℕ) (exp : ℕ) → IsWithin end exp → IsWithin end (no_later cap exp)
unfolding IsWithin
no_later-keeps cap none exp h = tt
no_later-keeps cap (some end) exp h = omega (arith, no_later_le cap exp)

pub disclosed_exp-IsWithin :
    (now_sec exp : ℕ) (original cap : Option ℕ)
    → disclosed_exp now_sec original cap ≡ some exp
    → (exp ≤ now_sec + access_token_ttl) × IsWithin original exp × IsWithin cap exp
unfolding disclosed_exp IsWithin
disclosed_exp-IsWithin now_sec exp none none e = absurd (cc)
disclosed_exp-IsWithin now_sec exp none (some cap) e =
    let same : no_later (some cap) (now_sec + access_token_ttl) ≡ exp = cc in
    rw (sym same) (no_later_le _ _, tt, no_later-IsWithin (some cap) _)
disclosed_exp-IsWithin now_sec exp (some original) cap e =
    let first = no_later (some original) (now_sec + access_token_ttl) in
    let same : no_later cap first ≡ exp = cc in
    rw (sym same) (
      omega
          (arith, no_later_le cap first, no_later_le (some original) (now_sec + access_token_ttl)),
      no_later-keeps cap (some original) first (no_later-IsWithin (some original) _),
      no_later-IsWithin cap _,
    )

pub stamp_claims-States :
    (subject_id month : String) (nullifier role : Option String) (sanitized : SubjectClaims)
    → let claims =
        stamp_claims subject_id month nullifier
          (strip_reserved_claims (override_role role sanitized)) in
      (lookup claims "id" ≡ some (plain (text subject_id)))
      × (lookup claims "issuanceMonth" ≡ some (plain (text month)))
      × States claims "nullifier" nullifier
      × StatesRole claims role
unfolding stamp_claims stamp_nullifier strip_reserved_claims erase_all States StatesRole
    override_role
stamp_claims-States subject_id month none none sanitized =
    (simp (lookup-insert), simp (lookup-insert), simp (lookup-insert, lookup-erase), tt)
stamp_claims-States subject_id month none (some role) sanitized = (
  simp (lookup-insert),
  simp (lookup-insert),
  simp (lookup-insert, lookup-erase),
  simp (lookup-insert, lookup-erase),
)
stamp_claims-States subject_id month (some nullifier) none sanitized =
    (simp (lookup-insert), simp (lookup-insert), simp (lookup-insert), tt)
stamp_claims-States subject_id month (some nullifier) (some role) sanitized = (
  simp (lookup-insert),
  simp (lookup-insert),
  simp (lookup-insert),
  simp (lookup-insert, lookup-erase),
)

lookup-erase_all :
    (keys : List String) (claims : SubjectClaims) (key : String)
    → includes key keys ≡ false
    → lookup (erase_all claims keys) key ≡ lookup claims key
unfolding erase_all
lookup-erase_all [] claims key other = refl
lookup-erase_all (k ∷ keys) claims key other =
    let later : includes key keys ≡ false = ground (arith, other) in
    let differs : (k == key) ≡ false = ground (arith, other) in
    lookup-erase_all keys (erase claims k) key later ∙ rw (lookup-erase claims k key, differs) refl

lookup-insert_other :
    (claims : SubjectClaims) (k key value : String)
    → (k == key) ≡ false
    → lookup (insert claims k (plain (text value))) key ≡ lookup claims key
lookup-insert_other claims k key value differs =
    rw (lookup-insert claims k key (plain (text value)), differs) refl

stamp_nullifier-keeps :
    (nullifier : Option String) (claims : SubjectClaims) (key : String)
    → includes key reserved_credential_subject_keys ≡ false
    → lookup (stamp_nullifier nullifier claims) key ≡ lookup claims key
unfolding stamp_nullifier
stamp_nullifier-keeps none claims key other = refl
stamp_nullifier-keeps (some nullifier) claims key other =
    lookup-insert_other claims "nullifier" key nullifier (ground (arith, other))

-- The claims that are not stamped are kept.
pub stamp_claims-keeps :
    (subject_id month : String) (nullifier : Option String) (claims : SubjectClaims) (key : String)
    → includes key reserved_credential_subject_keys ≡ false
    → lookup (stamp_claims subject_id month nullifier (strip_reserved_claims claims)) key
      ≡ lookup claims key
unfolding stamp_claims strip_reserved_claims
stamp_claims-keeps subject_id month nullifier claims key other =
    stamp_nullifier-keeps nullifier _ key other
    ∙ lookup-insert_other _ "issuanceMonth" key month (ground (arith, other))
    ∙ lookup-insert_other _ "id" key subject_id (ground (arith, other))
    ∙ lookup-erase_all reserved_credential_subject_keys claims key other
