-- ===== src/Recovery/Assurance.antt =====
-- recoveryWeightFor of apps/minister/src/lib/assurance.ts: the recovery weights before there were
-- rows for them, by type and provenance.
use minister.Common.{
  ℕ, String, ◌&&◌, ◌||◌, not, Option, none, some, List, [], ◌∷◌, Entries, lookup, if◌then◌else◌,
  includes, string_eq, ◌==◌,
}
use text.Mathlib.Text.{starts_with}

abbrev badge_assurance_weight : Entries String ℕ
badge_assurance_weight = ("IAL0", 0) ∷ ("IAL1", 15) ∷ ("IAL2", 60) ∷ ("IAL3", 100) ∷ []

unfoldable pub assurance_level_for : String → String
assurance_level_for badge_type =
    if badge_type == "tlsn-attestation"
    then "IAL3"
    else if starts_with badge_type "age-over" || starts_with badge_type "residency"
    then "IAL2"
    else if badge_type == "oauth-account"
    then "IAL1"
    else if badge_type == "email-domain" || badge_type == "email-exact"
    then "IAL1"
    else if badge_type == "invite-code"
    then "IAL0"
    else "IAL1"

abbrev oauth_default_weight : ℕ
oauth_default_weight = 20

abbrev pub oauth_low_provenance : List String
oauth_low_provenance = "discord" ∷ "steam" ∷ []

abbrev oauth_low_weight : ℕ
oauth_low_weight = 10

abbrev recovery_weight_by_type : Entries String ℕ
recovery_weight_by_type =
    ("tlsn-attestation", 100)
    ∷ ("email-domain", 15)
    ∷ ("email-exact", 15)
    ∷ ("invite-code", 0)
    ∷ ("group-membership", 0)
    ∷ []

abbrev or_weight : Option ℕ → ℕ → ℕ
or_weight none weight = weight
or_weight (some override) weight = override

-- The empty provenance is none to a test of the code.
unfoldable pub oauth_weight : Option String → ℕ
oauth_weight none = oauth_default_weight
oauth_weight (some provenance) =
    if not (provenance == "") && includes provenance oauth_low_provenance
    then oauth_low_weight
    else oauth_default_weight

unfoldable pub recovery_weight_for : String → Option String → ℕ
recovery_weight_for badge_type provenance =
    if badge_type == "oauth-account"
    then oauth_weight provenance
    else or_weight (lookup recovery_weight_by_type badge_type)
        (or_weight (lookup badge_assurance_weight (assurance_level_for badge_type)) 0)
