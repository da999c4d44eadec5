-- ===== src/Recovery.antt =====
-- Account recovery: the constants of apps/minister/src/lib/assurance.ts that its parts share. The
-- config editor is in Config, the engine that reads the config in Attempt.
pub mod Config
pub mod Attempt
pub mod Codes
pub mod Assurance
mod Tests
use minister.Common.{ℕ, ◌*◌, String, Bool, List, [], ◌∷◌, includes, string_eq}

abbrev pub credential_quarantine_ms : ℕ
credential_quarantine_ms = 72 * 60 * 60 * 1000

abbrev recovery_eligible_types : List String
recovery_eligible_types = "oauth-account" ∷ "email-domain" ∷ "email-exact" ∷ "tlsn-attestation" ∷ []

-- RECOVERY_ELIGIBLE_TYPES.has(badgeType)
unfoldable pub is_recovery_eligible : String → Bool
is_recovery_eligible badge_type = includes badge_type recovery_eligible_types
