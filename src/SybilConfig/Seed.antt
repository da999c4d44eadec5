-- ===== src/SybilConfig/Seed.antt =====
-- The rows that a new database is given, of apps/minister/src/lib/sybil-config.ts, and the badge
-- types of the registry in packages/shared/src/badge-types.ts, by their names.
use Prim.Native.String.{◌++◌ as join}
use minister.Common.{ℕ, String, false, none, some, List, [], ◌∷◌, ◌++◌, map, includes, string_eq}
use minister.Sybil.{Cutoffs}
use minister.Recovery.Config.{Threshold}
use minister.SybilConfig.{BadgeWeight, ConfigTables}

-- The thresholds, by their decimal form.
abbrev pub age_thresholds : List String
age_thresholds = "16" ∷ "18" ∷ "21" ∷ "25" ∷ "30" ∷ "35" ∷ "40" ∷ "45" ∷ "55" ∷ "65" ∷ []

abbrev age_over : String → String
age_over t = join "age-over-" t

abbrev solo_recovery_types : List String
solo_recovery_types = "tlsn-attestation" ∷ []

-- A badge type, a qualifier, the two weights and the category.
abbrev WeightTuple : Type 0
WeightTuple = String × String × ℕ × ℕ × String

abbrev pub weight_table : List WeightTuple
weight_table =
    ("email-domain", "*", 5, 15, "email")
    ∷ ("email-exact", "*", 5, 15, "email")
    ∷ ("oauth-account", "github", 8, 20, "social-oauth")
    ∷ ("oauth-account", "google", 12, 20, "social-oauth")
    ∷ ("oauth-account", "discord", 4, 10, "social-oauth")
    ∷ ("oauth-account", "steam", 5, 10, "social-oauth")
    ∷ ("oauth-account", "reddit", 4, 20, "social-oauth")
    ∷ ("oauth-account", "hackernews", 4, 20, "social-oauth")
    ∷ ("oauth-account", "*", 4, 20, "social-oauth")
    ∷ ("account-age", "github:12", 10, 15, "social-oauth")
    ∷ ("account-age", "github:24", 15, 15, "social-oauth")
    ∷ ("account-age", "github:36", 18, 15, "social-oauth")
    ∷ ("account-age", "github:60", 22, 15, "social-oauth")
    ∷ ("account-age", "reddit:12", 6, 15, "social-oauth")
    ∷ ("account-age", "reddit:24", 10, 15, "social-oauth")
    ∷ ("account-age", "reddit:36", 12, 15, "social-oauth")
    ∷ ("account-age", "reddit:60", 15, 15, "social-oauth")
    ∷ ("account-age", "hackernews:12", 6, 15, "social-oauth")
    ∷ ("account-age", "hackernews:24", 10, 15, "social-oauth")
    ∷ ("account-age", "hackernews:36", 12, 15, "social-oauth")
    ∷ ("account-age", "hackernews:60", 15, 15, "social-oauth")
    ∷ ("account-age", "*", 6, 15, "social-oauth")
    ∷ ("social-following", "github:10", 4, 15, "social-oauth")
    ∷ ("social-following", "github:50", 6, 15, "social-oauth")
    ∷ ("social-following", "github:100", 8, 15, "social-oauth")
    ∷ ("social-following", "github:500", 10, 15, "social-oauth")
    ∷ ("social-following", "github:1000", 12, 15, "social-oauth")
    ∷ ("social-following", "*", 4, 15, "social-oauth")
    ∷ ("wallet-control", "*", 2, 15, "wallet")
    ∷ ("wallet-age", "12", 6, 15, "wallet")
    ∷ ("wallet-age", "24", 10, 15, "wallet")
    ∷ ("wallet-age", "36", 13, 15, "wallet")
    ∷ ("wallet-age", "60", 16, 15, "wallet")
    ∷ ("wallet-age", "*", 6, 15, "wallet")
    ∷ ("onchain-event", "eth2-genesis-depositor", 30, 15, "wallet")
    ∷ ("onchain-event", "*", 10, 15, "wallet")
    ∷ ("residency-country", "*", 10, 60, "human-attribute")
    ∷ ("residency-state", "*", 14, 60, "human-attribute")
    ∷ ("residency-city", "*", 16, 60, "human-attribute")
    ∷ ("domain-control", "*", 10, 15, "domain")
    ∷ ("tlsn-attestation", "*", 10, 100, "attestation")
    ∷ ("public-key", "*", 1, 15, "attestation")
    ∷ ("invite-code", "*", 12, 0, "invite")
    ∷ ("group-membership", "*", 0, 0, "group")
    ∷ []

unfoldable pub seed_row : WeightTuple → BadgeWeight
seed_row (badge_type, qualifier, sybil_weight, recovery_weight, category) = record {
  recovery = record {
    badge_type = badge_type;
    qualifier = qualifier;
    recovery_weight = recovery_weight;
    pending_recovery_weight = none;
    recovery_effective_at = none;
    allow_solo_recovery = includes badge_type solo_recovery_types;
  };
  sybil_weight = sybil_weight;
  category = category;
}

unfoldable pub age_over_seed_row : String → BadgeWeight
age_over_seed_row t = record {
  recovery = record {
    badge_type = age_over t;
    qualifier = "*";
    recovery_weight = 60;
    pending_recovery_weight = none;
    recovery_effective_at = none;
    allow_solo_recovery = false;
  };
  sybil_weight = 25;
  category = "human-attribute";
}

abbrev pub sybil_badge_weight_seed : List BadgeWeight
sybil_badge_weight_seed = map seed_row weight_table ++ map age_over_seed_row age_thresholds

abbrev pub sybil_category_seed : List (String × ℕ)
sybil_category_seed =
    ("email", 10)
    ∷ ("social-oauth", 30)
    ∷ ("wallet", 30)
    ∷ ("human-attribute", 40)
    ∷ ("domain", 20)
    ∷ ("attestation", 50)
    ∷ ("invite", 15)
    ∷ ("group", 0)
    ∷ []

abbrev pub sybil_bucket_config_seed : Cutoffs
sybil_bucket_config_seed = record { b1 = 5; b2 = 15; b3 = 28; b4 = 60; b3_cats = 2; b4_cats = 3 }

abbrev pub recovery_config_seed : Threshold
recovery_config_seed = record {
  threshold = 100;
  pending_threshold = none;
  threshold_effective_at = none;
}

abbrev pub seeded : ConfigTables
seeded = record {
  weights = sybil_badge_weight_seed;
  categories = sybil_category_seed;
  bucket_config = some sybil_bucket_config_seed;
  recovery_config = some recovery_config_seed;
}

abbrev pub known_badge_types : List String
known_badge_types =
    "email-domain"
    ∷ "email-exact"
    ∷ "domain-control"
    ∷ "oauth-account"
    ∷ "account-age"
    ∷ "social-following"
    ∷ "residency-country"
    ∷ "residency-state"
    ∷ "residency-city"
    ∷ "invite-code"
    ∷ "tlsn-attestation"
    ∷ "wallet-control"
    ∷ "wallet-age"
    ∷ "onchain-event"
    ∷ "public-key"
    ∷ "group-membership"
    ∷ map age_over age_thresholds
