-- ===== src/SybilConfig.antt =====
-- apps/minister/src/lib/sybil-config.ts: the tables of the scores, the cached config of the scorer,
-- and the check at boot that the tables are complete. The other live reads of that file are in
-- Recovery.Attempt.
mod Tests
pub mod Found
pub mod Complete
pub mod Seed
pub mod Parity
use Prim.Native.String.{compare}
use text.Mathlib.Text.{is_le}
use minister.Common.{
  ℕ, ◌+◌, ◌*◌, String, Bool, true, false, not, Option, none, some, List, [], ◌∷◌, ◌++◌, map, keep,
  ltb, if◌then◌else◌, string_eq, ◌==◌, includes, add,
}
use minister.Sybil.{Cutoffs, SybilScoringConfig, build_sybil_scoring_config}
use minister.Sybil
use minister.Recovery.Config
use minister.Recovery.Config.{Threshold}

-- A BadgeWeight row: its key and recovery columns, and its columns for the scorer.
pub record BadgeWeight : Type 0 where
  pub recovery : Config.WeightRow
  pub sybil_weight : ℕ
  pub category : String

pub record ConfigTables : Type 0 where
  pub weights : List BadgeWeight
  pub categories : List (String × ℕ)
  pub bucket_config : Option Cutoffs
  pub recovery_config : Option Threshold

pub record ConfigCacheEntry : Type 0 where
  pub value : SybilScoringConfig
  pub expires_at : ℕ

abbrev pub config_cache_ttl_ms : ℕ
config_cache_ttl_ms = 60_000

unfoldable pub scoring_row : BadgeWeight → Sybil.WeightRow
scoring_row row = record {
  badge_type = row.recovery.badge_type;
  qualifier = row.recovery.qualifier;
  sybil_weight = row.sybil_weight;
  category = row.category;
}

-- The config that is read anew, and the entry that keeps it; `none` is a throw.
unfoldable pub read_config :
    ℕ
    → Option ConfigCacheEntry
    → ConfigTables
    → Option Cutoffs
    → Option SybilScoringConfig × Option ConfigCacheEntry
read_config now cache tables none = (none, cache)
read_config now cache tables (some bucket) =
    let value =
      build_sybil_scoring_config (map scoring_row tables.weights) tables.categories bucket in
    (some value, some (record { value = value; expires_at = now + config_cache_ttl_ms }))

unfoldable pub load_sybil_scoring_config :
    ℕ → Option ConfigCacheEntry → ConfigTables → Option SybilScoringConfig × Option ConfigCacheEntry
load_sybil_scoring_config now none tables = read_config now none tables tables.bucket_config
load_sybil_scoring_config now (some entry) tables =
    if ltb now entry.expires_at
    then (some entry.value, some entry)
    else read_config now (some entry) tables tables.bucket_config

pub record SybilConfigDrift : Type 0 where
  pub missing_star_rows : List String
  pub dangling_categories : List String
  pub missing_singletons : List String

-- `names.sort()`
unfoldable pub sort_name : String → List String → List String
sort_name x [] = x ∷ []
sort_name x (y ∷ ys) = if is_le (compare x y) then x ∷ y ∷ ys else y ∷ sort_name x ys

unfoldable pub sort_names : List String → List String
sort_names [] = []
sort_names (x ∷ xs) = sort_name x (sort_names xs)

unfoldable pub star_types : List BadgeWeight → List String → List String
star_types [] types = types
star_types (row ∷ rows) types =
    star_types rows
      (if row.recovery.qualifier == "*" then add row.recovery.badge_type types else types)

unfoldable pub referenced_categories : List BadgeWeight → List String → List String
referenced_categories [] names = names
referenced_categories (row ∷ rows) names = referenced_categories rows (add row.category names)

abbrev pub is_found {ℓ} : {A : Type ℓ} → Option A → Bool
is_found none = false
is_found (some a) = true

unfoldable pub missing_if : Bool → String → List String
missing_if is_present name = if is_present then [] else name ∷ []

-- `known` are the types of the registry.
unfoldable pub check_sybil_config_drift : List String → ConfigTables → SybilConfigDrift
check_sybil_config_drift known tables = record {
  missing_star_rows =
      sort_names (keep (λ t. not (includes t (star_types tables.weights []))) known);
  dangling_categories = sort_names (
      keep (λ c. not (includes c (map (λ (row : String × ℕ). row.0) tables.categories)))
        (referenced_categories tables.weights []));
  missing_singletons =
      missing_if (is_found tables.bucket_config) "SybilBucketConfig"
      ++ missing_if (is_found tables.recovery_config) "RecoveryConfig";
}
