-- ===== src/SybilConfig/Tests.antt =====
-- A concrete config of the scores.
use minister.Common.{
  ℕ, String, true, false, ◌≡◌, refl, Option, none, some, [], ◌∷◌, In, here, there, map,
}
use minister.Sybil.{Cutoffs, SybilScoringConfig, build_sybil_scoring_config}
use minister.Recovery.Assurance.{recovery_weight_for}
use minister.Recovery.Attempt.{recovery_weight_for_live, load_effective_threshold}
use minister.SybilConfig.{
  BadgeWeight, ConfigTables, ConfigCacheEntry, is_found, load_sybil_scoring_config, read_config,
  sort_name, sort_names, star_types, referenced_categories, missing_if, check_sybil_config_drift,
}
use minister.SybilConfig.Seed.{
  seed_row, age_over_seed_row, sybil_badge_weight_seed, seeded, known_badge_types,
}
use minister.SybilConfig.Parity.{recovery_weight_for_live-seed}
use minister.SybilConfig.Complete.{IsServed, check_sybil_config_drift-IsComplete}

abbrev passport : String → ℕ → BadgeWeight
passport qualifier weight = record {
  recovery = record {
    badge_type = "residency-country";
    qualifier = qualifier;
    recovery_weight = 40;
    pending_recovery_weight = none;
    recovery_effective_at = none;
    allow_solo_recovery = false;
  };
  sybil_weight = weight;
  category = "government";
}

abbrev cutoffs : Cutoffs
cutoffs = record { b1 = 10; b2 = 25; b3 = 45; b4 = 70; b3_cats = 2; b4_cats = 3 }

abbrev tables : ConfigTables
tables = record {
  weights = passport "us" 30 ∷ passport "*" 20 ∷ [];
  categories = ("government", 60) ∷ [];
  bucket_config = some cutoffs;
  recovery_config =
      some (record { threshold = 100; pending_threshold = none; threshold_effective_at = none });
}

-- A second type has no row, and without the category both rows dangle, but are listed once.
drift :
    check_sybil_config_drift
      ("oauth-account" ∷ "residency-country" ∷ "email-exact" ∷ [])
      (record tables { categories = []; recovery_config = none })
    ≡ record {
      missing_star_rows = "email-exact" ∷ "oauth-account" ∷ [];
      dangling_categories = "government" ∷ [];
      missing_singletons = "RecoveryConfig" ∷ [];
    }
unfolding check_sybil_config_drift star_types referenced_categories sort_names sort_name missing_if
drift = refl

-- Within a minute, the cached config is used, also after the singleton has gone.
cached :
    (entry : ConfigCacheEntry) × (load_sybil_scoring_config 0 none tables
      ≡ (some entry.value, some entry))
    × (load_sybil_scoring_config 59_999 (some entry) (record tables { bucket_config = none })
        ≡ (some entry.value, some entry))
    × (load_sybil_scoring_config 60_000 (some entry) (record tables { bucket_config = none })
        ≡ (none, some entry))
unfolding load_sybil_scoring_config read_config
cached = (
  record { value = build_sybil_scoring_config _ _ cutoffs; expires_at = 60_000 },
  refl,
  refl,
  refl,
)

-- A new database has no drift.
clean :
    check_sybil_config_drift known_badge_types seeded
    ≡ record { missing_star_rows = []; dangling_categories = []; missing_singletons = [] }
unfolding check_sybil_config_drift star_types referenced_categories sort_names sort_name missing_if
    seed_row age_over_seed_row
clean = refl

check_sybil_config_drift-IsComplete_example :
    ((now : ℕ) → is_found (load_effective_threshold now seeded.recovery_config) ≡ true)
    × ((now : ℕ) (cache : Option ConfigCacheEntry)
        → is_found (load_sybil_scoring_config now cache seeded).0 ≡ true)
    × (config : SybilScoringConfig) × ((now : ℕ)
        → (load_sybil_scoring_config now none seeded).0 ≡ some config)
    × ((t : String) → In t known_badge_types → IsServed seeded config t)
check_sybil_config_drift-IsComplete_example =
    check_sybil_config_drift-IsComplete known_badge_types seeded clean

recovery_weight_for_live-seed_example :
    recovery_weight_for_live "oauth-account"
      (some "steam")
      1000
      (map (λ (b : BadgeWeight). b.recovery) sybil_badge_weight_seed)
    ≡ some (recovery_weight_for "oauth-account" (some "steam"))
recovery_weight_for_live-seed_example =
    recovery_weight_for_live-seed "oauth-account" (some "steam") 1000 (there (there (there here)))
