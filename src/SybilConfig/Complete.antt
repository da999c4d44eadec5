-- ===== src/SybilConfig/Complete.antt =====
-- What the check at boot of apps/minister/src/lib/sybil-config.ts promises to the requests that follow.
use minister.Common.{
  ℕ, String, ◌≡◌, refl, ap, true, ltb, Bool-cases, inl, inr, Option, none, some, List, [], ◌++◌,
  map, arith, In, string_eq, includes→In, lookup,
}
use minister.Sybil.{Cutoffs, SybilScoringConfig, build_sybil_scoring_config}
use minister.Recovery.Config.{Threshold}
use minister.Recovery.Attempt.{load_effective_threshold, recovery_weight_for_live}
use minister.SybilConfig.{
  SybilConfigDrift, BadgeWeight, ConfigTables, ConfigCacheEntry, scoring_row, read_config,
  load_sybil_scoring_config, missing_if, is_found, check_sybil_config_drift,
}
use minister.SybilConfig.Found.{
  not-false, sort_names-nil, keep-nil, IsStarOf, star_types-row, referenced-In, star-find,
  fold_categories-some, fold_caps-some, recovery_weight-some, HasStar, fold_weights-some,
}

-- What the requests can rely on for a type: a recovery weight at every time, a weight for the
-- scorer, and a category with a cap.
unfoldable pub IsServed : ConfigTables → SybilScoringConfig → String → Type 0
IsServed tables config t =
    ((provenance : Option String) (now : ℕ)
      → (weight : ℕ) × (recovery_weight_for_live t provenance now
            (map (λ (b : BadgeWeight). b.recovery) tables.weights)
          ≡ some weight))
    × HasStar config.weights t
    × ((category : String) × (lookup config.category_by_type t ≡ some category)
        × (is_found (lookup config.caps category) ≡ true))

-- The singletons that are there.
singletons :
    (bucket : Option Cutoffs) (recovery : Option Threshold)
    → missing_if (is_found bucket) "SybilBucketConfig"
        ++ missing_if (is_found recovery) "RecoveryConfig"
      ≡ []
    → ((b : Cutoffs) × (bucket ≡ some b)) × ((r : Threshold) × (recovery ≡ some r))
unfolding missing_if
singletons none recovery h = absurd cc
singletons (some b) none h = absurd cc
singletons (some b) (some r) h = ((b, refl), (r, refl))

singletons-of :
    (known : List String) (tables : ConfigTables)
    → (check_sybil_config_drift known tables).missing_singletons ≡ []
    → ((b : Cutoffs) × (tables.bucket_config ≡ some b))
      × ((r : Threshold) × (tables.recovery_config ≡ some r))
unfolding check_sybil_config_drift
singletons-of known tables h = singletons tables.bucket_config tables.recovery_config h

loads :
    (now : ℕ) (cache : Option ConfigCacheEntry) (tables : ConfigTables) (bucket : Cutoffs)
    → tables.bucket_config ≡ some bucket
    → is_found (load_sybil_scoring_config now cache tables).0 ≡ true
unfolding load_sybil_scoring_config read_config
loads now none tables bucket b = rw b refl
loads now (some entry) tables bucket b = elim (Bool-cases (ltb now entry.expires_at)) [
  | inl fresh ↦ rw fresh refl
  | inr old ↦ rw (old, b) refl
]

star-of :
    (t : String) (known : List String) (tables : ConfigTables)
    → (check_sybil_config_drift known tables).missing_star_rows ≡ []
    → In t known
    → (row : BadgeWeight) × In row tables.weights × IsStarOf t row
unfolding check_sybil_config_drift
star-of t known tables h m =
    elim (star_types-row t tables.weights []
      (not-false _ (keep-nil _ t known (sort_names-nil _ h) m))) [
        | inl e ↦ absurd (ground arith)
        | inr found ↦ found
      ]

category-of :
    (known : List String) (tables : ConfigTables) (row : BadgeWeight)
    → (check_sybil_config_drift known tables).dangling_categories ≡ []
    → In row tables.weights
    → In row.category (map (λ (r : String × ℕ). r.0) tables.categories)
unfolding check_sybil_config_drift
category-of known tables row h m = includes→In _ _ (
    not-false _ (
      keep-nil _ row.category _ (sort_names-nil _ h)
        (includes→In _ _ (referenced-In row tables.weights [] (inl m)))))

IsServed-of :
    (known : List String) (tables : ConfigTables) (bucket : Cutoffs) (t : String)
    → (check_sybil_config_drift known tables).missing_star_rows ≡ []
    → (check_sybil_config_drift known tables).dangling_categories ≡ []
    → In t known
    → IsServed tables
        (build_sybil_scoring_config (map scoring_row tables.weights) tables.categories bucket)
        t
unfolding IsServed build_sybil_scoring_config IsStarOf
IsServed-of known tables bucket t stars categories m =
    let (row, found, is_star) = star-of t known tables stars m in
    let (first, at) = star-find t tables.weights row found is_star in
    (
      λ provenance now. recovery_weight-some t provenance now _ first at,
      fold_weights-some t tables.weights [] (inr (row, found, is_star)),
      let (category, capped, e) =
            fold_categories-some (λ c. In c (map (λ (r : String × ℕ). r.0) tables.categories)) t
              tables.weights [] (λ r n. category-of known tables r categories n)
              (inr (row, found, is_star.0)) in
          (category, e, fold_caps-some category tables.categories [] (inl capped)),
    )

-- A clean check at boot is enough for the requests. If it finds no drift, the recovery threshold
-- can be read at every time, a load of the scorer's config never throws, whatever is cached, and
-- with the config that it reads, every type of the registry has a weight for the scorer and a
-- category with a cap, and a recovery weight for every provenance.
pub check_sybil_config_drift-IsComplete :
    (known : List String) (tables : ConfigTables)
    → check_sybil_config_drift known tables
      ≡ record { missing_star_rows = []; dangling_categories = []; missing_singletons = [] }
    → ((now : ℕ) → is_found (load_effective_threshold now tables.recovery_config) ≡ true)
      × ((now : ℕ) (cache : Option ConfigCacheEntry)
          → is_found (load_sybil_scoring_config now cache tables).0 ≡ true)
      × (config : SybilScoringConfig) × ((now : ℕ)
          → (load_sybil_scoring_config now none tables).0 ≡ some config)
      × ((t : String) → In t known → IsServed tables config t)
unfolding load_effective_threshold load_sybil_scoring_config read_config
check_sybil_config_drift-IsComplete known tables h =
    let ((bucket, b), (threshold, r)) =
      singletons-of known tables (ap (λ (d : SybilConfigDrift). d.missing_singletons) h) in
    (
      λ now. rw r refl,
      λ now cache. loads now cache tables bucket b,
      build_sybil_scoring_config (map scoring_row tables.weights) tables.categories bucket,
      λ now. rw b refl,
      λ t m.
          IsServed-of known tables bucket t (ap (λ (d : SybilConfigDrift). d.missing_star_rows) h)
            (ap (λ (d : SybilConfigDrift). d.dangling_categories) h) m,
    )
