-- ===== src/Sybil/Tests.antt =====
-- A run of the score, and the witnesses.
use minister.Common.{◌≡◌, refl, none, some, [], ◌∷◌, lookup, insert, after_prefix, string_eq}
use minister.Sybil.{
  text, number, ScorableBadge, SybilScoringConfig, build_sybil_scoring_config, has_expired,
  sybil_score, fold_weights, fold_categories, fold_caps, or_empty, is_counted, group_in,
  group_badge, group_badges, sort_in, sorted, decayed, capped, contribution, sum_raw,
  count_qualifying, bucket_of, score_groups, weight_for, first_weight, or_else, qualifier_chain,
  then_any, with_tier, provider_of, shown, family_key, is_single, raise, raise_in, same_family,
}
use minister.Sybil.Monotone.{IsNoLower, sybil_score-IsNoLower}

abbrev config : SybilScoringConfig
config =
    build_sybil_scoring_config
      (record {
        badge_type = "oauth-account";
        qualifier = "github";
        sybil_weight = 10;
        category = "social";
      }
        ∷ record {
          badge_type = "account-age";
          qualifier = "github:24";
          sybil_weight = 13;
          category = "social";
        }
        ∷ [])
      (("social", 18) ∷ []) (record { b1 = 5; b2 = 15; b3 = 30; b4 = 50; b3_cats = 2; b4_cats = 3 })

abbrev account : ScorableBadge
account = record {
  type = "oauth-account";
  attributes = ("provider", text "github") ∷ [];
  expires_at = none;
  issuer = "did:minister";
}

abbrev age : ScorableBadge
age = record {
  type = "account-age";
  attributes = ("provider", text "github") ∷ ("olderThanMonths", number "24") ∷ [];
  expires_at = some 5000;
  issuer = "did:minister";
}

-- The larger weight counts in full, the smaller one half.
score-both :
    sybil_score (account ∷ age ∷ []) config 1000 "did:minister" ≡ record { raw = 18; bucket = 2 }
unfolding sybil_score group_badges group_badge group_in raise_in raise is_counted has_expired
    weight_for first_weight or_else qualifier_chain then_any with_tier provider_of shown family_key
    is_single score_groups sum_raw contribution decayed sorted sort_in capped bucket_of
    count_qualifying build_sybil_scoring_config fold_weights fold_categories fold_caps or_empty
    same_family lookup insert after_prefix
score-both = refl

sybil_score-IsNoLower_example :
    IsNoLower
      (sybil_score (account ∷ []) config 1000 "did:minister")
      (sybil_score (account ∷ age ∷ []) config 1000 "did:minister")
sybil_score-IsNoLower_example = sybil_score-IsNoLower config 1000 "did:minister" (account ∷ []) age
