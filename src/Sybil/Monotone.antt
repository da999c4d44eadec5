-- ===== src/Sybil/Monotone.antt =====
-- A further badge never lowers the score.
use Prim.Native.Nat.{div_helper}
use Prim.Native.Nat.div
use minister.Common.{
  ℕ, zero, suc, ◌/◌, ◌^◌, ◌≤◌, min, max, String, ◌≡◌, refl, ap, inl, inr, false, not, ◌&&◌, ◌||◌,
  Option, none, some, List, [], ◌∷◌, ◌++◌, map, keep, arith, leb, Bool-cases, Entries, lookup,
  string_eq, ◌==◌,
}
use minister.Sybil.{
  ScorableBadge, SybilScoringConfig, SybilScoreResult, Cutoffs, Family, Families, Groups,
  same_family, raise, raise_in, is_counted, has_expired, group_in, group_badge, group_badges,
  sort_in, sorted, decayed, capped, contribution, sum_raw, count_qualifying, bucket_of,
  score_groups, no_groups, sybil_score, weight_for, family_key,
}

helper-grows : (k m n j : ℕ) → k ≤ div_helper k m n j
helper-grows k m zero j = omega arith
helper-grows k m (suc n) zero = omega (arith, helper-grows (suc k) m n m)
helper-grows k m (suc n) (suc j) = helper-grows k m n j

helper-le : (k m x y j : ℕ) → x ≤ y → div_helper k m x j ≤ div_helper k m y j
helper-le k m zero y j h = helper-grows k m y j
helper-le k m (suc x) zero j h = absurd (omega arith)
helper-le k m (suc x) (suc y) zero h = helper-le (suc k) m x y m (omega arith)
helper-le k m (suc x) (suc y) (suc j) h = helper-le k m x y j (omega arith)

div-le : (p x y : ℕ) → x ≤ y → x / p ≤ y / p
div-le zero x y h = omega arith
div-le (suc p) x y h = rw (div.suc x p, div.suc y p) (helper-le 0 p x y p h)

-- No longer, and each entry no larger.
Below : List ℕ → List ℕ → Type 0
Below [] ys = Unit
Below (x ∷ xs) [] = 1 ≤ 0
Below (x ∷ xs) (y ∷ ys) = (x ≤ y) × Below xs ys

Below-refl : (xs : List ℕ) → Below xs xs
unfolding Below
Below-refl [] = tt
Below-refl (x ∷ xs) = (omega arith, Below-refl xs)

sort_in-Below :
    (x y : ℕ) (xs ys : List ℕ) → x ≤ y → Below xs ys → Below (sort_in x xs) (sort_in y ys)
unfolding Below sort_in
sort_in-Below x y [] [] h b = (h, tt)
sort_in-Below x y [] (c ∷ ys) h b = (omega arith, tt)
sort_in-Below x y (a ∷ xs) [] h b = absurd (omega arith)
sort_in-Below x y (a ∷ xs) (c ∷ ys) h b =
    let first : a ≤ c = b.0 in
    (omega arith, sort_in-Below (min x a) (min y c) xs ys (omega arith) b.1)

sort_in-more : (x : ℕ) (xs : List ℕ) → Below xs (sort_in x xs)
unfolding Below sort_in
sort_in-more x [] = tt
sort_in-more x (a ∷ xs) = (omega arith, sort_in-more (min x a) xs)

decayed-Below : (i : ℕ) (xs ys : List ℕ) → Below xs ys → decayed i xs ≤ decayed i ys
unfolding Below decayed
decayed-Below i [] ys b = omega arith
decayed-Below i (x ∷ xs) [] b = absurd (omega arith)
decayed-Below i (x ∷ xs) (y ∷ ys) b =
    omega (arith, div-le (2 ^ i) x y b.0, decayed-Below (suc i) xs ys b.1)

abbrev weights_of : Families → List ℕ
weights_of families = map (λ f. f.1) families

raise-Below :
    (key : Family) (weight : ℕ) (families : Families)
    → Below (sorted (weights_of families)) (sorted (weights_of (raise key weight families)))
unfolding raise sorted Below
raise-Below key weight [] = tt
raise-Below key weight ((k, w) ∷ families) = elim (Bool-cases (same_family k key)) [
  | inl same ↦
      rw same (
        sort_in-Below w (max w weight) _ _ (omega arith)
          (Below-refl (sorted (weights_of families))))
  | inr differs ↦ rw differs (sort_in-Below w w _ _ (omega arith) (raise-Below key weight families))
]

capped-le : (cap : Option ℕ) (n m : ℕ) → n ≤ m → capped cap n ≤ capped cap m
unfolding capped
capped-le none n m h = h
capped-le (some c) n m h = omega arith

module _ (config : SybilScoringConfig) where
  contribution-raise :
      (category : String) (key : Family) (weight : ℕ) (families : Families)
      → contribution config category families
        ≤ contribution config category (raise key weight families)
  unfolding contribution
  contribution-raise category key weight families =
      capped-le (lookup config.caps category) _ _
        (decayed-Below 0 _ _ (raise-Below key weight families))

  sum_raw-raise_in :
      (category : String) (key : Family) (weight : ℕ) (groups : Entries String Families)
      → sum_raw config groups ≤ sum_raw config (raise_in category key weight groups)
  unfolding sum_raw raise_in
  sum_raw-raise_in category key weight [] = omega arith
  sum_raw-raise_in category key weight ((c, families) ∷ rest) = elim (Bool-cases (c == category)) [
    | inl same ↦ rw same (omega (arith, contribution-raise c key weight families))
    | inr differs ↦ rw differs (omega (arith, sum_raw-raise_in category key weight rest))
  ]

  count_qualifying-raise_in :
      (category : String) (key : Family) (weight : ℕ) (groups : Entries String Families)
      → count_qualifying config groups
        ≤ count_qualifying config (raise_in category key weight groups)
  unfolding count_qualifying raise_in
  count_qualifying-raise_in category key weight [] = omega arith
  count_qualifying-raise_in category key weight ((c, families) ∷ rest) =
      elim (Bool-cases (c == category)) [
        | inl same ↦ rw same (ground (arith, contribution-raise c key weight families))
        | inr differs ↦
            rw differs (omega (arith, count_qualifying-raise_in category key weight rest))
      ]

bucket_of-le :
    (c : Cutoffs) (raw more cats wider : ℕ)
    → raw ≤ more
    → cats ≤ wider
    → bucket_of c raw cats ≤ bucket_of c more wider
unfolding bucket_of
bucket_of-le c raw more cats wider h k = ground arith

-- Neither the raw score nor the bucket of the second result is lower.
unfoldable pub IsNoLower : SybilScoreResult → SybilScoreResult → Type 0
IsNoLower before after = (before.raw ≤ after.raw) × (before.bucket ≤ after.bucket)

module _ (config : SybilScoringConfig) (now : ℕ) (native : String) where
  score_groups-raised :
      (groups : Groups) (category : String) (key : Family) (weight seq : ℕ)
      → IsNoLower (score_groups config groups) (
          score_groups config (record {
            per_category = raise_in category key weight groups.per_category;
            member_seq = seq;
          }))
  unfolding IsNoLower score_groups
  score_groups-raised groups category key weight seq = (
    sum_raw-raise_in config category key weight groups.per_category,
    bucket_of-le config.cutoffs _ _ _ _
        (sum_raw-raise_in config category key weight groups.per_category)
        (count_qualifying-raise_in config category key weight groups.per_category),
  )

  score_groups-same :
      (groups : Groups) → IsNoLower (score_groups config groups) (score_groups config groups)
  unfolding IsNoLower
  score_groups-same groups = (omega arith, omega arith)

  score_groups-group_in :
      (category : Option String) (weight : ℕ) (badge : ScorableBadge) (groups : Groups)
      → IsNoLower
          (score_groups config groups)
          (score_groups config (group_in category weight badge groups))
  unfolding group_in
  score_groups-group_in none weight badge groups = score_groups-same groups
  score_groups-group_in (some category) weight badge groups =
      score_groups-raised groups category (family_key badge.type groups.member_seq) weight _

  score_groups-group_badge :
      (badge : ScorableBadge) (groups : Groups)
      → IsNoLower
          (score_groups config groups)
          (score_groups config (group_badge config now native badge groups))
  unfolding group_badge
  score_groups-group_badge badge groups =
      elim (Bool-cases (not (is_counted now native badge) || leb (weight_for config badge) 0)) [
        | inl skipped ↦ rw skipped (score_groups-same groups)
        | inr counted ↦ rw counted (
            score_groups-group_in (lookup config.category_by_type badge.type)
              (weight_for config badge) badge groups)
      ]

  group_badges-append :
      (badges : List ScorableBadge) (badge : ScorableBadge) (groups : Groups)
      → group_badges config now native (badges ++ badge ∷ []) groups
        ≡ group_badge config now native badge (group_badges config now native badges groups)
  unfolding group_badges
  group_badges-append [] badge groups = refl
  group_badges-append (b ∷ badges) badge groups =
      group_badges-append badges badge (group_badge config now native b groups)

  group_badge-skipped :
      (badge : ScorableBadge) (groups : Groups)
      → is_counted now native badge ≡ false
      → group_badge config now native badge groups ≡ groups
  unfolding group_badge
  group_badge-skipped badge groups skipped = rw skipped refl

  group_badges-counted :
      (badges : List ScorableBadge) (groups : Groups)
      → group_badges config now native badges groups
        ≡ group_badges config now native (keep (is_counted now native) badges) groups
  unfolding group_badges
  group_badges-counted [] groups = refl
  group_badges-counted (badge ∷ badges) groups = elim (Bool-cases (is_counted now native badge)) [
    | inl counted ↦
        rw counted (group_badges-counted badges (group_badge config now native badge groups))
    | inr skipped ↦
        rw (skipped, group_badge-skipped badge groups skipped) (group_badges-counted badges groups)
  ]

-- What one more badge does to the score of a user, with any config and at any time: neither the raw
-- score nor the bucket falls, also where the badge pushes others of its category down the decay, or
-- takes the place of another of its family.
pub sybil_score-IsNoLower :
    (config : SybilScoringConfig) (now : ℕ) (native : String) (badges : List ScorableBadge)
    (badge : ScorableBadge)
    → IsNoLower
        (sybil_score badges config now native)
        (sybil_score (badges ++ badge ∷ []) config now native)
unfolding sybil_score
sybil_score-IsNoLower config now native badges badge =
    rw (group_badges-append config now native badges badge no_groups) (
      score_groups-group_badge config now native badge
        (group_badges config now native badges no_groups))

-- Only the badges that Minister itself has issued and that have not expired count: without the
-- others the score is the same.
sybil_score-counted :
    (config : SybilScoringConfig) (now : ℕ) (native : String) (badges : List ScorableBadge)
    → sybil_score badges config now native
      ≡ sybil_score
          (keep (λ b. (b.issuer == native) && not (has_expired now b.expires_at)) badges)
          config
          now
          native
unfolding sybil_score is_counted
sybil_score-counted config now native badges =
    ap (score_groups config) (group_badges-counted config now native badges no_groups)
