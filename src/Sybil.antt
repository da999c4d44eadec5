-- ===== src/Sybil.antt =====
-- apps/minister/src/lib/sybil-score.ts: the sybil score of the badges that a user holds, with the
-- shapes of apps/minister/src/lib/sybil-config.ts. Weights, caps and cutoffs are natural numbers.
pub mod Monotone
mod Tests
use Prim.Native.String
use minister.Common.{
  ℕ, suc, ◌+◌, ◌/◌, ◌^◌, min, max, String, Bool, true, false, not, ◌&&◌, ◌||◌, Option, none, some,
  List, [], ◌∷◌, map, ltb, leb, nat_beq, if◌then◌else◌, is_some, after_prefix, Entries, lookup,
  insert, string_eq, ◌==◌,
}

-- A value of a badge's attributes: a text, a number by its decimal form, or anything else.
pub data Attribute : Type 0 where
  text : String → Attribute
  number : String → Attribute
  other : Attribute

pub record ScorableBadge : Type 0 where
  pub type : String
  pub attributes : Entries String Attribute
  pub expires_at : Option ℕ
  pub issuer : String

pub record Cutoffs : Type 0 where
  pub b1 : ℕ
  pub b2 : ℕ
  pub b3 : ℕ
  pub b4 : ℕ
  pub b3_cats : ℕ
  pub b4_cats : ℕ

pub record SybilScoringConfig : Type 0 where
  pub weights : Entries String (Entries String ℕ)
  pub category_by_type : Entries String String
  pub caps : Entries String ℕ
  pub cutoffs : Cutoffs

pub record SybilScoreResult : Type 0 where
  pub raw : ℕ
  pub bucket : ℕ

pub record WeightRow : Type 0 where
  pub badge_type : String
  pub qualifier : String
  pub sybil_weight : ℕ
  pub category : String

unfoldable pub or_empty : Option (Entries String ℕ) → Entries String ℕ
or_empty none = []
or_empty (some by_qualifier) = by_qualifier

unfoldable pub fold_weights :
    List WeightRow → Entries String (Entries String ℕ) → Entries String (Entries String ℕ)
fold_weights [] weights = weights
fold_weights (row ∷ rows) weights = fold_weights rows (
    insert weights row.badge_type
      (insert (or_empty (lookup weights row.badge_type)) row.qualifier row.sybil_weight))

unfoldable pub fold_categories : List WeightRow → Entries String String → Entries String String
fold_categories [] categories = categories
fold_categories (row ∷ rows) categories =
    fold_categories rows (insert categories row.badge_type row.category)

unfoldable pub fold_caps : List (String × ℕ) → Entries String ℕ → Entries String ℕ
fold_caps [] caps = caps
fold_caps ((name, cap) ∷ rows) caps = fold_caps rows (insert caps name cap)

unfoldable pub build_sybil_scoring_config :
    List WeightRow → List (String × ℕ) → Cutoffs → SybilScoringConfig
build_sybil_scoring_config rows categories cutoffs = record {
  weights = fold_weights rows [];
  category_by_type = fold_categories rows [];
  caps = fold_caps categories [];
  cutoffs = cutoffs;
}

abbrev category_qualify_threshold : ℕ
category_qualify_threshold = 8

-- The text of an attribute that is a number or a text.
unfoldable pub shown : Option Attribute → Option String
shown none = none
shown (some (text s)) = some s
shown (some (number s)) = some s
shown (some other) = none

unfoldable pub provider_of : Option Attribute → Option String
provider_of none = none
provider_of (some (text s)) = some s
provider_of (some (number s)) = none
provider_of (some other) = none

unfoldable pub then_any : Option String → List String
then_any none = "*" ∷ []
then_any (some s) = s ∷ "*" ∷ []

unfoldable pub with_tier : Option String → Option String → List String
with_tier none tier = "*" ∷ []
with_tier (some provider) none = provider ∷ "*" ∷ []
with_tier (some provider) (some tier) =
    String.◌++◌ provider (String.◌++◌ ":" tier) ∷ provider ∷ "*" ∷ []

unfoldable pub qualifier_chain : String → Entries String Attribute → List String
qualifier_chain type attrs =
    let provider = provider_of (lookup attrs "provider") in
    if type == "oauth-account"
    then then_any provider
    else if type == "account-age"
    then with_tier provider (shown (lookup attrs "olderThanMonths"))
    else if type == "wallet-age"
    then then_any (shown (lookup attrs "olderThanMonths"))
    else if type == "social-following"
    then with_tier provider (shown (lookup attrs "followersAtLeast"))
    else "*" ∷ []

unfoldable pub or_else : Option ℕ → ℕ → ℕ
or_else none n = n
or_else (some w) n = w

unfoldable pub first_weight : Entries String ℕ → List String → ℕ
first_weight by_qualifier [] = 0
first_weight by_qualifier (q ∷ chain) =
    or_else (lookup by_qualifier q) (first_weight by_qualifier chain)

-- A type without rows has the weight 0.
unfoldable pub weight_for : SybilScoringConfig → ScorableBadge → ℕ
weight_for config badge =
    first_weight (or_empty (lookup config.weights badge.type))
      (qualifier_chain badge.type badge.attributes)

pub data Family : Type 0 where
  age_over : Family
  residency : Family
  single : ℕ → Family

unfoldable pub same_family : Family → Family → Bool
same_family age_over age_over = true
same_family residency residency = true
same_family (single n) (single k) = nat_beq n k
same_family _ _ = false

unfoldable pub family_key : String → ℕ → Family
family_key type seq =
    if is_some (after_prefix "age-over-" type)
    then age_over
    else if is_some (after_prefix "residency-" type)
    then residency
    else single seq

unfoldable pub is_single : Family → Bool
is_single age_over = false
is_single residency = false
is_single (single n) = true

abbrev Families : Type 0
Families = List (Family × ℕ)

-- `families.set(key, weight)` if the key is new or has less.
unfoldable pub raise : Family → ℕ → Families → Families
raise key weight [] = (key, weight) ∷ []
raise key weight ((k, w) ∷ families) =
    if same_family k key then (k, max w weight) ∷ families else (k, w) ∷ raise key weight families

-- The families of a category, which is added if it is new.
unfoldable pub raise_in : String → Family → ℕ → Entries String Families → Entries String Families
raise_in category key weight [] = (category, (key, weight) ∷ []) ∷ []
raise_in category key weight ((c, families) ∷ rest) =
    if c == category
    then (c, raise key weight families) ∷ rest
    else (c, families) ∷ raise_in category key weight rest

pub record Groups : Type 0 where
  pub per_category : Entries String Families
  pub member_seq : ℕ

unfoldable pub has_expired : ℕ → Option ℕ → Bool
has_expired now none = false
has_expired now (some at) = ltb at now

unfoldable pub is_counted : ℕ → String → ScorableBadge → Bool
is_counted now native badge = badge.issuer == native && not (has_expired now badge.expires_at)

unfoldable pub group_in : Option String → ℕ → ScorableBadge → Groups → Groups
group_in none weight badge groups = groups
group_in (some category) weight badge groups =
    let key = family_key badge.type groups.member_seq in
    record {
      per_category = raise_in category key weight groups.per_category;
      member_seq = if is_single key then suc groups.member_seq else groups.member_seq;
    }

-- One badge of the loop.
unfoldable pub group_badge : SybilScoringConfig → ℕ → String → ScorableBadge → Groups → Groups
group_badge config now native badge groups =
    let weight = weight_for config badge in
    if not (is_counted now native badge) || leb weight 0
    then groups
    else group_in (lookup config.category_by_type badge.type) weight badge groups

unfoldable pub group_badges : SybilScoringConfig → ℕ → String → List ScorableBadge → Groups → Groups
group_badges config now native [] groups = groups
group_badges config now native (badge ∷ badges) groups =
    group_badges config now native badges (group_badge config now native badge groups)

-- The sort, from the largest.
unfoldable pub sort_in : ℕ → List ℕ → List ℕ
sort_in x [] = x ∷ []
sort_in x (y ∷ ys) = max x y ∷ sort_in (min x y) ys

unfoldable pub sorted : List ℕ → List ℕ
sorted [] = []
sorted (x ∷ xs) = sort_in x (sorted xs)

-- Each further weight counts half of the one before.
unfoldable pub decayed : ℕ → List ℕ → ℕ
decayed i [] = 0
decayed i (w ∷ ws) = w / 2 ^ i + decayed (suc i) ws

unfoldable pub capped : Option ℕ → ℕ → ℕ
capped none n = n
capped (some cap) n = min n cap

unfoldable pub contribution : SybilScoringConfig → String → Families → ℕ
contribution config category families =
    capped (lookup config.caps category) (decayed 0 (sorted (map (λ f. f.1) families)))

unfoldable pub sum_raw : SybilScoringConfig → Entries String Families → ℕ
sum_raw config [] = 0
sum_raw config ((category, families) ∷ rest) =
    contribution config category families + sum_raw config rest

unfoldable pub count_qualifying : SybilScoringConfig → Entries String Families → ℕ
count_qualifying config [] = 0
count_qualifying config ((category, families) ∷ rest) =
    (if leb category_qualify_threshold (contribution config category families) then 1 else 0)
    + count_qualifying config rest

unfoldable pub bucket_of : Cutoffs → ℕ → ℕ → ℕ
bucket_of c raw cats =
    if leb c.b4 raw && leb c.b4_cats cats
    then 4
    else if leb c.b3 raw && leb c.b3_cats cats
    then 3
    else if leb c.b2 raw
    then 2
    else if leb c.b1 raw
    then 1
    else 0

unfoldable pub score_groups : SybilScoringConfig → Groups → SybilScoreResult
score_groups config groups =
    let raw = sum_raw config groups.per_category in
    record {
      raw = raw;
      bucket = bucket_of config.cutoffs raw (count_qualifying config groups.per_category);
    }

abbrev no_groups : Groups
no_groups = record { per_category = []; member_seq = 0 }

unfoldable pub sybil_score : List ScorableBadge → SybilScoringConfig → ℕ → String → SybilScoreResult
sybil_score badges config now native =
    score_groups config (group_badges config now native badges no_groups)
