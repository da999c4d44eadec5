-- ===== src/Policy/Select.antt =====
-- apps/minister/src/lib/oidc-policy.ts: the selection of the badges to disclose. A comparison answers
-- lt for a negative number, eq for 0 and gt for a positive one.
mod Rank
mod RankLaws
pub mod Held
pub mod Sound
pub mod Complete
pub mod Overlap
unfoldable pub use Rank.*
use minister.Common.{
  ℕ, zero, suc, ◌+◌, String, Bool, true, false, Option, none, some, List, [], ◌∷◌, ◌++◌, map,
  if◌then◌else◌, ltb, min, nat_beq, ◌||◌, ◌*◌, ◌/◌, ◌-◌, length, take, string_eq, add, Entries,
}
use minister.Policy.{
  PolicyNode, Nodes, leaf, all_of, any_of, at_least, nil, cons, UserBadge, BadgeLeaf,
}
use minister.Policy.Evaluate.{badge_satisfies_leaf, leaf_satisfied, evaluate}

abbrev pub max_at_least_combinations : ℕ
max_at_least_combinations = 500

-- A loop of `r` rounds from round `i`; the division is exact, since the product of the first rounds
-- is a binomial coefficient.
choose_from : ℕ → ℕ → ℕ → ℕ → ℕ
choose_from k zero i result = result
choose_from k (suc r) i result =
    let next = result * (k - i) / (i + 1) in
    elim (ltb max_at_least_combinations next) [
      | true ↦ max_at_least_combinations + 1
      | false ↦ choose_from k r (i + 1) next
    ]

unfoldable pub choose_count : ℕ → ℕ → ℕ
unfolding choose_from
choose_count k n =
    if ltb k n
    then 0
    else if nat_beq n 0 || nat_beq n k
    then 1
    else choose_from k (min n (k - n)) 0 1

-- The combinations in the order in which `pick` pushes them.
unfoldable pub n_combinations {ℓ} : {A : Type ℓ} → List A → ℕ → List (List A)
n_combinations xs zero = [] ∷ []
n_combinations [] (suc n) = []
n_combinations (x ∷ xs) (suc n) =
    map (λ c. x ∷ c) (n_combinations xs n) ++ n_combinations xs (suc n)

-- The candidates of a leaf: each badge that satisfies it.
abbrev pub leaf_candidates : BadgeLeaf → List UserBadge → ℕ → List Selection
leaf_candidates l [] now = []
leaf_candidates l (b ∷ badges) now =
    let rest = leaf_candidates l badges now in
    if badge_satisfies_leaf l b now
    then record { badge_ids = b.id ∷ []; types = b.badge_type ∷ [] } ∷ rest
    else rest

-- The bests of all children, or nothing if a child has none.
abbrev pub all_bests : List (Option Selection) → Option (List Selection)
all_bests [] = some []
all_bests (none ∷ bests) = none
all_bests (some best ∷ bests) = elim (all_bests bests) [
  | none ↦ none
  | some rest ↦ some (best ∷ rest)
]

-- The bests of the children that have one.
abbrev pub found_bests : List (Option Selection) → List Selection
found_bests [] = []
found_bests (none ∷ bests) = found_bests bests
found_bests (some best ∷ bests) = best ∷ found_bests bests

abbrev pub merge_all : Option (List Selection) → List Selection
merge_all none = []
merge_all (some bests) = merge_selections bests ∷ []

-- The selections of an `atLeast` node from the bests of its children.
unfoldable pub threshold_selections : ℕ → List Selection → Entries String ℕ → List Selection
unfolding choose_count n_combinations
threshold_selections zero bests counts = record { badge_ids = []; types = [] } ∷ []
threshold_selections (suc m) bests counts =
    let n = suc m in
    if ltb (length bests) n
    then []
    else let sorted = sort_selections counts bests in
      let prefix = take (min (length sorted) (n + 4)) sorted in
      if ltb max_at_least_combinations (choose_count (length prefix) n)
      then merge_selections (take n sorted) ∷ []
      else rank_and_cap counts (map merge_selections (n_combinations prefix n))

unfoldable mutual
  pub selections_for : PolicyNode → List UserBadge → Entries String ℕ → ℕ → List Selection
  selections_for (leaf l) badges counts now = rank_and_cap counts (leaf_candidates l badges now)
  selections_for (all_of ns) badges counts now =
      merge_all (all_bests (child_bests ns badges counts now))
  selections_for (any_of ns) badges counts now =
      rank_and_cap counts (found_bests (child_bests ns badges counts now))
  selections_for (at_least n ns) badges counts now =
      threshold_selections n (found_bests (child_bests ns badges counts now)) counts

  pub child_bests : Nodes → List UserBadge → Entries String ℕ → ℕ → List (Option Selection)
  child_bests nil badges counts now = []
  child_bests (cons n ns) badges counts now =
      best_of counts (selections_for n badges counts now) ∷ child_bests ns badges counts now

unfoldable mutual
  pub find_gaps : PolicyNode → List UserBadge → ℕ → List String → List String
  find_gaps (leaf l) badges now gaps =
      if leaf_satisfied l badges now then gaps else add l.badge_type gaps
  find_gaps (all_of ns) badges now gaps = find_gaps_unmet ns badges now gaps
  find_gaps (any_of ns) badges now gaps = find_gaps_each ns badges now gaps
  find_gaps (at_least n ns) badges now gaps = find_gaps_unmet ns badges now gaps

  pub find_gaps_unmet : Nodes → List UserBadge → ℕ → List String → List String
  find_gaps_unmet nil badges now gaps = gaps
  find_gaps_unmet (cons n ns) badges now gaps =
      find_gaps_unmet ns badges now
        (if evaluate n badges now then gaps else find_gaps n badges now gaps)

  pub find_gaps_each : Nodes → List UserBadge → ℕ → List String → List String
  find_gaps_each nil badges now gaps = gaps
  find_gaps_each (cons n ns) badges now gaps =
      find_gaps_each ns badges now (find_gaps n badges now gaps)

pub record SelectionResult : Type 0 where
  pub satisfiable : Bool
  pub selected_badge_ids : List String
  pub alternatives : List (List String)
  pub gaps : List String

abbrev pub to_result : List Selection → List String → SelectionResult
to_result [] gaps = record {
  satisfiable = false;
  selected_badge_ids = [];
  alternatives = [];
  gaps = gaps;
}
to_result (best ∷ rest) gaps = record {
  satisfiable = true;
  selected_badge_ids = best.badge_ids;
  alternatives = map (λ s. s.badge_ids) rest;
  gaps = [];
}

unfoldable pub select_minimal_anonymity_set :
    PolicyNode → List UserBadge → Entries String ℕ → ℕ → SelectionResult
unfolding selections_for find_gaps
select_minimal_anonymity_set policy badges counts now =
    to_result (selections_for policy badges counts now) (find_gaps policy badges now [])
