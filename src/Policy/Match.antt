-- ===== src/Policy/Match.antt =====
-- apps/minister/src/lib/oidc-policy.ts: the augmenting-path matching of `maxDistinctBranchMatch`, over
-- the lists of witnesses of the branches. `tryAssign` calls itself through `badgeMatch`: it takes
-- fuel, one more than the number of badges.
pub mod Slots
pub mod Step
pub mod Fuel
pub mod Sound
use minister.Common.{
  ℕ, zero, suc, ◌+◌, Bool, true, false, Option, none, some, List, [], ◌∷◌, if◌then◌else◌, length,
  set, replicate,
}

-- `badgeMatch` and `visited`, which the calls of one search share. `none` is the index -1.
pub record Search : Type 0 where
  pub visited : List Bool
  pub badge_match : List (Option ℕ)

abbrev pub flag_at : List Bool → ℕ → Bool
flag_at [] i = false
flag_at (b ∷ bs) zero = b
flag_at (b ∷ bs) (suc i) = flag_at bs i

abbrev pub slot_at : List (Option ℕ) → ℕ → Option ℕ
slot_at [] i = none
slot_at (s ∷ ss) zero = s
slot_at (s ∷ ss) (suc i) = slot_at ss i

abbrev pub row_at : List (List ℕ) → ℕ → List ℕ
row_at [] i = []
row_at (r ∷ rs) zero = r
row_at (r ∷ rs) (suc i) = row_at rs i

abbrev pub visit : ℕ → Search → Search
visit bi s = record s { visited = set s.visited bi true }

abbrev pub assign : ℕ → ℕ → Search → Search
assign bi branch s = record s { badge_match = set s.badge_match bi (some branch) }

-- The loop over the badges that witness `branch`; `retry` is the recursive call.
unfoldable pub try_badges : (ℕ → Search → Bool × Search) → ℕ → List ℕ → Search → Bool × Search
try_badges retry branch [] s = (false, s)
try_badges retry branch (bi ∷ rest) s = elim (flag_at s.visited bi) [
  | true ↦ try_badges retry branch rest s
  | false ↦ elim (slot_at s.badge_match bi) [
    | none ↦ (true, assign bi branch (visit bi s))
    | some other ↦ elim (retry other (visit bi s)).0 [
      | true ↦ (true, assign bi branch (retry other (visit bi s)).1)
      | false ↦ try_badges retry branch rest (retry other (visit bi s)).1
    ]
  ]
]

unfoldable pub try_assign : List (List ℕ) → ℕ → ℕ → Search → Bool × Search
try_assign adjacency zero branch s = (false, s)
try_assign adjacency (suc fuel) branch s =
    try_badges (try_assign adjacency fuel) branch (row_at adjacency branch) s

-- One search for each branch, from a fresh `visited`; the count of those that found a badge.
unfoldable pub match_branches :
    List (List ℕ)
    → (badges branch rounds : ℕ) → (matched : ℕ) → List (Option ℕ)
    → ℕ × List (Option ℕ)
unfolding try_assign
match_branches adjacency badges branch zero matched slots = (matched, slots)
match_branches adjacency badges branch (suc rounds) matched slots =
    let (found, s) =
      try_assign adjacency (suc badges) branch
        (record { visited = replicate badges false; badge_match = slots }) in
    match_branches adjacency badges (branch + 1) rounds (if found then matched + 1 else matched)
      s.badge_match

unfoldable pub max_distinct_match : List (List ℕ) → ℕ → ℕ × List (Option ℕ)
unfolding match_branches
max_distinct_match adjacency badges =
    match_branches adjacency badges 0 (length adjacency) 0 (replicate badges none)
