-- ===== src/Policy.antt =====
-- apps/minister/src/lib/oidc-policy.ts: the policy tree, its size limits, its depth and its types.
-- A number of an attribute, an age in days and the two times are natural numbers.
pub mod Bounds
pub mod Types
pub mod Match
pub mod Evaluate
pub mod Select
mod Tests
use minister.Common.{
  ℕ, suc, ◌+◌, String, max, Bool, true, false, Option, none, some, List, [], ltb, nat_beq,
  if◌then◌else◌, string_eq, ◌==◌, ◌≡◌, ◌↔◌, arith, eq_iff, add, Entries,
}

pub data AttrValue : Type 0 where
  text : String → AttrValue
  number : ℕ → AttrValue
  boolean : Bool → AttrValue

pub record BadgeLeaf : Type 0 where
  pub badge_type : String
  pub where_attrs : Option (Entries String AttrValue)
  pub max_age_days : Option ℕ

mutual
  pub data PolicyNode : Type 0 where
    leaf : BadgeLeaf → PolicyNode
    all_of : Nodes → PolicyNode
    any_of : Nodes → PolicyNode
    at_least : ℕ → Nodes → PolicyNode

  pub data Nodes : Type 0 where
    nil : Nodes
    cons : PolicyNode → Nodes → Nodes

pub record UserBadge : Type 0 where
  pub id : String
  pub badge_type : String
  pub attributes : Entries String AttrValue
  pub issued_at : ℕ

abbrev pub max_policy_depth : ℕ
max_policy_depth = 8

abbrev pub max_at_least_n : ℕ
max_at_least_n = 16

abbrev pub max_node_children : ℕ
max_node_children = 16

abbrev pub max_policy_nodes : ℕ
max_policy_nodes = 64

abbrev pub count_nodes : Nodes → ℕ
count_nodes nil = 0
count_nodes (cons n ns) = suc (count_nodes ns)

-- The state of the walk: the nodes counted so far, or the reason at which it stopped.
pub data Walk : Type 0 where
  counted : ℕ → Walk
  stopped : String → Walk

abbrev pub walk_on : Walk → (ℕ → Walk) → Walk
walk_on (counted total) k = k total
walk_on (stopped reason) k = stopped reason

abbrev pub walk_children : Nodes → (ℕ → Walk) → ℕ → Walk
walk_children ns each total =
    if ltb max_node_children (count_nodes ns)
    then stopped "policy node has too many children"
    else each total

abbrev pub enter : ℕ → (ℕ → Walk) → Walk
enter total inside =
    if ltb max_policy_nodes (total + 1)
    then stopped "policy has too many nodes"
    else inside (total + 1)

unfoldable mutual
  pub walk : PolicyNode → ℕ → Walk
  walk (leaf l) total = enter total counted
  walk (all_of ns) total = enter total (walk_children ns (walk_nodes ns))
  walk (any_of ns) total = enter total (walk_children ns (walk_nodes ns))
  walk (at_least n ns) total = enter total (λ t.
      if ltb max_at_least_n n
      then stopped "atLeast.n exceeds the maximum"
      else walk_children ns (walk_nodes ns) t)

  pub walk_nodes : Nodes → ℕ → Walk
  walk_nodes nil total = counted total
  walk_nodes (cons n ns) total = walk_on (walk n total) (walk_nodes ns)

abbrev pub violation : Walk → Option String
violation (counted total) = none
violation (stopped reason) = some reason

unfoldable pub policy_bounds_violation : PolicyNode → Option String
unfolding walk
policy_bounds_violation node = violation (walk node 0)

unfoldable mutual
  pub policy_depth : PolicyNode → ℕ
  policy_depth (leaf l) = 1
  policy_depth (all_of ns) = 1 + max_child_depth ns
  policy_depth (any_of ns) = 1 + max_child_depth ns
  policy_depth (at_least n ns) = 1 + max_child_depth ns

  pub max_child_depth : Nodes → ℕ
  max_child_depth nil = 0
  max_child_depth (cons n ns) = max (policy_depth n) (max_child_depth ns)

-- The set `out` lists the types in the order in which they were added.
unfoldable mutual
  pub collect_types : PolicyNode → List String → List String
  collect_types (leaf l) out = add l.badge_type out
  collect_types (all_of ns) out = collect_types_all ns out
  collect_types (any_of ns) out = collect_types_all ns out
  collect_types (at_least n ns) out = collect_types_all ns out

  pub collect_types_all : Nodes → List String → List String
  collect_types_all nil out = out
  collect_types_all (cons n ns) out = collect_types_all ns (collect_types n out)

unfoldable pub policy_badge_types : PolicyNode → List String
unfolding collect_types
policy_badge_types node = collect_types node []

-- `===` on the values of attributes.
abbrev pub same_value : AttrValue → AttrValue → Bool
same_value (text s) (text t) = s == t
same_value (number m) (number n) = nat_beq m n
same_value (boolean true) (boolean true) = true
same_value (boolean false) (boolean false) = true
same_value _ _ = false

pub same_value_iff : (a b : AttrValue) → (same_value a b ≡ true) ↔ (a ≡ b)
same_value_iff (text s) (text t) = ground (arith, eq_iff s t)
same_value_iff (number m) (number n) = ground arith
same_value_iff (boolean true) (boolean b) = ground arith
same_value_iff (boolean false) (boolean b) = ground arith
same_value_iff a b = ground arith
