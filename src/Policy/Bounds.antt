-- ===== src/Policy/Bounds.antt =====
-- What `policyBoundsViolation` and the depth accept.
use minister.Common.{ℕ, ◌+◌, ◌≤◌, ◌≡◌, refl, ap, ◌↔◌, none, arith}
use minister.Policy.{
  PolicyNode, Nodes, leaf, all_of, any_of, at_least, nil, cons, max_at_least_n, max_node_children,
  max_policy_nodes, count_nodes, Walk, counted, stopped, walk_on, walk, walk_nodes, violation,
  policy_bounds_violation, policy_depth, max_child_depth,
}

-- The nodes of the whole tree.
unfoldable mutual
  pub size : PolicyNode → ℕ
  size (leaf l) = 1
  size (all_of ns) = 1 + size_all ns
  size (any_of ns) = 1 + size_all ns
  size (at_least n ns) = 1 + size_all ns

  pub size_all : Nodes → ℕ
  size_all nil = 0
  size_all (cons n ns) = size n + size_all ns

-- No node has more than the allowed children, and no threshold is too large.
mutual
  pub IsNarrow : PolicyNode → Type 0
  IsNarrow (leaf l) = Unit
  IsNarrow (all_of ns) = (count_nodes ns ≤ max_node_children) × AreNarrow ns
  IsNarrow (any_of ns) = (count_nodes ns ≤ max_node_children) × AreNarrow ns
  IsNarrow (at_least n ns) =
      (n ≤ max_at_least_n) × (count_nodes ns ≤ max_node_children) × AreNarrow ns

  pub AreNarrow : Nodes → Type 0
  AreNarrow nil = Unit
  AreNarrow (cons n ns) = IsNarrow n × AreNarrow ns

-- What a walk of a subtree of `s` nodes that starts at `total` does.
mutual
  unfolding walk size IsNarrow

  walk_counts :
      (n : PolicyNode) (total : ℕ)
      → IsNarrow n
      → total + size n ≤ max_policy_nodes
      → walk n total ≡ counted (total + size n)
  walk_counts (leaf l) total h k = ground arith
  walk_counts (all_of ns) total h k = ground (arith, walk_counts_all ns (total + 1) h.1)
  walk_counts (any_of ns) total h k = ground (arith, walk_counts_all ns (total + 1) h.1)
  walk_counts (at_least n ns) total h k = ground (arith, walk_counts_all ns (total + 1) h.2)

  walk_counts_all :
      (ns : Nodes) (total : ℕ)
      → AreNarrow ns
      → total + size_all ns ≤ max_policy_nodes
      → walk_nodes ns total ≡ counted (total + size_all ns)
  walk_counts_all nil total h k = ground arith
  walk_counts_all (cons n ns) total h k =
      ground (arith, walk_counts n total h.0, walk_counts_all ns (total + size n) h.1)

walk_on-counted :
    (w : Walk) (k : ℕ → Walk) {end : ℕ}
    → walk_on w k ≡ counted end
    → (mid : ℕ) × (w ≡ counted mid) × (k mid ≡ counted end)
walk_on-counted (counted total) k h = (total, refl, h)
walk_on-counted (stopped reason) k h = cc

violation-none : (w : Walk) → violation w ≡ none → (end : ℕ) × (w ≡ counted end)
violation-none (counted total) h = (total, refl)
violation-none (stopped reason) h = cc

mutual
  unfolding walk size IsNarrow

  counted_walk :
      (n : PolicyNode) (total end : ℕ)
      → walk n total ≡ counted end
      → IsNarrow n × (end ≡ total + size n) × (end ≤ max_policy_nodes)
  counted_walk (leaf l) total end h = ground arith
  counted_walk (all_of ns) total end h = ground (arith, counted_walk_all ns (total + 1) end)
  counted_walk (any_of ns) total end h = ground (arith, counted_walk_all ns (total + 1) end)
  counted_walk (at_least n ns) total end h = ground (arith, counted_walk_all ns (total + 1) end)

  counted_walk_all :
      (ns : Nodes) (total end : ℕ)
      → total ≤ max_policy_nodes
      → walk_nodes ns total ≡ counted end
      → AreNarrow ns × (end ≡ total + size_all ns) × (end ≤ max_policy_nodes)
  counted_walk_all nil total end le h = ground arith
  counted_walk_all (cons n ns) total end le h =
      let (mid, first, rest) = walk_on-counted (walk n total) (walk_nodes ns) h in
      let (narrow, added, fits) = counted_walk n total mid first in
      let (narrow', added', fits') = counted_walk_all ns mid end fits rest in
      ((narrow, narrow'), omega (arith, added, added'), fits')

-- No violation is reported exactly when the tree has at most 64 nodes, every node at most 16
-- children, and every `atLeast` a threshold of at most 16.
policy_bounds_violation_iff :
    (node : PolicyNode)
    → (policy_bounds_violation node ≡ none) ↔ ((size node ≤ max_policy_nodes) × IsNarrow node)
unfolding policy_bounds_violation
policy_bounds_violation_iff node = (
  λ h.
      let (end, e) = violation-none (walk node 0) h in
      let (narrow, added, fits) = counted_walk node 0 end e in (omega (arith, added), narrow),
  λ h. ap violation (walk_counts node 0 h.1 (omega (arith, h.0))),
)

mutual
  unfolding policy_depth size

  pub policy_depth-le : (n : PolicyNode) → policy_depth n ≤ size n
  policy_depth-le (leaf l) = omega arith
  policy_depth-le (all_of ns) = omega (arith, max_child_depth-le ns)
  policy_depth-le (any_of ns) = omega (arith, max_child_depth-le ns)
  policy_depth-le (at_least n ns) = omega (arith, max_child_depth-le ns)

  pub max_child_depth-le : (ns : Nodes) → max_child_depth ns ≤ size_all ns
  max_child_depth-le nil = omega arith
  max_child_depth-le (cons n ns) = omega (arith, policy_depth-le n, max_child_depth-le ns)
