-- ===== src/Policy/Select/Overlap.antt =====
-- Where selection and evaluation part: `atLeast` over branches that one badge satisfies.
use minister.Common.{
  ℕ, String, ◌≡◌, ◌≢◌, refl, true, false, List, [], ◌∷◌, arith, Bool-cases, inl, inr, Entries,
}
use minister.Policy.{PolicyNode, leaf, at_least, nil, cons, UserBadge, BadgeLeaf}
use minister.Policy.Evaluate.{badge_satisfies_leaf, evaluate}
use minister.Policy.Evaluate.Monotone.{IsPlain}
use minister.Policy.Evaluate.Threshold.{evaluate-at_least_bound}
use Prim.Native.Nat.{Ordering}
use minister.Policy.Select.Rank.{Selection, sort_selections, compare_selections, merge_selections}
use minister.Policy.Select.RankLaws.{rank_and_cap-ne-nil, best_of-some}
use minister.Policy.Select.Complete.{selections_for-ne-nil, satisfiable-to_result}
use minister.Common.{map}
use minister.Policy.Select.{
  selections_for, select_minimal_anonymity_set, threshold_selections, n_combinations,
}

-- Two branches that are the same leaf.
abbrev pub twice : BadgeLeaf → PolicyNode
twice l = at_least 2 (cons (leaf l) (cons (leaf l) nil))

sort_two :
    (counts : Entries String ℕ) (a b : Selection)
    → (x : Selection) × (y : Selection) × (sort_selections counts (a ∷ b ∷ []) ≡ x ∷ y ∷ [])
unfolding sort_selections
sort_two counts a b =
    elim (compare_selections counts a b)
      as (λ o.
        (x : Selection) × (y : Selection) × (elim o as (λ _. List Selection) [
          | Ordering.gt ↦ b ∷ a ∷ []
          | _ ↦ a ∷ b ∷ []
        ]
          ≡ x ∷ y ∷ [])) [ Ordering.gt ↦ (b, a, refl) | _ ↦ (a, b, refl) ]

threshold_two-ne-nil :
    (counts : Entries String ℕ) (a b : Selection) → threshold_selections 2 (a ∷ b ∷ []) counts ≢ []
unfolding threshold_selections
threshold_two-ne-nil counts a b =
    let (x, y, e) = sort_two counts a b in
    rw e
      (rank_and_cap-ne-nil counts (map merge_selections (n_combinations (x ∷ y ∷ []) 2)) (λ q. cc))

selections_for-twice-ne-nil :
    (l : BadgeLeaf) (b : UserBadge) (counts : Entries String ℕ) (now : ℕ)
    → badge_satisfies_leaf l b now ≡ true
    → selections_for (twice l) (b ∷ []) counts now ≢ []
unfolding selections_for
selections_for-twice-ne-nil l b counts now h =
    let (best, found) = best_of-some counts (selections_for (leaf l) (b ∷ []) counts now) (
      selections_for-ne-nil (b ∷ []) counts now (leaf l) (unfold IsPlain in tt)
        (unfold evaluate in ground arith)) in
    rw found (threshold_two-ne-nil counts best best)

-- A user with one badge that satisfies the leaf: the result says satisfiable, and `evaluate`
-- refuses the badge, since it counts distinct badges.
select-overlap :
    (l : BadgeLeaf) (b : UserBadge) (counts : Entries String ℕ) (now : ℕ)
    → badge_satisfies_leaf l b now ≡ true
    → ((select_minimal_anonymity_set (twice l) (b ∷ []) counts now).satisfiable ≡ true)
      × (evaluate (twice l) (b ∷ []) now ≡ false)
unfolding select_minimal_anonymity_set
select-overlap l b counts now h = (
  satisfiable-to_result _ _ (selections_for-twice-ne-nil l b counts now h),
  elim (Bool-cases (evaluate (twice l) (b ∷ []) now)) [
    | inl accepted ↦ absurd (
        omega (
          arith,
          evaluate-at_least_bound 2 (cons (leaf l) (cons (leaf l) nil)) (b ∷ []) now accepted,
        ))
    | inr refused ↦ refused
  ],
)
