-- ===== src/Policy/Select/Complete.antt =====
-- The result of a selection for a policy without `atLeast`: satisfiable exactly when the held badges
-- satisfy the policy, and then every set that it offers satisfies it.
use minister.Common.{
  ℕ, String, ◌≡◌, ◌≢◌, refl, true, Option, none, some, List, [], ◌∷◌, map, inl, inr, arith,
  Bool-cases, or-eq-true, and-eq-true, Entries, All, any, eq_of_tests, keep-In, includes, string_eq,
}
use minister.Policy.{
  PolicyNode, Nodes, leaf, all_of, any_of, at_least, nil, cons, UserBadge, BadgeLeaf,
}
use minister.Policy.Evaluate.{badge_satisfies_leaf, evaluate, evaluate_all, evaluate_any}
use minister.Policy.Evaluate.Monotone.{IsPlain, ArePlain, evaluate_mono}
use minister.Policy.Select.Rank.{Selection, best_of}
use minister.Policy.Select.RankLaws.{best_of-some, rank_and_cap-ne-nil}
use minister.Policy.Select.Sound.{disclosed, selections_for-Satisfies}
use minister.Policy.Select.{
  leaf_candidates, all_bests, found_bests, selections_for, child_bests, to_result,
  select_minimal_anonymity_set,
}

module _ (badges : List UserBadge) (counts : Entries String ℕ) (now : ℕ) where
  leaf_candidates-ne-nil :
      (l : BadgeLeaf) (some_badges : List UserBadge)
      → any (λ b. badge_satisfies_leaf l b now) some_badges ≡ true
      → leaf_candidates l some_badges now ≢ []
  leaf_candidates-ne-nil l [] h e = cc
  leaf_candidates-ne-nil l (b ∷ rest) h e = elim (Bool-cases (badge_satisfies_leaf l b now)) [
    | inl fits ↦ ground arith
    | inr other ↦ leaf_candidates-ne-nil l rest (ground arith) (ground arith)
  ]

  found_bests-ne-nil :
      (o : Option Selection) (bests : List (Option Selection))
      → found_bests bests ≢ []
      → found_bests (o ∷ bests) ≢ []
  found_bests-ne-nil none bests h e = h e
  found_bests-ne-nil (some s) bests h e = cc

  mutual
    unfolding evaluate selections_for IsPlain

    pub selections_for-ne-nil :
        (node : PolicyNode)
        → IsPlain node
        → evaluate node badges now ≡ true
        → selections_for node badges counts now ≢ []
    selections_for-ne-nil (leaf l) plain h =
        rank_and_cap-ne-nil counts (leaf_candidates l badges now)
          (leaf_candidates-ne-nil l badges h)
    selections_for-ne-nil (all_of ns) plain h =
        let (parts, found) = all_bests-some ns plain h in λ e. ground arith
    selections_for-ne-nil (any_of ns) plain h =
        rank_and_cap-ne-nil counts (found_bests (child_bests ns badges counts now))
          (found_bests-some ns plain h)
    selections_for-ne-nil (at_least n ns) plain h = absurd plain

    all_bests-some :
        (ns : Nodes)
        → ArePlain ns
        → evaluate_all ns badges now ≡ true
        → (parts : List Selection) × (all_bests (child_bests ns badges counts now) ≡ some parts)
    all_bests-some nil plain h = ([], refl)
    all_bests-some (cons n ns) plain h =
        let (mine, others) = and-eq-true (evaluate n badges now) (evaluate_all ns badges now) h in
        let (best, found) =
          best_of-some counts (selections_for n badges counts now)
            (selections_for-ne-nil n plain.0 mine) in
        let (parts, rest) = all_bests-some ns plain.1 others in (best ∷ parts, ground arith)

    found_bests-some :
        (ns : Nodes)
        → ArePlain ns
        → evaluate_any ns badges now ≡ true
        → found_bests (child_bests ns badges counts now) ≢ []
    found_bests-some nil plain h = cc
    found_bests-some (cons n ns) plain h =
        elim (or-eq-true (evaluate n badges now) (evaluate_any ns badges now) h) [
          | inl mine ↦
              let (best, found) =
                best_of-some counts (selections_for n badges counts now)
                  (selections_for-ne-nil n plain.0 mine) in
              λ e. ground arith
          | inr others ↦
              found_bests-ne-nil (best_of counts (selections_for n badges counts now))
                (child_bests ns badges counts now) (found_bests-some ns plain.1 others)
        ]

to_result-satisfiable :
    (selections : List Selection) (gaps : List String)
    → (to_result selections gaps).satisfiable ≡ true
    → selections ≢ []
to_result-satisfiable [] gaps h e = cc
to_result-satisfiable (s ∷ rest) gaps h e = cc

pub satisfiable-to_result :
    (selections : List Selection) (gaps : List String)
    → selections ≢ []
    → (to_result selections gaps).satisfiable ≡ true
satisfiable-to_result [] gaps h = absurd (h refl)
satisfiable-to_result (s ∷ rest) gaps h = refl

abbrev pub AreSatisfying : PolicyNode → List UserBadge → ℕ → List String → Type 0
AreSatisfying policy badges now ids = evaluate policy (disclosed ids badges) now ≡ true

All-offered :
    (policy : PolicyNode) (badges : List UserBadge) (now : ℕ) (selections : List Selection)
    (gaps : List String)
    → All (λ s. AreSatisfying policy badges now s.badge_ids) selections
    → (to_result selections gaps).satisfiable ≡ true
    → AreSatisfying policy badges now (to_result selections gaps).selected_badge_ids
      × All (AreSatisfying policy badges now) (to_result selections gaps).alternatives
All-offered policy badges now [] gaps h e = cc
All-offered policy badges now (best ∷ rest) gaps h e = (h.0, each rest h.1)
  where
    each :
        (rest : List Selection)
        → All (λ s. AreSatisfying policy badges now s.badge_ids) rest
        → All (AreSatisfying policy badges now) (map (λ s. s.badge_ids) rest)
    each [] k = tt
    each (s ∷ rest) k = (k.0, each rest k.1)

-- Without `atLeast` in the policy: if the result says satisfiable, then the badges that the chosen set
-- discloses satisfy the policy, and so do those of every alternative.
select-AreSatisfying :
    (policy : PolicyNode) (badges : List UserBadge) (counts : Entries String ℕ) (now : ℕ)
    → IsPlain policy
    → (select_minimal_anonymity_set policy badges counts now).satisfiable ≡ true
    → AreSatisfying policy badges now
        (select_minimal_anonymity_set policy badges counts now).selected_badge_ids
      × All
          (AreSatisfying policy badges now)
          (select_minimal_anonymity_set policy badges counts now).alternatives
unfolding select_minimal_anonymity_set
select-AreSatisfying policy badges counts now plain h =
    All-offered policy badges now (selections_for policy badges counts now) _
      (selections_for-Satisfies badges counts now policy plain) h

offered-evaluate :
    (policy : PolicyNode) (badges : List UserBadge) (now : ℕ) (selections : List Selection)
    → IsPlain policy
    → All (λ s. AreSatisfying policy badges now s.badge_ids) selections
    → selections ≢ []
    → evaluate policy badges now ≡ true
offered-evaluate policy badges now [] plain h e = absurd (e refl)
offered-evaluate policy badges now (s ∷ rest) plain h e =
    evaluate_mono policy (disclosed s.badge_ids badges) badges now plain
      (λ b m. (keep-In (λ b. includes b.id s.badge_ids) b badges m).0) h.0

-- Without `atLeast` in the policy: the result says satisfiable exactly when `evaluate` accepts the held
-- badges.
pub select-evaluate :
    (policy : PolicyNode) (badges : List UserBadge) (counts : Entries String ℕ) (now : ℕ)
    → IsPlain policy
    → (select_minimal_anonymity_set policy badges counts now).satisfiable
      ≡ evaluate policy badges now
unfolding select_minimal_anonymity_set
select-evaluate policy badges counts now plain =
    eq_of_tests _ _
      (λ h.
        offered-evaluate policy badges now (selections_for policy badges counts now) plain
          (selections_for-Satisfies badges counts now policy plain) (to_result-satisfiable _ _ h))
      (λ h. satisfiable-to_result _ _ (selections_for-ne-nil badges counts now policy plain h))
