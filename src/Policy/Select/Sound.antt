-- ===== src/Policy/Select/Sound.antt =====
-- For a policy without `atLeast`, the selection is a set of badges that satisfies it, and one is found
-- exactly when the held badges satisfy it.
use mathlib.Core.Path.{subst}
use minister.Common.{
  ℕ, String, ◌≡◌, refl, Bool, true, Option, none, some, List, [], ◌∷◌, inl, inr, arith, ◌||◌,
  Bool-cases, Option-cases, string_eq, includes, Entries, All, All-imp, keep, keep-In, In-keep, In,
  here, there, same_refl,
}
use minister.Policy.{
  PolicyNode, Nodes, leaf, all_of, any_of, at_least, nil, cons, UserBadge, BadgeLeaf,
}
use minister.Policy.Evaluate.{badge_satisfies_leaf, evaluate, evaluate_all, evaluate_any}
use minister.Policy.Evaluate.Monotone.{IsPlain, ArePlain, Contained, evaluate_mono, In-any}
use minister.Policy.Select.Rank.{Selection, merge_into, merge_selections, best_of}
use minister.Policy.Select.RankLaws.{All-rank_and_cap, best_of-All, includes-union}
use minister.Policy.Select.Held.{Within, found_bests-All}
use minister.Policy.Select.{leaf_candidates, all_bests, found_bests, selections_for, child_bests}

-- The badges that a set of ids discloses.
abbrev pub disclosed : List String → List UserBadge → List UserBadge
disclosed ids badges = keep (λ b. includes b.id ids) badges

disclosed-Contained :
    (ids more : List String) (badges : List UserBadge)
    → ((id : String) → includes id ids ≡ true → includes id more ≡ true)
    → Contained (disclosed ids badges) (disclosed more badges)
disclosed-Contained ids more badges h b m =
    let (held, e) = keep-In (λ b. includes b.id ids) b badges m in
    In-keep (λ b. includes b.id more) held (h b.id e)

or-left : (a b : Bool) → a ≡ true → (a || b) ≡ true
or-left a b h = ground arith

or-right : (a b : Bool) → b ≡ true → (a || b) ≡ true
or-right a b h = ground arith

all_bests-cons :
    (o : Option Selection) (bests : List (Option Selection)) {parts : List Selection}
    → all_bests (o ∷ bests) ≡ some parts
    → (best : Selection) × (rest : List Selection) × (o ≡ some best)
      × (all_bests bests ≡ some rest)
      × (parts ≡ best ∷ rest)
all_bests-cons none bests e = cc
all_bests-cons (some best) bests e = elim (Option-cases (all_bests bests)) [
  | inl missing ↦ ground arith
  | inr (rest, e') ↦ (best, rest, refl, e', ground arith)
]

merge_into-keeps :
    (parts : List Selection) (s : Selection) (id : String)
    → includes id s.badge_ids ≡ true
    → includes id (merge_into parts s).badge_ids ≡ true
merge_into-keeps [] s id e = e
merge_into-keeps (part ∷ parts) s id e =
    merge_into-keeps parts _ id (rw includes-union (or-left _ _ e))

merge_into-adds :
    (parts : List Selection) (s : Selection) → All (Within (merge_into parts s).badge_ids) parts
merge_into-adds [] s = tt
merge_into-adds (part ∷ parts) s = (
  λ id e. merge_into-keeps parts _ id (rw includes-union (or-right _ _ e)),
  merge_into-adds parts _,
)

parts-Within : (parts : List Selection) → All (Within (merge_selections parts).badge_ids) parts
unfolding merge_selections
parts-Within parts = merge_into-adds parts _

module _ (badges : List UserBadge) (counts : Entries String ℕ) (now : ℕ) where
  -- The disclosed badges satisfy the node.
  abbrev pub Satisfies : PolicyNode → Selection → Type 0
  Satisfies node s = evaluate node (disclosed s.badge_ids badges) now ≡ true

  leaf_candidates-Satisfies :
      (l : BadgeLeaf) (some_badges : List UserBadge)
      → ((b : UserBadge) → In b some_badges → In b badges)
      → All (Satisfies (leaf l)) (leaf_candidates l some_badges now)
  unfolding evaluate
  leaf_candidates-Satisfies l [] h = tt
  leaf_candidates-Satisfies l (b ∷ rest) h = elim (Bool-cases (badge_satisfies_leaf l b now)) [
    | inl fits ↦ rw fits (
      In-any (λ c. badge_satisfies_leaf l c now)
          (In-keep (λ c. includes c.id (b.id ∷ [])) (h b here) (ground (arith, same_refl b.id)))
          fits,
      leaf_candidates-Satisfies l rest (λ c m. h c (there m)),
    )
    | inr other ↦ rw other (leaf_candidates-Satisfies l rest (λ c m. h c (there m)))
  ]

  -- Some selection of each child satisfies it, and `ids` has all the ids of these selections.
  mutual
    unfolding evaluate selections_for IsPlain

    pub selections_for-Satisfies :
        (node : PolicyNode)
        → IsPlain node
        → All (Satisfies node) (selections_for node badges counts now)
    selections_for-Satisfies (leaf l) plain =
        All-rank_and_cap (Satisfies (leaf l)) counts (leaf_candidates l badges now)
          (leaf_candidates-Satisfies l badges (λ b m. m))
    selections_for-Satisfies (all_of ns) plain =
        elim (Option-cases (all_bests (child_bests ns badges counts now))) [
          | inl missing ↦ rw missing tt
          | inr (parts, e) ↦ rw e (
            all_bests-Satisfies ns parts (merge_selections parts).badge_ids plain e
                (parts-Within parts),
            tt,
          )
        ]
    selections_for-Satisfies (any_of ns) plain =
        All-rank_and_cap (Satisfies (any_of ns)) counts
          (found_bests (child_bests ns badges counts now)) (found_bests-Satisfies ns plain)
    selections_for-Satisfies (at_least n ns) plain = absurd plain

    all_bests-Satisfies :
        (ns : Nodes) (parts : List Selection) (ids : List String)
        → ArePlain ns
        → all_bests (child_bests ns badges counts now) ≡ some parts
        → All (Within ids) parts
        → evaluate_all ns (disclosed ids badges) now ≡ true
    all_bests-Satisfies nil parts ids plain e h = refl
    all_bests-Satisfies (cons n ns) parts ids plain e h =
        let (best, rest, found, others, same) = all_bests-cons _ _ e in
        let within = subst (All (Within ids)) same h in
        let here' =
          best_of-All (Satisfies n) counts (selections_for n badges counts now) found
            (selections_for-Satisfies n plain.0) in
        ground (
          arith,
          evaluate_mono n (disclosed best.badge_ids badges) (disclosed ids badges) now plain.0
              (disclosed-Contained best.badge_ids ids badges within.0) here',
          all_bests-Satisfies ns rest ids plain.1 others within.1,
        )

    found_bests-Satisfies :
        (ns : Nodes)
        → ArePlain ns
        → All
            (λ s. evaluate_any ns (disclosed s.badge_ids badges) now ≡ true)
            (found_bests (child_bests ns badges counts now))
    found_bests-Satisfies nil plain = tt
    found_bests-Satisfies (cons n ns) plain =
        found_bests-All (λ s. evaluate_any (cons n ns) (disclosed s.badge_ids badges) now ≡ true)
          (best_of counts (selections_for n badges counts now)) (child_bests ns badges counts now)
          (λ s e. or-left _ _ (
            best_of-All (Satisfies n) counts (selections_for n badges counts now) e
              (selections_for-Satisfies n plain.0)))
          (All-imp (λ s k. or-right _ _ k) _ (found_bests-Satisfies ns plain.1))
