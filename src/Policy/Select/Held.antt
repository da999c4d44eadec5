-- ===== src/Policy/Select/Held.antt =====
-- A selection names badges that the user holds, and no others.
use minister.Common.{
  ℕ, zero, suc, ◌+◌, String, ◌≡◌, refl, true, Option, none, some, List, [], ◌∷◌, map, inl, inr,
  arith, eq_iff, Option-cases, length, ltb, min, take, string_eq, includes, or-eq-true, Entries,
  All, All-append, All-take, All-if, same_refl, In, here, there,
}
use mathlib.Core.Path.{subst}
use minister.Policy.{
  PolicyNode, Nodes, leaf, all_of, any_of, at_least, nil, cons, UserBadge, BadgeLeaf,
}
use minister.Policy.Evaluate.{badge_satisfies_leaf}
use minister.Policy.Select.Rank.{
  Selection, merge_into, merge_selections, sort_selections, best_of, compare_selections,
}
use minister.Policy.Select.RankLaws.{All-sort_by, All-rank_and_cap, best_of-All, includes-union}
use minister.Policy.Select.{
  max_at_least_combinations, choose_count, n_combinations, leaf_candidates, all_bests, found_bests,
  merge_all, threshold_selections, selections_for, child_bests, to_result,
  select_minimal_anonymity_set,
}

-- `id` is the id of one of the badges.
abbrev pub IsHeld : List UserBadge → String → Type 0
IsHeld badges id = includes id (map (λ b. b.id) badges) ≡ true

-- If every child has a best, these are the bests that were found.
pub all_bests-found :
    (bests : List (Option Selection)) {parts : List Selection}
    → all_bests bests ≡ some parts
    → found_bests bests ≡ parts
all_bests-found [] e = cc
all_bests-found (none ∷ bests) e = cc
all_bests-found (some best ∷ bests) e = elim (Option-cases (all_bests bests)) [
  | inl missing ↦ ground arith
  | inr (rest, e') ↦ ground (arith, all_bests-found bests e')
]

module _ (ids : List String) where
  -- The badge ids of the selection are among `ids`.
  abbrev pub Within : Selection → Type 0
  Within s = (id : String) → includes id s.badge_ids ≡ true → includes id ids ≡ true

  merge_into-Within :
      (parts : List Selection) (s : Selection)
      → Within s
      → All Within parts
      → Within (merge_into parts s)
  merge_into-Within [] s w h = w
  merge_into-Within (part ∷ parts) s w h =
      merge_into-Within parts _
        (λ id e.
          elim (or-eq-true (includes id s.badge_ids) (includes id part.badge_ids)
            (rw includes-union at e)) [ inl left ↦ w id left | inr right ↦ h.0 id right ])
        h.1

  pub merge_selections-Within :
      (parts : List Selection) → All Within parts → Within (merge_selections parts)
  unfolding merge_selections
  merge_selections-Within parts h =
      merge_into-Within parts (record { badge_ids = []; types = [] }) (λ id e. cc) h

  n_combinations-Within :
      (xs : List Selection) (n : ℕ) → All Within xs → All (All Within) (n_combinations xs n)
  unfolding n_combinations
  n_combinations-Within [] zero h = (tt, tt)
  n_combinations-Within (x ∷ xs) zero h = (tt, tt)
  n_combinations-Within [] (suc n) h = tt
  n_combinations-Within (x ∷ xs) (suc n) h =
      All-append (All Within) (map (λ c. x ∷ c) (n_combinations xs n)) (n_combinations xs (suc n))
        (All-cons x h.0 (n_combinations xs n) (n_combinations-Within xs n h.1))
        (n_combinations-Within xs (suc n) h.1)
    where
      All-cons :
          (x : Selection)
          → Within x
          → (cs : List (List Selection)) → All (All Within) cs
          → All (All Within) (map (λ c. x ∷ c) cs)
      All-cons x w [] k = tt
      All-cons x w (c ∷ cs) k = ((w, k.0), All-cons x w cs k.1)

  All-merge :
      (cs : List (List Selection)) → All (All Within) cs → All Within (map merge_selections cs)
  All-merge [] h = tt
  All-merge (c ∷ cs) h = (merge_selections-Within c h.0, All-merge cs h.1)

  sort_selections-Within :
      (counts : Entries String ℕ) (xs : List Selection)
      → All Within xs
      → All Within (sort_selections counts xs)
  unfolding sort_selections
  sort_selections-Within counts xs h = All-sort_by Within (compare_selections counts) xs h

  threshold_selections-Within :
      (n : ℕ) (bests : List Selection) (counts : Entries String ℕ)
      → All Within bests
      → All Within (threshold_selections n bests counts)
  unfolding threshold_selections
  threshold_selections-Within zero bests counts h = ((λ id e. cc), tt)
  threshold_selections-Within (suc m) bests counts h =
      let sorted = sort_selections counts bests in
      let within = sort_selections-Within counts bests h in
      let prefix = take (min (length sorted) (suc m + 4)) sorted in
      let within' = All-take Within (min (length sorted) (suc m + 4)) sorted within in
      All-if Within (ltb (length bests) (suc m)) _ _ tt (
        All-if Within (ltb max_at_least_combinations (choose_count (length prefix) (suc m))) _ _
          (
            merge_selections-Within (take (suc m) sorted) (All-take Within (suc m) sorted within),
            tt,
          )
          (All-rank_and_cap Within counts (map merge_selections (n_combinations prefix (suc m))) (
            All-merge (n_combinations prefix (suc m))
              (n_combinations-Within prefix (suc m) within'))))

  all_bests-Within :
      (bests : List (Option Selection))
      → All Within (found_bests bests)
      → All Within (merge_all (all_bests bests))
  all_bests-Within bests h = elim (Option-cases (all_bests bests)) [
    | inl missing ↦ rw missing tt
    | inr (parts, e) ↦
        rw e (merge_selections-Within parts (subst (All Within) (all_bests-found bests e) h), tt)
  ]

pub found_bests-All :
    (P : Selection → Type 0) (best : Option Selection) (bests : List (Option Selection))
    → ((s : Selection) → best ≡ some s → P s)
    → All P (found_bests bests)
    → All P (found_bests (best ∷ bests))
found_bests-All P none bests h k = k
found_bests-All P (some s) bests h k = (h s refl, k)

module _ (badges : List UserBadge) (counts : Entries String ℕ) (now : ℕ) where
  abbrev held_ids : List String
  held_ids = map (λ b. b.id) badges

  leaf_candidates-Within :
      (l : BadgeLeaf) (some_badges : List UserBadge)
      → ((b : UserBadge) → In b some_badges → includes b.id held_ids ≡ true)
      → All (Within held_ids) (leaf_candidates l some_badges now)
  leaf_candidates-Within l [] h = tt
  leaf_candidates-Within l (b ∷ rest) h =
      All-if (Within held_ids) (badge_satisfies_leaf l b now) _ _
        (
          (λ id e. rw (← (eq_iff b.id id).0 (ground arith)) (h b here)),
          leaf_candidates-Within l rest (λ c m. h c (there m)),
        )
        (leaf_candidates-Within l rest (λ c m. h c (there m)))

  held_id :
      {b : UserBadge} {all_badges : List UserBadge}
      → In b all_badges
      → includes b.id (map (λ b. b.id) all_badges) ≡ true
  held_id {b} here = ground (arith, same_refl b.id)
  held_id (there m) = ground (arith, held_id m)

  mutual
    unfolding selections_for

    selections_for-Within :
        (node : PolicyNode) → All (Within held_ids) (selections_for node badges counts now)
    selections_for-Within (leaf l) =
        All-rank_and_cap (Within held_ids) counts (leaf_candidates l badges now)
          (leaf_candidates-Within l badges (λ b m. held_id m))
    selections_for-Within (all_of ns) =
        all_bests-Within held_ids (child_bests ns badges counts now) (child_bests-Within ns)
    selections_for-Within (any_of ns) =
        All-rank_and_cap (Within held_ids) counts (found_bests (child_bests ns badges counts now))
          (child_bests-Within ns)
    selections_for-Within (at_least n ns) =
        threshold_selections-Within held_ids n (found_bests (child_bests ns badges counts now))
          counts (child_bests-Within ns)

    child_bests-Within :
        (ns : Nodes) → All (Within held_ids) (found_bests (child_bests ns badges counts now))
    child_bests-Within nil = tt
    child_bests-Within (cons n ns) =
        found_bests-All (Within held_ids) (best_of counts (selections_for n badges counts now))
          (child_bests ns badges counts now)
          (λ best e.
            best_of-All (Within held_ids) counts (selections_for n badges counts now) e
              (selections_for-Within n))
          (child_bests-Within ns)

abbrev pub AreHeld : List UserBadge → List String → Type 0
AreHeld badges ids = (id : String) → includes id ids ≡ true → IsHeld badges id

to_result-AreHeld :
    (badges : List UserBadge) (selections : List Selection) (gaps : List String)
    → All (Within (map (λ b. b.id) badges)) selections
    → AreHeld badges (to_result selections gaps).selected_badge_ids
      × All (AreHeld badges) (to_result selections gaps).alternatives
to_result-AreHeld badges [] gaps h = ((λ id e. cc), tt)
to_result-AreHeld badges (best ∷ rest) gaps h = (h.0, all_ids rest h.1)
  where
    all_ids :
        (rest : List Selection)
        → All (Within (map (λ b. b.id) badges)) rest
        → All (AreHeld badges) (map (λ s. s.badge_ids) rest)
    all_ids [] k = tt
    all_ids (s ∷ rest) k = (k.0, all_ids rest k.1)

-- Whatever the policy and the counts: every id of the chosen set, and every id of each alternative, is
-- the id of a badge that the user holds.
select-AreHeld :
    (policy : PolicyNode) (badges : List UserBadge) (counts : Entries String ℕ) (now : ℕ)
    → AreHeld badges (select_minimal_anonymity_set policy badges counts now).selected_badge_ids
      × All (AreHeld badges) (select_minimal_anonymity_set policy badges counts now).alternatives
unfolding select_minimal_anonymity_set
select-AreHeld policy badges counts now =
    to_result-AreHeld badges (selections_for policy badges counts now) _
      (selections_for-Within badges counts now policy)
