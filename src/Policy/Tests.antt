-- ===== src/Policy/Tests.antt =====
-- Policies on concrete badges, and the theorems at them.
use minister.Common.{
  ℕ, suc, ◌≤◌, String, ◌≡◌, refl, true, false, none, some, List, [], ◌∷◌, arith, string_eq,
  In-cases, In-nil, inl, inr, zero,
}
use minister.Policy.{
  text, number, BadgeLeaf, PolicyNode, leaf, any_of, at_least, nil, cons, UserBadge, policy_depth,
}
use minister.Policy.Match.{Search, max_distinct_match, try_badges, try_assign}
use minister.Policy.Match.Slots.{unvisited}
use minister.Policy.Match.Step.{InRange}
use minister.Policy.Match.Fuel.{try_assign-fuel}
use minister.Policy.Evaluate.{badge_satisfies_leaf, evaluate}
use minister.Policy.Evaluate.Threshold.{Distinct, evaluate-Distinct}
use minister.Policy.Evaluate.Monotone.{IsPlain}
use minister.Policy.Select.{select_minimal_anonymity_set}
use minister.Policy.Select.{rank_and_cap, best_of}
use minister.Policy.Select.Complete.{select-evaluate}

abbrev oauth : BadgeLeaf
oauth = record {
  badge_type = "oauth-account";
  where_attrs = some (("provider", text "github") ∷ []);
  max_age_days = some 30;
}

abbrev email : BadgeLeaf
email = record { badge_type = "email-domain"; where_attrs = none; max_age_days = none }

abbrev github_badge : UserBadge
github_badge = record {
  id = "b1";
  badge_type = "oauth-account";
  attributes = ("provider", text "github") ∷ ("olderThanMonths", number 24) ∷ [];
  issued_at = 1000000;
}

abbrev email_badge : UserBadge
email_badge = record { id = "b2"; badge_type = "email-domain"; attributes = []; issued_at = 900000 }

abbrev held_badges : List UserBadge
held_badges = github_badge ∷ email_badge ∷ []

abbrev either : PolicyNode
either = any_of (cons (leaf email) (cons (leaf oauth) nil))

abbrev both : PolicyNode
both = at_least 2 (cons (leaf oauth) (cons either nil))

abbrev holder_counts : List (String × ℕ)
holder_counts = ("oauth-account", 40) ∷ ("email-domain", 900) ∷ []

-- The branches share the badge b1, and the matching moves one of them to b2.
both_accepted : evaluate both held_badges 1000000 ≡ true
unfolding evaluate badge_satisfies_leaf max_distinct_match try_badges
both_accepted = refl

expired_refused : evaluate (leaf oauth) held_badges 3592001 ≡ false
unfolding evaluate badge_satisfies_leaf
expired_refused = refl

-- The email badge hides its holder among more people.
email_selected :
    (select_minimal_anonymity_set either held_badges holder_counts 1000000).selected_badge_ids
    ≡ "b2" ∷ []
unfolding select_minimal_anonymity_set badge_satisfies_leaf rank_and_cap best_of
email_selected = refl

both_depth : policy_depth both ≡ 3
unfolding policy_depth
both_depth = refl

evaluate-Distinct_example : Distinct 2 (cons (leaf oauth) (cons either nil)) held_badges 1000000
evaluate-Distinct_example =
    evaluate-Distinct 2 (cons (leaf oauth) (cons either nil)) held_badges 1000000 (omega arith)
      both_accepted

either-IsPlain : IsPlain either
unfolding IsPlain
either-IsPlain = (tt, (tt, tt))

either_satisfiable :
    (select_minimal_anonymity_set either held_badges holder_counts 1000000).satisfiable ≡ true
unfolding select_minimal_anonymity_set badge_satisfies_leaf rank_and_cap best_of
either_satisfiable = refl

select-evaluate_example :
    (select_minimal_anonymity_set either held_badges holder_counts 1000000).satisfiable
    ≡ evaluate either held_badges 1000000
select-evaluate_example = select-evaluate either held_badges holder_counts 1000000 either-IsPlain

github_fits : badge_satisfies_leaf oauth github_badge 1000000 ≡ true
unfolding badge_satisfies_leaf
github_fits = refl

abbrev one_row : List (List ℕ)
one_row = (0 ∷ []) ∷ []

one_row-InRange : InRange 1 one_row
one_row-InRange zero bi m = elim (In-cases m) [
  | inl e ↦ omega (arith, e)
  | inr later ↦ absurd (In-nil later)
]
one_row-InRange (suc branch) bi m = absurd (In-nil m)

abbrev fresh : Search
fresh = record { visited = false ∷ []; badge_match = none ∷ [] }

fresh_unvisited : unvisited (false ∷ []) ≤ 1
unfolding unvisited
fresh_unvisited = omega arith

fresh_unvisited_more : unvisited (false ∷ []) ≤ 5
unfolding unvisited
fresh_unvisited_more = omega arith

try_assign-fuel_example : try_assign one_row 2 0 fresh ≡ try_assign one_row 6 0 fresh
try_assign-fuel_example =
    try_assign-fuel one_row 1 one_row-InRange 1 5 0 fresh (record { flags = refl; slots = refl })
      fresh_unvisited fresh_unvisited_more
