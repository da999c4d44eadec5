-- ===== src/Policy/Evaluate/Threshold.antt =====
-- What an accepted `atLeast` shows: distinct badges for distinct branches.
use minister.Common.{
  ℕ, zero, suc, ◌+◌, ◌≤◌, ◌<◌, ◌≡◌, refl, ap, Bool, true, Option, none, some, List, [], ◌∷◌, arith,
  Bool-cases, length, get_elem?, In, In-nil, In-cases, inl, inr, ◌∙◌,
}
use minister.Policy.{PolicyNode, Nodes, at_least, nil, cons, UserBadge}
use minister.Policy.Match.{slot_at, row_at, max_distinct_match}
use minister.Policy.Match.Slots.{held, taken, taken-le-length}
use minister.Policy.Match.Sound.{max_distinct_match-IsMatching}
use minister.Policy.Match.Step.{InRange}
use minister.Policy.Evaluate.{witnesses, evaluate, adjacency}

abbrev pub branch_at : Nodes → ℕ → Option PolicyNode
branch_at nil i = none
branch_at (cons n ns) zero = some n
branch_at (cons n ns) (suc i) = branch_at ns i

-- The badge alone satisfies the branch.
pub record IsWitness (ns : Nodes) (badges : List UserBadge) (now branch bi : ℕ) : Type 0 where
  pub node : PolicyNode
  pub at_branch : branch_at ns branch ≡ some node
  pub badge : UserBadge
  pub at_badge : get_elem? badges bi ≡ some badge
  pub alone : evaluate node (badge ∷ []) now ≡ true

record IsListed (alone : UserBadge → Bool) (i bi : ℕ) (badges : List UserBadge) : Type 0 where
  badge : UserBadge
  offset : ℕ
  place : bi ≡ i + offset
  at_badge : get_elem? badges offset ≡ some badge
  passes : alone badge ≡ true

IsListed-later :
    {alone : UserBadge → Bool} {i bi : ℕ} {badges : List UserBadge} (b : UserBadge)
    → IsListed alone (i + 1) bi badges
    → IsListed alone i bi (b ∷ badges)
IsListed-later b l = record {
  badge = l.badge;
  offset = suc l.offset;
  place = omega (arith, l.place);
  at_badge = l.at_badge;
  passes = l.passes;
}

witnesses-IsListed :
    (alone : UserBadge → Bool) (i bi : ℕ) (badges : List UserBadge)
    → In bi (witnesses alone i badges)
    → IsListed alone i bi badges
witnesses-IsListed alone i bi [] m = elim m [ ]
witnesses-IsListed alone i bi (b ∷ badges) m = elim (Bool-cases (alone b)) [
  | inl passes ↦ elim (In-cases (rw passes at m)) [
    | inl e ↦ record {
      badge = b;
      offset = 0;
      place = omega (arith, e);
      at_badge = refl;
      passes = passes;
    }
    | inr later ↦ IsListed-later b (witnesses-IsListed alone (i + 1) bi badges later)
  ]
  | inr fails ↦ IsListed-later b (witnesses-IsListed alone (i + 1) bi badges (rw fails at m))
]

adjacency-IsWitness :
    (ns : Nodes) (badges : List UserBadge) (now branch bi : ℕ)
    → In bi (row_at (adjacency ns badges now) branch)
    → IsWitness ns badges now branch bi
unfolding evaluate
adjacency-IsWitness nil badges now branch bi m = absurd (In-nil m)
adjacency-IsWitness (cons n ns) badges now zero bi m =
    let l = witnesses-IsListed (λ b. evaluate n (b ∷ []) now) 0 bi badges m in
    record {
      node = n;
      at_branch = refl;
      badge = l.badge;
      at_badge = ap (get_elem? badges) (omega (arith, l.place)) ∙ l.at_badge;
      alone = l.passes;
    }
adjacency-IsWitness (cons n ns) badges now (suc branch) bi m =
    let w = adjacency-IsWitness ns badges now branch bi m in
    record {
      node = w.node;
      at_branch = w.at_branch;
      badge = w.badge;
      at_badge = w.at_badge;
      alone = w.alone;
    }

get_elem?-some-lt :
    {A : Type 0} (xs : List A) (i : ℕ) {a : A} → get_elem? xs i ≡ some a → i < length xs
get_elem?-some-lt [] i e = cc
get_elem?-some-lt (x ∷ xs) zero e = omega arith
get_elem?-some-lt (x ∷ xs) (suc i) e = omega (arith, get_elem?-some-lt xs i e)

adjacency-InRange :
    (ns : Nodes) (badges : List UserBadge) (now : ℕ)
    → InRange (length badges) (adjacency ns badges now)
adjacency-InRange ns badges now branch bi m =
    let w = adjacency-IsWitness ns badges now branch bi m in get_elem?-some-lt badges bi w.at_badge

-- `n` badges at distinct places of the list, each assigned to a branch that it alone satisfies, with
-- no branch assigned twice. Slot `bi` holds the branch of badge `bi`.
pub record Distinct (n : ℕ) (ns : Nodes) (badges : List UserBadge) (now : ℕ) : Type 0 where
  pub slots : List (Option ℕ)
  pub size : length slots ≡ length badges
  pub witness : (bi branch : ℕ) → slot_at slots bi ≡ some branch → IsWitness ns badges now branch bi
  pub once : (branch : ℕ) → held branch slots ≤ 1
  pub enough : n ≤ taken slots

-- If `atLeast` accepts a positive threshold, there are that many distinct badges for distinct branches.
pub evaluate-Distinct :
    (n : ℕ) (ns : Nodes) (badges : List UserBadge) (now : ℕ)
    → 0 < n
    → evaluate (at_least n ns) badges now ≡ true
    → Distinct n ns badges now
unfolding evaluate
evaluate-Distinct n ns badges now pos h =
    let slots = (max_distinct_match (adjacency ns badges now) (length badges)).1 in
    let m =
      max_distinct_match-IsMatching (adjacency ns badges now) (length badges)
        (adjacency-InRange ns badges now) in
    record {
      slots = slots;
      size = m.size;
      witness = λ bi branch e. adjacency-IsWitness ns badges now branch bi (m.edges bi branch e);
      once = m.once;
      enough = ground (arith, m.total);
    }

-- A threshold above the number of the badges is refused, whatever they are.
pub evaluate-at_least_bound :
    (n : ℕ) (ns : Nodes) (badges : List UserBadge) (now : ℕ)
    → evaluate (at_least n ns) badges now ≡ true
    → n ≤ length badges
evaluate-at_least_bound zero ns badges now h = omega arith
evaluate-at_least_bound (suc n) ns badges now h =
    let d = evaluate-Distinct (suc n) ns badges now (omega arith) h in
    omega (arith, d.enough, d.size, taken-le-length d.slots)
