-- ===== src/Policy/Evaluate.antt =====
-- apps/minister/src/lib/oidc-policy.ts: `evaluate`. The subtraction `now - issuedAt` is compared with
-- a number that is not negative, so a badge from the future is as young as one issued now.
pub mod Threshold
pub mod Monotone
use minister.Common.{
  ℕ, ◌+◌, ◌-◌, ◌*◌, String, Bool, true, false, ◌&&◌, ◌||◌, Option, none, some, List, [], ◌∷◌,
  if◌then◌else◌, leb, any, length, Entries, lookup, string_eq, ◌==◌,
}
use minister.Policy.{
  AttrValue, BadgeLeaf, PolicyNode, Nodes, leaf, all_of, any_of, at_least, nil, cons, UserBadge,
  same_value,
}
use minister.Policy.Match.{max_distinct_match}

abbrev pub seconds_per_day : ℕ
seconds_per_day = 86400

-- `candidate.attributes[key] !== value`, for a key that may be missing.
abbrev pub is_value : AttrValue → Option AttrValue → Bool
is_value value none = false
is_value value (some held) = same_value held value

abbrev pub has_attrs : Entries String AttrValue → UserBadge → Bool
has_attrs [] candidate = true
has_attrs ((key, value) ∷ rest) candidate =
    is_value value (lookup candidate.attributes key) && has_attrs rest candidate

abbrev pub has_where : Option (Entries String AttrValue) → UserBadge → Bool
has_where none candidate = true
has_where (some attrs) candidate = has_attrs attrs candidate

abbrev pub is_recent : Option ℕ → ℕ → ℕ → Bool
is_recent none issued now = true
is_recent (some days) issued now = leb (now - issued) (days * seconds_per_day)

unfoldable pub badge_satisfies_leaf : BadgeLeaf → UserBadge → ℕ → Bool
unfolding lookup
badge_satisfies_leaf l candidate now =
    candidate.badge_type == l.badge_type
    && (is_recent l.max_age_days candidate.issued_at now && has_where l.where_attrs candidate)

abbrev pub leaf_satisfied : BadgeLeaf → List UserBadge → ℕ → Bool
leaf_satisfied l badges now = any (λ b. badge_satisfies_leaf l b now) badges

-- The indices, from `i` on, of the badges that alone satisfy a branch.
abbrev pub witnesses : (UserBadge → Bool) → ℕ → List UserBadge → List ℕ
witnesses alone i [] = []
witnesses alone i (b ∷ badges) =
    let rest = witnesses alone (i + 1) badges in if alone b then i ∷ rest else rest

-- `n <= 0`, or enough branches matched.
abbrev pub n_or_matched : ℕ → ℕ → Bool
n_or_matched n matched = if leb n 0 then true else leb n matched

unfoldable mutual
  pub evaluate : PolicyNode → List UserBadge → ℕ → Bool
  evaluate (leaf l) badges now = leaf_satisfied l badges now
  evaluate (all_of ns) badges now = evaluate_all ns badges now
  evaluate (any_of ns) badges now = evaluate_any ns badges now
  evaluate (at_least n ns) badges now =
      n_or_matched n (max_distinct_match (adjacency ns badges now) (length badges)).0

  pub evaluate_all : Nodes → List UserBadge → ℕ → Bool
  evaluate_all nil badges now = true
  evaluate_all (cons n ns) badges now = evaluate n badges now && evaluate_all ns badges now

  pub evaluate_any : Nodes → List UserBadge → ℕ → Bool
  evaluate_any nil badges now = false
  evaluate_any (cons n ns) badges now = evaluate n badges now || evaluate_any ns badges now

  pub adjacency : Nodes → List UserBadge → ℕ → List (List ℕ)
  adjacency nil badges now = []
  adjacency (cons branch ns) badges now =
      witnesses (λ b. evaluate branch (b ∷ []) now) 0 badges ∷ adjacency ns badges now
