-- ===== src/Policy/Evaluate/Monotone.antt =====
-- More badges satisfy no fewer policies, where no `atLeast` stands in the tree.
use minister.Common.{
  ℕ, ◌≡◌, refl, Bool, true, List, [], ◌∷◌, inl, inr, arith, any, In, here, there, or-eq-true,
}
use minister.Policy.{PolicyNode, Nodes, leaf, all_of, any_of, at_least, nil, cons, UserBadge}
use minister.Policy.Evaluate.{badge_satisfies_leaf, evaluate, evaluate_all, evaluate_any}

-- The tree has no `atLeast`.
unfoldable mutual
  pub IsPlain : PolicyNode → Type 0
  IsPlain (leaf l) = Unit
  IsPlain (all_of ns) = ArePlain ns
  IsPlain (any_of ns) = ArePlain ns
  IsPlain (at_least n ns) = ⊥

  pub ArePlain : Nodes → Type 0
  ArePlain nil = Unit
  ArePlain (cons n ns) = IsPlain n × ArePlain ns

abbrev pub Contained : List UserBadge → List UserBadge → Type 0
Contained some_badges badges = (b : UserBadge) → In b some_badges → In b badges

pub any-In :
    (p : UserBadge → Bool) (badges : List UserBadge)
    → any p badges ≡ true
    → (b : UserBadge) × In b badges × (p b ≡ true)
any-In p [] h = cc
any-In p (b ∷ badges) h = elim (or-eq-true (p b) (any p badges) h) [
  | inl found ↦ (b, here, found)
  | inr later ↦ let (c, m, e) = any-In p badges later in (c, there m, e)
]

pub In-any :
    (p : UserBadge → Bool) {b : UserBadge} {badges : List UserBadge}
    → In b badges
    → p b ≡ true
    → any p badges ≡ true
In-any p here e = ground arith
In-any p (there m) e = ground (arith, In-any p m e)

mutual
  unfolding evaluate IsPlain

  pub evaluate_mono :
      (node : PolicyNode) (fewer more : List UserBadge) (now : ℕ)
      → IsPlain node
      → Contained fewer more
      → evaluate node fewer now ≡ true
      → evaluate node more now ≡ true
  evaluate_mono (leaf l) fewer more now plain c h =
      let (b, m, e) = any-In (λ b. badge_satisfies_leaf l b now) fewer h in
      In-any (λ b. badge_satisfies_leaf l b now) (c b m) e
  evaluate_mono (all_of ns) fewer more now plain c h = evaluate_all_mono ns fewer more now plain c h
  evaluate_mono (any_of ns) fewer more now plain c h = evaluate_any_mono ns fewer more now plain c h
  evaluate_mono (at_least n ns) fewer more now plain c h = absurd plain

  pub evaluate_all_mono :
      (ns : Nodes) (fewer more : List UserBadge) (now : ℕ)
      → ArePlain ns
      → Contained fewer more
      → evaluate_all ns fewer now ≡ true
      → evaluate_all ns more now ≡ true
  evaluate_all_mono nil fewer more now plain c h = refl
  evaluate_all_mono (cons n ns) fewer more now plain c h = ground (
    arith,
    evaluate_mono n fewer more now plain.0 c,
    evaluate_all_mono ns fewer more now plain.1 c,
  )

  pub evaluate_any_mono :
      (ns : Nodes) (fewer more : List UserBadge) (now : ℕ)
      → ArePlain ns
      → Contained fewer more
      → evaluate_any ns fewer now ≡ true
      → evaluate_any ns more now ≡ true
  evaluate_any_mono nil fewer more now plain c h = cc
  evaluate_any_mono (cons n ns) fewer more now plain c h = ground (
    arith,
    evaluate_mono n fewer more now plain.0 c,
    evaluate_any_mono ns fewer more now plain.1 c,
  )
