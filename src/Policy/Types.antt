-- ===== src/Policy/Types.antt =====
-- The types that a policy names.
use minister.Common.{
  ℕ, String, ◌≡◌, ◌↔◌, ◌⊎◌, inl, inr, true, List, [], arith, eq_iff, string_eq, ◌==◌, includes,
  includes-add, or-eq-true,
}
use minister.Policy.{
  BadgeLeaf, PolicyNode, Nodes, leaf, all_of, any_of, at_least, nil, cons, collect_types,
  collect_types_all, policy_badge_types,
}

-- A leaf of the tree names the type.
mutual
  pub data Names (t : String) : PolicyNode → Type 0 where
    in_leaf : {l : BadgeLeaf} → l.badge_type ≡ t → Names t (leaf l)
    in_all_of : {ns : Nodes} → SomeNames t ns → Names t (all_of ns)
    in_any_of : {ns : Nodes} → SomeNames t ns → Names t (any_of ns)
    in_at_least : {k : ℕ} {ns : Nodes} → SomeNames t ns → Names t (at_least k ns)

  pub data SomeNames (t : String) : Nodes → Type 0 where
    first : {n : PolicyNode} {ns : Nodes} → Names t n → SomeNames t (cons n ns)
    later : {n : PolicyNode} {ns : Nodes} → SomeNames t ns → SomeNames t (cons n ns)

mutual
  unfolding collect_types

  collect_types-Names :
      (n : PolicyNode) (out : List String) (t : String)
      → includes t (collect_types n out) ≡ true
      → (includes t out ≡ true) ⊎ Names t n
  collect_types-Names (leaf l) out t h =
      elim (or-eq-true (includes t out) (l.badge_type == t) (rw includes-add at h)) [
        | inl old ↦ inl old
        | inr new ↦ inr (in_leaf ((eq_iff l.badge_type t).0 new))
      ]
  collect_types-Names (all_of ns) out t h = elim (collect_types_all-Names ns out t h) [
    | inl old ↦ inl old
    | inr named ↦ inr (in_all_of named)
  ]
  collect_types-Names (any_of ns) out t h = elim (collect_types_all-Names ns out t h) [
    | inl old ↦ inl old
    | inr named ↦ inr (in_any_of named)
  ]
  collect_types-Names (at_least k ns) out t h = elim (collect_types_all-Names ns out t h) [
    | inl old ↦ inl old
    | inr named ↦ inr (in_at_least named)
  ]

  collect_types_all-Names :
      (ns : Nodes) (out : List String) (t : String)
      → includes t (collect_types_all ns out) ≡ true
      → (includes t out ≡ true) ⊎ SomeNames t ns
  collect_types_all-Names nil out t h = inl h
  collect_types_all-Names (cons n ns) out t h =
      elim (collect_types_all-Names ns (collect_types n out) t h) [
        | inl before ↦ elim (collect_types-Names n out t before) [
          | inl old ↦ inl old
          | inr named ↦ inr (first named)
        ]
        | inr named ↦ inr (later named)
      ]

mutual
  unfolding collect_types

  collect_types-keeps :
      (n : PolicyNode) (out : List String) (t : String)
      → includes t out ≡ true
      → includes t (collect_types n out) ≡ true
  collect_types-keeps (leaf l) out t h = rw (includes-add, h)
  collect_types-keeps (all_of ns) out t h = collect_types_all-keeps ns out t h
  collect_types-keeps (any_of ns) out t h = collect_types_all-keeps ns out t h
  collect_types-keeps (at_least k ns) out t h = collect_types_all-keeps ns out t h

  collect_types_all-keeps :
      (ns : Nodes) (out : List String) (t : String)
      → includes t out ≡ true
      → includes t (collect_types_all ns out) ≡ true
  collect_types_all-keeps nil out t h = h
  collect_types_all-keeps (cons n ns) out t h =
      collect_types_all-keeps ns (collect_types n out) t (collect_types-keeps n out t h)

mutual
  unfolding collect_types

  Names-collect_types :
      {n : PolicyNode} {t : String} (out : List String)
      → Names t n
      → includes t (collect_types n out) ≡ true
  Names-collect_types {t} out (in_leaf {l} e) =
      rw includes-add (ground (arith, eq_iff l.badge_type t))
  Names-collect_types out (in_all_of named) = SomeNames-collect_types out named
  Names-collect_types out (in_any_of named) = SomeNames-collect_types out named
  Names-collect_types out (in_at_least named) = SomeNames-collect_types out named

  SomeNames-collect_types :
      {ns : Nodes} {t : String} (out : List String)
      → SomeNames t ns
      → includes t (collect_types_all ns out) ≡ true
  SomeNames-collect_types {t} out (first {n} {ns} named) =
      collect_types_all-keeps ns (collect_types n out) t (Names-collect_types out named)
  SomeNames-collect_types out (later {n} named) =
      SomeNames-collect_types (collect_types n out) named

-- A type is in the set of a policy exactly when some leaf of the tree has that type.
policy_badge_types_iff :
    (node : PolicyNode) (t : String) → (includes t (policy_badge_types node) ≡ true) ↔ Names t node
unfolding policy_badge_types
policy_badge_types_iff node t = (
  λ h. elim (collect_types-Names node [] t h) [ inl old ↦ cc | inr named ↦ named ],
  λ named. Names-collect_types [] named,
)
