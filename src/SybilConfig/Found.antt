-- ===== src/SybilConfig/Found.antt =====
-- What the loops of apps/minister/src/lib/sybil-config.ts and of the builder of the scorer's config
-- find in the rows.
use Prim.Native.String.{compare}
use text.Mathlib.Text.{is_le}
use minister.Common.{
  ℕ, String, ◌≡◌, refl, sym, ap, ◌∙◌, Bool, true, false, not, ◌&&◌, ◌⊎◌, Bool-cases, inl, inr,
  Option, none, some, In-cases, or-eq-true, List, [], ◌∷◌, map, keep, arith, In, here, there,
  In-nil, In-keep, if◌then◌else◌, string_eq, ◌==◌, same_refl, includes, add, includes-add, Entries,
  lookup, insert, lookup-insert,
}
use minister.Sybil.{fold_weights, fold_categories, fold_caps, or_empty}
use minister.Recovery.Config.{effective_recovery_weight}
use minister.Recovery.Config
use minister.Recovery.Config.Store.{is_at, find_row}
use minister.Recovery.Attempt.{
  recovery_weight_for_live, first_row, recovery_qualifier_chain, row_or,
}
use minister.SybilConfig.{
  BadgeWeight, scoring_row, sort_name, sort_names, star_types, referenced_categories, is_found,
}

pub not-false : (b : Bool) → not b ≡ false → b ≡ true
not-false b h = ground arith

sort_name-not_nil : (x : String) (xs : List String) → ¬ (sort_name x xs ≡ [])
unfolding sort_name
sort_name-not_nil x [] e = cc
sort_name-not_nil x (y ∷ ys) e = elim (Bool-cases (is_le (compare x y))) [
  | inl p ↦ let q = rw p at e in cc
  | inr p ↦ let q = rw p at e in cc
]

pub sort_names-nil : (xs : List String) → sort_names xs ≡ [] → xs ≡ []
unfolding sort_names
sort_names-nil [] e = refl
sort_names-nil (x ∷ xs) e = absurd (sort_name-not_nil x (sort_names xs) e)

-- Nothing is dropped by a filter that keeps nothing.
pub keep-nil :
    (p : String → Bool) (x : String) (xs : List String) → keep p xs ≡ [] → In x xs → p x ≡ false
keep-nil p x xs e m = elim (Bool-cases (p x)) [
  | inl kept ↦ absurd (In-nil (rw e at (In-keep {A = String} p m kept)))
  | inr dropped ↦ dropped
]

-- A row with the qualifier `*`.
unfoldable pub IsStarOf : String → BadgeWeight → Type 0
IsStarOf t row = (row.recovery.badge_type ≡ t) × (row.recovery.qualifier ≡ "*")

added-cases :
    (t a : String) (types : List String) (q : Bool)
    → includes t (if q then add a types else types) ≡ true
    → (includes t types ≡ true) ⊎ ((q ≡ true) × (a ≡ t))
added-cases t a types false h = inl h
added-cases t a types true h = elim (or-eq-true _ _ (sym (includes-add t a types) ∙ h)) [
  | inl had ↦ inl had
  | inr e ↦ inr (refl, (string_eq.same_iff a t).0 e)
]

pub star_types-row :
    (t : String) (rows : List BadgeWeight) (types : List String)
    → includes t (star_types rows types) ≡ true
    → (includes t types ≡ true) ⊎ ((row : BadgeWeight) × In row rows × IsStarOf t row)
unfolding star_types IsStarOf
star_types-row t [] types h = inl h
star_types-row t (row ∷ rows) types h = elim (star_types-row t rows _ h) [
  | inl had ↦ elim (added-cases t row.recovery.badge_type types _ had) [
    | inl earlier ↦ inl earlier
    | inr is_star ↦ inr (row, here, (is_star.1, (string_eq.same_iff _ _).0 is_star.0))
  ]
  | inr later ↦ inr (later.0, there later.1, later.2)
]

pub referenced-In :
    (row : BadgeWeight) (rows : List BadgeWeight) (names : List String)
    → (In row rows) ⊎ (includes row.category names ≡ true)
    → includes row.category (referenced_categories rows names) ≡ true
unfolding referenced_categories
referenced-In row [] names (inl m) = absurd (In-nil m)
referenced-In row [] names (inr h) = h
referenced-In row (r ∷ rows) names (inl here) =
    referenced-In row rows _
      (inr (ground (arith, includes-add row.category row.category names, same_refl row.category)))
referenced-In row (r ∷ rows) names (inl (there m)) = referenced-In row rows _ (inl m)
referenced-In row (r ∷ rows) names (inr h) =
    referenced-In row rows _ (inr (ground (arith, includes-add row.category r.category names, h)))

not_at :
    (t : String) (row r : BadgeWeight)
    → row ≡ r
    → IsStarOf t row
    → is_at t "*" r.recovery ≡ false
    → ⊥
unfolding is_at IsStarOf
not_at t row r same (e, f) h =
    let p : r.recovery.badge_type ≡ t =
      ap (λ (b : BadgeWeight). b.recovery.badge_type) (sym same) ∙ e in
    let q : r.recovery.qualifier ≡ "*" =
      ap (λ (b : BadgeWeight). b.recovery.qualifier) (sym same) ∙ f in
    ground (
      arith,
      (string_eq.same_iff r.recovery.badge_type t).1 p,
      (string_eq.same_iff r.recovery.qualifier "*").1 q,
    )

pub star-find :
    (t : String) (rows : List BadgeWeight) (row : BadgeWeight)
    → In row rows
    → IsStarOf t row
    → (found : Config.WeightRow) × (find_row t "*" (map (λ (b : BadgeWeight). b.recovery) rows)
        ≡ some found)
unfolding find_row is_at IsStarOf
star-find t [] row m s = absurd (In-nil m)
star-find t (r ∷ rows) row m s = elim (Bool-cases (is_at t "*" r.recovery)) [
  | inl p ↦ (r.recovery, rw p refl)
  | inr p ↦ elim (In-cases m) [
    | inl same ↦ absurd (not_at t row r same s p)
    | inr later ↦ let (found, e) = star-find t rows row later s in (found, rw p e)
  ]
]

-- Where every row has a good category, so has a type that is in the map already or that a row has.
module _ (P : String → Type 0) where
  pub fold_categories-some :
      (t : String) (rows : List BadgeWeight) (categories : Entries String String)
      → ((r : BadgeWeight) → In r rows → P r.category)
      → ((c : String) × P c × (lookup categories t ≡ some c))
        ⊎ ((r : BadgeWeight) × In r rows × (r.recovery.badge_type ≡ t))
      → (c : String) × P c × (lookup (fold_categories (map scoring_row rows) categories) t ≡ some c)
  unfolding fold_categories scoring_row
  fold_categories-some t [] categories good (inl h) = h
  fold_categories-some t [] categories good (inr (r, m, e)) = absurd (In-nil m)
  fold_categories-some t (row ∷ rows) categories good h =
      fold_categories-some t rows (insert categories row.recovery.badge_type row.category)
        (λ r m. good r (there m))
        (elim (Bool-cases (row.recovery.badge_type == t)) [
          | inl same ↦ inl (
            row.category,
            good row here,
            lookup-insert categories row.recovery.badge_type t row.category ∙ rw same refl,
          )
          | inr differs ↦ elim h [
            | inl had ↦ inl (
              had.0,
              had.1,
              lookup-insert categories row.recovery.badge_type t row.category ∙ rw differs had.2,
            )
            | inr found ↦ elim (In-cases found.1) [
              | inl first ↦ absurd (
                  ground (
                    arith,
                    differs,
                    (string_eq.same_iff _ _).1
                        (ap (λ (b : BadgeWeight). b.recovery.badge_type) (sym first) ∙ found.2),
                  ))
              | inr later ↦ inr (found.0, later, found.2)
            ]
          ]
        ])

pub fold_caps-some :
    (name : String) (rows : List (String × ℕ)) (caps : Entries String ℕ)
    → (In name (map (λ (row : String × ℕ). row.0) rows)) ⊎ (is_found (lookup caps name) ≡ true)
    → is_found (lookup (fold_caps rows caps) name) ≡ true
unfolding fold_caps
fold_caps-some name [] caps (inl m) = absurd (In-nil m)
fold_caps-some name [] caps (inr h) = h
fold_caps-some name ((n, cap) ∷ rows) caps (inl m) = elim (In-cases m) [
  | inl first ↦
      fold_caps-some name rows _
        (inr (rw (lookup-insert caps n name cap, (string_eq.same_iff n name).1 (sym first)) refl))
  | inr later ↦ fold_caps-some name rows _ (inl later)
]
fold_caps-some name ((n, cap) ∷ rows) caps (inr h) = fold_caps-some name rows _ (
    inr (elim (Bool-cases (n == name)) [
      | inl same ↦ rw (lookup-insert caps n name cap, same) refl
      | inr differs ↦ rw (lookup-insert caps n name cap, differs) h
    ]))

or_earlier :
    (n : Option Config.WeightRow) (a : Config.WeightRow)
    → (found : Config.WeightRow) × (row_or n (some a) ≡ some found)
or_earlier none a = (a, refl)
or_earlier (some b) a = (b, refl)

-- A type with a `*` row has a weight for every provenance.
pub recovery_weight-some :
    (t : String) (provenance : Option String) (now : ℕ) (rows : List Config.WeightRow)
    (star : Config.WeightRow)
    → find_row t "*" rows ≡ some star
    → (weight : ℕ) × (recovery_weight_for_live t provenance now rows ≡ some weight)
unfolding recovery_weight_for_live first_row recovery_qualifier_chain
recovery_weight-some t none now rows star e = (effective_recovery_weight star now, rw e refl)
recovery_weight-some t (some p) now rows star e =
    elim (Bool-cases (t == "oauth-account" && not (p == ""))) [
      | inl named ↦
          let (row, f) = or_earlier (find_row t p rows) star in
          (effective_recovery_weight row now, rw (named, e, f) refl)
      | inr other ↦ (effective_recovery_weight star now, rw (other, e) refl)
    ]

abbrev pub HasStar : Entries String (Entries String ℕ) → String → Type 0
HasStar weights t = is_found (lookup (or_empty (lookup weights t)) "*") ≡ true

insert-HasStar :
    (weights : Entries String (Entries String ℕ)) (a q : String) (w : ℕ) (t : String)
    → HasStar weights t ⊎ ((a ≡ t) × (q ≡ "*"))
    → HasStar (insert weights a (insert (or_empty (lookup weights a)) q w)) t
unfolding or_empty
insert-HasStar weights a q w t h = elim (Bool-cases (a == t)) [
  | inr differs ↦ elim h [
    | inl had ↦
        rw (lookup-insert weights a t (insert (or_empty (lookup weights a)) q w), differs) had
    | inr new ↦ absurd (ground (arith, differs, (string_eq.same_iff a t).1 new.0))
  ]
  | inl same ↦
      rw
        (
          lookup-insert weights a t (insert (or_empty (lookup weights a)) q w),
          same,
          lookup-insert (or_empty (lookup weights a)) q "*" w,
        )
        (elim (Bool-cases (q == "*")) [
          | inl star ↦ rw star refl
          | inr other ↦ rw other (elim h [
            | inl had ↦ let p : a ≡ t = (string_eq.same_iff a t).0 same in (rw (sym p) at had)
            | inr new ↦ absurd (ground (arith, other, (string_eq.same_iff q "*").1 new.1))
          ])
        ])
]

pub fold_weights-some :
    (t : String) (rows : List BadgeWeight) (weights : Entries String (Entries String ℕ))
    → HasStar weights t ⊎ ((row : BadgeWeight) × In row rows × IsStarOf t row)
    → HasStar (fold_weights (map scoring_row rows) weights) t
unfolding IsStarOf fold_weights scoring_row
fold_weights-some t [] weights (inl h) = h
fold_weights-some t [] weights (inr (row, m, s)) = absurd (In-nil m)
fold_weights-some t (row ∷ rows) weights h = fold_weights-some t rows _ (elim h [
  | inl had ↦ inl (insert-HasStar weights _ _ _ t (inl had))
  | inr found ↦ elim (In-cases found.1) [
    | inl first ↦ inl (
        insert-HasStar weights _ _ _ t (
          inr (
            ap (λ (b : BadgeWeight). b.recovery.badge_type) (sym first) ∙ found.2.0,
            ap (λ (b : BadgeWeight). b.recovery.qualifier) (sym first) ∙ found.2.1,
          )))
    | inr later ↦ inr (found.0, later, found.2)
  ]
])
