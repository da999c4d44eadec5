-- ===== src/Policy/Select/RankLaws.antt =====
-- Ranking, capping and merging keep what holds of every selection, and lose no last one.
use Prim.Native.Nat.{Ordering}
use minister.Common.{
  ℕ, String, ◌≡◌, ◌≢◌, refl, some, List, [], ◌∷◌, ◌++◌, inl, inr, arith, ◌||◌, Bool-cases, take,
  string_eq, includes, includes-add, add, Entries, All, All-take,
}
use mathlib.Core.Path.{subst}
use minister.Policy.Select.Rank.{
  Selection, sorted_key, insert_sorted, sort_by, compare_selections, best_from, best_of, union,
  sort_selections, dedupe_from, dedupe_selections, rank_and_cap, max_alternatives,
}

module _ {ℓ κ} {A : Type ℓ} (P : A → Type κ) (cmp : A → A → Ordering) where
  All-insert_sorted : (x : A) (xs : List A) → P x → All P xs → All P (insert_sorted cmp x xs)
  unfolding insert_sorted
  All-insert_sorted x [] p h = (p, tt)
  All-insert_sorted x (y ∷ ys) p h =
      elim (cmp x y)
        as (λ o. All P (elim o [ Ordering.gt ↦ y ∷ insert_sorted cmp x ys | _ ↦ x ∷ y ∷ ys ])) [
          | Ordering.gt ↦ (h.0, All-insert_sorted x ys p h.1)
          | _ ↦ (p, h)
        ]

  pub All-sort_by : (xs : List A) → All P xs → All P (sort_by cmp xs)
  unfolding sort_by
  All-sort_by [] h = tt
  All-sort_by (x ∷ xs) h = All-insert_sorted x (sort_by cmp xs) h.0 (All-sort_by xs h.1)

insert_sorted-ne-nil {ℓ} :
    {A : Type ℓ} (cmp : A → A → Ordering) (x : A) (xs : List A) → insert_sorted cmp x xs ≢ []
unfolding insert_sorted
insert_sorted-ne-nil cmp x [] e = cc
insert_sorted-ne-nil cmp x (y ∷ ys) e = ground arith

module _ (P : Selection → Type 0) where
  All-dedupe_from :
      (seen : List String) (xs : List Selection) → All P xs → All P (dedupe_from seen xs)
  unfolding dedupe_from
  All-dedupe_from seen [] h = tt
  All-dedupe_from seen (s ∷ rest) h = elim (Bool-cases (includes (sorted_key s.badge_ids) seen)) [
    | inl old ↦ rw (old, dedupe_from) (All-dedupe_from seen rest h.1)
    | inr new ↦
        rw (new, dedupe_from) (h.0, All-dedupe_from (seen ++ sorted_key s.badge_ids ∷ []) rest h.1)
  ]

  pub All-rank_and_cap :
      (counts : Entries String ℕ) (xs : List Selection) → All P xs → All P (rank_and_cap counts xs)
  unfolding rank_and_cap
  All-rank_and_cap counts xs h = All-take P 16 (dedupe_selections (sort_selections counts xs)) (
      All-dedupe_from [] (sort_selections counts xs)
        (All-sort_by P (compare_selections counts) xs h))

  best_from-All :
      (counts : Entries String ℕ) (best : Selection) (xs : List Selection)
      → P best
      → All P xs
      → P (best_from counts best xs)
  unfolding best_from
  best_from-All counts best [] p h = p
  best_from-All counts best (s ∷ rest) p h =
      elim (compare_selections counts s best)
        as (λ o. P (best_from counts (elim o [ Ordering.lt ↦ s | _ ↦ best ]) rest)) [
          | Ordering.lt ↦ best_from-All counts s rest h.0 h.1
          | _ ↦ best_from-All counts best rest p h.1
        ]

  pub best_of-All :
      (counts : Entries String ℕ) (xs : List Selection) {best : Selection}
      → best_of counts xs ≡ some best
      → All P xs
      → P best
  unfolding best_of
  best_of-All counts [] e h = cc
  best_of-All counts (s ∷ rest) e h = subst P (cc) (best_from-All counts s rest h.0 h.1)

pub best_of-some :
    (counts : Entries String ℕ) (xs : List Selection)
    → xs ≢ []
    → (best : Selection) × (best_of counts xs ≡ some best)
unfolding best_of
best_of-some counts [] h = absurd (h refl)
best_of-some counts (s ∷ rest) h = (best_from counts s rest, refl)

capped-ne-nil : (xs : List Selection) → xs ≢ [] → take max_alternatives (dedupe_from [] xs) ≢ []
unfolding dedupe_from
capped-ne-nil [] h e = h refl
capped-ne-nil (s ∷ rest) h e = cc

pub rank_and_cap-ne-nil :
    (counts : Entries String ℕ) (xs : List Selection) → xs ≢ [] → rank_and_cap counts xs ≢ []
unfolding rank_and_cap
rank_and_cap-ne-nil counts [] h e = h refl
rank_and_cap-ne-nil counts (x ∷ xs) h e =
    capped-ne-nil (sort_by (compare_selections counts) (x ∷ xs))
      (unfold sort_by in
        insert_sorted-ne-nil (compare_selections counts) x (sort_by (compare_selections counts) xs))
      e

pub includes-union :
    (id : String) (xs ys : List String)
    → includes id (union xs ys) ≡ (includes id xs || includes id ys)
includes-union id xs [] = ground arith
includes-union id xs (y ∷ ys) =
    ground (arith, includes-union id (add y xs) ys, includes-add id y xs)
