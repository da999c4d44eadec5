-- ===== src/Recovery/Config/Easier.antt =====
-- When one store makes recovery no easier than another until a time: an order on rows, thresholds and
-- stores.
use minister.Common.{
  ℕ, String, ◌≡◌, refl, ◌∙◌, ◌≤◌, ◌<◌, Option, none, some, List, [], ◌∷◌, arith, string_eq, inl,
  inr, Bool-cases,
}
use minister.Recovery.Config.{
  WeightRow, Threshold, effective_recovery_weight, effective_recovery_threshold,
}
use minister.Recovery.Config.Store.{Store, find_row, update_row, is_at}

-- Before a time, the second row weighs no more than the first, which has the same key.
unfoldable pub IsNoHeavier : ℕ → WeightRow → WeightRow → Type 0
IsNoHeavier limit row next =
    (next.badge_type ≡ row.badge_type)
    × (next.qualifier ≡ row.qualifier)
    × ((time : ℕ)
        → time < limit
        → effective_recovery_weight next time ≤ effective_recovery_weight row time)

unfoldable pub AreNoHeavier : ℕ → List WeightRow → List WeightRow → Type 0
AreNoHeavier limit [] [] = Unit
AreNoHeavier limit [] (row ∷ rows) = ⊥
AreNoHeavier limit (row ∷ rows) [] = ⊥
AreNoHeavier limit (row ∷ rows) (next ∷ nexts) =
    IsNoHeavier limit row next × AreNoHeavier limit rows nexts

unfoldable pub IsNoLower : ℕ → Threshold → Threshold → Type 0
IsNoLower limit cfg next =
    (time : ℕ)
    → time < limit
    → effective_recovery_threshold cfg time ≤ effective_recovery_threshold next time

unfoldable pub IsNoLowerIn : ℕ → Option Threshold → Option Threshold → Type 0
IsNoLowerIn limit none none = Unit
IsNoLowerIn limit (some cfg) none = ⊥
IsNoLowerIn limit none (some next) = ⊥
IsNoLowerIn limit (some cfg) (some next) = IsNoLower limit cfg next

-- Until a time, recovery is no easier with the second store than with the first.
unfoldable pub IsNoEasier : ℕ → Store → Store → Type 0
IsNoEasier limit store next =
    AreNoHeavier limit store.rows next.rows × IsNoLowerIn limit store.config next.config

pub AreNoHeavier-refl : (limit : ℕ) (rows : List WeightRow) → AreNoHeavier limit rows rows
unfolding AreNoHeavier IsNoHeavier
AreNoHeavier-refl limit [] = tt
AreNoHeavier-refl limit (row ∷ rows) =
    ((refl, refl, λ time before. omega arith), AreNoHeavier-refl limit rows)

pub AreNoHeavier-trans :
    (limit : ℕ) (xs ys zs : List WeightRow)
    → AreNoHeavier limit xs ys
    → AreNoHeavier limit ys zs
    → AreNoHeavier limit xs zs
unfolding AreNoHeavier IsNoHeavier
AreNoHeavier-trans limit [] [] [] h k = tt
AreNoHeavier-trans limit [] (y ∷ ys) zs h k = absurd h
AreNoHeavier-trans limit [] [] (z ∷ zs) h k = absurd k
AreNoHeavier-trans limit (x ∷ xs) [] zs h k = absurd h
AreNoHeavier-trans limit (x ∷ xs) (y ∷ ys) [] h k = absurd k
AreNoHeavier-trans limit (x ∷ xs) (y ∷ ys) (z ∷ zs) h k = (
  (
    k.0.0 ∙ h.0.0,
    k.0.1 ∙ h.0.1,
    λ time before. omega (arith, h.0.2 time before, k.0.2 time before),
  ),
  AreNoHeavier-trans limit xs ys zs h.1 k.1,
)

pub IsNoLowerIn-refl : (limit : ℕ) (c : Option Threshold) → IsNoLowerIn limit c c
unfolding IsNoLowerIn IsNoLower
IsNoLowerIn-refl limit none = tt
IsNoLowerIn-refl limit (some cfg) = λ time before. omega arith

pub IsNoLowerIn-trans :
    (limit : ℕ) (a b c : Option Threshold)
    → IsNoLowerIn limit a b
    → IsNoLowerIn limit b c
    → IsNoLowerIn limit a c
unfolding IsNoLowerIn IsNoLower
IsNoLowerIn-trans limit none none none h k = tt
IsNoLowerIn-trans limit none none (some z) h k = absurd k
IsNoLowerIn-trans limit none (some y) c h k = absurd h
IsNoLowerIn-trans limit (some x) none c h k = absurd h
IsNoLowerIn-trans limit (some x) (some y) none h k = absurd k
IsNoLowerIn-trans limit (some x) (some y) (some z) h k =
    λ time before. omega (arith, h time before, k time before)

pub update_row-AreNoHeavier :
    (limit : ℕ) (badge_type qualifier : String) (f : WeightRow → WeightRow) (row : WeightRow)
    (rows : List WeightRow)
    → find_row badge_type qualifier rows ≡ some row
    → IsNoHeavier limit row (f row)
    → AreNoHeavier limit rows (update_row badge_type qualifier f rows)
unfolding AreNoHeavier find_row update_row
update_row-AreNoHeavier limit badge_type qualifier f row [] found h = tt
update_row-AreNoHeavier limit badge_type qualifier f row (r ∷ rows) found h =
    elim (Bool-cases (is_at badge_type qualifier r)) [
      | inl at ↦
          let e : r ≡ row = ground (arith, at, found) in
          rw at (rw (e, f) (h, AreNoHeavier-refl limit rows))
      | inr other ↦ rw other (
        (AreNoHeavier-refl limit (r ∷ [])).0,
        update_row-AreNoHeavier limit badge_type qualifier f row rows (ground (arith, other, found))
            h,
      )
    ]

pub find_row-IsNoHeavier :
    (limit : ℕ) (badge_type qualifier : String) (row next : WeightRow) (rows nexts : List WeightRow)
    → AreNoHeavier limit rows nexts
    → find_row badge_type qualifier rows ≡ some row
    → find_row badge_type qualifier nexts ≡ some next
    → IsNoHeavier limit row next
unfolding AreNoHeavier find_row IsNoHeavier is_at
find_row-IsNoHeavier limit badge_type qualifier row next [] nexts h found later = cc
find_row-IsNoHeavier limit badge_type qualifier row next (r ∷ rows) [] h found later = cc
find_row-IsNoHeavier limit badge_type qualifier row next (r ∷ rows) (n ∷ nexts) h found later =
    elim (Bool-cases (is_at badge_type qualifier r)) [
      | inl at ↦
          let e : r ≡ row = ground (arith, at, found) in
          let f : n ≡ next = ground (arith, at, later, h.0.0, h.0.1) in rw (← e, ← f) h.0
      | inr other ↦
          find_row-IsNoHeavier limit badge_type qualifier row next rows nexts h.1
            (ground (arith, other, found)) (ground (arith, other, later, h.0.0, h.0.1))
    ]

-- A row that is there later was there before.
pub find_row-back :
    (limit : ℕ) (badge_type qualifier : String) (next : WeightRow) (rows nexts : List WeightRow)
    → AreNoHeavier limit rows nexts
    → find_row badge_type qualifier nexts ≡ some next
    → (row : WeightRow) × (find_row badge_type qualifier rows ≡ some row)
unfolding AreNoHeavier find_row IsNoHeavier is_at
find_row-back limit badge_type qualifier next [] [] h later = cc
find_row-back limit badge_type qualifier next [] (n ∷ nexts) h later = absurd h
find_row-back limit badge_type qualifier next (r ∷ rows) [] h later = absurd h
find_row-back limit badge_type qualifier next (r ∷ rows) (n ∷ nexts) h later =
    elim (Bool-cases (is_at badge_type qualifier r)) [
      | inl at ↦ (r, rw at refl)
      | inr other ↦
          let (row, found) =
            find_row-back limit badge_type qualifier next rows nexts h.1
              (ground (arith, other, later, h.0.0, h.0.1)) in
          (row, rw other found)
    ]
