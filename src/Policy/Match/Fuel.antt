-- ===== src/Policy/Match/Fuel.antt =====
-- The fuel of a search: one more than the badges that it has not visited is enough.
use minister.Common.{
  ℕ, zero, suc, ◌≤◌, ◌<◌, ◌≡◌, refl, ap, ◌∙◌, Bool, true, List, [], ◌∷◌, inl, inr, arith,
  Bool-cases, Option-cases, length, All, In,
}
use minister.Policy.Match.{Search, flag_at, slot_at, row_at, visit, assign, try_badges, try_assign}
use minister.Policy.Match.Slots.{unvisited, unvisited-visit}
use minister.Policy.Match.Step.{
  InRange, credit, IsSized, After, After-visit, try_assign-After, row-ok,
}

unvisited-le :
    (fs gs : List Bool)
    → length fs ≡ length gs
    → ((j : ℕ) → flag_at fs j ≡ true → flag_at gs j ≡ true)
    → unvisited gs ≤ unvisited fs
unfolding unvisited
unvisited-le [] [] e h = omega arith
unvisited-le [] (g ∷ gs) e h = absurd (omega arith)
unvisited-le (f ∷ fs) [] e h = absurd (omega arith)
unvisited-le (f ∷ fs) (g ∷ gs) e h =
    ground (arith, unvisited-le fs gs (omega arith) (λ j. h (suc j)), h 0)

module _ (adjacency : List (List ℕ)) (badges : ℕ) (range : InRange badges adjacency) where
  -- The loop takes the same course with two recursive calls that agree where less is unvisited.
  try_badges-agree :
      (retry retry' : ℕ → Search → Bool × Search) (branch bound : ℕ) (row : List ℕ) (s : Search)
      → ((other : ℕ) (t : Search)
          → IsSized adjacency badges t
          → After adjacency badges (credit (retry other t).0 other) t (retry other t).1)
      → ((other : ℕ) (t : Search)
          → IsSized adjacency badges t
          → unvisited t.visited < bound
          → retry other t ≡ retry' other t)
      → All (λ bi. (bi < badges) × In bi (row_at adjacency branch)) row
      → IsSized adjacency badges s
      → unvisited s.visited ≤ bound
      → try_badges retry branch row s ≡ try_badges retry' branch row s
  unfolding try_badges
  try_badges-agree retry retry' branch bound [] s part same ok h le = refl
  try_badges-agree retry retry' branch bound (bi ∷ row) s part same ok h le =
      elim (Bool-cases (flag_at s.visited bi)) [
        | inl old ↦
            rw (old, try_badges)
              (try_badges-agree retry retry' branch bound row s part same ok.1 h le)
        | inr new ↦ elim (Option-cases (slot_at s.badge_match bi)) [
          | inl free ↦ rw (new, free, try_badges)
          | inr (other, busy) ↦
              let sized = (After-visit adjacency badges s bi h).sized in
              let less = unvisited-visit s.visited bi (omega (arith, h.flags, ok.0.0)) new in
              let agree = same other (visit bi s) sized (omega (arith, less)) in
              let moved = part other (visit bi s) sized in
              let fewer =
                unvisited-le (visit bi s).visited (retry other (visit bi s)).1.visited
                  (omega (arith, sized.flags, moved.sized.flags)) moved.seen in
              elim (Bool-cases (retry other (visit bi s)).0) [
                | inl found ↦
                    rw (new, busy, ← agree, found, try_badges)
                      (ap (λ r. (true, assign bi branch r.1)) agree)
                | inr stuck ↦
                    rw (new, busy, ← agree, stuck, try_badges)
                      (try_badges-agree retry retry' branch bound row (retry other (visit bi s)).1
                          part same ok.1 moved.sized (omega (arith, fewer, less))
                        ∙ ap (λ r. try_badges retry' branch row r.1) agree)
              ]
        ]
      ]

  try_assign-agree :
      (fuel fuel' branch : ℕ) (s : Search)
      → IsSized adjacency badges s
      → ((other : ℕ) (t : Search)
          → IsSized adjacency badges t
          → unvisited t.visited < unvisited s.visited
          → try_assign adjacency fuel other t ≡ try_assign adjacency fuel' other t)
      → try_assign adjacency (suc fuel) branch s ≡ try_assign adjacency (suc fuel') branch s
  unfolding try_assign
  try_assign-agree fuel fuel' branch s h same =
      try_badges-agree (try_assign adjacency fuel) (try_assign adjacency fuel') branch
        (unvisited s.visited) (row_at adjacency branch) s
        (λ other t k. try_assign-After adjacency badges range fuel other t k) same
        (row-ok adjacency badges range branch (row_at adjacency branch) (λ j m. m)) h (omega arith)

  -- Two searches whose fuel is above the number of badges that they have not visited have one result.
  pub try_assign-fuel :
      (fuel fuel' branch : ℕ) (s : Search)
      → IsSized adjacency badges s
      → unvisited s.visited ≤ fuel
      → unvisited s.visited ≤ fuel'
      → try_assign adjacency (suc fuel) branch s ≡ try_assign adjacency (suc fuel') branch s
  try_assign-fuel zero fuel' branch s h le le' =
      try_assign-agree zero fuel' branch s h (λ other t k lt. absurd (omega arith))
  try_assign-fuel (suc fuel) zero branch s h le le' =
      try_assign-agree (suc fuel) zero branch s h (λ other t k lt. absurd (omega arith))
  try_assign-fuel (suc fuel) (suc fuel') branch s h le le' =
      try_assign-agree (suc fuel) (suc fuel') branch s h
        (λ other t k lt. try_assign-fuel fuel fuel' other t k (omega arith) (omega arith))
