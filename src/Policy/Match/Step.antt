-- ===== src/Policy/Match/Step.antt =====
-- What one search leaves: a search that finds a badge adds its branch to the slots once, and moves
-- others along edges; what it had visited before it does not touch.
use minister.Common.{
  ℕ, zero, suc, ◌+◌, ◌<◌, ◌≡◌, ◌≢◌, refl, ap, sym, ◌∙◌, Bool, true, false, Option, none, some, List,
  [], ◌∷◌, inl, inr, arith, nat_beq, nat_beq_iff, Bool-cases, Option-cases, length, length-set, set,
  All, In, here, there,
}
use minister.Policy.Match.{Search, flag_at, slot_at, row_at, visit, assign, try_badges, try_assign}
use minister.Policy.Match.Slots.{
  is_branch, held, is_taken, taken, held-set, taken-set, slot_at-set_self, slot_at-set_ne,
  flag_at-set_self, flag_at-set,
}

-- Every slot holds a branch that its badge witnesses.
abbrev pub HasEdges : List (List ℕ) → List (Option ℕ) → Type 0
HasEdges adjacency slots =
    (bi branch : ℕ) → slot_at slots bi ≡ some branch → In bi (row_at adjacency branch)

-- Every badge of a row is one of the `badges` badges.
abbrev pub InRange : ℕ → List (List ℕ) → Type 0
InRange badges rows = (branch bi : ℕ) → In bi (row_at rows branch) → bi < badges

flags-ne : (fs : List Bool) {i j : ℕ} → flag_at fs i ≡ false → flag_at fs j ≡ true → i ≢ j
flags-ne fs h k e = cc (ap (flag_at fs) e)

HasEdges-set :
    (adjacency : List (List ℕ)) (slots : List (Option ℕ)) (branch bi : ℕ)
    → bi < length slots
    → In bi (row_at adjacency branch)
    → HasEdges adjacency slots
    → HasEdges adjacency (set slots bi (some branch))
HasEdges-set adjacency slots branch bi lt edge h j b e = elim (Bool-cases (nat_beq bi j)) [
  | inl same ↦
      let p : bi ≡ j = (nat_beq_iff bi j).0 same in
      let r : some branch ≡ some b =
        sym (slot_at-set_self slots bi (some branch) lt)
        ∙ ap (slot_at (set slots bi (some branch))) p
        ∙ e in
      let q : branch ≡ b = cc in rw (← p, ← q) edge
  | inr other ↦
      h j b (sym (slot_at-set_ne slots bi j (some branch) (λ p. cc ((nat_beq_iff bi j).1 p))) ∙ e)
]

-- The branch that a search added.
abbrev pub credit : Bool → ℕ → Option ℕ
credit true branch = some branch
credit false branch = none

module _ (adjacency : List (List ℕ)) (badges : ℕ) where
  pub record IsSized (s : Search) : Type 0 where
    pub flags : length s.visited ≡ badges
    pub slots : length s.badge_match ≡ badges

  -- What a search from `s` to `u` leaves: `credit` is the branch that it added, if it added one.
  pub record After (credit : Option ℕ) (s u : Search) : Type 0 where
    pub sized : IsSized u
    pub seen : (j : ℕ) → flag_at s.visited j ≡ true → flag_at u.visited j ≡ true
    pub untouched :
        (j : ℕ) → flag_at s.visited j ≡ true → slot_at u.badge_match j ≡ slot_at s.badge_match j
    pub edges : HasEdges adjacency s.badge_match → HasEdges adjacency u.badge_match
    pub counts : (b : ℕ) → held b u.badge_match ≡ held b s.badge_match + is_branch b credit
    pub total : taken u.badge_match ≡ taken s.badge_match + is_taken credit

  After-refl : (s : Search) → IsSized s → After none s s
  After-refl s h = record {
    sized = h;
    seen = λ j e. e;
    untouched = λ j e. refl;
    edges = λ h. h;
    counts = λ b. omega arith;
    total = omega arith;
  }

  pub After-visit : (s : Search) (bi : ℕ) → IsSized s → After none s (visit bi s)
  After-visit s bi h = record {
    sized = record { flags = length-set s.visited bi true ∙ h.flags; slots = h.slots };
    seen = λ j e. flag_at-set s.visited bi j e;
    untouched = λ j e. refl;
    edges = λ h. h;
    counts = λ b. omega arith;
    total = omega arith;
  }

  After-trans :
      {credit : Option ℕ} {s t u : Search} → After none s t → After credit t u → After credit s u
  After-trans p q = record {
    sized = q.sized;
    seen = λ j e. q.seen j (p.seen j e);
    untouched = λ j e. q.untouched j (p.seen j e) ∙ p.untouched j e;
    edges = λ h. q.edges (p.edges h);
    counts = λ b. omega (arith, p.counts b, q.counts b);
    total = omega (arith, p.total, q.total);
  }

  in_slots : {bi : ℕ} (u : Search) → IsSized u → bi < badges → bi < length u.badge_match
  in_slots u h lt = omega (arith, h.slots)

  -- The badge `bi` was visited, its old branch `prev` was placed elsewhere, and it takes `branch`.
  After-assign :
      (branch bi : ℕ) (prev : Option ℕ) (s u : Search)
      → IsSized s
      → bi < badges
      → In bi (row_at adjacency branch)
      → flag_at s.visited bi ≡ false
      → slot_at s.badge_match bi ≡ prev
      → After prev (visit bi s) u
      → After (some branch) s (assign bi branch u)
  After-assign branch bi prev s u h lt edge new old a =
      let seen_bi = flag_at-set_self s.visited bi (omega (arith, h.flags)) in
      let held_slot = a.untouched bi seen_bi ∙ old in
      record {
        sized = record {
          flags = a.sized.flags;
          slots = length-set u.badge_match bi (some branch) ∙ a.sized.slots;
        };
        seen = λ j e. a.seen j (flag_at-set s.visited bi j e);
        untouched = λ j e.
            slot_at-set_ne u.badge_match bi j (some branch) (flags-ne s.visited new e)
            ∙ a.untouched j (flag_at-set s.visited bi j e);
        edges = λ he.
            HasEdges-set adjacency u.badge_match branch bi (in_slots u a.sized lt) edge
              (a.edges he);
        counts = λ b. omega (
          arith,
          held-set b u.badge_match bi (some branch) (in_slots u a.sized lt),
          ap (is_branch b) held_slot,
          a.counts b,
        );
        total = omega (
          arith,
          taken-set u.badge_match bi (some branch) (in_slots u a.sized lt),
          ap is_taken held_slot,
          a.total,
        );
      }

  -- The loop over some of the badges of `branch`, if each recursive call does its part.
  pub try_badges-After :
      (retry : ℕ → Search → Bool × Search) (branch : ℕ) (row : List ℕ) (s : Search)
      → ((other : ℕ) (t : Search)
          → IsSized t
          → After (credit (retry other t).0 other) t (retry other t).1)
      → All (λ bi. (bi < badges) × In bi (row_at adjacency branch)) row
      → IsSized s
      → After (credit (try_badges retry branch row s).0 branch) s (try_badges retry branch row s).1
  unfolding try_badges
  try_badges-After retry branch [] s part ok h = After-refl s h
  try_badges-After retry branch (bi ∷ row) s part ok h = elim (Bool-cases (flag_at s.visited bi)) [
    | inl old ↦ rw (old, try_badges) (try_badges-After retry branch row s part ok.1 h)
    | inr new ↦ elim (Option-cases (slot_at s.badge_match bi)) [
      | inl free ↦
          rw (new, free, try_badges)
            (After-assign branch bi none s (visit bi s) h ok.0.0 ok.0.1 new free
              (After-refl (visit bi s) (After-visit s bi h).sized))
      | inr (other, busy) ↦
          let moved = part other (visit bi s) (After-visit s bi h).sized in
          elim (Bool-cases (retry other (visit bi s)).0) [
            | inl found ↦
                rw (new, busy, found, try_badges)
                  (After-assign branch bi (some other) s (retry other (visit bi s)).1 h ok.0.0
                    ok.0.1 new busy (rw found at moved))
            | inr stuck ↦
                rw (new, busy, stuck, try_badges)
                  (After-trans (After-trans (After-visit s bi h) (rw stuck at moved)) (
                    try_badges-After retry branch row (retry other (visit bi s)).1 part ok.1
                      moved.sized))
          ]
    ]
  ]

  module _ (range : InRange badges adjacency) where
    pub row-ok :
        (branch : ℕ) (row : List ℕ)
        → ((bi : ℕ) → In bi row → In bi (row_at adjacency branch))
        → All (λ bi. (bi < badges) × In bi (row_at adjacency branch)) row
    row-ok branch [] h = tt
    row-ok branch (bi ∷ row) h =
        ((range branch bi (h bi here), h bi here), row-ok branch row (λ j m. h j (there m)))

    pub try_assign-After :
        (fuel branch : ℕ) (s : Search)
        → IsSized s
        → After
            (credit (try_assign adjacency fuel branch s).0 branch)
            s
            (try_assign adjacency fuel branch s).1
    unfolding try_assign
    try_assign-After zero branch s h = After-refl s h
    try_assign-After (suc fuel) branch s h =
        try_badges-After (try_assign adjacency fuel) branch (row_at adjacency branch) s
          (λ other t k. try_assign-After fuel other t k)
          (row-ok branch (row_at adjacency branch) (λ j m. m)) h
