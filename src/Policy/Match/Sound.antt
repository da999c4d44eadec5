-- ===== src/Policy/Match/Sound.antt =====
-- The slots at the end of all searches are a matching.
use minister.Common.{
  ℕ, zero, suc, ◌+◌, ◌≤◌, ◌≡◌, ◌≢◌, Bool, false, Option, none, some, List, arith, if◌then◌else◌,
  length, length-replicate, replicate,
}
use minister.Policy.Match.{Search, slot_at, try_assign, match_branches, max_distinct_match}
use minister.Policy.Match.Slots.{is_branch, held, taken, held-replicate, taken-replicate}
use minister.Policy.Match.Step.{HasEdges, InRange, credit, try_assign-After}

slot_at-replicate : (n i : ℕ) {b : ℕ} → slot_at (replicate n none) i ≢ some b
slot_at-replicate zero i e = cc
slot_at-replicate (suc n) zero e = cc
slot_at-replicate (suc n) (suc i) e = slot_at-replicate n i e

-- A matching of branches and badges: one branch at a badge, no branch at two badges, and only along
-- edges; `matched` of the badges are taken.
pub record IsMatching (adjacency : List (List ℕ)) (badges matched : ℕ) (slots : List (Option ℕ))
    : Type 0 where
  pub size : length slots ≡ badges
  pub edges : HasEdges adjacency slots
  pub once : (b : ℕ) → held b slots ≤ 1
  pub total : taken slots ≡ matched

held_once :
    (found : Bool) (branch b : ℕ) {before after : ℕ}
    → after ≡ before + is_branch b (credit found branch)
    → before ≤ 1
    → (branch ≤ b → before ≡ 0)
    → after ≤ 1
held_once found branch b e le free = ground arith

held_later :
    (found : Bool) (branch b : ℕ) {before after : ℕ}
    → after ≡ before + is_branch b (credit found branch)
    → branch + 1 ≤ b
    → before ≡ 0
    → after ≡ 0
held_later found branch b e le free = ground arith

module _ (adjacency : List (List ℕ)) (badges : ℕ) (range : InRange badges adjacency) where
  match_branches-IsMatching :
      (branch rounds matched : ℕ) (slots : List (Option ℕ))
      → IsMatching adjacency badges matched slots
      → ((b : ℕ) → branch ≤ b → held b slots ≡ 0)
      → IsMatching adjacency badges
          (match_branches adjacency badges branch rounds matched slots).0
          (match_branches adjacency badges branch rounds matched slots).1
  unfolding match_branches
  match_branches-IsMatching branch zero matched slots v free = v
  match_branches-IsMatching branch (suc rounds) matched slots v free =
      let start : Search = record { visited = replicate badges false; badge_match = slots } in
      let a =
        try_assign-After adjacency badges range (suc badges) branch start
          (record { flags = length-replicate badges false; slots = v.size }) in
      match_branches-IsMatching (branch + 1) rounds
        (if (try_assign adjacency (suc badges) branch start).0 then matched + 1 else matched)
        (try_assign adjacency (suc badges) branch start).1.badge_match
        (record {
          size = a.sized.slots;
          edges = a.edges v.edges;
          once = λ b.
              held_once (try_assign adjacency (suc badges) branch start).0 branch b (a.counts b)
                (v.once b) (free b);
          total = ground (arith, a.total, v.total);
        })
        (λ b le.
          held_later (try_assign adjacency (suc badges) branch start).0 branch b (a.counts b) le
            (free b (omega arith)))

  -- The search ends with a matching of the size that it returns.
  pub max_distinct_match-IsMatching :
      IsMatching adjacency badges
        (max_distinct_match adjacency badges).0
        (max_distinct_match adjacency badges).1
  unfolding max_distinct_match
  max_distinct_match-IsMatching =
      match_branches-IsMatching 0 (length adjacency) 0 (replicate badges none)
        (record {
          size = length-replicate badges none;
          edges = λ bi b e. absurd (slot_at-replicate badges bi e);
          once = λ b. omega (arith, held-replicate b badges);
          total = taken-replicate badges;
        })
        (λ b le. held-replicate b badges)
