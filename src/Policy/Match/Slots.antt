-- ===== src/Policy/Match/Slots.antt =====
-- How often a branch stands in `badgeMatch`, and what a write to one slot does to that count.
use minister.Common.{
  ℕ, zero, suc, ◌+◌, ◌≤◌, ◌<◌, ◌≡◌, ◌≢◌, refl, ap, Bool, true, false, Option, none, some, List, [],
  ◌∷◌, arith, if◌then◌else◌, nat_beq, length, set, replicate,
}
use minister.Policy.Match.{flag_at, slot_at}

abbrev pub is_branch : ℕ → Option ℕ → ℕ
is_branch b none = 0
is_branch b (some c) = if nat_beq b c then 1 else 0

-- The slots that hold branch `b`.
unfoldable pub held : ℕ → List (Option ℕ) → ℕ
held b [] = 0
held b (s ∷ ss) = is_branch b s + held b ss

abbrev pub is_taken : Option ℕ → ℕ
is_taken none = 0
is_taken (some c) = 1

-- The slots that are not free.
unfoldable pub taken : List (Option ℕ) → ℕ
taken [] = 0
taken (s ∷ ss) = is_taken s + taken ss

pub held-set :
    (b : ℕ) (ss : List (Option ℕ)) (i : ℕ) (s : Option ℕ)
    → i < length ss
    → held b (set ss i s) + is_branch b (slot_at ss i) ≡ held b ss + is_branch b s
unfolding held
held-set b [] i s h = absurd (omega arith)
held-set b (x ∷ ss) zero s h = omega arith
held-set b (x ∷ ss) (suc i) s h = omega (arith, held-set b ss i s (omega arith))

pub taken-set :
    (ss : List (Option ℕ)) (i : ℕ) (s : Option ℕ)
    → i < length ss
    → taken (set ss i s) + is_taken (slot_at ss i) ≡ taken ss + is_taken s
unfolding taken
taken-set [] i s h = absurd (omega arith)
taken-set (x ∷ ss) zero s h = omega arith
taken-set (x ∷ ss) (suc i) s h = omega (arith, taken-set ss i s (omega arith))

pub slot_at-set_self :
    (ss : List (Option ℕ)) (i : ℕ) (s : Option ℕ) → i < length ss → slot_at (set ss i s) i ≡ s
slot_at-set_self [] i s h = absurd (omega arith)
slot_at-set_self (x ∷ ss) zero s h = refl
slot_at-set_self (x ∷ ss) (suc i) s h = slot_at-set_self ss i s (omega arith)

pub slot_at-set_ne :
    (ss : List (Option ℕ)) (i j : ℕ) (s : Option ℕ) → i ≢ j → slot_at (set ss i s) j ≡ slot_at ss j
slot_at-set_ne [] i j s h = refl
slot_at-set_ne (x ∷ ss) zero zero s h = absurd (h refl)
slot_at-set_ne (x ∷ ss) zero (suc j) s h = refl
slot_at-set_ne (x ∷ ss) (suc i) zero s h = refl
slot_at-set_ne (x ∷ ss) (suc i) (suc j) s h = slot_at-set_ne ss i j s (λ e. h (ap suc e))

-- A write to a place that is not there changes nothing.
pub slot_at-some-lt : (ss : List (Option ℕ)) (i : ℕ) {b : ℕ} → slot_at ss i ≡ some b → i < length ss
slot_at-some-lt [] i h = cc
slot_at-some-lt (x ∷ ss) zero h = omega arith
slot_at-some-lt (x ∷ ss) (suc i) h = omega (arith, slot_at-some-lt ss i h)

pub flag_at-set_self : (fs : List Bool) (i : ℕ) → i < length fs → flag_at (set fs i true) i ≡ true
flag_at-set_self [] i h = absurd (omega arith)
flag_at-set_self (x ∷ fs) zero h = refl
flag_at-set_self (x ∷ fs) (suc i) h = flag_at-set_self fs i (omega arith)

pub flag_at-set :
    (fs : List Bool) (i j : ℕ) → flag_at fs j ≡ true → flag_at (set fs i true) j ≡ true
flag_at-set [] i j h = h
flag_at-set (x ∷ fs) zero zero h = refl
flag_at-set (x ∷ fs) zero (suc j) h = h
flag_at-set (x ∷ fs) (suc i) zero h = h
flag_at-set (x ∷ fs) (suc i) (suc j) h = flag_at-set fs i j h

-- The badges that a search has not visited.
abbrev pub is_clear : Bool → ℕ
is_clear true = 0
is_clear false = 1

unfoldable pub unvisited : List Bool → ℕ
unvisited [] = 0
unvisited (f ∷ fs) = is_clear f + unvisited fs

pub unvisited-visit :
    (fs : List Bool) (i : ℕ)
    → i < length fs
    → flag_at fs i ≡ false
    → unvisited (set fs i true) + 1 ≡ unvisited fs
unfolding unvisited
unvisited-visit [] i h e = absurd (omega arith)
unvisited-visit (x ∷ fs) zero h e = ground arith
unvisited-visit (x ∷ fs) (suc i) h e = omega (arith, unvisited-visit fs i (omega arith) e)

pub held-replicate : (b n : ℕ) → held b (replicate n none) ≡ 0
unfolding held
held-replicate b zero = refl
held-replicate b (suc n) = omega (arith, held-replicate b n)

pub taken-replicate : (n : ℕ) → taken (replicate n none) ≡ 0
unfolding taken
taken-replicate zero = refl
taken-replicate (suc n) = omega (arith, taken-replicate n)

pub taken-le-length : (ss : List (Option ℕ)) → taken ss ≤ length ss
unfolding taken
taken-le-length [] = omega arith
taken-le-length (x ∷ ss) = ground (arith, taken-le-length ss)

pub unvisited-replicate : (n : ℕ) → unvisited (replicate n false) ≡ n
unfolding unvisited
unvisited-replicate zero = refl
unvisited-replicate (suc n) = omega (arith, unvisited-replicate n)
