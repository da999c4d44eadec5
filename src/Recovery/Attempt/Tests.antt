-- ===== src/Recovery/Attempt/Tests.antt =====
-- Concrete runs of the recovery engine.
use minister.Common.{
  ℕ, ◌≤◌, ◌<◌, ◌≢◌, String, ◌≡◌, refl, Bool, true, false, Option, none, some, List, [], ◌∷◌, All,
  arith, ◌+◌, string_eq, lookup, insert,
}
use minister.Recovery.{is_recovery_eligible}
use minister.Recovery.Config.{
  whole, WeightRow, Threshold, effective, effective_recovery_weight, effective_recovery_threshold,
  worst_weight, worst_threshold,
}
use minister.Recovery.Config.Store.{Session, Store, find_row, is_at, gated, gate_recovery_config}
use minister.Recovery.Config.Actions.{
  Call, weight_call, perform, perform_all, update_recovery_weight, weight_body,
}
use minister.Recovery.Config.Guarded.{IsBelow, IsGuarded}
use minister.Recovery.Config.Valid.{IsValidRow, IsValidThreshold, IsValid}
use minister.Recovery.Attempt.{
  score_for, recovery_attempt_ttl_ms, Attempt, Tables, load_effective_threshold, first_row,
  recovery_qualifier_chain, recovery_weight_for_live, start_recovery_attempt, open_attempt, holds,
  has_proof, with_weight, add_proof, check_attempt, re_proof_with, record_re_proof, granted, claim,
  consume_seen, consume_satisfied_attempt, start, prove, Steps, stay, follow,
}
use minister.Recovery.Attempt.Accounts.{total, IsAccount, AreDistinct, IsBalanced, Steps-IsBalanced}
use minister.Recovery.Attempt.Reached.{
  Answer, weigh, prove_all, IsGood, AreApart, consume_satisfied_attempt-reached,
}
use minister.Recovery.Attempt.Once.{
  consume_satisfied_attempt-granted, consume_satisfied_attempt-once,
}

abbrev row_of : String → ℕ → Bool → WeightRow
row_of badge_type weight solo = record {
  badge_type = badge_type;
  qualifier = "*";
  recovery_weight = weight;
  pending_recovery_weight = none;
  recovery_effective_at = none;
  allow_solo_recovery = solo;
}

abbrev seeded : Threshold
seeded = record { threshold = 100; pending_threshold = none; threshold_effective_at = none }

-- A user with a document badge, and no attempt yet.
abbrev fresh : Tables
fresh = record {
  attempts = [];
  proofs = [];
  tickets = [];
  badges = record { user_id = "ann"; badge_type = "tlsn-attestation"; is_public = false } ∷ [];
  rows = row_of "tlsn-attestation" 100 true ∷ [];
  config = some seeded;
}

abbrev started : Tables
started = start_recovery_attempt 1000 "a1" "n1" "ann" none fresh fresh

abbrev proven : Tables
proven = (record_re_proof 2000 "a1" "tlsn-attestation" none started started).1

fresh-IsBalanced : IsBalanced fresh
unfolding IsBalanced IsAccount AreDistinct lookup total
fresh-IsBalanced = (λ id. refl, tt)

run : Steps fresh proven
run =
    follow (start fresh 1000 "a1" "n1" "ann" none)
      (follow (prove started 2000 "a1" "tlsn-attestation" none) stay)

Steps-IsBalanced_example : IsBalanced proven
Steps-IsBalanced_example = Steps-IsBalanced run fresh-IsBalanced

proven-IsBalanced : IsBalanced proven
proven-IsBalanced = Steps-IsBalanced run fresh-IsBalanced

consumed-now : (consume_satisfied_attempt 3000 "a1" "t1" proven proven).0 ≡ granted "t1" "ann"
unfolding start_recovery_attempt load_effective_threshold effective_recovery_threshold effective
    open_attempt insert lookup record_re_proof re_proof_with check_attempt is_recovery_eligible
    holds recovery_weight_for_live recovery_qualifier_chain first_row find_row is_at
    effective_recovery_weight add_proof has_proof with_weight consume_satisfied_attempt consume_seen
    claim
consumed-now = refl

consume_satisfied_attempt-granted_example :
    (read found : Attempt) × (lookup proven.attempts "a1" ≡ some read)
    × (3000 < read.expires_at)
    × ("ann" ≡ read.user_id)
    × (lookup proven.attempts "a1" ≡ some found)
    × (found.required_score ≤ total "a1" proven.proofs)
    × AreDistinct proven.proofs
consume_satisfied_attempt-granted_example =
    consume_satisfied_attempt-granted 3000 "a1" "t1" "t1" "ann" proven proven proven-IsBalanced
      consumed-now

consume_satisfied_attempt-once_example :
    (consume_satisfied_attempt 3001 "a1" "t2" proven
      (consume_satisfied_attempt 3000 "a1" "t1" proven proven).1).0
    ≢ granted "t2" "ann"
consume_satisfied_attempt-once_example =
    consume_satisfied_attempt-once 3000 3001 "a1" "t1" "t1" "ann" "t2" "t2" "ann" proven proven
      proven (consume_satisfied_attempt 3000 "a1" "t1" proven proven).1 consumed-now stay

abbrev store : Store
store = record { rows = row_of "email-exact" 15 false ∷ []; config = some seeded; audits = [] }

store-IsValid : IsValid store
unfolding IsValid IsValidRow IsValidThreshold
store-IsValid = (
  ((omega arith, λ p e. ground arith), tt),
  λ cfg e.
      let same : cfg ≡ seeded = ground arith in
      rw same (omega arith, omega arith, λ p f. ground arith),
)

store-IsGuarded : IsGuarded store
unfolding IsGuarded IsBelow worst_weight worst_threshold
store-IsGuarded =
    λ cfg e. let same : cfg ≡ seeded = ground arith in rw same ((λ blocked. omega arith), tt)

store-blocked :
    (qualifier : String) (row : WeightRow)
    → find_row "email-exact" qualifier store.rows ≡ some row
    → row.allow_solo_recovery ≡ false
unfolding find_row is_at
store-blocked qualifier row found = ground arith

-- A caller who is not signed in changes nothing.
abbrev calls : List (ℕ × Option Session × Call)
calls = (1000, none, weight_call "email-exact" "*" (whole 100)) ∷ []

read-weight :
    recovery_weight_for_live "email-exact" none 2000 (perform_all calls store).rows ≡ some 15
unfolding perform_all perform update_recovery_weight weight_body gated gate_recovery_config
    recovery_weight_for_live recovery_qualifier_chain first_row find_row is_at
    effective_recovery_weight effective
read-weight = refl

-- A user with an email and an account elsewhere, which weigh enough together only.
abbrev two_badges : Tables
two_badges = record fresh {
  badges =
      record { user_id = "ann"; badge_type = "email-exact"; is_public = false }
      ∷ record { user_id = "ann"; badge_type = "oauth-account"; is_public = false }
      ∷ [];
  rows = row_of "email-exact" 40 false ∷ row_of "oauth-account" 65 false ∷ [];
}

abbrev answers : List Answer
answers =
    record { at = 2000; badge_type = "email-exact"; provenance = none; weight = 40 }
    ∷ record { at = 3000; badge_type = "oauth-account"; provenance = some "github"; weight = 65 }
    ∷ []

no_attempt_yet : lookup two_badges.attempts "a1" ≡ none
unfolding lookup
no_attempt_yet = refl

no_proof_yet : All (λ (r : Answer). has_proof "a1" r.badge_type two_badges.proofs ≡ false) answers
unfolding has_proof
no_proof_yet = (refl, (refl, tt))

threshold_now : score_for 1000 none two_badges.config ≡ some 100
unfolding load_effective_threshold effective_recovery_threshold effective
threshold_now = refl

answers-weigh : 100 ≤ weigh answers
unfolding weigh
answers-weigh = omega arith

answers-AreApart : AreApart answers
unfolding AreApart
answers-AreApart = ((refl, tt), (tt, tt))

answers-IsGood :
    All (IsGood (1000 + recovery_attempt_ttl_ms) "ann" two_badges.badges two_badges.rows) answers
unfolding IsGood is_recovery_eligible holds recovery_weight_for_live recovery_qualifier_chain
    first_row find_row is_at effective_recovery_weight effective
answers-IsGood = ((omega arith, refl, refl, refl), ((omega arith, refl, refl, refl), tt))

consume_satisfied_attempt-reached_example :
    (consume_satisfied_attempt 4000 "a1" "t1"
      (prove_all "a1" answers
        (start_recovery_attempt 1000 "a1" "n1" "ann" none two_badges two_badges))
      (prove_all "a1" answers
        (start_recovery_attempt 1000 "a1" "n1" "ann" none two_badges two_badges))).0
    ≡ granted "t1" "ann"
consume_satisfied_attempt-reached_example =
    consume_satisfied_attempt-reached "a1" "n1" "ann" "t1" 1000 4000 none 100 answers two_badges
      no_attempt_yet no_proof_yet threshold_now (omega arith) answers-weigh answers-AreApart
      answers-IsGood (omega arith)
