-- ===== src/Recovery/Attempt/Reached.antt =====
-- That enough live re-proofs recover an account: a whole attempt of apps/minister/src/lib/recovery-threshold.ts.
use minister.Common.{
  ℕ, ◌+◌, ◌≤◌, ◌<◌, String, ◌≡◌, refl, true, false, ◌⊎◌, inl, inr, Option, none, some, List, [],
  ◌∷◌, leb, arith, All, Bool-cases, string_eq, same_refl, ◌==◌, lookup, insert, lookup-insert,
}
use minister.Recovery.{is_recovery_eligible}
use minister.Recovery.Config.{WeightRow}
use minister.Recovery.Attempt.{
  pending, satisfied, Attempt, Tables, Badge, recovery_attempt_ttl_ms, score_for,
  start_recovery_attempt, open_attempt, holds, has_proof, with_weight, add_proof, check_attempt,
  re_proof_with, record_re_proof, recovery_weight_for_live, granted, claim, consume_seen,
  consume_satisfied_attempt,
}

-- A live re-proof: when it is recorded, of what, and what it weighs.
pub record Answer : Type 0 where
  pub at : ℕ
  pub badge_type : String
  pub provenance : Option String
  pub weight : ℕ

unfoldable pub weigh : List Answer → ℕ
weigh [] = 0
weigh (r ∷ rs) = r.weight + weigh rs

-- The re-proofs one after the other, each on what it reads.
unfoldable pub prove_all : String → List Answer → Tables → Tables
prove_all id [] store = store
prove_all id (r ∷ rs) store =
    prove_all id rs (record_re_proof r.at id r.badge_type r.provenance store store).1

-- A re-proof in time, of an eligible type whose badge the user holds, with the weight of the config.
unfoldable pub IsGood : ℕ → String → List Badge → List WeightRow → Answer → Type 0
IsGood expires user_id badges rows r =
    (r.at < expires)
    × (is_recovery_eligible r.badge_type ≡ true)
    × (holds user_id r.badge_type badges ≡ true)
    × (recovery_weight_for_live r.badge_type r.provenance r.at rows ≡ some r.weight)

-- No type is proven twice.
unfoldable pub AreApart : List Answer → Type 0
AreApart [] = Unit
AreApart (r ∷ rs) = All (λ (s : Answer). (r.badge_type == s.badge_type) ≡ false) rs × AreApart rs

-- An attempt that is satisfied, or that the remaining re-proofs will satisfy.
IsRunning : String → String → ℕ → List Badge → List WeightRow → List Answer → Tables → Type 0
IsRunning id user_id expires badges rows rest store =
    (a : Attempt) × (lookup store.attempts id ≡ some a)
    × (a.user_id ≡ user_id)
    × (a.expires_at ≡ expires)
    × (store.badges ≡ badges)
    × (store.rows ≡ rows)
    × ((a.status ≡ satisfied)
        ⊎ ((a.status ≡ pending)
            × (a.accumulated_score < a.required_score)
            × (a.required_score ≤ a.accumulated_score + weigh rest)
            × All (λ (r : Answer). has_proof id r.badge_type store.proofs ≡ false) rest))

still-unproven :
    (id : String) (r : Answer) (weight : ℕ) (store : Tables) (rs : List Answer)
    → All (λ (s : Answer). (r.badge_type == s.badge_type) ≡ false) rs
    → All (λ (s : Answer). has_proof id s.badge_type store.proofs ≡ false) rs
    → All
        (λ (s : Answer).
          has_proof id s.badge_type
            (record { attempt_id = id; badge_type = r.badge_type; weight = weight } ∷ store.proofs)
          ≡ false)
        rs
unfolding has_proof
still-unproven id r weight store [] apart h = tt
still-unproven id r weight store (s ∷ rs) apart h =
    (ground (arith, apart.0, h.0), still-unproven id r weight store rs apart.1 h.1)

satisfied-stays :
    (id : String) (r : Answer) (store : Tables) (a : Attempt)
    → lookup store.attempts id ≡ some a
    → a.status ≡ satisfied
    → (record_re_proof r.at id r.badge_type r.provenance store store).1 ≡ store
unfolding record_re_proof check_attempt re_proof_with
satisfied-stays id r store a found done = rw (found, done) refl

check-good :
    (user_id : String) (r : Answer) (seen : Tables) (a : Attempt)
    → a.user_id ≡ user_id
    → a.status ≡ pending
    → IsGood a.expires_at user_id seen.badges seen.rows r
    → check_attempt r.at r.badge_type r.provenance (some a) seen ≡ inr r.weight
unfolding check_attempt IsGood
check-good user_id r seen a mine waits (early, eligible, held, weighs) =
    let in_time : leb a.expires_at r.at ≡ false = ground (arith, early) in
    rw (waits, in_time, eligible, mine, held, weighs) refl

pending-adds :
    (id user_id : String) (r : Answer) (store : Tables) (a : Attempt)
    → lookup store.attempts id ≡ some a
    → a.user_id ≡ user_id
    → a.status ≡ pending
    → IsGood a.expires_at user_id store.badges store.rows r
    → has_proof id r.badge_type store.proofs ≡ false
    → (record_re_proof r.at id r.badge_type r.provenance store store).1 ≡ record store {
      attempts = insert store.attempts id (with_weight r.weight a);
      proofs =
          record { attempt_id = id; badge_type = r.badge_type; weight = r.weight } ∷ store.proofs;
    }
unfolding record_re_proof re_proof_with add_proof
pending-adds id user_id r store a found mine waits good unproven =
    rw (found, check-good user_id r store a mine waits good, found, unproven) refl

met-or_not :
    (weight : ℕ) (a : Attempt) (rs : List Answer) (P : Type 0)
    → a.status ≡ pending
    → a.required_score ≤ a.accumulated_score + (weight + weigh rs)
    → P
    → ((with_weight weight a).status ≡ satisfied)
      ⊎ (((with_weight weight a).status ≡ pending)
          × ((with_weight weight a).accumulated_score < a.required_score)
          × (a.required_score ≤ (with_weight weight a).accumulated_score + weigh rs)
          × P)
unfolding with_weight
met-or_not weight a rs P waits enough p =
    elim (Bool-cases (leb a.required_score (a.accumulated_score + weight))) [
      | inl met ↦ inl (rw (met, waits) refl)
      | inr short ↦ inr (rw (short, waits) refl, ground (arith, short), omega (arith, enough), p)
    ]

step-IsRunning :
    (id user_id : String) (expires : ℕ) (badges : List Badge) (rows : List WeightRow) (r : Answer)
    (rs : List Answer) (store : Tables)
    → IsGood expires user_id badges rows r
    → All (λ (s : Answer). (r.badge_type == s.badge_type) ≡ false) rs
    → IsRunning id user_id expires badges rows (r ∷ rs) store
    → IsRunning id user_id expires badges rows rs
        (record_re_proof r.at id r.badge_type r.provenance store store).1
unfolding IsRunning weigh with_weight
step-IsRunning id user_id expires badges rows r rs store good apart
      (a, found, mine, ends, b, w, inl done) =
    rw (satisfied-stays id r store a found done) ((a, found, mine, ends, b, w, inl done))
step-IsRunning id user_id expires badges rows r rs store good apart
      (a, found, mine, ends, b, w, inr (waits, below, enough, unproven)) =
    let fine : IsGood a.expires_at user_id store.badges store.rows r = rw (ends, b, w) good in
    rw (pending-adds id user_id r store a found mine waits fine unproven.0) (
      (
        with_weight r.weight a,
        rw (lookup-insert store.attempts id id (with_weight r.weight a), same_refl id) refl,
        mine,
        ends,
        b,
        w,
        met-or_not r.weight a rs _ waits enough
            (still-unproven id r r.weight store rs apart unproven.1),
      ))

prove_all-IsRunning :
    (id user_id : String) (expires : ℕ) (badges : List Badge) (rows : List WeightRow)
    (rs : List Answer) (store : Tables)
    → All (IsGood expires user_id badges rows) rs
    → AreApart rs
    → IsRunning id user_id expires badges rows rs store
    → IsRunning id user_id expires badges rows [] (prove_all id rs store)
unfolding prove_all AreApart
prove_all-IsRunning id user_id expires badges rows [] store good apart h = h
prove_all-IsRunning id user_id expires badges rows (r ∷ rs) store good apart h =
    prove_all-IsRunning id user_id expires badges rows rs _ good.1 apart.1
      (step-IsRunning id user_id expires badges rows r rs store good.0 apart.0 h)

running-granted :
    (id user_id jti : String) (now expires : ℕ) (badges : List Badge) (rows : List WeightRow)
    (store : Tables)
    → now < expires
    → IsRunning id user_id expires badges rows [] store
    → (consume_satisfied_attempt now id jti store store).0 ≡ granted jti user_id
unfolding IsRunning weigh consume_satisfied_attempt consume_seen claim
running-granted id user_id jti now expires badges rows store early
      (a, found, mine, ends, b, w, inl done) =
    let in_time : leb a.expires_at now ≡ false = ground (arith, early, ends) in
    rw (found, done, in_time, found, done, mine) refl
running-granted id user_id jti now expires badges rows store early
      (a, found, mine, ends, b, w, inr (waits, below, enough, p)) =
    absurd (omega (arith, below, enough))

start-IsRunning :
    (id nonce user_id : String) (now : ℕ) (required : Option ℕ) (score : ℕ) (rs : List Answer)
    (store : Tables)
    → lookup store.attempts id ≡ none
    → All (λ (r : Answer). has_proof id r.badge_type store.proofs ≡ false) rs
    → score_for now required store.config ≡ some score
    → 0 < score
    → score ≤ weigh rs
    → IsRunning id user_id
        (now + recovery_attempt_ttl_ms)
        store.badges
        store.rows
        rs
        (start_recovery_attempt now id nonce user_id required store store)
unfolding start_recovery_attempt open_attempt IsRunning
start-IsRunning id nonce user_id now required score rs store new unproven known positive enough =
    let begun : Attempt = record {
      user_id = user_id;
      nonce = nonce;
      status = pending;
      required_score = score;
      accumulated_score = 0;
      expires_at = now + recovery_attempt_ttl_ms;
    } in
    rw (known, new)
      ((
        begun,
        rw (lookup-insert store.attempts id id begun, same_refl id) refl,
        refl,
        refl,
        refl,
        refl,
        inr (refl, positive, omega (arith, enough), unproven),
      ))

-- A user whose re-proofs weigh enough recovers. If an attempt is started under a new id with a
-- positive required score, the re-proofs that follow are in time, of eligible types, each proven
-- once, whose badges the user holds, their weights in the config meet the score together, and
-- nothing else changes the tables, then a consumption in time grants the ticket to the user.
pub consume_satisfied_attempt-reached :
    (id nonce user_id jti : String) (now later : ℕ) (required : Option ℕ) (score : ℕ)
    (rs : List Answer) (store : Tables)
    → lookup store.attempts id ≡ none
    → All (λ (r : Answer). has_proof id r.badge_type store.proofs ≡ false) rs
    → score_for now required store.config ≡ some score
    → 0 < score
    → score ≤ weigh rs
    → AreApart rs
    → All (IsGood (now + recovery_attempt_ttl_ms) user_id store.badges store.rows) rs
    → later < now + recovery_attempt_ttl_ms
    → (consume_satisfied_attempt later id jti
        (prove_all id rs (start_recovery_attempt now id nonce user_id required store store))
        (prove_all id rs (start_recovery_attempt now id nonce user_id required store store))).0
      ≡ granted jti user_id
consume_satisfied_attempt-reached id nonce user_id jti now later required score rs store new
      unproven known positive enough apart good early =
    running-granted id user_id jti later _ _ _ _ early (
      prove_all-IsRunning id user_id _ store.badges store.rows rs _ good apart (
        start-IsRunning id nonce user_id now required score rs store new unproven known positive
          enough))
