-- ===== src/Recovery/Attempt/Once.antt =====
-- What a recovery ticket stands for: an attempt that has met its required score, used once.
use minister.Common.{
  ℕ, ◌≤◌, ◌<◌, String, ◌≡◌, refl, Bool, true, false, Option, none, some, arith, ◌⊎◌, inl, inr, ◌≢◌,
  Bool-cases, ◌==◌, string_eq, eq_iff, lookup, insert, lookup-insert, leb,
}
use minister.Recovery.Attempt.{
  Status, pending, satisfied, consumed, expired, failed, Attempt, Tables, Reason, is_satisfied,
  is_consumed, re_proof_with, has_proof, with_weight, add_proof, check_attempt, record_re_proof,
  score_for, start_recovery_attempt, open_attempt, granted, claim, consume_seen,
  consume_satisfied_attempt, start, prove, consume, Steps, stay, follow,
}
use minister.Recovery.Attempt.Accounts.{total, IsAccount, AreDistinct, IsBalanced, is_met}

-- The attempt with an id is there and has a status that passes a test.
abbrev has_status : (Status → Bool) → Option Attempt → Bool
has_status f none = false
has_status f (some a) = f a.status

unfoldable pub IsUsed : String → Tables → Type 0
IsUsed id store = has_status is_consumed (lookup store.attempts id) ≡ true

claim-granted :
    (id jti user_id token holder : String) (found : Option Attempt) (store : Tables)
    → (claim id jti user_id found store).0 ≡ granted token holder
    → (a : Attempt) × (found ≡ some a)
      × (is_satisfied a.status ≡ true)
      × (token ≡ jti)
      × (holder ≡ user_id)
      × (lookup (claim id jti user_id found store).1.attempts id
          ≡ some (record a { status = consumed }))
unfolding claim
claim-granted id jti user_id token holder none store h = cc
claim-granted id jti user_id token holder (some a) store h =
    elim (Bool-cases (is_satisfied a.status)) [
      | inl met ↦
          let e : granted jti user_id ≡ granted token holder = (rw met at h) in
          (
            a,
            refl,
            met,
            ground arith,
            ground arith,
            rw met (
                rw (lookup-insert store.attempts id id (record a { status = consumed }))
                  (ground (arith, eq_iff id id))),
          )
      | inr unmet ↦ ground arith
    ]

satisfied-not-consumed : (s : Status) → is_satisfied s ≡ true → is_consumed s ≡ true → ⊥
satisfied-not-consumed satisfied h k = cc
satisfied-not-consumed pending h k = cc
satisfied-not-consumed consumed h k = cc
satisfied-not-consumed expired h k = cc
satisfied-not-consumed failed h k = cc

consume-claims :
    (now : ℕ) (id jti token holder : String) (found : Option Attempt) (store : Tables)
    → (consume_seen now id jti found store).0 ≡ granted token holder
    → (a : Attempt) × (found ≡ some a)
      × (now < a.expires_at)
      × (consume_seen now id jti found store
          ≡ claim id jti a.user_id (lookup store.attempts id) store)
unfolding consume_seen
consume-claims now id jti token holder none store h = cc
consume-claims now id jti token holder (some a) store h = elim (Bool-cases (is_consumed a.status)) [
  | inl used ↦ ground arith
  | inr unused ↦ elim (Bool-cases (is_satisfied a.status)) [
    | inr unmet ↦ ground arith
    | inl met ↦ elim (Bool-cases (leb a.expires_at now)) [
      | inl late ↦ ground arith
      | inr early ↦ (a, refl, ground arith, rw (unused, met, early) refl)
    ]
  ]
]

satisfied-met : (s : Status) → is_satisfied s ≡ true → is_met s ≡ true
satisfied-met satisfied h = refl
satisfied-met pending h = cc
satisfied-met consumed h = cc
satisfied-met expired h = cc
satisfied-met failed h = cc

-- Let the accounts of the tables be balanced and a consumption of an attempt grant a ticket. The
-- consumption has read the attempt before the end of its lifetime, the ticket is for the user of
-- the attempt that it has read, and the weights of the attempt's proofs, which are of different
-- badge types, add up to its required score or more.
pub consume_satisfied_attempt-granted :
    (now : ℕ) (id jti token holder : String) (seen store : Tables)
    → IsBalanced store
    → (consume_satisfied_attempt now id jti seen store).0 ≡ granted token holder
    → (read found : Attempt) × (lookup seen.attempts id ≡ some read)
      × (now < read.expires_at)
      × (holder ≡ read.user_id)
      × (lookup store.attempts id ≡ some found)
      × (found.required_score ≤ total id store.proofs)
      × AreDistinct store.proofs
unfolding consume_satisfied_attempt IsBalanced IsAccount
consume_satisfied_attempt-granted now id jti token holder seen store balanced h =
    let (read, e, early, same) =
      consume-claims now id jti token holder (lookup seen.attempts id) store h in
    let claimed : (claim id jti read.user_id (lookup store.attempts id) store).0
        ≡ granted token holder =
      rw (← same) h in
    let (found, f, met, is_jti, is_user, next) =
      claim-granted id jti read.user_id token holder (lookup store.attempts id) store claimed in
    let account : IsAccount (lookup store.attempts id) (total id store.proofs) = balanced.0 id in
    let of_found : IsAccount (some found) (total id store.proofs) = rw f at account in
    (read, found, e, early, is_user, f, of_found.1 (satisfied-met found.status met), balanced.1)

insert-IsUsed :
    (id other : String) (a : Attempt) (found : Option Attempt) (store : Tables)
    → found ≡ lookup store.attempts other
    → (has_status is_consumed found ≡ true → is_consumed a.status ≡ true)
    → IsUsed id store
    → has_status is_consumed (lookup (insert store.attempts other a) id) ≡ true
unfolding IsUsed
insert-IsUsed id other a found store e keeps h =
    rw (lookup-insert store.attempts other id a) (elim (Bool-cases (other == id)) [
      | inl same ↦ rw same (keeps (rw (e, (eq_iff other id).0 same) h))
      | inr differs ↦ rw differs h
    ])

with_weight-consumed :
    (weight : ℕ) (a : Attempt)
    → is_consumed a.status ≡ true
    → is_consumed (with_weight weight a).status ≡ true
unfolding with_weight
with_weight-consumed weight a h = ground arith

open-IsUsed :
    (k : String) (now : ℕ) (id nonce user_id : String) (score : Option ℕ) (found : Option Attempt)
    (store : Tables)
    → found ≡ lookup store.attempts id
    → IsUsed k store
    → IsUsed k (open_attempt now id nonce user_id score found store)
unfolding IsUsed open_attempt
open-IsUsed k now id nonce user_id none found store e h = h
open-IsUsed k now id nonce user_id (some score) (some a) store e h = h
open-IsUsed k now id nonce user_id (some score) none store e h =
    insert-IsUsed k id _ none store e (λ absent. cc) h

add_proof-IsUsed :
    (k id badge_type : String) (weight : ℕ) (found : Option Attempt) (store : Tables)
    → found ≡ lookup store.attempts id
    → IsUsed k store
    → IsUsed k (add_proof id badge_type weight found store).1
unfolding IsUsed add_proof
add_proof-IsUsed k id badge_type weight none store e h = h
add_proof-IsUsed k id badge_type weight (some a) store e h =
    elim (Bool-cases (has_proof id badge_type store.proofs)) [
      | inl twice ↦ rw twice h
      | inr new ↦ rw new (
          insert-IsUsed k id (with_weight weight a) (some a) store e (with_weight-consumed weight a)
            h)
    ]

claim-IsUsed :
    (k id jti user_id : String) (found : Option Attempt) (store : Tables)
    → found ≡ lookup store.attempts id
    → IsUsed k store
    → IsUsed k (claim id jti user_id found store).1
unfolding IsUsed claim
claim-IsUsed k id jti user_id none store e h = h
claim-IsUsed k id jti user_id (some a) store e h = elim (Bool-cases (is_satisfied a.status)) [
  | inl met ↦
      rw met (insert-IsUsed k id (record a { status = consumed }) (some a) store e (λ used. refl) h)
  | inr unmet ↦ rw unmet h
]

consume-IsUsed :
    (k : String) (now : ℕ) (id jti : String) (found : Option Attempt) (store : Tables)
    → IsUsed k store
    → IsUsed k (consume_seen now id jti found store).1
unfolding consume_seen
consume-IsUsed k now id jti none store h = h
consume-IsUsed k now id jti (some a) store h =
    let claimed = claim-IsUsed k id jti a.user_id (lookup store.attempts id) store refl h in
    elim (Bool-cases (is_consumed a.status)) [
      | inl used ↦ rw used h
      | inr unused ↦ rw unused (elim (Bool-cases (is_satisfied a.status)) [
        | inr unmet ↦ rw unmet h
        | inl met ↦ rw met (elim (Bool-cases (leb a.expires_at now)) [
          | inl late ↦ rw late h
          | inr early ↦ rw early claimed
        ])
      ])
    ]

check-IsUsed :
    (k id badge_type : String) (checked : Reason ⊎ ℕ) (store : Tables)
    → IsUsed k store
    → IsUsed k (re_proof_with id badge_type checked store).1
unfolding re_proof_with
check-IsUsed k id badge_type (inl reason) store h = h
check-IsUsed k id badge_type (inr weight) store h =
    add_proof-IsUsed k id badge_type weight (lookup store.attempts id) store refl h

Steps-IsUsed :
    (k : String) {store last : Tables} → Steps store last → IsUsed k store → IsUsed k last
unfolding start_recovery_attempt record_re_proof consume_satisfied_attempt
Steps-IsUsed k stay h = h
Steps-IsUsed k (follow (start {store} seen now id nonce user_id required) steps) h =
    Steps-IsUsed k steps (
      open-IsUsed k now id nonce user_id (score_for now required seen.config)
        (lookup store.attempts id) store refl h)
Steps-IsUsed k (follow (prove {store} seen now id badge_type provenance) steps) h =
    Steps-IsUsed k steps (
      check-IsUsed k id badge_type
        (check_attempt now badge_type provenance (lookup seen.attempts id) seen) store h)
Steps-IsUsed k (follow (consume {store} seen now id jti) steps) h =
    Steps-IsUsed k steps (consume-IsUsed k now id jti (lookup seen.attempts id) store h)

-- Once a consumption of an attempt has granted a ticket, no consumption of that attempt grants one
-- after any run of operations, also where it has read the attempt at an earlier time.
pub consume_satisfied_attempt-once :
    (now later : ℕ) (id jti token holder jti2 token2 holder2 : String)
    (seen store seen2 last : Tables)
    → (consume_satisfied_attempt now id jti seen store).0 ≡ granted token holder
    → Steps (consume_satisfied_attempt now id jti seen store).1 last
    → (consume_satisfied_attempt later id jti2 seen2 last).0 ≢ granted token2 holder2
unfolding consume_satisfied_attempt IsUsed
consume_satisfied_attempt-once now later id jti token holder jti2 token2 holder2 seen store seen2
      last h steps again =
    let (read, e, early, same) =
      consume-claims now id jti token holder (lookup seen.attempts id) store h in
    let (found, f, met, is_jti, is_user, next) =
      claim-granted id jti read.user_id token holder (lookup store.attempts id) store
        (rw (← same) h) in
    let used : IsUsed id (consume_seen now id jti (lookup seen.attempts id) store).1 =
      rw (same, next) refl in
    let still = Steps-IsUsed id steps used in
    let (read2, e2, early2, same2) =
      consume-claims later id jti2 token2 holder2 (lookup seen2.attempts id) last again in
    let (found2, f2, met2, is_jti2, is_user2, next2) =
      claim-granted id jti2 read2.user_id token2 holder2 (lookup last.attempts id) last
        (rw (← same2) again) in
    satisfied-not-consumed found2.status met2 (
      let status : has_status is_consumed (lookup last.attempts id) ≡ true = still in
      rw f2 at status)
