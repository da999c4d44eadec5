-- ===== src/Recovery/Attempt/Accounts.antt =====
-- The accounts of the attempts: the score is the sum of the proofs, of which there is one for each
-- type.
use minister.Common.{
  ℕ, ◌+◌, ◌≤◌, String, ◌≡◌, refl, sym, Bool, true, false, Option, none, some, List, [], ◌∷◌, arith,
  ◌⊎◌, inl, inr, ◌≢◌, Bool-cases, ◌==◌, if◌then◌else◌, string_eq, eq_iff, lookup, insert,
  lookup-insert, leb,
}
use minister.Recovery.Attempt.{
  Status, pending, satisfied, consumed, expired, failed, Attempt, Proof, Tables, Reason,
  is_satisfied, is_consumed, re_proof_with, has_proof, with_weight, add_proof, check_attempt,
  record_re_proof, score_for, start_recovery_attempt, open_attempt, claim, consume_seen,
  consume_satisfied_attempt, Step, start, prove, consume, Steps, stay, follow,
}

-- The weights of the proofs of an attempt.
unfoldable pub total : String → List Proof → ℕ
total id [] = 0
total id (p ∷ proofs) = if p.attempt_id == id then p.weight + total id proofs else total id proofs

abbrev pub is_met : Status → Bool
is_met pending = false
is_met satisfied = true
is_met consumed = true
is_met expired = false
is_met failed = false

-- The score is the total, which a satisfied or consumed attempt has met.
unfoldable pub IsAccount : Option Attempt → ℕ → Type 0
IsAccount none t = t ≡ 0
IsAccount (some a) t = (a.accumulated_score ≡ t) × (is_met a.status ≡ true → a.required_score ≤ t)

-- No attempt has two proofs of one type.
unfoldable pub AreDistinct : List Proof → Type 0
AreDistinct [] = Unit
AreDistinct (p ∷ proofs) = (has_proof p.attempt_id p.badge_type proofs ≡ false) × AreDistinct proofs

unfoldable pub IsBalanced : Tables → Type 0
IsBalanced store =
    ((id : String) → IsAccount (lookup store.attempts id) (total id store.proofs))
    × AreDistinct store.proofs

AreAccounts : Tables → Type 0
AreAccounts store = (id : String) → IsAccount (lookup store.attempts id) (total id store.proofs)

with_weight-IsAccount :
    (weight t : ℕ) (a : Attempt)
    → IsAccount (some a) t
    → IsAccount (some (with_weight weight a)) (weight + t)
unfolding IsAccount with_weight
with_weight-IsAccount weight t a h = (omega (arith, h.0), λ met. ground (arith, h.0, h.1))

-- A write of one attempt, with or without a proof for it.
insert-IsAccount :
    (id other : String) (a : Attempt) (store : Tables) (proofs : List Proof)
    → IsAccount (some a) (total id proofs)
    → (id ≢ other → total other proofs ≡ total other store.proofs)
    → IsAccount (lookup store.attempts other) (total other store.proofs)
    → IsAccount (lookup (insert store.attempts id a) other) (total other proofs)
insert-IsAccount id other a store proofs this same h =
    rw (lookup-insert store.attempts id other a) (elim (Bool-cases (id == other)) [
      | inl e ↦ let p : id ≡ other = (eq_iff id other).0 e in rw e (rw (← p) this)
      | inr n ↦ let q : id ≢ other = ground (arith, n, eq_iff id other) in rw n (rw (same q) h)
    ])

total-other :
    (id other badge_type : String) (weight : ℕ) (proofs : List Proof)
    → id ≢ other
    → total other (record { attempt_id = id; badge_type = badge_type; weight = weight } ∷ proofs)
      ≡ total other proofs
unfolding total
total-other id other badge_type weight proofs n = ground (arith, eq_iff id other)

total-this :
    (id badge_type : String) (weight : ℕ) (proofs : List Proof)
    → total id (record { attempt_id = id; badge_type = badge_type; weight = weight } ∷ proofs)
      ≡ weight + total id proofs
unfolding total
total-this id badge_type weight proofs = ground (arith, eq_iff id id)

add_proof-IsBalanced :
    (id badge_type : String) (weight : ℕ) (found : Option Attempt) (store : Tables)
    → found ≡ lookup store.attempts id
    → IsBalanced store
    → IsBalanced (add_proof id badge_type weight found store).1
unfolding IsBalanced AreDistinct add_proof
add_proof-IsBalanced id badge_type weight none store e h = h
add_proof-IsBalanced id badge_type weight (some a) store e h =
    elim (Bool-cases (has_proof id badge_type store.proofs)) [
      | inl twice ↦ rw twice h
      | inr new ↦
          let account : IsAccount (some a) (total id store.proofs) = rw e (h.0 id) in
          rw new (
            (λ other.
                insert-IsAccount id other (with_weight weight a) store _
                  (rw (total-this id badge_type weight store.proofs)
                    (with_weight-IsAccount weight (total id store.proofs) a account))
                  (total-other id other badge_type weight store.proofs) (h.0 other)),
            (new, h.1),
          )
    ]

consumed-IsAccount :
    (t : ℕ) (a : Attempt)
    → is_satisfied a.status ≡ true
    → IsAccount (some a) t
    → IsAccount (some (record a { status = consumed })) t
unfolding IsAccount
consumed-IsAccount t a e h = ground arith

claim-IsBalanced :
    (id jti user_id : String) (found : Option Attempt) (store : Tables)
    → found ≡ lookup store.attempts id
    → IsBalanced store
    → IsBalanced (claim id jti user_id found store).1
unfolding IsBalanced claim
claim-IsBalanced id jti user_id none store e h = h
claim-IsBalanced id jti user_id (some a) store e h = elim (Bool-cases (is_satisfied a.status)) [
  | inl met ↦
      let account : IsAccount (some a) (total id store.proofs) = rw e (h.0 id) in
      rw met (
        (λ other.
            insert-IsAccount id other (record a { status = consumed }) store store.proofs
              (consumed-IsAccount (total id store.proofs) a met account) (λ n. refl) (h.0 other)),
        h.1,
      )
  | inr unmet ↦ rw unmet h
]

consume-IsBalanced :
    (now : ℕ) (id jti : String) (found : Option Attempt) (store : Tables)
    → IsBalanced store
    → IsBalanced (consume_seen now id jti found store).1
unfolding consume_seen
consume-IsBalanced now id jti none store h = h
consume-IsBalanced now id jti (some a) store h =
    let claimed = claim-IsBalanced id jti a.user_id (lookup store.attempts id) store refl h in
    elim (Bool-cases (is_consumed a.status)) [
      | inl used ↦ rw used h
      | inr unused ↦ rw unused (elim (Bool-cases (is_satisfied a.status)) [
        | inr unmet ↦ rw unmet h
        | inl met ↦ rw met (elim (Bool-cases (leb a.expires_at now)) [
          | inl late ↦ rw late h
          | inr early ↦ rw early claimed
        ])
      ])
    ]

open-IsBalanced :
    (now : ℕ) (id nonce user_id : String) (score : Option ℕ) (found : Option Attempt)
    (store : Tables)
    → found ≡ lookup store.attempts id
    → IsBalanced store
    → IsBalanced (open_attempt now id nonce user_id score found store)
unfolding IsBalanced IsAccount open_attempt
open-IsBalanced now id nonce user_id none found store e h = h
open-IsBalanced now id nonce user_id (some score) (some a) store e h = h
open-IsBalanced now id nonce user_id (some score) none store e h = (
  (λ other.
      let account : IsAccount (lookup store.attempts id) (total id store.proofs) = h.0 id in
      let empty : total id store.proofs ≡ 0 = (rw (← e) at account) in
      insert-IsAccount id other _ store store.proofs (sym empty, λ met. ground arith) (λ n. refl)
        (h.0 other)),
  h.1,
)

check-IsBalanced :
    (id badge_type : String) (checked : Reason ⊎ ℕ) (store : Tables)
    → IsBalanced store
    → IsBalanced (re_proof_with id badge_type checked store).1
unfolding re_proof_with
check-IsBalanced id badge_type (inl reason) store h = h
check-IsBalanced id badge_type (inr weight) store h =
    add_proof-IsBalanced id badge_type weight (lookup store.attempts id) store refl h

Step-IsBalanced : {store next : Tables} → Step store next → IsBalanced store → IsBalanced next
unfolding start_recovery_attempt record_re_proof consume_satisfied_attempt
Step-IsBalanced (start {store} seen now id nonce user_id required) h =
    open-IsBalanced now id nonce user_id (score_for now required seen.config)
      (lookup store.attempts id) store refl h
Step-IsBalanced (prove {store} seen now id badge_type provenance) h =
    check-IsBalanced id badge_type
      (check_attempt now badge_type provenance (lookup seen.attempts id) seen) store h
Step-IsBalanced (consume {store} seen now id jti) h =
    consume-IsBalanced now id jti (lookup seen.attempts id) store h

-- The accounts stay balanced in every run of operations, whatever earlier state of the tables each
-- of them has read: the score of every attempt is the sum of its recorded proofs, no attempt has two
-- proofs of one badge type, and a satisfied or consumed attempt has at least its required score.
pub Steps-IsBalanced : {store last : Tables} → Steps store last → IsBalanced store → IsBalanced last
Steps-IsBalanced stay h = h
Steps-IsBalanced (follow step steps) h = Steps-IsBalanced steps (Step-IsBalanced step h)
