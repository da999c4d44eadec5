-- ===== src/Recovery/Attempt.antt =====
-- apps/minister/src/lib/recovery-threshold.ts: recovery by live re-proofs of badges. Each operation
-- reads the database and then writes in one atomic statement or transaction, and other requests may
-- write in between. So an operation takes two stores: `seen`, which its reads saw, and the one that
-- its write meets. What depends on random bytes (ids, nonces, tickets) is an argument.
mod Tests
pub mod Accounts
pub mod Once
pub mod Reached
pub mod Solo
use minister.Common.{
  ℕ, ◌+◌, ◌*◌, String, Bool, true, false, not, ◌&&◌, Option, none, some, List, [], ◌∷◌, leb, ◌⊎◌,
  inl, inr, any, ◌==◌, if◌then◌else◌, string_eq, lookup, insert, Entries,
}
use minister.Recovery.{is_recovery_eligible}
use minister.Recovery.Config.{
  WeightRow, Threshold, effective_recovery_weight, effective_recovery_threshold,
}
use minister.Recovery.Config.Store.{find_row}

pub data Status : Type 0 where
  pending : Status
  satisfied : Status
  consumed : Status
  expired : Status
  failed : Status

pub record Attempt : Type 0 where
  pub user_id : String
  pub nonce : String
  pub status : Status
  pub required_score : ℕ
  pub accumulated_score : ℕ
  pub expires_at : ℕ

pub record Proof : Type 0 where
  pub attempt_id : String
  pub badge_type : String
  pub weight : ℕ

pub record Badge : Type 0 where
  pub user_id : String
  pub badge_type : String
  pub is_public : Bool

-- The tables that the engine uses. A ticket stands with the user whom it signs in.
pub record Tables : Type 0 where
  pub attempts : Entries String Attempt
  pub proofs : List Proof
  pub tickets : List (String × String)
  pub badges : List Badge
  pub rows : List WeightRow
  pub config : Option Threshold

abbrev pub recovery_attempt_ttl_ms : ℕ
recovery_attempt_ttl_ms = 15 * 60 * 1000

-- loadEffectiveThreshold and recoveryWeightForLive of sybil-config.ts; `none` is a throw.
unfoldable pub load_effective_threshold : ℕ → Option Threshold → Option ℕ
load_effective_threshold now none = none
load_effective_threshold now (some cfg) = some (effective_recovery_threshold cfg now)

abbrev pub row_or : Option WeightRow → Option WeightRow → Option WeightRow
row_or none other = other
row_or (some row) other = some row

-- The row of the first qualifier of the chain that has one; the chain ends in `*`.
unfoldable pub first_row : String → List String → List WeightRow → Option WeightRow
first_row badge_type [] rows = none
first_row badge_type (qualifier ∷ chain) rows =
    row_or (find_row badge_type qualifier rows) (first_row badge_type chain rows)

unfoldable pub recovery_qualifier_chain : String → Option String → List String
recovery_qualifier_chain badge_type none = "*" ∷ []
recovery_qualifier_chain badge_type (some provenance) =
    if badge_type == "oauth-account" && not (provenance == "")
    then provenance ∷ "*" ∷ []
    else "*" ∷ []

abbrev pub weight_at : ℕ → Option WeightRow → Option ℕ
weight_at now none = none
weight_at now (some row) = some (effective_recovery_weight row now)

unfoldable pub recovery_weight_for_live : String → Option String → ℕ → List WeightRow → Option ℕ
recovery_weight_for_live badge_type provenance now rows =
    weight_at now (first_row badge_type (recovery_qualifier_chain badge_type provenance) rows)

-- `requiredScore ?? await loadEffectiveThreshold()`
abbrev pub score_for : ℕ → Option ℕ → Option Threshold → Option ℕ
score_for now (some score) config = some score
score_for now none config = load_effective_threshold now config

-- The new attempt, unless the threshold cannot be read or the id is taken: a throw.
unfoldable pub open_attempt :
    ℕ → String → String → String → Option ℕ → Option Attempt → Tables → Tables
open_attempt now id nonce user_id none taken store = store
open_attempt now id nonce user_id (some score) (some other) store = store
open_attempt now id nonce user_id (some score) none store = record store {
  attempts = insert store.attempts id (record {
    user_id = user_id;
    nonce = nonce;
    status = pending;
    required_score = score;
    accumulated_score = 0;
    expires_at = now + recovery_attempt_ttl_ms;
  });
}

unfoldable pub start_recovery_attempt :
    ℕ → String → String → String → Option ℕ → Tables → Tables → Tables
start_recovery_attempt now id nonce user_id required seen store =
    open_attempt now id nonce user_id (score_for now required seen.config)
      (lookup store.attempts id) store

pub data Reason : Type 0 where
  attempt_not_found : Reason
  attempt_not_pending : Reason
  attempt_expired : Reason
  type_not_eligible : Reason
  badge_not_held : Reason
  already_proven : Reason
  config_unavailable : Reason

pub data ReProof : Type 0 where
  recorded : ℕ → ℕ → Bool → ReProof
  rejected : Reason → ReProof
  threw : ReProof

abbrev pub is_pending : Status → Bool
is_pending pending = true
is_pending _ = false

abbrev pub is_satisfied : Status → Bool
is_satisfied satisfied = true
is_satisfied _ = false

abbrev pub is_consumed : Status → Bool
is_consumed consumed = true
is_consumed _ = false

unfoldable pub holds : String → String → List Badge → Bool
holds user_id badge_type badges =
    any (λ b. b.user_id == user_id && b.badge_type == badge_type && not b.is_public) badges

unfoldable pub has_proof : String → String → List Proof → Bool
has_proof id badge_type proofs = any (λ p. p.attempt_id == id && p.badge_type == badge_type) proofs

-- The attempt with the weight added, and satisfied if that meets the required score.
unfoldable pub with_weight : ℕ → Attempt → Attempt
with_weight weight a =
    let score = a.accumulated_score + weight in
    record a {
      accumulated_score = score;
      status = if leb a.required_score score && is_pending a.status then satisfied else a.status;
    }

-- The transaction: the unique constraint, the insert, the increment and the flip.
unfoldable pub add_proof : String → String → ℕ → Option Attempt → Tables → ReProof × Tables
add_proof id badge_type weight none store = (threw, store)
add_proof id badge_type weight (some a) store =
    if has_proof id badge_type store.proofs
    then (rejected already_proven, store)
    else let score = a.accumulated_score + weight in
      (
        recorded score a.required_score (leb a.required_score score),
        record store {
          attempts = insert store.attempts id (with_weight weight a);
          proofs =
              record { attempt_id = id; badge_type = badge_type; weight = weight } ∷ store.proofs;
        },
      )

-- The checks before the transaction: why the re-proof is refused, or the weight that it brings.
unfoldable pub check_attempt : ℕ → String → Option String → Option Attempt → Tables → Reason ⊎ ℕ
check_attempt now badge_type provenance none seen = inl attempt_not_found
check_attempt now badge_type provenance (some a) seen =
    if not (is_pending a.status)
    then inl attempt_not_pending
    else if leb a.expires_at now
    then inl attempt_expired
    else if not (is_recovery_eligible badge_type)
    then inl type_not_eligible
    else if not (holds a.user_id badge_type seen.badges)
    then inl badge_not_held
    else elim (recovery_weight_for_live badge_type provenance now seen.rows) [
      | none ↦ inl config_unavailable
      | some weight ↦ inr weight
    ]

unfoldable pub re_proof_with : String → String → Reason ⊎ ℕ → Tables → ReProof × Tables
re_proof_with id badge_type (inl reason) store = (rejected reason, store)
re_proof_with id badge_type (inr weight) store =
    add_proof id badge_type weight (lookup store.attempts id) store

unfoldable pub record_re_proof :
    ℕ → String → String → Option String → Tables → Tables → ReProof × Tables
record_re_proof now id badge_type provenance seen store =
    re_proof_with id badge_type
      (check_attempt now badge_type provenance (lookup seen.attempts id) seen) store

pub data Consumed : Type 0 where
  granted : String → String → Consumed
  no_attempt : Consumed
  not_satisfied : Consumed
  already_consumed : Consumed
  too_late : Consumed

-- The conditional update, and the ticket for the one who makes it.
unfoldable pub claim : String → String → String → Option Attempt → Tables → Consumed × Tables
claim id jti user_id none store = (already_consumed, store)
claim id jti user_id (some a) store =
    if is_satisfied a.status
    then (
      granted jti user_id,
      record store {
        attempts = insert store.attempts id (record a { status = consumed });
        tickets = (jti, user_id) ∷ store.tickets;
      },
    )
    else (already_consumed, store)

unfoldable pub consume_seen : ℕ → String → String → Option Attempt → Tables → Consumed × Tables
consume_seen now id jti none store = (no_attempt, store)
consume_seen now id jti (some a) store =
    if is_consumed a.status
    then (already_consumed, store)
    else if not (is_satisfied a.status)
    then (not_satisfied, store)
    else if leb a.expires_at now
    then (too_late, store)
    else claim id jti a.user_id (lookup store.attempts id) store

unfoldable pub consume_satisfied_attempt : ℕ → String → String → Tables → Tables → Consumed × Tables
consume_satisfied_attempt now id jti seen store =
    consume_seen now id jti (lookup seen.attempts id) store

-- One operation of a run, each with its own earlier view of the tables.
pub data Step : Tables → Tables → Type 0 where
  start :
      {store : Tables} (seen : Tables) (now : ℕ) (id nonce user_id : String) (required : Option ℕ)
      → Step store (start_recovery_attempt now id nonce user_id required seen store)
  prove :
      {store : Tables} (seen : Tables) (now : ℕ) (id badge_type : String)
      (provenance : Option String)
      → Step store (record_re_proof now id badge_type provenance seen store).1
  consume :
      {store : Tables} (seen : Tables) (now : ℕ) (id jti : String)
      → Step store (consume_satisfied_attempt now id jti seen store).1

pub data Steps : Tables → Tables → Type 0 where
  stay : {store : Tables} → Steps store store
  follow : {store next last : Tables} → Step store next → Steps next last → Steps store last
