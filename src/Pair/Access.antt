-- ===== src/Pair/Access.antt =====
-- Who may write and who may read a payload, on every branch of the two operations.
use minister.Common.{
  ℕ, ◌<◌, String, ◌≡◌, refl, ◌≢◌, true, Option, none, some, arith, ◌⊎◌, inl, inr, Bool-cases, ◌==◌,
  string_eq, eq_iff, lookup, insert,
}
use minister.Pair.{
  sealed, claimed, Row, Relay, log, is_waiting, is_sealed, is_claimed, Sealing, seal_ok,
  seal_cross_account, seal_expired, seal_already_used, seal_not_found, can_seal, seal_refusal,
  refuse_seal, seal_row, seal_pair_session, given, claim_row, secret_matches, claim_seen,
  claim_pair_session,
}

-- The deposit is made: the row is of the account, waits, and is in time.
abbrev pub IsDeposit : ℕ → String → String → String → Relay → Sealing × Relay → Type 0
IsDeposit now id user_id payload relay result =
    (row : Row) × (lookup relay.rows id ≡ some row)
    × (row.user_id ≡ user_id)
    × (is_waiting row.state ≡ true)
    × (now < row.expires_at)
    × (result.0 ≡ seal_ok)
    × (result.1.rows
        ≡ insert relay.rows id (record row { state = sealed; sealed_payload = some payload }))

-- The deposit is refused: no row changes.
abbrev pub IsRefusal : Relay → Sealing × Relay → Type 0
IsRefusal relay result = (result.0 ≢ seal_ok) × (result.1.rows ≡ relay.rows)

refusal-ne-ok :
    (now : ℕ) (user_id : String) (found : Option Row) → seal_refusal now user_id found ≢ seal_ok
unfolding seal_refusal
refusal-ne-ok now user_id none = cc
refusal-ne-ok now user_id (some row) = λ h. ground arith

refuse-IsRefusal :
    (user_id id : String) (refusal : Sealing) (relay : Relay)
    → refusal ≢ seal_ok
    → IsRefusal relay (refuse_seal user_id id refusal relay)
unfolding log
refuse-IsRefusal user_id id seal_cross_account relay h = (h, refl)
refuse-IsRefusal user_id id seal_ok relay h = (h, refl)
refuse-IsRefusal user_id id seal_expired relay h = (h, refl)
refuse-IsRefusal user_id id seal_already_used relay h = (h, refl)
refuse-IsRefusal user_id id seal_not_found relay h = (h, refl)

seal_row-cases :
    (now : ℕ) (id user_id payload : String) (reread found : Option Row) (relay : Relay)
    → lookup relay.rows id ≡ found
    → IsDeposit now id user_id payload relay (seal_row now id user_id payload reread found relay)
      ⊎ IsRefusal relay (seal_row now id user_id payload reread found relay)
unfolding seal_row log can_seal
seal_row-cases now id user_id payload reread none relay e = inr (
    refuse-IsRefusal user_id id (seal_refusal now user_id reread) relay
      (refusal-ne-ok now user_id reread))
seal_row-cases now id user_id payload reread (some row) relay e =
    elim (Bool-cases (can_seal now user_id row)) [
      | inl can ↦ inl (
          rw can (
            row,
            e,
            ground (arith, eq_iff row.user_id user_id),
            ground arith,
            ground arith,
            refl,
            refl,
          ))
      | inr cannot ↦ inr (
          rw cannot (
            refuse-IsRefusal user_id id (seal_refusal now user_id reread) relay
              (refusal-ne-ok now user_id reread)))
    ]

-- A seal either succeeds, and then the row of the session belongs to the account that seals, waits, has
-- not expired, and becomes sealed with the payload, as the only change of the table; or it is refused,
-- with another answer, and the table of rows stays as it is.
seal_pair_session-cases :
    (now : ℕ) (id user_id payload : String) (reread relay : Relay)
    → IsDeposit now id user_id payload relay (seal_pair_session now id user_id payload reread relay)
      ⊎ IsRefusal relay (seal_pair_session now id user_id payload reread relay)
unfolding seal_pair_session
seal_pair_session-cases now id user_id payload reread relay =
    seal_row-cases now id user_id payload (lookup reread.rows id) (lookup relay.rows id) relay refl

matched :
    (hash_secret : String → String) (secret stored : String)
    → secret_matches hash_secret secret stored ≡ true
    → hash_secret secret ≡ stored
unfolding secret_matches
matched hash_secret secret stored h = (eq_iff (hash_secret secret) stored).0 h

claim_row-given :
    (id user_id token : String) (payload : Option String) (found : Option Row) (relay : Relay)
    → (claim_row id user_id payload found relay).0 ≡ given (some token)
    → (payload ≡ some token)
      × ((row : Row) × (found ≡ some row)
          × (is_sealed row.state ≡ true)
          × ((claim_row id user_id payload found relay).1.rows
              ≡ insert relay.rows id (record row { state = claimed; sealed_payload = none })))
unfolding claim_row log
claim_row-given id user_id token payload none relay h = ground arith
claim_row-given id user_id token none (some row) relay h = ground arith
claim_row-given id user_id token (some payload) (some row) relay h =
    elim (Bool-cases (is_sealed row.state)) [
      | inl held ↦ (ground arith, (row, refl, held, rw held refl))
      | inr refused ↦ ground arith
    ]

claim_seen-claims :
    (hash_secret : String → String) (now : ℕ) (id user_id secret token : String)
    (found : Option Row) (relay : Relay)
    → (claim_seen hash_secret now id user_id secret found relay).0 ≡ given (some token)
    → (read : Row) × (found ≡ some read)
      × (read.user_id ≡ user_id)
      × (hash_secret secret ≡ read.creator_secret_hash)
      × (claim_seen hash_secret now id user_id secret found relay
          ≡ claim_row id user_id read.sealed_payload (lookup relay.rows id) relay)
unfolding claim_seen
claim_seen-claims hash_secret now id user_id secret token none relay h = ground arith
claim_seen-claims hash_secret now id user_id secret token (some row) relay h =
    elim (Bool-cases (row.user_id == user_id)) [
      | inr foreign ↦ ground arith
      | inl own ↦ elim (Bool-cases (secret_matches hash_secret secret row.creator_secret_hash)) [
        | inr wrong ↦ ground arith
        | inl right ↦ elim (Bool-cases (is_claimed row.state)) [
          | inl used ↦ ground arith
          | inr unused ↦ elim (Bool-cases (is_waiting row.state)) [
            | inl early ↦ ground arith
            | inr ready ↦ (
              row,
              refl,
              (eq_iff row.user_id user_id).0 own,
              matched hash_secret secret row.creator_secret_hash right,
              rw (own, right, unused, ready) refl,
            )
          ]
        ]
      ]
    ]

-- A claim that is given a payload has read a row of the account that claims, whose stored hash is that
-- of the presented secret, and which holds that payload; and at its update the row was sealed, and
-- becomes claimed, without the payload.
pub claim_pair_session-given :
    (hash_secret : String → String) (now : ℕ) (id user_id secret token : String)
    (seen relay : Relay)
    → (claim_pair_session hash_secret now id user_id secret seen relay).0 ≡ given (some token)
    → (read row : Row) × (lookup seen.rows id ≡ some read)
      × (read.user_id ≡ user_id)
      × (hash_secret secret ≡ read.creator_secret_hash)
      × (read.sealed_payload ≡ some token)
      × (lookup relay.rows id ≡ some row)
      × (is_sealed row.state ≡ true)
      × ((claim_pair_session hash_secret now id user_id secret seen relay).1.rows
          ≡ insert relay.rows id (record row { state = claimed; sealed_payload = none }))
unfolding claim_pair_session
claim_pair_session-given hash_secret now id user_id secret token seen relay h =
    let (read, found, own, right, same) =
      claim_seen-claims hash_secret now id user_id secret token (lookup seen.rows id) relay h in
    let claims : (claim_row id user_id read.sealed_payload (lookup relay.rows id) relay).0
        ≡ given (some token) =
      rw (← same) h in
    let (holds, (row, at, held, next)) =
      claim_row-given id user_id token read.sealed_payload (lookup relay.rows id) relay claims in
    (read, row, found, own, right, holds, at, held, rw same next)
