-- ===== src/Pair/Results.antt =====
-- The audit log against what the calls have returned: a deposit stands in it for each payload that was
-- accepted, and a handover for each payload that was given.
use minister.Common.{
  ℕ, ◌+◌, String, ◌≡◌, refl, Bool, true, false, ◌&&◌, Option, none, some, arith, inl, inr,
  Bool-cases, if◌then◌else◌, ◌==◌, string_eq, lookup, leb,
}
use minister.Pair.{
  Row, Action, Relay, log, is_waiting, is_sealed, is_claimed, Creator, insert_row, Sealing, seal_ok,
  seal_cross_account, seal_expired, seal_already_used, seal_not_found, can_seal, seal_refusal,
  refuse_seal, seal_row, Claim, still_waiting, claim_expired, given, claim_not_found, forbidden,
  bad_secret, claim_row, secret_matches, claim_seen,
}
use minister.Pair.Counts.{is_deposit, is_handover, count}

-- The result of a claim that has the payload, and of a deposit that was accepted.
unfoldable pub is_given : Claim → Bool
is_given (given (some payload)) = true
is_given (given none) = false
is_given still_waiting = false
is_given claim_expired = false
is_given claim_not_found = false
is_given forbidden = false
is_given bad_secret = false

unfoldable pub is_accepted : Sealing → Bool
is_accepted seal_ok = true
is_accepted seal_cross_account = false
is_accepted seal_expired = false
is_accepted seal_already_used = false
is_accepted seal_not_found = false

-- One for a call on the session, if it has that result.
unfoldable pub one_if : Bool → String → String → ℕ
one_if b session_id id = if b && session_id == id then 1 else 0

pub log-count :
    (f : Action → Bool) (user_id : String) (action : Action) (k id : String) (relay : Relay)
    → count f id (log user_id action k relay).events
      ≡ one_if (f action) k id + count f id relay.events
unfolding log count one_if
log-count f user_id action k id relay = ground arith

pub quiet-count : (k id : String) (n : ℕ) → n ≡ one_if false k id + n
unfolding one_if
quiet-count k id n = omega arith

pub insert_row-handovers :
    (now : ℕ) (args : Creator) (k hash : String) (found : Option Row) (relay : Relay) (id : String)
    → count is_handover id (insert_row now args k hash found relay).events
      ≡ count is_handover id relay.events
unfolding insert_row log count
insert_row-handovers now args k hash none relay id = refl
insert_row-handovers now args k hash (some row) relay id = refl

pub insert_row-deposits :
    (now : ℕ) (args : Creator) (k hash : String) (found : Option Row) (relay : Relay) (id : String)
    → count is_deposit id (insert_row now args k hash found relay).events
      ≡ count is_deposit id relay.events
unfolding insert_row log count
insert_row-deposits now args k hash none relay id = refl
insert_row-deposits now args k hash (some row) relay id = refl

unaccepted :
    (user_id k : String) (refusal : Sealing) (relay : Relay) (id : String)
    → (count is_handover id (refuse_seal user_id k refusal relay).1.events
        ≡ count is_handover id relay.events)
      × (count is_deposit id (refuse_seal user_id k refusal relay).1.events
          ≡ count is_deposit id relay.events)
unfolding log count
unaccepted user_id k seal_ok relay id = (refl, refl)
unaccepted user_id k seal_cross_account relay id = (refl, refl)
unaccepted user_id k seal_expired relay id = (refl, refl)
unaccepted user_id k seal_already_used relay id = (refl, refl)
unaccepted user_id k seal_not_found relay id = (refl, refl)

refusal-not :
    (now : ℕ) (user_id : String) (reread : Option Row)
    → is_accepted (seal_refusal now user_id reread) ≡ false
unfolding seal_refusal is_accepted
refusal-not now user_id none = refl
refusal-not now user_id (some row) = elim (Bool-cases (row.user_id == user_id)) [
  | inr foreign ↦ rw foreign refl
  | inl own ↦ rw own (elim (Bool-cases (leb row.expires_at now)) [
    | inl late ↦ rw late refl
    | inr early ↦ rw early (elim (Bool-cases (is_waiting row.state)) [
      | inl waits ↦ rw waits refl
      | inr used ↦ rw used refl
    ])
  ])
]

refused-counts :
    (now : ℕ) (k user_id : String) (reread : Option Row) (relay : Relay) (id : String)
    → let out = refuse_seal user_id k (seal_refusal now user_id reread) relay in
      (count is_handover id out.1.events ≡ count is_handover id relay.events)
      × (count is_deposit id out.1.events
          ≡ one_if (is_accepted out.0) k id + count is_deposit id relay.events)
unfolding one_if
refused-counts now k user_id reread relay id =
    let (h, d) = unaccepted user_id k (seal_refusal now user_id reread) relay id in
    (h, rw (refusal-not now user_id reread) (rw d (omega arith)))

pub seal_row-counts :
    (now : ℕ) (k user_id payload : String) (reread found : Option Row) (relay : Relay) (id : String)
    → let out = seal_row now k user_id payload reread found relay in
      (count is_handover id out.1.events ≡ count is_handover id relay.events)
      × (count is_deposit id out.1.events
          ≡ one_if (is_accepted out.0) k id + count is_deposit id relay.events)
unfolding seal_row log count one_if is_accepted
seal_row-counts now k user_id payload reread none relay id =
    refused-counts now k user_id reread relay id
seal_row-counts now k user_id payload reread (some row) relay id =
    elim (Bool-cases (can_seal now user_id row)) [
      | inl can ↦ rw can (refl, ground arith)
      | inr refused ↦ rw refused (refused-counts now k user_id reread relay id)
    ]

pub claim_row-counts :
    (k user_id : String) (payload : Option String) (found : Option Row) (relay : Relay)
    (id : String)
    → let out = claim_row k user_id payload found relay in
      (count is_handover id out.1.events
        ≡ one_if (is_given out.0) k id + count is_handover id relay.events)
      × (count is_deposit id out.1.events ≡ count is_deposit id relay.events)
unfolding claim_row log count one_if is_given
claim_row-counts k user_id payload none relay id = (omega arith, refl)
claim_row-counts k user_id none (some row) relay id = elim (Bool-cases (is_sealed row.state)) [
  | inl held ↦ rw held (omega arith, refl)
  | inr lost ↦ rw lost (omega arith, refl)
]
claim_row-counts k user_id (some payload) (some row) relay id =
    elim (Bool-cases (is_sealed row.state)) [
      | inl held ↦ rw held (ground arith, refl)
      | inr lost ↦ rw lost (omega arith, refl)
    ]

pub claim_seen-counts :
    (hash_secret : String → String) (now : ℕ) (k user_id secret : String) (read : Option Row)
    (relay : Relay) (id : String)
    → let out = claim_seen hash_secret now k user_id secret read relay in
      (count is_handover id out.1.events
        ≡ one_if (is_given out.0) k id + count is_handover id relay.events)
      × (count is_deposit id out.1.events ≡ count is_deposit id relay.events)
unfolding claim_seen one_if is_given
claim_seen-counts hash_secret now k user_id secret none relay id = (omega arith, refl)
claim_seen-counts hash_secret now k user_id secret (some row) relay id =
    let claims = claim_row-counts k user_id row.sealed_payload (lookup relay.rows k) relay id in
    elim (Bool-cases (row.user_id == user_id)) [
      | inr foreign ↦ rw foreign (omega arith, refl)
      | inl own ↦
          rw own (elim (Bool-cases (secret_matches hash_secret secret row.creator_secret_hash)) [
            | inr wrong ↦ rw wrong (omega arith, refl)
            | inl right ↦ rw right (elim (Bool-cases (is_claimed row.state)) [
              | inl used ↦ rw used (omega arith, refl)
              | inr unused ↦ rw unused (elim (Bool-cases (is_waiting row.state)) [
                | inl early ↦ rw early (elim (Bool-cases (leb row.expires_at now)) [
                  | inl late ↦ rw late (omega arith, refl)
                  | inr in_time ↦ rw in_time (omega arith, refl)
                ])
                | inr ready ↦ rw ready claims
              ])
            ])
          ])
    ]
