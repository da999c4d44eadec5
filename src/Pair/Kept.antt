-- ===== src/Pair/Kept.antt =====
-- Every operation of the relay keeps the counts of the log in line with the rows.
use minister.Common.{
  ℕ, String, ◌≡◌, refl, true, Option, none, some, List, ◌∷◌, arith, inl, inr, Bool-cases, ◌==◌,
  string_eq, eq_iff, lookup,
}
use minister.Pair.{
  State, waiting, sealed, claimed, unknown, Row, created, deposited, cross_account_blocked,
  handed_over, Event, Relay, is_waiting, is_sealed, is_claimed, Creator, insert_row, Sealing,
  seal_ok, seal_cross_account, seal_expired, seal_already_used, seal_not_found, can_seal,
  seal_refusal, refuse_seal, seal_row, claim_row, secret_matches, claim_seen,
}
use minister.Pair.Counts.{
  is_deposit, is_handover, count, IsCountedAs, IsCounted, IsAccounted, write-IsAccounted,
  log-IsAccounted, quiet-IsAccounted,
}

pub insert_row-IsAccounted :
    (now : ℕ) (args : Creator) (id hash : String) (found : Option Row) (relay : Relay)
    → count is_deposit id relay.events ≡ 0
    → count is_handover id relay.events ≡ 0
    → IsAccounted relay
    → IsAccounted (insert_row now args id hash found relay)
unfolding insert_row IsCounted IsCountedAs count
insert_row-IsAccounted now args id hash (some row) relay d c h = h
insert_row-IsAccounted now args id hash none relay d c h =
    write-IsAccounted id args.user_id created _ relay (d, c, refl) h

pub refuse_seal-IsAccounted :
    (user_id id : String) (refusal : Sealing) (relay : Relay)
    → IsAccounted relay
    → IsAccounted (refuse_seal user_id id refusal relay).1
refuse_seal-IsAccounted user_id id seal_cross_account relay h =
    log-IsAccounted id user_id cross_account_blocked relay refl refl h
refuse_seal-IsAccounted user_id id seal_ok relay h = h
refuse_seal-IsAccounted user_id id seal_expired relay h = h
refuse_seal-IsAccounted user_id id seal_already_used relay h = h
refuse_seal-IsAccounted user_id id seal_not_found relay h = h

pub waiting-counts :
    (s : State) (payload : Option String) (d h : ℕ)
    → is_waiting s ≡ true
    → IsCountedAs s payload d h
    → (d ≡ 0) × (h ≡ 0)
unfolding IsCountedAs
waiting-counts waiting payload d h e c = (c.0, c.1)
waiting-counts sealed payload d h e c = cc
waiting-counts claimed payload d h e c = cc
waiting-counts unknown payload d h e c = cc

pub sealed-counts :
    (s : State) (payload : Option String) (d h : ℕ)
    → is_sealed s ≡ true
    → IsCountedAs s payload d h
    → (d ≡ 1) × (h ≡ 0)
unfolding IsCountedAs
sealed-counts sealed payload d h e c = (c.0, c.1)
sealed-counts waiting payload d h e c = cc
sealed-counts claimed payload d h e c = cc
sealed-counts unknown payload d h e c = cc

pub sealed-IsCounted :
    (now : ℕ) (id user_id payload : String) (row : Row) (events : List Event)
    → can_seal now user_id row ≡ true
    → IsCounted (some row) (count is_deposit id events) (count is_handover id events)
    → IsCounted
        (some (record row { state = sealed; sealed_payload = some payload }))
        (count is_deposit id
          (record { user_id = user_id; action = deposited; session_id = id } ∷ events))
        (count is_handover id
          (record { user_id = user_id; action = deposited; session_id = id } ∷ events))
unfolding IsCounted IsCountedAs count can_seal
sealed-IsCounted now id user_id payload row events can c =
    let pending : is_waiting row.state ≡ true = ground arith in
    let (d, h) =
      waiting-counts row.state row.sealed_payload (count is_deposit id events)
        (count is_handover id events) pending c in
    (ground (arith, d, eq_iff id id), h, λ absent. cc)

pub seal_row-IsAccounted :
    (now : ℕ) (id user_id payload : String) (reread found : Option Row) (relay : Relay)
    → found ≡ lookup relay.rows id
    → IsAccounted relay
    → IsAccounted (seal_row now id user_id payload reread found relay).1
unfolding seal_row IsAccounted
seal_row-IsAccounted now id user_id payload reread none relay e h =
    refuse_seal-IsAccounted user_id id (seal_refusal now user_id reread) relay h
seal_row-IsAccounted now id user_id payload reread (some row) relay e h =
    elim (Bool-cases (can_seal now user_id row)) [
      | inr refused ↦
          rw refused (refuse_seal-IsAccounted user_id id (seal_refusal now user_id reread) relay h)
      | inl can ↦
          let before : IsCounted (lookup relay.rows id) (count is_deposit id relay.events)
              (count is_handover id relay.events) =
            h.1 id in
          rw can (
            write-IsAccounted id user_id deposited _ relay
              (sealed-IsCounted now id user_id payload row relay.events can (rw (← e) at before)) h)
    ]

pub claimed-IsCounted :
    (id user_id : String) (row : Row) (events : List Event)
    → is_sealed row.state ≡ true
    → IsCounted (some row) (count is_deposit id events) (count is_handover id events)
    → IsCounted
        (some (record row { state = claimed; sealed_payload = none }))
        (count is_deposit id
          (record { user_id = user_id; action = handed_over; session_id = id } ∷ events))
        (count is_handover id
          (record { user_id = user_id; action = handed_over; session_id = id } ∷ events))
unfolding IsCounted IsCountedAs count
claimed-IsCounted id user_id row events held c =
    let (d, h) =
      sealed-counts row.state row.sealed_payload (count is_deposit id events)
        (count is_handover id events) held c in
    (d, ground (arith, h, eq_iff id id), refl)

pub emptied-IsCounted :
    (row : Row) (d h : ℕ)
    → is_sealed row.state ≡ true
    → IsCounted (some row) d h
    → IsCounted (some (record row { state = claimed; sealed_payload = none })) d h
unfolding IsCounted IsCountedAs
emptied-IsCounted row d h held c =
    let (one, zero) = sealed-counts row.state row.sealed_payload d h held c in
    (one, omega (arith, zero), refl)

pub claim_row-IsAccounted :
    (id user_id : String) (payload : Option String) (found : Option Row) (relay : Relay)
    → found ≡ lookup relay.rows id
    → IsAccounted relay
    → IsAccounted (claim_row id user_id payload found relay).1
unfolding claim_row IsAccounted
claim_row-IsAccounted id user_id payload none relay e h = h
claim_row-IsAccounted id user_id none (some row) relay e h =
    elim (Bool-cases (is_sealed row.state)) [
      | inr refused ↦ rw refused h
      | inl held ↦
          let before : IsCounted (lookup relay.rows id) (count is_deposit id relay.events)
              (count is_handover id relay.events) =
            h.1 id in
          rw held (
            quiet-IsAccounted id _ relay
              (emptied-IsCounted row (count is_deposit id relay.events)
                (count is_handover id relay.events) held (rw (← e) at before))
              h)
    ]
claim_row-IsAccounted id user_id (some payload) (some row) relay e h =
    elim (Bool-cases (is_sealed row.state)) [
      | inr refused ↦ rw refused h
      | inl held ↦
          let before : IsCounted (lookup relay.rows id) (count is_deposit id relay.events)
              (count is_handover id relay.events) =
            h.1 id in
          rw held (
            write-IsAccounted id user_id handed_over _ relay
              (claimed-IsCounted id user_id row relay.events held (rw (← e) at before)) h)
    ]

pub claim_seen-IsAccounted :
    (hash_secret : String → String) (now : ℕ) (id user_id secret : String) (read : Option Row)
    (relay : Relay)
    → IsAccounted relay
    → IsAccounted (claim_seen hash_secret now id user_id secret read relay).1
unfolding claim_seen
claim_seen-IsAccounted hash_secret now id user_id secret none relay h = h
claim_seen-IsAccounted hash_secret now id user_id secret (some row) relay h =
    let claims =
      claim_row-IsAccounted id user_id row.sealed_payload (lookup relay.rows id) relay refl h in
    elim (Bool-cases (row.user_id == user_id)) [
      | inr foreign ↦ rw foreign h
      | inl own ↦
          rw own (elim (Bool-cases (secret_matches hash_secret secret row.creator_secret_hash)) [
            | inr wrong ↦ rw wrong h
            | inl right ↦ rw right (elim (Bool-cases (is_claimed row.state)) [
              | inl used ↦ rw used h
              | inr unused ↦ rw unused (elim (Bool-cases (is_waiting row.state)) [
                | inl early ↦ rw early h
                | inr ready ↦ rw ready claims
              ])
            ])
          ])
    ]
