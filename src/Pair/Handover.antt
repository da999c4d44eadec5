-- ===== src/Pair/Handover.antt =====
-- What the relay guarantees: a payload comes from the account of the row, in time, and is handed over
-- at most once.
use minister.Common.{
  ℕ, ◌+◌, ap, ◌≤◌, String, ◌≡◌, refl, ◌≢◌, Bool, true, false, Option, none, some, [], arith,
  string_eq, lookup,
}
use minister.Pair.{
  State, waiting, sealed, claimed, unknown, Row, Relay, is_sealed, Creator, after_sweep,
  create_pair_session, seal_pair_session, claim_pair_session,
}
use minister.Pair.Counts.{
  is_deposit, is_handover, count, IsCountedAs, IsCounted, IsAccounted, after_sweep-IsAccounted,
  IsCounted-none,
}
use minister.Pair.Results.{
  is_given, is_accepted, one_if, insert_row-handovers, insert_row-deposits, seal_row-counts,
  claim_seen-counts,
}
use minister.Pair.Kept.{insert_row-IsAccounted, seal_row-IsAccounted, claim_seen-IsAccounted}

-- The operations, in any order and by any callers, each with its own view of the table where it reads
-- apart from its update. A session id, which is 128 random bits, is not created twice.
pub data Step (hash_secret : String → String) : Relay → Relay → Type 0 where
  create :
      {relay : Relay} (now : ℕ) (swept : Bool) (args : Creator) (id hash : String)
      → count is_deposit id relay.events ≡ 0
      → count is_handover id relay.events ≡ 0
      → Step hash_secret relay (create_pair_session now swept args id hash relay)
  seal :
      {relay : Relay} (now : ℕ) (id user_id payload : String) (reread : Relay)
      → Step hash_secret relay (seal_pair_session now id user_id payload reread relay).1
  claim :
      {relay : Relay} (now : ℕ) (id user_id secret : String) (seen : Relay)
      → Step hash_secret relay (claim_pair_session hash_secret now id user_id secret seen relay).1

pub data Steps (hash_secret : String → String) : Relay → Relay → Type 0 where
  stay : {relay : Relay} → Steps hash_secret relay relay
  follow :
      {relay next last : Relay}
      → Step hash_secret relay next
      → Steps hash_secret next last
      → Steps hash_secret relay last

after_sweep-events :
    (now : ℕ) (swept : Bool) (relay : Relay) → (after_sweep now swept relay).events ≡ relay.events
after_sweep-events now true relay = refl
after_sweep-events now false relay = refl

payload-counts :
    (s : State) (payload : Option String) (d h : ℕ)
    → payload ≢ none
    → IsCountedAs s payload d h
    → (is_sealed s ≡ true) × (h ≡ 0)
unfolding IsCountedAs
payload-counts waiting payload d h held c = absurd (held c.2)
payload-counts sealed payload d h held c = (refl, c.1)
payload-counts claimed payload d h held c = absurd (held c.2)
payload-counts unknown payload d h held c = absurd c

-- How many of the deposits of a session were accepted in a run, and how many of its claims were given
-- the payload, by what the calls have returned.
unfoldable pub accepted_by :
    {hash_secret : String → String} {relay next : Relay} → Step hash_secret relay next → String → ℕ
accepted_by (create now swept args k hash d c) id = 0
accepted_by (seal {relay} now k user_id payload reread) id =
    one_if (is_accepted (seal_pair_session now k user_id payload reread relay).0) k id
accepted_by (claim now k user_id secret seen) id = 0

unfoldable pub given_by :
    {hash_secret : String → String} {relay next : Relay} → Step hash_secret relay next → String → ℕ
given_by (create now swept args k hash d c) id = 0
given_by (seal now k user_id payload reread) id = 0
given_by {hash_secret} (claim {relay} now k user_id secret seen) id =
    one_if (is_given (claim_pair_session hash_secret now k user_id secret seen relay).0) k id

unfoldable pub accepted_in :
    {hash_secret : String → String} {relay last : Relay} → Steps hash_secret relay last → String → ℕ
accepted_in stay id = 0
accepted_in (follow step steps) id = accepted_by step id + accepted_in steps id

unfoldable pub given_in :
    {hash_secret : String → String} {relay last : Relay} → Steps hash_secret relay last → String → ℕ
given_in stay id = 0
given_in (follow step steps) id = given_by step id + given_in steps id

module _ {hash_secret : String → String} where
  Step-IsAccounted :
      {relay next : Relay} → Step hash_secret relay next → IsAccounted relay → IsAccounted next
  unfolding create_pair_session seal_pair_session claim_pair_session
  Step-IsAccounted (create {relay} now swept args id hash d c) h =
      let clean = after_sweep now swept relay in
      insert_row-IsAccounted now args id hash (lookup clean.rows id) clean
        (rw (after_sweep-events now swept relay) d) (rw (after_sweep-events now swept relay) c)
        (after_sweep-IsAccounted now swept relay h)
  Step-IsAccounted (seal {relay} now id user_id payload reread) h =
      seal_row-IsAccounted now id user_id payload (lookup reread.rows id) (lookup relay.rows id)
        relay refl h
  Step-IsAccounted (claim {relay} now id user_id secret seen) h =
      claim_seen-IsAccounted hash_secret now id user_id secret (lookup seen.rows id) relay h

  Steps-IsAccounted :
      {relay last : Relay} → Steps hash_secret relay last → IsAccounted relay → IsAccounted last
  Steps-IsAccounted stay h = h
  Steps-IsAccounted (follow step steps) h = Steps-IsAccounted steps (Step-IsAccounted step h)

  Step-counts :
      {relay next : Relay} (step : Step hash_secret relay next) (id : String)
      → (count is_handover id next.events ≡ given_by step id + count is_handover id relay.events)
        × (count is_deposit id next.events ≡ accepted_by step id + count is_deposit id relay.events)
  unfolding given_by accepted_by create_pair_session seal_pair_session claim_pair_session
  Step-counts (create {relay} now swept args k hash d c) id =
      let clean = after_sweep now swept relay in
      let same = ap (λ es. count is_handover id es) (after_sweep-events now swept relay) in
      let also = ap (λ es. count is_deposit id es) (after_sweep-events now swept relay) in
      let h = insert_row-handovers now args k hash (lookup clean.rows k) clean id in
      let a = insert_row-deposits now args k hash (lookup clean.rows k) clean id in
      (omega (arith, h, same), omega (arith, a, also))
  Step-counts (seal {relay} now k user_id payload reread) id =
      let (h, d) =
        seal_row-counts now k user_id payload (lookup reread.rows k) (lookup relay.rows k) relay
          id in
      (omega (arith, h), d)
  Step-counts (claim {relay} now k user_id secret seen) id =
      let (h, d) =
        claim_seen-counts hash_secret now k user_id secret (lookup seen.rows k) relay id in
      (h, omega (arith, d))

  Steps-counts :
      {relay last : Relay} (steps : Steps hash_secret relay last) (id : String)
      → (count is_handover id last.events ≡ given_in steps id + count is_handover id relay.events)
        × (count is_deposit id last.events
            ≡ accepted_in steps id + count is_deposit id relay.events)
  unfolding given_in accepted_in
  Steps-counts stay id = (omega arith, omega arith)
  Steps-counts (follow step steps) id =
      let (h, d) = Step-counts step id in
      let (hs, ds) = Steps-counts steps id in (omega (arith, h, hs), omega (arith, d, ds))

  -- Run the relay from an empty table and log, by any steps, each with any earlier view of the
  -- table, where no session id is created twice. For every session id, the calls of the run have
  -- together accepted at most one payload, and given out no more than they have accepted: so of all
  -- its claims at most one was answered with a payload, and none without a deposit. The audit log
  -- has a deposit and a handover for each of them, and a row keeps a payload only while its state is
  -- sealed, and then none was given out.
  pub Steps-handover :
      {last : Relay} (id : String)
      (steps : Steps hash_secret (record { rows = []; events = [] }) last)
      → (accepted_in steps id ≤ 1)
        × (given_in steps id ≤ accepted_in steps id)
        × (count is_deposit id last.events ≡ accepted_in steps id)
        × (count is_handover id last.events ≡ given_in steps id)
        × ((row : Row)
            → lookup last.rows id ≡ some row
            → row.sealed_payload ≢ none
            → (is_sealed row.state ≡ true) × (given_in steps id ≡ 0))
  unfolding IsAccounted IsCounted lookup count
  Steps-handover {last} id steps =
      let end : IsAccounted last = Steps-IsAccounted steps (tt, λ k. (omega arith, omega arith)) in
      let (out, in_all) = Steps-counts steps id in
      let (few, less) =
        IsCounted-none (lookup last.rows id) (count is_deposit id last.events)
          (count is_handover id last.events) (end.1 id) in
      (
        omega (arith, in_all, few),
        omega (arith, in_all, out, less),
        omega (arith, in_all),
        omega (arith, out),
        λ row found held.
            let here_is : IsCounted (lookup last.rows id) (count is_deposit id last.events)
                (count is_handover id last.events) =
              end.1 id in
            let (sealed_is, none_out) =
              payload-counts row.state row.sealed_payload (count is_deposit id last.events)
                (count is_handover id last.events) held (rw found at here_is) in
            (sealed_is, omega (arith, out, none_out)),
      )
