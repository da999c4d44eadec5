-- ===== src/Pair/RoundTrip.antt =====
-- A whole pairing: what one device deposits in time, the other device of the account gets.
use minister.Common.{
  ℕ, ◌+◌, ◌<◌, String, ◌≡◌, refl, Bool, true, none, some, arith, ◌==◌, string_eq, same_refl, lookup,
  insert, lookup-insert, Entries,
}
use minister.Pair.{
  waiting, sealed, Row, Relay, log, pair_ttl_ms, Creator, after_sweep, insert_row,
  create_pair_session, seal_ok, can_seal, seal_row, seal_pair_session, given, claim_row,
  secret_matches, claim_seen, claim_pair_session,
}

-- The row that a creation inserts.
abbrev new_row : ℕ → Creator → String → Row
new_row now args hash = record {
  user_id = args.user_id;
  state = waiting;
  sealed_payload = none;
  creator_secret_hash = hash;
  expires_at = now + pair_ttl_ms;
  creator_ip = args.ip;
  creator_country = args.country;
  creator_city = args.city;
}

abbrev sealed_row : String → Row → Row
sealed_row payload row = record row { state = sealed; sealed_payload = some payload }

inserted :
    (rows : Entries String Row) (id : String) (row : Row)
    → lookup (insert rows id row) id ≡ some row
inserted rows id row = rw (lookup-insert rows id id row) (ground (arith, same_refl id))

create-lookup :
    (now : ℕ) (swept : Bool) (args : Creator) (id hash : String) (relay : Relay)
    → lookup (after_sweep now swept relay).rows id ≡ none
    → lookup (create_pair_session now swept args id hash relay).rows id
      ≡ some (new_row now args hash)
unfolding create_pair_session insert_row log
create-lookup now swept args id hash relay fresh =
    rw fresh (inserted (after_sweep now swept relay).rows id (new_row now args hash))

seal-lookup :
    (now : ℕ) (id payload : String) (row : Row) (reread relay : Relay)
    → lookup relay.rows id ≡ some row
    → can_seal now row.user_id row ≡ true
    → ((seal_pair_session now id row.user_id payload reread relay).0 ≡ seal_ok)
      × (lookup (seal_pair_session now id row.user_id payload reread relay).1.rows id
          ≡ some (sealed_row payload row))
unfolding seal_pair_session seal_row log
seal-lookup now id payload row reread relay found can =
    rw found (rw can (refl, inserted relay.rows id (sealed_row payload row)))

claim-gives :
    (hash_secret : String → String) (now : ℕ) (id secret payload : String) (row : Row)
    (relay : Relay)
    → lookup relay.rows id ≡ some (sealed_row payload row)
    → row.creator_secret_hash ≡ hash_secret secret
    → (claim_pair_session hash_secret now id row.user_id secret relay relay).0
      ≡ given (some payload)
unfolding claim_pair_session claim_seen claim_row secret_matches
claim-gives hash_secret now id secret payload row relay found hash =
    let right : (hash_secret secret == row.creator_secret_hash) ≡ true =
      rw hash (same_refl (hash_secret secret)) in
    rw found (rw (same_refl row.user_id, right) (rw found refl))

-- Create a session under an id that the swept table does not have, deposit a payload for it from the
-- same account before its time is over, and claim it with the secret whose digest was stored, at any
-- time, with no other operation in between. The deposit succeeds and the claim is given the payload.
pub pair-round_trip :
    (hash_secret : String → String) (now later last : ℕ) (swept : Bool) (args : Creator)
    (id secret payload : String) (relay : Relay)
    → lookup (after_sweep now swept relay).rows id ≡ none
    → later < now + pair_ttl_ms
    → let opened = create_pair_session now swept args id (hash_secret secret) relay in
      let held = seal_pair_session later id args.user_id payload opened opened in
      (held.0 ≡ seal_ok)
      × ((claim_pair_session hash_secret last id args.user_id secret held.1 held.1).0
          ≡ given (some payload))
unfolding can_seal
pair-round_trip hash_secret now later last swept args id secret payload relay fresh early =
    let opened = create_pair_session now swept args id (hash_secret secret) relay in
    let row = new_row now args (hash_secret secret) in
    let (ok, found) =
      seal-lookup later id payload row opened opened
        (create-lookup now swept args id (hash_secret secret) relay fresh)
        (ground (arith, same_refl args.user_id)) in
    (
      ok,
      claim-gives hash_secret last id secret payload row
          (seal_pair_session later id args.user_id payload opened opened).1 found refl,
    )
