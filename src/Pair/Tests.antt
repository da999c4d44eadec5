-- ===== src/Pair/Tests.antt =====
-- Concrete runs of the relay.
use minister.Common.{
  ◌≤◌, ◌≢◌, String, ◌≡◌, refl, true, none, some, [], string_eq, arith, lookup, insert, split,
}
use minister.Pair.{
  Creator, Row, Relay, claimed, log, is_sealed, insert_row, create_pair_session, can_seal, seal_row,
  seal_pair_session, given, seal_ok, claim_row, secret_matches, claim_seen, claim_pair_session,
  sweep_rows,
}
use minister.Pair.Counts.{is_deposit, is_handover, count}
use minister.Pair.Handover.{
  create, seal, Steps, stay, follow, accepted_in, given_in, Steps-handover,
}
use minister.Pair.Access.{claim_pair_session-given}
use minister.Pair.RoundTrip.{pair-round_trip}
use minister.Pair.Network.{same_network, same_address, same_parts}

abbrev digest : String → String
digest secret = secret

abbrev ann : Creator
ann = record { user_id = "ann"; ip = some "203.0.113.7"; country = some "PT"; city = none }

abbrev empty : Relay
empty = record { rows = []; events = [] }

abbrev opened : Relay
opened = create_pair_session 1000 true ann "s1" "key" empty

abbrev held : Relay
held = (seal_pair_session 2000 "s1" "ann" "payload" opened opened).1

same_24 : same_network (some "203.0.113.7") (some "203.0.113.90") ≡ true
unfolding same_network same_address same_parts split
same_24 = refl

run : Steps digest empty held
unfolding count
run =
    follow (create 1000 true ann "s1" "key" refl refl)
      (follow (seal 2000 "s1" "ann" "payload" opened) stay)

Steps-handover_example :
    (accepted_in run "s1" ≤ 1)
    × (given_in run "s1" ≤ accepted_in run "s1")
    × (count is_deposit "s1" held.events ≡ accepted_in run "s1")
    × (count is_handover "s1" held.events ≡ given_in run "s1")
    × ((row : Row)
        → lookup held.rows "s1" ≡ some row
        → row.sealed_payload ≢ none
        → (is_sealed row.state ≡ true) × (given_in run "s1" ≡ 0))
Steps-handover_example = Steps-handover "s1" run

given-payload :
    (claim_pair_session digest 3000 "s1" "ann" "key" held held).0 ≡ given (some "payload")
unfolding create_pair_session sweep_rows insert_row log insert lookup seal_pair_session seal_row
    can_seal claim_pair_session claim_seen secret_matches claim_row
given-payload = refl

claim_pair_session-given_example :
    (read row : Row) × (lookup held.rows "s1" ≡ some read)
    × (read.user_id ≡ "ann")
    × (digest "key" ≡ read.creator_secret_hash)
    × (read.sealed_payload ≡ some "payload")
    × (lookup held.rows "s1" ≡ some row)
    × (is_sealed row.state ≡ true)
    × ((claim_pair_session digest 3000 "s1" "ann" "key" held held).1.rows
        ≡ insert held.rows "s1" (record row { state = claimed; sealed_payload = none }))
claim_pair_session-given_example =
    claim_pair_session-given digest 3000 "s1" "ann" "key" "payload" held held given-payload

pair-round_trip_example :
    let opened = create_pair_session 1000 true ann "s1" (digest "key") empty in
    let held = seal_pair_session 2000 "s1" ann.user_id "payload" opened opened in
    (held.0 ≡ seal_ok)
    × ((claim_pair_session digest 3000 "s1" ann.user_id "key" held.1 held.1).0
        ≡ given (some "payload"))
unfolding sweep_rows lookup
pair-round_trip_example =
    pair-round_trip digest 1000 2000 3000 true ann "s1" "key" "payload" empty refl (omega arith)
