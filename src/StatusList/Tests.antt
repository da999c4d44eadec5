-- ===== src/StatusList/Tests.antt =====
-- Concrete bits of a status list.
use minister.StatusList.Registry.{
  is_set, StatusEntry, Registry, Call, allocate_call, revoke_call, perform_all,
}
use minister.StatusList.Revoked.{AreApart, AreRevoked, AreSound}
use minister.StatusList.Tombstones.{IsDead}
use minister.StatusList.Steps.{perform_all-AreSound}
use minister.StatusList.Publisher.{
  ListRow, Lists, Try, publish_list, try_each, publish_attempt, or_again, update_list,
  eligible_bits, is_eligible, may_reveal, build_status_list_payload, threw, returned, published,
}
use minister.StatusList.Sweep.{
  run_scheduled_publish, run_publisher_once, alert_publisher_lag_if_any, lagging_of, is_lagging,
  is_nil, count_in, pass_published, IsFreshList, run_scheduled_publish-quiet,
}
use minister.StatusList.Delivered.{IsDelivered, publish_list-delivers}
use minister.StatusList.Published.{IsReadable, IsRun, publish_list-IsRun}
use minister.Common.{
  given, stop_if, In, here, String, none, ap, ◌∙◌, take, Option, lookup, string_eq, false, In-nil,
  ℕ, ◌≡◌, refl, true, some, List, [], ◌∷◌, arith, length, length-replicate,
}
use minister.StatusList.{new_bitstring, mask, has_bit, byte_at, get_bit, set_bit, set_bits}

-- The bit 0 is the highest bit of the first byte.
first_bit : set_bit (0 ∷ 0 ∷ []) 0 ≡ some (true, 128 ∷ 0 ∷ [])
unfolding set_bit has_bit mask byte_at
first_bit = refl

tenth_bit : get_bit (0 ∷ 64 ∷ []) 9 ≡ some true
unfolding get_bit has_bit mask byte_at
tenth_bit = refl

full : length new_bitstring ≡ 1024
full = length-replicate {A = ℕ} 1024 0

abbrev no_entries : Registry
no_entries = record { entries = []; shards = []; revocations = [] }

no_entries-AreSound : AreSound no_entries
unfolding AreSound AreApart AreRevoked
no_entries-AreSound = (tt, λ e m r. absurd (In-nil m))

abbrev calls : List (ℕ × Call)
calls =
    (1000, allocate_call "s0" "s1" (5 ∷ []) (5 ∷ []) "gm:1" "mc_chat")
    ∷ (2000, revoke_call (λ e. 60) "gm:1")
    ∷ (3000, allocate_call "s2" "s3" (5 ∷ 6 ∷ []) [] "gm:1" "mc_forum")
    ∷ (4000, allocate_call "s4" "s5" (5 ∷ 6 ∷ []) [] "gm:2" "mc_chat")
    ∷ []

perform_all-AreSound_example :
    AreSound (perform_all calls no_entries)
    × ((now : ℕ) (jitter : StatusEntry → ℕ) (anchor : String)
        → In (now, revoke_call jitter anchor) calls
        → IsDead anchor (perform_all calls no_entries))
perform_all-AreSound_example = perform_all-AreSound calls no_entries no_entries-AreSound

abbrev stored_list : ListRow
stored_list = record { version = 7; bits = new_bitstring; signed_jwt = ""; published_at = 0 }

abbrev kept_out : StatusEntry
kept_out = record {
  list_id = "s0";
  bit_index = 3;
  status_anchor = "gm:1";
  client_id = "mc_chat";
  revoked_at = some 5;
  reveal_after = some 60;
}

abbrev seen_lists : Lists
seen_lists = record { rows = ("s0", stored_list) ∷ []; entries = kept_out ∷ [] }

abbrev tries : List Try
tries = record { jti = "j1"; seen = seen_lists; store = seen_lists } ∷ []

only_row : {row : ListRow} → lookup seen_lists.rows "s0" ≡ some row → row ≡ stored_list
unfolding lookup
only_row {row} found = let e : ◌≡◌ {A = Option ListRow} (some stored_list) (some row) = found in cc

seen_lists-IsReadable : IsReadable "s0" seen_lists
unfolding IsReadable
seen_lists-IsReadable =
    (λ row found. ap (λ (r : ListRow). length r.bits) (only_row found) ∙ full, (omega arith, tt))

publish_list-IsRun_example :
    IsRun
      (λ l. l)
      (λ p. some p.jti)
      90_000
      "did:minister"
      "s0"
      (take 4 tries)
      (publish_list (λ l. l) (λ p. some p.jti) 90_000 false "did:minister" "s0" tries)
publish_list-IsRun_example =
    publish_list-IsRun (λ l. l) (λ p. some p.jti) 90_000 false "did:minister" "s0" tries
      (seen_lists-IsReadable, tt)

-- The first publication of a list sets the bit of the entry, and its version is the time in seconds.
first_publication :
    (publish_attempt
      (λ l. l)
      (λ p. some p.jti)
      90_000
      false
      "did:minister"
      "s0"
      (record { jti = "j1"; seen = seen_lists; store = seen_lists })).0
    ≡ returned (published 90 true 1)
unfolding publish_attempt update_list eligible_bits is_eligible may_reveal is_set given stop_if
    build_status_list_payload set_bits set_bit has_bit mask byte_at lookup
first_publication = refl

abbrev signed_list : ListRow
signed_list = record {
  version = 90;
  bits = new_bitstring;
  signed_jwt = "j1";
  published_at = 90_000;
}

quiet_pass :
    run_scheduled_publish
      (λ l. l)
      (λ p. some p.jti)
      60_000
      true
      90_000
      (some "did:minister")
      (("s0", tries) ∷ [])
      (("s0", signed_list) ∷ [])
    ≡ (pass_published, none)
unfolding run_scheduled_publish run_publisher_once publish_list try_each publish_attempt or_again
    update_list alert_publisher_lag_if_any lagging_of is_lagging is_nil count_in eligible_bits
    is_eligible may_reveal is_set build_status_list_payload set_bits set_bit has_bit mask byte_at
    lookup given stop_if
quiet_pass = refl

run_scheduled_publish-quiet_example :
    (issuer_did : String) × ◌≡◌ {A = Option String} (some "did:minister") (some issuer_did)
    × ((l : String × List Try)
        → In l (("s0", tries) ∷ [])
        → ¬ ((publish_list (λ u. u) (λ p. some p.jti) 90_000 false issuer_did l.0 l.1).0 ≡ threw))
    × ((r : String × ListRow) → In r (("s0", signed_list) ∷ []) → IsFreshList 90_000 60_000 r.1)
run_scheduled_publish-quiet_example =
    run_scheduled_publish-quiet (λ l. l) (λ p. some p.jti) 60_000 90_000 (some "did:minister")
      (("s0", tries) ∷ []) (("s0", signed_list) ∷ []) quiet_pass

abbrev first_try : Try
first_try = record { jti = "j1"; seen = seen_lists; store = seen_lists }

found_list : lookup seen_lists.rows "s0" ≡ some stored_list
unfolding lookup
found_list = refl

shown_entry : is_eligible 90_000 "s0" kept_out ≡ true
unfolding is_eligible may_reveal is_set
shown_entry = refl

clear_bit : get_bit new_bitstring 3 ≡ some false
unfolding get_bit has_bit mask byte_at
clear_bit = refl

publish_list-delivers_example :
    IsDelivered
      (λ l. l)
      (λ p. some p.jti)
      "did:minister"
      "s0"
      3
      90_000
      (publish_list (λ l. l) (λ p. some p.jti) 90_000 false "did:minister" "s0" (first_try ∷ []))
publish_list-delivers_example =
    publish_list-delivers (λ l. l) (λ p. some p.jti) 90_000 false "did:minister" "s0" first_try []
      stored_list kept_out (λ p. (p.jti, refl)) seen_lists-IsReadable found_list found_list here
      shown_entry clear_bit (omega arith) (omega arith)
