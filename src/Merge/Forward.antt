-- ===== src/Merge/Forward.antt =====
-- mergeAccounts of apps/minister/src/lib/merge.ts: one transaction, after the subjects of the donor
-- were derived from the tables as they were before it.
use minister.Common.{
  ℕ, ◌+◌, ◌*◌, String, Bool, not, ◌&&◌, ◌||◌, none, some, List, ◌++◌, map, keep, all, length,
  nat_beq, Entries, lookup, insert, includes, string_eq, pair_eq, ◌==◌, given, stop_if,
}
use minister.Merge.{User, MergeSnapshot, Tables, delete_keys, primary_keys_of}
use minister.Merge.Donor.{
  clients_of, moved_rows, move_rows, refs_of, eligibility_losers, eligibility_moves, take_over,
  redemption_losers, redemption_moves, keys_under, move_overrides, create_overrides, with_sub,
  merge_grants, is_found, merged_grants,
}

abbrev pub merge_reversal_ms : ℕ
merge_reversal_ms = 7 * 24 * 60 * 60 * 1000

pub data MergeError : Type 0 where
  same_account : MergeError
  survivor_missing : MergeError
  donor_missing : MergeError
  donor_merged : MergeError
  clients_changed : MergeError
  unique_violation : MergeError

pub data MergeResult : Type 0 where
  merged : String → MergeResult
  failed : MergeError → MergeResult

unfoldable pub snapshot_of :
    String → String → User → (String → String) → List String → List String → Tables → MergeSnapshot
snapshot_of survivor_id donor_id survivor donor_sub clients used store = record {
  survivor_user_id = survivor_id;
  donor_user_id = donor_id;
  moved = moved_rows donor_id store.rows;
  eligibility_moved =
      eligibility_moves survivor_id donor_id store.eligibilities store.eligibilities;
  redemption_moved = redemption_moves survivor_id donor_id store.redemptions store.redemptions;
  override_moved =
      keep (λ c. not (includes c (keys_under survivor_id store.overrides)))
        (keys_under donor_id store.overrides);
  grant_moved =
      keep (λ c. not (includes c (keys_under survivor_id store.grants)))
        (keys_under donor_id store.grants);
  eligibility_deleted =
      eligibility_losers survivor_id donor_id store.eligibilities store.eligibilities;
  redemption_deleted = redemption_losers survivor_id donor_id store.redemptions store.redemptions;
  overrides_created = with_sub donor_sub (keep (λ c. not (includes c used)) clients);
  grants_merged =
      merged_grants survivor_id donor_id (keys_under donor_id store.grants) store.grants;
  stranded_clients = with_sub donor_sub (keep (λ c. includes c used) clients);
  survivor_banned = survivor.is_banned;
  demoted_primary_email_ids = primary_keys_of donor_id store.rows.emails;
  dedup_reassigned = refs_of donor_id store.rows.badges;
}

-- The tables after a merge, with the overrides that it has left.
unfoldable pub merge_tables :
    ℕ
    → String
    → String
    → String
    → User
    → User
    → MergeSnapshot
    → Entries (String × String) String
    → Tables
    → Tables
merge_tables now id survivor_id donor_id survivor donor snap overrides store = record {
  users =
      insert
        (insert store.users survivor_id (record survivor {
          is_banned = survivor.is_banned || donor.is_banned;
          session_generation = survivor.session_generation + 1;
        }))
        donor_id
        (record donor {
          merged_into_user_id = some survivor_id;
          merged_at = some now;
          session_generation = donor.session_generation + 1;
        });
  rows = move_rows donor_id survivor_id store.rows;
  eligibilities =
      take_over snap.eligibility_moved survivor_id
        (delete_keys (map (λ r. r.key) snap.eligibility_deleted) store.eligibilities);
  redemptions =
      take_over snap.redemption_moved survivor_id
        (delete_keys (map (λ r. r.key) snap.redemption_deleted) store.redemptions);
  overrides = overrides;
  grants = merge_grants survivor_id donor_id (keys_under donor_id store.grants) store.grants;
  codes = keep (λ row. not (row.user_id == donor_id)) store.codes;
  records =
      insert store.records id (record {
        snapshot = snap;
        reversible_until = now + merge_reversal_ms;
        reversed_at = none;
      });
}

-- The clients of the donor's tokens are those that the subjects were derived for.
unfoldable pub same_clients : List String → List String → Bool
same_clients before current =
    nat_beq (length current) (length before) && all (λ c. includes c before) current

-- `donor_sub` is the derived subject of the donor at a client. `seen` is what was read before the
-- transaction, `store` what it meets; a failure rolls it back.
module _ (donor_sub : String → String) where
  unfoldable pub merge_accounts :
      ℕ → String → String → String → Tables → Tables → MergeResult × Tables
  merge_accounts now id survivor_id donor_id seen store =
      let before = clients_of donor_id seen.rows.tokens in
      let used =
        clients_of survivor_id store.rows.tokens ++ keys_under survivor_id store.overrides in
      stop_if (survivor_id == donor_id) (failed same_account, store)
        (given (lookup store.users survivor_id) (failed survivor_missing, store)
          (λ survivor.
            given (lookup store.users donor_id) (failed donor_missing, store)
              (λ donor.
                stop_if (is_found donor.merged_into_user_id) (failed donor_merged, store)
                  (stop_if (not (same_clients before (clients_of donor_id store.rows.tokens)))
                    (failed clients_changed, store)
                    (let snap =
                        snapshot_of survivor_id donor_id survivor donor_sub before used store in
                      given
                        (create_overrides survivor_id snap.overrides_created
                          (move_overrides donor_id survivor_id snap.override_moved store.overrides))
                        (failed unique_violation, store)
                        (λ overrides. (
                          merged id,
                          merge_tables now id survivor_id donor_id survivor donor snap overrides
                              store,
                        )))))))
