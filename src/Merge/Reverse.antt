-- ===== src/Merge/Reverse.antt =====
-- reverseMerge of apps/minister/src/lib/merge.ts: the reversal of a merge from its snapshot, within the
-- window, in one transaction.
use minister.Common.{
  ℕ, ◌+◌, String, Bool, true, false, not, ◌&&◌, Option, none, some, List, [], ◌∷◌, ◌++◌, leb,
  if◌then◌else◌, Entries, lookup, insert, erase, includes, string_eq, pair_eq, ◌==◌, given, stop_if,
}
use minister.Oidc.Store.{Grant}
use minister.Merge.{
  User, GrantRow, Rows, MovedRows, MergedGrant, MergeSnapshot, MergeRecord, Tables, restore,
  restore_from, set_primary,
}
use minister.Merge.Donor.{is_found}

pub data ReverseError : Type 0 where
  no_record : ReverseError
  already_reversed : ReverseError
  window_passed : ReverseError
  not_merged : ReverseError

-- `not_written` is the throw of an update with no row, which rolls the transaction back.
pub data ReverseResult : Type 0 where
  reversed : ReverseResult
  not_written : ReverseResult
  refused : ReverseError → ReverseResult

unfoldable pub restore_rows : MovedRows → String → String → List String → Rows → Rows
restore_rows m survivor donor demoted rows = record {
  badges = restore m.badges donor rows.badges;
  tokens = restore m.tokens donor rows.tokens;
  emails = set_primary true demoted (restore m.emails donor rows.emails);
  share_links = restore m.share_links donor rows.share_links;
  wizard_sessions = restore m.wizard_sessions donor rows.wizard_sessions;
  recovery_codes = restore m.recovery_codes donor rows.recovery_codes;
  recovery_attempts = restore m.recovery_attempts donor rows.recovery_attempts;
  audit_logs = restore m.audit_logs donor rows.audit_logs;
  accounts = restore m.accounts donor rows.accounts;
  sessions = restore m.sessions donor rows.sessions;
  authenticators = restore_from m.authenticators survivor donor rows.authenticators;
  owned_clients = restore m.owned_clients donor rows.owned_clients;
}

-- `updateMany` of the rows under the survivor and a client to the donor.
unfoldable pub give_back :
    {V : Type 0}
    → List String
    → String
    → String
    → Entries (String × String) V
    → Entries (String × String) V
give_back clients survivor donor [] = []
give_back clients survivor donor ((key, v) ∷ entries) =
    (if (key.0 == survivor) && includes key.1 clients then ((donor, key.1), v) else (key, v))
    ∷ give_back clients survivor donor entries

unfoldable pub delete_created_if :
    Option String
    → String
    → String
    → String
    → Entries (String × String) String
    → Entries (String × String) String
delete_created_if none survivor client sub overrides = overrides
delete_created_if (some found) survivor client sub overrides =
    if found == sub then erase overrides (survivor, client) else overrides

-- The deletion of the overrides that the merge has created.
unfoldable pub delete_created :
    String
    → Entries String String
    → Entries (String × String) String
    → Entries (String × String) String
delete_created survivor [] overrides = overrides
delete_created survivor ((client, sub) ∷ created) overrides =
    delete_created survivor created
      (delete_created_if (lookup overrides (survivor, client)) survivor client sub overrides)

unfoldable pub set_grant :
    Option GrantRow
    → Grant
    → String
    → String
    → Entries (String × String) GrantRow
    → Entries (String × String) GrantRow
set_grant none prev survivor client grants = grants
set_grant (some row) prev survivor client grants =
    insert grants (survivor, client) (record { id = row.id; grant = prev })

-- The survivor's grants as they were, and the donor's again.
unfoldable pub restore_grants :
    String
    → String
    → List MergedGrant
    → Entries (String × String) GrantRow
    → Entries (String × String) GrantRow
restore_grants survivor donor [] grants = grants
restore_grants survivor donor (mg ∷ rest) grants = restore_grants survivor donor rest (
    insert
      (set_grant (lookup grants (survivor, mg.client_id)) mg.survivor_prev survivor mg.client_id
        grants)
      (donor, mg.client_id) mg.donor_deleted)

unfoldable pub is_into : String → Option String → Bool
is_into survivor none = false
is_into survivor (some into) = into == survivor

unfoldable pub restore_survivor : User → MergeSnapshot → Entries String User → Entries String User
restore_survivor survivor snap users = insert users snap.survivor_user_id (record survivor {
  is_banned = snap.survivor_banned;
  session_generation = survivor.session_generation + 1;
})

unfoldable pub reverse_tables : ℕ → String → MergeRecord → User → User → Tables → Tables
reverse_tables now id rec survivor donor store =
    let snap = rec.snapshot in
    record {
      users = insert (restore_survivor survivor snap store.users) snap.donor_user_id (record donor {
        merged_into_user_id = none;
        merged_at = none;
        session_generation = donor.session_generation + 1;
      });
      rows =
          restore_rows snap.moved snap.survivor_user_id snap.donor_user_id
            snap.demoted_primary_email_ids store.rows;
      eligibilities =
          restore snap.eligibility_moved snap.donor_user_id store.eligibilities
          ++ snap.eligibility_deleted;
      redemptions =
          restore snap.redemption_moved snap.donor_user_id store.redemptions
          ++ snap.redemption_deleted;
      overrides =
          delete_created snap.survivor_user_id snap.overrides_created (
            give_back snap.override_moved snap.survivor_user_id snap.donor_user_id store.overrides);
      grants =
          restore_grants snap.survivor_user_id snap.donor_user_id snap.grants_merged
            (give_back snap.grant_moved snap.survivor_user_id snap.donor_user_id store.grants);
      codes = store.codes;
      records = insert store.records id (record rec { reversed_at = some now });
    }

-- The record is read before the transaction, in `seen`.
unfoldable pub reverse_merge : ℕ → String → Tables → Tables → ReverseResult × Tables
reverse_merge now id seen store =
    given (lookup seen.records id) (refused no_record, store)
      (λ rec.
        stop_if (is_found rec.reversed_at) (refused already_reversed, store)
          (stop_if (leb rec.reversible_until now) (refused window_passed, store)
            (given (lookup store.users rec.snapshot.donor_user_id) (refused not_merged, store)
              (λ donor.
                stop_if (not (is_into rec.snapshot.survivor_user_id donor.merged_into_user_id))
                  (refused not_merged, store)
                  (given (lookup store.users rec.snapshot.survivor_user_id) (not_written, store)
                    (λ survivor. (reversed, reverse_tables now id rec survivor donor store)))))))
