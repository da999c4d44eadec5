-- ===== src/Merge.antt =====
-- apps/minister/src/lib/merge.ts: the merge of two accounts, the donor into the survivor, and its
-- reversal. Here are the tables that a merge moves rows of, the snapshot that it keeps, and the moves.
pub mod Donor
pub mod Forward
pub mod Reverse
pub mod Moves
pub mod RoundTrip
pub mod Chain
mod Tests
use minister.Common.{
  ℕ, String, Bool, not, ◌&&◌, Option, List, [], ◌∷◌, keep, if◌then◌else◌, Entries, includes,
  string_eq, ◌==◌,
}
use minister.Oidc.Store.{Grant}

-- A row with its unique key, its owner and the columns that matter here.
pub record Row (V : Type 0) : Type 0 where
  pub key : String
  pub user_id : String
  pub value : V

pub record User : Type 0 where
  pub is_banned : Bool
  pub session_generation : ℕ
  pub merged_into_user_id : Option String
  pub merged_at : Option ℕ
  pub dedup_handle : Option String

pub record Eligibility : Type 0 where
  pub badge_type : String
  pub eligible_at : ℕ
  pub fuzz_days : ℕ
  pub source : String

pub record Redemption : Type 0 where
  pub invite_code_id : String
  pub redeemed_at : ℕ

-- A grant with its id.
pub record GrantRow : Type 0 where
  pub id : String
  pub grant : Grant

-- A badge has its ledger entry, a token its client, an email whether it is primary. The key of an
-- account is its provider with its id there; overrides and grants stand under the user and the
-- client.
pub record Rows : Type 0 where
  pub badges : List (Row (Option String))
  pub tokens : List (Row String)
  pub emails : List (Row Bool)
  pub share_links : List (Row Unit)
  pub wizard_sessions : List (Row Unit)
  pub recovery_codes : List (Row Unit)
  pub recovery_attempts : List (Row Unit)
  pub audit_logs : List (Row Unit)
  pub accounts : List (Row Unit)
  pub sessions : List (Row Unit)
  pub authenticators : List (Row Unit)
  pub owned_clients : List (Row Unit)

-- The keys of the rows that a merge has moved, by their table.
pub record MovedRows : Type 0 where
  pub badges : List String
  pub tokens : List String
  pub emails : List String
  pub share_links : List String
  pub wizard_sessions : List String
  pub recovery_codes : List String
  pub recovery_attempts : List String
  pub audit_logs : List String
  pub accounts : List String
  pub sessions : List String
  pub authenticators : List String
  pub owned_clients : List String

pub record MergedGrant : Type 0 where
  pub client_id : String
  pub survivor_prev : Grant
  pub donor_deleted : GrantRow

pub record MergeSnapshot : Type 0 where
  pub survivor_user_id : String
  pub donor_user_id : String
  pub moved : MovedRows
  pub eligibility_moved : List String
  pub redemption_moved : List String
  pub override_moved : List String
  pub grant_moved : List String
  pub eligibility_deleted : List (Row Eligibility)
  pub redemption_deleted : List (Row Redemption)
  pub overrides_created : Entries String String
  pub grants_merged : List MergedGrant
  pub stranded_clients : Entries String String
  pub survivor_banned : Bool
  pub demoted_primary_email_ids : List String
  pub dedup_reassigned : List String

pub record MergeRecord : Type 0 where
  pub snapshot : MergeSnapshot
  pub reversible_until : ℕ
  pub reversed_at : Option ℕ

pub record Tables : Type 0 where
  pub users : Entries String User
  pub rows : Rows
  pub eligibilities : List (Row Eligibility)
  pub redemptions : List (Row Redemption)
  pub overrides : Entries (String × String) String
  pub grants : Entries (String × String) GrantRow
  pub codes : List (Row Unit)
  pub records : Entries String MergeRecord

module _ {V : Type 0} where
  -- `findMany` of a user, and the keys.
  unfoldable pub keys_of : String → List (Row V) → List String
  keys_of user_id [] = []
  keys_of user_id (row ∷ rows) =
      if row.user_id == user_id then row.key ∷ keys_of user_id rows else keys_of user_id rows

  unfoldable pub own : String → Row V → Row V
  own user_id row = record row { user_id = user_id }

  -- `updateMany` of the rows of one user to another.
  unfoldable pub move : String → String → List (Row V) → List (Row V)
  move donor survivor [] = []
  move donor survivor (row ∷ rows) =
      (if row.user_id == donor then own survivor row else row) ∷ move donor survivor rows

  -- `updateMany` of the rows with a key of a list.
  unfoldable pub restore : List String → String → List (Row V) → List (Row V)
  restore keys donor [] = []
  restore keys donor (row ∷ rows) =
      (if includes row.key keys then own donor row else row) ∷ restore keys donor rows

  -- The same, of rows of one user.
  unfoldable pub restore_from : List String → String → String → List (Row V) → List (Row V)
  restore_from keys survivor donor [] = []
  restore_from keys survivor donor (row ∷ rows) =
      (if includes row.key keys && row.user_id == survivor then own donor row else row)
      ∷ restore_from keys survivor donor rows

  unfoldable pub delete_keys : List String → List (Row V) → List (Row V)
  delete_keys keys rows = keep (λ row. not (includes row.key keys)) rows

-- `isPrimary` of the emails with a key of a list.
unfoldable pub set_primary : Bool → List String → List (Row Bool) → List (Row Bool)
set_primary primary keys [] = []
set_primary primary keys (row ∷ rows) =
    (if includes row.key keys then record row { value = primary } else row)
    ∷ set_primary primary keys rows

unfoldable pub primary_keys_of : String → List (Row Bool) → List String
primary_keys_of user_id [] = []
primary_keys_of user_id (row ∷ rows) =
    if (row.user_id == user_id) && row.value
    then row.key ∷ primary_keys_of user_id rows
    else primary_keys_of user_id rows
