-- ===== src/Merge/Tests.antt =====
-- Two accounts, a merge of them, and the witnesses.
use minister.Common.{
  String, ◌≢◌, refl, true, false, none, some, [], ◌∷◌, arith, Entries, lookup, string_eq, pair_eq,
  same_pair,
}
use minister.Merge.{User, Rows, Tables}
use minister.Merge.Moves.{AreUnique}
use minister.Merge.RoundTrip.{HaveUniqueKeys, IsReversible, merge_accounts-IsReversible}
use minister.Merge.Forward.{merged, merge_accounts}
use minister.Merge.Donor.{clients_of, keys_under}
use minister.Merge.Chain.{merge_accounts-clash}

abbrev user : User
user = record {
  is_banned = false;
  session_generation = 4;
  merged_into_user_id = none;
  merged_at = none;
  dedup_handle = none;
}

-- The donor has a primary email, a badge and a token, the survivor a badge.
abbrev rows : Rows
rows = record {
  badges =
      record { key = "b1"; user_id = "donor"; value = some "entry" }
      ∷ record { key = "b2"; user_id = "survivor"; value = none }
      ∷ [];
  tokens = record { key = "t1"; user_id = "donor"; value = "mc_chat" } ∷ [];
  emails = record { key = "e1"; user_id = "donor"; value = true } ∷ [];
  share_links = [];
  wizard_sessions = [];
  recovery_codes = [];
  recovery_attempts = [];
  audit_logs = [];
  accounts = [];
  sessions = [];
  authenticators = [];
  owned_clients = [];
}

-- The donor has an override at the client or none.
abbrev tables : Entries (String × String) String → Tables
tables overrides = record {
  users = ("survivor", user) ∷ ("donor", user) ∷ [];
  rows = rows;
  eligibilities = [];
  redemptions = [];
  overrides = overrides;
  grants = [];
  codes = [];
  records = [];
}

rows-HaveUniqueKeys : HaveUniqueKeys rows
unfolding HaveUniqueKeys AreUnique string_eq
rows-HaveUniqueKeys =
    ((refl, (refl, tt)), (refl, tt), (refl, tt), tt, tt, tt, tt, tt, tt, tt, tt, tt)

merge_accounts-IsReversible_example :
    IsReversible
      (λ client. "sub")
      2000
      "m1"
      "survivor"
      "donor"
      (tables [])
      (merge_accounts (λ client. "sub") 1000 "m1" "survivor" "donor" (tables []) (tables []))
merge_accounts-IsReversible_example =
    merge_accounts-IsReversible (λ client. "sub") 1000 2000 "m1" "survivor" "donor" (tables [])
      (tables []) rows-HaveUniqueKeys (omega arith)

merge_accounts-clash_example :
    (merge_accounts
      (λ client. "sub")
      1000
      "m2"
      "survivor"
      "donor"
      (tables [])
      (tables ((("donor", "mc_chat"), "older") ∷ []))).0
    ≢ merged "m2"
unfolding string_eq clients_of keys_under lookup pair_eq same_pair
merge_accounts-clash_example =
    merge_accounts-clash (λ client. "sub") 1000 "m2" "survivor" "donor" "mc_chat" "older" "m2"
      (tables []) (tables ((("donor", "mc_chat"), "older") ∷ [])) refl refl refl
