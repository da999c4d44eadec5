-- ===== src/Merge/Donor.antt =====
-- What mergeAccounts of apps/minister/src/lib/merge.ts does with the rows of the donor: those that
-- move, those that lose to a row of the survivor, and the grants and overrides that are united.
use minister.Common.{
  String, Bool, true, false, not, ◌&&◌, ◌||◌, Option, none, some, List, [], ◌∷◌, map, keep, any,
  ltb, if◌then◌else◌, Entries, lookup, insert, erase, includes, string_eq, pair_eq, ◌==◌,
}
use minister.Oidc.Grants.{union_types}
use minister.Merge.{
  Row, Eligibility, Redemption, GrantRow, Rows, MovedRows, MergedGrant, keys_of, move, set_primary,
  primary_keys_of, own,
}

-- The clients of a user's tokens, each once.
unfoldable pub clients_of : String → List (Row String) → List String
clients_of user_id [] = []
clients_of user_id (row ∷ rows) =
    let rest = clients_of user_id rows in
    if (row.user_id == user_id) && not (includes row.value rest) then row.value ∷ rest else rest

unfoldable pub moved_rows : String → Rows → MovedRows
moved_rows donor rows = record {
  badges = keys_of donor rows.badges;
  tokens = keys_of donor rows.tokens;
  emails = keys_of donor rows.emails;
  share_links = keys_of donor rows.share_links;
  wizard_sessions = keys_of donor rows.wizard_sessions;
  recovery_codes = keys_of donor rows.recovery_codes;
  recovery_attempts = keys_of donor rows.recovery_attempts;
  audit_logs = keys_of donor rows.audit_logs;
  accounts = keys_of donor rows.accounts;
  sessions = keys_of donor rows.sessions;
  authenticators = keys_of donor rows.authenticators;
  owned_clients = keys_of donor rows.owned_clients;
}

-- The moves, and the donor's primary email, which is demoted.
unfoldable pub move_rows : String → String → Rows → Rows
move_rows donor survivor rows = record {
  badges = move donor survivor rows.badges;
  tokens = move donor survivor rows.tokens;
  emails = set_primary false (primary_keys_of donor rows.emails) (move donor survivor rows.emails);
  share_links = move donor survivor rows.share_links;
  wizard_sessions = move donor survivor rows.wizard_sessions;
  recovery_codes = move donor survivor rows.recovery_codes;
  recovery_attempts = move donor survivor rows.recovery_attempts;
  audit_logs = move donor survivor rows.audit_logs;
  accounts = move donor survivor rows.accounts;
  sessions = move donor survivor rows.sessions;
  authenticators = move donor survivor rows.authenticators;
  owned_clients = move donor survivor rows.owned_clients;
}

-- The ledger entries of the donor's badges.
unfoldable pub add_ref : Option String → List String → List String
add_ref none refs = refs
add_ref (some ref) refs = ref ∷ refs

unfoldable pub refs_of : String → List (Row (Option String)) → List String
refs_of donor [] = []
refs_of donor (row ∷ rows) =
    if row.user_id == donor then add_ref row.value (refs_of donor rows) else refs_of donor rows

unfoldable pub find_type : String → String → List (Row Eligibility) → Option (Row Eligibility)
find_type user_id badge_type [] = none
find_type user_id badge_type (row ∷ rows) =
    if (row.user_id == user_id) && (row.value.badge_type == badge_type)
    then some row
    else find_type user_id badge_type rows

-- What a donor's eligibility becomes, by the survivor's of that type: the earlier one stays.
unfoldable pub loser : Row Eligibility → Option (Row Eligibility) → Option (Row Eligibility)
loser d none = none
loser d (some s) = if ltb d.value.eligible_at s.value.eligible_at then some s else some d

unfoldable pub moves : Row Eligibility → Option (Row Eligibility) → Bool
moves d none = true
moves d (some s) = ltb d.value.eligible_at s.value.eligible_at

unfoldable pub add_loser :
    Option (Row Eligibility) → List (Row Eligibility) → List (Row Eligibility)
add_loser none losers = losers
add_loser (some row) losers = row ∷ losers

unfoldable pub eligibility_losers :
    String → String → List (Row Eligibility) → List (Row Eligibility) → List (Row Eligibility)
eligibility_losers survivor donor every [] = []
eligibility_losers survivor donor every (d ∷ rows) =
    let rest = eligibility_losers survivor donor every rows in
    if d.user_id == donor
    then add_loser (loser d (find_type survivor d.value.badge_type every)) rest
    else rest

unfoldable pub eligibility_moves :
    String → String → List (Row Eligibility) → List (Row Eligibility) → List String
eligibility_moves survivor donor every [] = []
eligibility_moves survivor donor every (d ∷ rows) =
    let rest = eligibility_moves survivor donor every rows in
    if (d.user_id == donor) && moves d (find_type survivor d.value.badge_type every)
    then d.key ∷ rest
    else rest

-- `updateMany` to the survivor, of the rows with a key of a list.
unfoldable pub take_over : {V : Type 0} → List String → String → List (Row V) → List (Row V)
take_over keys survivor [] = []
take_over keys survivor (row ∷ rows) =
    (if includes row.key keys then own survivor row else row) ∷ take_over keys survivor rows

unfoldable pub has_redeemed_code : String → String → List (Row Redemption) → Bool
has_redeemed_code survivor code rows =
    any (λ r. (r.user_id == survivor) && (r.value.invite_code_id == code)) rows

unfoldable pub redemption_losers :
    String → String → List (Row Redemption) → List (Row Redemption) → List (Row Redemption)
redemption_losers survivor donor every rows =
    keep (λ d. (d.user_id == donor) && has_redeemed_code survivor d.value.invite_code_id every) rows

unfoldable pub redemption_moves :
    String → String → List (Row Redemption) → List (Row Redemption) → List String
redemption_moves survivor donor every rows =
    map (λ d. d.key)
      (keep
        (λ d. (d.user_id == donor) && not (has_redeemed_code survivor d.value.invite_code_id every))
        rows)

unfoldable pub keys_under : {V : Type 0} → String → Entries (String × String) V → List String
keys_under user_id [] = []
keys_under user_id ((key, v) ∷ entries) =
    if key.0 == user_id then key.1 ∷ keys_under user_id entries else keys_under user_id entries

-- The overrides of the donor that do not collide with one of the survivor move to it.
unfoldable pub move_overrides :
    String
    → String
    → List String
    → Entries (String × String) String
    → Entries (String × String) String
move_overrides donor survivor clients [] = []
move_overrides donor survivor clients ((key, sub) ∷ overrides) =
    (if (key.0 == donor) && includes key.1 clients then ((survivor, key.1), sub) else (key, sub))
    ∷ move_overrides donor survivor clients overrides

unfoldable pub create_if_absent :
    Option String
    → String
    → String
    → String
    → Entries (String × String) String
    → Option (Entries (String × String) String)
create_if_absent none survivor client sub overrides = some (insert overrides (survivor, client) sub)
create_if_absent (some there_is) survivor client sub overrides = none

unfoldable pub then_create :
    Option (Entries (String × String) String)
    → (Entries (String × String) String → Option (Entries (String × String) String))
    → Option (Entries (String × String) String)
then_create none k = none
then_create (some overrides) k = k overrides

-- The creations of overrides, where a key that is there is a violation, `none`.
unfoldable pub create_overrides :
    String
    → Entries String String
    → Entries (String × String) String
    → Option (Entries (String × String) String)
create_overrides survivor [] overrides = some overrides
create_overrides survivor ((client, sub) ∷ rest) overrides =
    then_create
      (create_if_absent (lookup overrides (survivor, client)) survivor client sub overrides)
      (λ next. create_overrides survivor rest next)

-- The client of each donor token with the donor's subject there: those that the survivor has not used,
-- and those that it has.
unfoldable pub with_sub : (String → String) → List String → Entries String String
with_sub donor_sub [] = []
with_sub donor_sub (client ∷ clients) = (client, donor_sub client) ∷ with_sub donor_sub clients

unfoldable pub unite : GrantRow → GrantRow → GrantRow
unite s d = record {
  id = s.id;
  grant = record {
    badge_types = union_types s.grant.badge_types d.grant.badge_types;
    badge_ids = union_types s.grant.badge_ids d.grant.badge_ids;
    profile_name = s.grant.profile_name || d.grant.profile_name;
    profile_avatar = s.grant.profile_avatar || d.grant.profile_avatar;
    sybil_score = s.grant.sybil_score || d.grant.sybil_score;
  };
}

unfoldable pub merge_grant_row :
    String
    → String
    → Option GrantRow
    → Option GrantRow
    → Entries (String × String) GrantRow
    → String
    → Entries (String × String) GrantRow
merge_grant_row survivor donor none s grants client = grants
merge_grant_row survivor donor (some d) none grants client =
    insert (erase grants (donor, client)) (survivor, client) d
merge_grant_row survivor donor (some d) (some s) grants client =
    erase (insert grants (survivor, client) (unite s d)) (donor, client)

unfoldable pub merge_grants :
    String
    → String
    → List String
    → Entries (String × String) GrantRow
    → Entries (String × String) GrantRow
merge_grants survivor donor [] grants = grants
merge_grants survivor donor (client ∷ clients) grants = merge_grants survivor donor clients (
    merge_grant_row survivor donor (lookup grants (donor, client))
      (lookup grants (survivor, client)) grants client)

unfoldable pub is_found : {A : Type 0} → Option A → Bool
is_found none = false
is_found (some a) = true

unfoldable pub add_merged_grant :
    String → Option GrantRow → Option GrantRow → List MergedGrant → List MergedGrant
add_merged_grant client (some d) (some s) out =
    record { client_id = client; survivor_prev = s.grant; donor_deleted = d } ∷ out
add_merged_grant client _ _ out = out

unfoldable pub merged_grants :
    String → String → List String → Entries (String × String) GrantRow → List MergedGrant
merged_grants survivor donor [] grants = []
merged_grants survivor donor (client ∷ clients) grants =
    add_merged_grant client (lookup grants (donor, client)) (lookup grants (survivor, client))
      (merged_grants survivor donor clients grants)
