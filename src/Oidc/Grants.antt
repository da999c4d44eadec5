-- ===== src/Oidc/Grants.antt =====
-- apps/minister/src/lib/oidc-grants.ts: what a user has granted to an app, which only grows.
pub mod Grows
use minister.Common.{
  String, false, ◌&&◌, ◌||◌, Option, none, some, List, [], ◌∷◌, ◌++◌, map, keep, lookup, insert,
  includes, add, string_eq, pair_eq,
}
use minister.Policy.{UserBadge}
use minister.Oidc.Store.{Grant, Store}

abbrev pub empty_grant : Grant
empty_grant = record {
  badge_types = [];
  badge_ids = [];
  profile_name = false;
  profile_avatar = false;
  sybil_score = false;
}

unfoldable pub or_empty_grant : Option Grant → Grant
or_empty_grant none = empty_grant
or_empty_grant (some grant) = grant

unfoldable pub load_grant : Store → String → String → Grant
load_grant store user_id client_id = or_empty_grant (lookup store.grants (user_id, client_id))

unfoldable pub add_all : List String → List String → List String
add_all [] out = out
add_all (x ∷ xs) out = add_all xs (add x out)

-- `[...new Set([...a, ...b])]`
unfoldable pub union_types : List String → List String → List String
union_types a b = add_all (a ++ b) []

unfoldable pub granted_relevant_badge_ids : Grant → List String → List UserBadge → List String
granted_relevant_badge_ids grant requested owned =
    map (λ b. b.id)
      (keep (λ b. includes b.id grant.badge_ids && includes b.badge_type requested) owned)

-- The row that a consent leaves, by the one that is there.
unfoldable pub merge_grant : Option Grant → Grant → Grant
merge_grant existing given = record {
  badge_types = union_types (or_empty_grant existing).badge_types given.badge_types;
  badge_ids = union_types (or_empty_grant existing).badge_ids given.badge_ids;
  profile_name = (or_empty_grant existing).profile_name || given.profile_name;
  profile_avatar = (or_empty_grant existing).profile_avatar || given.profile_avatar;
  sybil_score = (or_empty_grant existing).sybil_score || given.sybil_score;
}

unfoldable pub upsert_grant : String → String → Grant → Store → Store
upsert_grant user_id client_id given store = record store {
  grants =
      insert store.grants (user_id, client_id)
        (merge_grant (lookup store.grants (user_id, client_id)) given);
}
