-- ===== src/Group.antt =====
-- apps/minister/src/server/group-actions.ts, with apps/minister/src/server/group-permissions.ts and
-- apps/minister/src/lib/group-roles.ts: the groups of users, their roles, and the badge of a
-- membership. What an action reads is `seen`; its transaction meets `store`.
pub mod Operations
pub mod Owners
pub mod Actions
pub mod Coup
mod Tests
use Prim.Native.Char.{code}
use Prim.Native.String
use minister.Common.{
  ℕ, ◌+◌, ◌*◌, String, Bool, true, false, not, ◌&&◌, ◌||◌, Option, none, some, List, [], ◌∷◌, ◌++◌,
  map, keep, all, length, ltb, leb, nat_beq, if◌then◌else◌, Entries, lookup, insert, erase,
  includes, string_eq, pair_eq, ◌==◌, given, stop_if, split, units,
}

pub data GroupRole : Type 0 where
  member : GroupRole
  admin : GroupRole
  owner : GroupRole

unfoldable pub role_rank : GroupRole → ℕ
role_rank member = 1
role_rank admin = 2
role_rank owner = 3

unfoldable pub role_at_least : GroupRole → GroupRole → Bool
role_at_least role floor = leb (role_rank floor) (role_rank role)

pub record Group : Type 0 where
  pub slug : String
  pub display_name : String
  pub description : Option String
  pub owner_user_id : String

pub record Membership : Type 0 where
  pub id : String
  pub role : GroupRole

-- The badge of a membership, with its anchor in the status lists.
pub record GroupBadge : Type 0 where
  pub user_id : String
  pub group_id : String
  pub slug : String
  pub role : GroupRole
  pub anchor : String

-- Memberships stand under the group and the user; `revoked` has the anchors that were revoked.
pub record Tables : Type 0 where
  pub groups : Entries String Group
  pub memberships : Entries (String × String) Membership
  pub tombstones : Entries String ℕ
  pub users : List String
  pub badges : List GroupBadge
  pub revoked : List String

pub record GroupConfig : Type 0 where
  pub founding_min_bucket : ℕ
  pub max_owned_groups : ℕ

pub data GroupError : Type 0 where
  invalid_input : GroupError
  not_a_member : GroupError
  no_permission : GroupError
  reserved : GroupError
  taken : GroupError
  recently_used : GroupError
  no_config : GroupError
  too_many_groups : GroupError
  no_bucket : GroupError
  too_weak : GroupError
  only_owner_grants : GroupError
  no_such_user : GroupError
  already_a_member : GroupError
  target_not_a_member : GroupError
  owner_stays : GroupError
  only_owner_removes : GroupError
  owner_keeps_role : GroupError

-- `vanished` is the throw of an update or a delete that finds no row.
pub data GroupActionResult : Type 0 where
  ok : GroupActionResult
  created : String → String → GroupActionResult
  error : GroupError → GroupActionResult
  vanished : GroupActionResult

abbrev slug_tombstone_ms : ℕ
slug_tombstone_ms = 30 * 24 * 60 * 60 * 1000

unfoldable pub is_slug_char : ℕ → Bool
is_slug_char c = (leb 97 c && leb c 122) || (leb 48 c && leb c 57)

unfoldable pub all_slug_chars : String → Bool
all_slug_chars String.[] = true
all_slug_chars (String.◌∷◌ c s) = is_slug_char (code c) && all_slug_chars s

unfoldable pub is_slug_part : String → Bool
is_slug_part part = not (part == "") && all_slug_chars part

-- The pattern of a slug: parts of lower-case letters and digits, between single hyphens.
unfoldable pub matches_slug : String → Bool
matches_slug s = all is_slug_part (split b'-' s)

unfoldable pub has_length : ℕ → ℕ → String → Bool
has_length low high s = leb low (units s) && leb (units s) high

unfoldable pub group_membership_anchor : Membership → String
group_membership_anchor m = String.◌++◌ "gm:" m.id

unfoldable pub is_member : Option Membership → Bool
is_member none = false
is_member (some m) = true

unfoldable pub is_role : GroupRole → GroupRole → Bool
is_role r s = nat_beq (role_rank r) (role_rank s)

-- A role that may be assigned: the schema has no owner.
pub data AssignableRole : Type 0 where
  as_admin : AssignableRole
  as_member : AssignableRole

unfoldable pub role_of : AssignableRole → GroupRole
role_of as_admin = admin
role_of as_member = member

-- The row of a membership and its group, which it refers to, for a role at least the floor.
unfoldable pub require_group_role :
    Tables
    → String
    → String
    → GroupRole
    → Tables
    → (GroupRole → Group → GroupActionResult × Tables)
    → GroupActionResult × Tables
require_group_role seen group_id user_id floor store k =
    given (lookup seen.memberships (group_id, user_id)) (error not_a_member, store)
      (λ membership.
        given (lookup seen.groups group_id) (error not_a_member, store)
          (λ group.
            stop_if (not (role_at_least membership.role floor)) (error no_permission, store)
              (k membership.role group)))

unfoldable pub owned_count : String → Entries String Group → ℕ
owned_count user_id groups = length (keep (λ g. g.1.owner_user_id == user_id) groups)

unfoldable pub has_slug : String → Entries String Group → Bool
has_slug slug groups = ltb 0 (length (keep (λ g. g.1.slug == slug) groups))

-- The slug was freed less than the cooldown ago.
unfoldable pub is_cooling : ℕ → Option ℕ → Bool
is_cooling now none = false
is_cooling now (some deleted_at) = ltb now (deleted_at + slug_tombstone_ms)

-- The transaction of a new group, whose ids are new; the slug is unique.
unfoldable pub insert_group : String → String → String → Group → Tables → GroupActionResult × Tables
insert_group group_id membership_id user_id group store =
    let m : Membership = record { id = membership_id; role = owner } in
    stop_if (has_slug group.slug store.groups) (error taken, store)
      (
        created group_id group.slug,
        record store {
          groups = insert store.groups group_id group;
          memberships = insert store.memberships (group_id, user_id) m;
          badges =
              record {
                user_id = user_id;
                group_id = group_id;
                slug = group.slug;
                role = owner;
                anchor = group_membership_anchor m;
              }
              ∷ store.badges;
          tombstones = erase store.tombstones group.slug;
        },
      )

-- The cascade of a deleted group, and the anchors of its memberships.
unfoldable pub without_group :
    String → Entries (String × String) Membership → Entries (String × String) Membership
without_group group_id [] = []
without_group group_id ((key, m) ∷ memberships) =
    if key.0 == group_id
    then without_group group_id memberships
    else (key, m) ∷ without_group group_id memberships

unfoldable pub anchors_of : String → Entries (String × String) Membership → List String
anchors_of group_id [] = []
anchors_of group_id ((key, m) ∷ memberships) =
    if key.0 == group_id
    then group_membership_anchor m ∷ anchors_of group_id memberships
    else anchors_of group_id memberships

unfoldable pub delete_rows : ℕ → String → Group → Tables → Tables
delete_rows now group_id group store = record store {
  groups = erase store.groups group_id;
  memberships = without_group group_id store.memberships;
  tombstones = insert store.tombstones group.slug now;
  revoked = anchors_of group_id store.memberships ++ store.revoked;
}

unfoldable pub update_group :
    String → (Group → Group) → Option Group → Tables → GroupActionResult × Tables
update_group group_id f none store = (vanished, store)
update_group group_id f (some group) store =
    (ok, record store { groups = insert store.groups group_id (f group) })

-- The transaction of a new member: the row, unless there is one, and the badge.
unfoldable pub insert_member :
    String → String → String → String → GroupRole → Tables → GroupActionResult × Tables
insert_member group_id slug membership_id user_id role store =
    let m : Membership = record { id = membership_id; role = role } in
    stop_if (is_member (lookup store.memberships (group_id, user_id)))
      (error already_a_member, store)
      (stop_if (not (includes group_id (map (λ g. g.0) store.groups))) (vanished, store)
        (
          ok,
          record store {
            memberships = insert store.memberships (group_id, user_id) m;
            badges =
                record {
                  user_id = user_id;
                  group_id = group_id;
                  slug = slug;
                  role = role;
                  anchor = group_membership_anchor m;
                }
                ∷ store.badges;
          },
        ))

unfoldable pub delete_member :
    String → String → Membership → Option Membership → Tables → GroupActionResult × Tables
delete_member group_id user_id target none store = (vanished, store)
delete_member group_id user_id target (some row) store = (
  ok,
  record store {
    memberships = erase store.memberships (group_id, user_id);
    revoked = group_membership_anchor target ∷ store.revoked;
  },
)

unfoldable pub update_role :
    String → String → GroupRole → Option Membership → Tables → GroupActionResult × Tables
update_role group_id user_id role none store = (vanished, store)
update_role group_id user_id role (some row) store = (
  ok,
  record store {
    memberships =
        insert store.memberships (group_id, user_id) (record { id = row.id; role = role });
  },
)
