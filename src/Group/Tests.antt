-- ===== src/Group/Tests.antt =====
-- Runs of the actions on groups, and the witnesses.
use minister.Common.{
  String, ◌≡◌, refl, Bool, true, false, none, some, [], ◌∷◌, lookup, insert, erase, string_eq,
  pair_eq, same_pair, given, stop_if, units, trim, trim_start, trim_end, is_space, split,
}
use minister.Group.{
  member, admin, owner, Tables, created, error, owner_stays, role_rank, role_at_least, is_role,
  require_group_role, owned_count, has_slug, is_cooling, insert_group, group_membership_anchor,
  is_slug_char, all_slug_chars, is_slug_part, matches_slug, has_length, delete_member,
}
use minister.Group.Operations.{
  parse_slug, parse_display_name, parse_description, create_group, remove_member,
}
use minister.Group.Owners.{is_owner_row, AreOwned, IsOwned, HaveSameOwners}
use minister.Group.Actions.{Action, founding, removing, IsFresh, perform, perform-IsOwned}
use minister.Group.Coup.{IsByOther, HaveSameOfficers, perform-HaveSameOfficers}

abbrev is_id : String → Bool
is_id s = true

abbrev same : String → String
same s = s

abbrev none_reserved : String → Bool
none_reserved s = false

abbrev empty : Tables
empty = record {
  groups = [];
  memberships = [];
  tombstones = [];
  users = "u1" ∷ "u2" ∷ "u3" ∷ [];
  badges = [];
  revoked = [];
}

abbrev found_chess : Action
found_chess =
    founding 1000 "u1" "g1" "m1" "chess-club" "Chess" none
      (some (record { founding_min_bucket = 2; max_owned_groups = 3 })) (some 2)

abbrev chess : Tables
chess = (perform is_id same none_reserved found_chess empty empty).1

perform-founds :
    (perform is_id same none_reserved found_chess empty empty).0 ≡ created "g1" "chess-club"
unfolding perform create_group parse_slug parse_display_name parse_description has_length
    matches_slug is_slug_part all_slug_chars is_slug_char insert_group is_cooling has_slug
    owned_count lookup insert erase given stop_if units trim trim_start trim_end is_space split
perform-founds = refl

empty-IsOwned : IsOwned empty
unfolding IsOwned AreOwned lookup
empty-IsOwned g group found u = cc

empty-HaveSameOwners : HaveSameOwners empty empty
unfolding HaveSameOwners lookup
empty-HaveSameOwners g a b e f = cc

chess-IsFresh : IsFresh found_chess empty
unfolding IsFresh lookup
chess-IsFresh u = refl

perform-IsOwned_example : IsOwned (perform is_id same none_reserved found_chess empty empty).1
perform-IsOwned_example =
    perform-IsOwned is_id same none_reserved found_chess empty empty empty-IsOwned empty-IsOwned
      empty-HaveSameOwners chess-IsFresh

-- The founder, an admin and a member.
abbrev staffed : Tables
staffed = record {
  groups =
      (
        "g1",
        record {
          slug = "chess-club";
          display_name = "Chess";
          description = none;
          owner_user_id = "u1";
        },
      )
      ∷ [];
  memberships =
      (("g1", "u1"), record { id = "m1"; role = owner })
      ∷ (("g1", "u2"), record { id = "m2"; role = admin })
      ∷ (("g1", "u3"), record { id = "m3"; role = member })
      ∷ [];
  tombstones = [];
  users = "u1" ∷ "u2" ∷ "u3" ∷ [];
  badges = [];
  revoked = [];
}

-- An admin cannot remove the owner, and can remove a member, whose badge is revoked.
perform-owner_stays :
    perform is_id same none_reserved (removing "u2" "g1" "u1") staffed staffed
    ≡ (error owner_stays, staffed)
unfolding perform remove_member require_group_role role_at_least role_rank is_role lookup given
    stop_if same_pair
perform-owner_stays = refl

perform-revokes :
    (perform is_id same none_reserved (removing "u2" "g1" "u3") staffed staffed).1.revoked
    ≡ "gm:m3" ∷ []
unfolding perform remove_member delete_member group_membership_anchor require_group_role
    role_at_least role_rank is_role lookup given stop_if same_pair
perform-revokes = refl

admin-IsByOther : IsByOther (removing "u2" "g1" "u3") staffed
unfolding IsByOther is_owner_row is_role role_rank lookup same_pair
admin-IsByOther = refl

perform-HaveSameOfficers_example :
    HaveSameOfficers staffed
      (perform is_id same none_reserved (removing "u2" "g1" "u3") staffed staffed).1
perform-HaveSameOfficers_example =
    perform-HaveSameOfficers is_id same none_reserved (removing "u2" "g1" "u3") staffed
      admin-IsByOther
