-- ===== src/Group/Operations.antt =====
-- The actions of apps/minister/src/server/group-actions.ts.
use minister.Common.{
  ℕ, String, Bool, not, ◌&&◌, Option, none, some, ltb, leb, if◌then◌else◌, lookup, includes,
  string_eq, pair_eq, given, stop_if, trim, units,
}
use minister.Group.{
  admin, owner, Tables, GroupConfig, invalid_input, reserved, taken, recently_used, no_config,
  too_many_groups, no_bucket, too_weak, only_owner_grants, no_such_user, already_a_member,
  target_not_a_member, owner_stays, only_owner_removes, owner_keeps_role, GroupActionResult, ok,
  error, vanished, matches_slug, has_length, is_member, is_role, AssignableRole, role_of,
  require_group_role, owned_count, has_slug, is_cooling, insert_group, delete_rows, update_group,
  insert_member, delete_member, update_role,
}

-- `is_cuid` is zod's test of an id, `to_lower` is `toLowerCase`, and `is_reserved` the list of the
-- slugs that no group may have. The config and the sybil bucket of the user are read before the
-- transaction; `none` is a throw.
module _ (is_cuid : String → Bool) (to_lower : String → String) (is_reserved : String → Bool) where
  unfoldable pub parse_slug : String → Option String
  parse_slug raw =
      let slug = to_lower (trim raw) in
      if has_length 3 32 slug && matches_slug slug then some slug else none

  unfoldable pub parse_display_name : String → Option String
  parse_display_name raw = if has_length 1 80 (trim raw) then some (trim raw) else none

  unfoldable pub parse_description : Option String → Option (Option String)
  parse_description none = some none
  parse_description (some raw) = if leb (units (trim raw)) 500 then some (some (trim raw)) else none

  unfoldable pub create_group :
      ℕ
      → String
      → String
      → String
      → String
      → String
      → Option String
      → Option GroupConfig
      → Option ℕ
      → Tables
      → Tables
      → GroupActionResult × Tables
  create_group now user_id group_id membership_id raw_slug raw_name raw_description config bucket
        seen store =
      given (parse_slug raw_slug) (error invalid_input, store)
        (λ slug.
          given (parse_display_name raw_name) (error invalid_input, store)
            (λ name.
              given (parse_description raw_description) (error invalid_input, store)
                (λ description.
                  stop_if (is_reserved slug) (error reserved, store)
                    (stop_if (has_slug slug seen.groups) (error taken, store)
                      (stop_if (is_cooling now (lookup seen.tombstones slug))
                        (error recently_used, store)
                        (given config (error no_config, store)
                          (λ limits.
                            stop_if (leb limits.max_owned_groups (owned_count user_id seen.groups))
                              (error too_many_groups, store)
                              (given bucket (error no_bucket, store)
                                (λ strength.
                                  stop_if (ltb strength limits.founding_min_bucket)
                                    (error too_weak, store)
                                    (insert_group group_id membership_id user_id
                                      (record {
                                        slug = slug;
                                        display_name = name;
                                        description = description;
                                        owner_user_id = user_id;
                                      })
                                      store))))))))))

  unfoldable pub delete_group : ℕ → String → String → Tables → Tables → GroupActionResult × Tables
  delete_group now user_id group_id seen store =
      stop_if (not (is_cuid group_id)) (error invalid_input, store)
        (require_group_role seen group_id user_id owner store (λ role group.
          given (lookup store.groups group_id) (vanished, store)
            (λ row. (ok, delete_rows now group_id group store))))

  unfoldable pub rename_group :
      String → String → String → Tables → Tables → GroupActionResult × Tables
  rename_group user_id group_id raw_name seen store =
      stop_if (not (is_cuid group_id)) (error invalid_input, store)
        (given (parse_display_name raw_name) (error invalid_input, store)
          (λ name. require_group_role seen group_id user_id owner store (λ role group.
            update_group group_id (λ row. record row { display_name = name })
              (lookup store.groups group_id) store)))

  unfoldable pub edit_group :
      String → String → Option String → Tables → Tables → GroupActionResult × Tables
  edit_group user_id group_id raw_description seen store =
      stop_if (not (is_cuid group_id)) (error invalid_input, store)
        (given (parse_description raw_description) (error invalid_input, store)
          (λ description. require_group_role seen group_id user_id owner store (λ role group.
            update_group group_id (λ row. record row { description = description })
              (lookup store.groups group_id) store)))

  unfoldable pub add_member :
      String
      → String
      → String
      → String
      → AssignableRole
      → Tables
      → Tables
      → GroupActionResult × Tables
  add_member actor_id group_id membership_id target_id role seen store =
      stop_if (not (is_cuid group_id && is_cuid target_id)) (error invalid_input, store)
        (require_group_role seen group_id actor_id admin store (λ actor group.
          stop_if (is_role (role_of role) admin && not (is_role actor owner))
            (error only_owner_grants, store)
            (stop_if (not (includes target_id seen.users)) (error no_such_user, store)
              (stop_if (is_member (lookup seen.memberships (group_id, target_id)))
                (error already_a_member, store)
                (insert_member group_id group.slug membership_id target_id (role_of role) store)))))

  unfoldable pub remove_member :
      String → String → String → Tables → Tables → GroupActionResult × Tables
  remove_member actor_id group_id target_id seen store =
      stop_if (not (is_cuid group_id && is_cuid target_id)) (error invalid_input, store)
        (require_group_role seen group_id actor_id admin store (λ actor group.
          given (lookup seen.memberships (group_id, target_id)) (error target_not_a_member, store)
            (λ target.
              stop_if (is_role target.role owner) (error owner_stays, store)
                (stop_if (is_role target.role admin && not (is_role actor owner))
                  (error only_owner_removes, store)
                  (delete_member group_id target_id target
                    (lookup store.memberships (group_id, target_id)) store)))))

  unfoldable pub set_member_role :
      String → String → String → AssignableRole → Tables → Tables → GroupActionResult × Tables
  set_member_role actor_id group_id target_id role seen store =
      stop_if (not (is_cuid group_id && is_cuid target_id)) (error invalid_input, store)
        (require_group_role seen group_id actor_id owner store (λ actor group.
          given (lookup seen.memberships (group_id, target_id)) (error target_not_a_member, store)
            (λ target.
              stop_if (is_role target.role owner) (error owner_keeps_role, store)
                (stop_if (is_role target.role (role_of role)) (ok, store)
                  (update_role group_id target_id (role_of role)
                    (lookup store.memberships (group_id, target_id)) store)))))
