-- ===== src/Group/Actions.antt =====
-- The actions on groups, each with what it has read, and the owner that they keep.
use minister.Common.{
  ℕ, String, ◌≡◌, refl, Bool, true, false, Option, none, some, arith, lookup, string_eq, pair_eq,
  ◌==◌, given-rule, stop_if-rule,
}
use minister.Group.{
  GroupRole, owner, Group, Membership, Tables, GroupConfig, GroupError, GroupActionResult, error,
  AssignableRole, as_admin, as_member, role_of, is_role, role_rank, role_at_least,
  require_group_role,
}
use minister.Group.Operations.{
  create_group, delete_group, rename_group, edit_group, add_member, remove_member, set_member_role,
}
use minister.Group.Owners.{
  is_owner_row, IsOwned, HaveSameOwners, stranger, insert_member-IsOwned, delete_member-IsOwned,
  update_role-IsOwned, update_group-IsOwned, delete_rows-IsOwned, insert_group-IsOwned,
}

-- A call of an action with its arguments, the caller's id before the others.
pub data Action : Type 0 where
  founding :
      ℕ
      → String
      → String
      → String
      → String
      → String
      → Option String
      → Option GroupConfig
      → Option ℕ
      → Action
  deleting : ℕ → String → String → Action
  renaming : String → String → String → Action
  editing : String → String → Option String → Action
  adding : String → String → String → String → AssignableRole → Action
  removing : String → String → String → Action
  assigning : String → String → String → AssignableRole → Action

-- The id of a new group is new.
unfoldable pub IsFresh : Action → Tables → Type 0
IsFresh (founding now user group mid slug name description config bucket) store =
    (u : String) → lookup store.memberships (group, u) ≡ none
IsFresh _ store = Unit

role_of-plain : (role : AssignableRole) → is_role (role_of role) owner ≡ false
unfolding is_role role_of role_rank
role_of-plain as_admin = refl
role_of-plain as_member = refl

module _ (is_cuid : String → Bool) (to_lower : String → String) (is_reserved : String → Bool) where
  unfoldable pub perform : Action → Tables → Tables → GroupActionResult × Tables
  perform (founding now user group mid slug name description config bucket) seen store =
      create_group is_cuid to_lower is_reserved now user group mid slug name description config
        bucket seen store
  perform (deleting now user group) seen store =
      delete_group is_cuid to_lower is_reserved now user group seen store
  perform (renaming user group name) seen store =
      rename_group is_cuid to_lower is_reserved user group name seen store
  perform (editing user group description) seen store =
      edit_group is_cuid to_lower is_reserved user group description seen store
  perform (adding actor group mid target role) seen store =
      add_member is_cuid to_lower is_reserved actor group mid target role seen store
  perform (removing actor group target) seen store =
      remove_member is_cuid to_lower is_reserved actor group target seen store
  perform (assigning actor group target role) seen store =
      set_member_role is_cuid to_lower is_reserved actor group target role seen store

module _ (P : GroupActionResult × Tables → Type 0) (seen store : Tables) where
  -- What an action knows of its caller.
  pub require_group_role-rule :
      (group_id user_id : String) (floor : GroupRole)
      (k : GroupRole → Group → GroupActionResult × Tables)
      → ((e : GroupError) → P (error e, store))
      → ((caller : Membership) (group : Group)
          → lookup seen.memberships (group_id, user_id) ≡ some caller
          → lookup seen.groups group_id ≡ some group
          → role_at_least caller.role floor ≡ true
          → P (k caller.role group))
      → P (require_group_role seen group_id user_id floor store k)
  unfolding require_group_role
  require_group_role-rule group_id user_id floor k e h =
      given-rule P _ _ _ (λ _. e _)
        (λ caller is_caller.
          given-rule P _ _ _ (λ _. e _)
            (λ group is_group.
              stop_if-rule P _ _ _ (λ _. e _)
                (λ high. h caller group is_caller is_group (ground (arith, high)))))

target-not_owner :
    (seen store : Tables) (group_id target_id : String) (target : Membership) (group : Group)
    → IsOwned seen
    → HaveSameOwners seen store
    → lookup seen.groups group_id ≡ some group
    → lookup seen.memberships (group_id, target_id) ≡ some target
    → is_role target.role owner ≡ false
    → (found : Group) → lookup store.groups group_id ≡ some found
    → (target_id == found.owner_user_id) ≡ false
unfolding IsOwned HaveSameOwners is_owner_row
target-not_owner seen store group_id target_id target group h same is_group is_target plain found
      is_found =
    let owners : group.owner_user_id ≡ found.owner_user_id =
      same group_id group found is_group is_found in
    let apart : (target_id == group.owner_user_id) ≡ false =
      stranger seen.groups seen.memberships group_id target_id group h is_group
        (rw is_target plain) in
    rw owners at apart

module _ (is_cuid : String → Bool) (to_lower : String → String) (is_reserved : String → Bool) where
  -- Every group keeps exactly one owner among its members, the user that its row names: an action
  -- of any user leaves it so, if it is so in what the action has read and in the tables that its
  -- transaction meets, which may be later ones where a group still has the owner that it had; the
  -- id of a new group is new.
  pub perform-IsOwned :
      (action : Action) (seen store : Tables)
      → IsOwned seen
      → IsOwned store
      → HaveSameOwners seen store
      → IsFresh action store
      → IsOwned (perform is_cuid to_lower is_reserved action seen store).1
  unfolding perform create_group delete_group rename_group edit_group add_member remove_member
      set_member_role IsFresh
  perform-IsOwned (founding now user group mid slug name description config bucket) seen store h k
        same fresh =
      let P = λ (out : GroupActionResult × Tables). IsOwned out.1 in
      given-rule P _ _ _ (λ _. k)
        (λ _ _.
          given-rule P _ _ _ (λ _. k)
            (λ _ _.
              given-rule P _ _ _ (λ _. k)
                (λ _ _.
                  stop_if-rule P _ _ _ (λ _. k)
                    (λ _.
                      stop_if-rule P _ _ _ (λ _. k)
                        (λ _.
                          stop_if-rule P _ _ _ (λ _. k)
                            (λ _.
                              given-rule P _ _ _ (λ _. k)
                                (λ _ _.
                                  stop_if-rule P _ _ _ (λ _. k)
                                    (λ _.
                                      given-rule P _ _ _ (λ _. k)
                                        (λ _ _.
                                          stop_if-rule P _ _ _ (λ _. k)
                                            (λ _.
                                              insert_group-IsOwned group mid user _ store refl fresh
                                                k))))))))))
  perform-IsOwned (deleting now user group) seen store h k same fresh =
      let P = λ (out : GroupActionResult × Tables). IsOwned out.1 in
      stop_if-rule P _ _ _ (λ _. k)
        (λ _.
          require_group_role-rule P seen store _ _ _ _ (λ _. k)
            (λ _ _ _ _ _.
              given-rule P _ _ _ (λ _. k) (λ _ _. delete_rows-IsOwned now group _ store k)))
  perform-IsOwned (renaming user group name) seen store h k same fresh =
      let P = λ (out : GroupActionResult × Tables). IsOwned out.1 in
      stop_if-rule P _ _ _ (λ _. k)
        (λ _.
          given-rule P _ _ _ (λ _. k)
            (λ _ _.
              require_group_role-rule P seen store _ _ _ _ (λ _. k)
                (λ _ _ _ _ _. update_group-IsOwned group _ _ store refl (λ _. refl) k)))
  perform-IsOwned (editing user group description) seen store h k same fresh =
      let P = λ (out : GroupActionResult × Tables). IsOwned out.1 in
      stop_if-rule P _ _ _ (λ _. k)
        (λ _.
          given-rule P _ _ _ (λ _. k)
            (λ _ _.
              require_group_role-rule P seen store _ _ _ _ (λ _. k)
                (λ _ _ _ _ _. update_group-IsOwned group _ _ store refl (λ _. refl) k)))
  perform-IsOwned (adding actor group mid target role) seen store h k same fresh =
      let P = λ (out : GroupActionResult × Tables). IsOwned out.1 in
      stop_if-rule P _ _ _ (λ _. k)
        (λ _.
          require_group_role-rule P seen store _ _ _ _ (λ _. k)
            (λ _ _ _ _ _.
              stop_if-rule P _ _ _ (λ _. k)
                (λ _.
                  stop_if-rule P _ _ _ (λ _. k)
                    (λ _.
                      stop_if-rule P _ _ _ (λ _. k)
                        (λ _.
                          insert_member-IsOwned group _ mid target (role_of role) store
                            (role_of-plain role) k)))))
  perform-IsOwned (removing actor group target) seen store h k same fresh =
      let P = λ (out : GroupActionResult × Tables). IsOwned out.1 in
      stop_if-rule P _ _ _ (λ _. k)
        (λ _.
          require_group_role-rule P seen store _ _ _ _ (λ _. k)
            (λ caller row is_caller is_group _.
              given-rule P _ _ _ (λ _. k)
                (λ m is_target.
                  stop_if-rule P _ _ _ (λ _. k)
                    (λ plain.
                      stop_if-rule P _ _ _ (λ _. k)
                        (λ _.
                          delete_member-IsOwned group target m _ store
                            (target-not_owner seen store group target m row h same is_group
                              is_target plain)
                            k)))))
  perform-IsOwned (assigning actor group target role) seen store h k same fresh =
      let P = λ (out : GroupActionResult × Tables). IsOwned out.1 in
      stop_if-rule P _ _ _ (λ _. k)
        (λ _.
          require_group_role-rule P seen store _ _ _ _ (λ _. k)
            (λ caller row is_caller is_group _.
              given-rule P _ _ _ (λ _. k)
                (λ m is_target.
                  stop_if-rule P _ _ _ (λ _. k)
                    (λ plain.
                      stop_if-rule P _ _ _ (λ _. k)
                        (λ _.
                          update_role-IsOwned group target (role_of role) _ store
                            (role_of-plain role)
                            (target-not_owner seen store group target m row h same is_group
                              is_target plain)
                            k)))))
