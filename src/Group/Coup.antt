-- ===== src/Group/Coup.antt =====
-- Who may change who has a say in a group.
use minister.Common.{
  String, ◌≡◌, refl, ◌≢◌, inl, inr, Bool, true, false, not, ◌&&◌, Option, none, some, arith,
  Bool-cases, Entries, lookup, lookup-insert, lookup-erase, string_eq, pair_eq, same_pair,
  same_pair_iff, if◌then◌else◌, given-rule, stop_if-rule,
}
use minister.Group.{
  GroupRole, member, admin, owner, Group, Membership, Tables, GroupError, GroupActionResult, error,
  AssignableRole, as_admin, as_member, role_of, is_role, role_rank, role_at_least, is_member,
  require_group_role, insert_member, delete_member,
}
use minister.Group.Operations.{
  create_group, delete_group, rename_group, edit_group, add_member, remove_member, set_member_role,
}
use minister.Group.Owners.{is_owner_row}
use minister.Group.Actions.{
  Action, founding, deleting, renaming, editing, adding, removing, assigning, perform,
  require_group_role-rule,
}

-- An admin or an owner.
unfoldable pub is_officer : Option Membership → Bool
is_officer none = false
is_officer (some m) = role_at_least m.role admin

-- The caller of an action on a group is not its owner. To found a group is no such action.
unfoldable pub IsByOther : Action → Tables → Type 0
IsByOther (founding now user group mid slug name description config bucket) store = ⊥
IsByOther (deleting now user group) store =
    is_owner_row (lookup store.memberships (group, user)) ≡ false
IsByOther (renaming user group name) store =
    is_owner_row (lookup store.memberships (group, user)) ≡ false
IsByOther (editing user group description) store =
    is_owner_row (lookup store.memberships (group, user)) ≡ false
IsByOther (adding actor group mid target role) store =
    is_owner_row (lookup store.memberships (group, actor)) ≡ false
IsByOther (removing actor group target) store =
    is_owner_row (lookup store.memberships (group, actor)) ≡ false
IsByOther (assigning actor group target role) store =
    is_owner_row (lookup store.memberships (group, actor)) ≡ false

-- Two views of the tables have the same officers and the same groups.
unfoldable pub HaveSameOfficers : Tables → Tables → Type 0
HaveSameOfficers before after =
    (before.groups ≡ after.groups)
    × ((key : String × String)
        → is_officer (lookup after.memberships key) ≡ is_officer (lookup before.memberships key))

below_owner : (r : GroupRole) → is_role r owner ≡ false → role_at_least r owner ≢ true
unfolding is_role role_at_least role_rank
below_owner member h e = cc
below_owner admin h e = cc
below_owner owner h e = cc

plain_role :
    (r : GroupRole)
    → is_role r admin ≡ false
    → is_role r owner ≡ false
    → role_at_least r admin ≡ false
unfolding is_role role_at_least role_rank
plain_role member h k = refl
plain_role admin h k = cc
plain_role owner h k = cc

not_the_owner :
    (found : Option Membership) (caller : Membership)
    → found ≡ some caller
    → is_owner_row found ≡ false
    → is_role caller.role owner ≡ false
unfolding is_owner_row
not_the_owner found caller e h = rw e at h

no_grant :
    (role : AssignableRole) (actor : GroupRole)
    → is_role actor owner ≡ false
    → (is_role (role_of role) admin && not (is_role actor owner)) ≡ false
    → role_of role ≡ member
unfolding role_of is_role role_rank
no_grant as_member actor h k = refl
no_grant as_admin actor h k = absurd (cc)

no_removal :
    (target actor : GroupRole)
    → is_role actor owner ≡ false
    → (is_role target admin && not (is_role actor owner)) ≡ false
    → is_role target admin ≡ false
no_removal target actor h k = ground (arith, h, k)

target-plain :
    (m : Membership) (found : Option Membership) (actor : GroupRole)
    → found ≡ some m
    → is_role m.role owner ≡ false
    → is_role actor owner ≡ false
    → (is_role m.role admin && not (is_role actor owner)) ≡ false
    → is_officer found ≡ false
unfolding is_officer
target-plain m found actor e plain other removed =
    rw e (plain_role m.role (no_removal m.role actor other removed) plain)

absent-officer : (found : Option Membership) → is_member found ≡ false → is_officer found ≡ false
unfolding is_member is_officer
absent-officer none h = refl
absent-officer (some m) h = cc

same-HaveSameOfficers : (store : Tables) → HaveSameOfficers store store
unfolding HaveSameOfficers
same-HaveSameOfficers store = (refl, λ key. refl)

-- A change of one membership from a plain or missing one to another such.
changed-officers :
    (memberships after : Entries (String × String) Membership) (at : String × String)
    (new : Option Membership)
    → is_officer new ≡ false
    → is_officer (lookup memberships at) ≡ false
    → ((key : String × String)
        → lookup after key ≡ (if same_pair at key then new else lookup memberships key))
    → (key : String × String) → is_officer (lookup after key) ≡ is_officer (lookup memberships key)
changed-officers memberships after at new plain old changed key =
    elim (Bool-cases (same_pair at key)) [
      | inl same ↦
          let p : at ≡ key = (same_pair_iff at key).0 same in
          let q : is_officer (lookup memberships key) ≡ false = rw p at old in
          rw (changed key, same, q) plain
      | inr differs ↦ rw (changed key, differs) refl
    ]

insert_member-officers :
    (group_id slug mid user_id : String) (store : Tables)
    → HaveSameOfficers store (insert_member group_id slug mid user_id member store).1
unfolding insert_member HaveSameOfficers is_officer role_at_least role_rank
insert_member-officers group_id slug mid user_id store =
    let P = λ (out : GroupActionResult × Tables). HaveSameOfficers store out.1 in
    stop_if-rule P _ _ _ (λ _. (refl, λ key. refl))
      (λ absent.
        stop_if-rule P _ _ _ (λ _. (refl, λ key. refl))
          (λ _. (
            refl,
            changed-officers store.memberships _ (group_id, user_id)
                (some (record { id = mid; role = member })) refl
                (absent-officer (lookup store.memberships (group_id, user_id)) absent)
                (λ key. lookup-insert store.memberships (group_id, user_id) key _),
          )))

insert_plain-officers :
    (group_id slug mid user_id : String) (role : GroupRole) (store : Tables)
    → role ≡ member
    → HaveSameOfficers store (insert_member group_id slug mid user_id role store).1
insert_plain-officers group_id slug mid user_id role store e =
    rw e (insert_member-officers group_id slug mid user_id store)

delete_member-officers :
    (group_id user_id : String) (target : Membership) (found : Option Membership) (store : Tables)
    → is_officer (lookup store.memberships (group_id, user_id)) ≡ false
    → HaveSameOfficers store (delete_member group_id user_id target found store).1
unfolding delete_member HaveSameOfficers is_officer
delete_member-officers group_id user_id target none store plain = (refl, λ key. refl)
delete_member-officers group_id user_id target (some row) store plain = (
  refl,
  changed-officers store.memberships _ (group_id, user_id) none refl plain
      (λ key. lookup-erase store.memberships (group_id, user_id) key),
)

module _ (is_cuid : String → Bool) (to_lower : String → String) (is_reserved : String → Bool) where
  owners_only :
      (P : GroupActionResult × Tables → Type 0) (group_id user_id : String) (store : Tables)
      (k : GroupRole → Group → GroupActionResult × Tables)
      → is_owner_row (lookup store.memberships (group_id, user_id)) ≡ false
      → ((e : GroupError) → P (error e, store))
      → P (require_group_role store group_id user_id owner store k)
  owners_only P group_id user_id store k other e =
      require_group_role-rule P store store group_id user_id owner k e
        (λ caller row is_caller _ high. absurd (
          below_owner caller.role
            (not_the_owner (lookup store.memberships (group_id, user_id)) caller is_caller other)
            high))

  -- Nobody but its owner changes who is an admin or an owner of a group: an action on a group by any
  -- other user, read and written in the same tables, leaves every group as it is and every membership
  -- of any group an admin's or an owner's exactly if it was one.
  pub perform-HaveSameOfficers :
      (action : Action) (store : Tables)
      → IsByOther action store
      → HaveSameOfficers store (perform is_cuid to_lower is_reserved action store store).1
  unfolding perform create_group delete_group rename_group edit_group add_member remove_member
      set_member_role IsByOther
  perform-HaveSameOfficers (founding now user group mid slug name description config bucket) store
        other =
      absurd other
  perform-HaveSameOfficers (deleting now user group) store other =
      let P = λ (out : GroupActionResult × Tables). HaveSameOfficers store out.1 in
      let k = same-HaveSameOfficers store in
      stop_if-rule P _ _ _ (λ _. k) (λ _. owners_only P group user store _ other (λ _. k))
  perform-HaveSameOfficers (renaming user group name) store other =
      let P = λ (out : GroupActionResult × Tables). HaveSameOfficers store out.1 in
      let k = same-HaveSameOfficers store in
      stop_if-rule P _ _ _ (λ _. k)
        (λ _. given-rule P _ _ _ (λ _. k) (λ _ _. owners_only P group user store _ other (λ _. k)))
  perform-HaveSameOfficers (editing user group description) store other =
      let P = λ (out : GroupActionResult × Tables). HaveSameOfficers store out.1 in
      let k = same-HaveSameOfficers store in
      stop_if-rule P _ _ _ (λ _. k)
        (λ _. given-rule P _ _ _ (λ _. k) (λ _ _. owners_only P group user store _ other (λ _. k)))
  perform-HaveSameOfficers (adding actor group mid target role) store other =
      let P = λ (out : GroupActionResult × Tables). HaveSameOfficers store out.1 in
      let k = same-HaveSameOfficers store in
      stop_if-rule P _ _ _ (λ _. k)
        (λ _.
          require_group_role-rule P store store _ _ _ _ (λ _. k)
            (λ caller row is_caller _ _.
              stop_if-rule P _ _ _ (λ _. k)
                (λ granted.
                  stop_if-rule P _ _ _ (λ _. k)
                    (λ _.
                      stop_if-rule P _ _ _ (λ _. k)
                        (λ _. insert_plain-officers group row.slug mid target (role_of role) store (
                          no_grant role caller.role
                            (not_the_owner (lookup store.memberships (group, actor)) caller
                              is_caller other)
                            granted))))))
  perform-HaveSameOfficers (removing actor group target) store other =
      let P = λ (out : GroupActionResult × Tables). HaveSameOfficers store out.1 in
      let k = same-HaveSameOfficers store in
      stop_if-rule P _ _ _ (λ _. k)
        (λ _.
          require_group_role-rule P store store _ _ _ _ (λ _. k)
            (λ caller row is_caller _ _.
              given-rule P _ _ _ (λ _. k)
                (λ m is_target.
                  stop_if-rule P _ _ _ (λ _. k)
                    (λ plain.
                      stop_if-rule P _ _ _ (λ _. k)
                        (λ removed. delete_member-officers group target m _ store (
                          target-plain m (lookup store.memberships (group, target)) caller.role
                            is_target plain
                            (not_the_owner (lookup store.memberships (group, actor)) caller
                              is_caller other)
                            removed))))))
  perform-HaveSameOfficers (assigning actor group target role) store other =
      let P = λ (out : GroupActionResult × Tables). HaveSameOfficers store out.1 in
      let k = same-HaveSameOfficers store in
      stop_if-rule P _ _ _ (λ _. k) (λ _. owners_only P group actor store _ other (λ _. k))
