-- ===== src/Group/Owners.antt =====
-- The owner of a group is a member of it with that role, and the only one.
use minister.Common.{
  ℕ, String, ◌≡◌, ◌≢◌, refl, sym, ap, ◌∙◌, inl, inr, Bool, true, false, Option, none, some, [], ◌∷◌,
  arith, Bool-cases, Entries, lookup, lookup-insert, lookup-erase, string_eq, pair_eq, same_pair,
  same_pair_iff, ◌==◌, eq_iff, if◌then◌else◌, stop_if-rule,
}
use minister.Group.{
  GroupRole, owner, Group, Membership, Tables, GroupActionResult, is_role, role_rank, is_member,
  insert_group, without_group, delete_rows, update_group, insert_member, delete_member, update_role,
}

unfoldable pub is_owner_row : Option Membership → Bool
is_owner_row none = false
is_owner_row (some m) = is_role m.role owner

unfoldable pub AreOwned : Entries String Group → Entries (String × String) Membership → Type 0
AreOwned groups memberships =
    (group_id : String) (group : Group)
    → lookup groups group_id ≡ some group
    → (user_id : String)
    → is_owner_row (lookup memberships (group_id, user_id)) ≡ (user_id == group.owner_user_id)

unfoldable pub IsOwned : Tables → Type 0
IsOwned store = AreOwned store.groups store.memberships

-- A group has one owner in two views of the tables that both have it.
unfoldable pub HaveSameOwners : Tables → Tables → Type 0
HaveSameOwners seen store =
    (group_id : String) (a b : Group)
    → lookup seen.groups group_id ≡ some a
    → lookup store.groups group_id ≡ some b
    → a.owner_user_id ≡ b.owner_user_id

-- A change of one membership that is not the owner's, to none or to one with another role.
changed-AreOwned :
    (groups : Entries String Group) (memberships after : Entries (String × String) Membership)
    (group_id user_id : String) (new : Option Membership)
    → AreOwned groups memberships
    → is_owner_row new ≡ false
    → ((group : Group)
        → lookup groups group_id ≡ some group
        → (user_id == group.owner_user_id) ≡ false)
    → ((g u : String)
        → lookup after (g, u)
          ≡ (if same_pair (group_id, user_id) (g, u) then new else lookup memberships (g, u)))
    → AreOwned groups after
unfolding AreOwned
changed-AreOwned groups memberships after group_id user_id new h plain other changed g group found
      u =
    elim (Bool-cases (same_pair (group_id, user_id) (g, u))) [
      | inl same ↦
          let p : ◌≡◌ {A = String × String} (group_id, user_id) (g, u) =
            (same_pair_iff (group_id, user_id) (g, u)).0 same in
          let in_group : group_id ≡ g = ap (λ (k : String × String). k.0) p in
          let is_user : user_id ≡ u = ap (λ (k : String × String). k.1) p in
          let not_owner : (u == group.owner_user_id) ≡ false =
            rw is_user at (other group (rw (← in_group) at found)) in
          rw (changed g u, same, plain) (sym not_owner)
      | inr differs ↦ rw (changed g u, differs) (h g group found u)
    ]

pub stranger :
    (groups : Entries String Group) (memberships : Entries (String × String) Membership)
    (group_id user_id : String) (group : Group)
    → AreOwned groups memberships
    → lookup groups group_id ≡ some group
    → is_owner_row (lookup memberships (group_id, user_id)) ≡ false
    → (user_id == group.owner_user_id) ≡ false
unfolding AreOwned
stranger groups memberships group_id user_id group h found plain =
    sym (h group_id group found user_id) ∙ plain

absent-row : (found : Option Membership) → is_member found ≡ false → is_owner_row found ≡ false
unfolding is_member is_owner_row
absent-row none h = refl
absent-row (some m) h = cc

owner_kept :
    (row new group : Group)
    → some new ≡ some group
    → new.owner_user_id ≡ row.owner_user_id
    → group.owner_user_id ≡ row.owner_user_id
owner_kept row new group e k = cc

pub insert_member-IsOwned :
    (group_id slug membership_id user_id : String) (role : GroupRole) (store : Tables)
    → is_role role owner ≡ false
    → IsOwned store
    → IsOwned (insert_member group_id slug membership_id user_id role store).1
unfolding insert_member IsOwned is_owner_row
insert_member-IsOwned group_id slug membership_id user_id role store plain h =
    let P = λ (out : GroupActionResult × Tables). IsOwned out.1 in
    stop_if-rule P _ _ _ (λ _. h)
      (λ absent.
        stop_if-rule P _ _ _ (λ _. h)
          (λ _.
            changed-AreOwned store.groups store.memberships _ group_id user_id
              (some (record { id = membership_id; role = role })) h plain
              (λ group found.
                stranger store.groups store.memberships group_id user_id group h found
                  (absent-row (lookup store.memberships (group_id, user_id)) absent))
              (λ g u. lookup-insert store.memberships (group_id, user_id) (g, u) _)))

pub delete_member-IsOwned :
    (group_id user_id : String) (target : Membership) (found : Option Membership) (store : Tables)
    → ((group : Group)
        → lookup store.groups group_id ≡ some group
        → (user_id == group.owner_user_id) ≡ false)
    → IsOwned store
    → IsOwned (delete_member group_id user_id target found store).1
unfolding delete_member IsOwned is_owner_row
delete_member-IsOwned group_id user_id target none store other h = h
delete_member-IsOwned group_id user_id target (some row) store other h =
    changed-AreOwned store.groups store.memberships _ group_id user_id none h refl other
      (λ g u. lookup-erase store.memberships (group_id, user_id) (g, u))

pub update_role-IsOwned :
    (group_id user_id : String) (role : GroupRole) (found : Option Membership) (store : Tables)
    → is_role role owner ≡ false
    → ((group : Group)
        → lookup store.groups group_id ≡ some group
        → (user_id == group.owner_user_id) ≡ false)
    → IsOwned store
    → IsOwned (update_role group_id user_id role found store).1
unfolding update_role IsOwned is_owner_row
update_role-IsOwned group_id user_id role none store plain other h = h
update_role-IsOwned group_id user_id role (some row) store plain other h =
    changed-AreOwned store.groups store.memberships _ group_id user_id
      (some (record { id = row.id; role = role })) h plain other
      (λ g u. lookup-insert store.memberships (group_id, user_id) (g, u) _)

pub update_group-IsOwned :
    (group_id : String) (f : Group → Group) (found : Option Group) (store : Tables)
    → lookup store.groups group_id ≡ found
    → ((row : Group) → (f row).owner_user_id ≡ row.owner_user_id)
    → IsOwned store
    → IsOwned (update_group group_id f found store).1
unfolding update_group IsOwned AreOwned
update_group-IsOwned group_id f none store e keeps h = h
update_group-IsOwned group_id f (some row) store e keeps h = λ g group found u.
    elim (Bool-cases (group_id == g)) [
      | inl same ↦
          let p : group_id ≡ g = (eq_iff group_id g).0 same in
          let q =
            owner_kept row (f row) group
              (rw (lookup-insert store.groups group_id g (f row), same) at found) (keeps row) in
          rw q (h g row (rw p at e) u)
      | inr differs ↦
          h g group (rw (lookup-insert store.groups group_id g (f row), differs) at found) u
    ]

nothing : {group : Group} → none ≢ some group
nothing e = cc

other_group :
    (key : String × String) (group_id g u : String)
    → key.0 ≡ group_id
    → (group_id == g) ≡ false
    → same_pair key (g, u) ≡ false
unfolding same_pair
other_group key group_id g u p h = rw (p, h) refl

owner_is : (row group : Group) → some group ≡ some row → row.owner_user_id ≡ group.owner_user_id
owner_is row group e = cc

founder-owner :
    (user_id owner_id u : String)
    → owner_id ≡ user_id
    → (user_id == u) ≡ true
    → true ≡ (u == owner_id)
founder-owner user_id owner_id u own e = ground (arith, eq_iff user_id u, eq_iff u owner_id, own)

other-owner :
    (user_id owner_id u : String)
    → owner_id ≡ user_id
    → (user_id == u) ≡ false
    → false ≡ (u == owner_id)
other-owner user_id owner_id u own e = ground (arith, eq_iff user_id u, eq_iff u owner_id, own)

without_group-other :
    (group_id g u : String) (memberships : Entries (String × String) Membership)
    → (group_id == g) ≡ false
    → lookup (without_group group_id memberships) (g, u) ≡ lookup memberships (g, u)
unfolding without_group lookup
without_group-other group_id g u [] h = refl
without_group-other group_id g u ((key, m) ∷ memberships) h =
    let rest = without_group-other group_id g u memberships h in
    elim (Bool-cases (key.0 == group_id)) [
      | inl same ↦
          let elsewhere : same_pair key (g, u) ≡ false =
            other_group key group_id g u ((eq_iff key.0 group_id).0 same) h in
          rw (same, elsewhere) rest
      | inr differs ↦ rw (differs, rest) refl
    ]

pub delete_rows-IsOwned :
    (now : ℕ) (group_id : String) (group : Group) (store : Tables)
    → IsOwned store
    → IsOwned (delete_rows now group_id group store)
unfolding delete_rows IsOwned AreOwned
delete_rows-IsOwned now group_id deleted store h = λ g group found u.
    elim (Bool-cases (group_id == g)) [
      | inl same ↦ absurd (nothing (rw (lookup-erase store.groups group_id g, same) at found))
      | inr differs ↦
          rw (without_group-other group_id g u store.memberships differs)
            (h g group (rw (lookup-erase store.groups group_id g, differs) at found) u)
    ]

pub insert_group-IsOwned :
    (group_id membership_id user_id : String) (group : Group) (store : Tables)
    → group.owner_user_id ≡ user_id
    → ((u : String) → lookup store.memberships (group_id, u) ≡ none)
    → IsOwned store
    → IsOwned (insert_group group_id membership_id user_id group store).1
unfolding insert_group IsOwned AreOwned same_pair is_owner_row is_role role_rank
insert_group-IsOwned group_id membership_id user_id group store own fresh h =
    let P = λ (out : GroupActionResult × Tables). IsOwned out.1 in
    stop_if-rule P _ _ _ (λ _. h)
      (λ _. λ g row found u.
        let m : Membership = record { id = membership_id; role = owner } in
        elim (Bool-cases (group_id == g)) [
          | inl same ↦
              let p : group_id ≡ g = (eq_iff group_id g).0 same in
              let o =
                owner_is row group (rw (lookup-insert store.groups group_id g group, same) at found)
                ∙ own in
              elim (Bool-cases (user_id == u)) [
                | inl founder ↦
                    rw (lookup-insert store.memberships (group_id, user_id) (g, u) m, same, founder)
                      (founder-owner user_id row.owner_user_id u o founder)
                | inr other ↦
                    rw (lookup-insert store.memberships (group_id, user_id) (g, u) m, same, other)
                      (rw (rw p at fresh u) (other-owner user_id row.owner_user_id u o other))
              ]
          | inr differs ↦
              rw (lookup-insert store.memberships (group_id, user_id) (g, u) m, differs)
                (h g row (rw (lookup-insert store.groups group_id g group, differs) at found) u)
        ])
