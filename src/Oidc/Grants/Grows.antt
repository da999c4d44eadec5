-- ===== src/Oidc/Grants/Grows.antt =====
-- A grant keeps what it had, adds what a consent gives, and has nothing else.
use minister.Common.{
  String, ◌≡◌, refl, Bool, true, false, ◌&&◌, ◌||◌, Option, List, [], ◌∷◌, ◌++◌, arith, inl, inr,
  Bool-cases, lookup, lookup-insert, includes, add, includes-add, string_eq, same_pair,
  same_pair_iff, pair_eq,
}
use minister.Oidc.Store.{Grant, Store}
use minister.Oidc.Grants.{
  or_empty_grant, load_grant, add_all, union_types, merge_grant, upsert_grant,
}

includes-concat :
    (t : String) (a b : List String) → includes t (a ++ b) ≡ (includes t a || includes t b)
includes-concat t [] b = refl
includes-concat t (x ∷ xs) b = ground (arith, includes-concat t xs b)

includes-add_all :
    (t : String) (xs out : List String)
    → includes t (add_all xs out) ≡ (includes t out || includes t xs)
unfolding add_all
includes-add_all t [] out = ground arith
includes-add_all t (x ∷ xs) out =
    ground (arith, includes-add_all t xs (add x out), includes-add t x out)

pub includes-union_types :
    (t : String) (a b : List String) → includes t (union_types a b) ≡ (includes t a || includes t b)
unfolding union_types
includes-union_types t a b = ground (arith, includes-add_all t (a ++ b) [], includes-concat t a b)

-- A grant after a consent: what was granted before, and where the consent is for it, what it gives.
unfoldable pub IsMerged : Bool → Grant → Grant → Grant → Type 0
IsMerged here before given after =
    ((t : String)
      → includes t after.badge_types
        ≡ (includes t before.badge_types || (here && includes t given.badge_types)))
    × ((t : String)
        → includes t after.badge_ids
          ≡ (includes t before.badge_ids || (here && includes t given.badge_ids)))
    × (after.profile_name ≡ (before.profile_name || (here && given.profile_name)))
    × (after.profile_avatar ≡ (before.profile_avatar || (here && given.profile_avatar)))
    × (after.sybil_score ≡ (before.sybil_score || (here && given.sybil_score)))

merge_grant-IsMerged :
    (existing : Option Grant) (given : Grant)
    → IsMerged true (or_empty_grant existing) given (merge_grant existing given)
unfolding IsMerged merge_grant
merge_grant-IsMerged existing given = (
  (λ t. includes-union_types t (or_empty_grant existing).badge_types given.badge_types),
  (λ t. includes-union_types t (or_empty_grant existing).badge_ids given.badge_ids),
  refl,
  refl,
  refl,
)

or_false : (a b : Bool) → a ≡ (a || (false && b))
or_false a b = ground arith

same-IsMerged : (grant given : Grant) → IsMerged false grant given grant
unfolding IsMerged
same-IsMerged grant given = (
  (λ t. or_false _ true),
  (λ t. or_false _ true),
  or_false _ true,
  or_false _ true,
  or_false _ true,
)

-- The grant of any user to any app after a consent is the merge of the one before with what the consent
-- gives, where the consent is of this user for this app: the badge types and ids of either, and each of
-- the name, the avatar and the sybil score that was granted in either. Any other grant stays as it was.
upsert_grant-IsMerged :
    (user_id client_id other_user other_client : String) (given : Grant) (store : Store)
    → IsMerged
        (same_pair (user_id, client_id) (other_user, other_client))
        (load_grant store other_user other_client)
        given
        (load_grant (upsert_grant user_id client_id given store) other_user other_client)
unfolding upsert_grant load_grant or_empty_grant
upsert_grant-IsMerged user_id client_id other_user other_client given store =
    let key : String × String = (user_id, client_id) in
    let other : String × String = (other_user, other_client) in
    let merged = merge_grant (lookup store.grants key) given in
    elim (Bool-cases (same_pair key other)) [
      | inl same ↦
          let p : key ≡ other = (same_pair_iff key other).0 same in
          rw (lookup-insert store.grants key other merged, same)
            (rw (← p) (merge_grant-IsMerged (lookup store.grants key) given))
      | inr differs ↦
          rw (lookup-insert store.grants key other merged, differs)
            (same-IsMerged (or_empty_grant (lookup store.grants other)) given)
    ]
