-- ===== src/Oidc/Claims/Disclosed.antt =====
-- What a badge is that an app is told about.
use minister.Common.{
  ℕ, String, ◌≡◌, refl, ◌⊎◌, inl, inr, Bool, true, Option, none, some, List, [], ◌∷◌, Bool-cases,
  keep, arith, includes, includes→In, eq_iff, In, here, there, In-cases, In-nil, keep-In, lookup,
  string_eq, pair_eq, Entries, ◌==◌, given-rule,
}
use minister.Oidc.Store.{AccessToken, Badge, Store}
use minister.Oidc.Claims.{
  Mint, Omission, omitted, Disclosure, disclosed, add_disclosed, is_disclosable, owner_handle,
  truthy, group_id, with_nullifier, with_role, with_status, disclose_badge, disclose_all,
  load_approved_badge_jwts, group_membership_badge_type, no_owner_handle, disclose_failed,
  drift_detected, no_group_id, no_membership, no_status_entry,
}

disclosable :
    (issuer user_id : String) (ids : List String) (row : Badge)
    → is_disclosable issuer user_id ids row ≡ true
    → (row.user_id ≡ user_id) × (includes row.id ids ≡ true) × (row.issuer ≡ issuer)
unfolding is_disclosable
disclosable issuer user_id ids row h =
    ground (arith, eq_iff row.user_id user_id, eq_iff row.issuer issuer)

module _ (disclose : String → String → String → Option String)
    (is_consistent : String → String → String → Bool)
    (allocate : String → String → Option (String × ℕ)) (pairwise_jti : String → String → String)
    (re_mint : Mint → Option String) where
  -- A nullifier stands exactly on a badge with a ledger entry: the owner's for this client, and the one
  -- that was recorded first.
  unfoldable pub HasNullifier : Option String → String → Option String → Option String → Type 0
  HasNullifier handle client_id none nullifier = nullifier ≡ none
  HasNullifier handle client_id (some entry) nullifier =
      (owner : String) × (tag : String) × (handle ≡ some owner)
      × (disclose entry owner client_id ≡ some tag)
      × (is_consistent entry client_id tag ≡ true)
      × (nullifier ≡ some tag)

  -- A badge of a group states the role that its user has in it now.
  unfoldable pub HasRole : Store → String → Badge → Option String → Type 0
  HasRole store user_id row role =
      (row.badge_type == group_membership_badge_type) ≡ true
      → (id : String) × (current : String) × (group_id row.attributes ≡ some id)
        × (lookup store.memberships (id, user_id) ≡ some current)
        × (role ≡ some current)

  -- A badge that can be revoked carries its handle for this client.
  unfoldable pub HasStatus : String → Option String → Option (String × ℕ) → Type 0
  HasStatus client_id none status = status ≡ none
  HasStatus client_id (some anchor) status =
      (entry : String × ℕ) × (allocate anchor client_id ≡ some entry) × (status ≡ some entry)

  -- The mint of a disclosed badge, from its row.
  unfoldable pub IsMintOf : Store → Option String → String → String → String → Badge → Mint → Type 0
  IsMintOf store handle user_id client_id sub row m =
      (m.vc_jwt ≡ row.vc_jwt)
      × (m.sub ≡ sub)
      × (m.jti ≡ pairwise_jti row.id client_id)
      × (m.max_expires_at ≡ row.expires_at)
      × HasNullifier handle client_id (truthy row.nullifier_ref) m.nullifier
      × HasRole store user_id row m.role
      × HasStatus client_id (truthy row.status_anchor) m.status

  unfoldable IsFrom : Store → Option String → String → String → String → Badge → Disclosure → Type 0
  IsFrom store handle user_id client_id sub row (disclosed jwt) =
      (m : Mint) × (re_mint m ≡ some jwt) × IsMintOf store handle user_id client_id sub row m
  IsFrom store handle user_id client_id sub row (omitted reason) = Unit

  with_nullifier-rule :
      (P : Disclosure → Type 0) (handle : Option String) (client_id : String)
      (entry : Option String) (k : Option String → Disclosure)
      → ((reason : Omission) → P (omitted reason))
      → ((nullifier : Option String)
          → HasNullifier handle client_id entry nullifier
          → P (k nullifier))
      → P (
          with_nullifier disclose is_consistent allocate pairwise_jti re_mint handle client_id entry
            k)
  unfolding with_nullifier HasNullifier
  with_nullifier-rule P handle client_id none k o h = h none refl
  with_nullifier-rule P handle client_id (some entry) k o h =
      given-rule P _ _ _ (λ _. o no_owner_handle)
        (λ owner has_owner.
          given-rule P _ _ _ (λ _. o disclose_failed)
            (λ tag has_tag. elim (Bool-cases (is_consistent entry client_id tag)) [
              | inl same ↦ rw same (h (some tag) (owner, tag, has_owner, has_tag, same, refl))
              | inr drifts ↦ rw drifts (o drift_detected)
            ]))

  with_role-rule :
      (P : Disclosure → Type 0) (store : Store) (user_id : String) (row : Badge)
      (k : Option String → Disclosure)
      → ((reason : Omission) → P (omitted reason))
      → ((role : Option String) → HasRole store user_id row role → P (k role))
      → P (with_role disclose is_consistent allocate pairwise_jti re_mint store user_id row k)
  unfolding with_role HasRole
  with_role-rule P store user_id row k o h =
      elim (Bool-cases (row.badge_type == group_membership_badge_type)) [
        | inl group ↦ rw group (
            given-rule P _ _ _ (λ _. o no_group_id)
              (λ id has_id.
                given-rule P _ _ _ (λ _. o no_membership)
                  (λ role member. h (some role) (λ _. (id, role, has_id, member, refl)))))
        | inr other ↦ rw other (h none (λ group. absurd (cc)))
      ]

  with_status-rule :
      (P : Disclosure → Type 0) (client_id : String) (anchor : Option String)
      (k : Option (String × ℕ) → Disclosure)
      → ((reason : Omission) → P (omitted reason))
      → ((status : Option (String × ℕ)) → HasStatus client_id anchor status → P (k status))
      → P (with_status disclose is_consistent allocate pairwise_jti re_mint client_id anchor k)
  unfolding with_status HasStatus
  with_status-rule P client_id none k o h = h none refl
  with_status-rule P client_id (some anchor) k o h =
      given-rule P _ _ _ (λ _. o no_status_entry)
        (λ entry has_entry. h (some entry) (entry, has_entry, refl))

  module _ (store : Store) (handle : Option String) (user_id client_id sub : String) where
    disclose_badge-IsFrom :
        (row : Badge)
        → IsFrom store handle user_id client_id sub row (
            disclose_badge disclose is_consistent allocate pairwise_jti re_mint store handle user_id
              client_id sub row)
    unfolding disclose_badge IsFrom IsMintOf
    disclose_badge-IsFrom row =
        let P = IsFrom store handle user_id client_id sub row in
        with_nullifier-rule P _ _ _ _ (λ _. tt)
          (λ nullifier has_nullifier.
            with_role-rule P _ _ _ _ (λ _. tt)
              (λ role has_role.
                with_status-rule P _ _ _ (λ _. tt)
                  (λ status has_status.
                    given-rule P _ _ _ (λ _. tt)
                      (λ jwt minted. (
                        record {
                          vc_jwt = row.vc_jwt;
                          sub = sub;
                          jti = pairwise_jti row.id client_id;
                          max_expires_at = row.expires_at;
                          nullifier = nullifier;
                          role = role;
                          status = status;
                        },
                        minted,
                        (refl, refl, refl, refl, has_nullifier, has_role, has_status),
                      )))))

    add_disclosed-In :
        (row : Badge) (d : Disclosure) (jwt : String) (jwts : List String)
        → IsFrom store handle user_id client_id sub row d
        → In jwt (add_disclosed d jwts)
        → In jwt jwts
          ⊎ ((m : Mint) × (re_mint m ≡ some jwt)
              × IsMintOf store handle user_id client_id sub row m)
    unfolding add_disclosed IsFrom
    add_disclosed-In row (disclosed new) jwt jwts from i = elim (In-cases i) [
      | inl same ↦ inr (rw same from)
      | inr later ↦ inl later
    ]
    add_disclosed-In row (omitted reason) jwt jwts from i = inl i

    disclose_all-In :
        (rows : List Badge) (jwt : String)
        → In jwt (
            disclose_all disclose is_consistent allocate pairwise_jti re_mint store handle user_id
              client_id sub rows)
        → (row : Badge) × (m : Mint) × In row rows
          × (re_mint m ≡ some jwt)
          × IsMintOf store handle user_id client_id sub row m
    unfolding disclose_all
    disclose_all-In [] jwt i = absurd (In-nil i)
    disclose_all-In (row ∷ rows) jwt i =
        elim (add_disclosed-In row _ jwt _ (disclose_badge-IsFrom row) i) [
          | inl later ↦
              let (r, m, at, minted, is_mint) = disclose_all-In rows jwt later in
              (r, m, there at, minted, is_mint)
          | inr (m, minted, is_mint) ↦ (row, m, here, minted, is_mint)
        ]

  -- Every badge that an app is told about is what the mint answers for a badge of the user that was
  -- approved and that Minister itself has issued; the mint is asked for the subject, a badge id of this
  -- app and the stored end, with the nullifier, the role and the status entry of the row.
  pub load_approved_badge_jwts-In :
      (store : Store) (issuer user_id client_id sub : String) (ids : List String) (jwt : String)
      → In jwt (
          load_approved_badge_jwts disclose is_consistent allocate pairwise_jti re_mint store issuer
            user_id client_id sub ids)
      → (row : Badge) × (m : Mint) × In row store.badges
        × (row.user_id ≡ user_id)
        × In row.id ids
        × (row.issuer ≡ issuer)
        × (re_mint m ≡ some jwt)
        × IsMintOf store (owner_handle (lookup store.users user_id)) user_id client_id sub row m
  unfolding load_approved_badge_jwts
  load_approved_badge_jwts-In store issuer user_id client_id sub ids jwt i =
      let (row, m, at, minted, is_mint) =
        disclose_all-In store (owner_handle (lookup store.users user_id)) user_id client_id sub
          (keep (is_disclosable issuer user_id ids) store.badges) jwt i in
      let (stored, able) = keep-In (is_disclosable issuer user_id ids) row store.badges at in
      let (owned, approved, issued) = disclosable issuer user_id ids row able in
      (row, m, stored, owned, includes→In row.id ids approved, issued, minted, is_mint)

  disclose_all-ignores :
      (store : Store) (tokens : Entries String AccessToken) (handle : Option String)
      (user_id client_id sub : String) (rows : List Badge)
      → disclose_all disclose is_consistent allocate pairwise_jti re_mint
          (record store { tokens = tokens })
          handle
          user_id
          client_id
          sub
          rows
        ≡ disclose_all disclose is_consistent allocate pairwise_jti re_mint store handle user_id
            client_id sub rows
  unfolding disclose_all disclose_badge with_role
  disclose_all-ignores store tokens handle user_id client_id sub [] = refl
  disclose_all-ignores store tokens handle user_id client_id sub (row ∷ rows) =
      rw (disclose_all-ignores store tokens handle user_id client_id sub rows) refl

  pub load_approved_badge_jwts-ignores :
      (store : Store) (tokens : Entries String AccessToken) (issuer user_id client_id sub : String)
      (ids : List String)
      → load_approved_badge_jwts disclose is_consistent allocate pairwise_jti re_mint
          (record store { tokens = tokens })
          issuer
          user_id
          client_id
          sub
          ids
        ≡ load_approved_badge_jwts disclose is_consistent allocate pairwise_jti re_mint store issuer
            user_id client_id sub ids
  unfolding load_approved_badge_jwts
  load_approved_badge_jwts-ignores store tokens issuer user_id client_id sub ids =
      disclose_all-ignores store tokens _ user_id client_id sub _
