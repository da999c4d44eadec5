-- ===== src/Merge/Chain.antt =====
-- A donor that is itself the survivor of an earlier merge.
use minister.Common.{
  ℕ, String, ◌≡◌, refl, sym, ◌∙◌, ◌≢◌, inl, inr, Bool, true, false, not, Option, none, some, List,
  [], ◌∷◌, ◌++◌, arith, map, keep, all-In, Bool-cases, Option-cases, Entries, lookup, insert,
  lookup-insert, includes, includes→In, In→includes, In-keep, string_eq, pair_eq, same_pair,
  same_pair_iff, ◌==◌, eq_iff, if◌then◌else◌, given-rule, stop_if-rule,
}
use minister.Merge.{User, Tables}
use minister.Merge.Forward.{MergeResult, merged, snapshot_of, same_clients, merge_accounts}
use minister.Merge.Donor.{
  clients_of, keys_under, move_overrides, create_if_absent, then_create, create_overrides, with_sub,
}

-- Whichever way a test goes, there is something.
some_or :
    {A : Type 0} (b : Bool) (a : A) (o : Option A) → o ≢ none → (if b then some a else o) ≢ none
some_or true a o h = λ e. cc
some_or false a o h = h

same_parts :
    (key : String × String) (a b : String)
    → same_pair key (a, b) ≡ true
    → ((key.0 == a) ≡ true) × ((key.1 == b) ≡ true)
unfolding same_pair
same_parts key a b h = ground (arith, h)

keys_under-includes :
    {V : Type 0} (user_id client : String) (entries : Entries (String × String) V) (v : V)
    → lookup entries (user_id, client) ≡ some v
    → includes client (keys_under user_id entries) ≡ true
unfolding keys_under lookup
keys_under-includes user_id client [] v h = cc
keys_under-includes user_id client ((key, w) ∷ entries) v h =
    elim (Bool-cases (same_pair key (user_id, client))) [
      | inl this ↦ let (own, same) = same_parts key user_id client this in rw (own, same) refl
      | inr other ↦
          let rest = keys_under-includes user_id client entries v (rw other at h) in
          elim (Bool-cases (key.0 == user_id)) [
            | inl own ↦ rw (own, rest) (ground arith)
            | inr foreign ↦ rw foreign rest
          ]
    ]

some-none : {A : Type 0} {a : A} → some a ≢ none
some-none e = cc

same_pair_refl : (a b : String) → same_pair (a, b) (a, b) ≡ true
same_pair_refl a b = (same_pair_iff (a, b) (a, b)).1 refl

move_overrides-there :
    (donor survivor client sub : String) (clients : List String)
    (overrides : Entries (String × String) String)
    → includes client clients ≡ true
    → lookup overrides (donor, client) ≡ some sub
    → lookup (move_overrides donor survivor clients overrides) (survivor, client) ≢ none
unfolding move_overrides lookup
move_overrides-there donor survivor client sub clients [] m h = λ e. cc
move_overrides-there donor survivor client sub clients ((key, s) ∷ overrides) m h =
    elim (Bool-cases (same_pair key (donor, client))) [
      | inl this ↦
          let (own, same) = same_parts key donor client this in
          let p : key.1 ≡ client = (eq_iff key.1 client).0 same in
          let listed : includes key.1 clients ≡ true = rw (← p) at m in
          rw (own, listed, p, same_pair_refl survivor client) (λ e. some-none e)
      | inr other ↦
          some_or _ _ _
            (move_overrides-there donor survivor client sub clients overrides m (rw other at h))
    ]

create_overrides-clash :
    (survivor client : String) (created : Entries String String)
    (overrides : Entries (String × String) String)
    → includes client (map (λ e. e.0) created) ≡ true
    → lookup overrides (survivor, client) ≢ none
    → create_overrides survivor created overrides ≡ none
unfolding create_overrides create_if_absent then_create
create_overrides-clash survivor client [] overrides m h = cc
create_overrides-clash survivor client ((c, sub) ∷ created) overrides m h =
    elim (Option-cases (lookup overrides (survivor, c))) [
      | inr (old, there_is) ↦ rw there_is refl
      | inl missing ↦ elim (Bool-cases (c == client)) [
        | inl same ↦ let p : c ≡ client = (eq_iff c client).0 same in absurd (h (rw p at missing))
        | inr differs ↦
            let later : includes client (map (λ e. e.0) created) ≡ true = rw differs at m in
            rw missing (
              create_overrides-clash survivor client created (insert overrides (survivor, c) sub)
                later
                (rw (lookup-insert overrides (survivor, c) (survivor, client) sub) (
                  some_or (same_pair (survivor, c) (survivor, client)) sub
                    (lookup overrides (survivor, client)) h)))
      ]
    ]

with_sub-keys :
    (f : String → String) (clients : List String) → map (λ e. e.0) (with_sub f clients) ≡ clients
unfolding with_sub
with_sub-keys f [] = refl
with_sub-keys f (c ∷ clients) = rw (with_sub-keys f clients) refl

includes-right :
    (c : String) (xs ys : List String) → includes c (xs ++ ys) ≡ false → includes c ys ≡ false
includes-right c [] ys h = h
includes-right c (x ∷ xs) ys h = includes-right c xs ys (ground (arith, h))

includes-keep :
    (p : String → Bool) (c : String) (xs : List String)
    → includes c xs ≡ true
    → p c ≡ true
    → includes c (keep p xs) ≡ true
includes-keep p c xs m e = In→includes (In-keep p (includes→In c xs m) e)

same_clients-includes :
    (before current : List String) (c : String)
    → not (same_clients before current) ≡ false
    → includes c current ≡ true
    → includes c before ≡ true
unfolding same_clients
same_clients-includes before current c same m =
    all-In (λ d. includes d before) {xs = current} (ground (arith, same)) (includes→In c current m)

snapshot-clash :
    (survivor_id donor_id client sub : String) (survivor : User) (donor_sub : String → String)
    (before used : List String) (store : Tables)
    → lookup store.overrides (donor_id, client) ≡ some sub
    → includes client before ≡ true
    → includes client used ≡ false
    → includes client (keys_under survivor_id store.overrides) ≡ false
    → let snap = snapshot_of survivor_id donor_id survivor donor_sub before used store in
      create_overrides survivor_id snap.overrides_created
        (move_overrides donor_id survivor_id snap.override_moved store.overrides)
      ≡ none
unfolding snapshot_of
snapshot-clash survivor_id donor_id client sub survivor donor_sub before used store held active
      unused free =
    create_overrides-clash survivor_id client _ _
      (rw (with_sub-keys donor_sub (keep (λ c. not (includes c used)) before))
        (includes-keep (λ c. not (includes c used)) client before active (rw unused refl)))
      (move_overrides-there donor_id survivor_id client sub _ store.overrides
        (includes-keep (λ c. not (includes c (keys_under survivor_id store.overrides))) client
          (keys_under donor_id store.overrides)
          (keys_under-includes donor_id client store.overrides sub held) (rw free refl))
        held)

module _ (donor_sub : String → String) where
  -- Let the donor hold an override of its subject at some client, as the survivor of an earlier
  -- merge does, and a token of that client, which the survivor has not used: it has no token and no
  -- override there. Then no merge of the two succeeds, at whatever time and with whatever was read
  -- before it. (The donor's override moves to the survivor, and the one that is created for the
  -- client has its key.)
  pub merge_accounts-clash :
      (now : ℕ) (id survivor_id donor_id client sub merge_id : String) (seen store : Tables)
      → lookup store.overrides (donor_id, client) ≡ some sub
      → includes client (clients_of donor_id store.rows.tokens) ≡ true
      → includes client
          (clients_of survivor_id store.rows.tokens ++ keys_under survivor_id store.overrides)
        ≡ false
      → (merge_accounts donor_sub now id survivor_id donor_id seen store).0 ≢ merged merge_id
  unfolding merge_accounts
  merge_accounts-clash now id survivor_id donor_id client sub merge_id seen store held active
        unused =
      let P = λ (out : MergeResult × Tables). out.0 ≢ merged merge_id in
      stop_if-rule P _ _ _ (λ _. λ e. cc)
        (λ _.
          given-rule P _ _ _ (λ _. λ e. cc)
            (λ survivor _.
              given-rule P _ _ _ (λ _. λ e. cc)
                (λ donor _.
                  stop_if-rule P _ _ _ (λ _. λ e. cc)
                    (λ _.
                      stop_if-rule P _ _ _ (λ _. λ e. cc)
                        (λ same.
                          given-rule P _ _ _ (λ _. λ e. cc)
                            (λ overrides created. absurd (
                              some-none (
                                sym created
                                ∙ snapshot-clash survivor_id donor_id client sub survivor donor_sub
                                    _ _ store held (same_clients-includes _ _ client same active)
                                    unused
                                    (includes-right client
                                      (clients_of survivor_id store.rows.tokens)
                                      (keys_under survivor_id store.overrides) unused)))))))))
