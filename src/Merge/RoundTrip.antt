-- ===== src/Merge/RoundTrip.antt =====
-- A merge that is reversed at once leaves every moved row with its owner.
use minister.Common.{
  ℕ, ◌+◌, ◌<◌, String, ◌≡◌, refl, true, false, ◌||◌, none, some, List, arith, leb, Entries, lookup,
  insert, lookup-insert, same_refl, eq_iff, string_eq, ◌==◌, given, stop_if, given-rule,
  stop_if-rule,
}
use minister.Merge.{Row, User, Rows, MergeRecord, Tables, keys_of, move, restore, primary_keys_of}
use minister.Merge.Moves.{
  AreUnique, keys_of-Selects, restore-move, restore_from-move, primary_keys_of-Selects,
  emails-again,
}
use minister.Merge.Forward.{
  MergeError, MergeResult, merged, failed, snapshot_of, merge_tables, merge_accounts,
  merge_reversal_ms,
}
use minister.Merge.Donor.{is_found, moved_rows, move_rows}
use minister.Merge.Reverse.{
  reversed, restore_rows, is_into, restore_survivor, reverse_tables, reverse_merge,
}

-- The keys of each table are unique.
unfoldable pub HaveUniqueKeys : Rows → Type 0
HaveUniqueKeys rows =
    AreUnique rows.badges
    × AreUnique rows.tokens
    × AreUnique rows.emails
    × AreUnique rows.share_links
    × AreUnique rows.wizard_sessions
    × AreUnique rows.recovery_codes
    × AreUnique rows.recovery_attempts
    × AreUnique rows.audit_logs
    × AreUnique rows.accounts
    × AreUnique rows.sessions
    × AreUnique rows.authenticators
    × AreUnique rows.owned_clients

table-again :
    {V : Type 0} (donor survivor : String) (rows : List (Row V))
    → AreUnique rows
    → restore (keys_of donor rows) donor (move donor survivor rows) ≡ rows
table-again donor survivor rows h =
    restore-move (keys_of donor rows) donor survivor rows (keys_of-Selects donor rows h)

restore_rows-move_rows :
    (donor survivor : String) (rows : Rows)
    → HaveUniqueKeys rows
    → restore_rows
        (moved_rows donor rows)
        survivor
        donor
        (primary_keys_of donor rows.emails)
        (move_rows donor survivor rows)
      ≡ rows
unfolding restore_rows moved_rows move_rows HaveUniqueKeys
restore_rows-move_rows donor survivor rows h =
    rw
      (
        table-again donor survivor rows.badges h.0,
        table-again donor survivor rows.tokens h.1,
        emails-again (keys_of donor rows.emails) (primary_keys_of donor rows.emails) donor survivor
            rows.emails (keys_of-Selects donor rows.emails h.2)
            (primary_keys_of-Selects donor rows.emails h.2),
        table-again donor survivor rows.share_links h.3,
        table-again donor survivor rows.wizard_sessions h.4,
        table-again donor survivor rows.recovery_codes h.5,
        table-again donor survivor rows.recovery_attempts h.6,
        table-again donor survivor rows.audit_logs h.7,
        table-again donor survivor rows.accounts h.8,
        table-again donor survivor rows.sessions h.9,
        restore_from-move (keys_of donor rows.authenticators) donor survivor rows.authenticators
            (keys_of-Selects donor rows.authenticators h.10),
        table-again donor survivor rows.owned_clients h.11,
      )
      refl

reverse_merge-steps :
    (now : ℕ) (id : String) (rec : MergeRecord) (survivor donor : User) (store : Tables)
    → lookup store.records id ≡ some rec
    → rec.reversed_at ≡ none
    → now < rec.reversible_until
    → lookup store.users rec.snapshot.donor_user_id ≡ some donor
    → is_into rec.snapshot.survivor_user_id donor.merged_into_user_id ≡ true
    → lookup store.users rec.snapshot.survivor_user_id ≡ some survivor
    → reverse_merge now id store store ≡ (reversed, reverse_tables now id rec survivor donor store)
unfolding reverse_merge given stop_if is_found
reverse_merge-steps now id rec survivor donor store found fresh in_time is_donor into is_survivor =
    let open_window : leb rec.reversible_until now ≡ false = ground (arith, in_time) in
    rw (found, fresh, open_window, is_donor, into, is_survivor) refl

flipped : (s t : String) → (s == t) ≡ false → (t == s) ≡ false
flipped s t h = ground (arith, eq_iff s t, eq_iff t s)

module _ (donor_sub : String → String) where
  -- The reversal of a merge with nothing in between.
  unfoldable pub IsReversible :
      ℕ → String → String → String → Tables → MergeResult × Tables → Type 0
  IsReversible now2 id survivor_id donor_id store (failed e, last) = last ≡ store
  IsReversible now2 id survivor_id donor_id store (merged merge_id, last) =
      (merge_id ≡ id)
      × ((final : Tables) × (survivor donor : User) × (reverse_merge now2 id last last
            ≡ (reversed, final))
          × (final.rows ≡ store.rows)
          × (lookup store.users survivor_id ≡ some survivor)
          × (lookup store.users donor_id ≡ some donor)
          × (lookup final.users survivor_id
              ≡ some (record survivor { session_generation = survivor.session_generation + 1 + 1 }))
          × (lookup final.users donor_id
              ≡ some (record donor {
                merged_into_user_id = none;
                merged_at = none;
                session_generation = donor.session_generation + 1 + 1;
              })))

  merged-IsReversible :
      (now now2 : ℕ) (id survivor_id donor_id : String) (survivor donor : User)
      (clients used : List String) (overrides : Entries (String × String) String) (store : Tables)
      → HaveUniqueKeys store.rows
      → now2 < now + merge_reversal_ms
      → (survivor_id == donor_id) ≡ false
      → (donor_id == survivor_id) ≡ false
      → lookup store.users survivor_id ≡ some survivor
      → lookup store.users donor_id ≡ some donor
      → IsReversible now2 id survivor_id donor_id store (
        merged id,
        merge_tables now id survivor_id donor_id survivor donor
            (snapshot_of survivor_id donor_id survivor donor_sub clients used store)
            overrides
            store,
      )
  unfolding IsReversible merge_tables snapshot_of reverse_tables restore_survivor is_into
  merged-IsReversible now now2 id survivor_id donor_id survivor donor clients used overrides store
        unique in_time apart apart2 is_survivor is_donor =
      let snap = snapshot_of survivor_id donor_id survivor donor_sub clients used store in
      let last = merge_tables now id survivor_id donor_id survivor donor snap overrides store in
      let rec : MergeRecord = record {
        snapshot = snap;
        reversible_until = now + merge_reversal_ms;
        reversed_at = none;
      } in
      let gone : User = record donor {
        merged_into_user_id = some survivor_id;
        merged_at = some now;
        session_generation = donor.session_generation + 1;
      } in
      let ahead : User = record survivor {
        is_banned = survivor.is_banned || donor.is_banned;
        session_generation = survivor.session_generation + 1;
      } in
      let is_ahead : lookup last.users survivor_id ≡ some ahead =
        rw
          (
            lookup-insert (insert store.users survivor_id ahead) donor_id survivor_id gone,
            apart2,
            lookup-insert store.users survivor_id survivor_id ahead,
            same_refl survivor_id,
          )
          refl in
      (
        refl,
        (
          reverse_tables now2 id rec ahead gone last,
          survivor,
          donor,
          reverse_merge-steps now2 id rec ahead gone last
              (rw (lookup-insert store.records id id rec, same_refl id) refl) refl in_time
              (rw
                (
                  lookup-insert (insert store.users survivor_id ahead) donor_id donor_id gone,
                  same_refl donor_id,
                )
                refl)
              (same_refl survivor_id) is_ahead,
          restore_rows-move_rows donor_id survivor_id store.rows unique,
          is_survivor,
          is_donor,
          (rw (lookup-insert, apart2, lookup-insert, same_refl survivor_id) refl),
          (rw (lookup-insert, same_refl donor_id) refl),
        ),
      )

  failed-IsReversible :
      (now2 : ℕ) (id survivor_id donor_id : String) (store : Tables) (e : MergeError)
      → IsReversible now2 id survivor_id donor_id store (failed e, store)
  unfolding IsReversible
  failed-IsReversible now2 id survivor_id donor_id store e = refl

  -- A merge of accounts, and its reversal before the window has passed and with nothing in between.
  -- If the merge fails, it changes nothing. If it succeeds, the reversal succeeds too, and every
  -- badge, token, email with its primary flag, share link, wizard session, recovery code and
  -- attempt, audit record, sign-in account, session, passkey and client is back with its owner, and
  -- both users are as they were, but for two more session generations, and the donor is not marked
  -- as merged. The keys of each table are unique.
  pub merge_accounts-IsReversible :
      (now now2 : ℕ) (id survivor_id donor_id : String) (seen store : Tables)
      → HaveUniqueKeys store.rows
      → now2 < now + merge_reversal_ms
      → IsReversible now2 id survivor_id donor_id store
          (merge_accounts donor_sub now id survivor_id donor_id seen store)
  unfolding merge_accounts
  merge_accounts-IsReversible now now2 id survivor_id donor_id seen store unique in_time =
      let P = IsReversible now2 id survivor_id donor_id store in
      let fails = λ (e : MergeError). failed-IsReversible now2 id survivor_id donor_id store e in
      stop_if-rule P _ _ _ (λ _. fails _)
        (λ apart.
          given-rule P _ _ _ (λ _. fails _)
            (λ survivor is_survivor.
              given-rule P _ _ _ (λ _. fails _)
                (λ donor is_donor.
                  stop_if-rule P _ _ _ (λ _. fails _)
                    (λ _.
                      stop_if-rule P _ _ _ (λ _. fails _)
                        (λ _.
                          given-rule P _ _ _ (λ _. fails _)
                            (λ overrides _.
                              merged-IsReversible now now2 id survivor_id donor_id survivor donor _
                                _ overrides store unique in_time apart
                                (flipped survivor_id donor_id apart) is_survivor is_donor))))))
