-- ===== src/StatusList/Steps.antt =====
-- Allocations and revocations, in any order.
use minister.Common.{
  ℕ, String, ◌≡◌, ◌⊎◌, refl, sym, ap, ◌∙◌, inl, inr, true, false, not, Option, none, some, List, [],
  ◌+◌, ◌∷◌, map, any, arith, Bool-cases, Option-cases, map-In, In, Entries, lookup, lookup-insert,
  string_eq, eq_iff, ◌==◌,
}
use minister.StatusList.Registry.{
  StatusEntry, ShardRow, Registry, AllocatedStatus, entry_in, roll, is_entry_of, find_existing,
  is_set, allocate_in_shard, add_entry, allocate_new, allocate_or, allocate_status_entry,
  upsert_revocation, revoke_entries, revoke_status_anchor, Call, allocate_call, revoke_call,
  perform, perform_all,
}
use minister.StatusList.Revoked.{
  is_at, AreApart, AreRevoked, AreSound, stamp, stamp-same, stamp-keeps, stamp-sets, stamp-AreApart,
  revoke_test, or_revoked-AreRevoked, or_revoked-AreApart, same-AreRevoked, none-of, draw_bit-free,
  some-none, some-same,
}
use minister.StatusList.Tombstones.{IsDead, perform_all-revoked}

entry_in-AreApart :
    (shard : ShardRow) (anchor client : String) (revoked_at : Option ℕ) (bit : Option ℕ)
    (entries : List StatusEntry) (e : StatusEntry)
    → entry_in shard anchor client revoked_at bit ≡ some e
    → ((b : ℕ) → bit ≡ some b → any (is_at shard.id b) entries ≡ false)
    → any (is_entry_of anchor client) entries ≡ false
    → AreApart entries
    → AreApart (e ∷ entries)
unfolding entry_in AreApart
entry_in-AreApart shard anchor client revoked_at none entries e h free fresh apart =
    absurd (some-none (sym h))
entry_in-AreApart shard anchor client revoked_at (some b) entries e h free fresh apart =
    let q = some-same h in rw (← q) ((fresh, free b refl, apart))

-- A new entry is apart from the others.
in_shard-AreApart :
    (shard : ShardRow) (anchor client : String) (revoked_at : Option ℕ) (draws : List ℕ)
    (entries : List StatusEntry) (e : StatusEntry)
    → allocate_in_shard shard anchor client revoked_at draws entries ≡ some e
    → any (is_entry_of anchor client) entries ≡ false
    → AreApart entries
    → AreApart (e ∷ entries)
unfolding allocate_in_shard
in_shard-AreApart shard anchor client revoked_at draws entries e h fresh apart =
    entry_in-AreApart shard anchor client revoked_at _ entries e h
      (λ b p. draw_bit-free shard.id _ entries b p) fresh apart

add_entry-AreSound :
    (now : ℕ) (revoked_at : Option ℕ) (e : StatusEntry) (shards : List ShardRow) (store : Registry)
    → AreApart (e ∷ store.entries)
    → AreSound store
    → AreSound (add_entry now revoked_at (some e) shards store).1
unfolding AreSound add_entry
add_entry-AreSound now revoked_at e shards store apart sound = (
  or_revoked-AreApart _ now e.status_anchor e.client_id (e ∷ store.entries) apart,
  or_revoked-AreRevoked now (is_set revoked_at) store.revocations e store.entries sound.1,
)

none-AreSound :
    (now : ℕ) (revoked_at : Option ℕ) (shards : List ShardRow) (store : Registry)
    → AreSound store
    → AreSound (add_entry now revoked_at none shards store).1
unfolding AreSound add_entry
none-AreSound now revoked_at shards store sound = sound

entries-apart : (store : Registry) → AreSound store → AreApart store.entries
unfolding AreSound
entries-apart store sound = sound.0

module _ (now : ℕ) (anchor client : String) (revoked_at : Option ℕ) (store : Registry)
    (sound : AreSound store) (fresh : any (is_entry_of anchor client) store.entries ≡ false) where
  added-AreSound :
      (shard : ShardRow) (draws : List ℕ) (shards : List ShardRow)
      → AreSound
          (add_entry now revoked_at
            (allocate_in_shard shard anchor client revoked_at draws store.entries)
            shards
            store).1
  added-AreSound shard draws shards =
      elim (Option-cases (allocate_in_shard shard anchor client revoked_at draws store.entries)) [
        | inl p ↦ rw p (none-AreSound now revoked_at shards store sound)
        | inr (e, p) ↦ rw p (
            add_entry-AreSound now revoked_at e shards store
              (in_shard-AreApart shard anchor client revoked_at draws store.entries e p fresh
                (entries-apart store sound))
              sound)
      ]

  roll-AreSound :
      (e : Option StatusEntry) (shards : List ShardRow) (next : Option AllocatedStatus × Registry)
      → AreSound (add_entry now revoked_at e shards store).1
      → AreSound next.1
      → AreSound (roll now revoked_at e shards store next).1
  unfolding roll
  roll-AreSound none shards next h k = k
  roll-AreSound (some e) shards next h k = h

  allocate_new-AreSound :
      (id next_id : String) (draws more : List ℕ)
      → AreSound (allocate_new now id next_id draws more anchor client revoked_at store).1
  unfolding allocate_new
  allocate_new-AreSound id next_id draws more =
      roll-AreSound _ _ _ (added-AreSound _ draws _) (added-AreSound _ more _)

allocate_or-AreSound :
    (found : Option AllocatedStatus) (now : ℕ) (anchor client : String) (revoked_at : Option ℕ)
    (new : Option AllocatedStatus × Registry) (store : Registry)
    → AreSound store
    → (found ≡ none → AreSound new.1)
    → AreSound (allocate_or found now anchor client revoked_at new store).1
unfolding allocate_or AreSound
allocate_or-AreSound none now anchor client revoked_at new store sound h = h refl
allocate_or-AreSound (some place) now anchor client revoked_at new store sound h = (
  or_revoked-AreApart (is_set revoked_at) now anchor client store.entries sound.0,
  same-AreRevoked (is_set revoked_at) now anchor client store.revocations store.entries sound.1,
)

allocate-AreSound :
    (now : ℕ) (id next_id : String) (draws more : List ℕ) (anchor client : String)
    (store : Registry)
    → AreSound store
    → AreSound (allocate_status_entry now id next_id draws more anchor client store).1
unfolding allocate_status_entry
allocate-AreSound now id next_id draws more anchor client store sound =
    allocate_or-AreSound (find_existing anchor client store.entries) now anchor client _ _ store
      sound
      (λ p.
        allocate_new-AreSound now anchor client _ store sound
          (none-of anchor client store.entries p) id next_id draws more)

upsert-set :
    (found : Option ℕ) (now : ℕ) (anchor other_anchor : String) (revocations : Entries String ℕ)
    → (anchor == other_anchor) ≡ false
    → lookup (upsert_revocation found now anchor revocations) other_anchor
      ≡ lookup revocations other_anchor
unfolding upsert_revocation
upsert-set none now anchor other_anchor revocations h =
    rw (lookup-insert revocations anchor other_anchor now, h) refl
upsert-set (some t) now anchor other_anchor revocations h = refl

revoke-test-own :
    (anchor : String) (e : StatusEntry)
    → (e.status_anchor == anchor) ≡ true
    → revoke_test anchor e ≡ not (is_set e.revoked_at)
revoke-test-own anchor e h = rw h refl

flip-same : (a b : String) → (a == b) ≡ (b == a)
flip-same a b = ground (arith, eq_iff a b, eq_iff b a)

upsert-cases :
    (found : Option ℕ) (now : ℕ) (anchor k : String) (revocations : Entries String ℕ)
    → is_set (lookup (upsert_revocation found now anchor revocations) k) ≡ true
    → ((k == anchor) ≡ true) ⊎ (is_set (lookup revocations k) ≡ true)
upsert-cases found now anchor k revocations h = elim (Bool-cases (anchor == k)) [
  | inl same ↦ inl (flip-same k anchor ∙ same)
  | inr differs ↦ inr (ap is_set (sym (upsert-set found now anchor k revocations differs)) ∙ h)
]

module _ (jitter : StatusEntry → ℕ) (now : ℕ) (anchor : String) where
  abbrev revoked : StatusEntry → StatusEntry
  revoked = stamp (revoke_test anchor) (λ _. some now) (λ e. some (now + jitter e))

  revoked-AreRevoked :
      (found : Option ℕ) (revocations : Entries String ℕ) (entries : List StatusEntry)
      → AreRevoked revocations entries
      → AreRevoked (upsert_revocation found now anchor revocations) (map revoked entries)
  unfolding AreRevoked is_set
  revoked-AreRevoked found revocations entries h x m r =
      let (old, n, p) = map-In revoked x entries m in
      let a : x.status_anchor ≡ old.status_anchor =
        ap (λ (y : StatusEntry). y.status_anchor) p
        ∙ stamp-same (revoke_test anchor) (λ _. some now) (λ e. some (now + jitter e))
            (λ y. y.status_anchor) old refl in
      ap (λ (y : StatusEntry). is_set y.revoked_at) p
      ∙ elim (upsert-cases found now anchor old.status_anchor revocations (
          ap (λ k. is_set (lookup (upsert_revocation found now anchor revocations) k)) (sym a)
          ∙ r)) [
            | inl own ↦
                stamp-sets (revoke_test anchor) (λ _. some now) (λ e. some (now + jitter e))
                  (λ _. refl) old (revoke-test-own anchor old own)
            | inr before ↦
                stamp-keeps (revoke_test anchor) (λ _. some now) (λ e. some (now + jitter e))
                  (λ _. refl) old (h old n before)
          ]

  revoke-AreSound :
      (store : Registry) → AreSound store → AreSound (revoke_status_anchor jitter now anchor store)
  unfolding AreSound revoke_status_anchor revoke_entries
  revoke-AreSound store sound = (
    stamp-AreApart (revoke_test anchor) (λ _. some now) (λ e. some (now + jitter e)) store.entries
        sound.0,
    revoked-AreRevoked (lookup store.revocations anchor) store.revocations store.entries sound.1,
  )

perform-AreSound :
    (now : ℕ) (call : Call) (store : Registry) → AreSound store → AreSound (perform now call store)
unfolding perform
perform-AreSound now (allocate_call id next_id draws more anchor client) store sound =
    allocate-AreSound now id next_id draws more anchor client store sound
perform-AreSound now (revoke_call jitter anchor) store sound =
    revoke-AreSound jitter now anchor store sound

steps-AreSound :
    (calls : List (ℕ × Call)) (store : Registry)
    → AreSound store
    → AreSound (perform_all calls store)
unfolding perform_all
steps-AreSound [] store sound = sound
steps-AreSound ((now, call) ∷ calls) store sound =
    steps-AreSound calls (perform now call store) (perform-AreSound now call store sound)

-- Allocations and revocations, each as one step, in any order and at any times, with any random
-- draws. If it was so before, then every entry of an anchor with a tombstone is revoked, an app has
-- at most one entry for an anchor, and no two entries share a bit of a list. And each anchor that
-- was the subject of a revocation, however early, has its tombstone at the end, and all its entries
-- are revoked, also those that were allocated afterwards.
pub perform_all-AreSound :
    (calls : List (ℕ × Call)) (store : Registry)
    → AreSound store
    → AreSound (perform_all calls store)
      × ((now : ℕ) (jitter : StatusEntry → ℕ) (anchor : String)
          → In (now, revoke_call jitter anchor) calls
          → IsDead anchor (perform_all calls store))
unfolding IsDead AreSound AreRevoked
perform_all-AreSound calls store sound =
    let end : AreSound (perform_all calls store) = steps-AreSound calls store sound in
    (
      end,
      λ now jitter anchor m.
          let dead = perform_all-revoked calls store now jitter anchor m in
          (
            dead,
            λ e at own.
                end.1 e at
                  (ap (λ k. is_set (lookup (perform_all calls store).revocations k)) own ∙ dead),
          ),
    )
