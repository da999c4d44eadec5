-- ===== src/StatusList/Tombstones.antt =====
-- The tombstone that a revocation writes, and that no later operation removes.
use minister.Common.{
  ℕ, String, ◌≡◌, refl, ap, ◌∙◌, inl, inr, true, Option, none, some, List, [], ◌∷◌, Bool-cases, In,
  In-nil, here, there, Entries, lookup, lookup-insert, string_eq, same_refl, ◌==◌,
}
use minister.StatusList.Registry.{
  StatusEntry, ShardRow, Registry, AllocatedStatus, roll, is_set, add_entry, allocate_new,
  allocate_or, allocate_status_entry, upsert_revocation, revoke_status_anchor, Call, allocate_call,
  revoke_call, perform, perform_all,
}

-- An anchor that is revoked, with all its entries.
unfoldable pub IsDead : String → Registry → Type 0
IsDead anchor store =
    (is_set (lookup store.revocations anchor) ≡ true)
    × ((e : StatusEntry)
        → In e store.entries
        → e.status_anchor ≡ anchor
        → is_set e.revoked_at ≡ true)

-- The tombstones that a state has, a later one has too.
upsert-stays :
    (found : Option ℕ) (now : ℕ) (anchor k : String) (revocations : Entries String ℕ)
    → lookup revocations anchor ≡ found
    → is_set (lookup revocations k) ≡ true
    → is_set (lookup (upsert_revocation found now anchor revocations) k) ≡ true
unfolding upsert_revocation is_set
upsert-stays (some t) now anchor k revocations e h = h
upsert-stays none now anchor k revocations e h =
    rw (lookup-insert revocations anchor k now)
      (elim (Bool-cases (anchor == k)) [ inl same ↦ rw same refl | inr differs ↦ rw differs h ])

upsert-own :
    (found : Option ℕ) (now : ℕ) (anchor : String) (revocations : Entries String ℕ)
    → lookup revocations anchor ≡ found
    → is_set (lookup (upsert_revocation found now anchor revocations) anchor) ≡ true
unfolding upsert_revocation is_set
upsert-own (some t) now anchor revocations e = rw e refl
upsert-own none now anchor revocations e =
    rw (lookup-insert revocations anchor anchor now, same_refl anchor) refl

add_entry-revocations :
    (now : ℕ) (revoked_at : Option ℕ) (e : Option StatusEntry) (shards : List ShardRow)
    (store : Registry)
    → (add_entry now revoked_at e shards store).1.revocations ≡ store.revocations
unfolding add_entry
add_entry-revocations now revoked_at none shards store = refl
add_entry-revocations now revoked_at (some e) shards store = refl

roll-revocations :
    (now : ℕ) (revoked_at : Option ℕ) (e : Option StatusEntry) (shards : List ShardRow)
    (store : Registry) (next : Option AllocatedStatus × Registry)
    → next.1.revocations ≡ store.revocations
    → (roll now revoked_at e shards store next).1.revocations ≡ store.revocations
unfolding roll
roll-revocations now revoked_at none shards store next h = h
roll-revocations now revoked_at (some e) shards store next h =
    add_entry-revocations now revoked_at (some e) shards store

allocate_or-revocations :
    (found : Option AllocatedStatus) (now : ℕ) (anchor client : String) (revoked_at : Option ℕ)
    (new : Option AllocatedStatus × Registry) (store : Registry)
    → new.1.revocations ≡ store.revocations
    → (allocate_or found now anchor client revoked_at new store).1.revocations ≡ store.revocations
unfolding allocate_or
allocate_or-revocations (some place) now anchor client revoked_at new store h = refl
allocate_or-revocations none now anchor client revoked_at new store h = h

perform-stays :
    (now : ℕ) (call : Call) (store : Registry) (k : String)
    → is_set (lookup store.revocations k) ≡ true
    → is_set (lookup (perform now call store).revocations k) ≡ true
unfolding perform allocate_status_entry allocate_new revoke_status_anchor
perform-stays now (allocate_call id next_id draws more anchor client) store k h =
    ap (λ rs. is_set (lookup rs k))
      (allocate_or-revocations _ now anchor client _ _ store
        (roll-revocations now _ _ _ store _ (add_entry-revocations now _ _ _ store)))
    ∙ h
perform-stays now (revoke_call jitter anchor) store k h =
    upsert-stays (lookup store.revocations anchor) now anchor k store.revocations refl h

perform_all-stays :
    (calls : List (ℕ × Call)) (store : Registry) (k : String)
    → is_set (lookup store.revocations k) ≡ true
    → is_set (lookup (perform_all calls store).revocations k) ≡ true
unfolding perform_all
perform_all-stays [] store k h = h
perform_all-stays ((now, call) ∷ calls) store k h =
    perform_all-stays calls (perform now call store) k (perform-stays now call store k h)

pub perform_all-revoked :
    (calls : List (ℕ × Call)) (store : Registry) (now : ℕ) (jitter : StatusEntry → ℕ)
    (anchor : String)
    → In (now, revoke_call jitter anchor) calls
    → is_set (lookup (perform_all calls store).revocations anchor) ≡ true
unfolding perform_all perform revoke_status_anchor
perform_all-revoked [] store now jitter anchor m = absurd (In-nil m)
perform_all-revoked (c ∷ calls) store now jitter anchor here =
    perform_all-stays calls (revoke_status_anchor jitter now anchor store) anchor
      (upsert-own (lookup store.revocations anchor) now anchor store.revocations refl)
perform_all-revoked ((t, call) ∷ calls) store now jitter anchor (there m) =
    perform_all-revoked calls (perform t call store) now jitter anchor m
