-- ===== src/StatusList/Revoked.antt =====
-- No entry of a revoked anchor is live, and no two entries share a bit.
use minister.Common.{
  ℕ, String, ◌≡◌, ◌≢◌, refl, sym, ap, ◌∙◌, inl, inr, Bool, true, false, not, ◌&&◌, ◌||◌, Option,
  none, some, List, [], ◌∷◌, map, any, arith, nat_beq, if◌then◌else◌, Bool-cases, In, map-In,
  In-cases, Entries, lookup, string_eq, same_refl, ◌==◌,
}
use minister.StatusList.Registry.{
  StatusEntry, Registry, is_entry_of, find_existing, is_set, force_revoke_entry, draw_bit,
  or_revoked,
}

abbrev pub is_at : String → ℕ → StatusEntry → Bool
is_at list_id bit e = (e.list_id == list_id) && nat_beq e.bit_index bit

-- One entry for an anchor and a client, and one for a bit of a list.
unfoldable pub AreApart : List StatusEntry → Type 0
AreApart [] = Unit
AreApart (e ∷ es) =
    (any (is_entry_of e.status_anchor e.client_id) es ≡ false)
    × (any (is_at e.list_id e.bit_index) es ≡ false)
    × AreApart es

-- Every entry of an anchor that is revoked is revoked.
unfoldable pub AreRevoked : Entries String ℕ → List StatusEntry → Type 0
AreRevoked revocations entries =
    (e : StatusEntry)
    → In e entries
    → is_set (lookup revocations e.status_anchor) ≡ true
    → is_set e.revoked_at ≡ true

unfoldable pub AreSound : Registry → Type 0
AreSound store = AreApart store.entries × AreRevoked store.revocations store.entries

pub some-none : {A : Type 0} {a : A} → some a ≢ none
some-none e = cc

pub some-same : {A : Type 0} {a b : A} → some a ≡ some b → a ≡ b
some-same e = cc

not-both : (a b : Bool) → (a || b) ≡ false → b ≢ true
not-both a b h = ground arith

any-map :
    (p : StatusEntry → Bool) (g : StatusEntry → StatusEntry) (entries : List StatusEntry)
    → ((e : StatusEntry) → p (g e) ≡ p e)
    → any p (map g entries) ≡ any p entries
any-map p g [] h = refl
any-map p g (e ∷ es) h = rw (h e, any-map p g es h) refl

-- A change of the times of some entries.
module _ (test : StatusEntry → Bool) (revoked_at reveal_after : StatusEntry → Option ℕ) where
  abbrev pub stamp : StatusEntry → StatusEntry
  stamp e =
      if test e then record e { revoked_at = revoked_at e; reveal_after = reveal_after e } else e

  pub stamp-same :
      {A : Type 0} (field : StatusEntry → A) (e : StatusEntry)
      → field (record e { revoked_at = revoked_at e; reveal_after = reveal_after e }) ≡ field e
      → field (stamp e) ≡ field e
  stamp-same field e h = elim (Bool-cases (test e)) [
    | inl yes_it ↦ rw yes_it h
    | inr not_it ↦ rw not_it refl
  ]

  pub stamp-AreApart :
      (entries : List StatusEntry) → AreApart entries → AreApart (map stamp entries)
  unfolding AreApart is_entry_of
  stamp-AreApart [] h = tt
  stamp-AreApart (e ∷ es) h = (
    ap (λ a. any (is_entry_of a (stamp e).client_id) (map stamp es))
          (stamp-same (λ x. x.status_anchor) e refl)
        ∙ ap (λ c. any (is_entry_of e.status_anchor c) (map stamp es))
            (stamp-same (λ x. x.client_id) e refl)
        ∙ any-map (is_entry_of e.status_anchor e.client_id) stamp es
            (λ x. stamp-same (is_entry_of e.status_anchor e.client_id) x refl)
        ∙ h.0,
    ap (λ l. any (is_at l (stamp e).bit_index) (map stamp es)) (stamp-same (λ x. x.list_id) e refl)
        ∙ ap (λ b. any (is_at e.list_id b) (map stamp es)) (stamp-same (λ x. x.bit_index) e refl)
        ∙ any-map (is_at e.list_id e.bit_index) stamp es
            (λ x. stamp-same (is_at e.list_id e.bit_index) x refl)
        ∙ h.1,
    stamp-AreApart es h.2,
  )

  -- The times that are stamped are times.
  module _ (stamped : (e : StatusEntry) → is_set (revoked_at e) ≡ true) where
    pub stamp-keeps :
        (e : StatusEntry) → is_set e.revoked_at ≡ true → is_set (stamp e).revoked_at ≡ true
    stamp-keeps e h = elim (Bool-cases (test e)) [
      | inl yes_it ↦ rw yes_it (stamped e)
      | inr not_it ↦ rw not_it h
    ]

    pub stamp-sets :
        (e : StatusEntry) → test e ≡ not (is_set e.revoked_at) → is_set (stamp e).revoked_at ≡ true
    stamp-sets e h = elim (Bool-cases (is_set e.revoked_at)) [
      | inl set_it ↦ stamp-keeps e set_it
      | inr not_it ↦ let it : test e ≡ true = h ∙ ap not not_it in rw it (stamped e)
    ]

    pub stamp-AreRevoked :
        (revocations : Entries String ℕ) (entries : List StatusEntry)
        → AreRevoked revocations entries
        → AreRevoked revocations (map stamp entries)
    unfolding AreRevoked
    stamp-AreRevoked revocations entries h x m r =
        let (old, n, p) = map-In stamp x entries m in
        let a : x.status_anchor ≡ old.status_anchor =
          ap (λ (y : StatusEntry). y.status_anchor) p
          ∙ stamp-same (λ y. y.status_anchor) old refl in
        ap (λ (y : StatusEntry). is_set y.revoked_at) p
        ∙ stamp-keeps old (h old n (ap (λ k. is_set (lookup revocations k)) (sym a) ∙ r))

abbrev force_test : String → String → StatusEntry → Bool
force_test anchor client e = is_entry_of anchor client e && not (is_set e.revoked_at)

abbrev pub revoke_test : String → StatusEntry → Bool
revoke_test anchor e = (e.status_anchor == anchor) && not (is_set e.revoked_at)

cons-AreRevoked :
    (revocations : Entries String ℕ) (e : StatusEntry) (entries : List StatusEntry)
    → (is_set (lookup revocations e.status_anchor) ≡ true → is_set e.revoked_at ≡ true)
    → AreRevoked revocations entries
    → AreRevoked revocations (e ∷ entries)
unfolding AreRevoked
cons-AreRevoked revocations e entries head h x m r = elim (In-cases m) [
  | inl p ↦
      ap (λ (y : StatusEntry). is_set y.revoked_at) p
      ∙ head (ap (λ (y : StatusEntry). is_set (lookup revocations y.status_anchor)) (sym p) ∙ r)
  | inr later ↦ h x later r
]

own-test : (e : StatusEntry) → force_test e.status_anchor e.client_id e ≡ not (is_set e.revoked_at)
unfolding is_entry_of
own-test e = rw (same_refl e.status_anchor, same_refl e.client_id) refl

-- A new entry is revoked if its anchor is.
pub or_revoked-AreRevoked :
    (now : ℕ) (first : Bool) (revocations : Entries String ℕ) (e : StatusEntry)
    (entries : List StatusEntry)
    → AreRevoked revocations entries
    → AreRevoked revocations (
        or_revoked
          (first || is_set (lookup revocations e.status_anchor))
          now
          e.status_anchor
          e.client_id
          (e ∷ entries))
unfolding or_revoked force_revoke_entry is_set
or_revoked-AreRevoked now first revocations e entries h =
    let force = stamp (force_test e.status_anchor e.client_id) (λ _. some now) (λ _. some now) in
    elim (Bool-cases (first || is_set (lookup revocations e.status_anchor))) [
      | inl yes_it ↦ rw yes_it (
          cons-AreRevoked revocations (force e) (map force entries)
            (λ _.
              stamp-sets (force_test e.status_anchor e.client_id) (λ _. some now) (λ _. some now)
                (λ _. refl) e (own-test e))
            (stamp-AreRevoked (force_test e.status_anchor e.client_id) (λ _. some now)
              (λ _. some now) (λ _. refl) revocations entries h))
      | inr not_it ↦
          rw not_it
            (cons-AreRevoked revocations e entries (λ r. absurd (not-both first _ not_it r)) h)
    ]

pub or_revoked-AreApart :
    (flag : Bool) (now : ℕ) (anchor client : String) (entries : List StatusEntry)
    → AreApart entries
    → AreApart (or_revoked flag now anchor client entries)
unfolding or_revoked force_revoke_entry
or_revoked-AreApart true now anchor client entries h =
    stamp-AreApart (force_test anchor client) (λ _. some now) (λ _. some now) entries h
or_revoked-AreApart false now anchor client entries h = h

pub same-AreRevoked :
    (flag : Bool) (now : ℕ) (anchor client : String) (revocations : Entries String ℕ)
    (entries : List StatusEntry)
    → AreRevoked revocations entries
    → AreRevoked revocations (or_revoked flag now anchor client entries)
unfolding or_revoked force_revoke_entry is_set
same-AreRevoked true now anchor client revocations entries h =
    stamp-AreRevoked (force_test anchor client) (λ _. some now) (λ _. some now) (λ _. refl)
      revocations entries h
same-AreRevoked false now anchor client revocations entries h = h

pub none-of :
    (anchor client : String) (entries : List StatusEntry)
    → find_existing anchor client entries ≡ none
    → any (is_entry_of anchor client) entries ≡ false
unfolding find_existing
none-of anchor client [] h = refl
none-of anchor client (e ∷ es) h = elim (Bool-cases (is_entry_of anchor client e)) [
  | inl found ↦ absurd (some-none (rw found at h))
  | inr differs ↦ rw differs (none-of anchor client es (rw differs at h))
]

pub draw_bit-free :
    (list_id : String) (draws : List ℕ) (entries : List StatusEntry) (bit : ℕ)
    → draw_bit list_id draws entries ≡ some bit
    → any (is_at list_id bit) entries ≡ false
unfolding draw_bit
draw_bit-free list_id [] entries bit h = absurd (some-none (sym h))
draw_bit-free list_id (b ∷ draws) entries bit h =
    elim (Bool-cases (any (is_at list_id b) entries)) [
      | inl taken ↦ draw_bit-free list_id draws entries bit (rw taken at h)
      | inr free ↦
          let p : b ≡ bit = some-same (rw free at h) in
          ap (λ k. any (is_at list_id k) entries) (sym p) ∙ free
    ]
