-- ===== src/Merge/Moves.antt =====
-- A table whose rows have moved is restored exactly, if its keys are unique.
use minister.Common.{
  String, ◌≡◌, refl, sym, ◌∙◌, inl, inr, Bool, true, false, ◌&&◌, List, [], ◌∷◌, arith, map,
  Bool-cases, includes, string_eq, ◌==◌, eq_iff, same_refl, if◌then◌else◌,
}
use mathlib.Core.Path.{subst}
use minister.Merge.{Row, keys_of, own, move, restore, restore_from, set_primary, primary_keys_of}

cons-eq : {A : Type 0} {x y : A} {xs ys : List A} → x ≡ y → xs ≡ ys → (x ∷ xs) ≡ (y ∷ ys)
cons-eq p q = rw (p, q) refl

includes-head : (key : String) (keys : List String) → includes key (key ∷ keys) ≡ true
includes-head key keys = rw (same_refl key) refl

module _ {V : Type 0} where
  unfoldable pub AreUnique : List (Row V) → Type 0
  AreUnique [] = Unit
  AreUnique (row ∷ rows) = (includes row.key (map (λ r. r.key) rows) ≡ false) × AreUnique rows

  -- The keys of a list are those of the rows that pass a test.
  unfoldable pub Selects : (Row V → Bool) → List String → List (Row V) → Type 0
  Selects test keys [] = Unit
  Selects test keys (row ∷ rows) = (includes row.key keys ≡ test row) × Selects test keys rows

  Selects-more :
      (test : Row V → Bool) (key : String) (keys : List String) (rows : List (Row V))
      → includes key (map (λ r. r.key) rows) ≡ false
      → Selects test keys rows
      → Selects test (key ∷ keys) rows
  unfolding Selects
  Selects-more test key keys [] h s = tt
  Selects-more test key keys (row ∷ rows) h s = (
    ground (arith, h, s.0, eq_iff key row.key, eq_iff row.key key),
    Selects-more test key keys rows (ground (arith, h)) s.1,
  )

  Selects-at :
      (test : Row V → Bool) (keys ks : List String) (row : Row V) (rows : List (Row V))
      → keys ≡ ks
      → includes row.key ks ≡ test row
      → Selects test ks rows
      → Selects test keys (row ∷ rows)
  unfolding Selects
  Selects-at test keys ks row rows e a b = subst (λ k. Selects test k (row ∷ rows)) (sym e) (a, b)

  keys_of-known :
      (user_id key : String) (rows : List (Row V))
      → includes key (map (λ r. r.key) rows) ≡ false
      → includes key (keys_of user_id rows) ≡ false
  unfolding keys_of
  keys_of-known user_id key [] h = refl
  keys_of-known user_id key (row ∷ rows) h = ground (arith, h, keys_of-known user_id key rows)

  keys_of-own :
      (user_id : String) (row : Row V) (rows : List (Row V))
      → (row.user_id == user_id) ≡ true
      → keys_of user_id (row ∷ rows) ≡ row.key ∷ keys_of user_id rows
  unfolding keys_of
  keys_of-own user_id row rows e = rw e refl

  keys_of-other :
      (user_id : String) (row : Row V) (rows : List (Row V))
      → (row.user_id == user_id) ≡ false
      → keys_of user_id (row ∷ rows) ≡ keys_of user_id rows
  unfolding keys_of
  keys_of-other user_id row rows e = rw e refl

  pub keys_of-Selects :
      (user_id : String) (rows : List (Row V))
      → AreUnique rows
      → Selects (λ row. row.user_id == user_id) (keys_of user_id rows) rows
  unfolding Selects AreUnique
  keys_of-Selects user_id [] h = tt
  keys_of-Selects user_id (row ∷ rows) h = elim (Bool-cases (row.user_id == user_id)) [
    | inl its ↦
        Selects-at (λ row. row.user_id == user_id) _ (row.key ∷ keys_of user_id rows) row rows
          (keys_of-own user_id row rows its)
          (includes-head row.key (keys_of user_id rows) ∙ sym its)
          (Selects-more (λ row. row.user_id == user_id) row.key (keys_of user_id rows) rows h.0
            (keys_of-Selects user_id rows h.1))
    | inr other ↦
        Selects-at (λ row. row.user_id == user_id) _ (keys_of user_id rows) row rows
          (keys_of-other user_id row rows other)
          (keys_of-known user_id row.key rows h.0 ∙ sym other) (keys_of-Selects user_id rows h.1)
  ]

  own-again :
      (donor survivor : String) (row : Row V)
      → (row.user_id == donor) ≡ true
      → own donor (own survivor row) ≡ row
  unfolding own
  own-again donor survivor row e =
      let p : row.user_id ≡ donor = (eq_iff row.user_id donor).0 e in rw (← p) refl

  row-again :
      (keys : List String) (donor survivor : String) (row : Row V)
      → includes row.key keys ≡ (row.user_id == donor)
      → (let moved = if row.user_id == donor then own survivor row else row in
          if includes moved.key keys then own donor moved else moved)
        ≡ row
  unfolding own
  row-again keys donor survivor row e = elim (Bool-cases (row.user_id == donor)) [
    | inl its ↦
        let listed : includes row.key keys ≡ true = rw its at e in
        rw (its, listed) (own-again donor survivor row its)
    | inr other ↦
        let unlisted : includes row.key keys ≡ false = rw other at e in rw (other, unlisted) refl
  ]

  row_from-again :
      (keys : List String) (donor survivor : String) (row : Row V)
      → includes row.key keys ≡ (row.user_id == donor)
      → (let moved = if row.user_id == donor then own survivor row else row in
          if includes moved.key keys && moved.user_id == survivor then own donor moved else moved)
        ≡ row
  unfolding own
  row_from-again keys donor survivor row e = elim (Bool-cases (row.user_id == donor)) [
    | inl its ↦
        let listed : includes row.key keys ≡ true = rw its at e in
        rw (its, listed, same_refl survivor) (own-again donor survivor row its)
    | inr other ↦
        let unlisted : includes row.key keys ≡ false = rw other at e in rw (other, unlisted) refl
  ]

  pub restore-move :
      (keys : List String) (donor survivor : String) (rows : List (Row V))
      → Selects (λ row. row.user_id == donor) keys rows
      → restore keys donor (move donor survivor rows) ≡ rows
  unfolding restore move Selects
  restore-move keys donor survivor [] s = refl
  restore-move keys donor survivor (row ∷ rows) s =
      cons-eq (row-again keys donor survivor row s.0) (restore-move keys donor survivor rows s.1)

  pub restore_from-move :
      (keys : List String) (donor survivor : String) (rows : List (Row V))
      → Selects (λ row. row.user_id == donor) keys rows
      → restore_from keys survivor donor (move donor survivor rows) ≡ rows
  unfolding restore_from move Selects
  restore_from-move keys donor survivor [] s = refl
  restore_from-move keys donor survivor (row ∷ rows) s =
      cons-eq (row_from-again keys donor survivor row s.0)
        (restore_from-move keys donor survivor rows s.1)

primary_keys_of-known :
    (user_id key : String) (rows : List (Row Bool))
    → includes key (map (λ r. r.key) rows) ≡ false
    → includes key (primary_keys_of user_id rows) ≡ false
unfolding primary_keys_of
primary_keys_of-known user_id key [] h = refl
primary_keys_of-known user_id key (row ∷ rows) h =
    ground (arith, h, primary_keys_of-known user_id key rows)

primary_keys_of-own :
    (user_id : String) (row : Row Bool) (rows : List (Row Bool))
    → ((row.user_id == user_id) && row.value) ≡ true
    → primary_keys_of user_id (row ∷ rows) ≡ row.key ∷ primary_keys_of user_id rows
unfolding primary_keys_of
primary_keys_of-own user_id row rows e = rw e refl

primary_keys_of-other :
    (user_id : String) (row : Row Bool) (rows : List (Row Bool))
    → ((row.user_id == user_id) && row.value) ≡ false
    → primary_keys_of user_id (row ∷ rows) ≡ primary_keys_of user_id rows
unfolding primary_keys_of
primary_keys_of-other user_id row rows e = rw e refl

pub primary_keys_of-Selects :
    (user_id : String) (rows : List (Row Bool))
    → AreUnique rows
    → Selects (λ row. (row.user_id == user_id) && row.value) (primary_keys_of user_id rows) rows
unfolding Selects AreUnique
primary_keys_of-Selects user_id [] h = tt
primary_keys_of-Selects user_id (row ∷ rows) h =
    elim (Bool-cases ((row.user_id == user_id) && row.value)) [
      | inl its ↦
          Selects-at (λ row. (row.user_id == user_id) && row.value) _
            (row.key ∷ primary_keys_of user_id rows) row rows
            (primary_keys_of-own user_id row rows its)
            (includes-head row.key (primary_keys_of user_id rows) ∙ sym its)
            (Selects-more (λ row. (row.user_id == user_id) && row.value) row.key
              (primary_keys_of user_id rows) rows h.0 (primary_keys_of-Selects user_id rows h.1))
      | inr other ↦
          Selects-at (λ row. (row.user_id == user_id) && row.value) _ (primary_keys_of user_id rows)
            row rows (primary_keys_of-other user_id row rows other)
            (primary_keys_of-known user_id row.key rows h.0 ∙ sym other)
            (primary_keys_of-Selects user_id rows h.1)
    ]

-- The email of a row after its move and its restoration.
email_moved : String → String → List String → Row Bool → Row Bool
email_moved donor survivor primaries row =
    let moved = if row.user_id == donor then own survivor row else row in
    if includes moved.key primaries then record moved { value = false } else moved

email_back : String → List String → List String → Row Bool → Row Bool
email_back donor keys primaries row =
    let back = if includes row.key keys then own donor row else row in
    if includes back.key primaries then record back { value = true } else back

email-again :
    (keys primaries : List String) (donor survivor : String) (row : Row Bool)
    → includes row.key keys ≡ (row.user_id == donor)
    → includes row.key primaries ≡ ((row.user_id == donor) && row.value)
    → email_back donor keys primaries (email_moved donor survivor primaries row) ≡ row
unfolding email_back email_moved own
email-again keys primaries donor survivor row e f = elim (Bool-cases (row.user_id == donor)) [
  | inl its ↦
      let p : row.user_id ≡ donor = (eq_iff row.user_id donor).0 its in
      let listed : includes row.key keys ≡ true = rw its at e in
      let primary : includes row.key primaries ≡ row.value = rw its at f in
      elim (Bool-cases row.value) [
        | inl is_primary ↦
            let first : includes row.key primaries ≡ true = rw is_primary at primary in
            rw (its, first, listed, first) (rw (← p, ← is_primary) refl)
        | inr plain ↦
            let second : includes row.key primaries ≡ false = rw plain at primary in
            rw (its, second, listed, second) (rw (← p) refl)
      ]
  | inr other ↦
      let unlisted : includes row.key keys ≡ false = rw other at e in
      let second : includes row.key primaries ≡ false = rw other at f in
      rw (other, second, unlisted, second) refl
]

pub emails-again :
    (keys primaries : List String) (donor survivor : String) (rows : List (Row Bool))
    → Selects (λ row. row.user_id == donor) keys rows
    → Selects (λ row. (row.user_id == donor) && row.value) primaries rows
    → set_primary true primaries
        (restore keys donor (set_primary false primaries (move donor survivor rows)))
      ≡ rows
unfolding set_primary restore move Selects email_back email_moved
emails-again keys primaries donor survivor [] s t = refl
emails-again keys primaries donor survivor (row ∷ rows) s t =
    cons-eq (email-again keys primaries donor survivor row s.0 t.0)
      (emails-again keys primaries donor survivor rows s.1 t.1)
