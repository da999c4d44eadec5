-- ===== src/Credential/Kept.antt =====
-- The actions leave a verified email and a passkey.
use minister.Common.{
  String, ◌≡◌, ◌≢◌, refl, sym, ap, ◌∙◌, inl, inr, Bool, true, false, not, ◌&&◌, ◌||◌, Option, none,
  some, List, [], ◌∷◌, map, arith, any, keep, length, ltb, nat_beq, Bool-cases, In, here, there,
  In-map, In-keep, keep-In, In-cases, In-nil, string_eq, eq_iff, ◌==◌, given-rule, stop_if-rule,
}
use minister.Credential.{QuarantineRefusal}
use minister.Credential.Actions.{unless_refused, other_verified}
use minister.Credential.Store.{
  Session, UserEmail, Store, ActionResult, done, or_zero, manage, find_email, is_verified,
  without_email,
}

module _ {A : Type 0} where
  -- An action of a session that may manage credentials, or one that stops.
  pub manage-rule :
      (P : ActionResult A × Store → Type 0) (caller : Option Session) (store : Store)
      (k : Session → ActionResult A × Store)
      → ((r : ActionResult A) → ((a : A) → r ≢ done a) → P (r, store))
      → ((session : Session)
          → caller ≡ some session
          → session.recovered ≡ false
          → ltb (or_zero session.aal) 2 ≡ false
          → P (k session))
      → P (manage caller store k)
  unfolding manage
  manage-rule P caller store k stops goes =
      given-rule P _ _ _ (λ _. stops _ (λ a e. cc))
        (λ session is_caller.
          stop_if-rule P _ _ _ (λ _. stops _ (λ a e. cc))
            (λ whole.
              stop_if-rule P _ _ _ (λ _. stops _ (λ a e. cc))
                (λ strong. goes session is_caller whole strong)))

  pub unless_refused-rule :
      (P : ActionResult A × Store → Type 0) (refusal : Option QuarantineRefusal) (store : Store)
      (k : ActionResult A × Store)
      → ((r : ActionResult A) → ((a : A) → r ≢ done a) → P (r, store))
      → (refusal ≡ none → P k)
      → P (unless_refused refusal store k)
  unfolding unless_refused
  unless_refused-rule P none store k stops goes = goes refl
  unless_refused-rule P (some refusal) store k stops goes = stops _ (λ a e. cc)

-- Each row is the one that its id finds.
unfoldable pub AreKeyed : List UserEmail → Type 0
AreKeyed emails = (e : UserEmail) → In e emails → find_email e.id emails ≡ some e

unfoldable pub HasVerified : String → List UserEmail → Type 0
HasVerified user_id emails =
    (e : UserEmail) × In e emails × (e.user_id ≡ user_id) × (is_verified e ≡ true)

none-some : {A : Type 0} {a : A} → none ≢ some a
none-some e = cc

some-same : {A : Type 0} {a b : A} → some a ≡ some b → a ≡ b
some-same e = cc

true-false : true ≢ false
true-false e = cc

not-true : (b : Bool) → not b ≡ true → b ≡ false
not-true b h = ground arith

three :
    (a b : String) (c d : Bool)
    → ((a == b) && c && not d) ≡ true
    → (a ≡ b) × (not d ≡ true) × (c ≡ true)
three a b c d h = ground (arith, eq_iff a b)

fresh-id :
    (new e : UserEmail) (emails : List UserEmail)
    → any (λ x. (x.id == new.id) || (x.email == new.email)) emails ≡ false
    → In e emails
    → (new.id == e.id) ≡ false
fresh-id new e [] h m = absurd (In-nil m)
fresh-id new e (x ∷ xs) h m = elim (In-cases m) [
  | inl p ↦
      let q : x.id ≡ e.id = ap (λ (y : UserEmail). y.id) (sym p) in
      ground (arith, eq_iff x.id new.id, eq_iff new.id e.id, q, h)
  | inr later ↦ fresh-id new e xs (ground (arith, h)) later
]

find-at :
    (id : String) (emails : List UserEmail) (target : UserEmail)
    → find_email id emails ≡ some target
    → In target emails × (target.id ≡ id)
unfolding find_email
find-at id [] target h = absurd (none-some h)
find-at id (e ∷ es) target h = elim (Bool-cases (e.id == id)) [
  | inl same ↦
      let p : e ≡ target = some-same (rw same at h) in
      let own : e.id ≡ id = (eq_iff e.id id).0 same in
      (rw p here, ap (λ (x : UserEmail). x.id) (sym p) ∙ own)
  | inr differs ↦ let (m, p) = find-at id es target (rw differs at h) in (there m, p)
]

-- A change of rows that keeps their ids.
module _ (g : UserEmail → UserEmail) (same_id : (e : UserEmail) → (g e).id ≡ e.id) where
  find-map :
      (id : String) (emails : List UserEmail) (e : UserEmail)
      → find_email id emails ≡ some e
      → find_email id (map g emails) ≡ some (g e)
  unfolding find_email
  find-map id [] e h = absurd (none-some h)
  find-map id (x ∷ xs) e h = elim (Bool-cases (x.id == id)) [
    | inl found ↦
        let p : x ≡ e = some-same (rw found at h) in
        let q : ((g x).id == id) ≡ true = ap (λ k. k == id) (same_id x) ∙ found in
        rw q (ap (λ (a : UserEmail). some (g a)) p)
    | inr differs ↦
        let q : ((g x).id == id) ≡ false = ap (λ k. k == id) (same_id x) ∙ differs in
        rw q (find-map id xs e (rw differs at h))
  ]

  pub map-In :
      (e : UserEmail) (emails : List UserEmail)
      → In e (map g emails)
      → (old : UserEmail) × In old emails × (e ≡ g old)
  map-In e [] m = absurd (In-nil m)
  map-In e (x ∷ xs) m = elim (In-cases m) [
    | inl p ↦ (x, here, p)
    | inr later ↦ let (old, n, p) = map-In e xs later in (old, there n, p)
  ]

  pub map-AreKeyed : (emails : List UserEmail) → AreKeyed emails → AreKeyed (map g emails)
  unfolding AreKeyed
  map-AreKeyed emails keyed e m =
      let (old, n, p) = map-In e emails m in
      ap (λ (x : UserEmail). find_email x.id (map g emails)) p
      ∙ ap (λ k. find_email k (map g emails)) (same_id old)
      ∙ find-map old.id emails old (keyed old n)
      ∙ ap (λ (x : UserEmail). some x) (sym p)

find-keep :
    (id k : String) (emails : List UserEmail)
    → (k == id) ≡ false
    → find_email k (without_email id emails) ≡ find_email k emails
unfolding find_email without_email
find-keep id k [] h = refl
find-keep id k (x ∷ xs) h = elim (Bool-cases (x.id == id)) [
  | inl gone ↦
      let p : x.id ≡ id = (eq_iff x.id id).0 gone in
      let q : (x.id == k) ≡ false = ground (arith, eq_iff x.id k, eq_iff k id, h, p) in
      rw (gone, q) (find-keep id k xs h)
  | inr stays ↦ rw (stays, find-keep id k xs h) refl
]

pub without-AreKeyed :
    (id : String) (emails : List UserEmail) → AreKeyed emails → AreKeyed (without_email id emails)
unfolding AreKeyed without_email
without-AreKeyed id emails keyed e m =
    let (n, other_id) = keep-In (λ (x : UserEmail). not (x.id == id)) e emails m in
    find-keep id e.id emails (not-true (e.id == id) other_id) ∙ keyed e n

pub cons-AreKeyed :
    (new : UserEmail) (emails : List UserEmail)
    → any (λ e. (e.id == new.id) || (e.email == new.email)) emails ≡ false
    → AreKeyed emails
    → AreKeyed (new ∷ emails)
unfolding AreKeyed find_email
cons-AreKeyed new emails fresh keyed e m = elim (In-cases m) [
  | inl p ↦
      let q : (new.id == e.id) ≡ true =
        (eq_iff new.id e.id).1 (ap (λ (x : UserEmail). x.id) (sym p)) in
      rw q (ap (λ (x : UserEmail). some x) (sym p))
  | inr later ↦
      let q : (new.id == e.id) ≡ false = fresh-id new e emails fresh later in rw q (keyed e later)
]

pub map-HasVerified :
    (g : UserEmail → UserEmail) (user_id : String) (emails : List UserEmail)
    → ((e : UserEmail) → (g e).user_id ≡ e.user_id)
    → ((e : UserEmail) → is_verified e ≡ true → is_verified (g e) ≡ true)
    → HasVerified user_id emails
    → HasVerified user_id (map g emails)
unfolding HasVerified
map-HasVerified g user_id emails same_user kept (e, m, own, good) =
    (g e, In-map g m, same_user e ∙ own, kept e good)

some-In :
    (p : UserEmail → Bool) (emails : List UserEmail)
    → nat_beq (length (keep p emails)) 0 ≡ false
    → (e : UserEmail) × In e emails × (p e ≡ true)
some-In p [] h = absurd (true-false h)
some-In p (x ∷ xs) h = elim (Bool-cases (p x)) [
  | inl good ↦ (x, here, good)
  | inr bad ↦ let (e, m, good) = some-In p xs (rw bad at h) in (e, there m, good)
]

-- The removal of a row that the checks let pass.
pub without-HasVerified :
    (user_id owner id : String) (target : UserEmail) (emails : List UserEmail)
    → AreKeyed emails
    → find_email id emails ≡ some target
    → target.user_id ≡ owner
    → ((is_verified target || target.is_primary)
        && nat_beq (length (other_verified owner id emails)) 0)
      ≡ false
    → HasVerified user_id emails
    → HasVerified user_id (without_email id emails)
unfolding AreKeyed HasVerified without_email other_verified
without-HasVerified user_id owner id target emails keyed found is_owner guard (e, m, own, good) =
    elim (Bool-cases (e.id == id)) [
      | inr stays ↦ (e, In-keep (λ (x : UserEmail). not (x.id == id)) m (rw stays refl), own, good)
      | inl gone ↦
          let p : e ≡ target =
            some-same
              (sym (keyed e m) ∙ ap (λ k. find_email k emails) ((eq_iff e.id id).0 gone) ∙ found) in
          let target_good : is_verified target ≡ true = ap is_verified (sym p) ∙ good in
          let more : nat_beq (length (other_verified owner id emails)) 0 ≡ false =
            ground (arith, guard, target_good) in
          let (b, n, q) =
            some-In (λ x. (x.user_id == owner) && is_verified x && not (x.id == id)) emails more in
          let (its, stays, verified) = three b.user_id owner (is_verified b) (b.id == id) q in
          (
            b,
            In-keep (λ (x : UserEmail). not (x.id == id)) n stays,
            its ∙ sym is_owner ∙ ap (λ (x : UserEmail). x.user_id) (sym p) ∙ own,
            verified,
          )
    ]
