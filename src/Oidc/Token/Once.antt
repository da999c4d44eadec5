-- ===== src/Oidc/Token/Once.antt =====
-- An authorization code gives tokens once, however the requests interleave.
use minister.Common.{
  ℕ, String, ◌≡◌, refl, ap, same_refl, ◌≢◌, ◌⊎◌, inl, inr, Bool, true, false, Option, none, some,
  List, ◌∷◌, arith, Bool-cases, lookup, insert, erase, lookup-insert, lookup-erase, includes,
  string_eq, ◌==◌, eq_iff, Option-cases,
}
use minister.Oidc.Store.{AuthCode, Store}
use minister.Oidc.Token.{
  TokenRequest, AccessTokenClaims, IdTokenClaims, TokenResponse, issued, rate_limited, token_error,
  client_error, consume, consume_found, consume_if, consume_row, is_unconsumed, post_token,
}
use minister.Oidc.Token.Issued.{IsResponse, IsIssued, post_token-IsResponse}

-- The tables, and every code that was ever made.
pub record World : Type 0 where
  pub store : Store
  pub made : List String

-- What may happen to the codes between two requests: any consumption, by a request that goes on or
-- is refused; a new code, which is 256 random bits and so is none that was ever made; the deletion
-- of a code, as a merge of two accounts does; and any change of the other tables.
pub data Step : World → World → Type 0 where
  consumption :
      {w : World} (now : ℕ) (code : String)
      → Step w (record w { store = (consume now code w.store).1 })
  creation :
      {w : World} (code : String) (row : AuthCode)
      → includes code w.made ≡ false
      → Step w (record {
        store = record w.store { codes = insert w.store.codes code row };
        made = code ∷ w.made;
      })
  deletion :
      {w : World} (code : String)
      → Step w (record w { store = record w.store { codes = erase w.store.codes code } })
  change :
      {w : World} (store : Store)
      → store.codes ≡ w.store.codes
      → Step w (record w { store = store })

pub data Steps : World → World → Type 0 where
  stay : {w : World} → Steps w w
  follow : {w next last : World} → Step w next → Steps next last → Steps w last

-- The code was made, and is consumed if it is still there.
unfoldable IsSpent : String → World → Type 0
IsSpent code w =
    (includes code w.made ≡ true)
    × ((row : AuthCode) → lookup w.store.codes code ≡ some row → row.consumed_at ≢ none)

consume-lookup :
    (now : ℕ) (code other : String) (store : Store)
    → (lookup (consume now code store).1.codes other ≡ lookup store.codes other)
      ⊎ ((row : AuthCode) × (lookup (consume now code store).1.codes other
            ≡ some (consume_row now row))
          × (code ≡ other))
unfolding consume consume_found consume_if
consume-lookup now code other store = elim (Option-cases (lookup store.codes code)) [
  | inl missing ↦ inl (rw missing refl)
  | inr (row, found) ↦ elim (Bool-cases (is_unconsumed row.consumed_at)) [
    | inl fresh ↦
        rw (found, fresh)
          (elim (Bool-cases (code == other)) [
            | inl same ↦ inr (
              row,
              rw (lookup-insert store.codes code other (consume_row now row), same) refl,
              (eq_iff code other).0 same,
            )
            | inr differs ↦
                inl (rw (lookup-insert store.codes code other (consume_row now row), differs) refl)
          ])
    | inr spent ↦ inl (rw (found, spent) refl)
  ]
]

made_once :
    {new code : String} (made : List String)
    → new ≡ code
    → includes new made ≡ false
    → includes code made ≢ true
made_once made p unmade m = cc

one_code : (o : Option String) (a b : String) → o ≡ some a → o ≡ some b → a ≡ b
one_code o a b h k = cc

nothing : {row : AuthCode} → none ≢ some row
nothing e = cc

consume_row-set :
    (now : ℕ) (before row : AuthCode)
    → some (consume_row now before) ≡ some row
    → row.consumed_at ≢ none
unfolding consume_row
consume_row-set now before row e fresh = cc

Step-IsSpent : {w next : World} (code : String) → Step w next → IsSpent code w → IsSpent code next
unfolding IsSpent
Step-IsSpent code (consumption {w} now used) h = (
  h.0,
  λ row found. elim (consume-lookup now used code w.store) [
    | inl same ↦ h.1 row (rw same at found)
    | inr (before, now_is, same) ↦ consume_row-set now before row (rw now_is at found)
  ],
)
Step-IsSpent code (creation {w} new row unmade) h = elim (Bool-cases (new == code)) [
  | inl same ↦
      let p : new ≡ code = (eq_iff new code).0 same in absurd (made_once w.made p unmade h.0)
  | inr differs ↦ (
    ground (arith, h.0),
    λ r found. h.1 r (rw (lookup-insert w.store.codes new code row, differs) at found),
  )
]
Step-IsSpent code (deletion {w} old) h = (
  h.0,
  λ row found. elim (Bool-cases (old == code)) [
    | inl same ↦ absurd (nothing (rw (lookup-erase w.store.codes old code, same) at found))
    | inr differs ↦ h.1 row (rw (lookup-erase w.store.codes old code, differs) at found)
  ],
)
Step-IsSpent code (change store same) h = (h.0, λ row found. h.1 row (rw same at found))

Steps-IsSpent : {w last : World} (code : String) → Steps w last → IsSpent code w → IsSpent code last
Steps-IsSpent code stay h = h
Steps-IsSpent code (follow step steps) h = Steps-IsSpent code steps (Step-IsSpent code step h)

refused_of : {store consumed : Store} → ◌≢◌ {A = Bool × Store} (false, store) (true, consumed)
refused_of e = cc

consume-IsSpent :
    (now : ℕ) (code : String) (made : List String) (store consumed : Store)
    → includes code made ≡ true
    → consume now code store ≡ (true, consumed)
    → IsSpent code (record { store = consumed; made = made })
unfolding IsSpent consume consume_found consume_if
consume-IsSpent now code made store consumed m e = elim (Option-cases (lookup store.codes code)) [
  | inl missing ↦ absurd (refused_of (rw missing at e))
  | inr (row, found) ↦ elim (Bool-cases (is_unconsumed row.consumed_at)) [
    | inr spent ↦ absurd (refused_of (rw (found, spent) at e))
    | inl fresh ↦
        let q : record store { codes = insert store.codes code (consume_row now row) } ≡ consumed =
          ap (λ (p : Bool × Store). p.1) (rw (found, fresh) at e) in
        rw (← q) (
          m,
          λ after l.
              consume_row-set now row after (
                rw (lookup-insert store.codes code code (consume_row now row), same_refl code) at
                  l),
        )
  ]
]

module _ (decode_basic : String → String) (decode_component : String → Option String)
    (verify_secret : String → String → Bool) (sha256 : String → List ℕ)
    (challenge_bytes : String → List ℕ) (pairwise_sub : String → String)
    (badge_jwts : ℕ → Store → String → String → String → List String → List String) where
  -- The code of an outcome was there, unconsumed, and is consumed in it.
  abbrev Redeems : ℕ → String → Store → TokenResponse × Store × Store → Type 0
  Redeems now code store out =
      (row : AuthCode) × (lookup store.codes code ≡ some row)
      × (row.consumed_at ≡ none)
      × (consume now code store ≡ (true, out.1))

  issued-Redeems :
      (now : ℕ) (jti code : String) (request : TokenRequest) (store later : Store)
      (access : AccessTokenClaims) (id : IdTokenClaims)
      → request.form "code" ≡ some code
      → (out : TokenResponse × Store × Store)
      → IsResponse decode_basic decode_component verify_secret sha256 challenge_bytes pairwise_sub
          (badge_jwts now)
          now
          jti
          request
          store
          later
          out
      → out.0 ≡ issued access id
      → Redeems now code store out
  unfolding IsResponse IsIssued
  issued-Redeems now jti code request store later access id asked (issued a i, consumed, last) r e =
      let same : r.0.code ≡ code = one_code (request.form "code") r.0.code code r.4 asked in
      (r.1, rw same at r.6, r.7, rw same at r.8)
  issued-Redeems now jti code request store later access id asked (rate_limited s, consumed, last) r
        e =
      absurd (cc)
  issued-Redeems now jti code request store later access id asked (token_error t, consumed, last) r
        e =
      absurd (cc)
  issued-Redeems now jti code request store later access id asked (client_error t b, consumed, last)
        r e =
      absurd (cc)

  -- The endpoint, with what it reads apart from the tables; badges are minted at its time.
  unfoldable pub answer :
      Option ℕ → ℕ → String → TokenRequest → Store → Store → TokenResponse × Store × Store
  answer limit now jti request store later =
      post_token decode_basic decode_component verify_secret sha256 challenge_bytes pairwise_sub
        (badge_jwts now) limit now jti request store later

  -- Once a request has been given tokens for a code, no request is given tokens for that code after any
  -- run of consumptions, new codes, deletions and other changes of the tables, whatever tables either
  -- request meets after its consumption. New codes are ones that were never made before.
  pub post_token-once :
      (limit limit2 : Option ℕ) (now now2 : ℕ) (jti jti2 code : String)
      (request request2 : TokenRequest) (made : List String)
      (store later consumed last later2 : Store) (w : World) (access access2 : AccessTokenClaims)
      (id id2 : IdTokenClaims)
      → request.form "code" ≡ some code
      → request2.form "code" ≡ some code
      → includes code made ≡ true
      → answer limit now jti request store later ≡ (issued access id, consumed, last)
      → Steps (record { store = consumed; made = made }) w
      → (answer limit2 now2 jti2 request2 w.store later2).0 ≢ issued access2 id2
  unfolding IsSpent answer
  post_token-once limit limit2 now now2 jti jti2 code request request2 made store later consumed
        last later2 w access access2 id id2 asked asked2 m e steps e2 =
      let first : Redeems now code store (answer limit now jti request store later) =
        issued-Redeems now jti code request store later access id asked _
          (post_token-IsResponse decode_basic decode_component verify_secret sha256 challenge_bytes
            pairwise_sub (badge_jwts now) limit now jti request store later)
          (ap (λ (out : TokenResponse × Store × Store). out.0) e) in
      let (row2, found2, fresh2, c2) =
        issued-Redeems now2 jti2 code request2 w.store later2 access2 id2 asked2 _
          (post_token-IsResponse decode_basic decode_component verify_secret sha256 challenge_bytes
            pairwise_sub (badge_jwts now2) limit2 now2 jti2 request2 w.store later2)
          e2 in
      let (row, found, fresh, c) = rw e at first in
      (Steps-IsSpent code steps (consume-IsSpent now code made store consumed m c)).1 row2 found2
        fresh2
