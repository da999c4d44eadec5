-- ===== src/Oidc/Consent/Discloses.antt =====
-- What an approval may disclose.
use minister.Common.{
  ℕ, ◌+◌, ◌*◌, ◌/◌, String, ◌≡◌, refl, sym, ap, Option-cases, ◌≢◌, ◌⊎◌, inl, inr, Bool, true, false,
  ◌&&◌, ◌||◌, Option, none, some, List, [], ◌∷◌, ◌++◌, map, keep, In, here, there, In-cases, In-nil,
  keep-In, and-eq-true, Bool-cases, Entries, lookup, insert, lookup-insert, same_refl, includes,
  string_eq, pair_eq, ◌==◌, given, given-rule, stop_if-rule,
}
use minister.Policy.{PolicyNode, UserBadge}
use minister.Oidc.Authorize.{ValidAuthorizeRequest, requested_badge_types}
use minister.Oidc.Store.{Badge, AuthCode, Store}
use minister.Oidc.Claims.{when}
use minister.Oidc.Profile.{NormalizedProfile}
use minister.Oidc.Grants.{load_grant, upsert_grant}
use minister.Oidc.Consent.{
  ApproveInput, Approval, not_approved, threw, redirect, redirect_anon, Approved,
  minimize_to_policy, union_badges_by_id, is_requested, effective_scopes, upsert_override, code_row,
  write_approval, answer_redirect, to_policy_user_badge, load_badges_for_user, candidate_badges,
  approved_of, approve_signed_in, approve_consent,
}

minimize-In :
    (policy : Option PolicyNode) (submitted : List UserBadge) (counts : Entries String ℕ) (now : ℕ)
    (b : UserBadge)
    → In b (minimize_to_policy policy submitted counts now)
    → In b submitted
unfolding minimize_to_policy
minimize-In none submitted counts now b m = m
minimize-In (some policy) submitted counts now b m = (keep-In _ b submitted m).0

In-append : (b : UserBadge) (xs ys : List UserBadge) → In b (xs ++ ys) → In b xs ⊎ In b ys
In-append b [] ys m = inr m
In-append b (x ∷ xs) ys m = elim (In-cases m) [
  | inl e ↦ inl (rw e here)
  | inr later ↦ elim (In-append b xs ys later) [ inl l ↦ inl (there l) | inr r ↦ inr r ]
]

union_badges_by_id-In :
    (b : UserBadge) (xs ys : List UserBadge) → In b (union_badges_by_id xs ys) → In b xs ⊎ In b ys
unfolding union_badges_by_id
union_badges_by_id-In b xs ys m = elim (In-append b xs _ m) [
  | inl l ↦ inl l
  | inr r ↦ inr (keep-In _ b ys r).0
]

map-In {ℓ κ} :
    {A : Type ℓ} {B : Type κ} (f : A → B) (y : B) (xs : List A)
    → In y (map f xs)
    → (x : A) × In x xs × (f x ≡ y)
map-In f y [] m = absurd (In-nil m)
map-In f y (x ∷ xs) m = elim (In-cases m) [
  | inl e ↦ (x, here, sym e)
  | inr later ↦ let (z, at, e) = map-In f y xs later in (z, there at, e)
]

nothing : {last : Store} → none ≢ some last
nothing e = cc

same_codes : {store last : Store} → some store ≡ some last → last.codes ≡ store.codes
same_codes {store} {last} e = let p : store ≡ last = cc in ap (λ (s : Store). s.codes) (sym p)

upsert_override-codes :
    (user_id client_id : String) (a : Approved) (store last : Store)
    → upsert_override user_id client_id a store ≡ some last
    → last.codes ≡ store.codes
unfolding upsert_override given
upsert_override-codes user_id client_id a store last e = elim (Option-cases store.overrides) [
  | inl missing ↦ absurd (nothing (rw missing at e))
  | inr (overrides, there_is) ↦ same_codes (rw there_is at e)
]

write_approval-codes :
    (now : ℕ) (code user_id : String) (request : ValidAuthorizeRequest) (a : Approved)
    (store last : Store)
    → write_approval now code user_id request a store ≡ some last
    → lookup last.codes code ≡ some (code_row now user_id request a)
unfolding write_approval upsert_grant
write_approval-codes now code user_id request a store last e =
    let same : last.codes ≡ insert store.codes code (code_row now user_id request a) =
      elim (Bool-cases (a.approve_name || a.approve_avatar)) [
        | inl shares ↦ upsert_override-codes user_id request.client_id a _ last (rw shares at e)
        | inr hides ↦ same_codes (rw hides at e)
      ] in
    rw same (
      rw (lookup-insert store.codes code code (code_row now user_id request a), same_refl code)
        refl)

module _ (is_cuid : String → Bool) (verify_request : String → Option ValidAuthorizeRequest)
    (protocol : String → Option String) (to_lower : String → String) (is_email : String → Bool)
    (month_start : ℕ → ℕ) (counts : Entries String ℕ) (bucket_of : String → Option ℕ)
    (anon_identity_enabled : Bool) where
  -- A badge of the user, of a type that the request asks for, that the user has chosen now or
  -- granted to the app before.
  unfoldable pub MayDisclose :
      Store → String → ValidAuthorizeRequest → ApproveInput → String → Type 0
  MayDisclose seen user_id request input id =
      (row : Badge) × In row seen.badges
      × (row.id ≡ id)
      × ((row.user_id == user_id) ≡ true)
      × (includes row.badge_type (requested_badge_types request.scopes) ≡ true)
      × ((includes id input.approved_badge_ids ≡ true)
          ⊎ (includes id (load_grant seen user_id request.client_id).badge_ids ≡ true))

  loaded-In :
      (seen : Store) (user_id : String) (types ids : List String) (b : UserBadge)
      → In b (
          keep (is_requested types) (
            load_badges_for_user is_cuid verify_request protocol to_lower is_email month_start
              counts bucket_of anon_identity_enabled seen user_id ids))
      → (row : Badge) × In row seen.badges
        × (row.id ≡ b.id)
        × ((row.user_id == user_id) ≡ true)
        × (includes row.badge_type types ≡ true)
        × (includes b.id ids ≡ true)
  unfolding load_badges_for_user is_requested to_policy_user_badge
  loaded-In seen user_id types ids b m =
      let (loaded, typed) = keep-In (is_requested types) b _ m in
      let (row, kept, e) =
        map-In
          (to_policy_user_badge is_cuid verify_request protocol to_lower is_email month_start counts
            bucket_of anon_identity_enabled)
          b _ loaded in
      let (stored, test) =
        keep-In (λ (row : Badge). row.user_id == user_id && includes row.id ids) row seen.badges
          kept in
      let (own, asked) = and-eq-true (row.user_id == user_id) (includes row.id ids) test in
      rw (← e) (row, stored, refl, own, rw (← e) at typed, asked)

  candidate-MayDisclose :
      (seen : Store) (user_id : String) (request : ValidAuthorizeRequest) (input : ApproveInput)
      (b : UserBadge)
      → In b (
          candidate_badges is_cuid verify_request protocol to_lower is_email month_start counts
            bucket_of anon_identity_enabled seen user_id request input.approved_badge_ids)
      → MayDisclose seen user_id request input b.id
  unfolding candidate_badges MayDisclose
  candidate-MayDisclose seen user_id request input b m =
      let types = requested_badge_types request.scopes in
      let granted = (load_grant seen user_id request.client_id).badge_ids in
      elim (union_badges_by_id-In b _ _ m) [
        | inl chosen ↦
            let (row, stored, same, own, typed, asked) =
              loaded-In seen user_id types input.approved_badge_ids b chosen in
            (row, stored, same, own, typed, inl asked)
        | inr before ↦
            let (row, stored, same, own, typed, asked) =
              loaded-In seen user_id types granted b before in
            (row, stored, same, own, typed, inr asked)
      ]

  -- A code that answers a request, and can be redeemed for a minute.
  unfoldable pub IsFresh : ℕ → ValidAuthorizeRequest → AuthCode → Type 0
  IsFresh now request row =
      (row.nonce ≡ request.nonce)
      × (row.code_challenge ≡ request.code_challenge)
      × (row.code_challenge_method ≡ "S256")
      × (row.expires_at ≡ now + 60 * 1000)
      × (row.consumed_at ≡ none)

  -- What the code of an approval may say of the user.
  unfoldable pub IsDisclosure :
      ℕ → Store → String → ValidAuthorizeRequest → ApproveInput → AuthCode → Type 0
  IsDisclosure now seen user_id request input row =
      (row.user_id ≡ user_id)
      × (row.client_id ≡ request.client_id)
      × (row.redirect_uri ≡ request.redirect_uri)
      × ((id : String) → In id row.approved_badge_ids → MayDisclose seen user_id request input id)
      × ((scope : String) → In scope row.scopes → In scope request.scopes)
      × (row.profile_name ≡ (includes "profile" request.scopes && input.approve_name))
      × (row.profile_avatar ≡ (includes "profile" request.scopes && input.approve_avatar))
      × (row.sybil_score ≡ (includes "sybil-score" request.scopes && input.approve_sybil_score))
      × (row.sybil_score ≡ false → row.sybil_bucket ≡ none)
      × IsFresh now request row

  when-false : {A : Type 0} (b : Bool) (o : Option A) → b ≡ false → when b o ≡ none
  unfolding when
  when-false true o e = cc
  when-false false o e = refl

  code_row-IsDisclosure :
      (now : ℕ) (user_id : String) (request : ValidAuthorizeRequest) (input : ApproveInput)
      (profile : NormalizedProfile) (seen : Store)
      → IsDisclosure now seen user_id request input (
          code_row now user_id request (
            approved_of is_cuid verify_request protocol to_lower is_email month_start counts
              bucket_of anon_identity_enabled now user_id request input profile seen))
  unfolding code_row approved_of IsDisclosure IsFresh effective_scopes
  code_row-IsDisclosure now user_id request input profile seen = (
    refl,
    refl,
    refl,
    (λ id m.
        let (b, at, e) = map-In (λ (b : UserBadge). b.id) id _ m in
        rw (← e) (
          candidate-MayDisclose seen user_id request input b
            (minimize-In request.policy _ counts (now / 1000) b at))),
    (λ scope m. (keep-In _ scope request.scopes m).0),
    refl,
    refl,
    refl,
    (λ no. when-false _ (bucket_of user_id) no),
    (refl, refl, refl, refl, refl),
  )

  -- The outcome of an approval.
  unfoldable pub IsApproval :
      ℕ → String → String → ApproveInput → Store → Store → Approval × Store → Type 0
  IsApproval now code user_id input seen store (not_approved e, last) = last ≡ store
  IsApproval now code user_id input seen store (threw, last) = last ≡ store
  IsApproval now code user_id input seen store (redirect uri sent state, last) =
      (request : ValidAuthorizeRequest) × (row : AuthCode) × (verify_request input.request_token
        ≡ some request)
      × (uri ≡ request.redirect_uri)
      × (state ≡ request.state)
      × (sent ≡ code)
      × (lookup last.codes code ≡ some row)
      × IsDisclosure now seen user_id request input row
  IsApproval now code user_id input seen store (redirect_anon uri sent state app epoch, last) =
      (request : ValidAuthorizeRequest) × (row : AuthCode) × (verify_request input.request_token
        ≡ some request)
      × (uri ≡ request.redirect_uri)
      × (state ≡ request.state)
      × (sent ≡ code)
      × (lookup last.codes code ≡ some row)
      × IsDisclosure now seen user_id request input row

  answer-IsApproval :
      (now : ℕ) (code user_id : String) (input : ApproveInput) (seen store last : Store)
      (app : Option String) (epoch : Option ℕ) (request : ValidAuthorizeRequest) (row : AuthCode)
      → verify_request input.request_token ≡ some request
      → lookup last.codes code ≡ some row
      → IsDisclosure now seen user_id request input row
      → IsApproval now code user_id input seen store
          (answer_redirect app epoch request.redirect_uri code request.state, last)
  unfolding answer_redirect IsApproval
  answer-IsApproval now code user_id input seen store last none epoch request row v l d =
      (request, row, v, refl, refl, refl, l, d)
  answer-IsApproval now code user_id input seen store last (some app) epoch request row v l d =
      (request, row, v, refl, refl, refl, l, d)

  approve_signed_in-IsApproval :
      (now : ℕ) (code user_id : String) (input : ApproveInput) (seen store : Store)
      → IsApproval now code user_id input seen store (
          approve_signed_in is_cuid verify_request protocol to_lower is_email month_start counts
            bucket_of anon_identity_enabled now code user_id input seen store)
  unfolding approve_signed_in IsApproval
  approve_signed_in-IsApproval now code user_id input seen store =
      let P = IsApproval now code user_id input seen store in
      stop_if-rule P _ _ _ (λ _. refl)
        (λ valid.
          given-rule P _ _ _ (λ _. refl)
            (λ request verified.
              given-rule P _ _ _ (λ _. refl)
                (λ profile normal.
                  given-rule P _ _ _ (λ _. refl)
                    (λ last written.
                      answer-IsApproval now code user_id input seen store last _ _ request _
                        verified
                        (write_approval-codes now code user_id request _ store last written)
                        (code_row-IsDisclosure now user_id request input profile seen)))))

  -- An approval of a signed-in user, whatever tables it has read. Its code discloses only badges
  -- that are the user's, of types that the verified request asks for, and chosen now or granted to
  -- the app before; its scopes are among the requested ones; the name, the avatar and the sybil
  -- score are shared only if their scope is requested and the user approves them, and a score that
  -- is not shared has no bucket. The code carries the nonce and the challenge of the request, is
  -- not consumed and lasts a minute. The user goes to the redirect URI of the request. Every other
  -- outcome leaves the tables as they were.
  pub approve_consent-IsApproval :
      (now : ℕ) (code user_id : String) (input : ApproveInput) (seen store : Store)
      → IsApproval now code user_id input seen store (
          approve_consent is_cuid verify_request protocol to_lower is_email month_start counts
            bucket_of anon_identity_enabled now code
            (some user_id)
            input
            seen
            store)
  unfolding approve_consent given
  approve_consent-IsApproval now code user_id input seen store =
      approve_signed_in-IsApproval now code user_id input seen store
