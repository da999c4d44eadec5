-- ===== src/Oidc/Authorize/Valid.antt =====
-- What an accepted authorization request has passed, and where the refusals of the others are sent.
use minister.Common.{
  ◌≤◌, String, ◌≡◌, refl, ◌≢◌, true, false, not, Option, none, some, List, arith, all, all-In,
  Entries, lookup, includes, includes→In, string_eq, ◌==◌, required-rule, given-rule, stop_if-rule,
  words, units, ap,
}
use minister.Policy.{
  PolicyNode, policy_bounds_violation, policy_depth, max_policy_depth, policy_badge_types,
}
use minister.Oidc.Authorize.{
  Client, OidcError, ValidAuthorizeRequest, AuthorizeResult, valid, redirect_error, fatal,
  PolicyResult, parsed, refused, is_registered_redirect_uri, requested_badge_types, is_violation,
  or_empty, check_policy, parse_minister_policy, with_policy, validate_parameters,
  validate_authorize_request, is_text, max_policy_bytes,
}

-- A policy within the limits, all of whose badge types have their scope.
unfoldable pub IsWithin : List String → Option PolicyNode → Type 0
IsWithin scopes none = Unit
IsWithin scopes (some policy) =
    (policy_bounds_violation policy ≡ none)
    × (policy_depth policy ≤ max_policy_depth)
    × ((type : String)
        → includes type (policy_badge_types policy) ≡ true
        → includes type (requested_badge_types scopes) ≡ true)

-- The client of a request, and its redirect URI, which is registered.
unfoldable pub IsRegistered :
    Entries String Client → (String → Option String) → String → Client → String → Type 0
IsRegistered clients raw client_id client uri =
    (raw "client_id" ≡ some client_id)
    × ((client_id == "") ≡ false)
    × (lookup clients client_id ≡ some client)
    × (raw "redirect_uri" ≡ some uri)
    × ((uri == "") ≡ false)
    × (is_registered_redirect_uri client uri ≡ true)

-- What a request that goes on to the consent screen is known to be.
unfoldable pub IsSound :
    Entries String Client → (String → Option String) → ValidAuthorizeRequest → Client → Type 0
IsSound clients raw r client =
    IsRegistered clients raw r.client_id client r.redirect_uri
    × (includes "openid" r.scopes ≡ true)
    × ((scope : String)
        → includes scope r.scopes ≡ true
        → includes scope client.allowed_scopes ≡ true)
    × ((r.state == "") ≡ false)
    × ((r.nonce == "") ≡ false)
    × ((r.code_challenge == "") ≡ false)
    × IsWithin r.scopes r.policy

all_allowed :
    (allowed asked : List String)
    → not (all (λ s. includes s allowed) asked) ≡ false
    → (s : String) → includes s asked ≡ true
    → includes s allowed ≡ true
all_allowed allowed asked h s m =
    all-In (λ t. includes t allowed) {xs = asked} (ground (arith, h)) (includes→In s asked m)

no_violation : (o : Option String) → is_violation o ≡ false → o ≡ none
unfolding is_violation
no_violation none h = refl
no_violation (some reason) h = cc

-- A policy that is parsed is within the limits, and is as `Q` says.
unfoldable PolicyIsWithin : List String → (Option PolicyNode → Type 0) → PolicyResult → Type 0
PolicyIsWithin scopes Q (parsed policy) = IsWithin scopes policy × Q policy
PolicyIsWithin scopes Q (refused e) = Unit

check_policy-IsWithin :
    (scopes : List String) (Q : Option PolicyNode → Type 0) (policy : PolicyNode)
    → Q (some policy)
    → PolicyIsWithin scopes Q (check_policy scopes policy)
unfolding check_policy PolicyIsWithin IsWithin
check_policy-IsWithin scopes Q policy q =
    let within = PolicyIsWithin scopes Q in
    stop_if-rule within _ _ _ (λ _. tt)
      (λ bounded.
        stop_if-rule within _ _ _ (λ _. tt)
          (λ flat.
            stop_if-rule within _ _ _ (λ _. tt)
              (λ asked. (
                (
                  no_violation _ bounded,
                  ground (arith, flat),
                  all_allowed (requested_badge_types scopes) (policy_badge_types policy) asked,
                ),
                q,
              ))))

module _ {Json : Type 0} (decode : String → Option String) (parse_json : String → Option Json)
    (parse_policy : Json → Option PolicyNode) (clients : Entries String Client)
    (raw : String → Option String) where
  -- The policy that a parameter carries, in no more bytes than allowed; no policy if it is missing or
  -- empty.
  unfoldable pub HasPolicy : Option String → Option PolicyNode → Type 0
  HasPolicy param none = (t : String) → param ≡ some t → ¬ ((t == "") ≡ false)
  HasPolicy param (some policy) =
      (t json : String) × (value : Json) × (param ≡ some t)
      × (decode t ≡ some json)
      × (units json ≤ max_policy_bytes)
      × (parse_json json ≡ some value)
      × (parse_policy value ≡ some policy)

  -- An accepted request is the one that was sent: its response type is code and its challenge method S256,
  -- and it has the state, the nonce, the challenge, the scopes and the policy of the parameters.
  unfoldable pub IsAsked : ValidAuthorizeRequest → Client → Type 0
  IsAsked r client =
      (raw "response_type" ≡ some "code")
      × (raw "code_challenge_method" ≡ some "S256")
      × (raw "state" ≡ some r.state)
      × (raw "nonce" ≡ some r.nonce)
      × (raw "code_challenge" ≡ some r.code_challenge)
      × (r.scopes ≡ words (or_empty (raw "scope")))
      × (r.allowed_scopes ≡ client.allowed_scopes)
      × HasPolicy (raw "minister_policy") r.policy

  unfoldable pub IsAnswered : String → Client → String → AuthorizeResult → Type 0
  IsAnswered client_id client uri (valid r) = IsSound clients raw r client × IsAsked r client
  IsAnswered client_id client uri (redirect_error to state e) = to ≡ uri
  IsAnswered client_id client uri (fatal f) = ⊥

  the_text : (t : String) (found : Option String) → not (is_text t found) ≡ false → found ≡ some t
  unfolding is_text
  the_text t none h = cc
  the_text t (some s) h = ap some ((string_eq.same_iff s t).0 (ground (arith, h)))

  parse_minister_policy-IsWithin :
      (param : Option String) (scopes : List String)
      → PolicyIsWithin scopes
          (HasPolicy param)
          (parse_minister_policy decode parse_json parse_policy param scopes)
  unfolding parse_minister_policy PolicyIsWithin IsWithin HasPolicy
  parse_minister_policy-IsWithin param scopes =
      let within = PolicyIsWithin scopes (HasPolicy param) in
      required-rule within _ _ _ (λ missing. (tt, λ t is full. missing t is full))
        (λ text sent _.
          given-rule within _ _ _ (λ _. tt)
            (λ json decoded.
              stop_if-rule within _ _ _ (λ _. tt)
                (λ small.
                  given-rule within _ _ _ (λ _. tt)
                    (λ value is_json.
                      given-rule within _ _ _ (λ _. tt)
                        (λ policy is_policy. check_policy-IsWithin scopes (HasPolicy param) policy (
                          text,
                          json,
                          value,
                          sent,
                          decoded,
                          ground (arith, small),
                          is_json,
                          is_policy,
                        ))))))

  with_policy-rule :
      (P : AuthorizeResult → Type 0) (scopes : List String) (result : PolicyResult)
      (Q : Option PolicyNode → Type 0) (stop : OidcError → AuthorizeResult)
      (k : Option PolicyNode → AuthorizeResult)
      → PolicyIsWithin scopes Q result
      → ((e : OidcError) → P (stop e))
      → ((policy : Option PolicyNode) → IsWithin scopes policy → Q policy → P (k policy))
      → P (with_policy decode parse_json parse_policy result stop k)
  unfolding with_policy PolicyIsWithin
  with_policy-rule P scopes (parsed policy) Q stop k w s h = h policy w.0 w.1
  with_policy-rule P scopes (refused e) Q stop k w s h = s e

  validate_parameters-IsAnswered :
      (client_id : String) (client : Client) (uri : String)
      → IsRegistered clients raw client_id client uri
      → IsAnswered client_id client uri
          (validate_parameters decode parse_json parse_policy raw client_id client uri)
  unfolding validate_parameters IsAnswered IsSound IsAsked
  validate_parameters-IsAnswered client_id client uri reg =
      let P = IsAnswered client_id client uri in
      let scopes = words (or_empty (raw "scope")) in
      stop_if-rule P _ _ _ (λ _. refl)
        (λ code.
          required-rule P _ _ _ (λ _. refl)
            (λ state is_state has_state.
              required-rule P _ _ _ (λ _. refl)
                (λ nonce is_nonce has_nonce.
                  required-rule P _ _ _ (λ _. refl)
                    (λ challenge is_challenge has_challenge.
                      stop_if-rule P _ _ _ (λ _. refl)
                        (λ method.
                          stop_if-rule P _ _ _ (λ _. refl)
                            (λ openid.
                              stop_if-rule P _ _ _ (λ _. refl)
                                (λ allowed.
                                  with_policy-rule P scopes _ (HasPolicy (raw "minister_policy")) _
                                    _
                                    (parse_minister_policy-IsWithin (raw "minister_policy") scopes)
                                    (λ e. refl)
                                    (λ policy within carried. (
                                      (
                                        reg,
                                        ground (arith, openid),
                                        all_allowed client.allowed_scopes scopes allowed,
                                        has_state,
                                        has_nonce,
                                        has_challenge,
                                        within,
                                      ),
                                      (
                                        the_text "code" _ code,
                                        the_text "S256" _ method,
                                        is_state,
                                        is_nonce,
                                        is_challenge,
                                        refl,
                                        refl,
                                        carried,
                                      ),
                                    )))))))))

  one_client :
      (a b : String) (client : Client)
      → raw "client_id" ≡ some a
      → raw "client_id" ≡ some b
      → lookup clients a ≡ none
      → lookup clients b ≢ some client
  one_client a b client h k u f = cc

  one_uri :
      (a b u v : String) (client found : Client)
      → raw "client_id" ≡ some a
      → raw "client_id" ≡ some b
      → lookup clients a ≡ some client
      → lookup clients b ≡ some found
      → raw "redirect_uri" ≡ some u
      → raw "redirect_uri" ≡ some v
      → not (is_registered_redirect_uri client u) ≡ true
      → is_registered_redirect_uri found v ≢ true
  one_uri a b u v client found h k f g p q n l = ground arith

  -- The result of a request, by whether its redirect URI is registered.
  unfoldable pub IsChecked : AuthorizeResult → Type 0
  IsChecked (fatal f) =
      (client_id : String) (client : Client) (uri : String)
      → ¬ IsRegistered clients raw client_id client uri
  IsChecked (valid r) = (client : Client) × IsSound clients raw r client × IsAsked r client
  IsChecked (redirect_error to state e) =
      (client_id : String) × (client : Client) × IsRegistered clients raw client_id client to

  IsAnswered-IsChecked :
      (client_id : String) (client : Client) (uri : String)
      → IsRegistered clients raw client_id client uri
      → (r : AuthorizeResult) → IsAnswered client_id client uri r
      → IsChecked r
  unfolding IsAnswered IsChecked
  IsAnswered-IsChecked client_id client uri reg (valid r) h = (client, h.0, h.1)
  IsAnswered-IsChecked client_id client uri reg (redirect_error to state e) h =
      (client_id, client, rw h reg)
  IsAnswered-IsChecked client_id client uri reg (fatal f) h = absurd h

  -- A redirect that carries an error goes to a redirect URI that is registered for the client that
  -- the request names; a fatal error, which redirects nowhere, is shown only if the request has no
  -- such client or URI. An accepted request is one that was sent with the response type code and
  -- the challenge method S256, and it has the state, the nonce, the challenge and the scopes of the
  -- parameters, and the policy of its parameter if that is neither missing nor empty, which is then
  -- within the limit on its bytes. Its client and URI are registered and its scopes, parameters and
  -- policy are within what is allowed.
  pub validate_authorize_request-IsChecked :
      IsChecked (validate_authorize_request decode parse_json parse_policy clients raw)
  unfolding validate_authorize_request IsChecked IsRegistered
  validate_authorize_request-IsChecked =
      required-rule IsChecked _ _ _
        (λ missing. λ client_id client uri reg. missing client_id reg.0 reg.1)
        (λ client_id e has_id.
          given-rule IsChecked _ _ _
            (λ unknown.
              λ other client uri reg. one_client client_id other client e reg.0 unknown reg.2)
            (λ client found.
              required-rule IsChecked _ _ _
                (λ missing. λ other found_client uri reg. missing uri reg.3 reg.4)
                (λ uri to_is has_uri.
                  stop_if-rule IsChecked _ _ _
                    (λ unlisted. λ other found_client to reg.
                      one_uri client_id other uri to client found_client e reg.0 found reg.2 to_is
                        reg.3 unlisted reg.5)
                    (λ listed.
                      let reg : IsRegistered clients raw client_id client uri =
                        (e, has_id, found, to_is, has_uri, ground (arith, listed)) in
                      IsAnswered-IsChecked client_id client uri reg _
                        (validate_parameters-IsAnswered client_id client uri reg)))))

  -- An accepted request names a known client and one of its registered redirect URIs. Its scopes
  -- contain openid and are all allowed to the client; its state, nonce and PKCE challenge are not
  -- empty; and a policy that it carries is within the limits on its breadth and depth, and asks for
  -- no badge type whose scope is missing.
  pub validate_authorize_request-IsSound :
      (r : ValidAuthorizeRequest)
      → validate_authorize_request decode parse_json parse_policy clients raw ≡ valid r
      → (client : Client) × IsSound clients raw r client
  unfolding IsChecked
  validate_authorize_request-IsSound r e =
      let checked : IsChecked
          (validate_authorize_request decode parse_json parse_policy clients raw) =
        validate_authorize_request-IsChecked in
      let (client, sound, _) = rw e at checked in (client, sound)
