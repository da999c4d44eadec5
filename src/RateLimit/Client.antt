-- ===== src/RateLimit/Client.antt =====
-- apps/minister/src/lib/rate-limit.ts: `clientIpFrom`, the bucket key of a request. The environment
-- and the request's headers are arguments.
pub mod Forgery
use minister.Common.{
  ℕ, ◌-◌, String, ◌≡◌, refl, not, Option, none, some, List, map, if◌then◌else◌, string_eq, ◌==◌,
  length, keep, get_elem?, ltb, trim, split, parse_positive,
}

pub record Environment : Type 0 where
  -- MINISTER_CLIENT_IP_HEADER and MINISTER_TRUSTED_PROXY_HOPS.
  pub client_ip_header : Option String
  pub trusted_proxy_hops : Option String

abbrev pub Headers : Type 0
Headers = String → Option String

abbrev pub or_default : Option String → String → String
or_default none d = d
or_default (some s) d = s

-- `raw ? … : fallback` over `parseInt`: also `envMax`.
unfoldable pub env_max : Option String → ℕ → ℕ
unfolding parse_positive
env_max none fallback = fallback
env_max (some raw) fallback = elim (parse_positive raw) [ none ↦ fallback | some n ↦ n ]

unfoldable pub trusted_proxy_hops : Environment → ℕ
unfolding env_max
trusted_proxy_hops env = env_max env.trusted_proxy_hops 0

-- An absent or empty text is `none`.
abbrev pub nonempty : Option String → Option String
nonempty none = none
nonempty (some s) = if s == "" then none else some s

unfoldable pub header_ip : Environment → Headers → Option String
unfolding trim
header_ip env headers =
    let trusted = or_default env.client_ip_header "cf-connecting-ip" in
    if trusted == ""
    then none
    else elim (headers trusted) [ none ↦ none | some value ↦ nonempty (some (trim value)) ]

-- The entries of X-Forwarded-For.
unfoldable pub forwarded : String → List String
unfolding trim split
forwarded xff = keep (λ p. not (p == "")) (map trim (split b',' xff))

-- The entry that the outermost trusted proxy wrote, or the leftmost one.
abbrev pub hop_entry : ℕ → Option String → Option String
hop_entry hops none = none
hop_entry hops (some xff) = get_elem? (forwarded xff) (length (forwarded xff) - hops)

unfoldable pub forwarded_ip : ℕ → Headers → Option String
unfolding forwarded
forwarded_ip hops headers = hop_entry hops (nonempty (headers "x-forwarded-for"))

abbrev pub first_ip : Option String → Option String → String
first_ip (some ip) _ = ip
first_ip none (some ip) = ip
first_ip none none = "unknown"

-- `hops > 0` guards the second source.
unfoldable pub client_ip_from : Environment → Headers → String
unfolding header_ip forwarded_ip trusted_proxy_hops
client_ip_from env headers =
    let hops = trusted_proxy_hops env in
    first_ip (header_ip env headers) (if ltb 0 hops then forwarded_ip hops headers else none)

pub client_ip_from_lem :
    (env : Environment) (headers : Headers)
    → client_ip_from env headers
      ≡ first_ip (header_ip env headers) (
          if ltb 0 (trusted_proxy_hops env)
          then forwarded_ip (trusted_proxy_hops env) headers
          else none)
unfolding client_ip_from
client_ip_from_lem env headers = refl

pub forwarded_ip_lem :
    (hops : ℕ) (headers : Headers)
    → forwarded_ip hops headers ≡ hop_entry hops (nonempty (headers "x-forwarded-for"))
unfolding forwarded_ip
forwarded_ip_lem hops headers = refl
