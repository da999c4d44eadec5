-- ===== src/RateLimit/Client/Forgery.antt =====
-- A client cannot choose its bucket by what it writes in X-Forwarded-For.
use Prim.Native.String
use minister.Common.{
  ℕ, suc, ◌-◌, ◌≤◌, ◌<◌, String, ◌≡◌, refl, ap, sym, ◌∙◌, not, none, some, List, [], ◌∷◌, ◌++◌, map,
  Bool-cases, inl, inr, arith, eq_iff, string_eq, ◌==◌, length, keep, length-append, keep-append,
  get_elem?, trim, split, split-append,
}
use minister.RateLimit.Client.{
  Environment, Headers, trusted_proxy_hops, header_ip, forwarded, forwarded_ip, client_ip_from,
  client_ip_from_lem, forwarded_ip_lem,
}

map-append : (f : String → String) (xs ys : List String) → map f (xs ++ ys) ≡ map f xs ++ map f ys
map-append f [] ys = refl
map-append f (x ∷ xs) ys = ap (λ r. f x ∷ r) (map-append f xs ys)

-- `spoof ++ "," ++ xff`, what a proxy makes of a header that the client sent.
abbrev pub appended : String → String → String
appended spoof xff = String.◌++◌ spoof (String.◌∷◌ "," xff)

forwarded-appended :
    (spoof xff : String) → forwarded (appended spoof xff) ≡ forwarded spoof ++ forwarded xff
unfolding forwarded
forwarded-appended spoof xff =
    ap (λ ps. keep (λ p. not (p == "")) (map trim ps)) (split-append "," spoof xff)
    ∙ ap (keep (λ p. not (p == ""))) (map-append trim (split b',' spoof) (split b',' xff))
    ∙ keep-append (λ p. not (p == "")) (map trim (split b',' spoof)) (map trim (split b',' xff))

-- The element that stands `h` places from the end is not changed by what stands in front.
get_elem?-from_end :
    (xs ys : List String) (h : ℕ)
    → h ≤ length ys
    → get_elem? (xs ++ ys) (length (xs ++ ys) - h) ≡ get_elem? ys (length ys - h)
get_elem?-from_end [] ys h le = refl
get_elem?-from_end (x ∷ xs) ys h le =
    let e : length (x ∷ xs ++ ys) - h ≡ suc (length (xs ++ ys) - h) =
      omega (arith, length-append xs ys) in
    ap (get_elem? (x ∷ xs ++ ys)) e ∙ get_elem?-from_end xs ys h le

forwarded-empty : forwarded "" ≡ []
unfolding forwarded
forwarded-empty = refl

forwarded_ip-some :
    (hops : ℕ) (headers : Headers) (xff : String)
    → headers "x-forwarded-for" ≡ some xff
    → forwarded_ip hops headers ≡ get_elem? (forwarded xff) (length (forwarded xff) - hops)
forwarded_ip-some hops headers xff h =
    rw (forwarded_ip_lem hops headers, h)
      (elim (Bool-cases (xff == "")) [
        | inl blank ↦
            let p : xff ≡ "" = (eq_iff xff "").0 blank in rw blank (rw (p, forwarded-empty))
        | inr full ↦ rw full
      ])

shut_client_ip :
    (env : Environment) (headers spoofed : Headers)
    → header_ip env headers ≡ none
    → header_ip env spoofed ≡ none
    → forwarded_ip (trusted_proxy_hops env) spoofed ≡ forwarded_ip (trusted_proxy_hops env) headers
    → client_ip_from env spoofed ≡ client_ip_from env headers
shut_client_ip env headers spoofed off off' e =
    rw (client_ip_from_lem env spoofed, client_ip_from_lem env headers, off, off', e)

-- With `h` trusted hops (h > 0) and no trusted header on the request: if the proxies wrote at least
-- `h` entries that are not empty, whatever text the client put in front of them leaves the bucket
-- key as it is.
client_ip_from-appended :
    (env : Environment) (headers spoofed : Headers) (spoof xff : String)
    → 0 < trusted_proxy_hops env
    → header_ip env headers ≡ none
    → header_ip env spoofed ≡ none
    → headers "x-forwarded-for" ≡ some xff
    → spoofed "x-forwarded-for" ≡ some (appended spoof xff)
    → trusted_proxy_hops env ≤ length (forwarded xff)
    → client_ip_from env spoofed ≡ client_ip_from env headers
client_ip_from-appended env headers spoofed spoof xff pos off off' h h' enough =
    let e : forwarded_ip (trusted_proxy_hops env) spoofed
        ≡ forwarded_ip (trusted_proxy_hops env) headers =
      forwarded_ip-some (trusted_proxy_hops env) spoofed (appended spoof xff) h'
      ∙ rw forwarded-appended
          (get_elem?-from_end (forwarded spoof) (forwarded xff) (trusted_proxy_hops env) enough)
      ∙ sym (forwarded_ip-some (trusted_proxy_hops env) headers xff h) in
    shut_client_ip env headers spoofed off off' e
