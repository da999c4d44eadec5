-- ===== src/RateLimit/Tests.antt =====
-- Runs of the limiter, and its theorems at them.
use minister.Common.{
  ℕ, ◌+◌, ◌*◌, ◌≤◌, String, ◌≡◌, refl, true, false, none, some, List, [], ◌∷◌, arith, length,
  string_eq, if◌then◌else◌, ◌==◌,
}
use minister.RateLimit.{Options, check}
use minister.RateLimit.Log.{run, log_run, run-log_run}
use minister.RateLimit.Window.{hits_after}
use minister.RateLimit.Client.{
  Environment, Headers, trusted_proxy_hops, header_ip, forwarded, client_ip_from,
}

abbrev two_a_minute : Options
two_a_minute = record { window_ms = 60000; max_hits = 2 }

abbrev calls : List (String × ℕ)
calls = ("a", 1000) ∷ ("b", 1500) ∷ ("a", 2000) ∷ []

run-log_run_example : run two_a_minute [] calls ≡ log_run two_a_minute [] calls
run-log_run_example = run-log_run two_a_minute calls (omega arith)

third_refused :
    run two_a_minute [] (("a", 1) ∷ ("a", 2) ∷ ("a", 3) ∷ ("b", 3) ∷ ("a", 60001) ∷ [])
    ≡ true ∷ true ∷ false ∷ true ∷ true ∷ []
unfolding run check
third_refused = refl

refused :
    (check two_a_minute "a" 3000 (hits_after two_a_minute [] calls)).0
    ≡ record { allowed = false; retry_after_seconds = 58 }
unfolding check hits_after
refused = refl

refused_verdict : (check two_a_minute "a" 3000 (hits_after two_a_minute [] calls)).0.allowed ≡ false
unfolding check hits_after
refused_verdict = refl

waited :
    3000
      + 1000
        * (check two_a_minute "a" 3000 (hits_after two_a_minute [] calls)).0.retry_after_seconds
    ≤ 61000
unfolding check hits_after
waited = omega arith

abbrev one_hop : Environment
one_hop = record { client_ip_header = some ""; trusted_proxy_hops = some "1" }

abbrev forwarding : String → Headers
forwarding xff name = if name == "x-forwarded-for" then some xff else none

one_hop_trusted : trusted_proxy_hops one_hop ≡ 1
unfolding trusted_proxy_hops
one_hop_trusted = refl

no_header_ip : (xff : String) → header_ip one_hop (forwarding xff) ≡ none
unfolding header_ip
no_header_ip xff = refl

two_entries : length (forwarded " 10.0.0.9, 203.0.113.7") ≡ 2
unfolding forwarded
two_entries = refl

outer_proxy_entry : client_ip_from one_hop (forwarding "1.2.3.4, 203.0.113.7") ≡ "203.0.113.7"
unfolding client_ip_from
outer_proxy_entry = refl
