-- ===== src/RateLimit/Window.antt =====
-- What the limiter guarantees after any run: no window holds more than `max` admitted hits, and a
-- client that waits for the time that a refusal names is admitted.
use minister.Common.{
  ℕ, ◌+◌, ◌*◌, ◌≤◌, ◌<◌, String, ◌≡◌, refl, sym, ◌∙◌, true, false, List, [], ◌∷◌, arith, eq_iff,
  string_eq, length, keep, length-append, length-keep-le, lookup,
}
use minister.RateLimit.{Options, Hits, is_live, or_empty, first_or, swept, check}
use minister.RateLimit.Log.{
  Log, hits_of, in_window, log_allows, log_check, keep-keep, in_window-append, Follows, check-step,
  swept-Follows, InOrder,
}

-- The limiter and the log after a run, and the time of its last call.
unfoldable pub hits_after : Options → Hits → List (String × ℕ) → Hits
hits_after o hits [] = hits
hits_after o hits ((key, now) ∷ calls) = hits_after o (check o key now hits).1 calls

unfoldable pub log_after : Options → Log → List (String × ℕ) → Log
log_after o log [] = log
log_after o log ((key, now) ∷ calls) = log_after o (log_check o key now log) calls

abbrev pub end_time : ℕ → List (String × ℕ) → ℕ
end_time last [] = last
end_time last ((key, now) ∷ calls) = end_time now calls

-- No window that ends at `last` or later holds more than `max` admitted hits of one key.
abbrev pub IsBounded : Options → ℕ → Log → Type 0
IsBounded o last log =
    (key : String) (now : ℕ) → last ≤ now → length (in_window o key now log) ≤ o.max_hits

in_window-shrinks :
    (o : Options) (key : String) (now later : ℕ) (log : Log)
    → now ≤ later
    → length (in_window o key later log) ≤ length (in_window o key now log)
unfolding in_window
in_window-shrinks o key now later log h =
    rw (← keep-keep o now later (hits_of key log) h)
      (length-keep-le (is_live o later) (keep (is_live o now) (hits_of key log)))

log_check-IsBounded :
    (o : Options) (key : String) (last now : ℕ) (log : Log)
    → last ≤ now
    → IsBounded o last log
    → IsBounded o now (log_check o key now log)
unfolding log_check log_allows
log_check-IsBounded o key last now log h b j later le = ground (
  arith,
  eq_iff key j,
  b j later,
  b j now,
  in_window-append o j key now later log,
  in_window-shrinks o j now later log,
  length-append (in_window o j later log) (keep (is_live o later) (now ∷ [])),
)

log_after-IsBounded :
    (o : Options) (last : ℕ) (log : Log) (calls : List (String × ℕ))
    → InOrder last calls
    → IsBounded o last log
    → IsBounded o (end_time last calls) (log_after o log calls)
unfolding log_after
log_after-IsBounded o last log [] h b = b
log_after-IsBounded o last log ((key, now) ∷ calls) h b =
    log_after-IsBounded o now (log_check o key now log) calls h.1
      (log_check-IsBounded o key last now log h.0 b)

hits_after-Follows :
    (o : Options) (last : ℕ) (hits : Hits) (log : Log) (calls : List (String × ℕ))
    → InOrder last calls
    → Follows o last hits log
    → Follows o (end_time last calls) (hits_after o hits calls) (log_after o log calls)
unfolding hits_after log_after
hits_after-Follows o last hits log [] h f = f
hits_after-Follows o last hits log ((key, now) ∷ calls) h f =
    hits_after-Follows o now (check o key now hits).1 (log_check o key now log) calls h.1
      (check-step o key last now hits log h.0 f).1

-- After any run of a fresh limiter at times that do not decrease, for every key and every time from
-- the last call on, the window before that time holds at most `max` admitted hits of the key.
log_after-bounded :
    (o : Options) (calls : List (String × ℕ)) (key : String) (now : ℕ)
    → InOrder 0 calls
    → end_time 0 calls ≤ now
    → length (in_window o key now (log_after o [] calls)) ≤ o.max_hits
unfolding in_window
log_after-bounded o calls key now h le =
    log_after-IsBounded o 0 [] calls h (λ k t p. omega arith) key now le

-- Once the first of some live hits has left the window, fewer of them are live.
keep-first_gone :
    (o : Options) (now later : ℕ) (ts : List ℕ)
    → 0 < length (keep (is_live o now) ts)
    → first_or now (keep (is_live o now) ts) + o.window_ms ≤ later
    → now ≤ later
    → length (keep (is_live o later) ts) < length (keep (is_live o now) ts)
unfolding is_live
keep-first_gone o now later [] pos gone le = absurd (omega arith)
keep-first_gone o now later (t ∷ ts) pos gone le = ground (
  arith,
  keep-first_gone o now later ts,
  keep-keep o now later ts le,
  length-keep-le (is_live o later) (keep (is_live o now) ts),
)

-- The time that a refusal names reaches the moment at which its first live hit leaves the window.
refusal_wait :
    (o : Options) (key : String) (now : ℕ) (hits : Hits)
    → (check o key now hits).0.allowed ≡ false
    → first_or now (keep (is_live o now) (or_empty (lookup (swept o now hits) key))) + o.window_ms
      ≤ now + 1000 * (check o key now hits).0.retry_after_seconds
unfolding check
refusal_wait o key now hits h = ground arith

refused_log :
    (o : Options) (key : String) (now : ℕ) (log : Log)
    → log_allows o key now log ≡ false
    → (log_check o key now log ≡ log) × (o.max_hits ≤ length (in_window o key now log))
unfolding log_check log_allows
refused_log o key now log h = ground arith

log_allows_below :
    (o : Options) (key : String) (now : ℕ) (log : Log)
    → length (in_window o key now log) < o.max_hits
    → log_allows o key now log ≡ true
unfolding log_allows
log_allows_below o key now log h = ground arith

wait-admitted :
    (o : Options) (key : String) (last now later : ℕ) (hits : Hits) (log : Log)
    → Follows o last hits log
    → IsBounded o last log
    → last ≤ now
    → 0 < o.max_hits
    → (check o key now hits).0.allowed ≡ false
    → now + 1000 * (check o key now hits).0.retry_after_seconds ≤ later
    → now ≤ later
    → (check o key later (check o key now hits).1).0.allowed ≡ true
wait-admitted o key last now later hits log f b le pos denied waited ahead =
    let (verdict, f1) = check-step o key last now hits log le f in
    let f' = swept-Follows o last now hits log le f in
    let (kept, full) = refused_log o key now log (sym verdict ∙ denied) in
    let same = f'.same key now (omega arith) in
    let wait = rw same at (refusal_wait o key now hits denied) in
    let gone : first_or now (in_window o key now log) + o.window_ms ≤ later = omega (arith, wait) in
    let fewer : length (in_window o key later log) < length (in_window o key now log) =
      unfold in_window in keep-first_gone o now later (hits_of key log) (omega arith) gone ahead in
    (check-step o key now later (check o key now hits).1 (log_check o key now log) ahead f1).0
    ∙ rw kept (log_allows_below o key later log (omega (arith, b key now le)))

-- After any run of a fresh limiter at times that do not decrease, with room for at least one hit: a
-- client that is refused, and whose next call comes after the seconds that the refusal names with no
-- call to the limiter between, is admitted.
retry-admitted :
    (o : Options) (calls : List (String × ℕ)) (key : String) (now later : ℕ)
    → InOrder 0 calls
    → end_time 0 calls ≤ now
    → 0 < o.max_hits
    → (check o key now (hits_after o [] calls)).0.allowed ≡ false
    → now + 1000 * (check o key now (hits_after o [] calls)).0.retry_after_seconds ≤ later
    → (check o key later (check o key now (hits_after o [] calls)).1).0.allowed ≡ true
unfolding in_window lookup
retry-admitted o calls key now later h le pos denied waited =
    wait-admitted o key (end_time 0 calls) now later (hits_after o [] calls) (log_after o [] calls)
      (hits_after-Follows o 0 [] [] calls h (record { is_map = tt; same = λ k t p. refl }))
      (log_after-IsBounded o 0 [] calls h (λ k t p. omega arith)) le pos denied waited (omega arith)
