-- ===== src/RateLimit.antt =====
-- apps/minister/src/lib/rate-limit.ts: the sliding-window limiter. Times are milliseconds.
-- `t > now - windowMs` is written `now < t + windowMs`, which is the same test on the integers.
pub mod Log
pub mod Window
pub mod Client
mod Tests
use minister.Common.{
  ℕ, ◌+◌, ◌-◌, ◌/◌, String, max, Bool, true, false, Option, none, some, List, [], ◌∷◌, ◌++◌, ltb,
  leb, if◌then◌else◌, string_eq, length, keep, lookup, insert,
}

pub record Options : Type 0 where
  pub window_ms : ℕ
  pub max_hits : ℕ

pub record Verdict : Type 0 where
  pub allowed : Bool
  pub retry_after_seconds : ℕ

abbrev pub Hits : Type 0
Hits = List (String × List ℕ)

abbrev pub sweep_threshold : ℕ
sweep_threshold = 10000

-- A hit at `t` is counted at `now`.
unfoldable pub is_live : Options → ℕ → ℕ → Bool
is_live o now t = ltb now (t + o.window_ms)

abbrev pub keep_entry : String → List ℕ → Hits → Hits
keep_entry key [] rest = rest
keep_entry key (t ∷ ts) rest = (key, t ∷ ts) ∷ rest

unfoldable pub sweep : Options → ℕ → Hits → Hits
unfolding is_live
sweep o now [] = []
sweep o now ((key, hits) ∷ m) = keep_entry key (keep (is_live o now) hits) (sweep o now m)

-- `hits.get(key) ?? []`
abbrev pub or_empty : Option (List ℕ) → List ℕ
or_empty none = []
or_empty (some ts) = ts

-- `live[0] ?? now`
abbrev pub first_or : ℕ → List ℕ → ℕ
first_or now [] = now
first_or now (t ∷ ts) = t

-- Math.ceil(ms / 1000); a live hit is younger than the window, so `ms` is not negative.
unfoldable pub seconds_up : ℕ → ℕ
seconds_up ms = (ms + 999) / 1000

unfoldable pub swept : Options → ℕ → Hits → Hits
unfolding sweep
swept o now hits = if ltb sweep_threshold (length hits) then sweep o now hits else hits

-- The part of `check` after the sweep.
unfoldable pub count_hit : Options → String → ℕ → Hits → Verdict × Hits
unfolding is_live seconds_up lookup insert
count_hit o key now hits =
    let live = keep (is_live o now) (or_empty (lookup hits key)) in
    if leb o.max_hits (length live)
    then (
      record {
        allowed = false;
        retry_after_seconds = max 1 (seconds_up (first_or now live + o.window_ms - now));
      },
      insert hits key live,
    )
    else (record { allowed = true; retry_after_seconds = 0 }, insert hits key (live ++ now ∷ []))

unfoldable pub check : Options → String → ℕ → Hits → Verdict × Hits
unfolding swept count_hit
check o key now hits = count_hit o key now (swept o now hits)
