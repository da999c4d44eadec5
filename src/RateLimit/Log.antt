-- ===== src/RateLimit/Log.antt =====
-- The limiter against a limiter that never forgets a hit: the same verdicts, and the window's bound.
use minister.Common.{
  ℕ, ◌≤◌, String, ◌≡◌, refl, ap, ◌∙◌, Bool, true, false, none, List, [], ◌∷◌, ◌++◌, inl, inr, arith,
  eq_iff, ltb, leb, if◌then◌else◌, Bool-cases, string_eq, ◌==◌, same_refl, length, keep,
  keep-append, lookup, insert, lookup-insert, IsMap, insert-IsMap,
}
use minister.RateLimit.{
  Options, Hits, sweep_threshold, is_live, keep_entry, sweep, or_empty, swept, count_hit, check,
}

-- The reference: every admitted hit with its key, oldest first, and no map and no sweep.
abbrev pub Log : Type 0
Log = List (String × ℕ)

unfoldable pub hits_of : String → Log → List ℕ
hits_of key [] = []
hits_of key ((k, t) ∷ log) = if k == key then t ∷ hits_of key log else hits_of key log

-- The admitted hits of `key` that the window before `now` still holds.
unfoldable pub in_window : Options → String → ℕ → Log → List ℕ
unfolding hits_of is_live
in_window o key now log = keep (is_live o now) (hits_of key log)

unfoldable pub log_allows : Options → String → ℕ → Log → Bool
log_allows o key now log = ltb (length (in_window o key now log)) o.max_hits

unfoldable pub log_check : Options → String → ℕ → Log → Log
unfolding log_allows
log_check o key now log = if log_allows o key now log then log ++ (key, now) ∷ [] else log

hits_of-append :
    (key k : String) (t : ℕ) (log : Log)
    → hits_of key (log ++ (k, t) ∷ [])
      ≡ (if k == key then hits_of key log ++ t ∷ [] else hits_of key log)
unfolding hits_of
hits_of-append key k t [] = ground arith
hits_of-append key k t ((j, s) ∷ log) = ground (arith, hits_of-append key k t log)

-- A hit that has left the window stays out of it.
pub keep-keep :
    (o : Options) (last now : ℕ) (ts : List ℕ)
    → last ≤ now
    → keep (is_live o now) (keep (is_live o last) ts) ≡ keep (is_live o now) ts
unfolding is_live
keep-keep o last now [] h = refl
keep-keep o last now (t ∷ ts) h = ground (arith, keep-keep o last now ts)

lookup-keep_entry :
    (key k : String) (ts : List ℕ) (m : Hits)
    → or_empty (lookup m k) ≡ []
    → or_empty (lookup (keep_entry k ts m) key) ≡ (if k == key then ts else or_empty (lookup m key))
unfolding lookup
lookup-keep_entry key k [] m h = ground (arith, eq_iff k key)
lookup-keep_entry key k (t ∷ ts) m h = ground arith

lookup-sweep :
    (o : Options) (now : ℕ) (key : String) (hits : Hits)
    → IsMap hits
    → or_empty (lookup (sweep o now hits) key) ≡ keep (is_live o now) (or_empty (lookup hits key))
unfolding sweep lookup
lookup-sweep o now key [] h = refl
lookup-sweep o now key ((k, ts) ∷ m) h =
    lookup-keep_entry key k (keep (is_live o now) ts) (sweep o now m)
      (lookup-sweep o now k m h.1 ∙ ap (λ r. keep (is_live o now) (or_empty r)) h.0)
    ∙ ground (arith, lookup-sweep o now key m h.1)

keep_entry-IsMap :
    (k : String) (ts : List ℕ) (m : Hits) → lookup m k ≡ none → IsMap m → IsMap (keep_entry k ts m)
keep_entry-IsMap k [] m h g = g
keep_entry-IsMap k (t ∷ ts) m h g = (h, g)

lookup-keep_entry-none :
    (key k : String) (ts : List ℕ) (m : Hits)
    → (k == key) ≡ false
    → lookup m key ≡ none
    → lookup (keep_entry k ts m) key ≡ none
unfolding lookup
lookup-keep_entry-none key k [] m e h = h
lookup-keep_entry-none key k (t ∷ ts) m e h = rw e h

lookup-sweep-none :
    (o : Options) (now : ℕ) (key : String) (hits : Hits)
    → lookup hits key ≡ none
    → lookup (sweep o now hits) key ≡ none
unfolding sweep lookup
lookup-sweep-none o now key [] h = refl
lookup-sweep-none o now key ((k, ts) ∷ m) h = elim (Bool-cases (k == key)) [
  | inl same ↦ absurd (ground arith)
  | inr other ↦
      lookup-keep_entry-none key k (keep (is_live o now) ts) (sweep o now m) other
        (lookup-sweep-none o now key m (ground arith))
]

sweep-IsMap : (o : Options) (now : ℕ) (hits : Hits) → IsMap hits → IsMap (sweep o now hits)
unfolding sweep
sweep-IsMap o now [] h = tt
sweep-IsMap o now ((k, ts) ∷ m) h =
    keep_entry-IsMap k (keep (is_live o now) ts) (sweep o now m) (lookup-sweep-none o now k m h.0)
      (sweep-IsMap o now m h.1)

-- The recorded hits of each key are, at every time from `last` on, the admitted ones.
pub record Follows (o : Options) (last : ℕ) (hits : Hits) (log : Log) : Type 0 where
  pub is_map : IsMap hits
  pub same :
      (key : String) (now : ℕ)
      → last ≤ now
      → keep (is_live o now) (or_empty (lookup hits key)) ≡ in_window o key now log

pub swept-Follows :
    (o : Options) (last now : ℕ) (hits : Hits) (log : Log)
    → last ≤ now
    → Follows o last hits log
    → Follows o now (swept o now hits) log
unfolding swept
swept-Follows o last now hits log h f = elim (Bool-cases (ltb sweep_threshold (length hits))) [
  | inl big ↦ rw big (record {
    is_map = sweep-IsMap o now hits f.is_map;
    same = λ key later le.
        ap (keep (is_live o later)) (lookup-sweep o now key hits f.is_map)
        ∙ keep-keep o now later (or_empty (lookup hits key)) le
        ∙ f.same key later (omega arith);
  })
  | inr small ↦
      rw small (record { is_map = f.is_map; same = λ key later le. f.same key later (omega arith) })
]

pub in_window-append :
    (o : Options) (key k : String) (t now : ℕ) (log : Log)
    → in_window o key now (log ++ (k, t) ∷ []) ≡ (
        if k == key
        then in_window o key now log ++ keep (is_live o now) (t ∷ [])
        else in_window o key now log)
unfolding in_window
in_window-append o key k t now log =
    ground
      (arith, hits_of-append key k t log, keep-append (is_live o now) (hits_of key log) (t ∷ []))

module _ (o : Options) (key : String) (now : ℕ) (hits : Hits) (log : Log)
    (f : Follows o now hits log) where
  -- Writing the hits of one key follows a log that differs from the old one at that key only.
  put-Follows :
      (ts : List ℕ) (log' : Log)
      → ((later : ℕ) → now ≤ later → keep (is_live o later) ts ≡ in_window o key later log')
      → ((j : String) (later : ℕ)
          → (key == j) ≡ false
          → in_window o j later log ≡ in_window o j later log')
      → Follows o now (insert hits key ts) log'
  put-Follows ts log' mine others = record {
    is_map = insert-IsMap hits key ts f.is_map;
    same = λ j later le. rw lookup-insert (elim (Bool-cases (key == j)) [
      | inl here' ↦ rw here' (let p : key ≡ j = (eq_iff key j).0 here' in rw (← p) (mine later le))
      | inr other ↦ rw other (f.same j later le ∙ others j later other)
    ]);
  }

  -- What is live now, read at a later time.
  live_later :
      (later : ℕ)
      → now ≤ later
      → keep (is_live o later) (keep (is_live o now) (or_empty (lookup hits key)))
        ≡ in_window o key later log
  live_later later le = keep-keep o now later (or_empty (lookup hits key)) le ∙ f.same key later le

  abbrev live : List ℕ
  live = keep (is_live o now) (or_empty (lookup hits key))

  same_live : live ≡ in_window o key now log
  same_live = f.same key now (omega arith)

  count_hit_allowed : (count_hit o key now hits).0.allowed ≡ log_allows o key now log
  unfolding count_hit log_allows
  count_hit_allowed = ground (arith, same_live)

  log_check-full : leb o.max_hits (length live) ≡ true → log_check o key now log ≡ log
  unfolding log_check log_allows
  log_check-full h = ground (arith, same_live)

  log_check-room :
      leb o.max_hits (length live) ≡ false → log_check o key now log ≡ log ++ (key, now) ∷ []
  unfolding log_check log_allows
  log_check-room h = ground (arith, same_live)

  count_hit-Follows : Follows o now (count_hit o key now hits).1 (log_check o key now log)
  unfolding count_hit
  count_hit-Follows = elim (Bool-cases (leb o.max_hits (length live))) [
    | inl full ↦
        rw (full, log_check-full full) (put-Follows live log live_later (λ j later e. refl))
    | inr room ↦
        rw (room, log_check-room room)
          (put-Follows (live ++ now ∷ []) (log ++ (key, now) ∷ [])
            (λ later le. ground (
              arith,
              live_later later le,
              keep-append (is_live o later) live (now ∷ []),
              in_window-append o key key now later log,
              same_refl key,
            ))
            (λ j later e. ground (arith, in_window-append o j key now later log)))
  ]

-- One call on a limiter that follows the log: its verdict, and the log that it follows then.
pub check-step :
    (o : Options) (key : String) (last now : ℕ) (hits : Hits) (log : Log)
    → last ≤ now
    → Follows o last hits log
    → ((check o key now hits).0.allowed ≡ log_allows o key now log)
      × Follows o now (check o key now hits).1 (log_check o key now log)
unfolding check
check-step o key last now hits log h f =
    let f' = swept-Follows o last now hits log h f in
    (
      count_hit_allowed o key now (swept o now hits) log f',
      count_hit-Follows o key now (swept o now hits) log f',
    )

-- A run: the calls in order, each with its key and time.
unfoldable pub run : Options → Hits → List (String × ℕ) → List Bool
run o hits [] = []
run o hits ((key, now) ∷ calls) =
    (check o key now hits).0.allowed ∷ run o (check o key now hits).1 calls

unfoldable pub log_run : Options → Log → List (String × ℕ) → List Bool
log_run o log [] = []
log_run o log ((key, now) ∷ calls) =
    log_allows o key now log ∷ log_run o (log_check o key now log) calls

-- The clock does not run backwards.
abbrev pub InOrder : ℕ → List (String × ℕ) → Type 0
InOrder last [] = Unit
InOrder last ((key, now) ∷ calls) = (last ≤ now) × InOrder now calls

run-log_run_from :
    (o : Options) (last : ℕ) (hits : Hits) (log : Log) (calls : List (String × ℕ))
    → InOrder last calls
    → Follows o last hits log
    → run o hits calls ≡ log_run o log calls
unfolding run log_run
run-log_run_from o last hits log [] h f = refl
run-log_run_from o last hits log ((key, now) ∷ calls) h f =
    let (verdict, f') = check-step o key last now hits log h.0 f in
    cc (
      verdict,
      run-log_run_from o now (check o key now hits).1 (log_check o key now log) calls h.1 f',
    )

-- A fresh limiter, called at times that do not decrease, gives each call the verdict of the log:
-- allowed exactly when fewer than `max` hits of that key were admitted within the window.
pub run-log_run :
    (o : Options) (calls : List (String × ℕ))
    → InOrder 0 calls
    → run o [] calls ≡ log_run o [] calls
unfolding lookup in_window
run-log_run o calls h =
    run-log_run_from o 0 [] [] calls h (record { is_map = tt; same = λ key now le. refl })
