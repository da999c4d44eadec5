-- ===== src/StatusList/Sweep.antt =====
-- runPublisherOnce and runScheduledPublish of apps/minister/src/lib/status-list/publish.ts: a pass
-- over every list, and the alert for the lists that it leaves unsigned or expired.
use minister.Common.{
  ℕ, suc, ◌+◌, ◌*◌, ◌≤◌, String, ◌≡◌, refl, ap, inl, inr, Bool, true, false, not, ◌&&◌, ◌||◌,
  Option, none, some, In-nil, In-map, In-keep, List, [], ◌∷◌, map, keep, Bool-cases, arith, In,
  here, there, ltb, if◌then◌else◌, Entries, string_eq, ◌==◌,
}
use minister.StatusList.Publisher.{
  validity_window_ms, ListRow, StatusListPayload, unpublished, published, Outcome, returned, raced,
  threw, Try, publish_list,
}

pub record PublisherRunSummary : Type 0 where
  pub lists : ℕ
  pub published_lists : ℕ
  pub changed : ℕ
  pub failed : List String

pub data ScheduledPublishOutcome : Type 0 where
  pass_published : ScheduledPublishOutcome
  skipped_locked : ScheduledPublishOutcome

-- The lists that lag, those that failed, and whether the pass was aborted.
pub record LagAlert : Type 0 where
  pub lagging : List String
  pub failed : List String
  pub sweep_error : Bool

abbrev no_summary : PublisherRunSummary
no_summary = record { lists = 0; published_lists = 0; changed = 0; failed = [] }

unfoldable pub count_in : String → Outcome → PublisherRunSummary → PublisherRunSummary
count_in id (returned (published version changed n)) rest = record {
  lists = suc rest.lists;
  published_lists = suc rest.published_lists;
  changed = if changed then suc rest.changed else rest.changed;
  failed = rest.failed;
}
count_in id (returned unpublished) rest = record rest { lists = suc rest.lists }
count_in id raced rest = record rest { lists = suc rest.lists }
count_in id threw rest = record rest { lists = suc rest.lists; failed = id ∷ rest.failed }

-- The test that a date is before `now` less a span is written as a sum.
unfoldable pub is_lagging : ℕ → ℕ → ListRow → Bool
is_lagging now interval row =
    ((row.signed_jwt == "") && ltb (row.published_at + 2 * interval) now)
    || (not (row.signed_jwt == "") && ltb (row.published_at + validity_window_ms) now)

unfoldable pub lagging_of : ℕ → ℕ → Entries String ListRow → List String
lagging_of now interval rows =
    map (λ (r : String × ListRow). r.0) (keep (λ r. is_lagging now interval r.1) rows)

unfoldable pub is_nil : List String → Bool
is_nil [] = true
is_nil (x ∷ xs) = false

unfoldable pub alert_publisher_lag_if_any :
    ℕ → ℕ → Entries String ListRow → PublisherRunSummary → Bool → Option LagAlert
alert_publisher_lag_if_any now interval rows summary sweep_error =
    let lagging = lagging_of now interval rows in
    if is_nil lagging && is_nil summary.failed && not sweep_error
    then none
    else (some (record { lagging = lagging; failed = summary.failed; sweep_error = sweep_error }))

module _ (url_of : String → String) (sign : StatusListPayload → Option String) where
  -- The pass over the lists, each with the tries that its publication meets.
  unfoldable pub run_publisher_once : ℕ → String → List (String × List Try) → PublisherRunSummary
  run_publisher_once now issuer_did [] = no_summary
  run_publisher_once now issuer_did ((id, tries) ∷ rest) =
      count_in id (publish_list url_of sign now false issuer_did id tries).0
        (run_publisher_once now issuer_did rest)

  -- The pass of an interval, with the issuer's id, `none` if it cannot be had, and the rows that
  -- the reads after the pass see.
  unfoldable pub run_scheduled_publish :
      ℕ
      → Bool
      → ℕ
      → Option String
      → List (String × List Try)
      → Entries String ListRow
      → ScheduledPublishOutcome × Option LagAlert
  run_scheduled_publish interval is_locked now none lists after =
      if is_locked
      then (pass_published, alert_publisher_lag_if_any now interval after no_summary true)
      else (skipped_locked, none)
  run_scheduled_publish interval is_locked now (some issuer_did) lists after =
      if is_locked
      then (
        pass_published,
        alert_publisher_lag_if_any now interval after (run_publisher_once now issuer_did lists)
            false,
      )
      else (skipped_locked, none)

-- A list that verifiers can still rely on: it has a signature within its validity, or is still new.
unfoldable pub IsFreshList : ℕ → ℕ → ListRow → Type 0
IsFreshList now interval row =
    ((row.signed_jwt == "") ≡ true → now ≤ row.published_at + 2 * interval)
    × ((row.signed_jwt == "") ≡ false → now ≤ row.published_at + validity_window_ms)

fresh-not_lagging :
    (now interval : ℕ) (row : ListRow)
    → is_lagging now interval row ≡ false
    → IsFreshList now interval row
unfolding is_lagging IsFreshList
fresh-not_lagging now interval row h = (λ unsigned. ground arith, λ signed. ground arith)

not_nil_of : {x : String} (xs : List String) → In x xs → is_nil xs ≡ true → ⊥
unfolding is_nil
not_nil_of [] m e = In-nil m
not_nil_of (y ∷ ys) m e = grind arith

no_lag-fresh :
    (now interval : ℕ) (rows : Entries String ListRow) (r : String × ListRow)
    → is_nil (lagging_of now interval rows) ≡ true
    → In r rows
    → IsFreshList now interval r.1
unfolding lagging_of
no_lag-fresh now interval rows r h m = elim (Bool-cases (is_lagging now interval r.1)) [
  | inl lags ↦ absurd (not_nil_of _ (In-map _ (In-keep _ m lags)) h)
  | inr fresh ↦ fresh-not_lagging now interval r.1 fresh
]

quiet_if :
    (a b c : Bool) (x : LagAlert)
    → ◌≡◌ {A = Option LagAlert} (if a && b && not c then none else some x) none
    → (a ≡ true) × (b ≡ true) × (c ≡ false)
quiet_if true true false x h = (refl, refl, refl)
quiet_if true true true x h = absurd (grind arith)
quiet_if true false c x h = absurd (grind arith)
quiet_if false b c x h = absurd (grind arith)

quiet_alert :
    (now interval : ℕ) (rows : Entries String ListRow) (summary : PublisherRunSummary)
    (sweep_error : Bool)
    → alert_publisher_lag_if_any now interval rows summary sweep_error ≡ none
    → (is_nil (lagging_of now interval rows) ≡ true)
      × (is_nil summary.failed ≡ true)
      × (sweep_error ≡ false)
unfolding alert_publisher_lag_if_any
quiet_alert now interval rows summary sweep_error h = quiet_if _ _ _ _ h

count_in-failed :
    (id : String) (out : Outcome) (rest : PublisherRunSummary)
    → is_nil (count_in id out rest).failed ≡ true
    → ¬ (out ≡ threw) × (is_nil rest.failed ≡ true)
unfolding count_in is_nil
count_in-failed id (returned (published version changed n)) rest h = (λ e. grind arith, h)
count_in-failed id (returned unpublished) rest h = (λ e. grind arith, h)
count_in-failed id raced rest h = (λ e. grind arith, h)
count_in-failed id threw rest h = absurd (grind arith)

module _ (url_of : String → String) (sign : StatusListPayload → Option String) where
  run_publisher_once-failed :
      (now : ℕ) (issuer_did : String) (lists : List (String × List Try)) (l : String × List Try)
      → is_nil (run_publisher_once url_of sign now issuer_did lists).failed ≡ true
      → In l lists
      → ¬ ((publish_list url_of sign now false issuer_did l.0 l.1).0 ≡ threw)
  unfolding run_publisher_once
  run_publisher_once-failed now issuer_did [] l h m = absurd (In-nil m)
  run_publisher_once-failed now issuer_did ((id, tries) ∷ lists) l h here =
      (count_in-failed id _ _ h).0
  run_publisher_once-failed now issuer_did ((id, tries) ∷ lists) l h (there m) =
      run_publisher_once-failed now issuer_did lists l (count_in-failed id _ _ h).1 m

  -- A failure to publish is never silent. If a pass that has the lock raises no alert, there was an
  -- issuer, no list's publication threw, and every list that the reads after the pass see is
  -- unexpired, or unsigned and at most two intervals old.
  pub run_scheduled_publish-quiet :
      (interval now : ℕ) (issuer : Option String) (lists : List (String × List Try))
      (after : Entries String ListRow)
      → run_scheduled_publish url_of sign interval true now issuer lists after
        ≡ (pass_published, none)
      → (issuer_did : String) × (issuer ≡ some issuer_did)
        × ((l : String × List Try)
            → In l lists
            → ¬ ((publish_list url_of sign now false issuer_did l.0 l.1).0 ≡ threw))
        × ((r : String × ListRow) → In r after → IsFreshList now interval r.1)
  unfolding run_scheduled_publish
  run_scheduled_publish-quiet interval now none lists after h =
      absurd (ground (arith, quiet_alert now interval after no_summary true (ap (λ o. o.1) h)))
  run_scheduled_publish-quiet interval now (some issuer_did) lists after h =
      let (fresh, done, _) = quiet_alert now interval after _ false (ap (λ o. o.1) h) in
      (
        issuer_did,
        refl,
        λ l m. run_publisher_once-failed now issuer_did lists l done m,
        λ r m. no_lag-fresh now interval after r fresh m,
      )
