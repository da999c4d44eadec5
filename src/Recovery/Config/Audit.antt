-- ===== src/Recovery/Config/Audit.antt =====
-- Who changes the config, what is logged of it, and when a new weight counts.
use minister.Common.{
  ℕ, ◌+◌, ◌/◌, String, ◌≡◌, refl, ◌≤◌, true, false, Option, none, some, List, [], ◌∷◌, arith, ◌⊎◌,
  inl, inr, Bool-cases, string_eq, leb,
}
use minister.Recovery.Config.{
  whole, WeightRow, Write, immediate, scheduled, valid_weight, plan_recovery_weight_write,
  effective, effective_recovery_weight, recovery_weaken_delay_ms,
}
use minister.Recovery.Config.Store.{
  Session, done, Store, AuditEntry, find_row, update_row, write_weight, is_at, is_recent,
  gate_recovery_config, scheduled_at,
}
use minister.Recovery.Config.Actions.{
  Call, weight_call, solo_call, threshold_call, perform, write_weight_row, write_solo_row,
  write_config, update_recovery_weight, weight_body,
}
use minister.Recovery.Config.Rules.{
  update_recovery_weight-keeps, set_allow_solo_recovery-keeps, update_recovery_threshold-keeps,
  commit-done, weight_body-Yields,
}

-- An admin at assurance level 2 or more, not recovered, who has authenticated in the last 600 s.
abbrev pub IsAuthorized : ℕ → Session → Type 0
IsAuthorized now session =
    (session.is_admin ≡ true)
    × (2 ≤ session.aal)
    × (session.recovered ≡ false)
    × ((time : ℕ) × (session.auth_time ≡ some time) × (now / 1000 ≤ time + 600))

is_recent-time :
    (now : ℕ) (auth_time : Option ℕ)
    → is_recent now auth_time ≡ true
    → (time : ℕ) × (auth_time ≡ some time) × (now / 1000 ≤ time + 600)
unfolding is_recent
is_recent-time now none h = cc
is_recent-time now (some time) h = (time, refl, ground arith)

gate-IsAuthorized :
    (now : ℕ) (caller : Option Session) (session : Session)
    → gate_recovery_config now caller ≡ done session
    → (caller ≡ some session) × IsAuthorized now session
unfolding gate_recovery_config
gate-IsAuthorized now none session h = cc
gate-IsAuthorized now (some s) session h =
    let same : s ≡ session = ground arith in
    let recent : is_recent now s.auth_time ≡ true = ground arith in
    rw (← same)
      (refl, (ground arith, ground arith, ground arith, is_recent-time now s.auth_time recent))

-- The caller was authorized, and the log has one new entry, which names the caller.
abbrev pub IsLogged : ℕ → Option Session → Store → Store → Type 0
IsLogged now caller store next =
    (session : Session) × (entry : AuditEntry) × (caller ≡ some session)
    × IsAuthorized now session
    × (next.audits ≡ entry ∷ store.audits)
    × (entry.user_id ≡ session.user_id)

logged :
    (now : ℕ) (caller : Option Session) (session : Session) (entry : AuditEntry)
    (store next : Store)
    → gate_recovery_config now caller ≡ done session
    → next.audits ≡ entry ∷ store.audits
    → entry.user_id ≡ session.user_id
    → IsLogged now caller store next
logged now caller session entry store next passed e same =
    let (here_is, authorized) = gate-IsAuthorized now caller session passed in
    (session, entry, here_is, authorized, e, same)

-- A call of any of the three actions leaves the whole store as it is, or its caller is an admin at
-- assurance level 2 or more, whose session is not a recovered one and has authenticated in the last
-- 600 seconds, and the call adds one entry to the audit log, under the id of that caller.
pub perform-IsLogged :
    (now : ℕ) (caller : Option Session) (call : Call) (store : Store)
    → (perform now caller call store ≡ store)
      ⊎ IsLogged now caller store (perform now caller call store)
unfolding perform write_weight_row write_solo_row write_config
perform-IsLogged now caller (weight_call badge_type qualifier requested) store =
    update_recovery_weight-keeps (λ next. (next ≡ store) ⊎ IsLogged now caller store next) now
      caller store (inl refl) badge_type qualifier requested
      (λ session weight row cfg passed bounded found seeded ok. inr (
        logged now caller session _ store
          (write_weight_row now session badge_type qualifier weight row store) passed refl refl))
perform-IsLogged now caller (solo_call badge_type qualifier allow) store =
    set_allow_solo_recovery-keeps (λ next. (next ≡ store) ⊎ IsLogged now caller store next) now
      caller store (inl refl) badge_type qualifier allow
      (λ session row changed passed found ok. inr (
        logged now caller session _ store
          (write_solo_row session badge_type qualifier allow row store) passed refl refl))
perform-IsLogged now caller (threshold_call requested) store =
    update_recovery_threshold-keeps (λ next. (next ≡ store) ⊎ IsLogged now caller store next) now
      caller store (inl refl) requested
      (λ session threshold cfg passed bounded seeded ok. inr (
        logged now caller session _ store (write_config now session threshold cfg store) passed refl
          refl))

find_row-update_row :
    (badge_type qualifier : String) (f : WeightRow → WeightRow) (row : WeightRow)
    (rows : List WeightRow)
    → find_row badge_type qualifier rows ≡ some row
    → is_at badge_type qualifier (f row) ≡ is_at badge_type qualifier row
    → find_row badge_type qualifier (update_row badge_type qualifier f rows) ≡ some (f row)
unfolding find_row update_row
find_row-update_row badge_type qualifier f row [] found same = cc
find_row-update_row badge_type qualifier f row (r ∷ rows) found same =
    elim (Bool-cases (is_at badge_type qualifier r)) [
      | inl at ↦
          let e : r ≡ row = ground (arith, at, found) in
          rw at (
            rw (e, f)
              (let k : is_at badge_type qualifier (f row) ≡ true = ground (arith, same, at, e) in
                rw k refl))
      | inr other ↦ rw other (
          rw other (
            find_row-update_row badge_type qualifier f row rows (ground (arith, other, found))
              same))
    ]

write_weight-at :
    (badge_type qualifier : String) (plan : Write) (row : WeightRow)
    → is_at badge_type qualifier (write_weight plan row) ≡ is_at badge_type qualifier row
unfolding write_weight is_at
write_weight-at badge_type qualifier (immediate w) row = refl
write_weight-at badge_type qualifier (scheduled w at) row = refl

-- When the new weight counts: always, or from the end of the delay.
abbrev pub CountsFrom : ℕ → ℕ → WeightRow → Option ℕ → Type 0
CountsFrom now weight row none = (time : ℕ) → effective_recovery_weight row time ≡ weight
CountsFrom now weight row (some at) =
    (at ≡ now + recovery_weaken_delay_ms)
    × ((time : ℕ) → at ≤ time → effective_recovery_weight row time ≡ weight)

write_weight-CountsFrom :
    (now weight : ℕ) (row : WeightRow)
    → let plan = plan_recovery_weight_write row.recovery_weight weight now in
      CountsFrom now weight (write_weight plan row) (scheduled_at plan)
unfolding plan_recovery_weight_write write_weight effective_recovery_weight effective
write_weight-CountsFrom now weight row = elim (Bool-cases (leb weight row.recovery_weight)) [
  | inl lower ↦ rw lower (λ time. refl)
  | inr higher ↦ rw higher (refl, λ time later. ground arith)
]

whole-weight : (n w : ℕ) → valid_weight (whole n) ≡ some w → w ≡ n
unfolding valid_weight
whole-weight n w h = ground arith

-- Let a weight update with a whole number be accepted with a time of effect or none. The row of that
-- badge type and qualifier then counts with the requested weight: at every time where the update gives
-- no time of effect, and else from that time on, which is 72 hours after the update.
update_recovery_weight-counts :
    (now : ℕ) (caller : Option Session) (badge_type qualifier : String) (weight : ℕ) (store : Store)
    (at : Option ℕ)
    → (update_recovery_weight now caller badge_type qualifier (whole weight) store).0 ≡ done at
    → (next : WeightRow) × (find_row badge_type qualifier
          (update_recovery_weight now caller badge_type qualifier (whole weight) store).1.rows
        ≡ some next)
      × CountsFrom now weight next at
unfolding update_recovery_weight write_weight_row
update_recovery_weight-counts now caller badge_type qualifier weight store at accepted =
    let Counts : Option ℕ × Store → Type 0 = λ x.
      (next : WeightRow) × (find_row badge_type qualifier x.1.rows ≡ some next)
      × CountsFrom now weight next x.0 in
    let weight_is : (w : ℕ) → valid_weight (whole weight) ≡ some w → w ≡ weight =
      λ w e. whole-weight weight w e in
    commit-done Counts store (weight_body now caller badge_type qualifier (whole weight) store) at
      accepted
      (weight_body-Yields Counts now caller badge_type qualifier (whole weight) store
        (λ session w row cfg passed bounded found seeded ok.
          let plan = plan_recovery_weight_write row.recovery_weight w now in
          (
            write_weight plan row,
            find_row-update_row badge_type qualifier (write_weight plan) row store.rows found
                (write_weight-at badge_type qualifier plan row),
            rw (← (weight_is w bounded)) (write_weight-CountsFrom now w row),
          )))
