-- ===== src/Pair/Counts.antt =====
-- The deposits and handovers of the sessions, counted in the audit log, against their rows.
use minister.Common.{
  ℕ, ◌+◌, ◌≤◌, String, ◌≡◌, ◌∙◌, refl, ◌≢◌, Bool, true, false, ◌&&◌, Option, none, some, List, [],
  ◌∷◌, arith, ◌⊎◌, inl, inr, Bool-cases, leb, keep, ◌==◌, if◌then◌else◌, string_eq, eq_iff, lookup,
  insert, lookup-insert, Entries, IsMap, insert-IsMap,
}
use minister.Pair.{
  State, waiting, sealed, claimed, unknown, Row, Action, deposited, handed_over, Event, Relay, log,
  sweep_rows, pair_sweep_grace_ms, after_sweep,
}

abbrev pub is_deposit : Action → Bool
is_deposit deposited = true
is_deposit _ = false

abbrev pub is_handover : Action → Bool
is_handover handed_over = true
is_handover _ = false

-- How many events of a kind the log holds for a session.
unfoldable pub count : (Action → Bool) → String → List Event → ℕ
count f id [] = 0
count f id (e ∷ events) =
    if f e.action && e.session_id == id then 1 + count f id events else count f id events

-- What the state of a row says of its payload, and of the deposits and handovers of its session.
unfoldable pub IsCountedAs : State → Option String → ℕ → ℕ → Type 0
IsCountedAs waiting payload deposits handovers = (deposits ≡ 0) × (handovers ≡ 0) × (payload ≡ none)
IsCountedAs sealed payload deposits handovers = (deposits ≡ 1) × (handovers ≡ 0) × (payload ≢ none)
IsCountedAs claimed payload deposits handovers = (deposits ≡ 1) × (handovers ≤ 1) × (payload ≡ none)
IsCountedAs unknown payload deposits handovers = ⊥

unfoldable pub IsCounted : Option Row → ℕ → ℕ → Type 0
IsCounted none deposits handovers = (deposits ≤ 1) × (handovers ≤ deposits)
IsCounted (some row) deposits handovers =
    IsCountedAs row.state row.sealed_payload deposits handovers

unfoldable pub IsAccounted : Relay → Type 0
IsAccounted relay =
    IsMap relay.rows
    × ((id : String)
        → IsCounted (lookup relay.rows id) (count is_deposit id relay.events)
            (count is_handover id relay.events))

keep-lookup :
    {V : Type 0} (f : String × V → Bool) (entries : Entries String V) (id : String)
    → IsMap entries
    → (lookup (keep f entries) id ≡ lookup entries id) ⊎ (lookup (keep f entries) id ≡ none)
unfolding lookup
keep-lookup f [] id h = inl refl
keep-lookup f ((k, v) ∷ entries) id h = elim (Bool-cases (f (k, v))) [
  | inl kept ↦ rw kept (elim (Bool-cases (k == id)) [
    | inl same ↦ rw same (inl refl)
    | inr other ↦ rw other (keep-lookup f entries id h.1)
  ])
  | inr dropped ↦ rw dropped (elim (Bool-cases (k == id)) [
    | inl same ↦ rw same (elim (keep-lookup f entries id h.1) [
      | inl e ↦ inr (ground (arith, e, h.0, eq_iff k id, same))
      | inr e ↦ inr e
    ])
    | inr other ↦ rw other (keep-lookup f entries id h.1)
  ])
]

keep-IsMap :
    {V : Type 0} (f : String × V → Bool) (entries : Entries String V)
    → IsMap entries
    → IsMap (keep f entries)
unfolding lookup
keep-IsMap f [] h = tt
keep-IsMap f ((k, v) ∷ entries) h = elim (Bool-cases (f (k, v))) [
  | inl kept ↦
      rw kept (
        elim (keep-lookup f entries k h.1) [ inl e ↦ e ∙ h.0 | inr e ↦ e ],
        keep-IsMap f entries h.1,
      )
  | inr dropped ↦ rw dropped (keep-IsMap f entries h.1)
]

counted-state :
    (s : State) (payload : Option String) (d h : ℕ) → IsCountedAs s payload d h → (d ≤ 1) × (h ≤ d)
unfolding IsCountedAs
counted-state waiting payload d h c = omega (arith, c.0, c.1)
counted-state sealed payload d h c = omega (arith, c.0, c.1)
counted-state claimed payload d h c = omega (arith, c.0, c.1)
counted-state unknown payload d h c = absurd c

count-other :
    (f : Action → Bool) (id other user_id : String) (action : Action) (events : List Event)
    → (id == other) ≡ false
    → count f other (record { user_id = user_id; action = action; session_id = id } ∷ events)
      ≡ count f other events
unfolding count
count-other f id other user_id action events h = ground (arith, h)

pub IsCounted-none : (found : Option Row) (d h : ℕ) → IsCounted found d h → IsCounted none d h
unfolding IsCounted IsCountedAs
IsCounted-none none d h c = c
IsCounted-none (some (row)) d h c = counted-state row.state row.sealed_payload d h c

pub after_sweep-IsAccounted :
    (now : ℕ) (swept : Bool) (relay : Relay)
    → IsAccounted relay
    → IsAccounted (after_sweep now swept relay)
unfolding IsAccounted sweep_rows
after_sweep-IsAccounted now false relay h = h
after_sweep-IsAccounted now true relay h =
    let stays : String × Row → Bool = λ e. leb now (e.1.expires_at + pair_sweep_grace_ms) in
    (
      keep-IsMap stays relay.rows h.0,
      λ id. elim (keep-lookup stays relay.rows id h.0) [
        | inl same ↦ rw same (h.1 id)
        | inr gone ↦ rw gone (
            IsCounted-none (lookup relay.rows id) (count is_deposit id relay.events)
              (count is_handover id relay.events) (h.1 id))
      ],
    )

-- A write of the row of one session, with one more event for it.
pub write-IsAccounted :
    (id user_id : String) (action : Action) (row : Row) (relay : Relay)
    → IsCounted
        (some row)
        (count is_deposit id
          (record { user_id = user_id; action = action; session_id = id } ∷ relay.events))
        (count is_handover id
          (record { user_id = user_id; action = action; session_id = id } ∷ relay.events))
    → IsAccounted relay
    → IsAccounted (log user_id action id (record relay { rows = insert relay.rows id row }))
unfolding IsAccounted log
write-IsAccounted id user_id action row relay c h = (
  insert-IsMap relay.rows id row h.0,
  λ other. rw (lookup-insert relay.rows id other row) (elim (Bool-cases (id == other)) [
    | inl same ↦ let p : id ≡ other = (eq_iff id other).0 same in rw same (rw (← p) c)
    | inr differs ↦
        rw
          (
            differs,
            count-other is_deposit id other user_id action relay.events differs,
            count-other is_handover id other user_id action relay.events differs,
          )
          (h.1 other)
  ]),
)

pub log-IsAccounted :
    (id user_id : String) (action : Action) (relay : Relay)
    → is_deposit action ≡ false
    → is_handover action ≡ false
    → IsAccounted relay
    → IsAccounted (log user_id action id relay)
unfolding IsAccounted log count
log-IsAccounted id user_id action relay d c h = (h.0, λ other. rw (d, c) (h.1 other))

-- A write of the row of one session, without an event.
pub quiet-IsAccounted :
    (id : String) (row : Row) (relay : Relay)
    → IsCounted (some row) (count is_deposit id relay.events) (count is_handover id relay.events)
    → IsAccounted relay
    → IsAccounted (record relay { rows = insert relay.rows id row })
unfolding IsAccounted
quiet-IsAccounted id row relay c h = (
  insert-IsMap relay.rows id row h.0,
  λ other. rw (lookup-insert relay.rows id other row) (elim (Bool-cases (id == other)) [
    | inl same ↦ let p : id ≡ other = (eq_iff id other).0 same in rw same (rw (← p) c)
    | inr differs ↦ rw differs (h.1 other)
  ]),
)
