-- ===== src/Exceptions/Workflows.antt =====
-- What an accepted change of status keeps, and what it cannot leave.
use defiant_fleet_ops.Base.{
  ℕ, suc, ◌≡◌, ◌≢◌, refl, sym, arith, true, some, List, [], ◌∷◌, any, length, ok, >>=-eq-ok, ap,
  ◌∙◌,
}
use defiant_fleet_ops.Ledger.{Session}
use defiant_fleet_ops.Assets.Legality.{constraints-eq-ok}
use defiant_fleet_ops.Exceptions.{
  Status, open_status, acknowledged, resolved, waived, status_eq, workflow, StatusEvent, Workflow,
  edge_admitted, is_terminal, latest_event, status_of, seq_of, projected, StatusRequest, event_of,
  event_check, admit_status, append_status, transition_sql, transition_exception,
}

-- The history of an exception, newest first: numbered from 1 without a gap, each event from the status
-- that the one before it left, along an edge of the workflow.
pub data IsChained : List StatusEvent → Type 0 where
  opened : IsChained []
  followed :
      (e : StatusEvent) (events : List StatusEvent)
      → e.event_seq ≡ suc (length events)
      → status_of (latest_event events) ≡ e.from_status
      → any (status_eq e.to_status) (workflow e.from_status) ≡ true
      → IsChained events
      → IsChained (e ∷ events)

-- The numbers of a chained history.
latest-seq :
    (events : List StatusEvent) → IsChained events → seq_of (latest_event events) ≡ length events
unfolding latest_event
latest-seq _ opened = refl
latest-seq _ (followed e events n f w c) = ground (arith, latest-seq events c, n)

admitted_edge-workflow :
    (from to : Status) → edge_admitted from to ≡ any (status_eq to) (workflow from)
admitted_edge-workflow = elim [
  | open_status ↦ elim [
    | open_status ↦ refl
    | acknowledged ↦ refl
    | resolved ↦ refl
    | waived ↦ refl
  ]
  | acknowledged ↦ elim [
    | open_status ↦ refl
    | acknowledged ↦ refl
    | resolved ↦ refl
    | waived ↦ refl
  ]
  | resolved ↦ elim [ open_status ↦ refl | acknowledged ↦ refl | resolved ↦ refl | waived ↦ refl ]
  | waived ↦ elim [ open_status ↦ refl | acknowledged ↦ refl | resolved ↦ refl | waived ↦ refl ]
]

module _ (s : Session) (w : Workflow) (events : List StatusEvent) (q : StatusRequest)
    (e : StatusEvent) (w' : Workflow) (events' : List StatusEvent) where
  appended :
      (k : List StatusEvent) (made : StatusEvent)
      → append_status k q made ≡ ok (e, w', events')
      → (e ≡ made) × (event_check e ≡ true) × (w' ≡ projected (some e)) × (events' ≡ e ∷ k)
  unfolding append_status
  appended k made h = ground arith

  same_events : (a : ℕ × List StatusEvent) → admit_status s (some (w, events)) ≡ ok a → a.1 ≡ events
  unfolding admit_status
  same_events a h = ground arith

  written_event :
      (k : List StatusEvent) (who : ℕ)
      → k ≡ events
      → e ≡ event_of q (latest_event k) who
      → e ≡ event_of q (latest_event events) e.actor_id
  written_event k who same made =
      made
      ∙ ap (λ (t : List StatusEvent). event_of q (latest_event t) who) same
      ∙ sym (
          ap (λ (a : ℕ). event_of q (latest_event events) a)
            (ap (λ (x : StatusEvent). x.actor_id) made))

  accepted :
      transition_sql s (some (w, events)) q ≡ ok (e, w', events')
      → (e ≡ event_of q (latest_event events) e.actor_id)
        × (event_check e ≡ true)
        × (w' ≡ projected (some e))
        × (events' ≡ e ∷ events)
  unfolding transition_sql
  accepted h =
      let (a, ea, ha) = >>=-eq-ok (admit_status s (some (w, events))) _ h in
      let same = same_events a ea in
      let (made, checked, stored, grown) = appended a.1 (event_of q (latest_event a.1) a.0) ha in
      (written_event a.1 a.0 same made, checked, stored, cc (grown, same))

  admitted_sql :
      transition_exception s (some (w, events)) q ≡ ok (e, w', events')
      → transition_sql s (some (w, events)) q ≡ ok (e, w', events')
  unfolding transition_exception
  admitted_sql h =
      constraints-eq-ok (transition_sql s (some (w, events)) q) (e, w', events') (ground arith)

  -- A change of status that the service accepts follows the history: it leaves the history chained, and
  -- the stored status, number, resolver, time and note are those of its event.
  pub transition_exception-IsChained :
      IsChained events
      → transition_exception s (some (w, events)) q ≡ ok (e, w', events')
      → IsChained events' × (w' ≡ projected (latest_event events'))
  unfolding event_check latest_event
  transition_exception-IsChained c h =
      let (made, checked, stored, grown) = accepted (admitted_sql h) in
      let numbered = latest-seq events c in
      let next : e.event_seq ≡ suc (length events) =
        omega (arith, ap (λ (k : StatusEvent). k.event_seq) made, numbered) in
      let from : status_of (latest_event events) ≡ e.from_status =
        sym (ap (λ (k : StatusEvent). k.from_status) made) in
      let edge : any (status_eq e.to_status) (workflow e.from_status) ≡ true =
        sym (admitted_edge-workflow e.from_status e.to_status) ∙ ground (arith, checked) in
      (
        rw grown (followed e events next from edge c),
        rw grown (ground (arith, stored, numbered, next)),
      )

  -- Nothing follows RESOLVED or WAIVED: where the latest event left a terminal status, the service
  -- accepts no change.
  pub transition_exception-terminal :
      is_terminal (status_of (latest_event events)) ≡ true
      → transition_exception s (some (w, events)) q ≢ ok (e, w', events')
  unfolding event_check
  transition_exception-terminal t h =
      let (made, checked, _, _) = accepted (admitted_sql h) in
      let from : e.from_status ≡ status_of (latest_event events) =
        ap (λ (k : StatusEvent). k.from_status) made in
      ground (arith, checked, t, from)
