-- ===== src/Exceptions.antt =====
-- The status of one receiving exception: WORKFLOW and transition_exception of
-- server/fleetops/domain/exception_workflow.py, in front of the SQL function transition_exception and
-- the view exception_workflow_anomalies of server/alembic/correction_records_0011.py, without an
-- evaluation, with the CHECK of server/alembic/correction_schema_0011.py.
pub mod Workflows
use defiant_fleet_ops.Base.{
  ℕ, suc, ◌+◌, ◌-◌, Bool, true, false, not, ◌&&◌, ◌||◌, Option, none, some, List, [], ◌∷◌, ltb, leb,
  ◌==◌, any, all, find, same, is_some, is_none, length, Result, ok, err, guard, ◌>>=◌, ◌>>◌, sql,
  insufficient_privilege, no_data_found, raise_exception, serialization_failure, check_violation,
  unique_violation, asset_invalid, if◌then◌else◌,
}
use defiant_fleet_ops.Text.{Text, text_eq, normalize_correction_reason, is_space}
use defiant_fleet_ops.Ledger.{Session, performer}
use defiant_fleet_ops.Assets.{constraints}

pub data Status : Type 0 where
  open_status acknowledged resolved waived : Status

abbrev pub status_eq : Status → Status → Bool
status_eq open_status open_status = true
status_eq acknowledged acknowledged = true
status_eq resolved resolved = true
status_eq waived waived = true
status_eq _ _ = false

-- WORKFLOW
abbrev pub workflow : Status → List Status
workflow open_status = acknowledged ∷ resolved ∷ waived ∷ []
workflow acknowledged = resolved ∷ waived ∷ []
workflow resolved = []
workflow waived = []

pub record StatusEvent : Type 0 where
  pub id : ℕ
  pub event_seq : ℕ
  pub from_status : Status
  pub to_status : Status
  pub note : Option Text
  pub actor_id : ℕ
  pub occurred_at : ℕ

-- The row of exception_workflows, less its constant columns.
pub record Workflow : Type 0 where
  pub status : Status
  pub event_seq : ℕ
  pub resolved_by_actor_id : Option ℕ
  pub resolved_at : Option ℕ
  pub resolution_note : Option Text

-- The edges of ck_exception_events_transition, and of the view.
abbrev pub edge_admitted : Status → Status → Bool
edge_admitted open_status acknowledged = true
edge_admitted open_status resolved = true
edge_admitted open_status waived = true
edge_admitted acknowledged resolved = true
edge_admitted acknowledged waived = true
edge_admitted _ _ = false

abbrev pub is_terminal : Status → Bool
is_terminal resolved = true
is_terminal waived = true
is_terminal _ = false

unfoldable pub note_admitted : Text → Bool
note_admitted note =
    leb 1 (length note)
    && leb (length note) 4000
    && text_eq note (normalize_correction_reason note)
    && any (λ c. not (is_space c)) note

-- ck_exception_events_transition: a terminal status needs a note.
unfoldable pub event_check : StatusEvent → Bool
unfolding note_admitted
event_check e =
    ltb 0 e.event_seq
    && edge_admitted e.from_status e.to_status
    && elim e.note [ none ↦ status_eq e.to_status acknowledged | some n ↦ note_admitted n ]

-- ORDER BY event_seq DESC LIMIT 1
abbrev pub later : StatusEvent → Option StatusEvent → StatusEvent
later e none = e
later e (some m) = if ltb e.event_seq m.event_seq then m else e

unfoldable pub latest_event : List StatusEvent → Option StatusEvent
latest_event [] = none
latest_event (e ∷ events) = some (later e (latest_event events))

abbrev pub status_of : Option StatusEvent → Status
status_of none = open_status
status_of (some e) = e.to_status

abbrev pub seq_of : Option StatusEvent → ℕ
seq_of none = 0
seq_of (some e) = e.event_seq

abbrev pub note_same : Option Text → Option Text → Bool
note_same none none = true
note_same (some a) (some b) = text_eq a b
note_same _ _ = false

-- The projection that an event leaves.
abbrev pub projected : Option StatusEvent → Workflow
projected none = record {
  status = open_status;
  event_seq = 0;
  resolved_by_actor_id = none;
  resolved_at = none;
  resolution_note = none;
}
projected (some e) =
    let terminal = is_terminal e.to_status in
    record {
      status = e.to_status;
      event_seq = e.event_seq;
      resolved_by_actor_id = if terminal then some e.actor_id else none;
      resolved_at = if terminal then some e.occurred_at else none;
      resolution_note = if terminal then e.note else none;
    }

abbrev pub workflow_same : Workflow → Workflow → Bool
workflow_same a b =
    status_eq a.status b.status
    && a.event_seq == b.event_seq
    && same a.resolved_by_actor_id b.resolved_by_actor_id
    && same a.resolved_at b.resolved_at
    && note_same a.resolution_note b.resolution_note

-- The events of which one does not follow the one before it.
unfoldable pub broken_event : List StatusEvent → StatusEvent → Bool
broken_event events e =
    let p = find (λ k. suc k.event_seq == e.event_seq) events in
    not (status_eq e.from_status (status_of p))
    || (ltb 1 e.event_seq && is_none p)
    || not (edge_admitted e.from_status e.to_status)

-- The row of this exception is in exception_workflow_anomalies.
unfoldable pub has_workflow_anomaly : Workflow → List StatusEvent → Bool
unfolding broken_event latest_event
has_workflow_anomaly w events =
    not (workflow_same w (projected (latest_event events)))
    || not (w.event_seq == length events)
    || any (broken_event events) events

-- A request for a change of status, with the identifier of its event.
pub record StatusRequest : Type 0 where
  pub expected_status : Status
  pub to_status : Status
  pub note : Option Text
  pub occurred_at : ℕ
  pub event_id : ℕ

abbrev pub event_of : StatusRequest → Option StatusEvent → ℕ → StatusEvent
event_of q previous performer_id = record {
  id = q.event_id;
  event_seq = seq_of previous + 1;
  from_status = status_of previous;
  to_status = q.to_status;
  note = elim q.note [ none ↦ none | some n ↦ some (normalize_correction_reason n) ];
  actor_id = performer_id;
  occurred_at = q.occurred_at;
}

-- The credential, the locked row, and no anomaly of its history.
unfoldable pub admit_status :
    Session → Option (Workflow × List StatusEvent) → Result (ℕ × List StatusEvent)
unfolding has_workflow_anomaly
admit_status s found = do
  guard (s.trusted_org && not s.actor_hint) (sql insufficient_privilege)
  performer_id ← performer s
  (w, events) ← elim found [ none ↦ err (sql no_data_found) | some r ↦ ok r ]
  guard (not (has_workflow_anomaly w events)) (sql raise_exception)
  ok (performer_id, events)

unfoldable pub append_status :
    List StatusEvent
    → StatusRequest
    → StatusEvent
    → Result (StatusEvent × Workflow × List StatusEvent)
unfolding event_check
append_status events q e = do
  guard (status_eq q.expected_status (status_of (latest_event events))) (sql serialization_failure)
  guard (event_check e) (sql check_violation)
  guard (not (any (λ k. k.id == e.id || k.event_seq == e.event_seq) events)) (sql unique_violation)
  ok (e, projected (some e), e ∷ events)

-- The SQL function; `found` is the locked row with its events.
unfoldable pub transition_sql :
    Session
    → Option (Workflow × List StatusEvent)
    → StatusRequest
    → Result (StatusEvent × Workflow × List StatusEvent)
unfolding admit_status append_status
transition_sql s found q = do
  (performer_id, events) ← admit_status s found
  append_status events q (event_of q (latest_event events) performer_id)

-- The service, for a receiving exception.
unfoldable pub transition_exception :
    Session
    → Option (Workflow × List StatusEvent)
    → StatusRequest
    → Result (StatusEvent × Workflow × List StatusEvent)
unfolding transition_sql constraints
transition_exception s found q =
    guard (any (status_eq q.to_status) (workflow q.expected_status)) asset_invalid
    >> constraints (transition_sql s found q)
