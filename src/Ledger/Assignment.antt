-- ===== src/Ledger/Assignment.antt =====
-- The SQL functions assign_asset and unassign_asset, one template in
-- server/alembic/versions/0008_assignment_configuration.py that 0011_corrections.py adapts.
pub mod Inversion
use defiant_fleet_ops.Base.{
  ℕ, Bool, true, false, not, ◌&&◌, ◌||◌, Option, none, some, same, is_some, leb, Result, ok, err,
  guard, ◌>>=◌, ◌>>◌, sql, raise_exception, check_violation, foreign_key_violation, if◌then◌else◌,
}
use defiant_fleet_ops.Text.{reason_admitted}
use defiant_fleet_ops.History.{Event, ordinary, effective, latest}
use defiant_fleet_ops.Ledger.{
  Ledger, Assignee, AssigneeType, Session, Directory, Request, has, add_version, insert_event,
}
use defiant_fleet_ops.Ledger.Admission.{admit}

-- The endpoint is a row of the table that its type names.
abbrev pub endpoint_known : Directory → Option Assignee → Bool
endpoint_known d none = true
endpoint_known d (some t) = elim t.kind [
  | AssigneeType.actor ↦ has t.id d.actors
  | AssigneeType.location ↦ has t.id d.locations
  | AssigneeType.party ↦ has t.id d.parties
]

-- current_assignment_id names the row that made the assignment, and is NULL after an unassignment.
abbrev pub assignment_id : Event Assignee → Option ℕ
assignment_id e = elim e.target [ none ↦ none | some _ ↦ some e.id ]

-- The latest assignee and the projection that it calls for.
unfoldable pub prior_assignment : Ledger → Result (Option Assignee × Option ℕ)
prior_assignment l = elim (latest (effective l.assignment_events)) [
  | none ↦ if l.initial_assignment_facts then ok (none, none) else err (sql raise_exception)
  | some e ↦
      (guard (leb e.result_version l.asset.version) (sql raise_exception)
        >> ok (e.target, assignment_id e))
]

abbrev assignment_row : Request → ℕ → Option Assignee → Option Assignee → ℕ → Event Assignee
assignment_row q who prior target version = record {
  id = q.row_id;
  result_version = version;
  source = prior;
  target = target;
  reason = q.reason;
  actor_id = who;
  occurred_at = q.occurred_at;
  client_op_id = q.client_op_id;
  evidence_ref = none;
  root = none;
  role = ordinary;
  pair_id = none;
  generation = 0;
  correction_occurred_at = none;
}

-- assign_asset gives a target; unassign_asset gives none, and asks for a prior assignee.
unfoldable pub change_assignment :
    Session
    → Directory
    → Option Ledger
    → Request
    → Option Assignee
    → Result (Event Assignee × Ledger)
unfolding admit prior_assignment
change_assignment s d found q target = do
  (who, l) ← admit s d found q.expected_version
  (prior, expected_assignment) ← prior_assignment l
  guard (same l.asset.current_assignment_id expected_assignment) (sql raise_exception)
  guard (is_some target || is_some prior) (sql check_violation)
  guard (endpoint_known d prior && endpoint_known d target) (sql foreign_key_violation)
  next ← add_version q.expected_version 1
  let row = assignment_row q who prior target next
  rows ← insert_event reason_admitted row l.assignment_events
  ok (
    row,
    record l {
      asset = record (l.asset) { current_assignment_id = assignment_id row; version = next };
      assignment_events = rows;
    },
  )

unfoldable pub assign_asset :
    Session → Directory → Option Ledger → Request → Assignee → Result (Event Assignee × Ledger)
unfolding change_assignment
assign_asset s d found q target = change_assignment s d found q (some target)

unfoldable pub unassign_asset :
    Session → Directory → Option Ledger → Request → Result (Event Assignee × Ledger)
unfolding change_assignment
unassign_asset s d found q = change_assignment s d found q none
