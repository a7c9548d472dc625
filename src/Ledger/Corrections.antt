-- ===== src/Ledger/Corrections.antt =====
-- The five entries of HISTORIES in server/alembic/versions/0011_corrections.py, each with the
-- check, the projection and the fallback that correction_sql gives it.
pub mod Coherence
use defiant_fleet_ops.Base.{
  ℕ, Bool, true, false, not, ◌&&◌, ◌||◌, Option, none, some, List, same, is_some, Result, ok, err,
  guard, ◌>>=◌, ◌>>◌, sql, raise_exception, check_violation, foreign_key_violation,
  not_null_violation, if◌then◌else◌,
}
use defiant_fleet_ops.Text.{reason_admitted}
use defiant_fleet_ops.Lifecycle.{AssetState, state_eq}
use defiant_fleet_ops.History.{Event}
use defiant_fleet_ops.Ledger.{Ledger, Assignee, Session, Directory, insert_event}
use defiant_fleet_ops.Ledger.Anomalies.{fact_same}
use defiant_fleet_ops.Ledger.Transition.{insert_transition}
use defiant_fleet_ops.Ledger.Physical.{
  PhysicalFact, movement, custody, ownership, history, projection, required, target_known, write,
  baseline,
}
use defiant_fleet_ops.Ledger.Assignment.{endpoint_known, assignment_id}
use defiant_fleet_ops.Ledger.Correction.{Declaration, CorrectionRequest, correct}

abbrev pub write_state : Ledger → List (Event AssetState) → Event AssetState → ℕ → Ledger
write_state l rows row v = record l {
  asset = record (l.asset) {
    current_state = elim row.target [ none ↦ l.asset.current_state | some s ↦ s ];
    version = v;
  };
  transitions = rows;
}

-- Creation is not correctable, and the evidence of a retirement is the trigger's business.
abbrev pub transition_declaration : Declaration AssetState
transition_declaration = record {
  rows = λ l. l.transitions;
  agrees = λ l head. fact_same state_eq (some l.asset.current_state) head.target;
  fallback = λ l. err (sql check_violation);
  check = λ d prior target. ok tt;
  insert = insert_transition;
  write = write_state;
}

unfoldable pub physical_check : PhysicalFact → Directory → Option ℕ → Option ℕ → Result (Unit {0})
physical_check f d prior target = do
  guard (target_known d f target) (sql foreign_key_violation)
  guard (not (required f) || is_some target) (sql not_null_violation)

abbrev pub physical_declaration : PhysicalFact → Declaration ℕ
physical_declaration f = record {
  rows = history f;
  agrees = λ l head. same (projection f l.asset) head.target;
  fallback = baseline f;
  check = physical_check f;
  insert = λ d asset_id. insert_event reason_admitted;
  write = λ l rows row. write f l rows row.target;
}

unfoldable pub assignment_check : Directory → Option Assignee → Option Assignee → Result (Unit {0})
assignment_check d prior target = do
  guard (is_some target || is_some prior) (sql check_violation)
  guard (endpoint_known d prior && endpoint_known d target) (sql foreign_key_violation)

abbrev pub write_assignment : Ledger → List (Event Assignee) → Event Assignee → ℕ → Ledger
write_assignment l rows row v = record l {
  asset = record (l.asset) { current_assignment_id = assignment_id row; version = v };
  assignment_events = rows;
}

unfoldable pub assignment_witness : Ledger → Result (Option Assignee)
assignment_witness l = if l.initial_assignment_facts then ok none else err (sql raise_exception)

abbrev pub assignment_declaration : Declaration Assignee
assignment_declaration = record {
  rows = λ l. l.assignment_events;
  agrees = λ l head. same l.asset.current_assignment_id (assignment_id head);
  fallback = assignment_witness;
  check = assignment_check;
  insert = λ d asset_id. insert_event reason_admitted;
  write = write_assignment;
}

module _ (s : Session) (d : Directory) (found : Option Ledger) (q : CorrectionRequest) where
  unfoldable pub correct_transition : AssetState → Option ℕ → Result (Event AssetState × Ledger)
  unfolding correct
  correct_transition target evidence_ref =
      correct transition_declaration s d found q (some target) evidence_ref

  unfoldable pub correct_fact : PhysicalFact → Option ℕ → Result (Event ℕ × Ledger)
  unfolding correct
  correct_fact f target = correct (physical_declaration f) s d found q target none

  unfoldable pub correct_assignment : Option Assignee → Result (Event Assignee × Ledger)
  unfolding correct
  correct_assignment target = correct assignment_declaration s d found q target none
