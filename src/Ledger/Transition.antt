-- ===== src/Ledger/Transition.antt =====
-- The SQL function transition_asset: server/alembic/versions/0006_assets.py, as 0011_corrections.py
-- and 0012_evidence.py adapt it.
pub mod Inversion
use defiant_fleet_ops.Base.{
  ℕ, ◌+◌, Bool, true, false, not, ◌&&◌, ◌||◌, Option, none, some, List, ltb, leb, ◌==◌, Result, ok,
  err, guard, ◌>>=◌, ◌>>◌, is_some, is_none, sql, check_violation, raise_exception, if◌then◌else◌,
}
use defiant_fleet_ops.Text.{reason_bounded}
use defiant_fleet_ops.Lifecycle.{AssetState, received, retired, state_eq}
use defiant_fleet_ops.Evidence.{EvidenceTables, disposal_evidence, valid_asset_evidence}
use defiant_fleet_ops.History.{Event, ordinary, effective, latest}
use defiant_fleet_ops.Ledger.{Ledger, Session, Directory, Request, add_version, insert_event}
use defiant_fleet_ops.Ledger.Anomalies.{fact_same, retires}
use defiant_fleet_ops.Ledger.Admission.{admit}

-- ck_asset_transitions_initial: only the first row has no source, and it states RECEIVED.
unfoldable pub initial_check : Event AssetState → Bool
initial_check e =
    (e.result_version == 1 && is_none e.source && fact_same state_eq e.target (some received))
    || (ltb 1 e.result_version && is_some e.source)

-- The trigger evidence_reference on asset_transitions (guard_asset_evidence).
unfoldable pub guard_asset_evidence : EvidenceTables → ℕ → Event AssetState → Result (Unit {0})
guard_asset_evidence t asset_id e =
    guard
      (not (is_some e.evidence_ref || retires e)
        || valid_asset_evidence t e.evidence_ref asset_id
            (if retires e then some disposal_evidence else none))
      (sql check_violation)

-- INSERT INTO asset_transitions, with its trigger and its checks.
unfoldable pub insert_transition :
    Directory → ℕ → Event AssetState → List (Event AssetState) → Result (List (Event AssetState))
unfolding guard_asset_evidence initial_check
insert_transition d asset_id e rows = do
  guard_asset_evidence d.evidence asset_id e
  guard (initial_check e) (sql check_violation)
  insert_event reason_bounded e rows

-- The history, the projection and the caller agree on the present state.
unfoldable pub state_agrees : Ledger → AssetState → Bool
state_agrees l from = elim (latest (effective l.transitions)) [
  | none ↦ false
  | some t ↦
      leb t.result_version l.asset.version
      && fact_same state_eq t.target (some from)
      && fact_same state_eq (some l.asset.current_state) t.target
]

abbrev transition_row : Request → ℕ → AssetState → AssetState → Option ℕ → ℕ → Event AssetState
transition_row q who from to evidence_ref version = record {
  id = q.row_id;
  result_version = version;
  source = some from;
  target = some to;
  reason = q.reason;
  actor_id = who;
  occurred_at = q.occurred_at;
  client_op_id = q.client_op_id;
  evidence_ref = evidence_ref;
  root = none;
  role = ordinary;
  pair_id = none;
  generation = 0;
  correction_occurred_at = none;
}

unfoldable pub transition :
    Session
    → Directory
    → Option Ledger
    → Request
    → AssetState
    → AssetState
    → Option ℕ
    → Result (Event AssetState × Ledger)
unfolding admit insert_transition
transition s d found q from to evidence_ref = do
  (who, l) ← admit s d found q.expected_version
  guard (state_agrees l from) (sql raise_exception)
  next ← add_version q.expected_version 1
  let row = transition_row q who from to evidence_ref next
  rows ← insert_transition d l.asset.id row l.transitions
  ok (
    row,
    record l {
      asset = record (l.asset) { current_state = to; version = next };
      transitions = rows;
    },
  )
