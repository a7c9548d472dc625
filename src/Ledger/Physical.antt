-- ===== src/Ledger/Physical.antt =====
-- The SQL functions move_asset, change_custody and change_ownership, one template in
-- server/alembic/versions/0007_asset_fact_history.py that 0011_corrections.py adapts.
pub mod Inversion
pub mod Acceptance
use defiant_fleet_ops.Base.{
  ℕ, Bool, true, false, not, ◌||◌, Option, none, some, List, same, is_some, Result, ok, err, guard,
  ◌>>=◌, ◌>>◌, sql, raise_exception, not_null_violation, foreign_key_violation,
}
use defiant_fleet_ops.Text.{reason_admitted}
use defiant_fleet_ops.History.{Event, ordinary}
use defiant_fleet_ops.Ledger.{
  Ledger, Asset, InitialFacts, Session, Directory, Request, has, add_version, insert_event,
}
use defiant_fleet_ops.Ledger.Admission.{admit, prior_fact}

-- The three entries of OPERATIONS.
pub data PhysicalFact : Type 0 where
  movement custody ownership : PhysicalFact

-- The history table, the projection and the creation fact of each.
abbrev pub history : PhysicalFact → Ledger → List (Event ℕ)
history movement l = l.movements
history custody l = l.custody_changes
history ownership l = l.ownership_changes

abbrev pub projection : PhysicalFact → Asset → Option ℕ
projection movement a = a.current_location_id
projection custody a = a.custodian_party_id
projection ownership a = a.owner_party_id

abbrev pub initial_fact : PhysicalFact → InitialFacts → Option ℕ
initial_fact movement b = b.initial_location_id
initial_fact custody b = b.initial_custodian_party_id
initial_fact ownership b = b.initial_owner_party_id

abbrev pub required : PhysicalFact → Bool
required ownership = true
required _ = false

-- The table that the target is looked up in.
abbrev pub target_known : Directory → PhysicalFact → Option ℕ → Bool
target_known d f none = true
target_known d movement (some t) = has t d.locations
target_known d _ (some t) = has t d.parties

abbrev pub write : PhysicalFact → Ledger → List (Event ℕ) → Option ℕ → ℕ → Ledger
write movement l rows target v = record l {
  asset = record (l.asset) { current_location_id = target; version = v };
  movements = rows;
}
write custody l rows target v = record l {
  asset = record (l.asset) { custodian_party_id = target; version = v };
  custody_changes = rows;
}
write ownership l rows target v = record l {
  asset = record (l.asset) { owner_party_id = target; version = v };
  ownership_changes = rows;
}

-- A first change needs the creation facts; a NULL among them is a fact.
unfoldable pub baseline : PhysicalFact → Ledger → Result (Option ℕ)
baseline f l = elim l.initial_facts [
  | none ↦ err (sql raise_exception)
  | some b ↦ ok (initial_fact f b)
]

abbrev pub physical_row : Request → ℕ → Option ℕ → Option ℕ → ℕ → Event ℕ
physical_row q who prior target version = record {
  id = q.row_id;
  result_version = version;
  source = prior;
  target = target;
  reason = q.reason;
  actor_id = who;
  occurred_at = q.occurred_at;
  client_op_id = q.client_op_id;
  evidence_ref = none;
  root = none;
  role = ordinary;
  pair_id = none;
  generation = 0;
  correction_occurred_at = none;
}

unfoldable pub change_fact :
    PhysicalFact
    → Session
    → Directory
    → Option Ledger
    → Request
    → Option ℕ
    → Result (Event ℕ × Ledger)
unfolding admit prior_fact baseline
change_fact f s d found q target = do
  (who, l) ← admit s d found q.expected_version
  prior ← prior_fact l.asset.version (history f l) (baseline f l)
  guard (same (projection f l.asset) prior) (sql raise_exception)
  guard (not (required f) || is_some target) (sql not_null_violation)
  guard (target_known d f target) (sql foreign_key_violation)
  next ← add_version q.expected_version 1
  let row = physical_row q who prior target next
  rows ← insert_event reason_admitted row (history f l)
  ok (row, write f l rows target next)
