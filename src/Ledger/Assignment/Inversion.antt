-- ===== src/Ledger/Assignment/Inversion.antt =====
-- What an accepted assignment or unassignment has checked, and what it has written.
use defiant_fleet_ops.Base.{
  suc, ◌≤◌, ◌≡◌, true, false, ◌||◌, ◌&&◌, Option, some, is_some, arith, ok,
}
use defiant_fleet_ops.Text.{reason_admitted}
use defiant_fleet_ops.History.{Event}
use defiant_fleet_ops.Ledger.{
  Ledger, Assignee, Session, Directory, Request, int_max, add_version, insert_event,
}
use defiant_fleet_ops.Ledger.Anomalies.{has_anomaly}
use defiant_fleet_ops.Ledger.Assignment.{
  change_assignment, assignment_row, assignment_id, endpoint_known,
}

module _ (s : Session) (d : Directory) (l : Ledger) (q : Request) (target : Option Assignee)
    (row : Event Assignee) (l' : Ledger) where
  pub record Accepted : Type 0 where
    pub authenticated : s.actor ≡ some row.actor_id
    pub current : l.asset.version ≡ q.expected_version
    pub well_formed : has_anomaly d l ≡ false
    pub in_range : suc l.asset.version ≤ int_max
    pub changed : (is_some target || is_some row.source) ≡ true
    pub known : (endpoint_known d row.source && endpoint_known d target) ≡ true
    pub written : row ≡ assignment_row q row.actor_id row.source target (suc l.asset.version)
    pub inserted : insert_event reason_admitted row l.assignment_events ≡ ok l'.assignment_events
    pub result : l' ≡ record l {
      asset = record (l.asset) {
        current_assignment_id = assignment_id row;
        version = suc l.asset.version;
      };
      assignment_events = l'.assignment_events;
    }

  pub change_assignment-Accepted : change_assignment s d (some l) q target ≡ ok (row, l') → Accepted
  unfolding change_assignment add_version
  change_assignment-Accepted h = ground arith
