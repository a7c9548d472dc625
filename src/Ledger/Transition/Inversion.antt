-- ===== src/Ledger/Transition/Inversion.antt =====
-- What an accepted transition has checked, and what it has written.
use defiant_fleet_ops.Base.{ℕ, suc, ◌≤◌, ◌≡◌, true, false, Option, some, arith, ok}
use defiant_fleet_ops.Lifecycle.{AssetState}
use defiant_fleet_ops.History.{Event}
use defiant_fleet_ops.Ledger.{Ledger, Session, Directory, Request, int_max, add_version}
use defiant_fleet_ops.Ledger.Anomalies.{has_anomaly}
use defiant_fleet_ops.Ledger.Transition.{
  transition, transition_row, state_agrees, insert_transition,
}

module _ (s : Session) (d : Directory) (l : Ledger) (q : Request) (from to : AssetState)
    (evidence_ref : Option ℕ) (row : Event AssetState) (l' : Ledger) where
  pub record Accepted : Type 0 where
    pub authenticated : s.actor ≡ some row.actor_id
    pub current : l.asset.version ≡ q.expected_version
    pub well_formed : has_anomaly d l ≡ false
    pub agreed : state_agrees l from ≡ true
    pub in_range : suc l.asset.version ≤ int_max
    pub written : row ≡ transition_row q row.actor_id from to evidence_ref (suc l.asset.version)
    pub inserted : insert_transition d l.asset.id row l.transitions ≡ ok l'.transitions
    pub result : l' ≡ record l {
      asset = record (l.asset) { current_state = to; version = suc l.asset.version };
      transitions = l'.transitions;
    }

  pub transition-Accepted : transition s d (some l) q from to evidence_ref ≡ ok (row, l') → Accepted
  unfolding transition add_version
  transition-Accepted h = ground arith
