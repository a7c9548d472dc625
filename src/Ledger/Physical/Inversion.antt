-- ===== src/Ledger/Physical/Inversion.antt =====
-- What an accepted physical change has checked, and what it has written.
use defiant_fleet_ops.Base.{
  ℕ, suc, ◌≤◌, ◌≡◌, true, false, not, ◌||◌, Option, some, is_some, same, arith, ok,
}
use defiant_fleet_ops.Text.{reason_admitted}
use defiant_fleet_ops.History.{Event}
use defiant_fleet_ops.Ledger.{
  Ledger, Session, Directory, Request, int_max, add_version, insert_event,
}
use defiant_fleet_ops.Ledger.Anomalies.{has_anomaly}
use defiant_fleet_ops.Ledger.Physical.{
  PhysicalFact, history, projection, required, target_known, write, physical_row, change_fact,
}

module _ (f : PhysicalFact) (s : Session) (d : Directory) (l : Ledger) (q : Request)
    (target : Option ℕ) (row : Event ℕ) (l' : Ledger) where
  pub record Accepted : Type 0 where
    pub authenticated : s.actor ≡ some row.actor_id
    pub current : l.asset.version ≡ q.expected_version
    pub well_formed : has_anomaly d l ≡ false
    pub in_range : suc l.asset.version ≤ int_max
    pub known : target_known d f target ≡ true
    pub present : (not (required f) || is_some target) ≡ true
    pub written : row ≡ physical_row q row.actor_id row.source target (suc l.asset.version)
    pub started : same (projection f l.asset) row.source ≡ true
    pub inserted : insert_event reason_admitted row (history f l) ≡ ok (history f l')
    pub result : l' ≡ write f l (history f l') target (suc l.asset.version)

pub change_fact-Accepted :
    (f : PhysicalFact) (s : Session) (d : Directory) (l : Ledger) (q : Request) (target : Option ℕ)
    (row : Event ℕ) (l' : Ledger)
    → change_fact f s d (some l) q target ≡ ok (row, l')
    → Accepted f s d l q target row l'
unfolding change_fact add_version
change_fact-Accepted PhysicalFact.movement s d l q target row l' h = ground arith
change_fact-Accepted _ s d l q target row l' h = ground arith
