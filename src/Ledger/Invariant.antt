-- ===== src/Ledger/Invariant.antt =====
-- What holds of an Asset between two operations: its creation is witnessed, the tables are kept, every version of the Asset
-- is produced exactly once, and every projection is what its history states.
use defiant_fleet_ops.Base.{ℕ, ◌+◌, ◌≡◌, true, ◌&&◌, some, ltb, leb, count, is_some, if◌then◌else◌}
use defiant_fleet_ops.History.{versions}
use defiant_fleet_ops.Ledger.{Ledger}
use defiant_fleet_ops.Ledger.Table.{IsKept}
use defiant_fleet_ops.Ledger.Physical.{PhysicalFact, history, projection}
use defiant_fleet_ops.Ledger.Authority.{stated_state, stated_fact, stated_assignment}

-- How many rows of the five histories produced version `v`.
unfoldable pub producers : ℕ → Ledger → ℕ
producers v l =
    count v (versions l.transitions)
    + count v (versions l.movements)
    + count v (versions l.custody_changes)
    + count v (versions l.ownership_changes)
    + count v (versions l.assignment_events)

abbrev pub once : ℕ → ℕ → ℕ
once version v = if ltb 0 v && leb v version then 1 else 0

pub record IsCoherent (l : Ledger) : Type 0 where
  pub creation : is_some l.initial_facts ≡ true
  pub witness : l.initial_assignment_facts ≡ true
  pub transitions : IsKept l.asset.version l.transitions
  pub physical : (f : PhysicalFact) → IsKept l.asset.version (history f l)
  pub assignments : IsKept l.asset.version l.assignment_events
  pub dense : (v : ℕ) → producers v l ≡ once l.asset.version v
  pub state : stated_state l ≡ some l.asset.current_state
  pub facts : (f : PhysicalFact) → stated_fact f l ≡ projection f l.asset
  pub assignment : stated_assignment l ≡ l.asset.current_assignment_id
