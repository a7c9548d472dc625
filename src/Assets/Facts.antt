-- ===== src/Assets/Facts.antt =====
-- server/fleetops/domain/asset_facts.py and assignments.py: the services in front of the SQL functions
-- of the physical facts and of the assignment.
use defiant_fleet_ops.Base.{ℕ, Option, Result}
use defiant_fleet_ops.History.{Event}
use defiant_fleet_ops.Ledger.{Ledger, Assignee, Session, Directory, Request}
use defiant_fleet_ops.Ledger.Physical.{movement, custody, ownership, change_fact}
use defiant_fleet_ops.Assets.{constraints}
use defiant_fleet_ops.Ledger.Assignment.{
  assign_asset as sql_assign_asset, unassign_asset as sql_unassign_asset,
}

module _ (s : Session) (d : Directory) (found : Option Ledger) (q : Request) where
  unfoldable pub move_asset : Option ℕ → Result (Event ℕ × Ledger)
  unfolding constraints
  move_asset to_location_id = constraints (change_fact movement s d found q to_location_id)

  unfoldable pub change_custody : Option ℕ → Result (Event ℕ × Ledger)
  unfolding constraints
  change_custody to_custodian_party_id =
      constraints (change_fact custody s d found q to_custodian_party_id)

  unfoldable pub change_ownership : Option ℕ → Result (Event ℕ × Ledger)
  unfolding constraints
  change_ownership to_owner_party_id =
      constraints (change_fact ownership s d found q to_owner_party_id)

  unfoldable pub assign_asset : Assignee → Result (Event Assignee × Ledger)
  unfolding constraints
  assign_asset assignee = constraints (sql_assign_asset s d found q assignee)

  unfoldable pub unassign_asset : Result (Event Assignee × Ledger)
  unfolding constraints
  unassign_asset = constraints (sql_unassign_asset s d found q)
