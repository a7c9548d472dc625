-- ===== src/Ledger.antt =====
-- One Asset with its history, as the rows that the tables of one organization hold for it, and what
-- the privileged SQL functions share: the credential, the version arithmetic of an integer column,
-- and the INSERT of a history row. Sources: server/alembic/versions/0006_assets.py,
-- 0007_asset_fact_history.py, 0008_assignment_configuration.py and 0011_corrections.py.
pub mod Anomalies
pub mod Admission
pub mod Transition
pub mod Physical
pub mod Assignment
pub mod Table
pub mod Authority
pub mod Correction
pub mod Corrections
pub mod Invariant
pub mod Extension
pub mod Coherence
pub mod Pair
pub mod Creation
pub mod Reachable
pub use defiant_fleet_ops.Base.{has}
use defiant_fleet_ops.Base.{
  ℕ, ◌+◌, ◌≡◌, refl, Bool, true, false, not, ◌||◌, ◌&&◌, Option, none, some, List, [], ◌∷◌, ltb,
  leb, ◌==◌, any, matches, Result, ok, err, guard, ◌>>=◌, ◌>>◌, sql, insufficient_privilege,
  check_violation, unique_violation, foreign_key_violation, numeric_out_of_range, if◌then◌else◌,
}
use defiant_fleet_ops.Text.{Text}
use defiant_fleet_ops.Lifecycle.{AssetState}
use defiant_fleet_ops.Evidence.{EvidenceTables}
use defiant_fleet_ops.History.{
  Event, CorrectionRole, ordinary, reversal, corrected, is_ordinary, role_eq,
}

-- A typed reference to the holder of an assignment.
pub data AssigneeType : Type 0 where
  actor location party : AssigneeType

pub record Assignee : Type 0 where
  pub kind : AssigneeType
  pub id : ℕ

-- The row of assets, less its descriptive columns. The owner is never NULL in the table.
pub record Asset : Type 0 where
  pub id : ℕ
  pub current_state : AssetState
  pub version : ℕ
  pub current_location_id : Option ℕ
  pub custodian_party_id : Option ℕ
  pub owner_party_id : Option ℕ
  pub current_assignment_id : Option ℕ

-- The row of asset_initial_facts.
pub record InitialFacts : Type 0 where
  pub initial_location_id : Option ℕ
  pub initial_custodian_party_id : Option ℕ
  pub initial_owner_party_id : Option ℕ

-- `initial_assignment_facts` tells whether the creation witness of the assignment exists.
pub record Ledger : Type 0 where
  pub asset : Asset
  pub transitions : List (Event AssetState)
  pub movements : List (Event ℕ)
  pub custody_changes : List (Event ℕ)
  pub ownership_changes : List (Event ℕ)
  pub assignment_events : List (Event Assignee)
  pub initial_facts : Option InitialFacts
  pub initial_assignment_facts : Bool

-- The transaction that calls: whether an organization is set, and the Actor to which
-- current_authenticated_actor resolves the credential. `actor_hint` is a caller's fleetops.actor_id,
-- which corrections refuse.
pub record Session : Type 0 where
  pub trusted_org : Bool
  pub actor_hint : Bool
  pub actor : Option ℕ

-- The rows of the other tables of the organization that a history row may name.
pub record Directory : Type 0 where
  pub actors : List ℕ
  pub locations : List ℕ
  pub parties : List ℕ
  pub evidence : EvidenceTables

-- What a caller supplies with each operation: the version that it read, and the claim.
pub record Request : Type 0 where
  pub expected_version : ℕ
  pub reason : Text
  pub occurred_at : ℕ
  pub client_op_id : Option ℕ
  pub row_id : ℕ

-- The trusted organization and the authenticated Actor, or 42501.
unfoldable pub performer : Session → Result ℕ
performer s = do
  guard s.trusted_org (sql insufficient_privilege)
  elim s.actor [ none ↦ err (sql insufficient_privilege) | some who ↦ ok who ]

abbrev pub int_max : ℕ
int_max = 2147483647

-- `v + n` in an integer column.
unfoldable pub add_version : ℕ → ℕ → Result ℕ
add_version v n = if leb (v + n) int_max then ok (v + n) else err (sql numeric_out_of_range)

module _ {F : Type 0} where
  -- A unique index that both rows fall under: the key, the produced version, and for the two rows
  -- of a correction the pair and the generation of the root.
  unfoldable pub collides : Event F → Event F → Bool
  collides e h =
      h.id == e.id
      || h.result_version == e.result_version
      || (not (is_ordinary e.role)
          && role_eq h.role e.role
          && (matches h.pair_id e.pair_id
              || (matches h.root e.root && h.generation == e.generation)))

  -- The foreign key of a corrects_ column.
  unfoldable pub names_root : List (Event F) → Option ℕ → Bool
  names_root rows none = true
  names_root rows (some r) = any (λ h. h.id == r) rows

  -- INSERT of a row into its history table, with the CHECK on the reason that the table has.
  unfoldable pub insert_event : (Text → Bool) → Event F → List (Event F) → Result (List (Event F))
  unfolding collides names_root
  insert_event admitted e rows = do
    guard (ltb 0 e.result_version && admitted e.reason) (sql check_violation)
    guard (not (any (collides e) rows)) (sql unique_violation)
    guard (names_root rows e.root) (sql foreign_key_violation)
    ok (e ∷ rows)
