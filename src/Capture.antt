-- ===== src/Capture.antt =====
-- Offline capture: server/fleetops/capture/service.py, capture/types.py and the tables of
-- server/alembic/versions/0014_capture.py, over the rows of one organization.
pub mod Sequence
pub mod Facts
pub mod Apply
pub mod Process
pub mod Order
pub mod Batch
use defiant_fleet_ops.Base.{ℕ, Bool, true, false, Option, none, some, List}
use defiant_fleet_ops.Text.{Text}
use defiant_fleet_ops.Lifecycle.{AssetState}
use defiant_fleet_ops.Evidence.Service.{Storage}
use defiant_fleet_ops.Ledger.{Ledger, Assignee, Directory}

pub data CaptureOperationKind : Type 0 where
  receive_scan move assign unassign transition attach_evidence resolve : CaptureOperationKind

-- VERSIONED
abbrev pub is_versioned : CaptureOperationKind → Bool
is_versioned CaptureOperationKind.move = true
is_versioned CaptureOperationKind.assign = true
is_versioned CaptureOperationKind.unassign = true
is_versioned CaptureOperationKind.transition = true
is_versioned _ = false

pub data EntityKind : Type 0 where
  asset receipt exception other : EntityKind

abbrev pub is_asset : EntityKind → Bool
is_asset EntityKind.asset = true
is_asset _ = false

-- A payload as the models of the API read it; `unreadable` is one that none of them admits.
pub data Payload : Type 0 where
  movement : Option ℕ → Text → Payload
  assignment : Assignee → Text → Payload
  physical_change : Text → Payload
  transition : AssetState → AssetState → Text → Option ℕ → Payload
  unreadable : Payload

-- `claims_envelope`: the payload names expected_version, occurred_at or client_op_id.
pub record CaptureOperation : Type 0 where
  pub operation_id : ℕ
  pub actor_id : ℕ
  pub client_id : ℕ
  pub client_epoch : ℕ
  pub client_seq : ℕ
  pub entity_type : EntityKind
  pub entity_id : ℕ
  pub expected_version : Option ℕ
  pub operation : CaptureOperationKind
  pub payload : Payload
  pub claims_envelope : Bool
  pub occurred_at : ℕ

-- A row of capture_streams.
pub record Stream : Type 0 where
  pub client_id : ℕ
  pub client_epoch : ℕ
  pub actor_id : ℕ
  pub last_seq : ℕ

pub data Flag : Type 0 where
  sequence_reused sequence_gap : Flag

-- The facts of an Asset at a version; `none` is a version that it has not reached.
pub record KnownFacts : Type 0 where
  pub state : Option AssetState
  pub location_id : Option ℕ
  pub custodian_party_id : Option ℕ
  pub owner_party_id : Option ℕ
  pub assignee_id : Option ℕ

pub record FactsAt : Type 0 where
  pub version : ℕ
  pub known : Option KnownFacts

pub data SyncState : Type 0 where
  applied rejected duplicate : SyncState

-- The result of an operation: the produced row, or the code of its rejection.
pub data Outcome : Type 0 where
  produced : ℕ → Outcome
  sync_conflict : ℕ → FactsAt → FactsAt → Outcome
  not_found invalid_operation operation_unavailable : Outcome

-- A row of capture_operations, its envelope as the client claimed it.
pub record CaptureRow : Type 0 where
  pub envelope : CaptureOperation
  pub actor_id : ℕ
  pub sync_state : SyncState
  pub result : Outcome
  pub sequence_flags : List Flag

-- A row of sync_conflicts.
pub record SyncConflict : Type 0 where
  pub id : ℕ
  pub operation_id : ℕ
  pub asset_id : ℕ
  pub actor_id : ℕ
  pub expected_version : ℕ
  pub current_version : ℕ
  pub expected_facts : FactsAt
  pub current_facts : FactsAt
  pub occurred_at : ℕ

-- What the domain services read and write.
pub record World : Type 0 where
  pub ledgers : List Ledger
  pub directory : Directory
  pub storage : Storage

-- The capture tables; `foreign_operations` are the identifiers that other organizations have used,
-- which the primary key refuses although row-level security hides them.
pub record Tables : Type 0 where
  pub world : World
  pub streams : List Stream
  pub operations : List CaptureRow
  pub conflicts : List SyncConflict
  pub foreign_operations : List ℕ
