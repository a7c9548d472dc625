-- ===== src/Capture/Apply.antt =====
-- `_validate` and `_apply` of server/fleetops/capture/service.py. The four versioned verbs call the
-- Asset services; the other three are an interface, which receiving, the evidence service and the
-- exception workflow fill.
pub mod Coherence
use defiant_fleet_ops.Base.{
  ℕ, ◌≡◌, Bool, true, false, not, ◌&&◌, Option, none, some, List, [], ◌∷◌, ◌==◌, find, map, All,
  is_some, Result, ok, err, guard, ◌>>=◌, ◌>>◌, asset_invalid, asset_not_found, validation_error,
  if◌then◌else◌,
}
use defiant_fleet_ops.Text.{Text}
use defiant_fleet_ops.Lifecycle.{AssetState}
use defiant_fleet_ops.Ledger.{Ledger, Assignee, Session, Directory, Request}
use defiant_fleet_ops.Ledger.Invariant.{IsCoherent}
use defiant_fleet_ops.Assets.{transition_asset}
use defiant_fleet_ops.Assets.Facts.{move_asset, assign_asset, unassign_asset}
use defiant_fleet_ops.Capture.{
  CaptureOperationKind, CaptureOperation, Payload, World, is_versioned, is_asset, EntityKind,
}

-- What a versioned verb asks of its Asset.
pub data Change : Type 0 where
  moving : Option ℕ → Text → Change
  assigning : Assignee → Text → Change
  unassigning : Text → Change
  transitioning : AssetState → AssetState → Text → Option ℕ → Change

-- MODELS[operation].model_validate(...)
abbrev pub model_validate : CaptureOperationKind → Payload → Result Change
model_validate CaptureOperationKind.move (Payload.movement to reason) = ok (moving to reason)
model_validate CaptureOperationKind.assign (Payload.assignment to reason) = ok (assigning to reason)
model_validate CaptureOperationKind.unassign (Payload.physical_change reason) =
    ok (unassigning reason)
model_validate CaptureOperationKind.transition (Payload.transition from to reason evidence_ref) =
    ok (transitioning from to reason evidence_ref)
model_validate _ _ = err validation_error

-- The change of a versioned verb, with the version that it expects.
unfoldable pub validate : CaptureOperation → Result (ℕ × Change)
validate o = do
  guard (is_asset o.entity_type && is_some o.expected_version) asset_invalid
  guard (not o.claims_envelope) asset_invalid
  change ← model_validate o.operation o.payload
  elim o.expected_version [ none ↦ err asset_invalid | some v ↦ ok (v, change) ]

unfoldable pub find_ledger : ℕ → List Ledger → Option Ledger
find_ledger i ledgers = find (λ l. l.asset.id == i) ledgers

unfoldable pub set_ledger : Ledger → List Ledger → List Ledger
set_ledger l [] = []
set_ledger l (k ∷ ledgers) = (if k.asset.id == l.asset.id then l else k) ∷ set_ledger l ledgers

abbrev request_of : CaptureOperation → ℕ → Text → ℕ → Request
request_of o version reason row_id = record {
  expected_version = version;
  reason = reason;
  occurred_at = o.occurred_at;
  client_op_id = some o.operation_id;
  row_id = row_id;
}

abbrev committed : World → Ledger → ℕ → World × ℕ
committed w l row_id = (record w { ledgers = set_ledger l w.ledgers }, row_id)

unfoldable pub apply :
    Session → World → CaptureOperation → Ledger → ℕ → Change → ℕ → Result (World × ℕ)
unfolding set_ledger
apply s w o l version (moving to reason) row_id = do
  (row, l') ← move_asset s w.directory (some l) (request_of o version reason row_id) to
  ok (committed w l' row.id)
apply s w o l version (assigning to reason) row_id = do
  (row, l') ← assign_asset s w.directory (some l) (request_of o version reason row_id) to
  ok (committed w l' row.id)
apply s w o l version (unassigning reason) row_id = do
  (row, l') ← unassign_asset s w.directory (some l) (request_of o version reason row_id)
  ok (committed w l' row.id)
apply s w o l version (transitioning from to reason evidence_ref) row_id = do
  (row, l') ←
      transition_asset s w.directory w.storage (some l) o.entity_id
        (request_of o version reason row_id) from to evidence_ref
  ok (committed w l' row.id)

abbrev pub AllCoherent : World → Type 0
AllCoherent w = All IsCoherent w.ledgers

-- RECEIVE_SCAN, ATTACH_EVIDENCE and RESOLVE, which keep the Assets coherent.
pub record Unversioned : Type 0 where
  pub run : Session → World → CaptureOperation → ℕ → Result (World × ℕ)
  pub run-AllCoherent :
      (s : Session) (w : World) (o : CaptureOperation) (row_id : ℕ) (r : World × ℕ)
      → AllCoherent w
      → run s w o row_id ≡ ok r
      → AllCoherent r.0
