-- ===== src/Capture/Process.antt =====
-- `process` of server/fleetops/capture/service.py: one queued operation, its consequences and its
-- terminal record, in one transaction. The advisory lock and the row locks make it atomic.
pub mod Idempotence
pub mod Outcomes
use defiant_fleet_ops.Base.{
  ℕ, ◌≡◌, Bool, true, false, not, ◌&&◌, Option, none, some, List, [], ◌∷◌, ◌==◌, find, any, Result,
  ok, err, guard, ◌>>=◌, ◌>>◌, Failure, sql, unique_violation, asset_invalid, asset_not_found,
  asset_conflict, lifecycle_invalid, receiving_invalid, receiving_conflict, receiving_not_found,
  evidence_invalid, evidence_conflict, evidence_not_found, validation_error, if◌then◌else◌,
}
use defiant_fleet_ops.Ledger.{Ledger, Session, has}
use defiant_fleet_ops.Capture.{
  CaptureOperation, CaptureRow, SyncConflict, SyncState, applied, rejected, duplicate, Outcome,
  produced, sync_conflict, not_found, invalid_operation, Flag, Tables, World, is_versioned,
}
use defiant_fleet_ops.Capture.Sequence.{sequence}
use defiant_fleet_ops.Capture.Facts.{facts_at}
use defiant_fleet_ops.Capture.Apply.{Unversioned, validate, apply, find_ledger}

-- The identifiers that the server would generate for the operation.
pub record Fresh : Type 0 where
  pub conflict_id : ℕ
  pub row_id : ℕ

-- `_out`
pub record Out : Type 0 where
  pub operation_id : ℕ
  pub sync_state : SyncState
  pub result : Outcome
  pub sequence_flags : List Flag

abbrev pub out : SyncState → CaptureRow → Out
out state row = record {
  operation_id = row.envelope.operation_id;
  sync_state = state;
  result = row.result;
  sequence_flags = row.sequence_flags;
}

-- What the savepoint leaves: the world, the conflicts, and the terminal state.
pub record Attempt : Type 0 where
  pub world : World
  pub conflicts : List SyncConflict
  pub state : SyncState
  pub result : Outcome

abbrev pub conflict_of : CaptureOperation → ℕ → Ledger → ℕ → ℕ → SyncConflict
conflict_of o actor_id l version i = record {
  id = i;
  operation_id = o.operation_id;
  asset_id = l.asset.id;
  actor_id = actor_id;
  expected_version = version;
  current_version = l.asset.version;
  expected_facts = facts_at l version;
  current_facts = facts_at l l.asset.version;
  occurred_at = o.occurred_at;
}

abbrev unchanged : Tables → SyncState → Outcome → Attempt
unchanged t state result = record {
  world = t.world;
  conflicts = t.conflicts;
  state = state;
  result = result;
}

abbrev done : Tables → World × ℕ → Attempt
done t r = record { world = r.0; conflicts = t.conflicts; state = applied; result = produced r.1 }

-- Conflict observation and terminal record are committed together.
abbrev conflicted : Tables → SyncConflict → Attempt
conflicted t c = record {
  world = t.world;
  conflicts = c ∷ t.conflicts;
  state = rejected;
  result = sync_conflict c.id c.expected_facts c.current_facts;
}

module _ (u : Unversioned) (s : Session) (actor_id : ℕ) where
  -- A versioned verb: a version that is not the present one is a conflict, and calls no service.
  unfoldable pub versioned : Tables → CaptureOperation → Fresh → Result Attempt
  unfolding validate apply find_ledger facts_at
  versioned t o fresh = do
    (version, change) ← validate o
    l ← elim (find_ledger o.entity_id t.world.ledgers) [
      | none ↦ err asset_not_found
      | some l ↦ ok l
    ]
    if l.asset.version == version
        then (apply s t.world o l version change fresh.row_id >>= λ r. ok (done t r))
        else ok (conflicted t (conflict_of o actor_id l version fresh.conflict_id))

  unfoldable pub attempt : Tables → CaptureOperation → Fresh → Result Attempt
  unfolding versioned
  attempt t o fresh =
      guard (o.actor_id == actor_id) asset_invalid
      >> (if is_versioned o.operation
          then versioned t o fresh
          else (u.run s t.world o fresh.row_id >>= λ r. ok (done t r)))

  -- `except (ValidationError, *FAILURES)`: the savepoint is rolled back, and a code is kept. Any other
  -- failure ends the transaction.
  unfoldable pub classify : Tables → Result Attempt → Result Attempt
  classify t (ok a) = ok a
  classify t (err asset_not_found) = ok (unchanged t rejected not_found)
  classify t (err receiving_not_found) = ok (unchanged t rejected not_found)
  classify t (err evidence_not_found) = ok (unchanged t rejected not_found)
  classify t (err asset_invalid) = ok (unchanged t rejected invalid_operation)
  classify t (err asset_conflict) = ok (unchanged t rejected invalid_operation)
  classify t (err lifecycle_invalid) = ok (unchanged t rejected invalid_operation)
  classify t (err receiving_invalid) = ok (unchanged t rejected invalid_operation)
  classify t (err receiving_conflict) = ok (unchanged t rejected invalid_operation)
  classify t (err evidence_invalid) = ok (unchanged t rejected invalid_operation)
  classify t (err evidence_conflict) = ok (unchanged t rejected invalid_operation)
  classify t (err validation_error) = ok (unchanged t rejected invalid_operation)
  classify t (err e) = err e

  abbrev pub find_operation : ℕ → List CaptureRow → Option CaptureRow
  find_operation i rows = find (λ r. r.envelope.operation_id == i) rows

  -- INSERT INTO capture_operations
  unfoldable pub record_operation :
      Tables → CaptureOperation → List Flag → Attempt → Result CaptureRow
  record_operation t o flags a = do
    guard (not (any (λ r. r.envelope.operation_id == o.operation_id) t.operations))
        (sql unique_violation)
    guard (not (has o.operation_id t.foreign_operations)) (sql unique_violation)
    ok record {
      envelope = o;
      actor_id = actor_id;
      sync_state = a.state;
      result = a.result;
      sequence_flags = flags;
    }

  -- An operation that has no record yet.
  unfoldable pub perform : Tables → CaptureOperation → Fresh → Result (Out × Tables)
  unfolding attempt classify record_operation sequence
  perform t o fresh = do
    (flags, streams) ← sequence o.client_id o.client_epoch o.client_seq actor_id t.streams
    a ← classify t (attempt t o fresh)
    row ← record_operation t o flags a
    ok (
      out row.sync_state row,
      record t {
        world = a.world;
        streams = streams;
        operations = row ∷ t.operations;
        conflicts = a.conflicts;
      },
    )

  unfoldable pub process : Tables → CaptureOperation → Fresh → Result (Out × Tables)
  unfolding perform
  process t o fresh = elim (find_operation o.operation_id t.operations) [
    | some original ↦
        (guard (original.actor_id == actor_id) asset_invalid >> ok (out duplicate original, t))
    | none ↦ perform t o fresh
  ]
