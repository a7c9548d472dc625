-- ===== src/Tests/Captured.antt =====
-- Admitted and captured changes of the sample Asset.
use defiant_fleet_ops.Base.{ℕ, true, false, none, some, [], ◌∷◌, ok, ◌≡◌, refl, value_or, arith}
use mathlib.Core.Path.{subst}
use defiant_fleet_ops.Text.{Text, codes}
use defiant_fleet_ops.Lifecycle.{received, in_stock, retired, on_hold}
use defiant_fleet_ops.Evidence.{valid_asset_evidence, disposal_evidence}
use defiant_fleet_ops.Evidence.Service.{Storage}
use defiant_fleet_ops.History.{Event}
use defiant_fleet_ops.Ledger.{Ledger, Session}
use defiant_fleet_ops.Assets.{Options, transition_asset, transition_options}
use defiant_fleet_ops.Assets.Legality.{
  is_legal, offered, transition_asset-is_legal, transition_options-is_legal,
}
use defiant_fleet_ops.Capture.{
  CaptureOperationKind, CaptureOperation, EntityKind, Payload, World, Tables, Outcome, rejected,
}
use defiant_fleet_ops.Capture.Apply.{Unversioned, AllCoherent}
use defiant_fleet_ops.Capture.Process.{Fresh, Out, process}
use defiant_fleet_ops.Capture.Process.Idempotence.{repeated, process-repeated}
use defiant_fleet_ops.Capture.Process.Outcomes.{process-rejected}
use defiant_fleet_ops.Tests.Samples.{fresh_ledger, session, directory, request}
use defiant_fleet_ops.Tests.Assets.{stocked}

abbrev storage : Storage
storage = record { digest = λ content. []; objects = none }

admitted-ok :
    transition_asset session directory storage
      (some fresh_ledger)
      100
      (request 1 201)
      received
      in_stock
      none
    ≡ ok (stocked.0, stocked.1)
unfolding transition_asset defiant_fleet_ops.Evidence.Service.verify_asset_evidence
    defiant_fleet_ops.Ledger.Transition.transition defiant_fleet_ops.Ledger.Anomalies.has_anomaly
    defiant_fleet_ops.Ledger.Transition.state_agrees defiant_fleet_ops.History.latest
    defiant_fleet_ops.History.effective defiant_fleet_ops.History.is_effective
    defiant_fleet_ops.History.supersedes defiant_fleet_ops.Ledger.add_version
    defiant_fleet_ops.Ledger.insert_event defiant_fleet_ops.Text.reason_bounded stocked
admitted-ok = refl

transition_asset-is_legal_example :
    ((request 1 201).expected_version ≡ fresh_ledger.asset.version)
    × (received ≡ received)
    × (is_legal fresh_ledger in_stock ≡ true)
    × (stocked.1.asset.current_state ≡ in_stock)
    × (stocked.1.asset.version ≡ 2)
    × (in_stock ≡ retired
        → valid_asset_evidence directory.evidence none 100 (some disposal_evidence) ≡ true)
transition_asset-is_legal_example =
    transition_asset-is_legal session directory storage fresh_ledger 100 (request 1 201) received
      in_stock none stocked.0 stocked.1 admitted-ok

abbrev scrapped : Ledger
scrapped = record fresh_ledger { asset = record (fresh_ledger.asset) { current_state = retired } }

abbrev options : Options
options = record {
  asset_id = 100;
  expected_version = 1;
  from_state = received;
  options = (in_stock, false) ∷ (on_hold, false) ∷ [];
}

options-ok : transition_options (some fresh_ledger) ≡ ok options
unfolding transition_options defiant_fleet_ops.History.latest defiant_fleet_ops.History.effective
    defiant_fleet_ops.History.is_effective defiant_fleet_ops.History.supersedes
options-ok = refl

transition_options-is_legal_example :
    offered on_hold options.options ≡ is_legal fresh_ledger on_hold
transition_options-is_legal_example =
    transition_options-is_legal fresh_ledger options on_hold options-ok

pub others_law :
    (s : Session) (w : World) (o : CaptureOperation) (row_id : ℕ) (r : World × ℕ)
    → AllCoherent w
    → ok (w, row_id) ≡ ok r
    → AllCoherent r.0
others_law s w o row_id r all h =
    let same : w ≡ r.0 = ground (arith, h) in subst AllCoherent same all

abbrev pub others : Unversioned
others = record { run = λ s w o row_id. ok (w, row_id); run-AllCoherent = others_law }

abbrev pub tables : Tables
tables = record {
  world = record { ledgers = fresh_ledger ∷ []; directory = directory; storage = storage };
  streams = [];
  operations = [];
  conflicts = [];
  foreign_operations = 5 ∷ [];
}

abbrev pub move_to : ℕ → ℕ → ℕ → CaptureOperation
move_to operation_id version location = record {
  operation_id = operation_id;
  actor_id = 7;
  client_id = 30;
  client_epoch = 31;
  client_seq = 1;
  entity_type = EntityKind.asset;
  entity_id = 100;
  expected_version = some version;
  operation = CaptureOperationKind.move;
  payload = Payload.movement (some location) (codes "to bench");
  claims_envelope = false;
  occurred_at = 61;
}

abbrev pub identifiers : Fresh
identifiers = record { conflict_id = 500; row_id = 202 }

abbrev unanswered : Out
unanswered = record {
  operation_id = 0;
  sync_state = rejected;
  result = Outcome.not_found;
  sequence_flags = [];
}

captured : Out × Tables
unfolding process
captured =
    value_or (unanswered, tables) (process others session 7 tables (move_to 40 1 2) identifiers)

captured-ok :
    process others session 7 tables (move_to 40 1 2) identifiers ≡ ok (captured.0, captured.1)
unfolding process defiant_fleet_ops.Assets.Facts.move_asset
    defiant_fleet_ops.Ledger.Physical.change_fact defiant_fleet_ops.Ledger.Anomalies.has_anomaly
    defiant_fleet_ops.History.latest defiant_fleet_ops.History.effective
    defiant_fleet_ops.Ledger.add_version defiant_fleet_ops.Ledger.insert_event
    defiant_fleet_ops.Text.reason_admitted captured
captured-ok = refl

process-repeated_example :
    process others session 7 captured.1 (move_to 40 3 1) identifiers
    ≡ ok (repeated captured.0, captured.1)
process-repeated_example =
    process-repeated others session 7 tables captured.1 (move_to 40 1 2) (move_to 40 3 1)
      identifiers identifiers captured.0 captured-ok refl

stale : Out × Tables
unfolding process
stale = value_or (unanswered, tables) (process others session 7 tables (move_to 41 3 2) identifiers)

stale-ok : process others session 7 tables (move_to 41 3 2) identifiers ≡ ok (stale.0, stale.1)
unfolding process stale
stale-ok = refl

stale-rejected : stale.0.sync_state ≡ rejected
unfolding stale
stale-rejected = refl

process-rejected_example : stale.1.world ≡ tables.world
process-rejected_example =
    process-rejected others session 7 tables (move_to 41 3 2) identifiers stale.0 stale.1 stale-ok
      stale-rejected
