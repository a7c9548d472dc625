-- ===== src/Tests/Audited.antt =====
-- The corrected sample Asset in the services of server/fleetops/domain/corrections.py.
use defiant_fleet_ops.Base.{
  suc, none, some, true, false, [], ◌∷◌, ok, ◌≡◌, refl, any, find, All, ◌==◌,
}
use defiant_fleet_ops.Lifecycle.{
  AssetState, received, in_stock, on_hold, retired, state_eq, allowed,
}
use defiant_fleet_ops.Evidence.{disposal_evidence, valid_asset_evidence}
use defiant_fleet_ops.Evidence.Service.{Storage}
use defiant_fleet_ops.History.{Event, is_reversal, effective, latest_before, reversal, corrected}
use defiant_fleet_ops.Ledger.{Ledger, Assignee}
use defiant_fleet_ops.Ledger.Anomalies.{malformed, has_anomaly}
use defiant_fleet_ops.Corrections.{has_lifecycle_issue, correct_transition, audit_rows}
use defiant_fleet_ops.Corrections.Audit.{IsNamed, audit_rows-IsNamed}
use defiant_fleet_ops.Corrections.Legality.{correct_transition-legal}
use defiant_fleet_ops.Tests.Samples.{session, directory, correction}
use defiant_fleet_ops.Tests.Assets.{stocked}
use defiant_fleet_ops.Tests.Corrected.{held}

abbrev no_storage : Storage
no_storage = record { digest = λ content. []; objects = none }

held-admitted :
    correct_transition session directory no_storage (some stocked.1) (correction 2 201) on_hold none
    ≡ ok (held.0, held.1)
unfolding correct_transition held stocked has_anomaly
    defiant_fleet_ops.Ledger.Transition.state_agrees defiant_fleet_ops.History.latest effective
    defiant_fleet_ops.History.is_effective defiant_fleet_ops.History.supersedes
    defiant_fleet_ops.Ledger.add_version defiant_fleet_ops.Ledger.insert_event
    defiant_fleet_ops.Text.reason_bounded latest_before defiant_fleet_ops.Lifecycle.validate_edge
    defiant_fleet_ops.Evidence.Service.verify_asset_evidence has_lifecycle_issue
    defiant_fleet_ops.Ledger.Authority.assert_authority
    defiant_fleet_ops.Text.normalize_correction_reason
held-admitted = refl

correct_transition-legal_example :
    (root : Event AssetState) × (prior : Event AssetState) × (from : AssetState) × ((correction 2
        201).expected_version
      ≡ stocked.1.asset.version)
    × (has_lifecycle_issue directory stocked.1 ≡ false)
    × (find (λ r. r.id == 201) stocked.1.transitions ≡ some root)
    × (latest_before root.result_version (effective stocked.1.transitions) ≡ some prior)
    × (any (state_eq on_hold) (allowed from prior.source) ≡ true)
    × (on_hold ≡ retired
        → valid_asset_evidence directory.evidence none stocked.1.asset.id (some disposal_evidence)
          ≡ true)
    × (prior.target ≡ some from)
    × (held.0.source ≡ some from)
    × (held.0.target ≡ some on_hold)
    × (held.1.asset.current_state ≡ on_hold)
    × (held.1.asset.version ≡ suc (suc stocked.1.asset.version))
correct_transition-legal_example =
    correct_transition-legal session directory no_storage stocked.1 (correction 2 201) on_hold none
      held.0 held.1 held-admitted

held_history_well_formed : malformed state_eq held.1.transitions none ≡ false
unfolding malformed held stocked has_anomaly defiant_fleet_ops.Ledger.Transition.state_agrees
    defiant_fleet_ops.History.latest effective defiant_fleet_ops.History.is_effective
    defiant_fleet_ops.History.supersedes defiant_fleet_ops.Ledger.add_version
    defiant_fleet_ops.Ledger.insert_event defiant_fleet_ops.Text.reason_bounded
    defiant_fleet_ops.Ledger.Authority.assert_authority latest_before
    defiant_fleet_ops.Text.normalize_correction_reason
held_history_well_formed = refl

audit_rows-IsNamed_example :
    All
      (λ e. is_reversal e.0.role ≡ true → IsNamed state_eq held.1.transitions e)
      (audit_rows held.1.transitions)
audit_rows-IsNamed_example =
    audit_rows-IsNamed state_eq held.1.transitions none held_history_well_formed

-- A corrected edge from RECEIVED to RETIRED, which the graph does not have.
abbrev scrapped_row : Event AssetState → Event AssetState
scrapped_row e = record e {
  role = corrected;
  target = some retired;
  root = some 201;
  generation = 1;
  result_version = 4;
  id = 900;
}

abbrev misrecorded : Ledger
misrecorded = record (stocked.1) { transitions = scrapped_row stocked.0 ∷ stocked.1.transitions }

misrecorded_issue : has_lifecycle_issue directory misrecorded ≡ true
unfolding has_lifecycle_issue stocked has_anomaly defiant_fleet_ops.Ledger.Transition.state_agrees
    defiant_fleet_ops.History.latest effective defiant_fleet_ops.History.is_effective
    defiant_fleet_ops.History.supersedes defiant_fleet_ops.Ledger.add_version
    defiant_fleet_ops.Ledger.insert_event defiant_fleet_ops.Text.reason_bounded latest_before
    valid_asset_evidence
misrecorded_issue = refl
