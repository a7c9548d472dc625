-- ===== src/Tests/Corrected.antt =====
-- Corrections of the operations on the sample Asset, and a run of both.
use defiant_fleet_ops.Base.{ℕ, none, some, ok, ◌≡◌, refl, value_or, false, [], ◌∷◌, if◌then◌else◌}
use defiant_fleet_ops.Lifecycle.{AssetState, received, in_stock, on_hold}
use defiant_fleet_ops.History.{Event}
use defiant_fleet_ops.Ledger.{Ledger, Assignee}
use defiant_fleet_ops.Ledger.Creation.{received_ledger-IsCoherent}
use defiant_fleet_ops.Ledger.Invariant.{IsCoherent}
use defiant_fleet_ops.Ledger.Physical.{movement}
use defiant_fleet_ops.Ledger.Coherence.{transition-IsCoherent}
use defiant_fleet_ops.Ledger.Corrections.{correct_transition, correct_fact, correct_assignment}
use defiant_fleet_ops.Ledger.Corrections.Coherence.{correct_transition-IsCoherent}
use defiant_fleet_ops.Ledger.Reachable.{
  created, stepped, transitioned, transition_corrected, Reachable-IsCoherent,
}
use defiant_fleet_ops.Tests.Samples.{
  unit, fresh_ledger, session, directory, request, correction, desk,
}
use defiant_fleet_ops.Tests.Assets.{stocked, stocked-ok, moved, benched}
use defiant_fleet_ops.Corrections.{has_lifecycle_issue}
use defiant_fleet_ops.Reconcile.{illegal_corrected_lifecycle, reconcile_asset}
use defiant_fleet_ops.Reconcile.Sound.{reconcile_asset-listed}
use defiant_fleet_ops.Ledger.Anomalies.{has_anomaly}

stocked-IsCoherent : IsCoherent stocked.1
stocked-IsCoherent =
    transition-IsCoherent session directory fresh_ledger (request 1 201) received in_stock none
      stocked.0 stocked.1 (received_ledger-IsCoherent unit 7) stocked-ok

unfoldable pub held : Event AssetState × Ledger
unfolding correct_transition
held =
    value_or stocked
      (correct_transition session directory (some stocked.1) (correction 2 201) on_hold none)

held-ok :
    correct_transition session directory (some stocked.1) (correction 2 201) on_hold none
    ≡ ok (held.0, held.1)
unfolding correct_transition stocked has_anomaly defiant_fleet_ops.Ledger.Transition.state_agrees
    defiant_fleet_ops.History.latest defiant_fleet_ops.History.effective
    defiant_fleet_ops.History.is_effective defiant_fleet_ops.History.supersedes
    defiant_fleet_ops.Ledger.add_version defiant_fleet_ops.Ledger.insert_event
    defiant_fleet_ops.Text.reason_bounded defiant_fleet_ops.Ledger.Authority.assert_authority
    defiant_fleet_ops.History.latest_before defiant_fleet_ops.Text.normalize_correction_reason held
held-ok = refl

correct_transition-IsCoherent_example : IsCoherent held.1
correct_transition-IsCoherent_example =
    correct_transition-IsCoherent session directory stocked.1 (correction 2 201) on_hold none held.0
      held.1 stocked-IsCoherent held-ok

returned : Event ℕ × Ledger
unfolding correct_fact
returned =
    value_or moved (correct_fact session directory (some moved.1) (correction 2 202) movement none)

returned-ok :
    correct_fact session directory (some moved.1) (correction 2 202) movement none
    ≡ ok (returned.0, returned.1)
unfolding correct_fact moved has_anomaly defiant_fleet_ops.History.latest
    defiant_fleet_ops.History.effective defiant_fleet_ops.Ledger.add_version
    defiant_fleet_ops.Ledger.insert_event defiant_fleet_ops.Text.reason_admitted
    defiant_fleet_ops.Ledger.Authority.assert_authority defiant_fleet_ops.History.is_effective
    defiant_fleet_ops.History.supersedes defiant_fleet_ops.History.latest_before
    defiant_fleet_ops.Ledger.Corrections.physical_check
    defiant_fleet_ops.Text.normalize_correction_reason returned
returned-ok = refl

freed : Event Assignee × Ledger
unfolding correct_assignment
freed =
    value_or benched
      (correct_assignment session directory (some benched.1) (correction 2 203) (some desk))

freed-ok :
    correct_assignment session directory (some benched.1) (correction 2 203) (some desk)
    ≡ ok (freed.0, freed.1)
unfolding correct_assignment benched has_anomaly defiant_fleet_ops.History.latest
    defiant_fleet_ops.History.effective defiant_fleet_ops.Ledger.add_version
    defiant_fleet_ops.Ledger.insert_event defiant_fleet_ops.Text.reason_admitted
    defiant_fleet_ops.Ledger.Authority.assert_authority defiant_fleet_ops.History.is_effective
    defiant_fleet_ops.History.supersedes defiant_fleet_ops.History.latest_before
    defiant_fleet_ops.Ledger.Corrections.assignment_witness
    defiant_fleet_ops.Ledger.Corrections.assignment_check
    defiant_fleet_ops.Text.normalize_correction_reason freed
freed-ok = refl

Reachable-IsCoherent_example : IsCoherent held.1
Reachable-IsCoherent_example = Reachable-IsCoherent held.1 (
    stepped stocked.1 held.1
      (stepped fresh_ledger stocked.1 (created unit 7) (
        transitioned session directory (request 1 201) received in_stock none stocked.0 stocked-ok))
      (transition_corrected session directory (correction 2 201) on_hold none held.0 held-ok))

pub held_well_formed : has_anomaly directory held.1 ≡ false
unfolding has_anomaly held stocked defiant_fleet_ops.Ledger.Transition.state_agrees
    defiant_fleet_ops.History.latest defiant_fleet_ops.History.effective
    defiant_fleet_ops.History.is_effective defiant_fleet_ops.History.supersedes
    defiant_fleet_ops.Ledger.add_version defiant_fleet_ops.Ledger.insert_event
    defiant_fleet_ops.Text.reason_bounded defiant_fleet_ops.Ledger.Authority.assert_authority
    defiant_fleet_ops.History.latest_before defiant_fleet_ops.Text.normalize_correction_reason
held_well_formed = refl

reconcile_asset-listed_example : reconcile_asset directory held.1 ≡ (
    if has_lifecycle_issue directory held.1 then some (illegal_corrected_lifecycle ∷ []) else none)
reconcile_asset-listed_example =
    reconcile_asset-listed held.1
      (correct_transition-IsCoherent session directory stocked.1 (correction 2 201) on_hold none
        held.0 held.1 stocked-IsCoherent held-ok)
      directory held_well_formed
