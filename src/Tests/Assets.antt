-- ===== src/Tests/Assets.antt =====
-- Ordinary operations on a received Asset.
use defiant_fleet_ops.Base.{ℕ, none, some, [], ok, ◌≡◌, refl, value_or, false, true, ◌∷◌, arith}
use defiant_fleet_ops.Lifecycle.{AssetState, received, in_stock}
use defiant_fleet_ops.History.{Event, ordinary}
use defiant_fleet_ops.Ledger.{Ledger, Assignee}
use defiant_fleet_ops.Ledger.Creation.{received_transition, received_ledger-IsCoherent}
use defiant_fleet_ops.Ledger.Transition.{transition}
use defiant_fleet_ops.Ledger.Physical.{movement, change_fact, physical_row, write}
use defiant_fleet_ops.Ledger.Physical.Acceptance.{change_fact-accepts}
use defiant_fleet_ops.Ledger.Anomalies.{has_anomaly}
use defiant_fleet_ops.Text.{reason_admitted}
use defiant_fleet_ops.Ledger.Assignment.{change_assignment}
use defiant_fleet_ops.Tests.Samples.{unit, fresh_ledger, session, directory, request, bench}

unfoldable pub stocked : Event AssetState × Ledger
unfolding transition
stocked =
    value_or (received_transition unit 7, fresh_ledger)
      (transition session directory (some fresh_ledger) (request 1 201) received in_stock none)

pub stocked-ok :
    transition session directory (some fresh_ledger) (request 1 201) received in_stock none
    ≡ ok (stocked.0, stocked.1)
unfolding transition defiant_fleet_ops.Ledger.Anomalies.has_anomaly
    defiant_fleet_ops.Ledger.Transition.state_agrees defiant_fleet_ops.History.latest
    defiant_fleet_ops.History.effective defiant_fleet_ops.History.is_effective
    defiant_fleet_ops.History.supersedes defiant_fleet_ops.Ledger.add_version
    defiant_fleet_ops.Ledger.insert_event defiant_fleet_ops.Text.reason_bounded stocked
stocked-ok = refl

abbrev no_row : {F : Type 0} → Event F
no_row = record {
  id = 0;
  result_version = 0;
  source = none;
  target = none;
  reason = [];
  actor_id = 0;
  occurred_at = 0;
  client_op_id = none;
  evidence_ref = none;
  root = none;
  role = ordinary;
  pair_id = none;
  generation = 0;
  correction_occurred_at = none;
}

unfoldable pub moved : Event ℕ × Ledger
unfolding change_fact
moved =
    value_or (no_row, fresh_ledger)
      (change_fact movement session directory (some fresh_ledger) (request 1 202) (some 2))

pub moved-ok :
    change_fact movement session directory (some fresh_ledger) (request 1 202) (some 2)
    ≡ ok (moved.0, moved.1)
unfolding change_fact defiant_fleet_ops.Ledger.Anomalies.has_anomaly
    defiant_fleet_ops.History.latest defiant_fleet_ops.History.effective
    defiant_fleet_ops.Ledger.add_version defiant_fleet_ops.Ledger.insert_event
    defiant_fleet_ops.Text.reason_admitted moved
moved-ok = refl

unfoldable pub benched : Event Assignee × Ledger
unfolding change_assignment
benched =
    value_or (no_row, fresh_ledger)
      (change_assignment session directory (some fresh_ledger) (request 1 203) (some bench))

pub benched-ok :
    change_assignment session directory (some fresh_ledger) (request 1 203) (some bench)
    ≡ ok (benched.0, benched.1)
unfolding change_assignment defiant_fleet_ops.Ledger.Anomalies.has_anomaly
    defiant_fleet_ops.History.latest defiant_fleet_ops.History.effective
    defiant_fleet_ops.Ledger.add_version defiant_fleet_ops.Ledger.insert_event
    defiant_fleet_ops.Text.reason_admitted benched
benched-ok = refl

well_formed : has_anomaly directory fresh_ledger ≡ false
unfolding has_anomaly
well_formed = refl

admissible : reason_admitted (request 1 202).reason ≡ true
unfolding reason_admitted
admissible = refl

change_fact-accepts_example :
    change_fact movement session directory (some fresh_ledger) (request 1 202) (some 2)
    ≡ ok (
      physical_row (request 1 202) 7 (some 1) (some 2) 2,
      write movement fresh_ledger
          (physical_row (request 1 202) 7 (some 1) (some 2) 2 ∷ [])
          (some 2)
          2,
    )
change_fact-accepts_example =
    change_fact-accepts movement directory fresh_ledger (received_ledger-IsCoherent unit 7) session
      7 (request 1 202) (some 2) refl refl refl well_formed refl refl (ground arith) admissible refl
