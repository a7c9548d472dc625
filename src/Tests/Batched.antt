-- ===== src/Tests/Batched.antt =====
-- A batch of two captured changes of the sample Asset, the later one of the epoch first.
use defiant_fleet_ops.Base.{some, List, [], ◌∷◌, ◌≡◌, refl, ◌==◌}
use defiant_fleet_ops.Capture.{CaptureOperation}
use defiant_fleet_ops.Capture.Order.{Entry, enumerate, ordered}
use defiant_fleet_ops.Capture.Order.Laws.{InOrder, tally, ordered-tally}
use defiant_fleet_ops.Capture.Order.Sequence.{ordered-InOrder}
use defiant_fleet_ops.Capture.Batch.{completed, batch}
use defiant_fleet_ops.Capture.Batch.Answers.{Answered, batch-Answered}
use defiant_fleet_ops.Tests.Captured.{others, tables, move_to, identifiers}

abbrev queued : List CaptureOperation
queued = record (move_to 41 3 2) { client_seq = 2 } ∷ move_to 40 1 2 ∷ []

-- The later operation stands first in the batch and is processed last.
queued-ordered :
    ordered queued ≡ (1, move_to 40 1 2) ∷ (0, record (move_to 41 3 2) { client_seq = 2 }) ∷ []
unfolding ordered defiant_fleet_ops.Capture.Order.place
queued-ordered = refl

ordered-tally_example :
    tally (λ (e : Entry). e.1.client_seq == 2) (ordered queued)
    ≡ tally (λ (e : Entry). e.1.client_seq == 2) (enumerate 0 queued)
ordered-tally_example = ordered-tally (λ (e : Entry). e.1.client_seq == 2) queued

ordered-InOrder_example : InOrder (ordered queued)
ordered-InOrder_example = ordered-InOrder queued

queued-completed : (batch others (λ n. some 7) (λ n. identifiers) queued tables).ending ≡ completed
unfolding batch defiant_fleet_ops.Capture.Order.place defiant_fleet_ops.Assets.Facts.move_asset
    defiant_fleet_ops.Ledger.Physical.change_fact defiant_fleet_ops.Ledger.Anomalies.has_anomaly
    defiant_fleet_ops.History.latest defiant_fleet_ops.History.effective
    defiant_fleet_ops.Ledger.add_version defiant_fleet_ops.Ledger.insert_event
    defiant_fleet_ops.Text.reason_admitted
queued-completed = refl

batch-Answered_example :
    Answered
      (ordered queued)
      (batch others (λ n. some 7) (λ n. identifiers) queued tables).responses
batch-Answered_example =
    batch-Answered others (λ n. some 7) (λ n. identifiers) queued tables queued-completed
