-- ===== src/Tests/Printed.antt =====
-- A label that a first dispatch publishes without recording it, and the batch of a receipt.
use defiant_fleet_ops.Base.{
  ℕ, ◌≡◌, ◌≤◌, refl, arith, true, Option, none, some, List, [], ◌∷◌, ok, err, map, length, All, has,
  output_unavailable,
}
use defiant_fleet_ops.Text.{Text, codes}
use defiant_fleet_ops.Evidence.{is_sha256}
use defiant_fleet_ops.Ledger.{performer}
use defiant_fleet_ops.Labels.{
  Symbology, HumanField, OutputFormat, png, file, pending, failed, succeeded, ErrorCode, Template,
  Snapshot, Job, Reference, Tables, find_job, is_succeeded,
}
use defiant_fleet_ops.Labels.Store.{Fault, clear, early, late, Artifact}
use defiant_fleet_ops.Labels.Service.{
  TemplateValues, create_template, enqueue, enqueue_receipt, dispatch, read_artifact,
}
use defiant_fleet_ops.Labels.Steps.{
  World, Steps, unchanged, stepped, template_created, enqueued, dispatched, undelivered,
}
use defiant_fleet_ops.Labels.Batch.{IsQueued, IsAscending, is_received, enqueue_receipt-bounded}
use defiant_fleet_ops.Labels.Later.{IsLater, Steps-job}
use defiant_fleet_ops.Labels.Backed.{IsBacked, Steps-IsBacked}
use defiant_fleet_ops.Labels.Delivered.{Steps-read_artifact, dispatch-succeeds}
use defiant_fleet_ops.Tests.Samples.{session}

-- A label is the number of its Asset, and its bytes are that number.
abbrev render : Snapshot → Option ℕ
render s = some s.id

abbrev encode : OutputFormat → ℕ → List ℕ
encode f n = n ∷ []

abbrev sha256 : List ℕ → Text
sha256 [] = codes "0000000000000000000000000000000000000000000000000000000000000000"
sha256 (b ∷ c) = codes "a000000000000000000000000000000000000000000000000000000000000000"

sha256-form : (c : List ℕ) → is_sha256 (sha256 c) ≡ true
unfolding is_sha256
sha256-form [] = refl
sha256-form (b ∷ c) = refl

abbrev stock : Reference
stock = record {
  org_id = 1;
  assets =
      record {
        id = 11;
        asset_tag = codes "T-11";
        description = codes "Pump";
        manufacturer_part_number = codes "P1";
      }
      ∷ record {
        id = 10;
        asset_tag = codes "T-10";
        description = codes "Pump";
        manufacturer_part_number = codes "P1";
      }
      ∷ [];
  receipts = 5 ∷ [];
  receipt_lines =
      record { receipt_id = 5; asset_id = some 11 }
      ∷ record { receipt_id = 5; asset_id = none }
      ∷ record { receipt_id = 6; asset_id = some 12 }
      ∷ record { receipt_id = 5; asset_id = some 10 }
      ∷ [];
}

abbrev nothing : World
nothing = record { tables = record { templates = []; jobs = [] }; files = [] }

nothing-IsBacked : IsBacked render encode sha256 nothing
unfolding defiant_fleet_ops.Labels.Store.artifact_at
nothing-IsBacked = record {
  own = λ p c there. ground arith;
  admitted = λ i j found. ground arith;
  stored = λ i j found done. ground arith;
}

abbrev tag : TemplateValues
tag = record {
  name = codes " Tag ";
  human_fields = HumanField.id ∷ HumanField.description ∷ [];
  symbology = Symbology.code128;
}

abbrev designed : Tables
designed = record {
  templates =
      record {
        id = 2;
        name = codes "Tag";
        human_fields = HumanField.id ∷ HumanField.description ∷ [];
        symbology = Symbology.code128;
        created_by_actor_id = 7;
        created_at = 100;
      }
      ∷ [];
  jobs = [];
}

template-created : create_template session 100 nothing.tables 2 tag ≡ ok designed
unfolding create_template defiant_fleet_ops.Ledger.performer
template-created = refl

abbrev job_of : ℕ → ℕ → Text → Job
job_of id asset_id asset_tag = record {
  id = id;
  org_id = 1;
  template_id = 2;
  entity_id = asset_id;
  requested_by = 7;
  requested_at = 101;
  status = pending;
  adapter_name = file;
  output_format = png;
  render_snapshot = record {
    id = asset_id;
    asset_tag = asset_tag;
    description = codes "Pump";
    item_mpn = codes "P1";
    human_fields = HumanField.id ∷ HumanField.description ∷ [];
    symbology = Symbology.code128;
  };
  attempts = 0;
  artifact_sha256 = none;
  error_code = none;
  updated_by_actor_id = none;
  updated_at = none;
}

abbrev waiting : Job
waiting = job_of 30 11 (codes "T-11")

abbrev queued : Tables
queued = record designed { jobs = waiting ∷ [] }

job-queued : enqueue session stock 101 designed 30 11 2 png ≡ ok (waiting, queued)
unfolding enqueue defiant_fleet_ops.Ledger.performer
job-queued = refl

-- The link was made, and then the last check failed.
abbrev unlucky : Job
unlucky = record waiting {
  status = failed;
  attempts = 1;
  error_code = some ErrorCode.output_unavailable;
  updated_by_actor_id = some 7;
  updated_at = some 102;
}

abbrev printed : List Artifact
printed =
    record { path = record { org_id = 1; job_id = 30; extension = png }; content = 11 ∷ [] } ∷ []

abbrev left : World
left = record { tables = record queued { jobs = unlucky ∷ [] }; files = printed }

late-dispatch :
    dispatch render encode sha256 session 102 true queued [] late 30
    ≡ (ok (unlucky, left.tables), printed)
unfolding dispatch defiant_fleet_ops.Ledger.performer defiant_fleet_ops.Ledger.add_version
late-dispatch = refl

abbrev done : Job
done = record unlucky {
  status = succeeded;
  attempts = 2;
  artifact_sha256 = some (sha256 (11 ∷ []));
  error_code = none;
  updated_at = some 103;
}

abbrev delivered : World
delivered = record { tables = record queued { jobs = done ∷ [] }; files = printed }

retry-dispatch :
    dispatch render encode sha256 session 103 true left.tables printed clear 30
    ≡ (ok (done, delivered.tables), printed)
unfolding dispatch defiant_fleet_ops.Ledger.performer defiant_fleet_ops.Ledger.add_version is_sha256
retry-dispatch = refl

early-dispatch :
    dispatch render encode sha256 session 104 true delivered.tables printed early 30
    ≡ (err output_unavailable, printed)
unfolding dispatch
early-dispatch = refl

left_steps : Steps render encode sha256 nothing left
left_steps =
    stepped (record { tables = queued; files = [] }) left
      (stepped (record { tables = designed; files = [] }) _
        (stepped nothing _ unchanged (template_created session 100 2 tag designed template-created))
        (enqueued session stock 101 30 11 2 png waiting queued job-queued))
      (dispatched session 102 true late 30 unlucky left.tables printed late-dispatch)

delivered_steps : Steps render encode sha256 nothing delivered
delivered_steps =
    stepped left delivered left_steps
      (dispatched session 103 true clear 30 done delivered.tables printed retry-dispatch)

again : Steps render encode sha256 delivered delivered
again =
    stepped delivered delivered unchanged
      (undelivered session 104 true early 30 output_unavailable printed early-dispatch)

Steps-IsBacked_example : IsBacked render encode sha256 delivered
Steps-IsBacked_example =
    Steps-IsBacked render encode sha256 nothing delivered nothing-IsBacked delivered_steps

Steps-job_example : (k : Job) × (find_job 30 delivered.tables.jobs ≡ some k) × IsLater unlucky k
Steps-job_example =
    Steps-job render encode sha256 left delivered 30 unlucky
      (stepped left delivered unchanged
        (dispatched session 103 true clear 30 done delivered.tables printed retry-dispatch))
      refl

Steps-read_artifact_example :
    (label : ℕ) × (render done.render_snapshot ≡ some label)
    × (read_artifact render encode sha256 true delivered.tables delivered.files clear 30
        ≡ ok (done, encode png label))
Steps-read_artifact_example =
    Steps-read_artifact render encode sha256 delivered delivered 30 done
      (Steps-IsBacked render encode sha256 nothing delivered nothing-IsBacked delivered_steps) refl
      refl again

session-performs : performer session ≡ ok 7
unfolding performer
session-performs = refl

dispatch-succeeds_example :
    (u : Job) × (t' : Tables) × ((dispatch render encode sha256 session 103 true left.tables
        left.files clear 30).0
      ≡ ok (u, t'))
    × (is_succeeded u.status ≡ true)
    × (u.artifact_sha256 ≡ some (sha256 (11 ∷ [])))
dispatch-succeeds_example =
    dispatch-succeeds render encode sha256 left session 103 7 30 unlucky 11
      (Steps-IsBacked render encode sha256 nothing left nothing-IsBacked left_steps) refl refl
      session-performs (omega arith) refl (omega arith) sha256-form

abbrev batch : List Job
batch = job_of 31 10 (codes "T-10") ∷ job_of 32 11 (codes "T-11") ∷ []

batch-queued :
    enqueue_receipt session stock 101 designed 31 5 2 png
    ≡ ok (
      batch,
      record designed { jobs = job_of 32 11 (codes "T-11") ∷ job_of 31 10 (codes "T-10") ∷ [] },
    )
unfolding enqueue_receipt defiant_fleet_ops.Ledger.performer
batch-queued = refl

enqueue_receipt-bounded_example :
    (length batch ≤ 500)
    × All IsQueued batch
    × IsAscending 0 (map (λ (j : Job). j.entity_id) batch)
    × ((a : ℕ) → has a (map (λ (j : Job). j.entity_id) batch) ≡ is_received 5 a stock.receipt_lines)
enqueue_receipt-bounded_example =
    enqueue_receipt-bounded session stock 101 designed 31 5 2 png batch _ batch-queued
