-- ===== src/Labels/Service.antt =====
-- server/fleetops/labels/service.py over the queue and the directory of artifacts, with the adapters of
-- server/fleetops/labels/adapters. Rendering is `render`, which has no label where it raises, and `encode`
-- gives the bytes of a label in a format; both use imaging libraries. A failure of the database rolls
-- the queue back and leaves the directory as it is.
use defiant_fleet_ops.Base.{
  ℕ, zero, suc, Bool, true, false, not, ◌&&◌, ◌||◌, Option, none, some, List, [], ◌∷◌, ltb, leb,
  ◌==◌, any, length, Failure, Result, ok, err, guard, ◌>>=◌, ◌>>◌, has, validation_error,
  value_error, label_not_found, label_conflict, output_unavailable, if◌then◌else◌,
}
use defiant_fleet_ops.Text.{Text, trim_by, is_whitespace}
use defiant_fleet_ops.Ledger.{Session}
use defiant_fleet_ops.Labels.{
  Symbology, HumanField, OutputFormat, png, pdf, AdapterName, file, pending, succeeded, failed,
  ErrorCode, render_failed, is_succeeded, Template, Snapshot, Job, Reference, ReceivedLine,
  Delivery, Tables, find_template, find_target, find_job, insert_template, insert_job, update_job,
}
use defiant_fleet_ops.Labels.Store.{Fault, Location, Artifact, published, publish, read}

-- TemplateCreate: the name is stripped, and each field is shown once.
pub record TemplateValues : Type 0 where
  pub name : Text
  pub human_fields : List HumanField
  pub symbology : Symbology

abbrev field_eq : HumanField → HumanField → Bool
field_eq HumanField.id HumanField.id = true
field_eq HumanField.asset_tag HumanField.asset_tag = true
field_eq HumanField.description HumanField.description = true
field_eq HumanField.item_mpn HumanField.item_mpn = true
field_eq _ _ = false

abbrev all_distinct : List HumanField → Bool
all_distinct [] = true
all_distinct (f ∷ fields) = not (any (field_eq f) fields) && all_distinct fields

unfoldable pub model_validate : TemplateValues → Result TemplateValues
unfolding trim_by is_whitespace
model_validate v = do
  let name = trim_by is_whitespace v.name
  guard (leb 1 (length name) && leb (length name) 100) validation_error
  guard (not (any (λ c. ltb c 32 || c == 127) name)) validation_error
  guard (leb 1 (length v.human_fields) && leb (length v.human_fields) 4) validation_error
  guard (all_distinct v.human_fields) validation_error
  ok record v { name = name }

abbrev pub new_template : ℕ → TemplateValues → Template
new_template id v = record {
  id = id;
  name = v.name;
  human_fields = v.human_fields;
  symbology = v.symbology;
  created_by_actor_id = 0;
  created_at = 0;
}

-- `id` is the generated uuid7.
unfoldable pub create_template : Session → ℕ → Tables → ℕ → TemplateValues → Result Tables
unfolding model_validate insert_template
create_template s now t id v = do
  body ← model_validate v
  insert_template s now (new_template id body) t

abbrev pub get_template : Tables → ℕ → Result Template
get_template t template_id = elim (find_template template_id t.templates) [
  | none ↦ err label_not_found
  | some m ↦ ok m
]

abbrev pub adapter_for : OutputFormat → AdapterName
adapter_for OutputFormat.zpl = AdapterName.zpl
adapter_for _ = file

-- The snapshot of a new row is a placeholder, which its guard replaces.
abbrev pub new_job : ℕ → ℕ → ℕ → ℕ → OutputFormat → Job
new_job id org_id template_id asset_id output_format = record {
  id = id;
  org_id = org_id;
  template_id = template_id;
  entity_id = asset_id;
  requested_by = 0;
  requested_at = 0;
  status = pending;
  adapter_name = adapter_for output_format;
  output_format = output_format;
  render_snapshot = record {
    id = 0;
    asset_tag = [];
    description = [];
    item_mpn = [];
    human_fields = [];
    symbology = Symbology.code128;
  };
  attempts = 0;
  artifact_sha256 = none;
  error_code = none;
  updated_by_actor_id = none;
  updated_at = none;
}

unfoldable pub enqueue :
    Session → Reference → ℕ → Tables → ℕ → ℕ → ℕ → OutputFormat → Result (Job × Tables)
unfolding insert_job
enqueue s r now t id asset_id template_id output_format = do
  found ← get_template t template_id
  elim (find_target asset_id r.assets) [ none ↦ err label_not_found | some a ↦ ok tt ]
  insert_job s r now (new_job id r.org_id template_id asset_id output_format) t

abbrev pub insert_id : ℕ → List ℕ → List ℕ
insert_id a [] = a ∷ []
insert_id a (b ∷ ids) =
    if a == b then b ∷ ids else (if ltb a b then a ∷ b ∷ ids else b ∷ insert_id a ids)

-- SELECT DISTINCT asset_id ... ORDER BY asset_id of the lines of a receipt that have one.
unfoldable pub received_assets : ℕ → List ReceivedLine → List ℕ
received_assets receipt_id [] = []
received_assets receipt_id (l ∷ lines) =
    let rest = received_assets receipt_id lines in
    elim l.asset_id [
      | none ↦ rest
      | some a ↦ if l.receipt_id == receipt_id then insert_id a rest else rest
    ]

-- LIMIT
abbrev pub take {ℓ} : {A : Type ℓ} → ℕ → List A → List A
take n [] = []
take zero (x ∷ xs) = []
take (suc n) (x ∷ xs) = x ∷ take n xs

-- The jobs of a batch, one after the other; the ids are the generated ones, from `id` on.
unfoldable pub enqueue_all :
    Session → Reference → ℕ → Tables → ℕ → List ℕ → ℕ → OutputFormat → Result (List Job × Tables)
unfolding enqueue
enqueue_all s r now t id [] template_id output_format = ok ([], t)
enqueue_all s r now t id (a ∷ targets) template_id output_format = do
  first ← enqueue s r now t id a template_id output_format
  rest ← enqueue_all s r now first.1 (suc id) targets template_id output_format
  ok (first.0 ∷ rest.0, rest.1)

unfoldable pub enqueue_receipt :
    Session → Reference → ℕ → Tables → ℕ → ℕ → ℕ → OutputFormat → Result (List Job × Tables)
unfolding received_assets enqueue_all
enqueue_receipt s r now t id receipt_id template_id output_format = do
  found ← get_template t template_id
  guard (has receipt_id r.receipts) label_not_found
  let targets = take 501 (received_assets receipt_id r.receipt_lines)
  guard (leb (length targets) 500) label_conflict
  enqueue_all s r now t id targets template_id output_format

abbrev pub get_job : Tables → ℕ → Result Job
get_job t job_id = elim (find_job job_id t.jobs) [ none ↦ err label_not_found | some j ↦ ok j ]

-- The formats that the publish of an adapter takes.
abbrev pub takes : AdapterName → OutputFormat → Bool
takes file png = true
takes file pdf = true
takes AdapterName.zpl OutputFormat.zpl = true
takes _ _ = false

-- The path of the artifact of a job: ZplAdapter names its own extension.
abbrev pub path_of : Job → Location
path_of j = record {
  org_id = j.org_id;
  job_id = j.id;
  extension = elim j.adapter_name [ AdapterName.zpl ↦ OutputFormat.zpl | file ↦ j.output_format ];
}

abbrev failed_with : ErrorCode → Delivery
failed_with code = record { status = failed; artifact_sha256 = none; error_code = some code }

abbrev pub delivered_as : Text → Delivery
delivered_as digest = record {
  status = succeeded;
  artifact_sha256 = some digest;
  error_code = none;
}

-- What became of a publication.
abbrev pub delivery_of : Result Text → Result Delivery
delivery_of (ok digest) = ok (delivered_as digest)
delivery_of (err Failure.output_unavailable) = ok (failed_with ErrorCode.output_unavailable)
delivery_of (err e) = err e

module _ {Label : Type 0} (render : Snapshot → Option Label)
    (encode : OutputFormat → Label → List ℕ) (sha256 : List ℕ → Text) where
  -- `configured` tells whether the registry has its adapters, which are then both there.
  unfoldable pub read_artifact : Bool → Tables → List Artifact → Fault → ℕ → Result (Job × List ℕ)
  unfolding read
  read_artifact configured t files fault job_id = do
    j ← get_job t job_id
    guard (is_succeeded j.status) label_conflict
    guard configured output_unavailable
    content ← elim j.artifact_sha256 [
      | none ↦ err output_unavailable
      | some expected ↦ read sha256 files fault (path_of j) expected
    ]
    ok (j, content)

  -- What a dispatch that is not yet done finds, and what it leaves in the directory.
  unfoldable pub attempt : Bool → List Artifact → Fault → Job → Result Delivery × List Artifact
  unfolding publish published
  attempt false files fault j = (ok (failed_with ErrorCode.output_unavailable), files)
  attempt true files fault j = elim (render j.render_snapshot) [
    | none ↦ (ok (failed_with render_failed), files)
    | some label ↦
        if takes j.adapter_name j.output_format
        then (
          delivery_of (publish sha256 files fault (path_of j) (encode j.output_format label)),
          published files fault (path_of j) (encode j.output_format label),
        )
        else (err value_error, files)
  ]

  unfoldable pub dispatch :
      Session
      → ℕ
      → Bool
      → Tables
      → List Artifact
      → Fault
      → ℕ
      → Result (Job × Tables) × List Artifact
  unfolding read_artifact attempt update_job
  dispatch s now configured t files fault job_id = elim (find_job job_id t.jobs) [
    | none ↦ (err label_not_found, files)
    | some j ↦
        if is_succeeded j.status
        then ((read_artifact configured t files fault job_id >>= λ done. ok (j, t)), files)
        else (
          ((attempt configured files fault j).0 >>= λ d. update_job s now j d t),
          (attempt configured files fault j).1,
        )
  ]
