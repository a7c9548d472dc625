-- ===== src/Labels.antt =====
-- The label templates and the queue of print jobs: the tables of server/alembic/label_schema_0013.py and
-- the two guards of server/alembic/versions/0013_labels.py, as the application role meets them. The time
-- of a statement is an argument.
pub mod Store
pub mod Service
pub mod Steps
pub mod Added
pub mod Batch
pub mod Publication
pub mod Changes
pub mod Attempts
pub mod Later
pub mod Backed
pub mod Delivered
use defiant_fleet_ops.Base.{
  ℕ, Bool, true, false, not, ◌&&◌, ◌||◌, Option, none, some, List, [], ◌∷◌, ltb, leb, ◌==◌, any,
  all, find, has, length, map, is_some, is_none, Result, ok, err, guard, ◌>>=◌, ◌>>◌, sql,
  unique_violation, foreign_key_violation, check_violation, if◌then◌else◌,
}
use defiant_fleet_ops.Text.{Text, btrim, is_space}
use defiant_fleet_ops.Ledger.{Session, performer, add_version}
use defiant_fleet_ops.Evidence.{is_sha256}

pub data Symbology : Type 0 where
  code128 datamatrix : Symbology

pub data HumanField : Type 0 where
  id asset_tag description item_mpn : HumanField

pub data OutputFormat : Type 0 where
  png pdf zpl : OutputFormat

pub data AdapterName : Type 0 where
  file zpl : AdapterName

pub data PrintStatus : Type 0 where
  pending succeeded failed : PrintStatus

pub data ErrorCode : Type 0 where
  output_unavailable render_failed : ErrorCode

abbrev pub is_pending : PrintStatus → Bool
is_pending pending = true
is_pending _ = false

abbrev pub is_succeeded : PrintStatus → Bool
is_succeeded succeeded = true
is_succeeded _ = false

-- A template is of Assets and encodes their id, so that those two columns are constant.
pub record Template : Type 0 where
  pub id : ℕ
  pub name : Text
  pub human_fields : List HumanField
  pub symbology : Symbology
  pub created_by_actor_id : ℕ
  pub created_at : ℕ

pub record Snapshot : Type 0 where
  pub id : ℕ
  pub asset_tag : Text
  pub description : Text
  pub item_mpn : Text
  pub human_fields : List HumanField
  pub symbology : Symbology

pub record Job : Type 0 where
  pub id : ℕ
  pub org_id : ℕ
  pub template_id : ℕ
  pub entity_id : ℕ
  pub requested_by : ℕ
  pub requested_at : ℕ
  pub status : PrintStatus
  pub adapter_name : AdapterName
  pub output_format : OutputFormat
  pub render_snapshot : Snapshot
  pub attempts : ℕ
  pub artifact_sha256 : Option Text
  pub error_code : Option ErrorCode
  pub updated_by_actor_id : Option ℕ
  pub updated_at : Option ℕ

-- An Asset with the part number of its Item.
pub record Target : Type 0 where
  pub id : ℕ
  pub asset_tag : Text
  pub description : Text
  pub manufacturer_part_number : Text

pub record ReceivedLine : Type 0 where
  pub receipt_id : ℕ
  pub asset_id : Option ℕ

-- The rows of the organization that a print request reads.
pub record Reference : Type 0 where
  pub org_id : ℕ
  pub assets : List Target
  pub receipts : List ℕ
  pub receipt_lines : List ReceivedLine

-- The newest row first.
pub record Tables : Type 0 where
  pub templates : List Template
  pub jobs : List Job

abbrev pub find_template : ℕ → List Template → Option Template
find_template i = find (λ t. t.id == i)

abbrev pub find_target : ℕ → List Target → Option Target
find_target i = find (λ a. a.id == i)

abbrev pub find_job : ℕ → List Job → Option Job
find_job i = find (λ j. j.id == i)

abbrev is_control : ℕ → Bool
is_control c = ltb c 32 || c == 127

-- The CHECKs of a template on its name and on how many fields it shows.
unfoldable pub template_check : Template → Bool
unfolding btrim
template_check m =
    leb 1 (length (btrim m.name))
    && leb (length (btrim m.name)) 100
    && not (any is_control m.name)
    && leb 1 (length m.human_fields)
    && leb (length m.human_fields) 4

-- INSERT INTO label_templates: guard_label_template and the table.
unfoldable pub insert_template : Session → ℕ → Template → Tables → Result Tables
unfolding template_check
insert_template s now m t = do
  who ← performer s
  guard (template_check m) (sql check_violation)
  guard (not (any (λ k. k.id == m.id) t.templates)) (sql unique_violation)
  ok (record t {
    templates = record m { created_by_actor_id = who; created_at = now } ∷ t.templates;
  })

-- The snapshot that guard_print_job derives from the rows that a request names.
unfoldable pub captured : Reference → Tables → Job → Option Snapshot
captured r t j = elim (find_target j.entity_id r.assets) [
  | none ↦ none
  | some a ↦ elim (find_template j.template_id t.templates) [
    | none ↦ none
    | some m ↦ some record {
      id = a.id;
      asset_tag = a.asset_tag;
      description = a.description;
      item_mpn = a.manufacturer_part_number;
      human_fields = m.human_fields;
      symbology = m.symbology;
    }
  ]
]

-- ck_print_jobs_adapter
abbrev pub adapter_admitted : AdapterName → OutputFormat → Bool
adapter_admitted file png = true
adapter_admitted file pdf = true
adapter_admitted AdapterName.zpl OutputFormat.zpl = true
adapter_admitted _ _ = false

-- What a new job has not yet.
abbrev pub is_new : Job → Bool
is_new j =
    is_pending j.status
    && j.attempts == 0
    && is_none j.artifact_sha256
    && is_none j.error_code
    && is_none j.updated_at
    && is_none j.updated_by_actor_id

-- ck_print_jobs_delivery
unfoldable pub delivery_admitted : Job → Bool
delivery_admitted j =
    is_new j
    || (not (is_pending j.status)
        && ltb 0 j.attempts
        && is_some j.updated_by_actor_id
        && is_some j.updated_at
        && ((is_succeeded j.status
              && elim j.artifact_sha256 [ none ↦ false | some h ↦ is_sha256 h ]
              && is_none j.error_code)
            || (not (is_succeeded j.status) && is_none j.artifact_sha256 && is_some j.error_code)))

-- INSERT INTO print_jobs: guard_print_job and the table.
unfoldable pub insert_job : Session → Reference → ℕ → Job → Tables → Result (Job × Tables)
unfolding captured
insert_job s r now j t = do
  c ← elim (captured r t j) [ none ↦ err (sql check_violation) | some c ↦ ok c ]
  guard (is_new j) (sql check_violation)
  who ← performer s
  guard (adapter_admitted j.adapter_name j.output_format) (sql check_violation)
  guard (c.id == j.entity_id) (sql check_violation)
  guard (not (any (λ k. k.id == j.id) t.jobs)) (sql unique_violation)
  let row = record j { render_snapshot = c; requested_by = who; requested_at = now } in
      ok (row, record t { jobs = row ∷ t.jobs })

abbrev pub replace_job : Job → List Job → List Job
replace_job u = map (λ k. if k.id == u.id then u else k)

-- The columns of a job that the application role may update.
pub record Delivery : Type 0 where
  pub status : PrintStatus
  pub artifact_sha256 : Option Text
  pub error_code : Option ErrorCode

-- The row that guard_print_job makes of an UPDATE.
abbrev pub delivered_job : ℕ → ℕ → ℕ → Delivery → Job → Job
delivered_job who now attempts d old = record old {
  status = d.status;
  artifact_sha256 = d.artifact_sha256;
  error_code = d.error_code;
  attempts = attempts;
  updated_by_actor_id = some who;
  updated_at = some now;
}

-- UPDATE print_jobs: guard_print_job and the table.
unfoldable pub update_job : Session → ℕ → Job → Delivery → Tables → Result (Job × Tables)
unfolding delivery_admitted
update_job s now old d t = do
  guard (not (is_succeeded old.status) && not (is_pending d.status)) (sql check_violation)
  who ← performer s
  attempts ← add_version old.attempts 1
  guard (delivery_admitted (delivered_job who now attempts d old)) (sql check_violation)
  ok (
    delivered_job who now attempts d old,
    record t { jobs = replace_job (delivered_job who now attempts d old) t.jobs },
  )
