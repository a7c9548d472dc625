-- ===== src/Labels/Steps.antt =====
-- The accepted operations on the print queue of an organization and its directory of artifacts, with the
-- dispatches that failed, in whatever order.
use defiant_fleet_ops.Base.{ℕ, Bool, Option, List, Failure, ok, err, ◌≡◌}
use defiant_fleet_ops.Text.{Text}
use defiant_fleet_ops.Ledger.{Session}
use defiant_fleet_ops.Labels.{OutputFormat, Snapshot, Job, Reference, Tables}
use defiant_fleet_ops.Labels.Store.{Fault, Artifact}
use defiant_fleet_ops.Labels.Service.{
  TemplateValues, create_template, enqueue, enqueue_receipt, dispatch,
}

pub record World : Type 0 where
  pub tables : Tables
  pub files : List Artifact

module _ {Label : Type 0} (render : Snapshot → Option Label)
    (encode : OutputFormat → Label → List ℕ) (sha256 : List ℕ → Text) where
  pub data Step (w : World) : World → Type 0 where
    template_created :
        (s : Session) (now id : ℕ) (v : TemplateValues) (t' : Tables)
        → create_template s now w.tables id v ≡ ok t'
        → Step w (record w { tables = t' })
    enqueued :
        (s : Session) (r : Reference) (now id asset_id template_id : ℕ) (f : OutputFormat) (j : Job)
        (t' : Tables)
        → enqueue s r now w.tables id asset_id template_id f ≡ ok (j, t')
        → Step w (record w { tables = t' })
    batch_enqueued :
        (s : Session) (r : Reference) (now id receipt_id template_id : ℕ) (f : OutputFormat)
        (jobs : List Job) (t' : Tables)
        → enqueue_receipt s r now w.tables id receipt_id template_id f ≡ ok (jobs, t')
        → Step w (record w { tables = t' })
    dispatched :
        (s : Session) (now : ℕ) (configured : Bool) (fault : Fault) (job_id : ℕ) (j : Job)
        (t' : Tables) (files' : List Artifact)
        → dispatch render encode sha256 s now configured w.tables w.files fault job_id
          ≡ (ok (j, t'), files')
        → Step w (record { tables = t'; files = files' })
    undelivered :
        (s : Session) (now : ℕ) (configured : Bool) (fault : Fault) (job_id : ℕ) (e : Failure)
        (files' : List Artifact)
        → dispatch render encode sha256 s now configured w.tables w.files fault job_id
          ≡ (err e, files')
        → Step w (record w { files = files' })

  pub data Steps (w : World) : World → Type 0 where
    unchanged : Steps w w
    stepped : (w1 w2 : World) → Steps w w1 → Step w1 w2 → Steps w w2
