-- ===== src/Labels/Attempts.antt =====
-- What a dispatch does, and each operation on the print queue as a sequence of elementary changes.
use mathlib.Core.Path.{subst}
use defiant_fleet_ops.Base.{
  ℕ, ◌≡◌, inl, inr, refl, sym, ap, ◌∙◌, arith, Bool, true, false, Option, some, List, found_own,
  Bool-cases, Option-cases, Result, ok, err, ◌>>=◌, >>=-eq-ok,
}
use defiant_fleet_ops.Text.{Text}
use defiant_fleet_ops.Ledger.{Session}
use defiant_fleet_ops.Labels.{
  OutputFormat, Snapshot, Job, Tables, Delivery, find_job, find_template, is_succeeded, update_job,
}
use defiant_fleet_ops.Labels.Store.{Fault, Artifact, published, publish}
use defiant_fleet_ops.Labels.Service.{
  take, received_assets, enqueue_receipt, dispatch, attempt, read_artifact, path_of, takes,
  delivery_of,
}
use defiant_fleet_ops.Labels.Steps.{
  World, Step, template_created, enqueued, batch_enqueued, dispatched, undelivered,
}
use defiant_fleet_ops.Labels.Publication.{publish-published}
use defiant_fleet_ops.Labels.Changes.{
  IsStored, Change, kept, artifact_written, Changes, none_yet, then_one, enqueue-Change,
  enqueue_all-Changes, template-kept, update_job-Change,
}

module _ {Label : Type 0} (render : Snapshot → Option Label)
    (encode : OutputFormat → Label → List ℕ) (sha256 : List ℕ → Text) where
  pub attempt_made :
      (files : List Artifact) (fault : Fault) (j : Job) (label : Label)
      → render j.render_snapshot ≡ some label
      → takes j.adapter_name j.output_format ≡ true
      → attempt render encode sha256 true files fault j ≡ (
        delivery_of (publish sha256 files fault (path_of j) (encode j.output_format label)),
        published files fault (path_of j) (encode j.output_format label),
      )
  unfolding attempt
  attempt_made files fault j label made fits = rw (made, attempt) (rw fits refl)

  -- What an attempt leaves in the directory.
  attempt-Change :
      (configured : Bool) (fault : Fault) (w : World) (j : Job)
      → find_job j.id w.tables.jobs ≡ some j
      → Change render encode sha256 w
          (record w { files = (attempt render encode sha256 configured w.files fault j).1 })
  unfolding attempt
  attempt-Change false fault w j found = kept refl refl
  attempt-Change true fault w j found = elim (Option-cases (render j.render_snapshot)) [
    | inl failed ↦ kept refl (ground (arith, failed))
    | inr (label, made) ↦ elim (Bool-cases (takes j.adapter_name j.output_format)) [
      | inl fits ↦
          artifact_written j label fault found made refl
            (ap (λ m. m.1) (attempt_made w.files fault j label made fits))
      | inr wrong ↦ kept refl (ground (arith, made, wrong))
    ]
  ]

  delivery-digest :
      (m : Result Text) (d : Delivery)
      → delivery_of m ≡ ok d
      → is_succeeded d.status ≡ true
      → (digest : Text) × (m ≡ ok digest) × (d.artifact_sha256 ≡ some digest)
  delivery-digest (ok digest) d h done = (digest, refl, ground (arith, h))
  delivery-digest (err e) d h done = ground (arith, h, done)

  attempt-IsStored :
      (configured : Bool) (files : List Artifact) (fault : Fault) (j : Job) (d : Delivery)
      → (attempt render encode sha256 configured files fault j).0 ≡ ok d
      → is_succeeded d.status ≡ true
      → IsStored render encode sha256
          (attempt render encode sha256 configured files fault j).1
          j
          d.artifact_sha256
  unfolding attempt
  attempt-IsStored false files fault j d h done = ground (arith, h, done)
  attempt-IsStored true files fault j d h done = elim (Option-cases (render j.render_snapshot)) [
    | inl failed ↦ ground (arith, failed, h, done)
    | inr (label, made) ↦ elim (Bool-cases (takes j.adapter_name j.output_format)) [
      | inr wrong ↦ ground (arith, made, wrong, h)
      | inl fits ↦
          let content = encode j.output_format label in
          let result = attempt_made files fault j label made fits in
          let (digest, put, named) =
            delivery-digest (publish sha256 files fault (path_of j) content) d (rw result at h)
              done in
          let (there, same) = publish-published sha256 files fault (path_of j) content digest put in
          rw result (content, there, named ∙ ap some same)
    ]
  ]

  -- What a dispatch leaves: a failed one rolls the queue back.
  abbrev after : World → Result (Job × Tables) → List Artifact → World
  after w (err e) files' = record w { files = files' }
  after w (ok (u, t')) files' = record { tables = t'; files = files' }

  after_kept :
      {A : Type 0} (w : World) (j : Job) (m : Result A)
      → Changes render encode sha256 w
          (after w (◌>>=◌ {B = Job × Tables} m (λ done. ok (j, w.tables))) w.files)
  after_kept w j (err e) = none_yet
  after_kept w j (ok a) = none_yet

  after-attempt :
      (s : Session) (now : ℕ) (configured : Bool) (fault : Fault) (w : World) (j : Job)
      (m : Result (Job × Tables))
      → find_job j.id w.tables.jobs ≡ some j
      → ((attempt render encode sha256 configured w.files fault j).0 >>= λ d.
          update_job s now j d w.tables)
        ≡ m
      → Changes render encode sha256 w
          (after w m (attempt render encode sha256 configured w.files fault j).1)
  after-attempt s now configured fault w j (err e) found h =
      then_one w _ none_yet (attempt-Change configured fault w j found)
  after-attempt s now configured fault w j (ok (u, t')) found h =
      let tried = attempt render encode sha256 configured w.files fault j in
      let w1 : World = record w { files = tried.1 } in
      let (d, made, updated) = >>=-eq-ok tried.0 (λ d. update_job s now j d w.tables) h in
      let stored = attempt-IsStored configured w.files fault j d made in
      then_one w1 _ (then_one w w1 none_yet (attempt-Change configured fault w j found))
        (update_job-Change render encode sha256 s now w1 j u d t' found stored updated)

  dispatch_done :
      (s : Session) (now : ℕ) (configured : Bool) (fault : Fault) (w : World) (job_id : ℕ) (j : Job)
      → find_job job_id w.tables.jobs ≡ some j
      → is_succeeded j.status ≡ true
      → dispatch render encode sha256 s now configured w.tables w.files fault job_id ≡ (
        (read_artifact render encode sha256 configured w.tables w.files fault job_id >>= λ done.
            ok (j, w.tables)),
        w.files,
      )
  unfolding dispatch
  dispatch_done s now configured fault w job_id j found done = rw (found, dispatch) (rw done refl)

  pub dispatch_open :
      (s : Session) (now : ℕ) (configured : Bool) (fault : Fault) (w : World) (job_id : ℕ) (j : Job)
      → find_job job_id w.tables.jobs ≡ some j
      → is_succeeded j.status ≡ false
      → dispatch render encode sha256 s now configured w.tables w.files fault job_id ≡ (
        ((attempt render encode sha256 configured w.files fault j).0 >>= λ d.
            update_job s now j d w.tables),
        (attempt render encode sha256 configured w.files fault j).1,
      )
  unfolding dispatch
  dispatch_open s now configured fault w job_id j found open_job =
      rw (found, dispatch) (rw open_job refl)

  dispatch-Changes :
      (s : Session) (now : ℕ) (configured : Bool) (fault : Fault) (w : World) (job_id : ℕ)
      (m : Result (Job × Tables)) (files' : List Artifact)
      → dispatch render encode sha256 s now configured w.tables w.files fault job_id ≡ (m, files')
      → Changes render encode sha256 w (after w m files')
  unfolding dispatch
  dispatch-Changes s now configured fault w job_id m files' h =
      let reach : Result (Job × Tables) × List Artifact → Type 0 =
        λ d. Changes render encode sha256 w (after w d.0 d.1) in
      elim (Option-cases (find_job job_id w.tables.jobs)) [
        | inl missing ↦ subst reach (rw (missing, dispatch) at h) none_yet
        | inr (j, found) ↦ elim (Bool-cases (is_succeeded j.status)) [
          | inl done ↦
              subst reach (sym (dispatch_done s now configured fault w job_id j found done) ∙ h) (
                after_kept w j
                  (read_artifact render encode sha256 configured w.tables w.files fault job_id))
          | inr open_job ↦
              let own = found_own (λ (k : Job). k.id) job_id w.tables.jobs j found in
              subst reach (sym (dispatch_open s now configured fault w job_id j found open_job) ∙ h)
                (after-attempt s now configured fault w j _ own refl)
        ]
      ]

  pub Step-Changes :
      (w w' : World) → Step render encode sha256 w w' → Changes render encode sha256 w w'
  unfolding enqueue_receipt
  Step-Changes w w' (template_created s now id v t' h) =
      then_one w w' none_yet
        (kept (template-kept render encode sha256 s now id v w.tables t' h) refl)
  Step-Changes w w' (enqueued s r now id asset_id template_id f j t' h) =
      then_one w w' none_yet
        (enqueue-Change render encode sha256 s r now w id asset_id template_id f j t' h)
  Step-Changes w w' (batch_enqueued s r now id receipt_id template_id f jobs t' h) =
      elim (Option-cases (find_template template_id w.tables.templates)) [
        | inl missing ↦ ground (arith, missing)
        | inr (m, found) ↦
            let targets = take 501 (received_assets receipt_id r.receipt_lines) in
            enqueue_all-Changes render encode sha256 s r now w w id targets template_id f jobs t'
              none_yet (ground (arith, found))
      ]
  Step-Changes w w' (dispatched s now configured fault job_id j t' files' h) =
      dispatch-Changes s now configured fault w job_id (ok (j, t')) files' h
  Step-Changes w w' (undelivered s now configured fault job_id e files' h) =
      dispatch-Changes s now configured fault w job_id (err e) files' h
