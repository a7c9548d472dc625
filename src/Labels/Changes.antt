-- ===== src/Labels/Changes.antt =====
-- The elementary changes of the queue and of the directory of artifacts, of which every operation is made.
use mathlib.Core.Path.{subst}
use defiant_fleet_ops.Base.{
  ℕ, suc, ◌≡◌, inl, inr, refl, sym, arith, true, false, Option, some, List, [], ◌∷◌, ◌==◌, any,
  Result-cases, ok,
}
use defiant_fleet_ops.Text.{Text}
use defiant_fleet_ops.Ledger.{Session, performer, add_version}
use defiant_fleet_ops.Labels.{
  OutputFormat, Snapshot, Job, Reference, Tables, Delivery, find_job, is_new, is_succeeded,
  adapter_admitted, delivery_admitted, delivered_job, replace_job, update_job, insert_template,
}
use defiant_fleet_ops.Labels.Store.{Fault, Artifact, artifact_at, published}
use defiant_fleet_ops.Labels.Service.{
  TemplateValues, model_validate, create_template, enqueue, enqueue_all, path_of,
}
use defiant_fleet_ops.Labels.Steps.{World}
use defiant_fleet_ops.Labels.Added.{enqueue-IsAdded}

module _ {Label : Type 0} (render : Snapshot → Option Label)
    (encode : OutputFormat → Label → List ℕ) (sha256 : List ℕ → Text) where
  -- The artifact that a successful delivery of a job names.
  abbrev pub IsStored : List Artifact → Job → Option Text → Type 0
  IsStored files j digest =
      (c : List ℕ) × (artifact_at files (path_of j) ≡ some c) × (digest ≡ some (sha256 c))

  pub data Change (w w' : World) : Type 0 where
    kept : w.tables.jobs ≡ w'.tables.jobs → w.files ≡ w'.files → Change w w'
    job_added :
        (j : Job)
        → any (λ k. k.id == j.id) w.tables.jobs ≡ false
        → is_new j ≡ true
        → adapter_admitted j.adapter_name j.output_format ≡ true
        → j.render_snapshot.id ≡ j.entity_id
        → w'.tables.jobs ≡ j ∷ w.tables.jobs
        → w.files ≡ w'.files
        → Change w w'
    artifact_written :
        (j : Job) (label : Label) (fault : Fault)
        → find_job j.id w.tables.jobs ≡ some j
        → render j.render_snapshot ≡ some label
        → w.tables.jobs ≡ w'.tables.jobs
        → w'.files ≡ published w.files fault (path_of j) (encode j.output_format label)
        → Change w w'
    job_delivered :
        (j : Job) (d : Delivery) (who now : ℕ)
        → find_job j.id w.tables.jobs ≡ some j
        → is_succeeded j.status ≡ false
        → delivery_admitted (delivered_job who now (suc j.attempts) d j) ≡ true
        → (is_succeeded d.status ≡ true → IsStored w.files j d.artifact_sha256)
        → w'.tables.jobs ≡ replace_job (delivered_job who now (suc j.attempts) d j) w.tables.jobs
        → w.files ≡ w'.files
        → Change w w'

  pub data Changes (w : World) : World → Type 0 where
    none_yet : Changes w w
    then_one : (w1 w2 : World) → Changes w w1 → Change w1 w2 → Changes w w2

  pub enqueue-Change :
      (s : Session) (r : Reference) (now : ℕ) (w : World) (id asset_id template_id : ℕ)
      (f : OutputFormat) (j : Job) (t' : Tables)
      → enqueue s r now w.tables id asset_id template_id f ≡ ok (j, t')
      → Change w (record w { tables = t' })
  enqueue-Change s r now w id asset_id template_id f j t' h =
      let a = enqueue-IsAdded s r now w.tables id asset_id template_id f j t' h in
      let fresh =
        subst (λ (i : ℕ). any (λ (k : Job). k.id == i) w.tables.jobs ≡ false) (sym a.named)
          a.fresh in
      job_added j fresh a.pending a.adapter a.identity a.queued refl

  pub enqueue_all-Changes :
      (s : Session) (r : Reference) (now : ℕ) (w0 w : World) (id : ℕ) (targets : List ℕ)
      (template_id : ℕ) (f : OutputFormat) (jobs : List Job) (t' : Tables)
      → Changes w0 w
      → enqueue_all s r now w.tables id targets template_id f ≡ ok (jobs, t')
      → Changes w0 (record w { tables = t' })
  unfolding enqueue_all
  enqueue_all-Changes s r now w0 w id [] template_id f jobs t' before h =
      let same : w.tables ≡ t' = ground (arith, h) in
      subst (λ (t : Tables). Changes w0 (record w { tables = t })) same before
  enqueue_all-Changes s r now w0 w id (a ∷ targets) template_id f jobs t' before h =
      elim (Result-cases (enqueue s r now w.tables id a template_id f)) [
        | inr (e, refused) ↦ ground (arith, refused)
        | inl ((j, t1), first) ↦
            elim (Result-cases (enqueue_all s r now t1 (suc id) targets template_id f)) [
              | inr (e, refused) ↦ ground (arith, first, refused)
              | inl ((rest, t2), later) ↦
                  let same : t2 ≡ t' = ground (arith, first, later) in
                  let w1 : World = record w { tables = t1 } in
                  let one =
                    then_one w w1 before (enqueue-Change s r now w id a template_id f j t1 first) in
                  subst (λ (t : Tables). Changes w0 (record w { tables = t })) same
                    (enqueue_all-Changes s r now w0 w1 (suc id) targets template_id f rest t2 one
                      later)
            ]
      ]

  pub template-kept :
      (s : Session) (now id : ℕ) (v : TemplateValues) (t t' : Tables)
      → create_template s now t id v ≡ ok t'
      → t.jobs ≡ t'.jobs
  unfolding create_template insert_template
  template-kept s now id v t t' h = elim (Result-cases (model_validate v)) [
    | inr (e, refused) ↦ ground (arith, refused)
    | inl (body, valid) ↦ elim (Result-cases (performer s)) [
      | inr (e, refused) ↦ ground (arith, valid, refused)
      | inl (who, act) ↦ ground (arith, valid, act)
    ]
  ]

  pub update_job-Change :
      (s : Session) (now : ℕ) (w : World) (j u : Job) (d : Delivery) (t' : Tables)
      → find_job j.id w.tables.jobs ≡ some j
      → (is_succeeded d.status ≡ true → IsStored w.files j d.artifact_sha256)
      → update_job s now j d w.tables ≡ ok (u, t')
      → Change w (record w { tables = t' })
  unfolding update_job add_version
  update_job-Change s now w j u d t' found stored h = elim (Result-cases (performer s)) [
    | inr (e, refused) ↦ ground (arith, refused)
    | inl (who, act) ↦
        job_delivered j d who now found (ground (arith, act)) (ground (arith, act)) stored
          (ground (arith, act)) refl
  ]
