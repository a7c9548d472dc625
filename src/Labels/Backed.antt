-- ===== src/Labels/Backed.antt =====
-- What holds of the queue and of the directory of artifacts at any time.
use mathlib.Core.Path.{subst}
use defiant_fleet_ops.Base.{
  ℕ, suc, ◌≤◌, ◌≡◌, ◌⊎◌, inl, inr, sym, ap, ◌∙◌, arith, true, false, Option, some, List, ◌∷◌, ◌==◌,
  ==_eq, false≢true, some_same, length, Bool-cases, find-replaced, find-replaced_other,
}
use defiant_fleet_ops.Text.{Text}
use defiant_fleet_ops.Labels.{
  OutputFormat, Snapshot, Job, find_job, is_new, is_succeeded, adapter_admitted, delivery_admitted,
  delivered_job, replace_job,
}
use defiant_fleet_ops.Labels.Store.{Location, artifact_at, artifact_max}
use defiant_fleet_ops.Labels.Service.{path_of}
use defiant_fleet_ops.Labels.Steps.{World, Steps, unchanged, stepped}
use defiant_fleet_ops.Labels.Publication.{published-origin}
use defiant_fleet_ops.Labels.Later.{Change-job, Change-artifact}
use defiant_fleet_ops.Labels.Changes.{
  IsStored, Change, Changes, kept, job_added, artifact_written, job_delivered, none_yet, then_one,
}
use defiant_fleet_ops.Labels.Attempts.{Step-Changes}

abbrev pub IsAdmitted : Job → Type 0
IsAdmitted j =
    (delivery_admitted j ≡ true)
    × (adapter_admitted j.adapter_name j.output_format ≡ true)
    × (j.render_snapshot.id ≡ j.entity_id)

new_admitted : (j : Job) → is_new j ≡ true → delivery_admitted j ≡ true
unfolding delivery_admitted
new_admitted j new = ground (arith, new)

new_open : (j : Job) → is_new j ≡ true → is_succeeded j.status ≡ false
new_open j new = ground (arith, new)

module _ {Label : Type 0} (render : Snapshot → Option Label)
    (encode : OutputFormat → Label → List ℕ) (sha256 : List ℕ → Text) where
  -- The job whose label an artifact is.
  abbrev pub IsOwn : World → Location → List ℕ → Type 0
  IsOwn w p c =
      (j : Job) × (label : Label) × (find_job p.job_id w.tables.jobs ≡ some j)
      × (path_of j ≡ p)
      × (render j.render_snapshot ≡ some label)
      × (encode j.output_format label ≡ c)
      × (length c ≤ artifact_max)

  -- Each artifact is the label of its job; each job has an admissible delivery, a format of its
  -- adapter and the snapshot of its own Asset; and each job that succeeded has its artifact, whose
  -- digest it records.
  pub record IsBacked (w : World) : Type 0 where
    pub own : (p : Location) (c : List ℕ) → artifact_at w.files p ≡ some c → IsOwn w p c
    pub admitted : (i : ℕ) (j : Job) → find_job i w.tables.jobs ≡ some j → IsAdmitted j
    pub stored :
        (i : ℕ) (j : Job)
        → find_job i w.tables.jobs ≡ some j
        → is_succeeded j.status ≡ true
        → IsStored render encode sha256 w.files j j.artifact_sha256

  -- A row after a change is one that was there, or it is admissible and has what it records.
  Change-origin :
      (w w' : World) (i : ℕ) (k : Job)
      → IsBacked w
      → Change render encode sha256 w w'
      → find_job i w'.tables.jobs ≡ some k
      → (find_job i w.tables.jobs ≡ some k)
        ⊎ (IsAdmitted k
            × (is_succeeded k.status ≡ true
                → IsStored render encode sha256 w'.files k k.artifact_sha256))
  Change-origin w w' i k b (kept jobs files) found = inl (rw jobs found)
  Change-origin w w' i k b (job_added j fresh new adapter identity jobs files) found =
      let found_there : find_job i (j ∷ w.tables.jobs) ≡ some k = rw jobs at found in
      elim (Bool-cases (j.id == i)) [
        | inr other ↦ inl (rw other at found_there)
        | inl here ↦
            let same : j ≡ k = some_same j k (rw here at found_there) in
            inr (
              subst
                (λ (x : Job).
                  IsAdmitted x
                  × (is_succeeded x.status ≡ true
                      → IsStored render encode sha256 w'.files x x.artifact_sha256))
                same
                (
                  (new_admitted j new, adapter, identity),
                  λ done. absurd (false≢true (sym (new_open j new) ∙ done)),
                ))
      ]
  Change-origin w w' i k b (artifact_written j label fault own made jobs files) found =
      inl (rw jobs found)
  Change-origin w w' i k b (job_delivered j d who now own open_job admitted stored jobs files)
        found =
      let u : Job = delivered_job who now (suc j.attempts) d j in
      let found_there : find_job i (replace_job u w.tables.jobs) ≡ some k = rw jobs at found in
      elim (Bool-cases (j.id == i)) [
        | inr other ↦
            inl
              (sym (find-replaced_other (λ (q : Job). q.id) u i w.tables.jobs other) ∙ found_there)
        | inl here ↦
            let same_id : i ≡ j.id = sym (==_eq j.id i here) in
            let at_id : find_job j.id (replace_job u w.tables.jobs) ≡ some k =
              subst (λ (x : ℕ). find_job x (replace_job u w.tables.jobs) ≡ some k) same_id
                found_there in
            let same : u ≡ k =
              some_same u k
                (sym (find-replaced (λ (q : Job). q.id) u w.tables.jobs j own) ∙ at_id) in
            let (_, adapter, identity) = b.admitted j.id j own in
            inr (
              subst
                (λ (x : Job).
                  IsAdmitted x
                  × (is_succeeded x.status ≡ true
                      → IsStored render encode sha256 w'.files x x.artifact_sha256))
                same
                (
                  (admitted, adapter, identity),
                  λ done.
                      subst (λ f. IsStored render encode sha256 f u d.artifact_sha256) files
                        (stored done),
                ))
      ]

  Change-IsOwn :
      (w w' : World) (p : Location) (c : List ℕ)
      → Change render encode sha256 w w'
      → IsOwn w p c
      → IsOwn w' p c
  Change-IsOwn w w' p c change (j, label, found, path, made, same, bounded) =
      let (k, found', later) = Change-job render encode sha256 w w' p.job_id j change found in
      let r = later.same_request in
      (
        k,
        label,
        found',
        ap path_of r ∙ path,
        ap (λ (x : Job). render x.render_snapshot) r ∙ made,
        ap (λ (x : Job). encode x.output_format label) r ∙ same,
        bounded,
      )

  -- An artifact after a change is the label of a job that was queued before it.
  Change-IsOwn_before :
      (w w' : World) (p : Location) (c : List ℕ)
      → IsBacked w
      → Change render encode sha256 w w'
      → artifact_at w'.files p ≡ some c
      → IsOwn w p c
  Change-IsOwn_before w w' p c b (kept jobs files) there = b.own p c (rw files there)
  Change-IsOwn_before w w' p c b (job_added j fresh new adapter identity jobs files) there =
      b.own p c (rw files there)
  Change-IsOwn_before w w' p c b (job_delivered j d who now own open_job admitted stored jobs files)
        there =
      b.own p c (rw files there)
  Change-IsOwn_before w w' p c b (artifact_written j label fault own made jobs files) there =
      elim (published-origin w.files fault (path_of j) p (encode j.output_format label) c
        (rw files at there)) [
          | inl before ↦ b.own p c before
          | inr (path, same, bounded) ↦ (
            j,
            label,
            subst (λ (x : Location). find_job x.job_id w.tables.jobs ≡ some j) path own,
            path,
            made,
            same,
            bounded,
          )
        ]

  Change-IsBacked : (w w' : World) → IsBacked w → Change render encode sha256 w w' → IsBacked w'
  Change-IsBacked w w' b change = record {
    own = λ p c there. Change-IsOwn w w' p c change (Change-IsOwn_before w w' p c b change there);
    admitted = λ i j found. elim (Change-origin w w' i j b change found) [
      | inl before ↦ b.admitted i j before
      | inr (admitted, _) ↦ admitted
    ];
    stored = λ i j found done. elim (Change-origin w w' i j b change found) [
      | inr (_, stored) ↦ stored done
      | inl before ↦
          let (c, there, named) = b.stored i j before done in
          (c, Change-artifact render encode sha256 w w' (path_of j) c change there, named)
    ];
  }

  Changes-IsBacked : (w w' : World) → IsBacked w → Changes render encode sha256 w w' → IsBacked w'
  Changes-IsBacked w w' b none_yet = b
  Changes-IsBacked w w' b (then_one w1 _ before one) =
      Change-IsBacked w1 w' (Changes-IsBacked w w1 b before) one

  -- Every operation on the print queue, a failed dispatch included, keeps the queue and the directory
  -- in agreement: each artifact is the label of the job that its path names, each job's delivery
  -- columns and format are admissible and its snapshot is of its own Asset, and each succeeded job has
  -- an artifact whose digest it records.
  pub Steps-IsBacked : (w w' : World) → IsBacked w → Steps render encode sha256 w w' → IsBacked w'
  Steps-IsBacked w w' b unchanged = b
  Steps-IsBacked w w' b (stepped w1 _ before step) =
      Changes-IsBacked w1 w' (Steps-IsBacked w w1 b before)
        (Step-Changes render encode sha256 w1 w' step)
