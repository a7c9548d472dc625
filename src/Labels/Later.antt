-- ===== src/Labels/Later.antt =====
-- What becomes of a print request and of an artifact as the operations go on.
use mathlib.Core.Path.{subst}
use defiant_fleet_ops.Base.{
  ℕ, suc, ◌≤◌, ◌≡◌, inl, inr, refl, sym, ap, ◌∙◌, arith, true, false, Option, some, List, ◌∷◌, ◌==◌,
  ==_eq, any, some_same, Bool-cases, find-replaced, find-replaced_other, found_named,
}
use defiant_fleet_ops.Text.{Text}
use defiant_fleet_ops.Labels.{
  OutputFormat, Snapshot, Job, Delivery, find_job, is_succeeded, delivered_job, replace_job,
}
use defiant_fleet_ops.Labels.Store.{Location, artifact_at}
use defiant_fleet_ops.Labels.Service.{path_of}
use defiant_fleet_ops.Labels.Steps.{World, Steps, unchanged, stepped}
use defiant_fleet_ops.Labels.Publication.{published-kept}
use defiant_fleet_ops.Labels.Changes.{
  Change, Changes, kept, job_added, artifact_written, job_delivered, none_yet, then_one,
}
use defiant_fleet_ops.Labels.Attempts.{Step-Changes}

-- A later row of the same print request: its attempts have only grown, and a success is final.
pub record IsLater (j j' : Job) : Type 0 where
  pub same_request :
      record j' {
        status = j.status;
        attempts = j.attempts;
        artifact_sha256 = j.artifact_sha256;
        error_code = j.error_code;
        updated_by_actor_id = j.updated_by_actor_id;
        updated_at = j.updated_at;
      }
      ≡ j
  pub attempts_grow : j.attempts ≤ j'.attempts
  pub success_final : is_succeeded j.status ≡ true → j' ≡ j

IsLater-refl : (j : Job) → IsLater j j
IsLater-refl j = record {
  same_request = refl;
  attempts_grow = omega arith;
  success_final = λ done. refl;
}

IsLater-trans : (j j1 j2 : Job) → IsLater j j1 → IsLater j1 j2 → IsLater j j2
IsLater-trans j j1 j2 a b = record {
  same_request =
      ap
        (λ (k : Job). record k {
          status = j.status;
          attempts = j.attempts;
          artifact_sha256 = j.artifact_sha256;
          error_code = j.error_code;
          updated_by_actor_id = j.updated_by_actor_id;
          updated_at = j.updated_at;
        })
        b.same_request
      ∙ a.same_request;
  attempts_grow = omega (arith, a.attempts_grow, b.attempts_grow);
  success_final = λ done.
      let same = a.success_final done in
      b.success_final (subst (λ (k : Job). is_succeeded k.status ≡ true) (sym same) done) ∙ same;
}

-- How the row of a job changes in one change.
find-replace_job :
    (i : ℕ) (j : Job) (jobs : List Job) (d : Delivery) (who now : ℕ) (k : Job)
    → find_job j.id jobs ≡ some j
    → is_succeeded j.status ≡ false
    → find_job i jobs ≡ some k
    → (k' : Job) × (find_job i (replace_job (delivered_job who now (suc j.attempts) d j) jobs)
        ≡ some k')
      × IsLater k k'
find-replace_job i j jobs d who now k own open_job found =
    let u : Job = delivered_job who now (suc j.attempts) d j in
    elim (Bool-cases (j.id == i)) [
      | inr other ↦
          (k, find-replaced_other (λ (q : Job). q.id) u i jobs other ∙ found, IsLater-refl k)
      | inl here ↦
          let same_id : j.id ≡ i = ==_eq j.id i here in
          let same : j ≡ k =
            some_same j k
              (sym own ∙ subst (λ (x : ℕ). find_job x jobs ≡ some k) (sym same_id) found) in
          let later : IsLater j u = record {
            same_request = refl;
            attempts_grow = omega arith;
            success_final = λ done. cc (open_job, done);
          } in
          (
            u,
            subst (λ (x : ℕ). find_job x (replace_job u jobs) ≡ some u) same_id
                (find-replaced (λ (q : Job). q.id) u jobs j own),
            subst (λ (x : Job). IsLater x u) same later,
          )
    ]

fresh_other :
    (i : ℕ) (j k : Job) (jobs : List Job)
    → any (λ q. q.id == j.id) jobs ≡ false
    → find_job i jobs ≡ some k
    → find_job i (j ∷ jobs) ≡ some k
fresh_other i j k jobs fresh found = elim (Bool-cases (j.id == i)) [
  | inr other ↦ rw other found
  | inl here ↦
      let same_id : j.id ≡ i = ==_eq j.id i here in
      let absent : any (λ q. q.id == i) jobs ≡ false =
        subst (λ (x : ℕ). any (λ (q : Job). q.id == x) jobs ≡ false) same_id fresh in
      let there = found_named (λ (q : Job). q.id) i jobs k found in ground (arith, absent, there)
]

module _ {Label : Type 0} (render : Snapshot → Option Label)
    (encode : OutputFormat → Label → List ℕ) (sha256 : List ℕ → Text) where
  pub Change-job :
      (w w' : World) (i : ℕ) (k : Job)
      → Change render encode sha256 w w'
      → find_job i w.tables.jobs ≡ some k
      → (k' : Job) × (find_job i w'.tables.jobs ≡ some k') × IsLater k k'
  Change-job w w' i k (kept jobs files) found = (k, rw jobs at found, IsLater-refl k)
  Change-job w w' i k (job_added j fresh new adapter identity jobs files) found =
      (k, rw jobs (fresh_other i j k w.tables.jobs fresh found), IsLater-refl k)
  Change-job w w' i k (artifact_written j label fault own made jobs files) found =
      (k, rw jobs at found, IsLater-refl k)
  Change-job w w' i k (job_delivered j d who now own open_job admitted stored jobs files) found =
      rw jobs (find-replace_job i j w.tables.jobs d who now k own open_job found)

  pub Change-artifact :
      (w w' : World) (p : Location) (c : List ℕ)
      → Change render encode sha256 w w'
      → artifact_at w.files p ≡ some c
      → artifact_at w'.files p ≡ some c
  Change-artifact w w' p c (kept jobs files) h = rw files at h
  Change-artifact w w' p c (job_added j fresh new adapter identity jobs files) h = rw files at h
  Change-artifact w w' p c (artifact_written j label fault own made jobs files) h =
      rw files (published-kept w.files fault (path_of j) p (encode j.output_format label) c h)
  Change-artifact w w' p c (job_delivered j d who now own open_job admitted stored jobs files) h =
      rw files at h

  Changes-job :
      (w w' : World) (i : ℕ) (k : Job)
      → Changes render encode sha256 w w'
      → find_job i w.tables.jobs ≡ some k
      → (k' : Job) × (find_job i w'.tables.jobs ≡ some k') × IsLater k k'
  Changes-job w w' i k none_yet found = (k, found, IsLater-refl k)
  Changes-job w w' i k (then_one w1 _ before one) found =
      let (k1, found1, later1) = Changes-job w w1 i k before found in
      let (k2, found2, later2) = Change-job w1 w' i k1 one found1 in
      (k2, found2, IsLater-trans k k1 k2 later1 later2)

  -- Whatever accepted or failed operations follow, in whatever order, a queued job stays in the queue:
  -- no column of its request changes, its attempts never decrease, and once it has succeeded, its row
  -- does not change at all.
  pub Steps-job :
      (w w' : World) (i : ℕ) (k : Job)
      → Steps render encode sha256 w w'
      → find_job i w.tables.jobs ≡ some k
      → (k' : Job) × (find_job i w'.tables.jobs ≡ some k') × IsLater k k'
  Steps-job w w' i k unchanged found = (k, found, IsLater-refl k)
  Steps-job w w' i k (stepped w1 _ before step) found =
      let (k1, found1, later1) = Steps-job w w1 i k before found in
      let (k2, found2, later2) =
        Changes-job w1 w' i k1 (Step-Changes render encode sha256 w1 w' step) found1 in
      (k2, found2, IsLater-trans k k1 k2 later1 later2)
