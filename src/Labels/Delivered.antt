-- ===== src/Labels/Delivered.antt =====
-- What a client of the print queue gets: an artifact that stays readable, and a retry that succeeds.
use mathlib.Core.Path.{subst}
use defiant_fleet_ops.Base.{
  ℕ, suc, ◌+◌, ◌≤◌, ◌<◌, ◌≡◌, refl, sym, ap, ◌∙◌, arith, true, false, Option, some, List, Result,
  ok, ◌>>=◌, some_same, found_own, length, leb,
}
use defiant_fleet_ops.Text.{Text}
use defiant_fleet_ops.Evidence.{is_sha256}
use defiant_fleet_ops.Ledger.{Session, performer, add_version, int_max}
use defiant_fleet_ops.Labels.{
  OutputFormat, Snapshot, Job, Tables, find_job, is_succeeded, update_job, adapter_admitted,
  delivered_job, replace_job, Delivery, AdapterName, file, png, pdf,
}
use defiant_fleet_ops.Labels.Store.{clear, artifact_at, artifact_max}
use defiant_fleet_ops.Labels.Service.{
  path_of, takes, read_artifact, dispatch, attempt, delivery_of, delivered_as,
}
use defiant_fleet_ops.Labels.Steps.{World, Steps}
use defiant_fleet_ops.Labels.Publication.{publish-clear, read-published}
use defiant_fleet_ops.Labels.Attempts.{dispatch_open, attempt_made}
use defiant_fleet_ops.Labels.Later.{Steps-job}
use defiant_fleet_ops.Labels.Backed.{IsBacked, Steps-IsBacked}

takes-admitted : (a : AdapterName) (f : OutputFormat) → adapter_admitted a f ≡ takes a f
takes-admitted file png = refl
takes-admitted file pdf = refl
takes-admitted file OutputFormat.zpl = refl
takes-admitted AdapterName.zpl png = refl
takes-admitted AdapterName.zpl pdf = refl
takes-admitted AdapterName.zpl OutputFormat.zpl = refl

module _ {Label : Type 0} (render : Snapshot → Option Label)
    (encode : OutputFormat → Label → List ℕ) (sha256 : List ℕ → Text) where
  -- The artifact of a succeeded job is its label.
  artifact-label :
      (w : World) (i : ℕ) (j : Job)
      → IsBacked render encode sha256 w
      → find_job i w.tables.jobs ≡ some j
      → is_succeeded j.status ≡ true
      → (label : Label) × (render j.render_snapshot ≡ some label)
        × (artifact_at w.files (path_of j) ≡ some (encode j.output_format label))
        × (length (encode j.output_format label) ≤ artifact_max)
        × (j.artifact_sha256 ≡ some (sha256 (encode j.output_format label)))
  artifact-label w i j b found done =
      let (c, there, named) = b.stored i j found done in
      let (k, label, held, path, made, content, bounded) = b.own (path_of j) c there in
      let same = some_same k j (sym held ∙ found_own (λ (q : Job). q.id) i w.tables.jobs j found) in
      let own_content : encode j.output_format label ≡ c =
        ap (λ (x : Job). encode x.output_format label) (sym same) ∙ content in
      (
        label,
        ap (λ (x : Job). render x.render_snapshot) (sym same) ∙ made,
        there ∙ ap some (sym own_content),
        subst (λ (x : List ℕ). length x ≤ artifact_max) (sym own_content) bounded,
        named ∙ ap (λ (x : List ℕ). some (sha256 x)) (sym own_content),
      )

  -- Once a job of an agreeing queue has succeeded, its artifact stays: whatever operations follow, the
  -- same row is found and, unless the registry or the file system fails, reading it returns the bytes
  -- of the label of its snapshot.
  pub Steps-read_artifact :
      (w w' : World) (i : ℕ) (j : Job)
      → IsBacked render encode sha256 w
      → find_job i w.tables.jobs ≡ some j
      → is_succeeded j.status ≡ true
      → Steps render encode sha256 w w'
      → (label : Label) × (render j.render_snapshot ≡ some label)
        × (read_artifact render encode sha256 true w'.tables w'.files clear i
            ≡ ok (j, encode j.output_format label))
  unfolding read_artifact
  Steps-read_artifact w w' i j b found done steps =
      let (k, found', later) = Steps-job render encode sha256 w w' i j steps found in
      let same = later.success_final done in
      let held : find_job i w'.tables.jobs ≡ some j = found' ∙ ap some same in
      let (label, made, there, bounded, named) =
        artifact-label w' i j (Steps-IsBacked render encode sha256 w w' b steps) held done in
      let back =
        read-published sha256 w'.files (path_of j) (encode j.output_format label) there bounded in
      (label, made, ground (arith, held, done, named, back))

  -- What an earlier attempt left at the path of a job is its label.
  left_over :
      (w : World) (i : ℕ) (j : Job) (label : Label) (c : List ℕ)
      → IsBacked render encode sha256 w
      → find_job i w.tables.jobs ≡ some j
      → render j.render_snapshot ≡ some label
      → artifact_at w.files (path_of j) ≡ some c
      → c ≡ encode j.output_format label
  left_over w i j label c b found made there =
      let (k, other, held, path, made_k, content, bounded) = b.own (path_of j) c there in
      let same = some_same k j (sym held ∙ found_own (λ (q : Job). q.id) i w.tables.jobs j found) in
      let label_same : other ≡ label =
        some_same other label
          (sym made_k ∙ ap (λ (x : Job). render x.render_snapshot) same ∙ made) in
      sym content
      ∙ ap (λ (x : Job). encode x.output_format other) same
      ∙ ap (λ (x : Label). encode j.output_format x) label_same

  -- A queued job of an agreeing queue that has not succeeded can always be delivered, whatever its
  -- earlier attempts left behind: where its label can be rendered and is within the bound, a dispatch by
  -- an authenticated Actor under which the file system does not fail succeeds and records the digest
  -- of the label, provided the digest has the form of one and the attempts are not exhausted.
  pub dispatch-succeeds :
      (w : World) (s : Session) (now who i : ℕ) (j : Job) (label : Label)
      → IsBacked render encode sha256 w
      → find_job i w.tables.jobs ≡ some j
      → is_succeeded j.status ≡ false
      → performer s ≡ ok who
      → j.attempts < int_max
      → render j.render_snapshot ≡ some label
      → length (encode j.output_format label) ≤ artifact_max
      → ((c : List ℕ) → is_sha256 (sha256 c) ≡ true)
      → (u : Job) × (t' : Tables) × ((dispatch render encode sha256 s now true w.tables w.files
            clear i).0
          ≡ ok (u, t'))
        × (is_succeeded u.status ≡ true)
        × (u.artifact_sha256 ≡ some (sha256 (encode j.output_format label)))
  unfolding update_job add_version
  dispatch-succeeds w s now who i j label b found open_job act room made bounded digests =
      let content = encode j.output_format label in
      let (_, adapter, _) = b.admitted i j found in
      let fits = sym (takes-admitted j.adapter_name j.output_format) ∙ adapter in
      let put =
        publish-clear sha256 w.files (path_of j) content bounded
          (λ c there. left_over w i j label c b found made there) in
      let tried : (attempt render encode sha256 true w.files clear j).0
          ≡ ok (delivered_as (sha256 content)) =
        ap (λ m. m.0) (attempt_made render encode sha256 w.files clear j label made fits)
        ∙ ap delivery_of put in
      let u : Job = delivered_job who now (suc j.attempts) (delivered_as (sha256 content)) j in
      let small : leb (j.attempts + 1) int_max ≡ true = ground (arith, room) in
      let valid = digests content in
      let updated : update_job s now j (delivered_as (sha256 content)) w.tables
          ≡ ok (u, record w.tables { jobs = replace_job u w.tables.jobs }) =
        ground (arith, open_job, act, small, valid) in
      (
        u,
        record w.tables { jobs = replace_job u w.tables.jobs },
        ap (λ m. m.0) (dispatch_open render encode sha256 s now true clear w i j found open_job)
            ∙ ap (λ (m : Result Delivery). m >>= λ d. update_job s now j d w.tables) tried
            ∙ updated,
        refl,
        refl,
      )
