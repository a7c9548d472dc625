-- ===== src/Labels/Added.antt =====
-- What an accepted print request has found and what it adds to the queue.
use mathlib.Core.Path.{subst}
use defiant_fleet_ops.Base.{
  ℕ, ◌≡◌, inl, inr, refl, arith, true, false, ◌∷◌, ◌==◌, any, Option-cases, ok, Result-cases, ==_eq,
}
use defiant_fleet_ops.Ledger.{Session, performer}
use defiant_fleet_ops.Labels.{
  OutputFormat, Job, find_template, find_target, Reference, Tables, captured, insert_job, is_new,
  adapter_admitted,
}
use defiant_fleet_ops.Labels.Service.{enqueue, new_job}

-- The row that a request adds.
pub record IsAdded (id asset_id : ℕ) (t : Tables) (j : Job) (t' : Tables) : Type 0 where
  pub fresh : any (λ k. k.id == id) t.jobs ≡ false
  pub named : j.id ≡ id
  pub of_asset : j.entity_id ≡ asset_id
  pub pending : is_new j ≡ true
  pub adapter : adapter_admitted j.adapter_name j.output_format ≡ true
  pub identity : j.render_snapshot.id ≡ j.entity_id
  pub queued : t'.jobs ≡ j ∷ t.jobs

insert_job-IsAdded :
    (s : Session) (r : Reference) (now : ℕ) (j row : Job) (t t' : Tables)
    → insert_job s r now j t ≡ ok (row, t')
    → IsAdded j.id j.entity_id t row t'
unfolding insert_job
insert_job-IsAdded s r now j row t t' h = elim (Option-cases (captured r t j)) [
  | inl missing ↦ ground (arith, missing)
  | inr (c, found) ↦ elim (Result-cases (performer s)) [
    | inr (e, refused) ↦ ground (arith, found, refused)
    | inl (who, act) ↦
        let added : Job = record j {
          render_snapshot = c;
          requested_by = who;
          requested_at = now;
        } in
        let row_is : added ≡ row = ground (arith, found, act) in
        let tables_are : record t { jobs = added ∷ t.jobs } ≡ t' = ground (arith, found, act) in
        subst (λ (x : Job). IsAdded j.id j.entity_id t x t') row_is
          (subst (λ (x : Tables). IsAdded j.id j.entity_id t added x) tables_are
            record {
              fresh = ground (arith, found, act);
              named = refl;
              of_asset = refl;
              pending = ground (arith, found, act);
              adapter = ground (arith, found, act);
              identity = ==_eq c.id j.entity_id (ground (arith, found, act));
              queued = refl;
            })
  ]
]

pub enqueue-IsAdded :
    (s : Session) (r : Reference) (now : ℕ) (t : Tables) (id asset_id template_id : ℕ)
    (f : OutputFormat) (row : Job) (t' : Tables)
    → enqueue s r now t id asset_id template_id f ≡ ok (row, t')
    → IsAdded id asset_id t row t'
unfolding enqueue
enqueue-IsAdded s r now t id asset_id template_id f row t' h =
    elim (Option-cases (find_template template_id t.templates)) [
      | inl missing ↦ ground (arith, missing)
      | inr (m, found) ↦ elim (Option-cases (find_target asset_id r.assets)) [
        | inl missing ↦ ground (arith, found, missing)
        | inr (a, target) ↦
            insert_job-IsAdded s r now (new_job id r.org_id template_id asset_id f) row t t'
              (ground (arith, found, target))
      ]
    ]
