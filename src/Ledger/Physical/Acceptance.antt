-- ===== src/Ledger/Physical/Acceptance.antt =====
-- When a physical change is accepted: what the caller has to bring, and nothing else.
use defiant_fleet_ops.Base.{
  ℕ, suc, ◌≤◌, ◌≡◌, refl, true, false, not, ◌||◌, Option, some, List, [], ◌∷◌, arith, ok, any,
  same_refl, is_some, Option-cases, inl, inr, All-keep,
}
use defiant_fleet_ops.Text.{reason_admitted}
use defiant_fleet_ops.History.{Event, ordinary, is_effective, effective, latest}
use defiant_fleet_ops.History.Effective.{Below, latest-Below}
use defiant_fleet_ops.Ledger.{
  Ledger, Session, Directory, Request, int_max, add_version, collides, names_root, insert_event,
}
use defiant_fleet_ops.Ledger.Anomalies.{has_anomaly}
use defiant_fleet_ops.Ledger.Admission.{admit, prior_fact}
use defiant_fleet_ops.Ledger.Authority.{stated_fact}
use defiant_fleet_ops.Ledger.Invariant.{IsCoherent}
use defiant_fleet_ops.Ledger.Table.{has_id}
use defiant_fleet_ops.Ledger.Physical.{
  PhysicalFact, history, projection, required, target_known, baseline, physical_row, write,
  change_fact,
}

-- An ordinary row of the next version with a new identifier falls under no unique index of the table.
no_collision :
    {F : Type 0} (e : Event F) (v : ℕ) (rows : List (Event F))
    → Below (suc v) rows
    → e.result_version ≡ suc v
    → e.role ≡ ordinary
    → has_id e.id rows ≡ false
    → any (collides e) rows ≡ false
unfolding collides
no_collision e v [] b n o f = refl
no_collision e v (x ∷ rows) b n o f = ground (arith, no_collision e v rows b.1 n o)

module _ (f : PhysicalFact) (d : Directory) (l : Ledger) (c : IsCoherent l) where
  -- The prior fact of a coherent Asset is its projection.
  prior-projection :
      prior_fact l.asset.version (history f l) (baseline f l) ≡ ok (projection f l.asset)
  unfolding prior_fact baseline stated_fact effective
  prior-projection = elim (Option-cases l.initial_facts) [
    | inl uncreated ↦ ground (arith, uncreated, c.creation)
    | inr (b, created) ↦ elim (Option-cases (latest (effective (history f l)))) [
      | inl absent ↦ ground (arith, absent, created, c.facts f)
      | inr (h, found) ↦
          let below =
            latest-Below (suc l.asset.version) (effective (history f l)) h
              (All-keep _ (is_effective (history f l)) (history f l) (c.physical f).below) found in
          ground (arith, found, created, c.facts f, below)
    ]
  ]

  -- Of a coherent Asset whose correction history is not malformed, a change of location, custodian or
  -- owner is accepted whenever the caller is authenticated in an organization, names the present
  -- version, gives an admissible reason and a known target (an owner at least), the row's identifier is
  -- new and the next version is in range; the row that it appends and the Asset that it leaves are
  -- those of the request.
  pub change_fact-accepts :
      (s : Session) (who : ℕ) (q : Request) (target : Option ℕ)
      → s.trusted_org ≡ true
      → s.actor ≡ some who
      → q.expected_version ≡ l.asset.version
      → has_anomaly d l ≡ false
      → (not (required f) || is_some target) ≡ true
      → target_known d f target ≡ true
      → suc l.asset.version ≤ int_max
      → reason_admitted q.reason ≡ true
      → has_id q.row_id (history f l) ≡ false
      → change_fact f s d (some l) q target
        ≡ ok (
          physical_row q who (projection f l.asset) target (suc l.asset.version),
          write f l
              (physical_row q who (projection f l.asset) target (suc l.asset.version) ∷ history f l)
              target
              (suc l.asset.version),
        )
  unfolding change_fact admit add_version insert_event names_root
  change_fact-accepts s who q target org actor version well_formed present known in_range reason
        new =
      let row = physical_row q who (projection f l.asset) target (suc l.asset.version) in
      let free =
        no_collision row l.asset.version (history f l) (c.physical f).below refl refl new in
      ground (
        arith,
        org,
        actor,
        version,
        well_formed,
        present,
        known,
        in_range,
        reason,
        free,
        prior-projection,
        same_refl (projection f l.asset),
      )
