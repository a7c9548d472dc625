-- ===== src/Capture/Process/Outcomes.antt =====
-- What a processed operation may change, by its terminal state.
use defiant_fleet_ops.Base.{
  ℕ, ◌≡◌, ◌⊎◌, sym, ap, ◌∙◌, arith, none, some, ◌==◌, find-All, Result, ok, err, >>=-eq-ok,
  guard-eq-ok, Option-cases, Bool-cases, inl, inr, asset_not_found,
}
use mathlib.Core.Path.{subst}
use defiant_fleet_ops.Ledger.{Session}
use defiant_fleet_ops.Ledger.Invariant.{IsCoherent}
use defiant_fleet_ops.Capture.{CaptureOperation, Tables, rejected, is_versioned}
use defiant_fleet_ops.Capture.Apply.{Unversioned, apply, validate, find_ledger, AllCoherent}
use defiant_fleet_ops.Capture.Apply.Coherence.{apply-AllCoherent}
use defiant_fleet_ops.Capture.Process.{
  Fresh, Out, Attempt, versioned, attempt, classify, process, find_operation, record_operation,
}
use defiant_fleet_ops.Capture.Process.Idempotence.{Performed, perform-Performed}

module _ (u : Unversioned) (s : Session) (actor_id : ℕ) (t : Tables) (o : CaptureOperation)
    (fresh : Fresh) where
  -- An attempt that rejects leaves the world.
  rejected_attempt :
      (a : Attempt) → attempt u s actor_id t o fresh ≡ ok a → a.state ≡ rejected → a.world ≡ t.world
  unfolding attempt versioned
  rejected_attempt a h r = ground arith

  classified-world :
      (m : Result Attempt) (a : Attempt)
      → classify u s actor_id t m ≡ ok a
      → (m ≡ ok a) ⊎ ((a.world ≡ t.world) × (a.conflicts ≡ t.conflicts) × (a.state ≡ rejected))
  unfolding classify
  classified-world (ok b) a h = inl h
  classified-world (err e) a h = inr (ground arith, ground arith, ground arith)

  versioned-AllCoherent :
      (a : Attempt)
      → AllCoherent t.world
      → versioned u s actor_id t o fresh ≡ ok a
      → AllCoherent a.world
  unfolding versioned find_ledger
  versioned-AllCoherent a all h =
      let (v, ev, hv) = >>=-eq-ok (validate o) _ h in
      let (l, el, hl) =
        >>=-eq-ok
          (elim (find_ledger o.entity_id t.world.ledgers) [
            | none ↦ err asset_not_found
            | some l ↦ ok l
          ])
          _ hv in
      let found : find_ledger o.entity_id t.world.ledgers ≡ some l = ground (arith, el) in
      let coherent : IsCoherent l = find-All IsCoherent _ t.world.ledgers l all found in
      elim (Bool-cases (l.asset.version == v.0)) [
        | inl current ↦
            let (r, er, hr) =
              >>=-eq-ok (apply s t.world o l v.0 v.1 fresh.row_id) _ (rw current at hl) in
            let same : r.0 ≡ a.world = ground (arith, hr) in
            subst AllCoherent same
              (apply-AllCoherent s t.world o l v.0 v.1 fresh.row_id r all coherent er)
        | inr stale ↦
            let same : t.world ≡ a.world = ground (arith, hl, stale) in subst AllCoherent same all
      ]

  attempt-AllCoherent :
      (a : Attempt)
      → AllCoherent t.world
      → attempt u s actor_id t o fresh ≡ ok a
      → AllCoherent a.world
  unfolding attempt
  attempt-AllCoherent a all h =
      let (own, rest) = guard-eq-ok (o.actor_id == actor_id) _ _ h in
      elim (Bool-cases (is_versioned o.operation)) [
        | inl v ↦ versioned-AllCoherent a all (rw v at rest)
        | inr other ↦
            let (r, er, hr) = >>=-eq-ok (u.run s t.world o fresh.row_id) _ (rw other at rest) in
            let same : r.0 ≡ a.world = ground (arith, hr) in
            subst AllCoherent same (u.run-AllCoherent s t.world o fresh.row_id r all er)
      ]

  -- The world that an operation with a new record leaves.
  Performed-AllCoherent :
      (answer : Out) (t' : Tables)
      → Performed u s actor_id t o fresh answer t'
      → AllCoherent t.world
      → AllCoherent t'.world
  Performed-AllCoherent answer t' p all =
      let left : p.attempted.world ≡ t'.world = sym (ap (λ (k : Tables). k.world) p.result) in
      elim (classified-world (attempt u s actor_id t o fresh) p.attempted p.classified) [
        | inl accepted ↦ subst AllCoherent left (attempt-AllCoherent p.attempted all accepted)
        | inr (same, _, _) ↦ subst AllCoherent (sym same ∙ left) all
      ]

  Performed-rejected :
      (answer : Out) (t' : Tables)
      → Performed u s actor_id t o fresh answer t'
      → answer.sync_state ≡ rejected
      → t'.world ≡ t.world
  unfolding record_operation
  Performed-rejected answer t' p r =
      let state : p.attempted.state ≡ rejected = ground (arith, p.recorded, p.answered, r) in
      let left : t'.world ≡ p.attempted.world = ap (λ (k : Tables). k.world) p.result in
      elim (classified-world (attempt u s actor_id t o fresh) p.attempted p.classified) [
        | inl accepted ↦ left ∙ rejected_attempt p.attempted accepted state
        | inr (same, _, _) ↦ left ∙ same
      ]

  -- If the verbs of the interface keep every Asset coherent, so does a queued operation.
  pub process-AllCoherent :
      (answer : Out) (t' : Tables)
      → AllCoherent t.world
      → process u s actor_id t o fresh ≡ ok (answer, t')
      → AllCoherent t'.world
  unfolding process
  process-AllCoherent answer t' all h =
      elim (Option-cases (find_operation u s actor_id o.operation_id t.operations)) [
        | inl absent ↦
            Performed-AllCoherent answer t'
              (perform-Performed u s actor_id t o fresh answer t' (ground (arith, absent))) all
        | inr (original, found) ↦
            let same : t ≡ t' = ground (arith, found) in
            subst (λ (k : Tables). AllCoherent k.world) same all
      ]

  -- An operation that is answered as REJECTED has changed no Asset and nothing else of the domain.
  pub process-rejected :
      (answer : Out) (t' : Tables)
      → process u s actor_id t o fresh ≡ ok (answer, t')
      → answer.sync_state ≡ rejected
      → t'.world ≡ t.world
  unfolding process
  process-rejected answer t' h r =
      elim (Option-cases (find_operation u s actor_id o.operation_id t.operations)) [
        | inl absent ↦
            Performed-rejected answer t'
              (perform-Performed u s actor_id t o fresh answer t' (ground (arith, absent))) r
        | inr (original, found) ↦ ground (arith, found)
      ]
