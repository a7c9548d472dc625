-- ===== src/Capture/Apply/Coherence.antt =====
-- A captured change keeps every Asset coherent.
use defiant_fleet_ops.Base.{
  ℕ, ◌≡◌, arith, none, some, List, [], ◌∷◌, ◌==◌, All, ok, >>=-eq-ok, Bool-cases, inl, inr,
}
use mathlib.Core.Path.{subst}
use defiant_fleet_ops.Ledger.{Ledger, Session}
use defiant_fleet_ops.Ledger.Invariant.{IsCoherent}
use defiant_fleet_ops.Ledger.Physical.{movement}
use defiant_fleet_ops.Ledger.Assignment.{assign_asset, unassign_asset}
use defiant_fleet_ops.Ledger.Coherence.{
  transition-IsCoherent, change_fact-IsCoherent, change_assignment-IsCoherent,
}
use defiant_fleet_ops.Assets.{transition_asset}
use defiant_fleet_ops.Assets.Facts.{
  move_asset, assign_asset as assign_service, unassign_asset as unassign_service,
}
use defiant_fleet_ops.Assets.Legality.{admitted_sql, constraints-eq-ok}
use defiant_fleet_ops.Capture.{CaptureOperation, World}
use defiant_fleet_ops.Capture.Apply.{
  Change, moving, assigning, unassigning, transitioning, set_ledger, request_of, committed, apply,
  AllCoherent,
}

set_ledger-All :
    (l : Ledger) (ledgers : List Ledger)
    → IsCoherent l
    → All IsCoherent ledgers
    → All IsCoherent (set_ledger l ledgers)
unfolding set_ledger
set_ledger-All l [] c all = tt
set_ledger-All l (k ∷ ledgers) c all = elim (Bool-cases (k.asset.id == l.asset.id)) [
  | inl same_asset ↦ rw same_asset (c, set_ledger-All l ledgers c all.1)
  | inr other ↦ rw other (all.0, set_ledger-All l ledgers c all.1)
]

committed-AllCoherent :
    (w : World) (l : Ledger) (row_id : ℕ)
    → AllCoherent w
    → IsCoherent l
    → AllCoherent (committed w l row_id).0
committed-AllCoherent w l row_id all c = set_ledger-All l w.ledgers c all

pub apply-AllCoherent :
    (s : Session) (w : World) (o : CaptureOperation) (l : Ledger) (version : ℕ) (change : Change)
    (row_id : ℕ) (r : World × ℕ)
    → AllCoherent w
    → IsCoherent l
    → apply s w o l version change row_id ≡ ok r
    → AllCoherent r.0
unfolding apply move_asset assign_service unassign_service assign_asset unassign_asset
apply-AllCoherent s w o l version (moving to reason) row_id r all c h =
    let (x, ex, hx) =
      >>=-eq-ok (move_asset s w.directory (some l) (request_of o version reason row_id) to) _ h in
    let kept =
      change_fact-IsCoherent movement s w.directory l (request_of o version reason row_id) to x.0
        x.1 c (constraints-eq-ok _ x ex) in
    let returned : committed w x.1 x.0.id ≡ r = ground (arith, hx) in
    subst (λ (k : World × ℕ). AllCoherent k.0) returned
      (committed-AllCoherent w x.1 x.0.id all kept)
apply-AllCoherent s w o l version (assigning to reason) row_id r all c h =
    let (x, ex, hx) =
      >>=-eq-ok (assign_service s w.directory (some l) (request_of o version reason row_id) to) _
        h in
    let kept =
      change_assignment-IsCoherent s w.directory l (request_of o version reason row_id) (some to)
        x.0 x.1 c (constraints-eq-ok _ x ex) in
    let returned : committed w x.1 x.0.id ≡ r = ground (arith, hx) in
    subst (λ (k : World × ℕ). AllCoherent k.0) returned
      (committed-AllCoherent w x.1 x.0.id all kept)
apply-AllCoherent s w o l version (unassigning reason) row_id r all c h =
    let (x, ex, hx) =
      >>=-eq-ok (unassign_service s w.directory (some l) (request_of o version reason row_id)) _
        h in
    let kept =
      change_assignment-IsCoherent s w.directory l (request_of o version reason row_id) none x.0 x.1
        c (constraints-eq-ok _ x ex) in
    let returned : committed w x.1 x.0.id ≡ r = ground (arith, hx) in
    subst (λ (k : World × ℕ). AllCoherent k.0) returned
      (committed-AllCoherent w x.1 x.0.id all kept)
apply-AllCoherent s w o l version (transitioning from to reason evidence_ref) row_id r all c h =
    let q = request_of o version reason row_id in
    let (x, ex, hx) =
      >>=-eq-ok
        (transition_asset s w.directory w.storage (some l) o.entity_id q from to evidence_ref) _
        h in
    let kept = transition-IsCoherent s w.directory l q from to evidence_ref x.0 x.1 c (
      constraints-eq-ok _ x
        (admitted_sql s w.directory w.storage l o.entity_id q from to evidence_ref x.0 x.1 ex)) in
    let returned : committed w x.1 x.0.id ≡ r = ground (arith, hx) in
    subst (λ (k : World × ℕ). AllCoherent k.0) returned
      (committed-AllCoherent w x.1 x.0.id all kept)
