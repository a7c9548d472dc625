-- ===== src/Ledger/Coherence.antt =====
-- Each ordinary operation keeps the Asset coherent.
use defiant_fleet_ops.Base.{ℕ, suc, ◌≡◌, ap, sym, Option, some, List, arith, ok}
use mathlib.Core.Path.{subst}
use defiant_fleet_ops.Text.{reason_bounded, reason_admitted}
use defiant_fleet_ops.Lifecycle.{AssetState}
use defiant_fleet_ops.History.{Event}
use defiant_fleet_ops.Ledger.{Ledger, Assignee, Session, Directory, Request, insert_event}
use defiant_fleet_ops.Ledger.Invariant.{IsCoherent}
use defiant_fleet_ops.Ledger.Extension.{
  insert-Extends, write_state-IsCoherent, write-IsCoherent, write_assignment-IsCoherent,
}
use defiant_fleet_ops.Ledger.Corrections.{write_state}
use defiant_fleet_ops.Ledger.Transition.{transition, insert_transition}
use defiant_fleet_ops.Ledger.Transition.Inversion.{transition-Accepted}
use defiant_fleet_ops.Ledger.Physical.{PhysicalFact, history, write, change_fact}
use defiant_fleet_ops.Ledger.Physical.Inversion.{change_fact-Accepted}
use defiant_fleet_ops.Ledger.Assignment.{change_assignment}
use defiant_fleet_ops.Ledger.Assignment.Inversion.{change_assignment-Accepted}

pub insert_transition-eq-ok :
    (d : Directory) (asset_id : ℕ) (e : Event AssetState) (rows rows' : List (Event AssetState))
    → insert_transition d asset_id e rows ≡ ok rows'
    → insert_event reason_bounded e rows ≡ ok rows'
unfolding insert_transition
insert_transition-eq-ok d asset_id e rows rows' h = ground arith

-- A lifecycle transition that is accepted leaves a coherent Asset coherent.
pub transition-IsCoherent :
    (s : Session) (d : Directory) (l : Ledger) (q : Request) (from to : AssetState)
    (evidence_ref : Option ℕ) (row : Event AssetState) (l' : Ledger)
    → IsCoherent l
    → transition s d (some l) q from to evidence_ref ≡ ok (row, l')
    → IsCoherent l'
transition-IsCoherent s d l q from to evidence_ref row l' c h =
    let a = transition-Accepted s d l q from to evidence_ref row l' h in
    let inserted =
      insert_transition-eq-ok d l.asset.id row l.transitions l'.transitions a.inserted in
    let version : row.result_version ≡ suc l.asset.version =
      ap (λ (e : Event AssetState). e.result_version) a.written in
    let target : row.target ≡ some to = ap (λ (e : Event AssetState). e.target) a.written in
    let wrote : l' ≡ write_state l l'.transitions row (suc l.asset.version) =
      ground (arith, a.result, target) in
    subst IsCoherent (sym wrote) (
      write_state-IsCoherent l (suc l.asset.version) c l'.transitions row to
        (insert-Extends reason_bounded row l.asset.version l.transitions l'.transitions
          c.transitions inserted version (cc a.written) (cc a.written))
        target)

-- A move, a custody change or an ownership change that is accepted leaves it coherent.
pub change_fact-IsCoherent :
    (f : PhysicalFact) (s : Session) (d : Directory) (l : Ledger) (q : Request) (target : Option ℕ)
    (row : Event ℕ) (l' : Ledger)
    → IsCoherent l
    → change_fact f s d (some l) q target ≡ ok (row, l')
    → IsCoherent l'
change_fact-IsCoherent f s d l q target row l' c h =
    let a = change_fact-Accepted f s d l q target row l' h in
    let version : row.result_version ≡ suc l.asset.version =
      ap (λ (e : Event ℕ). e.result_version) a.written in
    let same_target : row.target ≡ target = ap (λ (e : Event ℕ). e.target) a.written in
    let wrote : l' ≡ write f l (history f l') row.target (suc l.asset.version) =
      rw same_target a.result in
    subst IsCoherent (sym wrote) (
      write-IsCoherent l (suc l.asset.version) c f (history f l') row (
        insert-Extends reason_admitted row l.asset.version (history f l) (history f l')
          (c.physical f) a.inserted version (cc a.written) (cc a.written)))

-- An assignment, a reassignment or an unassignment that is accepted leaves it coherent.
pub change_assignment-IsCoherent :
    (s : Session) (d : Directory) (l : Ledger) (q : Request) (target : Option Assignee)
    (row : Event Assignee) (l' : Ledger)
    → IsCoherent l
    → change_assignment s d (some l) q target ≡ ok (row, l')
    → IsCoherent l'
change_assignment-IsCoherent s d l q target row l' c h =
    let a = change_assignment-Accepted s d l q target row l' h in
    let version : row.result_version ≡ suc l.asset.version =
      ap (λ (e : Event Assignee). e.result_version) a.written in
    subst IsCoherent (sym a.result) (
      write_assignment-IsCoherent l (suc l.asset.version) c l'.assignment_events row (
        insert-Extends reason_admitted row l.asset.version l.assignment_events l'.assignment_events
          c.assignments a.inserted version (cc a.written) (cc a.written)))
