-- ===== src/Ledger/Corrections/Coherence.antt =====
-- Each correction keeps the Asset coherent.
use mathlib.Core.Path.{subst}
use defiant_fleet_ops.Base.{ℕ, suc, ◌≡◌, refl, sym, ap, Bool, Option, none, some, List, arith, ok}
use defiant_fleet_ops.Text.{Text, reason_bounded, reason_admitted}
use defiant_fleet_ops.Lifecycle.{AssetState}
use defiant_fleet_ops.History.{Event}
use defiant_fleet_ops.Ledger.{Ledger, Assignee, Session, Directory, insert_event}
use defiant_fleet_ops.Ledger.Invariant.{IsCoherent}
use defiant_fleet_ops.Ledger.Table.{IsKept}
use defiant_fleet_ops.Ledger.Extension.{
  Extends, write_state-IsCoherent, write-IsCoherent, write_assignment-IsCoherent,
}
use defiant_fleet_ops.Ledger.Pair.{pair-Extends}
use defiant_fleet_ops.Ledger.Physical.{PhysicalFact}
use defiant_fleet_ops.Ledger.Coherence.{insert_transition-eq-ok}
use defiant_fleet_ops.Ledger.Correction.{Declaration, CorrectionRequest}
use defiant_fleet_ops.Ledger.Correction.Inversion.{Accepted, correct-Accepted}
use defiant_fleet_ops.Ledger.Corrections.{
  transition_declaration, physical_declaration, assignment_declaration, correct_transition,
  correct_fact, correct_assignment,
}

module _ {F : Type 0} (c : Declaration F) (p : Text → Bool) (s : Session) (d : Directory)
    (l : Ledger) (q : CorrectionRequest) (target : Option F) (evidence_ref : Option ℕ)
    (row : Event F) (l' : Ledger)
    (table : (e : Event F) (rows rows' : List (Event F))
      → c.insert d l.asset.id e rows ≡ ok rows'
      → insert_event p e rows ≡ ok rows') where
  -- The rows that an accepted correction leaves extend the table, its corrected row last.
  correct-Extends :
      (a : Accepted c s d l q target evidence_ref row l')
      → IsKept l.asset.version (c.rows l)
      → Extends l.asset.version (suc (suc l.asset.version)) (c.rows l) a.pair.rows row
  correct-Extends a k =
      pair-Extends p q.root_id l.asset.version (c.rows l) a.pair.reversed a.pair.rows a.original
        a.head _ row k a.admission.found_original a.admission.original_ordinary
        a.admission.found_head (table _ _ _ a.pair.inserted_reversal) (table _ _ _ a.pair.inserted)
        (refl, refl, refl) (cc a.pair.written, cc a.pair.written, cc a.pair.written)
        (omega (arith, ap (λ (e : Event F). e.generation) a.pair.written))

-- A correction of a transition that is accepted leaves a coherent Asset coherent.
pub correct_transition-IsCoherent :
    (s : Session) (d : Directory) (l : Ledger) (q : CorrectionRequest) (to : AssetState)
    (evidence_ref : Option ℕ) (row : Event AssetState) (l' : Ledger)
    → IsCoherent l
    → correct_transition s d (some l) q to evidence_ref ≡ ok (row, l')
    → IsCoherent l'
unfolding correct_transition
correct_transition-IsCoherent s d l q to evidence_ref row l' c h =
    let a = correct-Accepted transition_declaration s d l q (some to) evidence_ref row l' h in
    subst IsCoherent (sym a.pair.result) (
      write_state-IsCoherent l (suc (suc l.asset.version)) c a.pair.rows row to
        (correct-Extends transition_declaration reason_bounded s d l q (some to) evidence_ref row l'
          (insert_transition-eq-ok d l.asset.id) a c.transitions)
        (ap (λ (e : Event AssetState). e.target) a.pair.written))

-- A correction of a movement, a custody change or an ownership change that is accepted leaves a
-- coherent Asset coherent.
pub correct_fact-IsCoherent :
    (s : Session) (d : Directory) (l : Ledger) (q : CorrectionRequest) (f : PhysicalFact)
    (target : Option ℕ) (row : Event ℕ) (l' : Ledger)
    → IsCoherent l
    → correct_fact s d (some l) q f target ≡ ok (row, l')
    → IsCoherent l'
unfolding correct_fact
correct_fact-IsCoherent s d l q f target row l' c h =
    let a = correct-Accepted (physical_declaration f) s d l q target none row l' h in
    subst IsCoherent (sym a.pair.result) (
      write-IsCoherent l (suc (suc l.asset.version)) c f a.pair.rows row (
        correct-Extends (physical_declaration f) reason_admitted s d l q target none row l'
          (λ e rows rows' i. i) a (c.physical f)))

-- A correction of an assignment event that is accepted leaves a coherent Asset coherent.
pub correct_assignment-IsCoherent :
    (s : Session) (d : Directory) (l : Ledger) (q : CorrectionRequest) (target : Option Assignee)
    (row : Event Assignee) (l' : Ledger)
    → IsCoherent l
    → correct_assignment s d (some l) q target ≡ ok (row, l')
    → IsCoherent l'
unfolding correct_assignment
correct_assignment-IsCoherent s d l q target row l' c h =
    let a = correct-Accepted assignment_declaration s d l q target none row l' h in
    subst IsCoherent (sym a.pair.result) (
      write_assignment-IsCoherent l (suc (suc l.asset.version)) c a.pair.rows row (
        correct-Extends assignment_declaration reason_admitted s d l q target none row l'
          (λ e rows rows' i. i) a c.assignments))
