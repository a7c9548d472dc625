-- ===== src/Ledger/Reachable.antt =====
-- Every Ledger that the operations can bring about, as the relation of its accepted operations.
use defiant_fleet_ops.Base.{ℕ, ◌≡◌, Option, some, ok}
use defiant_fleet_ops.Lifecycle.{AssetState}
use defiant_fleet_ops.History.{Event}
use defiant_fleet_ops.Ledger.{Ledger, Assignee, Session, Directory, Request}
use defiant_fleet_ops.Ledger.Creation.{ReceivedUnit, received_ledger, received_ledger-IsCoherent}
use defiant_fleet_ops.Ledger.Invariant.{IsCoherent}
use defiant_fleet_ops.Ledger.Transition.{transition}
use defiant_fleet_ops.Ledger.Physical.{PhysicalFact, change_fact}
use defiant_fleet_ops.Ledger.Assignment.{change_assignment}
use defiant_fleet_ops.Ledger.Correction.{CorrectionRequest}
use defiant_fleet_ops.Ledger.Corrections.{correct_transition, correct_fact, correct_assignment}
use defiant_fleet_ops.Ledger.Coherence.{
  transition-IsCoherent, change_fact-IsCoherent, change_assignment-IsCoherent,
}
use defiant_fleet_ops.Ledger.Corrections.Coherence.{
  correct_transition-IsCoherent, correct_fact-IsCoherent, correct_assignment-IsCoherent,
}

-- One accepted call of a privileged function, by any session and with the other tables as they are.
pub data Step (l l' : Ledger) : Type 0 where
  transitioned :
      (s : Session) (d : Directory) (q : Request) (from to : AssetState) (evidence_ref : Option ℕ)
      (row : Event AssetState)
      → transition s d (some l) q from to evidence_ref ≡ ok (row, l')
      → Step l l'
  changed :
      (f : PhysicalFact) (s : Session) (d : Directory) (q : Request) (target : Option ℕ)
      (row : Event ℕ)
      → change_fact f s d (some l) q target ≡ ok (row, l')
      → Step l l'
  reassigned :
      (s : Session) (d : Directory) (q : Request) (target : Option Assignee) (row : Event Assignee)
      → change_assignment s d (some l) q target ≡ ok (row, l')
      → Step l l'
  transition_corrected :
      (s : Session) (d : Directory) (q : CorrectionRequest) (to : AssetState)
      (evidence_ref : Option ℕ) (row : Event AssetState)
      → correct_transition s d (some l) q to evidence_ref ≡ ok (row, l')
      → Step l l'
  fact_corrected :
      (s : Session) (d : Directory) (q : CorrectionRequest) (f : PhysicalFact) (target : Option ℕ)
      (row : Event ℕ)
      → correct_fact s d (some l) q f target ≡ ok (row, l')
      → Step l l'
  assignment_corrected :
      (s : Session) (d : Directory) (q : CorrectionRequest) (target : Option Assignee)
      (row : Event Assignee)
      → correct_assignment s d (some l) q target ≡ ok (row, l')
      → Step l l'

-- A Ledger after a creation and any number of accepted calls.
pub data Reachable : Ledger → Type 0 where
  created : (u : ReceivedUnit) (performer_id : ℕ) → Reachable (received_ledger u performer_id)
  stepped : (l l' : Ledger) → Reachable l → Step l l' → Reachable l'

pub Step-IsCoherent : (l l' : Ledger) → IsCoherent l → Step l l' → IsCoherent l'
Step-IsCoherent l l' c (transitioned s d q from to e row h) =
    transition-IsCoherent s d l q from to e row l' c h
Step-IsCoherent l l' c (changed f s d q t row h) = change_fact-IsCoherent f s d l q t row l' c h
Step-IsCoherent l l' c (reassigned s d q t row h) =
    change_assignment-IsCoherent s d l q t row l' c h
Step-IsCoherent l l' c (transition_corrected s d q to e row h) =
    correct_transition-IsCoherent s d l q to e row l' c h
Step-IsCoherent l l' c (fact_corrected s d q f t row h) =
    correct_fact-IsCoherent s d l q f t row l' c h
Step-IsCoherent l l' c (assignment_corrected s d q t row h) =
    correct_assignment-IsCoherent s d l q t row l' c h

-- Whatever accepted operations follow the creation of an Asset, in whatever order, every version
-- from 1 to its own is produced by exactly one history row, its tables keep their constraints, and
-- its state, location, custodian, owner and assignment are what its effective history states.
pub Reachable-IsCoherent : (l : Ledger) → Reachable l → IsCoherent l
Reachable-IsCoherent _ (created u performer_id) = received_ledger-IsCoherent u performer_id
Reachable-IsCoherent _ (stepped l l' r s) = Step-IsCoherent l l' (Reachable-IsCoherent l r) s
