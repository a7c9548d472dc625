-- ===== src/Ledger/Extension.antt =====
-- A table that an operation has extended from version `v` to version `w`, with `e` its latest
-- effective row, and what such an extension means for the whole Asset.
use defiant_fleet_ops.Base.{ℕ, suc, ◌+◌, ◌≤◌, ◌≡◌, Bool, true, none, some, List, count, arith, ok}
use defiant_fleet_ops.Text.{Text}
use defiant_fleet_ops.Lifecycle.{AssetState}
use defiant_fleet_ops.History.{Event, versions, latest, effective, is_ordinary}
use defiant_fleet_ops.Ledger.{Ledger, Assignee, insert_event}
use defiant_fleet_ops.Ledger.Table.{IsKept, IsKept-mono, insert-IsKept, insert-latest, count-insert}
use defiant_fleet_ops.Ledger.Physical.{PhysicalFact, movement, custody, ownership, history, write}
use defiant_fleet_ops.Ledger.Authority.{stated_state, stated_fact, stated_assignment}
use defiant_fleet_ops.Ledger.Corrections.{write_state, write_assignment}
use defiant_fleet_ops.Ledger.Invariant.{IsCoherent, producers, once}

pub record Extends {F : Type 0} (v w : ℕ) (rows rows' : List (Event F)) (e : Event F) : Type 0 where
  pub later : v ≤ w
  pub kept : IsKept w rows'
  pub head : latest (effective rows') ≡ some e
  pub grown : (n : ℕ) → count n (versions rows') + once v n ≡ count n (versions rows) + once w n

pub insert-Extends :
    {F : Type 0} (p : Text → Bool) (e : Event F) (v : ℕ) (rows rows' : List (Event F))
    → IsKept v rows
    → insert_event p e rows ≡ ok rows'
    → e.result_version ≡ suc v
    → is_ordinary e.role ≡ true
    → e.root ≡ none
    → Extends v (suc v) rows rows' e
insert-Extends p e v rows rows' k h ev o r = record {
  later = omega arith;
  kept = insert-IsKept p e v rows rows' k h ev (λ _. r);
  head = insert-latest p e v rows rows' k h ev o r;
  grown = λ n. ground (arith, count-insert p e n rows rows' h, ev);
}

module _ (l : Ledger) (w : ℕ) (c : IsCoherent l) where
  -- A table that the operation leaves alone.
  others : l.asset.version ≤ w → (f : PhysicalFact) → IsKept w (history f l)
  others later f = IsKept-mono l.asset.version w (history f l) later (c.physical f)

  pub write_state-IsCoherent :
      (rows : List (Event AssetState)) (e : Event AssetState) (to : AssetState)
      → Extends l.asset.version w l.transitions rows e
      → e.target ≡ some to
      → IsCoherent (write_state l rows e w)
  unfolding stated_state stated_fact stated_assignment producers
  write_state-IsCoherent rows e to x t = record {
    creation = c.creation;
    witness = c.witness;
    transitions = x.kept;
    physical = elim [
      | movement ↦ others x.later movement
      | custody ↦ others x.later custody
      | ownership ↦ others x.later ownership
    ];
    assignments = IsKept-mono l.asset.version w l.assignment_events x.later c.assignments;
    dense = λ n. omega (arith, c.dense n, x.grown n);
    state = ground (arith, x.head, t);
    facts = elim [
      | movement ↦ c.facts movement
      | custody ↦ c.facts custody
      | ownership ↦ c.facts ownership
    ];
    assignment = c.assignment;
  }

  pub write_assignment-IsCoherent :
      (rows : List (Event Assignee)) (e : Event Assignee)
      → Extends l.asset.version w l.assignment_events rows e
      → IsCoherent (write_assignment l rows e w)
  unfolding stated_state stated_fact stated_assignment producers
  write_assignment-IsCoherent rows e x = record {
    creation = c.creation;
    witness = c.witness;
    transitions = IsKept-mono l.asset.version w l.transitions x.later c.transitions;
    physical = elim [
      | movement ↦ others x.later movement
      | custody ↦ others x.later custody
      | ownership ↦ others x.later ownership
    ];
    assignments = x.kept;
    dense = λ n. omega (arith, c.dense n, x.grown n);
    state = c.state;
    facts = elim [
      | movement ↦ c.facts movement
      | custody ↦ c.facts custody
      | ownership ↦ c.facts ownership
    ];
    assignment = ground (arith, x.head);
  }

  pub write-IsCoherent :
      (f : PhysicalFact) (rows : List (Event ℕ)) (e : Event ℕ)
      → Extends l.asset.version w (history f l) rows e
      → IsCoherent (write f l rows e.target w)
  unfolding stated_state stated_fact stated_assignment producers
  write-IsCoherent movement rows e x = record {
    creation = c.creation;
    witness = c.witness;
    transitions = IsKept-mono l.asset.version w l.transitions x.later c.transitions;
    physical = elim [
      | movement ↦ x.kept
      | custody ↦ others x.later custody
      | ownership ↦ others x.later ownership
    ];
    assignments = IsKept-mono l.asset.version w l.assignment_events x.later c.assignments;
    dense = λ n. omega (arith, c.dense n, x.grown n);
    state = c.state;
    facts = elim [
      | movement ↦ ground (arith, x.head, c.creation)
      | custody ↦ c.facts custody
      | ownership ↦ c.facts ownership
    ];
    assignment = c.assignment;
  }
  write-IsCoherent custody rows e x = record {
    creation = c.creation;
    witness = c.witness;
    transitions = IsKept-mono l.asset.version w l.transitions x.later c.transitions;
    physical = elim [
      | movement ↦ others x.later movement
      | custody ↦ x.kept
      | ownership ↦ others x.later ownership
    ];
    assignments = IsKept-mono l.asset.version w l.assignment_events x.later c.assignments;
    dense = λ n. omega (arith, c.dense n, x.grown n);
    state = c.state;
    facts = elim [
      | movement ↦ c.facts movement
      | custody ↦ ground (arith, x.head, c.creation)
      | ownership ↦ c.facts ownership
    ];
    assignment = c.assignment;
  }
  write-IsCoherent ownership rows e x = record {
    creation = c.creation;
    witness = c.witness;
    transitions = IsKept-mono l.asset.version w l.transitions x.later c.transitions;
    physical = elim [
      | movement ↦ others x.later movement
      | custody ↦ others x.later custody
      | ownership ↦ x.kept
    ];
    assignments = IsKept-mono l.asset.version w l.assignment_events x.later c.assignments;
    dense = λ n. omega (arith, c.dense n, x.grown n);
    state = c.state;
    facts = elim [
      | movement ↦ c.facts movement
      | custody ↦ c.facts custody
      | ownership ↦ ground (arith, x.head, c.creation)
    ];
    assignment = c.assignment;
  }
