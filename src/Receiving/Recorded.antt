-- ===== src/Receiving/Recorded.antt =====
-- What holds of everything that the receiving services have recorded.
use mathlib.Core.Path.{subst}
use defiant_fleet_ops.Base.{
  ℕ, ◌≤◌, ◌≡◌, inl, inr, refl, arith, true, false, List, [], ◌∷◌, ◌==◌, ==_eq, has, count, All,
  All-map, Bool-cases, Option-cases,
}
use defiant_fleet_ops.Ledger.Invariant.{IsCoherent}
use defiant_fleet_ops.Receiving.Books.{Comparator, ReceiptLine, ReceivedAsset, Books}
use defiant_fleet_ops.Receiving.Guards.{line_bound}
use defiant_fleet_ops.Receiving.Units.{exception_shape}
use defiant_fleet_ops.Receiving.Recording.{Steps, unchanged, stepped}
use defiant_fleet_ops.Receiving.Entries.{
  IsFit, Entry, receipt_entered, comparator_entered, line_entered, asset_entered, exception_entered,
  reconciliation_entered, Entries, no_entry, then_entry,
}
use defiant_fleet_ops.Receiving.Performed.{Step-Entries}

pub record IsRecorded (b : Books) : Type 0 where
  pub fit : All (IsFit b.comparators) b.lines
  pub coherent : All (λ (a : ReceivedAsset). IsCoherent a.ledger) b.assets
  pub shaped : All (λ e. exception_shape e ≡ true) b.exceptions
  pub once : (i : ℕ) → count i b.reconciliations ≤ 1

bound_still :
    (k : Comparator) (comparators : List Comparator) (l : ReceiptLine)
    → line_bound comparators l ≡ true
    → line_bound (k ∷ comparators) l ≡ true
bound_still k comparators l h = elim (Option-cases l.line.po_line_id) [
  | inl unordered ↦ rw unordered refl
  | inr (p, ordered) ↦ ground (arith, ordered)
]

has-count : (i : ℕ) (ids : List ℕ) → has i ids ≡ false → count i ids ≡ 0
has-count i [] h = refl
has-count i (k ∷ ids) h = ground (arith, has-count i ids)

Entry-IsRecorded : (b b' : Books) → IsRecorded b → Entry b b' → IsRecorded b'
Entry-IsRecorded b b' w (receipt_entered r same) =
    subst IsRecorded same
      record { fit = w.fit; coherent = w.coherent; shaped = w.shaped; once = w.once }
Entry-IsRecorded b b' w (comparator_entered k open_receipt same) = subst IsRecorded same record {
  fit = All-map (λ l f. (f.0, bound_still k b.comparators l f.1, f.2)) b.lines w.fit;
  coherent = w.coherent;
  shaped = w.shaped;
  once = w.once;
}
Entry-IsRecorded b b' w (line_entered l open_receipt fit same) =
    subst IsRecorded same
      record { fit = (fit, w.fit); coherent = w.coherent; shaped = w.shaped; once = w.once }
Entry-IsRecorded b b' w (asset_entered a i coherent same) =
    subst IsRecorded same
      record { fit = w.fit; coherent = (coherent, w.coherent); shaped = w.shaped; once = w.once }
Entry-IsRecorded b b' w (exception_entered e shape same) =
    subst IsRecorded same
      record { fit = w.fit; coherent = w.coherent; shaped = (shape, w.shaped); once = w.once }
Entry-IsRecorded b b' w (reconciliation_entered k open_receipt same) =
    let none_yet = has-count k b.reconciliations open_receipt in
    subst IsRecorded same record {
      fit = w.fit;
      coherent = w.coherent;
      shaped = w.shaped;
      once = λ i.
          let before = w.once i in
          elim (Bool-cases (k == i)) [
            | inr other ↦ rw other before
            | inl here ↦
                let here_none : count i b.reconciliations ≡ 0 =
                  subst (λ (x : ℕ). count x b.reconciliations ≡ 0) (==_eq k i here) none_yet in
                rw here (omega (arith, here_none))
          ];
    }

Entries-IsRecorded : (b b' : Books) → IsRecorded b → Entries b b' → IsRecorded b'
Entries-IsRecorded b b' w no_entry = w
Entries-IsRecorded b b' w (then_entry b1 _ before one) =
    Entry-IsRecorded b1 b' (Entries-IsRecorded b b1 w before) one

-- Whatever accepted operations follow, in whatever order: each line has the shape of a serialized unit or of
-- goods without one, a serialized line counts exactly one, and a line of an order names a comparator of
-- its own receipt; each Asset that receiving creates has a coherent history; each exception has the
-- relationships that its type asks for; and no receipt is reconciled twice.
pub Steps-IsRecorded : (b b' : Books) → IsRecorded b → Steps b b' → IsRecorded b'
Steps-IsRecorded b b' w unchanged = w
Steps-IsRecorded b b' w (stepped b1 _ before step) =
    Entries-IsRecorded b1 b' (Steps-IsRecorded b b1 w before) (Step-Entries b1 b' step)
