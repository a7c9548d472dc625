-- ===== src/Receiving/Entries.antt =====
-- The elementary entries of the receiving tables, of which every operation is made.
use defiant_fleet_ops.Base.{
  ℕ, ◌≡◌, inl, inr, arith, true, false, not, ◌||◌, List, ◌∷◌, ◌==◌, Option-cases, Result-cases, ok,
}
use defiant_fleet_ops.Ledger.{Session, performer}
use defiant_fleet_ops.Ledger.Invariant.{IsCoherent}
use defiant_fleet_ops.Receiving.{Identifier, one_piece}
use defiant_fleet_ops.Receiving.Books.{
  Receipt, Comparator, ReceiptLine, ReceivingException, ReceivedAsset, Books, Catalog, Item,
  find_item, is_reconciled,
}
use defiant_fleet_ops.Receiving.Guards.{
  insert_receipt, lock_receiving_context, admit_comparator, insert_comparator, insert_line,
  insert_reconciliation, unit_shape, line_bound, admit_line, with_item,
}
use defiant_fleet_ops.Receiving.Units.{insert_exception, exception_shape, supported}

-- What the guard has found of a line.
abbrev pub IsFit : List Comparator → ReceiptLine → Type 0
IsFit comparators l =
    (unit_shape l ≡ true)
    × (line_bound comparators l ≡ true)
    × ((not l.line.serialized || l.line.quantity == one_piece) ≡ true)

-- One row, or an Asset with its identifier; what belongs to a receipt finds it open.
pub data Entry (b b' : Books) : Type 0 where
  receipt_entered : (r : Receipt) → record b { receipts = r ∷ b.receipts } ≡ b' → Entry b b'
  comparator_entered :
      (k : Comparator)
      → is_reconciled k.receipt_id b ≡ false
      → record b { comparators = k ∷ b.comparators } ≡ b'
      → Entry b b'
  line_entered :
      (l : ReceiptLine)
      → is_reconciled l.receipt_id b ≡ false
      → IsFit b.comparators l
      → record b { lines = l ∷ b.lines } ≡ b'
      → Entry b b'
  asset_entered :
      (a : ReceivedAsset) (i : Identifier)
      → IsCoherent a.ledger
      → record b { assets = a ∷ b.assets; identifiers = i ∷ b.identifiers } ≡ b'
      → Entry b b'
  exception_entered :
      (e : ReceivingException)
      → exception_shape e ≡ true
      → record b { exceptions = e ∷ b.exceptions } ≡ b'
      → Entry b b'
  reconciliation_entered :
      (i : ℕ)
      → is_reconciled i b ≡ false
      → record b { reconciliations = i ∷ b.reconciliations } ≡ b'
      → Entry b b'

pub data Entries (b : Books) : Books → Type 0 where
  no_entry : Entries b b
  then_entry : (b1 b2 : Books) → Entries b b1 → Entry b1 b2 → Entries b b2

admitted_line-IsFit :
    (s : Session) (c : Catalog) (r : Receipt) (m : Item) (l : ReceiptLine) (b : Books)
    → admit_line s c r m l b ≡ ok tt
    → IsFit b.comparators (with_item m l)
unfolding admit_line
admitted_line-IsFit s c r m l b h = elim (Result-cases (performer s)) [
  | inr (e, refused) ↦ ground (arith, refused)
  | inl (who, act) ↦ (ground (arith, act), ground (arith, act), ground (arith, act))
]

pub insert_line-Entry :
    (s : Session) (c : Catalog) (l row : ReceiptLine) (b b' : Books)
    → insert_line s c l b ≡ ok (row, b')
    → Entry b b'
unfolding insert_line
insert_line-Entry s c l row b b' h = elim (Result-cases (lock_receiving_context s l.receipt_id b)) [
  | inr (e, refused) ↦ ground (arith, refused)
  | inl (r, locked) ↦
      let open_receipt : is_reconciled l.receipt_id b ≡ false = ground (arith, locked) in
      elim (Option-cases (find_item l.line.item_id c.items)) [
        | inl missing ↦ ground (arith, locked, missing)
        | inr (m, found) ↦ elim (Result-cases (admit_line s c r m l b)) [
          | inr (e, refused) ↦ ground (arith, locked, found, refused)
          | inl (tt, fit) ↦
              line_entered (with_item m l) open_receipt (admitted_line-IsFit s c r m l b fit)
                (ground (arith, locked, found, fit))
        ]
      ]
]

pub insert_comparator-Entry :
    (s : Session) (c : Catalog) (k : Comparator) (b b' : Books)
    → insert_comparator s c k b ≡ ok b'
    → Entry b b'
unfolding insert_comparator
insert_comparator-Entry s c k b b' h =
    elim (Result-cases (lock_receiving_context s k.receipt_id b)) [
      | inr (e, refused) ↦ ground (arith, refused)
      | inl (r, locked) ↦ elim (Result-cases (admit_comparator c r k.po_line_id)) [
        | inr (e, refused) ↦ ground (arith, locked, refused)
        | inl (o, current) ↦ elim (Result-cases (performer s)) [
          | inr (e, refused) ↦ ground (arith, locked, current, refused)
          | inl (who, act) ↦
              comparator_entered k (ground (arith, locked)) (ground (arith, locked, current, act))
        ]
      ]
    ]

pub insert_exception-Entry :
    (s : Session) (c : Catalog) (e : ReceivingException) (b b' : Books)
    → insert_exception s c e b ≡ ok b'
    → Entry b b'
unfolding insert_exception
insert_exception-Entry s c e b b' h =
    elim (Result-cases (lock_receiving_context s e.receipt_id b)) [
      | inr (f, refused) ↦ ground (arith, refused)
      | inl (r, locked) ↦ elim (Result-cases (supported c b e)) [
        | inr (f, refused) ↦ ground (arith, locked, refused)
        | inl (done, backed) ↦ elim (Result-cases (performer s)) [
          | inr (f, refused) ↦ ground (arith, locked, backed, refused)
          | inl (who, act) ↦
              exception_entered e (ground (arith, locked, backed))
                (ground (arith, locked, backed, act))
        ]
      ]
    ]

pub insert_reconciliation-Entry :
    (s : Session) (i : ℕ) (b b' : Books) → insert_reconciliation s i b ≡ ok b' → Entry b b'
unfolding insert_reconciliation
insert_reconciliation-Entry s i b b' h = elim (Result-cases (lock_receiving_context s i b)) [
  | inr (e, refused) ↦ ground (arith, refused)
  | inl (r, locked) ↦ elim (Result-cases (performer s)) [
    | inr (e, refused) ↦ ground (arith, locked, refused)
    | inl (who, act) ↦
        reconciliation_entered i (ground (arith, locked)) (ground (arith, locked, act))
  ]
]

pub insert_receipt-Entry :
    (s : Session) (c : Catalog) (r : Receipt) (b b' : Books)
    → insert_receipt s c r b ≡ ok b'
    → Entry b b'
unfolding insert_receipt
insert_receipt-Entry s c r b b' h = elim (Result-cases (performer s)) [
  | inr (e, refused) ↦ ground (arith, refused)
  | inl (who, act) ↦ receipt_entered r (ground (arith, act))
]
