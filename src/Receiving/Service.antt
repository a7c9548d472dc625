-- ===== src/Receiving/Service.antt =====
-- server/fleetops/domain/receiving.py: the services that record a receipt, append a line and close the
-- population of a receipt. Generated identifiers are part of the values.
use defiant_fleet_ops.Base.{
  ℕ, Bool, true, false, not, ◌&&◌, ◌||◌, Option, none, some, List, [], ◌∷◌, ◌==◌, any, find,
  is_some, is_none, has, Result, ok, err, guard, ◌>>=◌, ◌>>◌, sql, unique_violation,
  serialization_failure, deadlock_detected, not_null_violation, foreign_key_violation,
  check_violation, insufficient_privilege, numeric_out_of_range, datetime_overflow,
  receiving_not_found, receiving_conflict, receiving_invalid, if◌then◌else◌,
}
use defiant_fleet_ops.Text.{Text}
use defiant_fleet_ops.Ledger.{Session}
use defiant_fleet_ops.Receiving.{
  ExceptionType, kind_eq, quantity_variance, serial_mismatch, Condition, line_exceptions,
  quantity_exception, one_piece,
}
use defiant_fleet_ops.Receiving.Books.{
  Receipt, Comparator, ReceiptLine, ReceivingException, Books, Ordered, Item, Catalog, find_receipt,
  find_item, context_of, is_reconciled,
}
use defiant_fleet_ops.Receiving.Guards.{
  lock_receiving_context, insert_comparator, insert_line, insert_reconciliation,
}
use defiant_fleet_ops.Receiving.Units.{
  insert_exception, is_bound, received_lines, ReceivedObservation, reading_of, reads,
  create_received_unit,
}

-- `constraints`; any other failure is raised as it is.
unfoldable pub constraints {ℓ} : {A : Type ℓ} → Result A → Result A
constraints (err (sql serialization_failure)) = err receiving_conflict
constraints (err (sql deadlock_detected)) = err receiving_conflict
constraints (err (sql unique_violation)) = err receiving_conflict
constraints (err (sql not_null_violation)) = err receiving_invalid
constraints (err (sql foreign_key_violation)) = err receiving_invalid
constraints (err (sql check_violation)) = err receiving_invalid
constraints (err (sql insufficient_privilege)) = err receiving_invalid
constraints (err (sql numeric_out_of_range)) = err receiving_invalid
constraints (err (sql datetime_overflow)) = err receiving_invalid
constraints r = r

abbrev pub header : Books → ℕ → Result Receipt
header b receipt_id = elim (find_receipt receipt_id b.receipts) [
  | none ↦ err receiving_not_found
  | some r ↦ ok r
]

unfoldable pub lock : Session → Books → ℕ → Result Receipt
unfolding lock_receiving_context
lock s b receipt_id = do found ← header b receipt_id; lock_receiving_context s receipt_id b

abbrev pub require_open : Books → ℕ → Result (Unit {0})
require_open b receipt_id = guard (not (is_reconciled receipt_id b)) receiving_conflict

-- The generation of the latest correction of an order line.
abbrev pub generation_of : Catalog → ℕ → ℕ
generation_of c po_line_id = elim (find (λ o. o.line.id == po_line_id) c.order_lines) [
  | none ↦ 0
  | some o ↦ o.generation
]

unfoldable pub bind_comparator : Session → Catalog → Receipt → ℕ → ℕ → Books → Result Books
unfolding insert_comparator
bind_comparator s c r line_id expected_generation b = do
  guard (is_some r.po_id) receiving_invalid
  let k : Comparator = record {
    receipt_id = r.id;
    po_line_id = line_id;
    source_generation = expected_generation;
  }
  let bound = insert_comparator s c k b
  if any (λ j. j.receipt_id == r.id && j.po_line_id == line_id) b.comparators
      then ok b
      else (guard (generation_of c line_id == expected_generation) receiving_conflict >> bound)

-- `_exception` for a line.
abbrev pub line_exception : ReceiptLine → Option ℕ → ExceptionType → ReceivingException
line_exception l conflict kind = record {
  exception_type = kind;
  receipt_id = l.receipt_id;
  receipt_line_id = some l.line.id;
  po_line_id = l.line.po_line_id;
  asset_id =
      if kind_eq kind quantity_variance || kind_eq kind serial_mismatch
      then none
      else l.line.asset_id;
  conflicting_asset_id = if kind_eq kind serial_mismatch then conflict else none;
}

-- `_exception` for a comparator.
abbrev pub aggregate_exception : ℕ → ℕ → ExceptionType → ReceivingException
aggregate_exception receipt_id po_line_id kind = record {
  exception_type = kind;
  receipt_id = receipt_id;
  receipt_line_id = none;
  po_line_id = some po_line_id;
  asset_id = none;
  conflicting_asset_id = none;
}

unfoldable pub insert_exceptions :
    Session → Catalog → List ReceivingException → Books → Result Books
insert_exceptions s c [] b = ok b
insert_exceptions s c (e ∷ exceptions) b =
    insert_exception s c e b >>= λ b1. insert_exceptions s c exceptions b1

abbrev pub as_rows : ReceiptLine → Option ℕ → List ExceptionType → List ReceivingException
as_rows l conflict [] = []
as_rows l conflict (k ∷ kinds) = line_exception l conflict k ∷ as_rows l conflict kinds

unfoldable pub record_exceptions :
    Session → Catalog → ReceiptLine → Bool → Option ℕ → Books → Result Books
unfolding insert_exceptions
record_exceptions s c l unreadable conflict b = do
  kinds ← line_exceptions (context_of c b) l.line unreadable conflict
  insert_exceptions s c (as_rows l conflict kinds) b

pub record LineValues : Type 0 where
  pub id : ℕ
  pub asset_id : ℕ
  pub transition_id : ℕ
  pub po_line_id : Option ℕ
  pub expected_po_generation : ℕ
  pub item_id : ℕ
  pub quantity : ℕ
  pub uom : Text
  pub condition : Condition
  pub packing_quantity : Option ℕ
  pub unit : Option ReceivedObservation

-- The row without what a serialized unit adds; its guard sets the serialization.
abbrev pub plain_line : ℕ → LineValues → ReceiptLine
plain_line receipt_id v = record {
  receipt_id = receipt_id;
  line = record {
    id = v.id;
    po_line_id = v.po_line_id;
    item_id = v.item_id;
    quantity = v.quantity;
    uom = v.uom;
    condition = v.condition;
    packing_quantity = v.packing_quantity;
    serialized = false;
    asset_id = none;
    observed = none;
  };
  owner_party_id = none;
  custodian_party_id = none;
}

-- The Asset that already has the identifier of a unit.
abbrev pub conflict_of : Books → ReceivedObservation → Option ℕ
conflict_of b u = elim (reading_of u.identifier) [
  | none ↦ none
  | some o ↦ elim (find (reads o) b.identifiers) [ none ↦ none | some i ↦ some i.asset_id ]
]

abbrev pub known_party : Catalog → Option ℕ → Bool
known_party c none = true
known_party c (some p) = has p c.parties

-- The line of a unit whose identifier an Asset already has.
abbrev pub conflicting_line : ReceivedObservation → ReceiptLine → ReceiptLine
conflicting_line u l = record l {
  line = record l.line { observed = reading_of u.identifier };
  owner_party_id = u.owner_party_id;
  custodian_party_id = u.custodian_party_id;
}

-- The line of a serialized unit.
unfoldable pub record_unit :
    Session
    → Catalog
    → Receipt
    → LineValues
    → ReceivedObservation
    → Books
    → Result (ReceiptLine × Books)
unfolding insert_line create_received_unit
record_unit s c r v u b = do
  guard (known_party c u.owner_party_id && known_party c u.custodian_party_id) receiving_invalid
  let l = plain_line r.id v
  if is_some (conflict_of b u)
      then insert_line s c (conflicting_line u l) b
      else create_received_unit s c v.asset_id v.transition_id u l b

abbrev pub is_unreadable : Books → ReceivedObservation → Bool
is_unreadable b u = is_none (conflict_of b u) && is_none u.identifier.value

unfoldable pub bind_line : Session → Catalog → Receipt → LineValues → Books → Result Books
unfolding bind_comparator
bind_line s c r v b = elim v.po_line_id [
  | none ↦ ok b
  | some p ↦ bind_comparator s c r p v.expected_po_generation b
]

-- The line of an Item, where its unit and its quantity fit.
unfoldable pub observe_line :
    Session → Catalog → Receipt → Item → LineValues → Books → Result (ReceiptLine × Books)
unfolding insert_line record_unit
observe_line s c r m v b = do
  guard ((m.serialized && is_some v.unit) || (not m.serialized && is_none v.unit)) receiving_invalid
  guard (not m.serialized || v.quantity == one_piece) receiving_invalid
  elim v.unit [ none ↦ insert_line s c (plain_line r.id v) b | some u ↦ record_unit s c r v u b ]

abbrev pub unit_unreadable : Books → LineValues → Bool
unit_unreadable b v = elim v.unit [ none ↦ false | some u ↦ is_unreadable b u ]

abbrev pub unit_conflict : Books → LineValues → Option ℕ
unit_conflict b v = elim v.unit [ none ↦ none | some u ↦ conflict_of b u ]

-- `_record_line`; the conflict is looked up before the line is inserted.
unfoldable pub record_line :
    Session → Catalog → Receipt → LineValues → Books → Result (ReceiptLine × Books)
unfolding bind_line observe_line record_exceptions
record_line s c r v b = do
  b1 ← bind_line s c r v b
  m ← elim (find_item v.item_id c.items) [ none ↦ err receiving_invalid | some m ↦ ok m ]
  made ← observe_line s c r m v b1
  b2 ← record_exceptions s c made.0 (unit_unreadable b1 v) (unit_conflict b1 v) made.1
  ok (made.0, b2)

-- The quantity exceptions of the comparators of a receipt.
unfoldable pub quantity_exceptions : ℕ → List Ordered → Books → List ReceivingException
quantity_exceptions receipt_id [] b = []
quantity_exceptions receipt_id (p ∷ targets) b =
    let rest = quantity_exceptions receipt_id targets b in
    if is_bound b receipt_id (some p.line.id)
    then elim (quantity_exception p.line (received_lines receipt_id b)) [
      | none ↦ rest
      | some kind ↦ aggregate_exception receipt_id p.line.id kind ∷ rest
    ]
    else rest

-- `_reconcile`
unfoldable pub reconcile : Session → Catalog → Receipt → Books → Result Books
unfolding insert_reconciliation insert_exceptions quantity_exceptions
reconcile s c r b = do
  require_open b r.id
  b1 ← insert_reconciliation s r.id b
  insert_exceptions s c (quantity_exceptions r.id c.order_lines b1) b1
