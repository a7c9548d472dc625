-- ===== src/Tests/Received.antt =====
-- A receipt of an order with a serialized unit that nobody ordered, closed one piece short.
use defiant_fleet_ops.Base.{
  ℕ, ◌≡◌, ◌≤◌, refl, arith, Bool, true, false, Option, none, some, List, [], ◌∷◌, ok, err, Result,
  zero, receiving_conflict, value_or,
}
use defiant_fleet_ops.Text.{codes}
use defiant_fleet_ops.Receiving.{
  Condition, good, Line, OrderLine, short, unexpected_item, ExceptionType, one_piece,
}
use defiant_fleet_ops.Receiving.Books.{Receipt, Books, Catalog, is_reconciled}
use defiant_fleet_ops.Receiving.Units.{ReceivedObservation, UnitIdentifier}
use defiant_fleet_ops.Receiving.Service.{LineValues}
use defiant_fleet_ops.Receiving.Recording.{
  ReceiptValues, create_receipt, add_line, reconcile_receipt, Steps, unchanged, stepped, created,
  appended, reconciled,
}
use defiant_fleet_ops.Receiving.Recorded.{IsRecorded, Steps-IsRecorded}
use defiant_fleet_ops.Tests.Samples.{session}

abbrev catalog : Catalog
catalog = record {
  vendors = 3 ∷ [];
  parties = 3 ∷ 4 ∷ [];
  locations = 9 ∷ [];
  items = record { id = 20; serialized = true } ∷ record { id = 21; serialized = false } ∷ [];
  orders = record { id = 50; issued = true } ∷ [];
  order_lines =
      record {
        line = record { id = 60; item_id = 21; uom = codes "EA"; quantity = 4 };
        po_id = 50;
        generation = 0;
        superseded = false;
      }
      ∷ [];
}

abbrev empty : Books
empty = record {
  receipts = [];
  comparators = [];
  lines = [];
  reconciliations = [];
  exceptions = [];
  assets = [];
  identifiers = [];
}

abbrev delivery : ℕ → Receipt
delivery id = record {
  id = id;
  vendor_party_id = 3;
  po_id = some 50;
  dock_location_id = some 9;
  packing_reference = none;
  received_at = 100;
}

abbrev pieces : ℕ → ℕ → LineValues
pieces id quantity = record {
  id = id;
  asset_id = 0;
  transition_id = 0;
  po_line_id = some 60;
  expected_po_generation = 0;
  item_id = 21;
  quantity = quantity;
  uom = codes "EA";
  condition = good;
  packing_quantity = none;
  unit = none;
}

abbrev pump : LineValues
pump = record {
  id = 71;
  asset_id = 30;
  transition_id = 31;
  po_line_id = none;
  expected_po_generation = 0;
  item_id = 20;
  quantity = one_piece;
  uom = codes "EA";
  condition = good;
  packing_quantity = none;
  unit = some record {
    asset_tag = codes "T-30";
    owner_party_id = some 4;
    custodian_party_id = none;
    identifier = record { type = codes "MAC"; value = some (codes "00") };
  };
}

abbrev opened_with : ℕ → List LineValues → ReceiptValues
opened_with id lines = record {
  receipt = delivery id;
  bindings = [];
  lines = lines;
  reconcile_now = false;
}

abbrev first : Books
first = value_or empty (create_receipt session catalog empty (opened_with 1 (pieces 70 3 ∷ [])))

abbrev second : Books
second = value_or empty (add_line session catalog first 1 pump)

abbrev closed : Books
closed = value_or empty (reconcile_receipt session catalog second 1)

abbrev later : Books
later = value_or empty (create_receipt session catalog closed (opened_with 2 (pieces 72 1 ∷ [])))

receipt-created : create_receipt session catalog empty (opened_with 1 (pieces 70 3 ∷ [])) ≡ ok first
unfolding create_receipt defiant_fleet_ops.Ledger.performer
    defiant_fleet_ops.Receiving.line_exceptions defiant_fleet_ops.Receiving.required_exceptions
receipt-created = refl

line-appended : add_line session catalog first 1 pump ≡ ok second
unfolding add_line create_receipt defiant_fleet_ops.Ledger.performer
    defiant_fleet_ops.Receiving.line_exceptions defiant_fleet_ops.Receiving.required_exceptions
    defiant_fleet_ops.Receiving.Units.insert_exception defiant_fleet_ops.Receiving.line_supports
line-appended = refl

receipt-closed : reconcile_receipt session catalog second 1 ≡ ok closed
unfolding reconcile_receipt add_line create_receipt defiant_fleet_ops.Ledger.performer
    defiant_fleet_ops.Receiving.line_exceptions defiant_fleet_ops.Receiving.required_exceptions
    defiant_fleet_ops.Receiving.Units.insert_exception defiant_fleet_ops.Receiving.line_supports
    defiant_fleet_ops.Receiving.quantity_exception defiant_fleet_ops.Receiving.quantity_supports
    defiant_fleet_ops.Receiving.required_quantity
receipt-closed = refl

receipt-later : create_receipt session catalog closed (opened_with 2 (pieces 72 1 ∷ [])) ≡ ok later
unfolding create_receipt defiant_fleet_ops.Ledger.performer reconcile_receipt add_line
    defiant_fleet_ops.Receiving.line_exceptions defiant_fleet_ops.Receiving.required_exceptions
    defiant_fleet_ops.Receiving.Units.insert_exception defiant_fleet_ops.Receiving.line_supports
    defiant_fleet_ops.Receiving.quantity_exception defiant_fleet_ops.Receiving.quantity_supports
    defiant_fleet_ops.Receiving.required_quantity
receipt-later = refl

abbrev kinds_of : Books → List ExceptionType
kinds_of b = defiant_fleet_ops.Base.map (λ e. e.exception_type) b.exceptions

closed-kinds : kinds_of closed ≡ short ∷ unexpected_item ∷ []
unfolding reconcile_receipt add_line create_receipt defiant_fleet_ops.Ledger.performer
    defiant_fleet_ops.Receiving.line_exceptions defiant_fleet_ops.Receiving.required_exceptions
    defiant_fleet_ops.Receiving.Units.insert_exception defiant_fleet_ops.Receiving.line_supports
    defiant_fleet_ops.Receiving.quantity_exception defiant_fleet_ops.Receiving.quantity_supports
    defiant_fleet_ops.Receiving.required_quantity
closed-kinds = refl

-- A closed receipt takes no further line.
closed-refused : add_line session catalog closed 1 (pieces 73 1) ≡ err receiving_conflict
unfolding add_line reconcile_receipt create_receipt defiant_fleet_ops.Ledger.performer
    defiant_fleet_ops.Receiving.line_exceptions defiant_fleet_ops.Receiving.required_exceptions
    defiant_fleet_ops.Receiving.Units.insert_exception defiant_fleet_ops.Receiving.line_supports
    defiant_fleet_ops.Receiving.quantity_exception defiant_fleet_ops.Receiving.quantity_supports
    defiant_fleet_ops.Receiving.required_quantity
closed-refused = refl

closing : Steps empty closed
closing =
    stepped second closed
      (stepped first second
        (stepped empty first unchanged
          (created session catalog (opened_with 1 (pieces 70 3 ∷ [])) first receipt-created))
        (appended session catalog 1 pump second line-appended))
      (reconciled session catalog 1 closed receipt-closed)

closed-reconciled : is_reconciled 1 closed ≡ true
unfolding reconcile_receipt add_line create_receipt defiant_fleet_ops.Ledger.performer
    defiant_fleet_ops.Receiving.line_exceptions defiant_fleet_ops.Receiving.required_exceptions
    defiant_fleet_ops.Receiving.Units.insert_exception defiant_fleet_ops.Receiving.line_supports
    defiant_fleet_ops.Receiving.quantity_exception defiant_fleet_ops.Receiving.quantity_supports
    defiant_fleet_ops.Receiving.required_quantity
closed-reconciled = refl

empty-IsRecorded : IsRecorded empty
empty-IsRecorded = record { fit = tt; coherent = tt; shaped = tt; once = λ i. omega arith }

Steps-IsRecorded_example : IsRecorded closed
Steps-IsRecorded_example = Steps-IsRecorded empty closed empty-IsRecorded closing
