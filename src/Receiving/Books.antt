-- ===== src/Receiving/Books.antt =====
-- The receiving tables of one organization: define_receiving_tables of
-- server/alembic/versions/0010_receiving.py, with the source generation of a comparator that 0011 adds. Notes,
-- the descriptions of Assets and the actor columns are left out.
use defiant_fleet_ops.Base.{ℕ, Bool, Option, List, ◌==◌, find, has, keep, map}
use defiant_fleet_ops.Text.{Text}
use defiant_fleet_ops.Ledger.{Ledger}
use defiant_fleet_ops.Receiving.{ExceptionType, Identifier, Line, OrderLine, Context}

pub record Receipt : Type 0 where
  pub id : ℕ
  pub vendor_party_id : ℕ
  pub po_id : Option ℕ
  pub dock_location_id : Option ℕ
  pub packing_reference : Option Text
  pub received_at : ℕ

pub record Comparator : Type 0 where
  pub receipt_id : ℕ
  pub po_line_id : ℕ
  pub source_generation : ℕ

-- A row of receipt_lines: what classification reads of it, and the rest.
pub record ReceiptLine : Type 0 where
  pub receipt_id : ℕ
  pub line : Line
  pub owner_party_id : Option ℕ
  pub custodian_party_id : Option ℕ

pub record ReceivingException : Type 0 where
  pub exception_type : ExceptionType
  pub receipt_id : ℕ
  pub receipt_line_id : Option ℕ
  pub po_line_id : Option ℕ
  pub asset_id : Option ℕ
  pub conflicting_asset_id : Option ℕ

pub record ReceivedAsset : Type 0 where
  pub item_id : ℕ
  pub asset_tag : Text
  pub ledger : Ledger

-- The newest row first. A reconciliation is the identifier of its receipt.
pub record Books : Type 0 where
  pub receipts : List Receipt
  pub comparators : List Comparator
  pub lines : List ReceiptLine
  pub reconciliations : List ℕ
  pub exceptions : List ReceivingException
  pub assets : List ReceivedAsset
  pub identifiers : List Identifier

-- An effective order line with its order, the generation of its latest correction, and whether
-- another version supersedes it.
pub record Ordered : Type 0 where
  pub line : OrderLine
  pub po_id : ℕ
  pub generation : ℕ
  pub superseded : Bool

pub record Order : Type 0 where
  pub id : ℕ
  pub issued : Bool

pub record Item : Type 0 where
  pub id : ℕ
  pub serialized : Bool

-- The rows of other tables that the guards read.
pub record Catalog : Type 0 where
  pub vendors : List ℕ
  pub parties : List ℕ
  pub locations : List ℕ
  pub items : List Item
  pub orders : List Order
  pub order_lines : List Ordered

abbrev pub find_receipt : ℕ → List Receipt → Option Receipt
find_receipt i = find (λ r. r.id == i)

abbrev pub find_item : ℕ → List Item → Option Item
find_item i = find (λ m. m.id == i)

abbrev pub context_of : Catalog → Books → Context
context_of c b = record {
  order_lines = map (λ (o : Ordered). o.line) c.order_lines;
  identifiers = b.identifiers;
}

abbrev pub lines_of : ℕ → Books → List ReceiptLine
lines_of receipt_id b = keep (λ l. l.receipt_id == receipt_id) b.lines

abbrev pub comparators_of : ℕ → Books → List Comparator
comparators_of receipt_id b = keep (λ k. k.receipt_id == receipt_id) b.comparators

abbrev pub is_reconciled : ℕ → Books → Bool
is_reconciled receipt_id b = has receipt_id b.reconciliations
