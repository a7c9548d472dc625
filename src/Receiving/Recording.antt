-- ===== src/Receiving/Recording.antt =====
-- The three operations of server/fleetops/domain/receiving.py with their transactions: what one inserts is
-- checked for completeness before it is accepted.
use defiant_fleet_ops.Base.{
  ℕ, Bool, true, false, Option, none, some, List, [], ◌∷◌, all, Result, ok, guard, ◌>>=◌, ◌>>◌, sql,
  check_violation, if◌then◌else◌, ◌≡◌,
}
use defiant_fleet_ops.Ledger.{Session}
use defiant_fleet_ops.Receiving.Books.{Receipt, ReceiptLine, Books, Catalog, lines_of}
use defiant_fleet_ops.Receiving.Guards.{insert_receipt}
use defiant_fleet_ops.Receiving.Units.{line_complete, quantities_complete}
use defiant_fleet_ops.Receiving.Service.{
  constraints, lock, require_open, bind_comparator, LineValues, record_line, reconcile,
}

-- `_validate_complete` for the lines and the reconciliation that a transaction has inserted.
unfoldable pub validate_complete : Catalog → List ReceiptLine → Option ℕ → Books → Result (Unit {0})
unfolding line_complete quantities_complete
validate_complete c lines reconciled b = do
  guard (all (line_complete c b) lines) (sql check_violation)
  guard (elim reconciled [ none ↦ true | some r ↦ quantities_complete c b r ]) (sql check_violation)

-- The comparators of a new receipt with the generation that each expects.
unfoldable pub bind_all : Session → Catalog → Receipt → List (ℕ × ℕ) → Books → Result Books
unfolding bind_comparator
bind_all s c r [] b = ok b
bind_all s c r (k ∷ bindings) b =
    bind_comparator s c r k.0 k.1 b >>= λ b1. bind_all s c r bindings b1

unfoldable pub record_all : Session → Catalog → Receipt → List LineValues → Books → Result Books
unfolding record_line
record_all s c r [] b = ok b
record_all s c r (v ∷ lines) b = record_line s c r v b >>= λ made. record_all s c r lines made.1

pub record ReceiptValues : Type 0 where
  pub receipt : Receipt
  pub bindings : List (ℕ × ℕ)
  pub lines : List LineValues
  pub reconcile_now : Bool

abbrev pub close_if : Bool → Session → Catalog → Receipt → Books → Result Books
close_if true s c r b = reconcile s c r b
close_if false s c r b = ok b

-- The transactions, before their failures are translated.
module _ (s : Session) (c : Catalog) (b : Books) where
  unfoldable pub capture_receipt : ReceiptValues → Result Books
  unfolding insert_receipt bind_all record_all reconcile validate_complete
  capture_receipt v = do
    b1 ← insert_receipt s c v.receipt b
    b2 ← bind_all s c v.receipt v.bindings b1
    b3 ← record_all s c v.receipt v.lines b2
    b4 ← close_if v.reconcile_now s c v.receipt b3
    validate_complete c (lines_of v.receipt.id b4)
        (if v.reconcile_now then some v.receipt.id else none) b4
    ok b4

  unfoldable pub append_line : ℕ → LineValues → Result Books
  unfolding lock record_line validate_complete
  append_line receipt_id v = do
    r ← lock s b receipt_id
    require_open b receipt_id
    made ← record_line s c r v b
    validate_complete c (made.0 ∷ []) none made.1
    ok made.1

  unfoldable pub close_receipt : ℕ → Result Books
  unfolding lock reconcile validate_complete
  close_receipt receipt_id = do
    r ← lock s b receipt_id
    b1 ← reconcile s c r b
    validate_complete c [] (some receipt_id) b1
    ok b1

  -- `comparator_ids` are the bindings that expect generation 0, and stand first.
  unfoldable pub create_receipt : ReceiptValues → Result Books
  unfolding capture_receipt constraints
  create_receipt v = constraints (capture_receipt v)

  unfoldable pub add_line : ℕ → LineValues → Result Books
  unfolding append_line constraints
  add_line receipt_id v = constraints (append_line receipt_id v)

  unfoldable pub reconcile_receipt : ℕ → Result Books
  unfolding close_receipt constraints
  reconcile_receipt receipt_id = constraints (close_receipt receipt_id)

-- The accepted operations, in whatever order, each with the catalog as it then is.
pub data Step (b : Books) : Books → Type 0 where
  created :
      (s : Session) (c : Catalog) (v : ReceiptValues) (b' : Books)
      → create_receipt s c b v ≡ ok b'
      → Step b b'
  appended :
      (s : Session) (c : Catalog) (receipt_id : ℕ) (v : LineValues) (b' : Books)
      → add_line s c b receipt_id v ≡ ok b'
      → Step b b'
  reconciled :
      (s : Session) (c : Catalog) (receipt_id : ℕ) (b' : Books)
      → reconcile_receipt s c b receipt_id ≡ ok b'
      → Step b b'

pub data Steps (b : Books) : Books → Type 0 where
  unchanged : Steps b b
  stepped : (b1 b2 : Books) → Steps b b1 → Step b1 b2 → Steps b b2
