-- ===== src/Procurement/Steps.antt =====
-- The accepted operations on the orders and lines of an organization, in whatever order.
use defiant_fleet_ops.Base.{ℕ, Bool, Option, ok, ◌≡◌}
use defiant_fleet_ops.Ledger.{Session}
use defiant_fleet_ops.Procurement.{Order, Line, Reference, Tables}
use defiant_fleet_ops.Procurement.Services.{
  OrderValues, OrderEdit, LineValues, LineEdit, create_order, update_order, issue_order,
  create_line, update_line,
}

pub data Step (t : Tables) : Tables → Type 0 where
  order_created :
      (s : Session) (r : Reference) (now id who : ℕ) (v : OrderValues) (t' : Tables)
      → create_order s r now t id who v ≡ ok t'
      → Step t t'
  order_updated :
      (s : Session) (r : Reference) (now po_id : ℕ) (v : OrderEdit) (o : Order) (t' : Tables)
      → update_order s r now t po_id v ≡ ok (o, t')
      → Step t t'
  order_issued :
      (s : Session) (r : Reference) (now po_id : ℕ) (o : Order) (t' : Tables)
      → issue_order s r now t po_id ≡ ok (o, t')
      → Step t t'
  line_created :
      (s : Session) (r : Reference) (now id po_id who : ℕ) (predecessor_id : Option ℕ)
      (v : LineValues) (row : Line × Bool) (t' : Tables)
      → create_line s r now t id po_id who predecessor_id v ≡ ok (row, t')
      → Step t t'
  line_updated :
      (s : Session) (r : Reference) (now po_id line_id : ℕ) (v : LineEdit) (row : Line × Bool)
      (t' : Tables)
      → update_line s r now t po_id line_id v ≡ ok (row, t')
      → Step t t'

pub data Steps (t : Tables) : Tables → Type 0 where
  unchanged : Steps t t
  stepped : (t1 t2 : Tables) → Steps t t1 → Step t1 t2 → Steps t t2
