-- ===== src/Procurement/Services.antt =====
-- server/fleetops/domain/procurement.py: the services that author, issue and amend orders.
use defiant_fleet_ops.Base.{
  ℕ, Bool, not, ◌&&◌, Option, none, some, List, [], ◌==◌, any, find, is_none, Result, ok, err,
  guard, ◌>>=◌, ◌>>◌, sql, unique_violation, serialization_failure, deadlock_detected,
  not_null_violation, foreign_key_violation, check_violation, numeric_out_of_range,
  datetime_overflow, procurement_not_found, procurement_conflict, procurement_invalid,
  if◌then◌else◌,
}
use defiant_fleet_ops.Text.{Text}
use defiant_fleet_ops.Ledger.{Session}
use defiant_fleet_ops.Procurement.{
  draft, issued, is_draft, is_issued, Order, Line, Reference, Tables, find_order, succeeds,
  insert_order, update_order_row, insert_line, update_line_row,
}

-- `constraints`; any other failure is raised as it is.
unfoldable pub constraints {ℓ} : {A : Type ℓ} → Result A → Result A
constraints (err (sql unique_violation)) = err procurement_conflict
constraints (err (sql serialization_failure)) = err procurement_conflict
constraints (err (sql deadlock_detected)) = err procurement_conflict
constraints (err (sql not_null_violation)) = err procurement_invalid
constraints (err (sql foreign_key_violation)) = err procurement_invalid
constraints (err (sql check_violation)) = err procurement_invalid
constraints (err (sql numeric_out_of_range)) = err procurement_invalid
constraints (err (sql datetime_overflow)) = err procurement_invalid
constraints r = r

unfoldable pub get_order : Tables → ℕ → Result Order
get_order t po_id = elim (find_order po_id t.orders) [
  | none ↦ err procurement_not_found
  | some o ↦ ok o
]

-- require_state, for the two states that a service requires.
abbrev pub require_draft : Order → Result (Unit {0})
require_draft o = guard (is_draft o.status) procurement_conflict

abbrev pub require_issued : Order → Result (Unit {0})
require_issued o = guard (is_issued o.status) procurement_conflict

pub record OrderValues : Type 0 where
  pub vendor_party_id : ℕ
  pub po_number : Text
  pub notes : Option Text

abbrev pub new_order : ℕ → ℕ → OrderValues → Order
new_order id performer_id v = record {
  id = id;
  vendor_party_id = v.vendor_party_id;
  po_number = v.po_number;
  status = draft;
  issued_at = none;
  issued_by_actor_id = none;
  notes = v.notes;
  created_by_actor_id = performer_id;
  updated_by_actor_id = performer_id;
  created_at = 0;
  updated_at = 0;
}

-- The values of an update: `none` leaves a column as it is.
pub record OrderEdit : Type 0 where
  pub vendor_party_id : Option ℕ
  pub po_number : Option Text
  pub notes : Option (Option Text)

abbrev pub or_else {ℓ} : {A : Type ℓ} → Option A → A → A
or_else none a = a
or_else (some b) a = b

abbrev pub changes_nothing : OrderEdit → Bool
changes_nothing v = is_none v.vendor_party_id && (is_none v.po_number && is_none v.notes)

abbrev pub edited_order : OrderEdit → Order → Order
edited_order v o = record o {
  vendor_party_id = or_else v.vendor_party_id o.vendor_party_id;
  po_number = or_else v.po_number o.po_number;
  notes = or_else v.notes o.notes;
}

-- An active line has no successor in its order.
unfoldable pub is_active : List Line → Line → Bool
is_active lines l = not (any (λ q. q.po_id == l.po_id && succeeds l.id q) lines)

unfoldable pub get_line : Tables → ℕ → ℕ → Result (Line × Bool)
unfolding is_active
get_line t po_id line_id = elim (find (λ l. l.po_id == po_id && l.id == line_id) t.lines) [
  | none ↦ err procurement_not_found
  | some l ↦ ok (l, is_active t.lines l)
]

pub record LineValues : Type 0 where
  pub line_number : ℕ
  pub item_id : ℕ
  pub quantity : ℕ
  pub unit_price : ℕ
  pub expected_date : Option ℕ

abbrev pub new_line : ℕ → ℕ → ℕ → Option ℕ → ℕ → LineValues → Line
new_line id po_id performer_id predecessor_id line_number v = record {
  id = id;
  po_id = po_id;
  line_number = line_number;
  item_id = v.item_id;
  quantity = v.quantity;
  uom = [];
  unit_price = v.unit_price;
  expected_date = v.expected_date;
  supersedes_line_id = predecessor_id;
  created_by_actor_id = performer_id;
  updated_by_actor_id = performer_id;
  created_at = 0;
  updated_at = 0;
}

pub record LineEdit : Type 0 where
  pub item_id : Option ℕ
  pub quantity : Option ℕ
  pub unit_price : Option ℕ
  pub expected_date : Option (Option ℕ)

abbrev pub edits_nothing : LineEdit → Bool
edits_nothing v =
    is_none v.item_id && (is_none v.quantity && (is_none v.unit_price && is_none v.expected_date))

abbrev pub edited_line : LineEdit → Line → Line
edited_line v l = record l {
  item_id = or_else v.item_id l.item_id;
  quantity = or_else v.quantity l.quantity;
  unit_price = or_else v.unit_price l.unit_price;
  expected_date = or_else v.expected_date l.expected_date;
}

-- The line number that a new line takes: its own, or that of the active line that it supersedes.
unfoldable pub number_of : Tables → ℕ → Option ℕ → LineValues → Result ℕ
unfolding get_line
number_of t po_id none v = ok v.line_number
number_of t po_id (some predecessor_id) v = do
  prior ← get_line t po_id predecessor_id
  guard prior.1 procurement_conflict
  ok prior.0.line_number

module _ (s : Session) (r : Reference) (now : ℕ) (t : Tables) where
  -- `id` is the generated uuid7.
  unfoldable pub create_order : ℕ → ℕ → OrderValues → Result Tables
  unfolding insert_order constraints
  create_order id performer_id v =
      constraints (insert_order s r now (new_order id performer_id v) t.orders) >>= λ orders.
      ok record t { orders = orders }

  unfoldable pub update_order : ℕ → OrderEdit → Result (Order × Tables)
  unfolding get_order update_order_row constraints
  update_order po_id v = constraints (do
    o ← get_order t po_id
    require_draft o
    if changes_nothing v
        then ok (o, t)
        else (update_order_row s r now o (edited_order v o) t.orders >>= λ u.
            ok (u.0, record t { orders = u.1 })))

  unfoldable pub issue_order : ℕ → Result (Order × Tables)
  unfolding get_order update_order_row constraints
  issue_order po_id = constraints (do
    o ← get_order t po_id
    require_draft o
    u ← update_order_row s r now o (record o { status = issued }) t.orders
    ok (u.0, record t { orders = u.1 }))

  unfoldable pub create_line : ℕ → ℕ → ℕ → Option ℕ → LineValues → Result ((Line × Bool) × Tables)
  unfolding get_order number_of insert_line constraints
  create_line id po_id performer_id predecessor_id v = constraints (do
    o ← get_order t po_id
    if is_none predecessor_id then require_draft o else require_issued o
    number ← number_of t po_id predecessor_id v
    lines ← insert_line s r now (new_line id po_id performer_id predecessor_id number v) t
    row ← get_line (record t { lines = lines }) po_id id
    ok (row, record t { lines = lines }))

  unfoldable pub update_line : ℕ → ℕ → LineEdit → Result ((Line × Bool) × Tables)
  unfolding get_order get_line update_line_row constraints
  update_line po_id line_id v = constraints (do
    o ← get_order t po_id
    require_draft o
    old ← get_line t po_id line_id
    lines ←
        if edits_nothing v
        then ok t.lines
        else update_line_row s r now old.0 (edited_line v old.0) t
    row ← get_line (record t { lines = lines }) po_id line_id
    ok (row, record t { lines = lines }))
