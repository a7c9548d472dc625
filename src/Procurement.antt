-- ===== src/Procurement.antt =====
-- Purchase orders and their lines: the tables, the constraints and the two guards of
-- server/alembic/versions/0009_procurement.py, with the updater trigger of 0006_assets.py, as the
-- application role meets them. Quantities and prices are counted in one small unit, so that what the
-- CHECKs on infinite and negative numbers refuse is not expressible, and the time of a statement is an
-- argument.
pub mod Services
pub mod Listing
pub mod Lineage
pub mod Steps
pub mod Rows
pub mod Changes
pub mod Invariant
pub mod Issued
pub mod Current
use defiant_fleet_ops.Base.{
  ℕ, Bool, true, false, not, ◌&&◌, ◌||◌, Option, none, some, List, [], ◌∷◌, ltb, leb, ◌==◌, any,
  all, find, has, length, map, matches, same, is_some, is_none, Result, ok, err, guard, ◌>>=◌, ◌>>◌,
  sql, unique_violation, foreign_key_violation, check_violation, serialization_failure,
  insufficient_privilege, numeric_out_of_range, if◌then◌else◌,
}
use defiant_fleet_ops.Text.{Text, btrim, is_space}
use defiant_fleet_ops.Ledger.{Session, performer, int_max}

pub data OrderStatus : Type 0 where
  draft issued closed cancelled : OrderStatus

abbrev pub is_draft : OrderStatus → Bool
is_draft draft = true
is_draft _ = false

abbrev pub is_issued : OrderStatus → Bool
is_issued issued = true
is_issued _ = false

pub record Order : Type 0 where
  pub id : ℕ
  pub vendor_party_id : ℕ
  pub po_number : Text
  pub status : OrderStatus
  pub issued_at : Option ℕ
  pub issued_by_actor_id : Option ℕ
  pub notes : Option Text
  pub created_by_actor_id : ℕ
  pub updated_by_actor_id : ℕ
  pub created_at : ℕ
  pub updated_at : ℕ

pub record Line : Type 0 where
  pub id : ℕ
  pub po_id : ℕ
  pub line_number : ℕ
  pub item_id : ℕ
  pub quantity : ℕ
  pub uom : Text
  pub unit_price : ℕ
  pub expected_date : Option ℕ
  pub supersedes_line_id : Option ℕ
  pub created_by_actor_id : ℕ
  pub updated_by_actor_id : ℕ
  pub created_at : ℕ
  pub updated_at : ℕ

pub record Item : Type 0 where
  pub id : ℕ
  pub uom : Text

-- What the rows refer to. A vendor is a Party with the role VENDOR.
pub record Reference : Type 0 where
  pub vendors : List ℕ
  pub items : List Item
  pub actors : List ℕ

-- The newest row first.
pub record Tables : Type 0 where
  pub orders : List Order
  pub lines : List Line

abbrev pub find_order : ℕ → List Order → Option Order
find_order i = find (λ o. o.id == i)

abbrev pub find_line : ℕ → List Line → Option Line
find_line i = find (λ l. l.id == i)

abbrev pub find_item : ℕ → List Item → Option Item
find_item i = find (λ m. m.id == i)

-- The status and the issuance that make an order editable.
abbrev pub is_open : Order → Bool
is_open o = is_draft o.status && is_none o.issued_at

unfoldable pub number_admitted : Text → Bool
unfolding btrim
number_admitted s =
    leb 1 (length (btrim s)) && leb (length (btrim s)) 200 && any (λ c. not (is_space c)) s

abbrev pub notes_admitted : Option Text → Bool
notes_admitted none = true
notes_admitted (some s) = leb (length s) 4000

-- ck_purchase_orders_issuance
abbrev pub issuance_admitted : Order → Bool
issuance_admitted o =
    ((is_none o.issued_at && is_none o.issued_by_actor_id)
      || (is_some o.issued_at && is_some o.issued_by_actor_id))
    && (not (is_draft o.status) || is_none o.issued_at)
    && (not (is_issued o.status) || is_some o.issued_at)

unfoldable pub order_check : Reference → Order → Result (Unit {0})
unfolding number_admitted
order_check r o = do
  guard (issuance_admitted o) (sql check_violation)
  guard (number_admitted o.po_number && notes_admitted o.notes) (sql check_violation)
  guard (has o.vendor_party_id r.vendors) (sql foreign_key_violation)

-- INSERT INTO purchase_orders: enforce_purchase_order, enforce_authenticated_creator, and the table.
unfoldable pub insert_order : Session → Reference → ℕ → Order → List Order → Result (List Order)
unfolding order_check
insert_order s r now o orders = do
  guard (is_open o && is_none o.issued_by_actor_id) (sql check_violation)
  who ← performer s
  guard (o.created_by_actor_id == who && o.updated_by_actor_id == who) (sql insufficient_privilege)
  guard (not (any (λ p. p.id == o.id) orders)) (sql unique_violation)
  order_check r o
  ok (record o { created_at = now; updated_at = now } ∷ orders)

-- What may not change of an order that is updated.
abbrev pub keeps_order : Order → Order → Bool
keeps_order old new =
    new.id == old.id
    && new.created_by_actor_id == old.created_by_actor_id
    && new.created_at == old.created_at
    && same new.issued_at old.issued_at
    && same new.issued_by_actor_id old.issued_by_actor_id

-- The row that enforce_purchase_order and enforce_authenticated_updater make of an UPDATE.
unfoldable pub updated_order : ℕ → ℕ → Order → Order
updated_order who now new = record new {
  issued_at = if is_issued new.status then some now else new.issued_at;
  issued_by_actor_id = if is_issued new.status then some who else new.issued_by_actor_id;
  updated_by_actor_id = who;
  updated_at = now;
}

abbrev pub replace_order : Order → List Order → List Order
replace_order o = map (λ p. if p.id == o.id then o else p)

unfoldable pub update_order_row :
    Session → Reference → ℕ → Order → Order → List Order → Result (Order × List Order)
unfolding updated_order order_check
update_order_row s r now old new orders = do
  guard (is_open old) (sql check_violation)
  guard (keeps_order old new) (sql check_violation)
  guard (is_draft new.status || is_issued new.status) (sql check_violation)
  who ← performer s
  order_check r (updated_order who now new)
  ok (updated_order who now new, replace_order (updated_order who now new) orders)

-- A row that names `i` as its predecessor.
abbrev pub succeeds : ℕ → Line → Bool
succeeds i l = matches l.supersedes_line_id (some i)

-- The admission of a root or of an amendment.
unfoldable pub guard_line : Order → Line → List Line → Result (Unit {0})
guard_line o l lines = elim l.supersedes_line_id [
  | none ↦ guard (is_open o) (sql check_violation)
  | some p ↦ do
    guard (is_issued o.status) (sql check_violation)
    guard
        (not (l.id == p)
          && any (λ q. q.po_id == l.po_id && (q.line_number == l.line_number && q.id == p)) lines)
        (sql foreign_key_violation)
    guard (not (any (succeeds p) lines)) (sql serialization_failure)
]

-- The CHECKs and the unique keys of a line. uq_purchase_order_lines_successor is what the guard asks.
unfoldable pub line_check : Line → List Line → Result (Unit {0})
line_check l lines = do
  guard (ltb 0 l.line_number && ltb 0 l.quantity) (sql check_violation)
  guard (not (any (λ q. q.id == l.id) lines)) (sql unique_violation)
  guard
      (is_some l.supersedes_line_id
        || not (
            any
              (λ q.
                is_none q.supersedes_line_id
                && (q.po_id == l.po_id && q.line_number == l.line_number))
              lines))
      (sql unique_violation)

-- INSERT INTO purchase_order_lines: enforce_purchase_order_line, enforce_authenticated_creator, and the
-- table. The row takes the unit of its Item as it is now.
unfoldable pub insert_line : Session → Reference → ℕ → Line → Tables → Result (List Line)
unfolding guard_line line_check
insert_line s r now l t = do
  guard (leb l.line_number int_max) (sql numeric_out_of_range)
  o ← elim (find_order l.po_id t.orders) [ none ↦ err (sql foreign_key_violation) | some o ↦ ok o ]
  guard_line o l t.lines
  m ← elim (find_item l.item_id r.items) [ none ↦ err (sql foreign_key_violation) | some m ↦ ok m ]
  who ← performer s
  guard (l.created_by_actor_id == who && l.updated_by_actor_id == who) (sql insufficient_privilege)
  line_check l t.lines
  ok (record l { uom = m.uom; created_at = now; updated_at = now } ∷ t.lines)

abbrev pub replace_line : Line → List Line → List Line
replace_line l = map (λ q. if q.id == l.id then l else q)

-- UPDATE of the line `old` to `new`, whose columns of identity, lineage and unit are the old ones.
unfoldable pub update_line_row : Session → Reference → ℕ → Line → Line → Tables → Result (List Line)
update_line_row s r now old new t = do
  o ← elim (find_order old.po_id t.orders) [
    | none ↦ err (sql foreign_key_violation)
    | some o ↦ ok o
  ]
  guard (is_open o) (sql check_violation)
  who ← performer s
  guard (ltb 0 new.quantity) (sql check_violation)
  guard (is_some (find_item new.item_id r.items)) (sql foreign_key_violation)
  ok (replace_line (record new { updated_by_actor_id = who; updated_at = now }) t.lines)
