-- ===== src/Receiving.antt =====
-- The classification of what is received: `_line_exceptions` and `_reconcile` of
-- server/fleetops/domain/receiving.py, and the triggers that check them independently,
-- enforce_receiving_exception and enforce_receiving_completeness of
-- server/alembic/versions/0010_receiving.py, which read the effective order lines since 0011. Quantities
-- are counted in millionths of their unit (NUMERIC(18, 6)).
pub mod Agreement
pub mod Books
pub mod Guards
pub mod Units
pub mod Service
pub mod Recording
pub mod Entries
pub mod Made
pub mod Performed
pub mod Recorded
use defiant_fleet_ops.Base.{
  ℕ, ◌+◌, Bool, true, false, not, ◌&&◌, ◌||◌, Option, none, some, List, [], ◌∷◌, ◌++◌, ltb, ◌==◌,
  find, any, keep, same, is_some, Result, ok, err, ◌>>=◌, receiving_invalid, if◌then◌else◌,
}
use defiant_fleet_ops.Text.{Text, text_eq}

-- One whole unit.
abbrev pub one_piece : ℕ
one_piece = 1000000

pub data ExceptionType : Type 0 where
  short over substitution damaged opened unexpected_item uom_mismatch quantity_variance
        serial_unreadable serial_mismatch :
      ExceptionType

abbrev pub kind_eq : ExceptionType → ExceptionType → Bool
kind_eq short short = true
kind_eq over over = true
kind_eq substitution substitution = true
kind_eq ExceptionType.damaged ExceptionType.damaged = true
kind_eq ExceptionType.opened ExceptionType.opened = true
kind_eq unexpected_item unexpected_item = true
kind_eq uom_mismatch uom_mismatch = true
kind_eq quantity_variance quantity_variance = true
kind_eq serial_unreadable serial_unreadable = true
kind_eq serial_mismatch serial_mismatch = true
kind_eq _ _ = false

pub data Condition : Type 0 where
  good damaged opened unknown : Condition

-- A readable identifier as it was observed: its type and its value.
pub record Observed : Type 0 where
  pub type : Text
  pub value : Text

abbrev pub observed_eq : Observed → Observed → Bool
observed_eq a b = text_eq a.type b.type && text_eq a.value b.value

-- A row of asset_identifiers: `none` is an unreadable one, whose reason the table demands.
pub record Identifier : Type 0 where
  pub asset_id : ℕ
  pub reading : Option Observed

-- A row of receipt_lines, less what no classification reads.
pub record Line : Type 0 where
  pub id : ℕ
  pub po_line_id : Option ℕ
  pub item_id : ℕ
  pub quantity : ℕ
  pub uom : Text
  pub condition : Condition
  pub packing_quantity : Option ℕ
  pub serialized : Bool
  pub asset_id : Option ℕ
  pub observed : Option Observed

-- A row of effective_purchase_order_lines.
pub record OrderLine : Type 0 where
  pub id : ℕ
  pub item_id : ℕ
  pub uom : Text
  pub quantity : ℕ

pub record Context : Type 0 where
  pub order_lines : List OrderLine
  pub identifiers : List Identifier

abbrev pub order_line : Context → ℕ → Option OrderLine
order_line x i = find (λ (p : OrderLine). p.id == i) x.order_lines

abbrev pub kinds_if : Bool → ExceptionType → List ExceptionType
kinds_if true k = k ∷ []
kinds_if false k = []

abbrev pub condition_kinds : Condition → List ExceptionType
condition_kinds Condition.damaged = ExceptionType.damaged ∷ []
condition_kinds Condition.opened = ExceptionType.opened ∷ []
condition_kinds _ = []

abbrev pub varies : Line → Bool
varies line = elim line.packing_quantity [ none ↦ false | some n ↦ not (line.quantity == n) ]

abbrev pub differences : Line → OrderLine → List ExceptionType
differences line p =
    kinds_if (not (line.item_id == p.item_id)) substitution
    ++ kinds_if (not (text_eq line.uom p.uom)) uom_mismatch

-- `_comparator` refuses an order line that does not exist.
abbrev pub comparator_kinds : Context → Line → Result (List ExceptionType)
comparator_kinds x line = elim line.po_line_id [
  | none ↦ ok (unexpected_item ∷ [])
  | some i ↦ elim (order_line x i) [
    | none ↦ err receiving_invalid
    | some p ↦ ok (differences line p)
  ]
]

-- `_line_exceptions`: the kinds in the order in which they are recorded.
unfoldable pub line_exceptions : Context → Line → Bool → Option ℕ → Result (List ExceptionType)
line_exceptions x line unreadable conflicting_asset_id = comparator_kinds x line >>= λ kinds. ok (
    kinds
    ++ (condition_kinds line.condition
        ++ (kinds_if (varies line) quantity_variance
            ++ (kinds_if unreadable serial_unreadable
                ++ kinds_if (is_some conflicting_asset_id) serial_mismatch))))

-- The line's Asset has an unreadable identifier.
unfoldable pub has_unreadable : Context → Line → Bool
has_unreadable x line =
    any (λ (i : Identifier). same (some i.asset_id) line.asset_id && not (is_some i.reading))
      x.identifiers

-- `expected` in enforce_receiving_completeness, for an order line that exists.
unfoldable pub required_exceptions : Context → Line → List ExceptionType
unfolding has_unreadable
required_exceptions x line =
    elim line.po_line_id [
      | none ↦ unexpected_item ∷ []
      | some i ↦ elim (order_line x i) [ none ↦ [] | some p ↦ differences line p ]
    ]
    ++ (condition_kinds line.condition
        ++ (kinds_if (varies line) quantity_variance
            ++ (kinds_if (is_some line.observed) serial_mismatch
                ++ kinds_if (has_unreadable x line) serial_unreadable)))

-- An identifier of the conflicting Asset reads as the line observed.
unfoldable pub names_conflict : Context → Line → Option ℕ → Bool
names_conflict x line conflicting_asset_id = elim line.observed [
  | none ↦ false
  | some o ↦
      any
        (λ (i : Identifier).
          same (some i.asset_id) conflicting_asset_id
          && elim i.reading [ none ↦ false | some r ↦ observed_eq r o ])
        x.identifiers
]

-- `valid` in enforce_receiving_exception for a line; a comparison with a missing row is not true.
unfoldable pub line_supports : Context → Line → Option ℕ → ExceptionType → Bool
unfolding has_unreadable names_conflict
line_supports x line conflict substitution = elim line.po_line_id [
  | none ↦ false
  | some i ↦ elim (order_line x i) [ none ↦ false | some p ↦ not (line.item_id == p.item_id) ]
]
line_supports x line conflict ExceptionType.damaged = elim line.condition [
  | Condition.damaged ↦ true
  | _ ↦ false
]
line_supports x line conflict ExceptionType.opened = elim line.condition [
  | Condition.opened ↦ true
  | _ ↦ false
]
line_supports x line conflict unexpected_item = not (is_some line.po_line_id)
line_supports x line conflict uom_mismatch = elim line.po_line_id [
  | none ↦ false
  | some i ↦ elim (order_line x i) [ none ↦ false | some p ↦ not (text_eq line.uom p.uom) ]
]
line_supports x line conflict quantity_variance = varies line
line_supports x line conflict serial_unreadable = is_some line.asset_id && has_unreadable x line
line_supports x line conflict serial_mismatch =
    line.serialized && not (is_some line.asset_id) && names_conflict x line conflict
line_supports x line conflict _ = false

-- What was received of an order line: the sum in its unit, and whether another unit was used.
abbrev pub of_line : OrderLine → Line → Bool
of_line p l = same l.po_line_id (some p.id)

unfoldable pub received_total : OrderLine → List Line → ℕ
received_total p [] = 0
received_total p (l ∷ lines) =
    (if of_line p l && text_eq l.uom p.uom then l.quantity else 0) + received_total p lines

unfoldable pub mismatched : OrderLine → List Line → Bool
mismatched p lines = any (λ l. of_line p l && not (text_eq l.uom p.uom)) lines

-- The quantity exception of `_reconcile`.
unfoldable pub quantity_exception : OrderLine → List Line → Option ExceptionType
unfolding received_total mismatched
quantity_exception p lines =
    let total = received_total p lines in
    if mismatched p lines
    then none
    else if total == p.quantity
    then none
    else some (if ltb total p.quantity then short else over)

-- `kind` in enforce_receiving_completeness.
unfoldable pub required_quantity : OrderLine → List Line → Option ExceptionType
unfolding received_total mismatched
required_quantity p lines =
    let total = received_total p lines in
    if mismatched p lines || total == p.quantity
    then none
    else if ltb total p.quantity
    then some short
    else some over

-- Whether enforce_receiving_exception admits an exception of a bound order line whose receipt is
-- reconciled: of SHORT and OVER what `valid` says, and any other kind unchecked.
unfoldable pub quantity_supports : OrderLine → List Line → ExceptionType → Bool
unfolding received_total mismatched
quantity_supports p lines kind =
    let total = received_total p lines in
    not (kind_eq kind short || kind_eq kind over)
    || (not (mismatched p lines)
        && ((kind_eq kind short && ltb total p.quantity)
            || (kind_eq kind over && ltb p.quantity total)))
