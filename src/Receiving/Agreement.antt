-- ===== src/Receiving/Agreement.antt =====
-- The service's classification and the two database checks describe the same exceptions.
use defiant_fleet_ops.Base.{
  ℕ, ◌≡◌, refl, arith, Bool, true, false, not, ◌&&◌, ◌||◌, Option, none, some, List, [], ◌∷◌, ◌++◌,
  any, same, is_some, ok, Option-cases, inl, inr,
}
use defiant_fleet_ops.Receiving.{
  ExceptionType, short, over, substitution, unexpected_item, uom_mismatch, quantity_variance,
  serial_unreadable, serial_mismatch, kind_eq, Identifier, Line, OrderLine, Context, order_line,
  kinds_if, line_exceptions, has_unreadable, required_exceptions, names_conflict, line_supports,
  quantity_exception, required_quantity, quantity_supports,
}

-- A recorded line: its table admits only a serialized line to have an Asset or an observed identifier,
-- and then exactly one of them; and the service has passed what it looked up.
pub record IsRecorded (x : Context) (line : Line) (unreadable : Bool) (conflict : Option ℕ)
    : Type 0 where
  pub unit_shape : line.serialized ≡ (is_some line.asset_id || is_some line.observed)
  pub one_of_both : (is_some line.asset_id && is_some line.observed) ≡ false
  pub observed_conflict : is_some conflict ≡ is_some line.observed
  pub known_conflict : is_some line.observed ≡ true → names_conflict x line conflict ≡ true
  pub read : unreadable ≡ has_unreadable x line

no_asset :
    (identifiers : List Identifier)
    → any (λ (i : Identifier). same (some i.asset_id) none && not (is_some i.reading)) identifiers
      ≡ false
no_asset [] = refl
no_asset (i ∷ identifiers) = no_asset identifiers

no_unreadable : (x : Context) (line : Line) → line.asset_id ≡ none → has_unreadable x line ≡ false
unfolding has_unreadable
no_unreadable x line n = rw n (no_asset x.identifiers)

module _ (x : Context) (line : Line) (unreadable : Bool) (conflict : Option ℕ) where
  identifier_kinds :
      IsRecorded x line unreadable conflict
      → kinds_if unreadable serial_unreadable ++ kinds_if (is_some conflict) serial_mismatch
        ≡ kinds_if (is_some line.observed) serial_mismatch
          ++ kinds_if (has_unreadable x line) serial_unreadable
  identifier_kinds r = elim (Option-cases line.asset_id) [
    | inl none_there ↦ ground (arith, no_unreadable x line none_there, r.observed_conflict, r.read)
    | inr (a, there) ↦ ground (arith, there, r.one_of_both, r.observed_conflict, r.read)
  ]

  -- For a recorded line, the exceptions that the service records are exactly those that the deferred
  -- completeness check requires of the line.
  pub line_exceptions-required :
      (kinds : List ExceptionType)
      → IsRecorded x line unreadable conflict
      → line_exceptions x line unreadable conflict ≡ ok kinds
      → kinds ≡ required_exceptions x line
  unfolding line_exceptions required_exceptions
  line_exceptions-required kinds r h =
      let swapped = identifier_kinds r in
      elim (Option-cases line.po_line_id) [
        | inl unordered ↦ ground (arith, unordered, swapped)
        | inr (i, ordered) ↦ elim (Option-cases (order_line x i)) [
          | inl missing ↦ ground (arith, ordered, missing)
          | inr (p, found) ↦ ground (arith, ordered, found, swapped)
        ]
      ]

  -- For a recorded line, the check of each recorded exception admits a line exception of a kind exactly
  -- if the service records one of that kind; so each is admitted, and no other would be.
  pub line_exceptions-supported :
      (kinds : List ExceptionType)
      → IsRecorded x line unreadable conflict
      → line_exceptions x line unreadable conflict ≡ ok kinds
      → (kind : ExceptionType) → any (kind_eq kind) kinds ≡ line_supports x line conflict kind
  unfolding line_exceptions line_supports
  line_exceptions-supported kinds r h substitution = ground arith
  line_exceptions-supported kinds r h ExceptionType.damaged = ground arith
  line_exceptions-supported kinds r h ExceptionType.opened = ground arith
  line_exceptions-supported kinds r h unexpected_item = ground arith
  line_exceptions-supported kinds r h uom_mismatch = ground arith
  line_exceptions-supported kinds r h quantity_variance = ground arith
  line_exceptions-supported kinds r h serial_unreadable =
      ground (arith, r.read, no_unreadable x line)
  line_exceptions-supported kinds r h serial_mismatch =
      ground (arith, r.known_conflict, r.observed_conflict, r.unit_shape, r.one_of_both)
  line_exceptions-supported kinds r h short = ground arith
  line_exceptions-supported kinds r h over = ground arith

module _ (p : OrderLine) (lines : List Line) where
  -- The quantity exception that reconciliation records for an order line is the one that the
  -- completeness check requires, and of the kinds SHORT and OVER the check of recorded exceptions
  -- admits that one and no other.
  pub quantity_exception-agreed :
      (kind : ExceptionType)
      → (kind_eq kind short || kind_eq kind over) ≡ true
      → (quantity_exception p lines ≡ required_quantity p lines)
        × (quantity_supports p lines kind
            ≡ elim (quantity_exception p lines) [ none ↦ false | some k ↦ kind_eq kind k ])
  unfolding quantity_exception required_quantity quantity_supports
  quantity_exception-agreed kind counted = (ground arith, ground arith)
