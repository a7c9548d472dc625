-- ===== src/Receiving/Units.antt =====
-- The rest of the guards of server/alembic/versions/0010_receiving.py: typed exceptions, the completeness that a
-- transaction is checked for, and create_received_unit.
use defiant_fleet_ops.Base.{
  ℕ, Bool, true, false, not, ◌&&◌, ◌||◌, Option, none, some, List, ◌∷◌, ◌==◌, any, all, find, has,
  map, same, is_some, is_none, Result, ok, err, guard, ◌>>=◌, ◌>>◌, sql, foreign_key_violation,
  check_violation, unique_violation, if◌then◌else◌,
}
use defiant_fleet_ops.Text.{Text, text_eq}
use defiant_fleet_ops.Ledger.{Session, performer}
use defiant_fleet_ops.Ledger.Creation.{ReceivedUnit, received_ledger}
use defiant_fleet_ops.Receiving.{
  ExceptionType, kind_eq, short, over, substitution, unexpected_item, uom_mismatch,
  quantity_variance, serial_unreadable, serial_mismatch, Observed, observed_eq, Identifier, Line,
  line_supports, quantity_supports, required_exceptions, required_quantity,
}
use defiant_fleet_ops.Receiving.Books.{
  Receipt, ReceiptLine, ReceivingException, ReceivedAsset, Books, Catalog, context_of, lines_of,
  is_reconciled,
}
use defiant_fleet_ops.Receiving.Guards.{lock_receiving_context, insert_line}

abbrev is_quantity : ExceptionType → Bool
is_quantity k = kind_eq k short || kind_eq k over

-- ck_receiving_exceptions_shape
unfoldable pub exception_shape : ReceivingException → Bool
exception_shape e =
    let on_line = is_some e.receipt_line_id in
    let no_conflict = is_none e.conflicting_asset_id in
    elim e.exception_type [
      | short ↦ not on_line && is_some e.po_line_id && is_none e.asset_id && no_conflict
      | over ↦ not on_line && is_some e.po_line_id && is_none e.asset_id && no_conflict
      | substitution ↦ on_line && is_some e.po_line_id && no_conflict
      | uom_mismatch ↦ on_line && is_some e.po_line_id && no_conflict
      | ExceptionType.damaged ↦ on_line && no_conflict
      | ExceptionType.opened ↦ on_line && no_conflict
      | serial_unreadable ↦ on_line && is_some e.asset_id && no_conflict
      | serial_mismatch ↦ on_line && is_none e.asset_id && not no_conflict
      | unexpected_item ↦ on_line && is_none e.po_line_id && no_conflict
      | quantity_variance ↦ on_line && is_none e.asset_id && no_conflict
    ]

-- The partial unique indexes: one exception of a kind for a line, and one for a comparator.
abbrev repeats : ReceivingException → ReceivingException → Bool
repeats e k = kind_eq k.exception_type e.exception_type && elim e.receipt_line_id [
  | some l ↦ same k.receipt_line_id (some l)
  | none ↦
      is_none k.receipt_line_id && k.receipt_id == e.receipt_id && same k.po_line_id e.po_line_id
]

abbrev pub is_bound : Books → ℕ → Option ℕ → Bool
is_bound b receipt_id po_line_id =
    any (λ k. k.receipt_id == receipt_id && same (some k.po_line_id) po_line_id) b.comparators

abbrev pub received_lines : ℕ → Books → List Line
received_lines receipt_id b = map (λ (l : ReceiptLine). l.line) (lines_of receipt_id b)

-- enforce_receiving_exception
unfoldable pub supported : Catalog → Books → ReceivingException → Result (Unit {0})
supported c b e = elim e.receipt_line_id [
  | none ↦
      if not (is_quantity e.exception_type)
      then ok tt
      else (guard (is_reconciled e.receipt_id b) (sql check_violation)
          >> elim (find (λ p. same (some p.line.id) e.po_line_id) c.order_lines) [
            | none ↦ err (sql foreign_key_violation)
            | some p ↦
                (guard (is_bound b e.receipt_id e.po_line_id) (sql foreign_key_violation)
                  >> guard
                      (quantity_supports p.line (received_lines e.receipt_id b) e.exception_type)
                      (sql check_violation))
          ])
  | some i ↦ elim (find (λ l. l.line.id == i && l.receipt_id == e.receipt_id) b.lines) [
    | none ↦ err (sql check_violation)
    | some l ↦
        (guard
            (same l.line.po_line_id e.po_line_id
              && (is_none e.asset_id || same e.asset_id l.line.asset_id))
            (sql check_violation)
          >> guard (line_supports (context_of c b) l.line e.conflicting_asset_id e.exception_type)
              (sql check_violation))
  ]
]

-- INSERT INTO receiving_exceptions.
unfoldable pub insert_exception : Session → Catalog → ReceivingException → Books → Result Books
unfolding lock_receiving_context supported exception_shape
insert_exception s c e b = do
  r ← lock_receiving_context s e.receipt_id b
  supported c b e
  guard (exception_shape e) (sql check_violation)
  guard (not (any (repeats e) b.exceptions)) (sql unique_violation)
  guard (elim e.po_line_id [ none ↦ true | some p ↦ is_bound b e.receipt_id (some p) ])
      (sql foreign_key_violation)
  who ← performer s
  ok (record b { exceptions = e ∷ b.exceptions })

-- enforce_receiving_completeness for a line.
unfoldable pub line_complete : Catalog → Books → ReceiptLine → Bool
line_complete c b l =
    all
      (λ kind.
        any (λ e. same e.receipt_line_id (some l.line.id) && kind_eq kind e.exception_type)
          b.exceptions)
      (required_exceptions (context_of c b) l.line)

abbrev has_quantity : ℕ → ℕ → Books → ExceptionType → Bool
has_quantity receipt_id po_line_id b kind =
    any
      (λ e.
        e.receipt_id == receipt_id
        && same e.po_line_id (some po_line_id)
        && is_none e.receipt_line_id
        && kind_eq kind e.exception_type)
      b.exceptions

-- enforce_receiving_completeness for a reconciled receipt.
unfoldable pub quantities_complete : Catalog → Books → ℕ → Bool
quantities_complete c b receipt_id =
    all
      (λ p.
        not (is_bound b receipt_id (some p.line.id))
        || elim (required_quantity p.line (received_lines receipt_id b)) [
          | none ↦ true
          | some kind ↦ has_quantity receipt_id p.line.id b kind
        ])
      c.order_lines

pub record UnitIdentifier : Type 0 where
  pub type : Text
  pub value : Option Text

pub record ReceivedObservation : Type 0 where
  pub asset_tag : Text
  pub owner_party_id : Option ℕ
  pub custodian_party_id : Option ℕ
  pub identifier : UnitIdentifier

abbrev pub reading_of : UnitIdentifier → Option Observed
reading_of i = elim i.value [ none ↦ none | some v ↦ some record { type = i.type; value = v } ]

abbrev pub reads : Observed → Identifier → Bool
reads o i = elim i.reading [ none ↦ false | some k ↦ observed_eq k o ]

-- The owner and the dock of a new unit, where its facts and its identity are admitted.
unfoldable pub admit_unit :
    Catalog → Receipt → ℕ → ReceivedObservation → ReceiptLine → Books → Result (ℕ × ℕ)
admit_unit c r asset_id u l b = do
  guard (not (is_reconciled l.receipt_id b)) (sql check_violation)
  owner ← elim u.owner_party_id [ none ↦ err (sql foreign_key_violation) | some o ↦ ok o ]
  dock ← elim r.dock_location_id [ none ↦ err (sql foreign_key_violation) | some d ↦ ok d ]
  guard
      (has owner c.parties
        && elim u.custodian_party_id [ none ↦ true | some k ↦ has k c.parties ]
        && has dock c.locations
        && any (λ m. m.id == l.line.item_id && m.serialized) c.items)
      (sql foreign_key_violation)
  guard
      (elim (reading_of u.identifier) [ none ↦ true | some o ↦ not (any (reads o) b.identifiers) ])
      (sql unique_violation)
  guard (not (any (λ x. x.ledger.asset.id == asset_id || text_eq x.asset_tag u.asset_tag) b.assets))
      (sql unique_violation)
  ok (owner, dock)

abbrev pub unit_of : Receipt → ℕ → ℕ → ReceivedObservation → ℕ × ℕ → ReceivedUnit
unit_of r asset_id transition_id u facts = record {
  asset_id = asset_id;
  transition_id = transition_id;
  owner_party_id = facts.0;
  custodian_party_id = u.custodian_party_id;
  dock_location_id = facts.1;
  received_at = r.received_at;
}

abbrev pub asset_of : ReceivedUnit → ℕ → ReceivedObservation → ReceiptLine → ReceivedAsset
asset_of unit who u l = record {
  item_id = l.line.item_id;
  asset_tag = u.asset_tag;
  ledger = received_ledger unit who;
}

abbrev pub identifier_of : ReceivedUnit → ReceivedObservation → Identifier
identifier_of unit u = record { asset_id = unit.asset_id; reading = reading_of u.identifier }

abbrev pub with_unit : ReceivedUnit → ℕ → ReceivedObservation → ReceiptLine → Books → Books
with_unit unit who u l b = record b {
  assets = asset_of unit who u l ∷ b.assets;
  identifiers = identifier_of unit u ∷ b.identifiers;
}

abbrev pub unit_line : ReceivedUnit → ReceiptLine → ReceiptLine
unit_line unit l = record l {
  line = record l.line { asset_id = some unit.asset_id; observed = none };
  owner_party_id = some unit.owner_party_id;
  custodian_party_id = unit.custodian_party_id;
}

-- create_received_unit: the Asset with its creation history, its identifier, and the line. The
-- CHECKs of the Asset's own tables on texts are left out.
unfoldable pub create_received_unit :
    Session
    → Catalog
    → ℕ
    → ℕ
    → ReceivedObservation
    → ReceiptLine
    → Books
    → Result (ReceiptLine × Books)
unfolding lock_receiving_context admit_unit insert_line
create_received_unit s c asset_id transition_id u l b = do
  who ← performer s
  r ← lock_receiving_context s l.receipt_id b
  facts ← admit_unit c r asset_id u l b
  let unit = unit_of r asset_id transition_id u facts
  insert_line s c (unit_line unit l) (with_unit unit who u l b)
