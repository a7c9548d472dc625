-- ===== src/Receiving/Guards.antt =====
-- INSERT into the receiving tables: the guards, CHECKs and keys of
-- server/alembic/versions/0010_receiving.py for receipts, comparators, lines and reconciliations. What a correction
-- writes there is not among the operations.
use defiant_fleet_ops.Base.{
  ℕ, Bool, true, false, not, ◌&&◌, ◌||◌, Option, none, some, List, [], ◌∷◌, ltb, leb, ◌==◌, any,
  find, has, length, same, is_some, is_none, Result, ok, err, guard, ◌>>=◌, ◌>>◌, sql,
  insufficient_privilege, foreign_key_violation, check_violation, unique_violation,
  serialization_failure,
}
use defiant_fleet_ops.Text.{Text, text_eq, btrim, codes}
use defiant_fleet_ops.Ledger.{Session, performer}
use defiant_fleet_ops.Receiving.{Observed, observed_eq, Identifier, Line, one_piece}
use defiant_fleet_ops.Receiving.Books.{
  Receipt, Comparator, ReceiptLine, ReceivedAsset, Books, Ordered, Item, Catalog, find_receipt,
  find_item, is_reconciled,
}

abbrev order_issued : Catalog → ℕ → Bool
order_issued c po_id = any (λ o. o.id == po_id && o.issued) c.orders

-- ck_receipts_packing_reference
unfoldable pub reference_admitted : Option Text → Bool
unfolding btrim
reference_admitted none = true
reference_admitted (some s) = leb 1 (length (btrim s)) && leb (length (btrim s)) 500

-- INSERT INTO receipts.
unfoldable pub insert_receipt : Session → Catalog → Receipt → Books → Result Books
unfolding reference_admitted
insert_receipt s c r b = do
  guard (not s.actor_hint) (sql insufficient_privilege)
  elim r.po_id [
    | none ↦ ok tt
    | some p ↦ do
      guard (any (λ o. o.id == p) c.orders) (sql foreign_key_violation)
      guard (order_issued c p) (sql check_violation)
  ]
  who ← performer s
  guard (reference_admitted r.packing_reference) (sql check_violation)
  guard (not (any (λ k. k.id == r.id) b.receipts)) (sql unique_violation)
  guard (has r.vendor_party_id c.vendors) (sql foreign_key_violation)
  guard (elim r.dock_location_id [ none ↦ true | some d ↦ has d c.locations ])
      (sql foreign_key_violation)
  ok (record b { receipts = r ∷ b.receipts })

-- lock_receiving_context
unfoldable pub lock_receiving_context : Session → ℕ → Books → Result Receipt
lock_receiving_context s receipt_id b = do
  guard (not s.actor_hint) (sql insufficient_privilege)
  elim (find_receipt receipt_id b.receipts) [
    | none ↦ err (sql foreign_key_violation)
    | some r ↦ ok r
  ]

-- The admission of a comparator: a current version of a line of the receipt's issued order.
unfoldable pub admit_comparator : Catalog → Receipt → ℕ → Result Ordered
admit_comparator c r po_line_id =
    elim (find (λ o. o.line.id == po_line_id && same (some o.po_id) r.po_id) c.order_lines) [
      | none ↦ err (sql foreign_key_violation)
      | some o ↦ do
        guard (order_issued c o.po_id) (sql check_violation)
        guard (not o.superseded) (sql serialization_failure)
        ok o
    ]

-- INSERT INTO receipt_comparators.
unfoldable pub insert_comparator : Session → Catalog → Comparator → Books → Result Books
unfolding lock_receiving_context admit_comparator
insert_comparator s c k b = do
  r ← lock_receiving_context s k.receipt_id b
  guard (not (is_reconciled k.receipt_id b)) (sql check_violation)
  o ← admit_comparator c r k.po_line_id
  guard (k.source_generation == o.generation) (sql serialization_failure)
  guard
      (not (any (λ j. j.receipt_id == k.receipt_id && j.po_line_id == k.po_line_id) b.comparators))
      (sql unique_violation)
  who ← performer s
  ok (record b { comparators = k ∷ b.comparators })

abbrev uoms : List Text
uoms =
    codes "EA"
    ∷ codes "M"
    ∷ codes "MM"
    ∷ codes "CM"
    ∷ codes "IN"
    ∷ codes "FT"
    ∷ codes "G"
    ∷ codes "MG"
    ∷ codes "KG"
    ∷ codes "ML"
    ∷ codes "L"
    ∷ []

abbrev identifier_types : List Text
identifier_types =
    codes "MANUFACTURER_SERIAL"
    ∷ codes "PCB_SERIAL"
    ∷ codes "MAC"
    ∷ codes "IMEI"
    ∷ codes "OTHER"
    ∷ []

-- ck_receipt_lines_unit_shape
abbrev pub unit_shape : ReceiptLine → Bool
unit_shape l =
    (l.line.serialized
      && is_some l.owner_party_id
      && ((is_some l.line.asset_id && is_none l.line.observed)
          || (is_none l.line.asset_id && is_some l.line.observed)))
    || (not l.line.serialized
        && is_none l.line.asset_id
        && is_none l.line.observed
        && is_none l.owner_party_id
        && is_none l.custodian_party_id)

-- The other CHECKs of a line.
unfoldable pub line_check : Line → Bool
unfolding btrim
line_check l = ltb 0 l.quantity && any (text_eq l.uom) uoms && elim l.observed [
  | none ↦ true
  | some o ↦
      any (text_eq o.type) identifier_types
      && leb 1 (length (btrim o.value))
      && leb (length (btrim o.value)) 500
]

-- The Asset of a line has its facts from this receipt.
abbrev pub is_received : Receipt → ReceiptLine → ℕ → ReceivedAsset → Bool
is_received r l a x =
    x.ledger.asset.id == a && x.item_id == l.line.item_id && elim x.ledger.initial_facts [
      | none ↦ false
      | some f ↦
          same f.initial_owner_party_id l.owner_party_id
          && is_some l.owner_party_id
          && same f.initial_custodian_party_id l.custodian_party_id
          && same f.initial_location_id r.dock_location_id
          && is_some r.dock_location_id
    ]

abbrev is_known : Observed → List Identifier → Bool
is_known o = any (λ (i : Identifier). elim i.reading [ none ↦ false | some k ↦ observed_eq k o ])

abbrev has_party : Catalog → Option ℕ → Bool
has_party c none = true
has_party c (some p) = has p c.parties

-- fk_receipt_lines_comparator
abbrev pub line_bound : List Comparator → ReceiptLine → Bool
line_bound comparators l = elim l.line.po_line_id [
  | none ↦ true
  | some p ↦ any (λ k. k.receipt_id == l.receipt_id && k.po_line_id == p) comparators
]

-- The row takes the serialization of its Item as it is now.
abbrev pub with_item : Item → ReceiptLine → ReceiptLine
with_item m l = record l { line = record l.line { serialized = m.serialized } }

-- The facts of a line: the rest of its guard, its CHECKs and its keys.
unfoldable pub admit_line :
    Session → Catalog → Receipt → Item → ReceiptLine → Books → Result (Unit {0})
unfolding line_check
admit_line s c r m l b = do
  guard (is_none l.line.packing_quantity || is_some r.packing_reference) (sql check_violation)
  guard (not m.serialized || l.line.quantity == one_piece) (sql check_violation)
  guard (elim l.line.observed [ none ↦ true | some o ↦ is_known o b.identifiers ])
      (sql check_violation)
  guard (elim l.line.asset_id [ none ↦ true | some a ↦ any (is_received r l a) b.assets ])
      (sql check_violation)
  who ← performer s
  guard (unit_shape (with_item m l) && line_check (with_item m l).line) (sql check_violation)
  guard (not (any (λ k. k.line.id == l.line.id) b.lines)) (sql unique_violation)
  guard
      (elim l.line.asset_id [
        | none ↦ true
        | some a ↦ not (any (λ k. same k.line.asset_id (some a)) b.lines)
      ])
      (sql unique_violation)
  guard (has_party c l.owner_party_id && has_party c l.custodian_party_id)
      (sql foreign_key_violation)
  guard (line_bound b.comparators l) (sql foreign_key_violation)

-- INSERT INTO receipt_lines.
unfoldable pub insert_line : Session → Catalog → ReceiptLine → Books → Result (ReceiptLine × Books)
unfolding lock_receiving_context admit_comparator admit_line
insert_line s c l b = do
  r ← lock_receiving_context s l.receipt_id b
  guard (not (is_reconciled l.receipt_id b)) (sql check_violation)
  elim l.line.po_line_id [ none ↦ ok tt | some p ↦ (admit_comparator c r p >>= λ o. ok tt) ]
  m ← elim (find_item l.line.item_id c.items) [
    | none ↦ err (sql foreign_key_violation)
    | some m ↦ ok m
  ]
  admit_line s c r m l b
  ok (with_item m l, record b { lines = with_item m l ∷ b.lines })

-- INSERT INTO receipt_reconciliations.
unfoldable pub insert_reconciliation : Session → ℕ → Books → Result Books
unfolding lock_receiving_context
insert_reconciliation s receipt_id b = do
  r ← lock_receiving_context s receipt_id b
  guard (not (is_reconciled receipt_id b)) (sql check_violation)
  who ← performer s
  ok (record b { reconciliations = receipt_id ∷ b.reconciliations })
