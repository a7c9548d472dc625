-- ===== src/Receiving/Made.antt =====
-- What the receiving services record of one line is a sequence of elementary entries.
use mathlib.Core.Path.{subst}
use defiant_fleet_ops.Base.{
  ℕ, ◌≡◌, inl, inr, refl, arith, Bool, ◌&&◌, Option, List, [], ◌∷◌, ◌==◌, any, is_some, Bool-cases,
  Option-cases, Result-cases, ok, >>=-eq-ok, guard-eq-ok, if◌then◌else◌, then_branch, else_branch,
  receiving_invalid,
}
use defiant_fleet_ops.Ledger.{Session, performer}
use defiant_fleet_ops.Ledger.Creation.{received_ledger-IsCoherent}
use defiant_fleet_ops.Receiving.{line_exceptions}
use defiant_fleet_ops.Receiving.Books.{
  Receipt, Comparator, ReceiptLine, ReceivingException, Books, Catalog, Item, find_item, context_of,
}
use defiant_fleet_ops.Receiving.Guards.{lock_receiving_context, insert_line}
use defiant_fleet_ops.Receiving.Units.{
  insert_exception, admit_unit, unit_of, asset_of, identifier_of, with_unit, unit_line,
  create_received_unit, ReceivedObservation,
}
use defiant_fleet_ops.Receiving.Service.{
  bind_comparator, insert_exceptions, record_exceptions, as_rows, LineValues, conflict_of,
  known_party, record_unit, conflicting_line, bind_line, observe_line, unit_unreadable,
  unit_conflict, record_line, plain_line,
}
use defiant_fleet_ops.Receiving.Entries.{
  asset_entered, Entries, then_entry, insert_line-Entry, insert_comparator-Entry,
  insert_exception-Entry,
}

pub bind_comparator-Entries :
    (s : Session) (c : Catalog) (r : Receipt) (i g : ℕ) (b0 b b' : Books)
    → Entries b0 b
    → bind_comparator s c r i g b ≡ ok b'
    → Entries b0 b'
unfolding bind_comparator
bind_comparator-Entries s c r i g b0 b b' before h =
    let k : Comparator = record { receipt_id = r.id; po_line_id = i; source_generation = g } in
    elim (Bool-cases (any (λ j. j.receipt_id == r.id && j.po_line_id == i) b.comparators)) [
      | inl bound ↦
          let same : b ≡ b' = ground (arith, bound) in
          subst (λ (x : Books). Entries b0 x) same before
      | inr new ↦ then_entry b b' before (insert_comparator-Entry s c k b b' (ground (arith, new)))
    ]

pub insert_exceptions-Entries :
    (s : Session) (c : Catalog) (exceptions : List ReceivingException) (b0 b b' : Books)
    → Entries b0 b
    → insert_exceptions s c exceptions b ≡ ok b'
    → Entries b0 b'
unfolding insert_exceptions
insert_exceptions-Entries s c [] b0 b b' before h =
    let same : b ≡ b' = ground (arith, h) in subst (λ (x : Books). Entries b0 x) same before
insert_exceptions-Entries s c (e ∷ exceptions) b0 b b' before h =
    let (b1, first, rest) =
      >>=-eq-ok (insert_exception s c e b) (λ b1. insert_exceptions s c exceptions b1) h in
    insert_exceptions-Entries s c exceptions b0 b1 b'
      (then_entry b b1 before (insert_exception-Entry s c e b b1 first)) rest

create_received_unit-Entries :
    (s : Session) (c : Catalog) (asset_id transition_id : ℕ) (u : ReceivedObservation)
    (l row : ReceiptLine) (b0 b b' : Books)
    → Entries b0 b
    → create_received_unit s c asset_id transition_id u l b ≡ ok (row, b')
    → Entries b0 b'
unfolding create_received_unit
create_received_unit-Entries s c asset_id transition_id u l row b0 b b' before h =
    elim (Result-cases (performer s)) [
      | inr (e, refused) ↦ ground (arith, refused)
      | inl (who, act) ↦ elim (Result-cases (lock_receiving_context s l.receipt_id b)) [
        | inr (e, refused) ↦ ground (arith, act, refused)
        | inl (r, locked) ↦ elim (Result-cases (admit_unit c r asset_id u l b)) [
          | inr (e, refused) ↦ ground (arith, act, locked, refused)
          | inl (facts, fit) ↦
              let unit = unit_of r asset_id transition_id u facts in
              let b1 = with_unit unit who u l b in
              then_entry b1 b'
                (then_entry b b1 before (
                  asset_entered (asset_of unit who u l) (identifier_of unit u)
                    (received_ledger-IsCoherent unit who) refl))
                (insert_line-Entry s c (unit_line unit l) row b1 b'
                  (ground (arith, act, locked, fit)))
        ]
      ]
    ]

record_unit-Entries :
    (s : Session) (c : Catalog) (r : Receipt) (v : LineValues) (u : ReceivedObservation)
    (row : ReceiptLine) (b0 b b' : Books)
    → Entries b0 b
    → record_unit s c r v u b ≡ ok (row, b')
    → Entries b0 b'
unfolding record_unit
record_unit-Entries s c r v u row b0 b b' before h =
    let l = plain_line r.id v in
    let parties = known_party c u.owner_party_id && known_party c u.custodian_party_id in
    let known_line = insert_line s c (conflicting_line u l) b in
    let new_line = create_received_unit s c v.asset_id v.transition_id u l b in
    let (_, rest) =
      guard-eq-ok parties receiving_invalid
        (if is_some (conflict_of b u) then known_line else new_line) h in
    elim (Bool-cases (is_some (conflict_of b u))) [
      | inr clear ↦
          create_received_unit-Entries s c v.asset_id v.transition_id u l row b0 b b' before
            (else_branch (is_some (conflict_of b u)) known_line new_line clear rest)
      | inl known ↦ then_entry b b' before (
          insert_line-Entry s c (conflicting_line u l) row b b'
            (then_branch (is_some (conflict_of b u)) known_line new_line known rest))
    ]

record_exceptions-Entries :
    (s : Session) (c : Catalog) (l : ReceiptLine) (unreadable : Bool) (conflict : Option ℕ)
    (b0 b b' : Books)
    → Entries b0 b
    → record_exceptions s c l unreadable conflict b ≡ ok b'
    → Entries b0 b'
unfolding record_exceptions
record_exceptions-Entries s c l unreadable conflict b0 b b' before h =
    let (kinds, found, rest) =
      >>=-eq-ok (line_exceptions (context_of c b) l.line unreadable conflict)
        (λ kinds. insert_exceptions s c (as_rows l conflict kinds) b) h in
    insert_exceptions-Entries s c (as_rows l conflict kinds) b0 b b' before rest

bind_line-Entries :
    (s : Session) (c : Catalog) (r : Receipt) (v : LineValues) (b0 b b' : Books)
    → Entries b0 b
    → bind_line s c r v b ≡ ok b'
    → Entries b0 b'
unfolding bind_line
bind_line-Entries s c r v b0 b b' before h = elim (Option-cases v.po_line_id) [
  | inl unordered ↦
      let same : b ≡ b' = ground (arith, unordered) in
      subst (λ (x : Books). Entries b0 x) same before
  | inr (p, ordered) ↦
      bind_comparator-Entries s c r p v.expected_po_generation b0 b b' before (rw ordered at h)
]

observe_line-Entries :
    (s : Session) (c : Catalog) (r : Receipt) (m : Item) (v : LineValues) (row : ReceiptLine)
    (b0 b b' : Books)
    → Entries b0 b
    → observe_line s c r m v b ≡ ok (row, b')
    → Entries b0 b'
unfolding observe_line
observe_line-Entries s c r m v row b0 b b' before h = elim (Option-cases v.unit) [
  | inl plain ↦
      then_entry b b' before
        (insert_line-Entry s c (plain_line r.id v) row b b' (ground (arith, plain)))
  | inr (u, serial) ↦ record_unit-Entries s c r v u row b0 b b' before (ground (arith, serial))
]

pub record_line-Entries :
    (s : Session) (c : Catalog) (r : Receipt) (v : LineValues) (row : ReceiptLine) (b0 b b' : Books)
    → Entries b0 b
    → record_line s c r v b ≡ ok (row, b')
    → Entries b0 b'
unfolding record_line
record_line-Entries s c r v row b0 b b' before h = elim (Result-cases (bind_line s c r v b)) [
  | inr (e, refused) ↦ ground (arith, refused)
  | inl (b1, bound) ↦ elim (Option-cases (find_item v.item_id c.items)) [
    | inl missing ↦ ground (arith, bound, missing)
    | inr (m, found) ↦ elim (Result-cases (observe_line s c r m v b1)) [
      | inr (e, refused) ↦ ground (arith, bound, found, refused)
      | inl ((l, b2), seen) ↦
          elim (Result-cases
            (record_exceptions s c l (unit_unreadable b1 v) (unit_conflict b1 v) b2)) [
              | inr (e, refused) ↦ ground (arith, bound, found, seen, refused)
              | inl (b3, noted) ↦
                  let same : b3 ≡ b' = ground (arith, bound, found, seen, noted) in
                  let up_to_line =
                    observe_line-Entries s c r m v l b0 b1 b2
                      (bind_line-Entries s c r v b0 b b1 before bound) seen in
                  subst (λ (x : Books). Entries b0 x) same
                    (record_exceptions-Entries s c l (unit_unreadable b1 v) (unit_conflict b1 v) b0
                      b2 b3 up_to_line noted)
            ]
    ]
  ]
]
