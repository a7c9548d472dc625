-- ===== src/Receiving/Performed.antt =====
-- Each operation of the receiving services is a sequence of elementary entries.
use mathlib.Core.Path.{subst}
use defiant_fleet_ops.Base.{
  ℕ, ◌≡◌, inl, inr, arith, Bool, true, false, not, List, [], ◌∷◌, Result-cases, Result, ok, err,
  ◌>>=◌, >>=-eq-ok, guard-eq-ok, receiving_conflict,
}
use defiant_fleet_ops.Ledger.{Session}
use defiant_fleet_ops.Receiving.Books.{Receipt, Books, Catalog, is_reconciled}
use defiant_fleet_ops.Receiving.Guards.{insert_receipt, insert_reconciliation}
use defiant_fleet_ops.Receiving.Service.{
  constraints, lock, bind_comparator, insert_exceptions, LineValues, record_line,
  quantity_exceptions, reconcile,
}
use defiant_fleet_ops.Receiving.Recording.{
  bind_all, record_all, close_if, ReceiptValues, capture_receipt, append_line, close_receipt,
  create_receipt, add_line, reconcile_receipt, Step, created, appended, reconciled,
}
use defiant_fleet_ops.Receiving.Entries.{
  Entries, no_entry, then_entry, insert_reconciliation-Entry, insert_receipt-Entry,
}
use defiant_fleet_ops.Receiving.Made.{
  bind_comparator-Entries, insert_exceptions-Entries, record_line-Entries,
}

constraints-eq-ok : {A : Type 0} (m : Result A) (a : A) → constraints m ≡ ok a → m ≡ ok a
unfolding constraints
constraints-eq-ok (ok b) a h = h
constraints-eq-ok (err e) a h = ground arith

bind_all-Entries :
    (s : Session) (c : Catalog) (r : Receipt) (bindings : List (ℕ × ℕ)) (b0 b b' : Books)
    → Entries b0 b
    → bind_all s c r bindings b ≡ ok b'
    → Entries b0 b'
unfolding bind_all
bind_all-Entries s c r [] b0 b b' before h =
    let same : b ≡ b' = ground (arith, h) in subst (λ (x : Books). Entries b0 x) same before
bind_all-Entries s c r (k ∷ bindings) b0 b b' before h =
    let (b1, first, rest) =
      >>=-eq-ok (bind_comparator s c r k.0 k.1 b) (λ b1. bind_all s c r bindings b1) h in
    bind_all-Entries s c r bindings b0 b1 b'
      (bind_comparator-Entries s c r k.0 k.1 b0 b b1 before first) rest

record_all-Entries :
    (s : Session) (c : Catalog) (r : Receipt) (lines : List LineValues) (b0 b b' : Books)
    → Entries b0 b
    → record_all s c r lines b ≡ ok b'
    → Entries b0 b'
unfolding record_all
record_all-Entries s c r [] b0 b b' before h =
    let same : b ≡ b' = ground (arith, h) in subst (λ (x : Books). Entries b0 x) same before
record_all-Entries s c r (v ∷ lines) b0 b b' before h =
    let (made, first, rest) =
      >>=-eq-ok (record_line s c r v b) (λ m. record_all s c r lines m.1) h in
    record_all-Entries s c r lines b0 made.1 b'
      (record_line-Entries s c r v made.0 b0 b made.1 before first) rest

reconcile-Entries :
    (s : Session) (c : Catalog) (r : Receipt) (b0 b b' : Books)
    → Entries b0 b
    → reconcile s c r b ≡ ok b'
    → Entries b0 b'
unfolding reconcile
reconcile-Entries s c r b0 b b' before h =
    let closing = insert_reconciliation s r.id b >>= λ b1.
    insert_exceptions s c (quantity_exceptions r.id c.order_lines b1) b1 in
    let (_, h1) = guard-eq-ok (not (is_reconciled r.id b)) receiving_conflict closing h in
    let (b1, closed, rest) =
      >>=-eq-ok (insert_reconciliation s r.id b)
        (λ b1. insert_exceptions s c (quantity_exceptions r.id c.order_lines b1) b1) h1 in
    insert_exceptions-Entries s c (quantity_exceptions r.id c.order_lines b1) b0 b1 b'
      (then_entry b b1 before (insert_reconciliation-Entry s r.id b b1 closed)) rest

close_if-Entries :
    (now : Bool) (s : Session) (c : Catalog) (r : Receipt) (b0 b b' : Books)
    → Entries b0 b
    → close_if now s c r b ≡ ok b'
    → Entries b0 b'
close_if-Entries true s c r b0 b b' before h = reconcile-Entries s c r b0 b b' before h
close_if-Entries false s c r b0 b b' before h =
    let same : b ≡ b' = ground (arith, h) in subst (λ (x : Books). Entries b0 x) same before

capture_receipt-Entries :
    (s : Session) (c : Catalog) (b b' : Books) (v : ReceiptValues)
    → capture_receipt s c b v ≡ ok b'
    → Entries b b'
unfolding capture_receipt
capture_receipt-Entries s c b b' v h =
    let r = v.receipt in
    elim (Result-cases (insert_receipt s c r b)) [
      | inr (e, refused) ↦ ground (arith, refused)
      | inl (b1, first) ↦ elim (Result-cases (bind_all s c r v.bindings b1)) [
        | inr (e, refused) ↦ ground (arith, first, refused)
        | inl (b2, bound) ↦ elim (Result-cases (record_all s c r v.lines b2)) [
          | inr (e, refused) ↦ ground (arith, first, bound, refused)
          | inl (b3, lined) ↦ elim (Result-cases (close_if v.reconcile_now s c r b3)) [
            | inr (e, refused) ↦ ground (arith, first, bound, lined, refused)
            | inl (b4, closed) ↦
                let same : b4 ≡ b' = ground (arith, first, bound, lined, closed) in
                let one = then_entry b b1 no_entry (insert_receipt-Entry s c r b b1 first) in
                let two = bind_all-Entries s c r v.bindings b b1 b2 one bound in
                let three = record_all-Entries s c r v.lines b b2 b3 two lined in
                subst (λ (x : Books). Entries b x) same
                  (close_if-Entries v.reconcile_now s c r b b3 b4 three closed)
          ]
        ]
      ]
    ]

append_line-Entries :
    (s : Session) (c : Catalog) (b b' : Books) (i : ℕ) (v : LineValues)
    → append_line s c b i v ≡ ok b'
    → Entries b b'
unfolding append_line
append_line-Entries s c b b' i v h = elim (Result-cases (lock s b i)) [
  | inr (e, refused) ↦ ground (arith, refused)
  | inl (r, locked) ↦ elim (Result-cases (record_line s c r v b)) [
    | inr (e, refused) ↦ ground (arith, locked, refused)
    | inl ((row, b1), made) ↦
        let same : b1 ≡ b' = ground (arith, locked, made) in
        subst (λ (x : Books). Entries b x) same
          (record_line-Entries s c r v row b b b1 no_entry made)
  ]
]

close_receipt-Entries :
    (s : Session) (c : Catalog) (b b' : Books) (i : ℕ)
    → close_receipt s c b i ≡ ok b'
    → Entries b b'
unfolding close_receipt
close_receipt-Entries s c b b' i h = elim (Result-cases (lock s b i)) [
  | inr (e, refused) ↦ ground (arith, refused)
  | inl (r, locked) ↦ elim (Result-cases (reconcile s c r b)) [
    | inr (e, refused) ↦ ground (arith, locked, refused)
    | inl (b1, closed) ↦
        let same : b1 ≡ b' = ground (arith, locked, closed) in
        subst (λ (x : Books). Entries b x) same (reconcile-Entries s c r b b b1 no_entry closed)
  ]
]

pub Step-Entries : (b b' : Books) → Step b b' → Entries b b'
unfolding create_receipt add_line reconcile_receipt
Step-Entries b b' (created s c v _ h) =
    capture_receipt-Entries s c b b' v (constraints-eq-ok (capture_receipt s c b v) b' h)
Step-Entries b b' (appended s c i v _ h) =
    append_line-Entries s c b b' i v (constraints-eq-ok (append_line s c b i v) b' h)
Step-Entries b b' (reconciled s c i _ h) =
    close_receipt-Entries s c b b' i (constraints-eq-ok (close_receipt s c b i) b' h)
