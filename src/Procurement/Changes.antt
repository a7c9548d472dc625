-- ===== src/Procurement/Changes.antt =====
-- What an accepted operation has done to the tables.
use mathlib.Core.Path.{subst}
use defiant_fleet_ops.Base.{
  ok_same, ℕ, ◌<◌, ◌≡◌, inl, inr, refl, sym, ap, ◌∙◌, arith, Bool, true, false, ◌&&◌, Option, some,
  List, ◌∷◌, ◌==◌, any, find, find-holds, is_none, Bool-cases, Option-cases, ok, ==_eq, names,
  Result-cases, >>=-eq-ok, guard-eq-ok, then_branch, else_branch, if◌then◌else◌,
}
use defiant_fleet_ops.Ledger.{Session, performer}
use defiant_fleet_ops.Procurement.{
  issued, Order, Line, Reference, Tables, find_order, insert_line, replace_line, update_line_row,
  insert_order, update_order_row, replace_order, is_draft, issuance_admitted, is_open,
}
use defiant_fleet_ops.Procurement.Services.{
  OrderValues, OrderEdit, LineValues, changes_nothing, new_order, edited_order, constraints,
  LineEdit, edited_line, edits_nothing, get_line, get_order, new_line, number_of, require_draft,
  require_issued, create_order, update_order, issue_order, create_line, update_line,
}
use defiant_fleet_ops.Procurement.Lineage.{line_key, IsPlaced}
use defiant_fleet_ops.Procurement.Steps.{
  Step, order_created, order_updated, order_issued, line_created, line_updated,
}
use defiant_fleet_ops.Procurement.Rows.{
  KeepsKeys, IsBounded, constraints-eq-ok, insert_line-IsPlaced, own_key, insert_order-added,
  update_order_row-replaced,
}

-- The five ways in which an accepted operation changes the tables.
pub data Change (t t' : Tables) : Type 0 where
  kept : t ≡ t' → Change t t'
  order_added :
      (o : Order)
      → any (λ p. p.id == o.id) t.orders ≡ false
      → issuance_admitted o ≡ true
      → record t { orders = o ∷ t.orders } ≡ t'
      → Change t t'
  order_replaced :
      (old u : Order)
      → find_order old.id t.orders ≡ some old
      → is_open old ≡ true
      → u.id ≡ old.id
      → issuance_admitted u ≡ true
      → record t { orders = replace_order u t.orders } ≡ t'
      → Change t t'
  line_added :
      (l : Line)
      → any (names line_key l.id) t.lines ≡ false
      → IsPlaced l t.lines l.supersedes_line_id
      → IsBounded l
      → record t { lines = l ∷ t.lines } ≡ t'
      → Change t t'
  line_replaced :
      (old u : Line) (o : Order)
      → find (λ l. l.po_id == old.po_id && l.id == old.id) t.lines ≡ some old
      → find_order old.po_id t.orders ≡ some o
      → is_open o ≡ true
      → KeepsKeys old u
      → 0 < u.quantity
      → record t { lines = replace_line u t.lines } ≡ t'
      → Change t t'

module _ (s : Session) (r : Reference) (now : ℕ) (t t' : Tables) where
  got_order :
      (po_id : ℕ) (o : Order) → get_order t po_id ≡ ok o → find_order po_id t.orders ≡ some o
  unfolding get_order
  got_order po_id o h = elim (Option-cases (find_order po_id t.orders)) [
    | inl unknown ↦ ground (arith, unknown)
    | inr (p, found) ↦ ground (arith, found)
  ]

  create_order-Change :
      (id who : ℕ) (v : OrderValues) → create_order s r now t id who v ≡ ok t' → Change t t'
  unfolding create_order
  create_order-Change id who v h =
      let (orders, inserted, result) =
        >>=-eq-ok (constraints (insert_order s r now (new_order id who v) t.orders)) _ h in
      let (o, added, fresh, issuance) =
        insert_order-added s r now (new_order id who v) t.orders orders
          (constraints-eq-ok _ orders inserted) in
      order_added o fresh issuance
        (ap (λ (x : List Order). record t { orders = x }) added ∙ ok_same _ t' result)

  replaced_order :
      (po_id : ℕ) (old new u : Order) (orders : List Order)
      → find_order po_id t.orders ≡ some old
      → new.id ≡ old.id
      → update_order_row s r now old new t.orders ≡ ok (u, orders)
      → record t { orders = orders } ≡ t'
      → Change t t'
  replaced_order po_id old new u orders found same h result =
      let (open_old, written, same_id, issuance) =
        update_order_row-replaced s r now old new u t.orders orders h in
      let same_po : old.id ≡ po_id =
        ==_eq old.id po_id (find-holds (λ (o : Order). o.id == po_id) t.orders old found) in
      order_replaced old u (subst (λ (i : ℕ). find_order i t.orders ≡ some old) (sym same_po) found)
        open_old (same_id ∙ same) issuance
        (ap (λ (x : List Order). record t { orders = x }) written ∙ result)

  update_order-Change :
      (po_id : ℕ) (v : OrderEdit) (o : Order)
      → update_order s r now t po_id v ≡ ok (o, t')
      → Change t t'
  unfolding update_order
  update_order-Change po_id v o h =
      let (old, got, h1) = >>=-eq-ok (get_order t po_id) _ (constraints-eq-ok _ (o, t') h) in
      let (draft_old, h2) = guard-eq-ok (is_draft old.status) _ _ h1 in
      elim (Bool-cases (changes_nothing v)) [
        | inl nothing ↦
            let pair = ok_same (old, t) (o, t') (then_branch (changes_nothing v) _ _ nothing h2) in
            kept (ap (λ (x : Order × Tables). x.1) pair)
        | inr edits ↦
            let (u, updated, h3) =
              >>=-eq-ok (update_order_row s r now old (edited_order v old) t.orders) _
                (else_branch (changes_nothing v) _ _ edits h2) in
            replaced_order po_id old (edited_order v old) u.0 u.1 (got_order po_id old got) refl
              updated (ap (λ (x : Order × Tables). x.1) (ok_same _ (o, t') h3))
      ]

  issue_order-Change :
      (po_id : ℕ) (o : Order) → issue_order s r now t po_id ≡ ok (o, t') → Change t t'
  unfolding issue_order
  issue_order-Change po_id o h =
      let (old, got, h1) = >>=-eq-ok (get_order t po_id) _ (constraints-eq-ok _ (o, t') h) in
      let (draft_old, h2) = guard-eq-ok (is_draft old.status) _ _ h1 in
      let (u, updated, h3) =
        >>=-eq-ok (update_order_row s r now old (record old { status = issued }) t.orders) _ h2 in
      replaced_order po_id old (record old { status = issued }) u.0 u.1 (got_order po_id old got)
        refl updated (ap (λ (x : Order × Tables). x.1) (ok_same _ (o, t') h3))

  create_line-Change :
      (id po_id who : ℕ) (predecessor_id : Option ℕ) (v : LineValues) (row : Line × Bool)
      → create_line s r now t id po_id who predecessor_id v ≡ ok (row, t')
      → Change t t'
  unfolding create_line
  create_line-Change id po_id who predecessor_id v row h =
      let (o, got, h1) = >>=-eq-ok (get_order t po_id) _ (constraints-eq-ok _ (row, t') h) in
      let (done, state, h2) =
        >>=-eq-ok (if is_none predecessor_id then require_draft o else require_issued o) _ h1 in
      let (number, numbered, h3) = >>=-eq-ok (number_of t po_id predecessor_id v) _ h2 in
      let (lines, inserted, h4) =
        >>=-eq-ok (insert_line s r now (new_line id po_id who predecessor_id number v) t) _ h3 in
      let (read, got_row, h5) = >>=-eq-ok (get_line (record t { lines = lines }) po_id id) _ h4 in
      let (l, added, _, _, _, _, fresh, placed, bounded) =
        insert_line-IsPlaced s r now (new_line id po_id who predecessor_id number v) t lines
          inserted in
      line_added l fresh placed bounded (
        ap (λ (x : List Line). record t { lines = x }) added
        ∙ ap (λ (x : (Line × Bool) × Tables). x.1) (ok_same _ (row, t') h5))

  got_line :
      (po_id line_id : ℕ) (old : Line × Bool)
      → get_line t po_id line_id ≡ ok old
      → find (λ l. l.po_id == po_id && l.id == line_id) t.lines ≡ some old.0
  unfolding get_line
  got_line po_id line_id old h =
      elim (Option-cases (find (λ (l : Line). l.po_id == po_id && l.id == line_id) t.lines)) [
        | inl unknown ↦ ground (arith, unknown)
        | inr (l, found) ↦ let same : l ≡ old.0 = ground (arith, found) in found ∙ ap some same
      ]

  update_line_row-replaced :
      (old new : Line) (lines : List Line)
      → KeepsKeys old new
      → find (λ l. l.po_id == old.po_id && l.id == old.id) t.lines ≡ some old
      → update_line_row s r now old new t ≡ ok lines
      → record t { lines = lines } ≡ t'
      → Change t t'
  unfolding update_line_row
  update_line_row-replaced old new lines keys found h result =
      elim (Option-cases (find_order old.po_id t.orders)) [
        | inl unknown ↦ ground (arith, unknown)
        | inr (o, known) ↦ elim (Result-cases (performer s)) [
          | inr (e, refused) ↦ ground (arith, known, refused)
          | inl (who, performed) ↦
              line_replaced old (record new { updated_by_actor_id = who; updated_at = now }) o found
                known (ground (arith, known)) keys (ground (arith, known, performed))
                (ap (λ (x : List Line). record t { lines = x }) (ground (arith, known, performed))
                  ∙ result)
        ]
      ]

  update_line-Change :
      (po_id line_id : ℕ) (v : LineEdit) (row : Line × Bool)
      → update_line s r now t po_id line_id v ≡ ok (row, t')
      → Change t t'
  unfolding update_line
  update_line-Change po_id line_id v row h =
      let (o, got, h1) = >>=-eq-ok (get_order t po_id) _ (constraints-eq-ok _ (row, t') h) in
      let (draft_old, h2) = guard-eq-ok (is_draft o.status) _ _ h1 in
      let (old, got_old, h3) = >>=-eq-ok (get_line t po_id line_id) _ h2 in
      let (lines, updated, h4) =
        >>=-eq-ok
          (if edits_nothing v
            then ok t.lines
            else update_line_row s r now old.0 (edited_line v old.0) t)
          _ h3 in
      let (read, got_row, h5) =
        >>=-eq-ok (get_line (record t { lines = lines }) po_id line_id) _ h4 in
      let result = ap (λ (x : (Line × Bool) × Tables). x.1) (ok_same _ (row, t') h5) in
      let found = got_line po_id line_id old got_old in
      elim (Bool-cases (edits_nothing v)) [
        | inl nothing ↦
            let same = ok_same t.lines lines (then_branch (edits_nothing v) _ _ nothing updated) in
            kept (ap (λ (x : List Line). record t { lines = x }) same ∙ result)
        | inr edits ↦
            update_line_row-replaced old.0 (edited_line v old.0) lines (refl, refl, refl, refl)
              (own_key t.lines po_id line_id old.0 found)
              (else_branch (edits_nothing v) _ _ edits updated) result
      ]

-- Each accepted operation is one of the changes.
pub Step-Change : (t t' : Tables) → Step t t' → Change t t'
Step-Change t t' (order_created s r now id who v _ h) = create_order-Change s r now t t' id who v h
Step-Change t t' (order_updated s r now po_id v o _ h) =
    update_order-Change s r now t t' po_id v o h
Step-Change t t' (order_issued s r now po_id o _ h) = issue_order-Change s r now t t' po_id o h
Step-Change t t' (line_created s r now id po_id who predecessor_id v row _ h) =
    create_line-Change s r now t t' id po_id who predecessor_id v row h
Step-Change t t' (line_updated s r now po_id line_id v row _ h) =
    update_line-Change s r now t t' po_id line_id v row h
