-- ===== src/Procurement/Rows.antt =====
-- What an accepted INSERT or UPDATE of one row has found.
use mathlib.Core.Path.{subst}
use defiant_fleet_ops.Base.{
  ok_same, ℕ, ◌<◌, ◌≤◌, ◌≡◌, inl, inr, refl, sym, ap, ◌∙◌, arith, true, false, ◌&&◌, ◌||◌, Option,
  none, some, List, ◌∷◌, ◌==◌, any, find, find-holds, Option-cases, Result, ok, err, names,
  >>=-eq-ok, guard-eq-ok,
}
use defiant_fleet_ops.Ledger.{Session, performer, int_max}
use defiant_fleet_ops.Procurement.{
  Order, Line, Reference, Tables, find_order, find_item, insert_line, guard_line, line_check,
  insert_order, order_check, update_order_row, updated_order, replace_order, keeps_order, is_draft,
  is_issued, issuance_admitted, is_open,
}
use defiant_fleet_ops.Procurement.Services.{constraints}
use defiant_fleet_ops.Procurement.Lineage.{line_key, IsPlaced}

pub constraints-eq-ok : {A : Type 0} (m : Result A) (a : A) → constraints m ≡ ok a → m ≡ ok a
unfolding constraints
constraints-eq-ok (ok b) a h = h
constraints-eq-ok (err e) a h = ground arith

-- The CHECKs on the numbers of a line.
abbrev pub IsBounded : Line → Type 0
IsBounded l = (0 < l.line_number) × (l.line_number ≤ int_max) × (0 < l.quantity)

IsPlaced-by_guard :
    (o : Order) (l : Line) (lines : List Line) (p : Option ℕ)
    → l.supersedes_line_id ≡ p
    → guard_line o l lines ≡ ok tt
    → line_check l lines ≡ ok tt
    → IsPlaced l lines p
unfolding guard_line line_check
IsPlaced-by_guard o l lines none s g c = ground (arith, s)
IsPlaced-by_guard o l lines (some p) s g c = (ground (arith, s), ground (arith, s))

-- What an accepted INSERT of a line has found.
pub insert_line-IsPlaced :
    (s : Session) (r : Reference) (now : ℕ) (l : Line) (t : Tables) (lines : List Line)
    → insert_line s r now l t ≡ ok lines
    → (l' : Line) × (l' ∷ t.lines ≡ lines)
      × (l'.id ≡ l.id)
      × (l'.po_id ≡ l.po_id)
      × (l'.line_number ≡ l.line_number)
      × (l'.supersedes_line_id ≡ l.supersedes_line_id)
      × (any (names line_key l'.id) t.lines ≡ false)
      × IsPlaced l' t.lines l'.supersedes_line_id
      × IsBounded l'
unfolding insert_line line_check
insert_line-IsPlaced s r now l t lines h = elim (Option-cases (find_order l.po_id t.orders)) [
  | inl unknown ↦ ground (arith, unknown)
  | inr (o, found) ↦ elim (Option-cases (find_item l.item_id r.items)) [
    | inl no_item ↦ ground (arith, found, no_item)
    | inr (m, item) ↦
        let guarded : guard_line o l t.lines ≡ ok tt = ground (arith, found, item) in
        let checked : line_check l t.lines ≡ ok tt = ground (arith, found, item) in
        (
          record l { uom = m.uom; created_at = now; updated_at = now },
          ground (arith, found, item),
          refl,
          refl,
          refl,
          refl,
          ground (arith, checked),
          IsPlaced-by_guard o l t.lines l.supersedes_line_id refl guarded checked,
          (ground (arith, checked), ground (arith, found, item), ground (arith, checked)),
        )
  ]
]

-- The columns of identity and lineage.
abbrev pub KeepsKeys : Line → Line → Type 0
KeepsKeys q q' =
    (q'.id ≡ q.id)
    × (q'.po_id ≡ q.po_id)
    × (q'.line_number ≡ q.line_number)
    × (q'.supersedes_line_id ≡ q.supersedes_line_id)

pub own_key :
    (lines : List Line) (po_id line_id : ℕ) (l : Line)
    → find (λ q. q.po_id == po_id && q.id == line_id) lines ≡ some l
    → find (λ q. q.po_id == l.po_id && q.id == l.id) lines ≡ some l
own_key lines po_id line_id l h =
    let holds = find-holds (λ (q : Line). q.po_id == po_id && q.id == line_id) lines l h in
    let po : l.po_id ≡ po_id = ground (arith, holds) in
    let i : l.id ≡ line_id = ground (arith, holds) in
    ap (λ (k : ℕ). find (λ (q : Line). q.po_id == k && q.id == l.id) lines) po
    ∙ ap (λ (k : ℕ). find (λ (q : Line). q.po_id == po_id && q.id == k) lines) i
    ∙ h

pub insert_order-added :
    (s : Session) (r : Reference) (now : ℕ) (o : Order) (orders orders' : List Order)
    → insert_order s r now o orders ≡ ok orders'
    → (o' : Order) × (o' ∷ orders ≡ orders')
      × (any (λ p. p.id == o'.id) orders ≡ false)
      × (issuance_admitted o' ≡ true)
unfolding insert_order order_check
insert_order-added s r now o orders orders' h =
    (record o { created_at = now; updated_at = now }, ground arith, ground arith, ground arith)

pub issuance_checked :
    (r : Reference) (o : Order) → order_check r o ≡ ok tt → issuance_admitted o ≡ true
unfolding order_check
issuance_checked r o h = ground arith

pub update_order_row-replaced :
    (s : Session) (r : Reference) (now : ℕ) (old new u : Order) (orders orders' : List Order)
    → update_order_row s r now old new orders ≡ ok (u, orders')
    → (is_open old ≡ true)
      × (replace_order u orders ≡ orders')
      × (u.id ≡ new.id)
      × (issuance_admitted u ≡ true)
unfolding update_order_row updated_order
update_order_row-replaced s r now old new u orders orders' h =
    let (open_old, h1) = guard-eq-ok (is_open old) _ _ h in
    let (keeps, h2) = guard-eq-ok (keeps_order old new) _ _ h1 in
    let (status, h3) = guard-eq-ok (is_draft new.status || is_issued new.status) _ _ h2 in
    let (who, known, h4) = >>=-eq-ok (performer s) _ h3 in
    let (done, checked, h5) = >>=-eq-ok (order_check r (updated_order who now new)) _ h4 in
    let pair = ok_same _ (u, orders') h5 in
    let same = ap (λ (x : Order × List Order). x.0) pair in
    (
      open_old,
      ap (λ (o : Order). replace_order o orders) (sym same)
          ∙ ap (λ (x : Order × List Order). x.1) pair,
      sym (ap (λ (o : Order). o.id) same),
      subst (λ (o : Order). issuance_admitted o ≡ true) same
          (issuance_checked r (updated_order who now new) checked),
    )
