-- ===== src/Procurement/Issued.antt =====
-- What is issued does not change.
use mathlib.Core.Path.{subst}
use defiant_fleet_ops.Base.{
  some_same, ℕ, ◌≡◌, inl, inr, sym, ap, ◌∙◌, arith, true, false, some, List, ◌==◌, any, Bool-cases,
  ==_eq, names, find-replaced_other, found_named,
}
use defiant_fleet_ops.Procurement.{Order, Line, Tables, find_order, find_line, is_open, is_issued}
use defiant_fleet_ops.Procurement.Lineage.{line_key, IsLineage-IsDistinct}
use defiant_fleet_ops.Procurement.Steps.{Steps, unchanged, stepped}
use defiant_fleet_ops.Procurement.Changes.{
  Change, kept, order_added, order_replaced, line_added, line_replaced, Step-Change,
}
use defiant_fleet_ops.Procurement.Invariant.{IsSound, Steps-IsSound, key_found}

-- A new identifier is not one that is found.
order_other :
    (i : ℕ) (o p : Order) (orders : List Order)
    → any (λ q. q.id == p.id) orders ≡ false
    → find_order i orders ≡ some o
    → (p.id == i) ≡ false
order_other i o p orders fresh found = elim (Bool-cases (p.id == i)) [
  | inr other ↦ other
  | inl same ↦
      let same_id = ==_eq p.id i same in
      let there = found_named (λ (q : Order). q.id) i orders o found in
      let absent = subst (λ (k : ℕ). any (λ (q : Order). q.id == k) orders ≡ false) same_id fresh in
      ground (arith, there, absent)
]

line_other :
    (i : ℕ) (l p : Line) (lines : List Line)
    → any (names line_key p.id) lines ≡ false
    → find_line i lines ≡ some l
    → (p.id == i) ≡ false
line_other i l p lines fresh found = elim (Bool-cases (p.id == i)) [
  | inr other ↦ other
  | inl same ↦
      let same_id = ==_eq p.id i same in
      let there = found_named line_key i lines l found in
      let absent = subst (λ (k : ℕ). any (names line_key k) lines ≡ false) same_id fresh in
      ground (arith, there, absent)
]

issued_closed : (o : Order) → is_issued o.status ≡ true → is_open o ≡ true → false ≡ true
issued_closed o h k = ground arith

Change-order :
    (t t' : Tables) (i : ℕ) (o : Order)
    → find_order i t.orders ≡ some o
    → is_issued o.status ≡ true
    → Change t t'
    → find_order i t'.orders ≡ some o
Change-order t t' i o found h (kept same) =
    subst (λ (x : Tables). find_order i x.orders ≡ some o) same found
Change-order t t' i o found h (order_added p fresh issuance same) =
    let other = order_other i o p t.orders fresh found in
    subst (λ (x : Tables). find_order i x.orders ≡ some o) same (rw other found)
Change-order t t' i o found h (order_replaced old u known open_old same_id issuance same) =
    elim (Bool-cases (u.id == i)) [
      | inr other ↦
          subst (λ (x : Tables). find_order i x.orders ≡ some o) same
            (find-replaced_other (λ (o : Order). o.id) u i t.orders other ∙ found)
      | inl clash ↦
          let at_i = sym same_id ∙ ==_eq u.id i clash in
          let is_o =
            some_same old o
              (sym (subst (λ (k : ℕ). find_order k t.orders ≡ some old) at_i known) ∙ found) in
          let contradiction =
            issued_closed o h (subst (λ (x : Order). is_open x ≡ true) is_o open_old) in
          cc (contradiction)
    ]
Change-order t t' i o found h (line_added l fresh placed bounded same) =
    subst (λ (x : Tables). find_order i x.orders ≡ some o) same found
Change-order t t' i o found h (line_replaced old u p known order open_order keys quantity same) =
    subst (λ (x : Tables). find_order i x.orders ≡ some o) same found

Change-line :
    (t t' : Tables) (i : ℕ) (o : Order) (l : Line)
    → IsSound t
    → find_line i t.lines ≡ some l
    → find_order l.po_id t.orders ≡ some o
    → is_issued o.status ≡ true
    → Change t t'
    → find_line i t'.lines ≡ some l
Change-line t t' i o l sound found order h (kept same) =
    subst (λ (x : Tables). find_line i x.lines ≡ some l) same found
Change-line t t' i o l sound found order h (order_added p fresh issuance same) =
    subst (λ (x : Tables). find_line i x.lines ≡ some l) same found
Change-line t t' i o l sound found order h
      (order_replaced old u known open_old same_id issuance same) =
    subst (λ (x : Tables). find_line i x.lines ≡ some l) same found
Change-line t t' i o l sound found order h (line_added p fresh placed bounded same) =
    let other = line_other i l p t.lines fresh found in
    subst (λ (x : Tables). find_line i x.lines ≡ some l) same (rw other found)
Change-line t t' i o l sound found order h
      (line_replaced old u p known open_po open_order keys quantity same) =
    elim (Bool-cases (u.id == i)) [
      | inr other ↦
          subst (λ (x : Tables). find_line i x.lines ≡ some l) same
            (find-replaced_other line_key u i t.lines other ∙ found)
      | inl clash ↦
          let (same_id, _, _, _) = keys in
          let at_i : old.id ≡ i = sym same_id ∙ ==_eq u.id i clash in
          let held = key_found old t.lines (IsLineage-IsDistinct t.lines sound.lineage) known in
          let is_l =
            some_same old l
              (sym (subst (λ (k : ℕ). find_line k t.lines ≡ some old) at_i held) ∙ found) in
          let po = ap (λ (x : Line). x.po_id) is_l in
          let is_o =
            some_same p o
              (sym (subst (λ (k : ℕ). find_order k t.orders ≡ some p) po open_po) ∙ order) in
          let contradiction =
            issued_closed o h (subst (λ (x : Order). is_open x ≡ true) is_o open_order) in
          cc (contradiction)
    ]

-- An issued order is immutable, and so is each of its lines: whatever accepted operations follow, in
-- whatever order, the order and every version that it then had are found unchanged under their
-- identifiers.
pub Steps-issued :
    (t t' : Tables) (o : Order)
    → IsSound t
    → find_order o.id t.orders ≡ some o
    → is_issued o.status ≡ true
    → Steps t t'
    → (find_order o.id t'.orders ≡ some o)
      × ((l : Line)
          → find_line l.id t.lines ≡ some l
          → l.po_id ≡ o.id
          → find_line l.id t'.lines ≡ some l)
Steps-issued t t' o sound found h unchanged = (found, λ l k e. k)
Steps-issued t t' o sound found h (stepped t1 _ before step) =
    let (order, lines) = Steps-issued t t1 o sound found h before in
    let change = Step-Change t1 t' step in
    (
      Change-order t1 t' o.id o order h change,
      λ l k e.
          Change-line t1 t' l.id o l (Steps-IsSound t t1 sound before) (lines l k e)
            (subst (λ (i : ℕ). find_order i t1.orders ≡ some o) (sym e) order) h change,
    )
