-- ===== src/Procurement/Invariant.antt =====
-- What every accepted operation keeps of the orders and lines.
use mathlib.Core.Path.{subst}
use defiant_fleet_ops.Base.{
  ℕ, ◌<◌, ◌≡◌, inl, inr, refl, sym, ◌∙◌, arith, Bool, true, false, ◌&&◌, Option, none, some, List,
  [], ◌∷◌, ◌==◌, any, find, map, All, All-map, Bool-cases, ==_eq, names, IsDistinct, held_present,
  find-All, if◌then◌else◌,
}
use defiant_fleet_ops.Procurement.{
  Order, Line, Tables, succeeds, replace_line, replace_order, issuance_admitted,
}
use defiant_fleet_ops.Procurement.Lineage.{
  line_key, is_root_like, is_lineal, IsPlaced, IsLineage, IsLineage-IsDistinct,
}
use defiant_fleet_ops.Procurement.Steps.{Steps, unchanged, stepped}
use defiant_fleet_ops.Procurement.Rows.{KeepsKeys, IsBounded}
use defiant_fleet_ops.Procurement.Changes.{
  Change, kept, order_added, order_replaced, line_added, line_replaced, Step-Change,
}

any-map :
    (f : Line → Line) (p p' : Line → Bool) (lines : List Line)
    → All (λ q. p' (f q) ≡ p q) lines
    → any p' (map f lines) ≡ any p lines
any-map f p p' [] h = refl
any-map f p p' (q ∷ lines) (first, h) = ground (arith, first, any-map f p p' lines h)

root_like_kept :
    (l l' q q' : Line) → KeepsKeys l l' → KeepsKeys q q' → is_root_like l' q' ≡ is_root_like l q
root_like_kept l l' q q' (_, a, b, _) (_, c, d, e) = ground (arith, a, b, c, d, e)

lineal_kept :
    (l l' : Line) (p : ℕ) (q q' : Line)
    → KeepsKeys l l'
    → KeepsKeys q q'
    → is_lineal l' p q' ≡ is_lineal l p q
lineal_kept l l' p q q' (_, a, b, _) (i, c, d, _) = ground (arith, a, b, c, d, i)

IsPlaced-map :
    (f : Line → Line) (l : Line) (lines : List Line) (o : Option ℕ)
    → KeepsKeys l (f l)
    → All (λ q. KeepsKeys q (f q)) lines
    → IsPlaced l lines o
    → IsPlaced (f l) (map f lines) o
IsPlaced-map f l lines none k all h =
    any-map f (is_root_like l) (is_root_like (f l)) lines
      (All-map (λ q e. root_like_kept l (f l) q (f q) k e) lines all)
    ∙ h
IsPlaced-map f l lines (some p) k all (lineal, unique) = (
  any-map f (is_lineal l p) (is_lineal (f l) p) lines
        (All-map (λ q e. lineal_kept l (f l) p q (f q) k e) lines all)
      ∙ lineal,
  any-map f (succeeds p) (succeeds p) lines
        (All-map (λ q e. let (_, _, _, s) = e in ground (arith, s)) lines all)
      ∙ unique,
)

pub IsLineage-map :
    (f : Line → Line) (lines : List Line)
    → All (λ q. KeepsKeys q (f q)) lines
    → IsLineage lines
    → IsLineage (map f lines)
IsLineage-map f [] all h = tt
IsLineage-map f (l ∷ lines) (k, all) (new, placed, h) =
    let (same_id, _, _, same) = k in
    (
      subst (λ (i : ℕ). any (names line_key i) (map f lines) ≡ false) (sym same_id)
          (any-map f (names line_key l.id) (names line_key l.id) lines
              (All-map (λ q e. let (i, _, _, _) = e in ground (arith, i)) lines all)
            ∙ new),
      subst (IsPlaced (f l) (map f lines)) (sym same)
          (IsPlaced-map f l lines l.supersedes_line_id k all placed),
      IsLineage-map f lines all h,
    )

All-change :
    (P : Line → Type 0) (f : Line → Line) (lines : List Line)
    → All (λ q. P q → P (f q)) lines
    → All P lines
    → All P (map f lines)
All-change P f [] k h = tt
All-change P f (l ∷ lines) (k, ks) (p, h) = (k p, All-change P f lines ks h)

untouched :
    (u : Line) (lines : List Line)
    → any (names line_key u.id) lines ≡ false
    → All (λ q. KeepsKeys q (if q.id == u.id then u else q)) lines
untouched u [] h = tt
untouched u (q ∷ lines) h =
    let other : (q.id == u.id) ≡ false = ground arith in
    (rw other (refl, refl, refl, refl), untouched u lines (ground arith))

-- A replacement of a row by one with its keys, in a table with distinct identifiers.
pub replaced_keys :
    (u old : Line) (lines : List Line)
    → KeepsKeys old u
    → IsDistinct line_key lines
    → find (names line_key old.id) lines ≡ some old
    → All (λ q. KeepsKeys q (if q.id == u.id then u else q)) lines
replaced_keys u old [] k d h = tt
replaced_keys u old (q ∷ lines) k (new, d) h = elim (Bool-cases (q.id == u.id)) [
  | inr other ↦
      let (same_id, _, _, _) = k in
      (
        rw other (refl, refl, refl, refl),
        replaced_keys u old lines k d (ground (arith, h, other, same_id)),
      )
  | inl here ↦
      let (same_id, _, _, _) = k in
      let same : q ≡ old = ground (arith, h, here, same_id) in
      let absent : any (names line_key u.id) lines ≡ false =
        subst (λ (i : ℕ). any (names line_key i) lines ≡ false) (==_eq q.id u.id here) new in
      (rw here (subst (λ (x : Line). KeepsKeys x u) (sym same) k), untouched u lines absent)
]

-- What is kept of the orders and lines of an organization.
pub record IsSound (t : Tables) : Type 0 where
  pub lineage : IsLineage t.lines
  pub bounded : All IsBounded t.lines
  pub attributed : All (λ o. issuance_admitted o ≡ true) t.orders

-- A key found in one order is found in the table.
pub key_found :
    (old : Line) (lines : List Line)
    → IsDistinct line_key lines
    → find (λ l. l.po_id == old.po_id && l.id == old.id) lines ≡ some old
    → find (names line_key old.id) lines ≡ some old
key_found old [] d h = ground arith
key_found old (q ∷ lines) (new, d) h = elim (Bool-cases (q.id == old.id)) [
  | inr other ↦ rw other (key_found old lines d (ground (arith, h, other)))
  | inl same ↦ elim (Bool-cases (q.po_id == old.po_id)) [
    | inl own ↦ rw same (ground (arith, h, own, same))
    | inr foreign ↦
        let later = key_found old lines d (ground (arith, h, foreign)) in
        let there = held_present line_key lines old later in
        let absent =
          subst (λ (i : ℕ). any (names line_key i) lines ≡ false) (==_eq q.id old.id same) new in
        ground (arith, there, absent)
  ]
]

IsBounded-kept :
    (u q : Line) → IsBounded u → IsBounded q → IsBounded (if q.id == u.id then u else q)
IsBounded-kept u q bu bq = elim (Bool-cases (q.id == u.id)) [
  | inl same ↦ rw same bu
  | inr other ↦ rw other bq
]

All-always : (P : Line → Type 0) (lines : List Line) → ((l : Line) → P l) → All P lines
All-always P [] h = tt
All-always P (l ∷ lines) h = (h l, All-always P lines h)

replaced_bounds :
    (old u : Line) (lines : List Line)
    → KeepsKeys old u
    → 0 < u.quantity
    → IsBounded old
    → All IsBounded lines
    → All IsBounded (replace_line u lines)
replaced_bounds old u lines (_, _, number, _) quantity (positive, small, _) all =
    let bu : IsBounded u =
      (omega (arith, positive, number), omega (arith, small, number), quantity) in
    All-change IsBounded (λ q. if q.id == u.id then u else q) lines
      (All-always (λ q. IsBounded q → IsBounded (if q.id == u.id then u else q)) lines
        (λ q. IsBounded-kept u q bu))
      all

replaced_orders :
    (u : Order) (orders : List Order)
    → issuance_admitted u ≡ true
    → All (λ o. issuance_admitted o ≡ true) orders
    → All (λ o. issuance_admitted o ≡ true) (replace_order u orders)
replaced_orders u [] h all = tt
replaced_orders u (o ∷ orders) h (first, all) = elim (Bool-cases (o.id == u.id)) [
  | inl same ↦ rw same (h, replaced_orders u orders h all)
  | inr other ↦ rw other (first, replaced_orders u orders h all)
]

pub Change-IsSound : (t t' : Tables) → IsSound t → Change t t' → IsSound t'
Change-IsSound t t' i (kept same) = subst IsSound same i
Change-IsSound t t' i (order_added o fresh issuance same) =
    subst IsSound same
      record { lineage = i.lineage; bounded = i.bounded; attributed = (issuance, i.attributed) }
Change-IsSound t t' i (order_replaced old u found open_old same_id issuance same) =
    subst IsSound same record {
      lineage = i.lineage;
      bounded = i.bounded;
      attributed = replaced_orders u t.orders issuance i.attributed;
    }
Change-IsSound t t' i (line_added l fresh placed bounded same) = subst IsSound same record {
  lineage = (fresh, placed, i.lineage);
  bounded = (bounded, i.bounded);
  attributed = i.attributed;
}
Change-IsSound t t' i (line_replaced old u o found known open_order keys quantity same) =
    let distinct = IsLineage-IsDistinct t.lines i.lineage in
    let held = key_found old t.lines distinct found in
    subst IsSound same record {
      lineage =
          IsLineage-map (λ q. if q.id == u.id then u else q) t.lines
            (replaced_keys u old t.lines keys distinct held) i.lineage;
      bounded =
          replaced_bounds old u t.lines keys quantity
            (find-All IsBounded (names line_key old.id) t.lines old i.bounded held) i.bounded;
      attributed = i.attributed;
    }

-- Whatever accepted operations are applied to the orders and lines of an organization, in whatever
-- order, each line stays in a lineage, as the only root of its line number or as the only successor of
-- an older version of its line; line numbers stay between 1 and what the column holds and quantities
-- positive; and the time of issue and the issuer of an order are set together, not on a
-- draft, and on every issued order.
pub Steps-IsSound : (t t' : Tables) → IsSound t → Steps t t' → IsSound t'
Steps-IsSound t t' i unchanged = i
Steps-IsSound t t' i (stepped t1 _ before step) =
    Change-IsSound t1 t' (Steps-IsSound t t1 i before) (Step-Change t1 t' step)
