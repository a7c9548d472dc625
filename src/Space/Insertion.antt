-- ===== src/Space/Insertion.antt =====
-- What an accepted INSERT of locations leaves, of one row or of many.
use mathlib.Core.Path.{subst}
use defiant_fleet_ops.Base.{
  ℕ, zero, suc, ◌≡◌, inl, inr, ap, ◌∙◌, arith, Bool, true, false, not, ◌||◌, none, some, List, [],
  ◌∷◌, ◌==◌, any, find, has, length, is_some, is_none, All, find-holds, find-All, All-map,
  Bool-cases, Option-cases, ok, found_present, >>=-eq-ok,
}
use defiant_fleet_ops.Ledger.{Session}
use defiant_fleet_ops.Space.{
  Facility, Location, Space, parent_of, is_at, ancestry, ancestors, is_cyclic, top, rows_of,
  write_row, write_rows, after_row, after_rows, insert_locations,
}
use defiant_fleet_ops.Space.Ancestry.{id_of}
use defiant_fleet_ops.Space.Chains.{IsChain}
use defiant_fleet_ops.Space.Path.{ancestors-IsChain, ancestors-walk}

-- Each location of the table leads to a root.
abbrev pub IsRooted : List Location → Type 0
IsRooted t = All (λ l. (ps : List Location) × IsChain t l ps) t

-- A new row in front, whose identifier is new, changes no parent.
parent-kept :
    (r : Location) (t : List Location) (l p : Location)
    → any (λ x. x.id == r.id) t ≡ false
    → parent_of t l ≡ some p
    → parent_of (r ∷ t) l ≡ some p
unfolding parent_of
parent-kept r t l p new h = elim (Option-cases l.parent_location_id) [
  | inl rootless ↦ ground (arith, rootless)
  | inr (i, named) ↦
      let found : find (is_at l.facility_id i) t ≡ some p = ground (arith, named) in
      let present = found_present id_of (is_at l.facility_id i) t p found in
      let holds = find-holds (is_at l.facility_id i) t p found in
      let other : (r.id == i) ≡ false = elim (Bool-cases (r.id == i)) [
        | inr differs ↦ differs
        | inl same ↦
            let same_id : p.id ≡ r.id = ground (arith, holds, same) in
            let there =
              subst (λ (k : ℕ). any (λ (x : Location). x.id == k) t ≡ true) same_id present in
            ground (arith, there)
      ] in
      ground (arith, named, other, found)
]

IsChain-kept :
    (r : Location) (t : List Location) (l : Location) (ps : List Location)
    → any (λ x. x.id == r.id) t ≡ false
    → IsChain t l ps
    → IsChain (r ∷ t) l ps
IsChain-kept r t l [] new c = c
IsChain-kept r t l (p ∷ ps) new c = (parent-kept r t l p new c.0, IsChain-kept r t p ps new c.1)

-- What the rows above have: each leads to a root of the table.
abbrev IsLed : List Location → List Location → Type 0
IsLed t ls = All (λ l. (ps : List Location) × IsChain t l ps) ls

IsLed-kept :
    (r : Location) (t ls : List Location)
    → any (λ x. x.id == r.id) t ≡ false
    → IsLed t ls
    → IsLed (r ∷ t) ls
IsLed-kept r t [] new h = tt
IsLed-kept r t (l ∷ ls) new ((ps, c), h) =
    ((ps, IsChain-kept r t l ps new c), IsLed-kept r t ls new h)

write_row-new :
    (l : Location) (t t' : List Location)
    → write_row l t ≡ ok t'
    → (any (λ r. r.id == l.id) t ≡ false) × (l ∷ t ≡ t')
unfolding write_row
write_row-new l t t' h = ground arith

write_rows-IsLed :
    (rows t t' ls : List Location) → write_rows rows t ≡ ok t' → IsLed t ls → IsLed t' ls
unfolding write_rows
write_rows-IsLed [] t t' ls h led =
    let same : t ≡ t' = ground arith in subst (λ (x : List Location). IsLed x ls) same led
write_rows-IsLed (l ∷ rows) t t' ls h led =
    let (t1, first, rest) = >>=-eq-ok (write_row l t) _ h in
    let (new, same) = write_row-new l t t1 first in
    write_rows-IsLed rows t1 t' ls rest
      (subst (λ (x : List Location). IsLed x ls) same (IsLed-kept l t ls new led))

write_rows-All :
    (P : Location → Type 0) (rows t t' : List Location)
    → write_rows rows t ≡ ok t'
    → All P rows
    → All P t
    → All P t'
unfolding write_rows
write_rows-All P [] t t' h new old = let same : t ≡ t' = ground arith in subst (All P) same old
write_rows-All P (l ∷ rows) t t' h new old =
    let (t1, first, rest) = >>=-eq-ok (write_row l t) _ h in
    let (fresh, same) = write_row-new l t t1 first in
    write_rows-All P rows t1 t' rest new.1 (subst (All P) same (new.0, old))

-- The reference to a parent is kept.
abbrev IsLinked : List Location → Location → Type 0
IsLinked t l = (is_none l.parent_location_id || is_some (parent_of t l)) ≡ true

IsChain-IsLinked :
    (t : List Location) (l : Location) (ps : List Location) → IsChain t l ps → IsLinked t l
IsChain-IsLinked t l [] c = ground (arith, c)
IsChain-IsLinked t l (p ∷ ps) c = elim (Bool-cases (is_none l.parent_location_id)) [
  | inl rootless ↦ ground (arith, rootless)
  | inr parented ↦ ground (arith, parented, c.0)
]

All-IsLinked : (t ls : List Location) → IsLed t ls → All (IsLinked t) ls
All-IsLinked t [] h = tt
All-IsLinked t (l ∷ ls) ((ps, c), h) = (IsChain-IsLinked t l ps c, All-IsLinked t ls h)

-- What after_rows has checked of each new row.
abbrev IsChecked : List Location → Location → Type 0
IsChecked t l =
    IsLinked t l × ((is_none l.parent_location_id || not (is_cyclic (ancestors t l))) ≡ true)

after_rows-IsChecked :
    (s : Session) (facilities : List Facility) (t rows : List Location)
    → after_rows s facilities t rows ≡ ok tt
    → All (IsChecked t) rows
unfolding after_rows after_row
after_rows-IsChecked s facilities t [] h = tt
after_rows-IsChecked s facilities t (l ∷ rows) h =
    let (u, first, rest) = >>=-eq-ok (after_row s facilities t l) _ h in
    ((ground arith, ground arith), after_rows-IsChecked s facilities t rows rest)

parent-All :
    (P : Location → Type 0) (t : List Location) (l p : Location)
    → All P t
    → parent_of t l ≡ some p
    → P p
unfolding parent_of
parent-All P t l p all h = elim (Option-cases l.parent_location_id) [
  | inl rootless ↦ ground (arith, rootless)
  | inr (i, named) ↦ find-All P (is_at l.facility_id i) t p all (ground (arith, named))
]

-- A walk without a cycle over rows that are linked ends at a root.
walk-root :
    (fuel : ℕ) (t : List Location) (visited : List ℕ) (l : Location) (rows : List (Location × Bool))
    → All (IsLinked t) t
    → IsLinked t l
    → ancestry fuel t visited l ≡ some rows
    → is_cyclic rows ≡ false
    → (top l rows).parent_location_id ≡ none
unfolding ancestry
walk-root zero t visited l rows all linked h c = ground arith
walk-root (suc fuel) t visited l rows all linked h c = elim (Option-cases (parent_of t l)) [
  | inl topmost ↦
      let nothing : [] ≡ rows = ground (arith, topmost) in
      let rootless : l.parent_location_id ≡ none = ground (arith, linked, topmost) in
      subst (λ (w : List (Location × Bool)). (top l w).parent_location_id ≡ none) nothing rootless
  | inr (p, found) ↦ elim (Bool-cases (has p.id visited)) [
    | inl again ↦ ground (arith, found, again)
    | inr first ↦ elim (Option-cases (ancestry fuel t (p.id ∷ visited) p)) [
      | inl spent ↦ ground (arith, found, first, spent)
      | inr (above, walked) ↦
          let whole : (p, false) ∷ above ≡ rows = ground (arith, found, first, walked) in
          let acyclic : is_cyclic ((p, false) ∷ above) ≡ false = ap is_cyclic whole ∙ c in
          subst (λ (w : List (Location × Bool)). (top l w).parent_location_id ≡ none) whole
            (walk-root fuel t (p.id ∷ visited) p above all (parent-All (IsLinked t) t l p all found)
              walked acyclic)
    ]
  ]
]

IsChecked-IsChain :
    (t : List Location)
    → All (IsLinked t) t
    → (l : Location) → IsChecked t l
    → (ps : List Location) × IsChain t l ps
IsChecked-IsChain t all l (linked, checked) = elim (Option-cases l.parent_location_id) [
  | inl rootless ↦ ([], rootless)
  | inr (i, named) ↦
      let acyclic : is_cyclic (ancestors t l) ≡ false = ground (arith, named, checked) in
      (
        rows_of (ancestors t l),
        ancestors-IsChain t l acyclic (
            walk-root (suc (length t)) t (l.id ∷ []) l (ancestors t l) all linked
              (ancestors-walk t l) acyclic),
      )
]

-- An INSERT that is accepted, of one location or of many at once and in any order, leaves each location
-- of the table on a complete path to a root, if each was before.
pub insert_locations-IsRooted :
    (s : Session) (rows : List Location) (space space' : Space)
    → IsRooted space.locations
    → insert_locations s rows space ≡ ok space'
    → IsRooted space'.locations
unfolding insert_locations
insert_locations-IsRooted s rows space space' rooted h =
    let (t, written, rest) = >>=-eq-ok (write_rows rows space.locations) _ h in
    let checks : after_rows s space.facilities t rows ≡ ok tt = ground arith in
    let result : record space { locations = t } ≡ space' = ground arith in
    let checked = after_rows-IsChecked s space.facilities t rows checks in
    let old = write_rows-IsLed rows space.locations t space.locations written rooted in
    let linked =
      write_rows-All (IsLinked t) rows space.locations t written (All-map (λ l c. c.0) rows checked)
        (All-IsLinked t space.locations old) in
    subst (λ (x : Space). IsRooted x.locations) result
      (write_rows-All (λ l. (ps : List Location) × IsChain t l ps) rows space.locations t written
        (All-map (IsChecked-IsChain t linked) rows checked) old)
