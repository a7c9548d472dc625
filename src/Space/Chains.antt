-- ===== src/Space/Chains.antt =====
-- The chain of parents of a location, and the walk that finds it.
use mathlib.Core.Path.{subst}
use defiant_fleet_ops.Base.{
  some_same, All-has, ℕ, zero, suc, ◌≤◌, ◌≡◌, ◌≢◌, inl, inr, refl, sym, ap, ◌∙◌, arith, Bool, false,
  none, some, List, [], ◌∷◌, find, has, length, All, find-holds, Bool-cases, Option-cases,
}
use defiant_fleet_ops.Space.{Location, parent_of, is_at, ancestry, is_cyclic, top, rows_of}

-- What `ps` is for a location: its parent, that one's parent, and so on to a root.
abbrev pub IsChain : List Location → Location → List Location → Type 0
IsChain t l [] = l.parent_location_id ≡ none
IsChain t l (p ∷ ps) = (parent_of t l ≡ some p) × IsChain t p ps

root_parent :
    (t : List Location) (l p : Location) → l.parent_location_id ≡ none → parent_of t l ≢ some p
unfolding parent_of
root_parent t l p h k = ground (arith, h)

root-parent :
    (t : List Location) (l : Location) → l.parent_location_id ≡ none → parent_of t l ≡ none
unfolding parent_of
root-parent t l h = ground (arith, h)

IsChain-unique :
    (t : List Location) (l : Location) (ps qs : List Location)
    → IsChain t l ps
    → IsChain t l qs
    → ps ≡ qs
IsChain-unique t l [] [] a b = refl
IsChain-unique t l [] (q ∷ qs) a b = absurd (root_parent t l q a b.0)
IsChain-unique t l (p ∷ ps) [] a b = absurd (root_parent t l p b a.0)
IsChain-unique t l (p ∷ ps) (q ∷ qs) a b =
    let same = some_same p q (sym a.0 ∙ b.0) in
    let rest = IsChain-unique t q ps qs (subst (λ (x : Location). IsChain t x ps) same a.1) b.1 in
    cc (same, rest)

-- Walks without a cycle up to a row that has no parent are chains.
pub ancestry-IsChain :
    (fuel : ℕ) (t : List Location) (visited : List ℕ) (l : Location) (rows : List (Location × Bool))
    → ancestry fuel t visited l ≡ some rows
    → is_cyclic rows ≡ false
    → (top l rows).parent_location_id ≡ none
    → IsChain t l (rows_of rows)
unfolding ancestry
ancestry-IsChain zero t visited l rows h c e = ground arith
ancestry-IsChain (suc fuel) t visited l [] h c e = e
ancestry-IsChain (suc fuel) t visited l ((q, cyclic) ∷ rows) h c e =
    elim (Option-cases (parent_of t l)) [
      | inl topmost ↦ ground (arith, topmost)
      | inr (p, found) ↦ elim (Bool-cases (has p.id visited)) [
        | inl again ↦ ground (arith, found, again)
        | inr first ↦ elim (Option-cases (ancestry fuel t (p.id ∷ visited) p)) [
          | inl spent ↦ ground (arith, found, first, spent)
          | inr (above, walked) ↦
              let same : p ≡ q = ground (arith, found, first, walked) in
              let rest : above ≡ rows = ground (arith, found, first, walked) in
              (
                found ∙ ap some same,
                ancestry-IsChain fuel t (p.id ∷ visited) q rows
                    (ap (ancestry fuel t (p.id ∷ visited)) (sym same) ∙ walked ∙ ap some rest)
                    (ground arith) e,
              )
        ]
      ]
    ]

-- The row that a reference to it finds.
abbrev pub IsStored : List Location → Location → Type 0
IsStored t l = find (is_at l.facility_id l.id) t ≡ some l

parent-IsStored :
    (t : List Location) (l p : Location)
    → parent_of t l ≡ some p
    → (p.facility_id ≡ l.facility_id) × IsStored t p
unfolding parent_of
parent-IsStored t l p h = elim (Option-cases l.parent_location_id) [
  | inl rootless ↦ ground (arith, rootless)
  | inr (i, named) ↦
      let found : find (is_at l.facility_id i) t ≡ some p = ground (arith, named) in
      let holds = find-holds (is_at l.facility_id i) t p found in
      let same_id : p.id ≡ i = ground (arith, holds) in
      let same_facility : p.facility_id ≡ l.facility_id = ground (arith, holds) in
      (
        same_facility,
        ap (λ (k : ℕ). find (is_at p.facility_id k) t) same_id
            ∙ ap (λ (f : ℕ). find (is_at f i) t) same_facility
            ∙ found,
      )
]

-- A visited row, whose own chain is at least `n` long.
abbrev pub Visited : List Location → ℕ → ℕ → ℕ → Type 0
Visited t facility_id n i =
    (r : Location) × (rs : List Location) × (r.id ≡ i)
    × (r.facility_id ≡ facility_id)
    × IsStored t r
    × IsChain t r rs
    × (n ≤ length rs)

Visited-less :
    (t : List Location) (facility_id m n : ℕ)
    → m ≤ n
    → (xs : List ℕ) → All (Visited t facility_id n) xs
    → All (Visited t facility_id m) xs
Visited-less t facility_id m n h [] v = tt
Visited-less t facility_id m n h (x ∷ xs) ((r, rs, i, f, s, c, le), v) =
    ((r, rs, i, f, s, c, omega (arith, h, le)), Visited-less t facility_id m n h xs v)

-- The parent of a location whose chain ends is no row below it.
parent-new :
    (t : List Location) (l p : Location) (ps : List Location) (visited : List ℕ)
    → parent_of t l ≡ some p
    → IsChain t p ps
    → All (Visited t l.facility_id (suc (length ps))) visited
    → has p.id visited ≡ false
parent-new t l p ps visited h c v = elim (Bool-cases (has p.id visited)) [
  | inr first ↦ first
  | inl again ↦
      let (r, rs, same_id, same_facility, stored, chain, le) =
        All-has (Visited t l.facility_id (suc (length ps))) p.id visited v again in
      let (facility, found) = parent-IsStored t l p h in
      let same : r ≡ p = some_same r p (
        sym stored
        ∙ ap (λ (i : ℕ). find (is_at r.facility_id i) t) same_id
        ∙ ap (λ (f : ℕ). find (is_at f p.id) t) (same_facility ∙ sym facility)
        ∙ found) in
      let lengths =
        ap length
          (IsChain-unique t p rs ps (subst (λ (x : Location). IsChain t x rs) same chain) c) in
      absurd (omega (arith, lengths, le))
]

-- The walk of a location whose chain ends finds the chain and no cycle.
pub ancestry_complete :
    (fuel : ℕ) (t : List Location) (visited : List ℕ) (l : Location) (ps : List Location)
    (rows : List (Location × Bool))
    → IsChain t l ps
    → All (Visited t l.facility_id (length ps)) visited
    → ancestry fuel t visited l ≡ some rows
    → (rows_of rows ≡ ps) × (is_cyclic rows ≡ false) × ((top l rows).parent_location_id ≡ none)
unfolding ancestry
ancestry_complete zero t visited l ps rows c v h = ground arith
ancestry_complete (suc fuel) t visited l [] rows c v h =
    let topmost = root-parent t l c in
    let nothing : [] ≡ rows = ground (arith, topmost) in
    subst
      (λ (above : List (Location × Bool)).
        (rows_of above ≡ [])
        × (is_cyclic above ≡ false)
        × ((top l above).parent_location_id ≡ none))
      nothing (refl, refl, c)
ancestry_complete (suc fuel) t visited l (p ∷ ps) rows c v h =
    let first = parent-new t l p ps visited c.0 c.1 v in
    elim (Option-cases (ancestry fuel t (p.id ∷ visited) p)) [
      | inl spent ↦ ground (arith, c.0, first, spent)
      | inr (above, walked) ↦
          let facts = parent-IsStored t l p c.0 in
          let (above_rows, acyclic, root) =
            ancestry_complete fuel t (p.id ∷ visited) p ps above c.1
              (
                (p, ps, refl, refl, facts.1, c.1, omega arith),
                subst (λ (f : ℕ). All (Visited t f (length ps)) visited) (sym facts.0)
                    (Visited-less t l.facility_id (length ps) (suc (length ps)) (omega arith)
                      visited v),
              )
              walked in
          let all : (p, false) ∷ above ≡ rows = ground (arith, c.0, first, walked) in
          subst
            (λ (walk : List (Location × Bool)).
              (rows_of walk ≡ p ∷ ps)
              × (is_cyclic walk ≡ false)
              × ((top l walk).parent_location_id ≡ none))
            all (ap (λ (qs : List Location). p ∷ qs) above_rows, acyclic, root)
    ]
