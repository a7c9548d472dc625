-- ===== src/Procurement/Listing/Collected.antt =====
-- What is collected of a lineage: every version, in one of the two tables.
use mathlib.Core.Path.{subst}
use defiant_fleet_ops.Base.{
  ℕ, ◌≡◌, inl, inr, refl, sym, ◌∙◌, arith, true, false, ◌&&◌, Option, none, some, List, [], ◌∷◌,
  ◌==◌, any, find, is_none, All, All-map, Bool-cases, ok, ==_refl, ==_eq,
}
use defiant_fleet_ops.Procurement.{Line, succeeds}
use defiant_fleet_ops.Procurement.Lineage.{is_root_like, IsPlaced, IsLineage}
use defiant_fleet_ops.Procurement.Listing.{Lineages, collect_row, collect}

-- All rows are of one order.
abbrev pub AllOf : ℕ → List Line → Type 0
AllOf po_id = All (λ l. (l.po_id == po_id) ≡ true)

-- The row stands where its predecessor, or its line number, finds it.
abbrev pub IsCollected : Lineages → Line → Option ℕ → Type 0
IsCollected m l none = any (λ r. r.id == l.id) m.roots ≡ true
IsCollected m l (some p) = find (succeeds p) m.successors ≡ some l

-- No two roots have one number.
abbrev pub NumbersDiffer : List Line → Type 0
NumbersDiffer [] = Unit
NumbersDiffer (r ∷ roots) =
    (any (λ k. k.line_number == r.line_number) roots ≡ false) × NumbersDiffer roots

-- How the tables of a lineage are related to its rows.
abbrev pub IsWhole : List Line → Lineages → Type 0
IsWhole rows m =
    All (λ l. IsCollected m l l.supersedes_line_id) rows
    × All (λ r. r.supersedes_line_id ≡ none) m.roots
    × NumbersDiffer m.roots
    × ((n : ℕ)
        → any (λ r. r.line_number == n) m.roots ≡ true
        → any (λ q. is_none q.supersedes_line_id && q.line_number == n) rows ≡ true)
    × ((p : ℕ) → any (succeeds p) m.successors ≡ true → any (succeeds p) rows ≡ true)

grown_roots :
    (m : Lineages) (l k : Line) (o : Option ℕ)
    → IsCollected m k o
    → IsCollected (record m { roots = l ∷ m.roots }) k o
grown_roots m l k none h = ground (arith, h)
grown_roots m l k (some p) h = h

with_root :
    (rows : List Line) (m : Lineages) (l : Line)
    → IsWhole rows m
    → l.supersedes_line_id ≡ none
    → any (λ r. r.line_number == l.line_number) m.roots ≡ false
    → IsWhole (l ∷ rows) (record m { roots = l ∷ m.roots })
with_root rows m l (all, rootless, differ, numbers, successors) root new = (
  (
    subst (IsCollected (record m { roots = l ∷ m.roots }) l) (sym root)
        (ground (arith, ==_refl l.id)),
    All-map (λ k c. grown_roots m l k k.supersedes_line_id c) rows all,
  ),
  (root, rootless),
  (new, differ),
  λ n h. elim (Bool-cases (l.line_number == n)) [
    | inl here ↦ ground (arith, root, here)
    | inr later ↦ let rest = numbers n (ground (arith, h, later)) in ground (arith, rest)
  ],
  λ p h. let rest = successors p h in ground (arith, rest),
)

found_succeeding :
    (lines : List Line) (i : ℕ) (k : Line)
    → find (succeeds i) lines ≡ some k
    → any (succeeds i) lines ≡ true
found_succeeding [] i k h = ground arith
found_succeeding (l ∷ lines) i k h = elim (Bool-cases (succeeds i l)) [
  | inl here ↦ rw here refl
  | inr later ↦
      let rest = found_succeeding lines i k (ground (arith, later)) in ground (arith, rest)
]

grown_successors :
    (rows : List Line) (m : Lineages) (l k : Line) (p : ℕ) (o : Option ℕ)
    → l.supersedes_line_id ≡ some p
    → any (succeeds p) m.successors ≡ false
    → IsCollected m k o
    → IsCollected (record m { successors = l ∷ m.successors }) k o
grown_successors rows m l k p none s new h = h
grown_successors rows m l k p (some i) s new h = elim (Bool-cases (succeeds i l)) [
  | inr other ↦ rw other h
  | inl clash ↦
      let same : p ≡ i = ground (arith, s, clash) in
      let there = found_succeeding m.successors i k h in
      let absent = subst (λ (j : ℕ). any (succeeds j) m.successors ≡ false) same new in
      ground (arith, there, absent)
]

with_successor :
    (rows : List Line) (m : Lineages) (l : Line) (p : ℕ)
    → IsWhole rows m
    → l.supersedes_line_id ≡ some p
    → any (succeeds p) m.successors ≡ false
    → IsWhole (l ∷ rows) (record m { successors = l ∷ m.successors })
with_successor rows m l p (all, rootless, differ, numbers, successors) s new = (
  (
    subst (IsCollected (record m { successors = l ∷ m.successors }) l) (sym s)
        (let own : succeeds p l ≡ true = ground (arith, s, ==_refl p) in rw own refl),
    All-map (λ k c. grown_successors rows m l k p k.supersedes_line_id s new c) rows all,
  ),
  rootless,
  differ,
  λ n h. let rest = numbers n h in ground (arith, rest),
  λ i h. elim (Bool-cases (succeeds i l)) [
    | inl here ↦ ground (arith, here)
    | inr later ↦ let rest = successors i (ground (arith, h, later)) in ground (arith, rest)
  ],
)

-- A root of the number in a table of one order is like `l`.
same_order :
    (po_id : ℕ) (l : Line) (rows : List Line)
    → (l.po_id == po_id) ≡ true
    → AllOf po_id rows
    → any (λ q. is_none q.supersedes_line_id && q.line_number == l.line_number) rows ≡ true
    → any (is_root_like l) rows ≡ true
same_order po_id l [] own all h = ground arith
same_order po_id l (q ∷ rows) own all h =
    let mine = ==_eq l.po_id po_id own in
    let theirs = ==_eq q.po_id po_id all.0 in
    let same : q.po_id ≡ l.po_id = theirs ∙ sym mine in
    elim (Bool-cases (is_none q.supersedes_line_id && q.line_number == l.line_number)) [
      | inl here ↦ ground (arith, here, same)
      | inr later ↦
          let rest = same_order po_id l rows own all.1 (ground (arith, later)) in
          ground (arith, rest)
    ]

collect_row-IsWhole :
    (po_id : ℕ) (rows : List Line) (m : Lineages) (l : Line) (o : Option ℕ)
    → (l.po_id == po_id) ≡ true
    → AllOf po_id rows
    → IsWhole rows m
    → l.supersedes_line_id ≡ o
    → IsPlaced l rows o
    → (m' : Lineages) × (collect_row l m ≡ ok m') × IsWhole (l ∷ rows) m'
unfolding collect_row
collect_row-IsWhole po_id rows m l none own all whole s placed =
    let new : any (λ (r : Line). r.line_number == l.line_number) m.roots ≡ false =
      elim (Bool-cases (any (λ (r : Line). r.line_number == l.line_number) m.roots)) [
        | inr absent ↦ absent
        | inl clash ↦
            let (_, _, _, numbers, _) = whole in
            let there = same_order po_id l rows own all (numbers l.line_number clash) in
            ground (arith, there, placed)
      ] in
    (record m { roots = l ∷ m.roots }, ground (arith, s, new), with_root rows m l whole s new)
collect_row-IsWhole po_id rows m l (some p) own all whole s placed =
    let new : any (succeeds p) m.successors ≡ false =
      elim (Bool-cases (any (succeeds p) m.successors)) [
        | inr absent ↦ absent
        | inl clash ↦
            let (_, _, _, _, successors) = whole in
            let there = successors p clash in let unique = placed.1 in ground (arith, there, unique)
      ] in
    (
      record m { successors = l ∷ m.successors },
      ground (arith, s, new),
      with_successor rows m l p whole s new,
    )

pub collect-IsWhole :
    (po_id : ℕ) (rows : List Line)
    → AllOf po_id rows
    → IsLineage rows
    → (m : Lineages) × (collect rows ≡ ok m) × IsWhole rows m
unfolding collect
collect-IsWhole po_id [] all h = (
  record { roots = []; successors = [] },
  refl,
  (tt, tt, tt, (λ n k. ground (arith, k)), (λ p k. ground (arith, k))),
)
collect-IsWhole po_id (l ∷ rows) all (new, placed, h) =
    let (m, collected, whole) = collect-IsWhole po_id rows all.1 h in
    let (m', added, whole') =
      collect_row-IsWhole po_id rows m l l.supersedes_line_id all.0 all.1 whole refl placed in
    (m', rw (collect, collected) added, whole')
