-- ===== src/Procurement/Listing/Ends.antt =====
-- The listing ends, whatever the stored lineage.
use mathlib.Core.Path.{subst}
use defiant_fleet_ops.Base.{
  ltb, >>=-eq-ok, Result-cases, ℕ, zero, suc, ◌<◌, ◌≡◌, ◌≢◌, inl, inr, refl, arith, true, not, ◌||◌,
  Option, none, some, List, [], ◌∷◌, ◌==◌, any, find, keep, has, length, All, find-All, Bool-cases,
  Option-cases, Result, ok, err, unseen, unseen_less, unseen-le-length, ==_refl,
}
use defiant_fleet_ops.Procurement.{Line, Tables, succeeds}
use defiant_fleet_ops.Procurement.Services.{get_order}
use defiant_fleet_ops.Procurement.Listing.{
  Lineages, collect_row, collect, insert_root, sorted_roots, chained, walk, visit, of_order,
  order_rows, list_lines,
}

abbrev pub line_id : Line → ℕ
line_id l = l.id

-- A row of the table.
abbrev pub IsPresent : List Line → Line → Type 0
IsPresent rows l = any (λ x. line_id x == l.id) rows ≡ true

chained-ends :
    {A B : Type 0} (m : Option (Result A)) (rest : A → Option (Result B))
    → m ≢ none
    → ((a : A) → rest a ≢ none)
    → chained m rest ≢ none
chained-ends none rest h k = λ e. h refl
chained-ends (some (err e)) rest h k = λ e. cc
chained-ends (some (ok a)) rest h k = k a

module _ (rows successors : List Line) (known : All (IsPresent rows) successors) where
  pub walk-ends :
      (fuel number : ℕ) (seen : List ℕ) (row : Line)
      → IsPresent rows row
      → unseen line_id rows seen < fuel
      → walk fuel successors number seen row ≢ none
  unfolding walk
  walk-ends zero number seen row p h = ground arith
  walk-ends (suc fuel) number seen row p h =
      elim (Bool-cases (has row.id seen || not (row.line_number == number))) [
        | inl stop ↦ ground (arith, stop)
        | inr go ↦ elim (Option-cases (find (succeeds row.id) successors)) [
          | inl last ↦ ground (arith, go, last)
          | inr (next, found) ↦
              let fewer = unseen_less line_id rows row.id seen p (ground (arith, go)) in
              let rest =
                walk-ends fuel number (row.id ∷ seen) next
                  (find-All (IsPresent rows) (succeeds row.id) successors next known found)
                  (omega (arith, h, fewer)) in
              rw (walk, go, found) (chained-ends _ _ rest (λ w e. cc))
        ]
      ]

  visit-ends :
      (fuel : ℕ) (seen : List ℕ) (roots : List Line)
      → length rows < fuel
      → All (IsPresent rows) roots
      → visit fuel successors seen roots ≢ none
  unfolding visit
  visit-ends fuel seen [] h p = λ e. cc
  visit-ends fuel seen (root ∷ roots) h p =
      let bounded = unseen-le-length line_id rows seen in
      chained-ends _ _ (walk-ends fuel root.line_number seen root p.0 (omega (arith, bounded, h)))
        (λ w. chained-ends _ _ (visit-ends fuel w.1 roots h p.1) (λ rest e. cc))

collect_row-All :
    (P : Line → Type 0) (l : Line) (m m' : Lineages)
    → P l
    → All P m.roots × All P m.successors
    → collect_row l m ≡ ok m'
    → All P m'.roots × All P m'.successors
unfolding collect_row
collect_row-All P l m m' p (roots, successors) h = elim (Option-cases l.supersedes_line_id) [
  | inl root ↦
      let same : record m { roots = l ∷ m.roots } ≡ m' = ground (arith, root) in
      subst (λ (x : Lineages). All P x.roots × All P x.successors) same ((p, roots), successors)
  | inr (i, named) ↦
      let same : record m { successors = l ∷ m.successors } ≡ m' = ground (arith, named) in
      subst (λ (x : Lineages). All P x.roots × All P x.successors) same (roots, (p, successors))
]

pub collect-All :
    (P : Line → Type 0) (rows : List Line) (m : Lineages)
    → All P rows
    → collect rows ≡ ok m
    → All P m.roots × All P m.successors
unfolding collect
collect-All P [] m p h =
    let same : record { roots = []; successors = [] } ≡ m = ground arith in
    subst (λ (x : Lineages). All P x.roots × All P x.successors) same (tt, tt)
collect-All P (l ∷ rows) m p h =
    let (before, first, rest) = >>=-eq-ok (collect rows) _ h in
    collect_row-All P l before m p.0 (collect-All P rows before p.1 first) rest

insert_root-All :
    (P : Line → Type 0) (l : Line) (roots : List Line)
    → P l
    → All P roots
    → All P (insert_root l roots)
unfolding insert_root
insert_root-All P l [] p h = (p, tt)
insert_root-All P l (k ∷ roots) p h = elim (Bool-cases (ltb l.line_number k.line_number)) [
  | inl below ↦ rw below (p, h)
  | inr above ↦ rw above (h.0, insert_root-All P l roots p h.1)
]

pub sorted_roots-All :
    (P : Line → Type 0) (roots : List Line) → All P roots → All P (sorted_roots roots)
unfolding sorted_roots
sorted_roots-All P [] h = tt
sorted_roots-All P (l ∷ roots) h =
    insert_root-All P l (sorted_roots roots) h.0 (sorted_roots-All P roots h.1)

more-IsPresent :
    (l : Line) (rows ls : List Line) → All (IsPresent rows) ls → All (IsPresent (l ∷ rows)) ls
more-IsPresent l rows [] h = tt
more-IsPresent l rows (k ∷ ls) (here, h) = (ground (arith, here), more-IsPresent l rows ls h)

all-IsPresent : (rows : List Line) → All (IsPresent rows) rows
all-IsPresent [] = tt
all-IsPresent (l ∷ rows) =
    (ground (arith, ==_refl l.id), more-IsPresent l rows rows (all-IsPresent rows))

order_rows-ends : (rows : List Line) → order_rows rows ≢ none
unfolding order_rows
order_rows-ends rows = elim (Result-cases (collect rows)) [
  | inr (e, failed) ↦ ground (arith, failed)
  | inl (m, collected) ↦
      let (roots, successors) =
        collect-All (IsPresent rows) rows m (all-IsPresent rows) collected in
      rw (order_rows, collected)
        (chained-ends _ _
          (visit-ends rows m.successors successors (suc (length rows)) [] (sorted_roots m.roots)
            (omega arith) (sorted_roots-All (IsPresent rows) m.roots roots))
          (λ ordered e. cc))
]

-- The loop of list_lines ends, whatever lines are stored, also where the lineage that they state is
-- cyclic or broken: with one unit of fuel for each line of the order and one more, it does not run out.
pub list_lines-ends : (t : Tables) (po_id : ℕ) → list_lines t po_id ≢ none
unfolding list_lines
list_lines-ends t po_id =
    chained-ends (some (get_order t po_id)) _ (λ e. cc)
      (λ o. chained-ends _ _ (order_rows-ends (keep (of_order po_id) t.lines)) (λ rows e. cc))
