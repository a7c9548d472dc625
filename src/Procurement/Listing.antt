-- ===== src/Procurement/Listing.antt =====
-- list_lines of server/fleetops/domain/procurement.py: the lines of an order from root to leaf. A dict
-- is the list of its rows, since a row determines its key. The rows, which the query does not order,
-- come oldest first. `none` is that the fuel of the loop ran out.
pub mod Ends
pub mod Collected
pub mod Walked
pub mod Derivations
pub mod Ordered
pub mod Visited
pub mod Whole
use defiant_fleet_ops.Base.{
  ℕ, zero, suc, Bool, true, false, not, ◌&&◌, ◌||◌, Option, none, some, List, [], ◌∷◌, ◌++◌, ltb,
  ◌==◌, any, find, keep, has, length, map, Result, ok, err, guard, ◌>>=◌, ◌>>◌,
  procurement_conflict, if◌then◌else◌,
}
use defiant_fleet_ops.Procurement.{Line, Tables, succeeds}
use defiant_fleet_ops.Procurement.Services.{get_order, is_active}

-- `roots` by line number and `successors` by predecessor.
pub record Lineages : Type 0 where
  pub roots : List Line
  pub successors : List Line

unfoldable pub collect_row : Line → Lineages → Result Lineages
collect_row l m = elim l.supersedes_line_id [
  | none ↦
      guard (not (any (λ r. r.line_number == l.line_number) m.roots)) procurement_conflict
      >> ok record m { roots = l ∷ m.roots }
  | some p ↦
      guard (not (any (succeeds p) m.successors)) procurement_conflict
      >> ok record m { successors = l ∷ m.successors }
]

unfoldable pub collect : List Line → Result Lineages
unfolding collect_row
collect [] = ok record { roots = []; successors = [] }
collect (l ∷ rows) = do m ← collect rows; collect_row l m

unfoldable pub insert_root : Line → List Line → List Line
insert_root l [] = l ∷ []
insert_root l (k ∷ roots) =
    if ltb l.line_number k.line_number then l ∷ k ∷ roots else k ∷ insert_root l roots

-- sorted(roots)
unfoldable pub sorted_roots : List Line → List Line
unfolding insert_root
sorted_roots [] = []
sorted_roots (l ∷ roots) = insert_root l (sorted_roots roots)

-- The rest of a computation that may run out of fuel or raise.
abbrev pub chained :
    {A B : Type 0} → Option (Result A) → (A → Option (Result B)) → Option (Result B)
chained none rest = none
chained (some (err e)) rest = some (err e)
chained (some (ok a)) rest = rest a

-- The while loop: the lineage from `row`, and what is seen after it.
unfoldable pub walk : ℕ → List Line → ℕ → List ℕ → Line → Option (Result (List Line × List ℕ))
walk zero successors number seen row = none
walk (suc fuel) successors number seen row =
    elim (has row.id seen || not (row.line_number == number)) [
      | true ↦ some (err procurement_conflict)
      | false ↦ elim (find (succeeds row.id) successors) [
        | none ↦ some (ok (row ∷ [], row.id ∷ seen))
        | some next ↦
            chained (walk fuel successors number (row.id ∷ seen) next)
              (λ w. some (ok (row ∷ w.0, w.1)))
      ]
    ]

unfoldable pub visit : ℕ → List Line → List ℕ → List Line → Option (Result (List Line))
unfolding walk
visit fuel successors seen [] = some (ok [])
visit fuel successors seen (root ∷ roots) =
    chained (walk fuel successors root.line_number seen root)
      (λ w. chained (visit fuel successors w.1 roots) (λ rest. some (ok (w.0 ++ rest))))

abbrev pub of_order : ℕ → Line → Bool
of_order po_id l = l.po_id == po_id

abbrev pub flagged : List Line → List Line → List (Line × Bool)
flagged lines = map (λ l. (l, is_active lines l))

unfoldable pub order_rows : List Line → Option (Result (List Line))
unfolding collect sorted_roots visit
order_rows rows = chained (some (collect rows)) (λ m.
    chained (visit (suc (length rows)) m.successors [] (sorted_roots m.roots))
      (λ ordered. some (guard (length ordered == length rows) procurement_conflict >> ok ordered)))

unfoldable pub list_lines : Tables → ℕ → Option (Result (List (Line × Bool)))
unfolding get_order order_rows
list_lines t po_id = chained (some (get_order t po_id)) (λ o.
    chained (order_rows (keep (of_order po_id) t.lines)) (λ rows. some (ok (flagged t.lines rows))))
