-- ===== src/Procurement/Listing/Whole.antt =====
-- The listing of the lines of an order whose lineage the guard has kept.
use mathlib.Core.Path.{subst}
use defiant_fleet_ops.Base.{
  ℕ, zero, suc, ◌≡◌, inl, inr, refl, sym, ap, ◌∙◌, arith, Bool, true, none, some, List, [], ◌∷◌,
  ◌==◌, any, find, keep, length, All, All-map, find-All, find-holds, Bool-cases, ok, ==_refl, ==_eq,
  names, IsHeld, tally, tally-same,
}
use defiant_fleet_ops.Procurement.{Order, Line, Tables, find_order}
use defiant_fleet_ops.Procurement.Services.{get_order}
use defiant_fleet_ops.Procurement.Lineage.{
  line_key, HasDepth, IsVersion, IsLineage, IsLineage-keep, IsLineage-IsDistinct,
  IsLineage-IsVersion,
}
use defiant_fleet_ops.Procurement.Listing.{
  Lineages, sorted_roots, of_order, flagged, order_rows, list_lines,
}
use defiant_fleet_ops.Procurement.Listing.Ends.{collect-All, sorted_roots-All}
use defiant_fleet_ops.Procurement.Listing.Collected.{AllOf, IsCollected, IsWhole, collect-IsWhole}
use defiant_fleet_ops.Procurement.Listing.Walked.{held_same}
use defiant_fleet_ops.Procurement.Listing.Ordered.{
  IsRootToLeaf, any-sorted_roots, sorted_roots-IsAscending,
}
use defiant_fleet_ops.Procurement.Listing.Visited.{IsRoot, Visits, visit-accepted}

All-both : (P Q : Line → Type 0) (xs : List Line) → All P xs → All Q xs → All (λ x. P x × Q x) xs
All-both P Q [] p q = tt
All-both P Q (x ∷ xs) p q = ((p.0, q.0), All-both P Q xs p.1 q.1)

length-tally : (xs : List Line) → tally (λ x. true) xs ≡ length xs
length-tally [] = refl
length-tally (x ∷ xs) = ap suc (length-tally xs)

present_found :
    (i : ℕ) (xs : List Line)
    → any (names line_key i) xs ≡ true
    → (x : Line) × (find (names line_key i) xs ≡ some x)
present_found i [] h = ground arith
present_found i (x ∷ xs) h = elim (Bool-cases (x.id == i)) [
  | inl here ↦ (x, rw here refl)
  | inr later ↦
      let (y, found) = present_found i xs (ground (arith, h, later)) in (y, rw later found)
]

module _ (lines out : List Line) (m : Lineages) (whole : IsWhole lines m)
    (v : Visits lines m.successors [] (sorted_roots m.roots) out) where
  -- Each version of the table is listed: a root by its number, and what supersedes a listed one.
  reached :
      (k : ℕ) (l : Line)
      → IsHeld line_key lines l
      → HasDepth lines l k
      → any (names line_key l.id) out ≡ true
  reached zero l held depth =
      let (collected, _, _, _, _) = whole in
      let own =
        find-All (λ (x : Line). IsCollected m x x.supersedes_line_id) (names line_key l.id) lines l
          collected held in
      let root = subst (IsCollected m l) depth own in
      v.rooted l.id (any-sorted_roots (names line_key l.id) m.roots ∙ root)
  reached (suc k) l held (q, s, hq, number, depth) =
      let (collected, _, _, _, _) = whole in
      let own =
        find-All (λ (x : Line). IsCollected m x x.supersedes_line_id) (names line_key l.id) lines l
          collected held in
      v.closed q.id l (subst (IsCollected m l) s own) (reached k q hq depth)

  listed : (l : Line) → IsVersion lines l → IsHeld line_key out l
  listed l (k, held, depth) =
      let (x, found) = present_found l.id out (reached k l held depth) in
      let version = find-All (IsVersion lines) (names line_key l.id) out x v.versions found in
      let same_id = ==_eq x.id l.id (find-holds (names line_key l.id) out x found) in
      subst (λ (y : Line). find (names line_key l.id) out ≡ some y)
        (held_same lines x l version.1 held same_id) found

version-IsHeld : (lines : List Line) (l : Line) → IsVersion lines l → IsHeld line_key lines l
version-IsHeld lines l (k, held, depth) = held

order_rows_complete :
    (po_id : ℕ) (rows : List Line)
    → AllOf po_id rows
    → IsLineage rows
    → (out : List Line) × (order_rows rows ≡ some (ok out))
      × ((p : Line → Bool) → tally p out ≡ tally p rows)
      × IsRootToLeaf none out
unfolding order_rows
order_rows_complete po_id rows all lineage =
    let (m, collected, whole) = collect-IsWhole po_id rows all lineage in
    let versions = IsLineage-IsVersion rows lineage in
    let (root_versions, successor_versions) =
      collect-All (IsVersion rows) rows m versions collected in
    let (_, rootless, differ, _, _) = whole in
    let roots = sorted_roots-All (IsRoot rows) m.roots (
      All-both (IsVersion rows) (λ r. r.supersedes_line_id ≡ none) m.roots root_versions
        rootless) in
    let (out, visited, v, ordered) =
      visit-accepted rows m.successors successor_versions (suc (length rows)) zero []
        (sorted_roots m.roots) (omega arith) (sorted_roots-IsAscending m.roots differ) roots tt in
    let same = λ (p : Line → Bool).
      tally-same line_key p out rows v.distinct (IsLineage-IsDistinct rows lineage)
        (All-map (version-IsHeld rows) out v.versions)
        (All-map (listed rows out m whole v) rows versions) in
    let lengths : length out ≡ length rows =
      sym (length-tally out) ∙ same (λ x. true) ∙ length-tally rows in
    (
      out,
      rw (order_rows, collected, visited, lengths, ==_refl (length rows)) refl,
      same,
      ordered none tt,
    )

keep-AllOf : (po_id : ℕ) (lines : List Line) → AllOf po_id (keep (of_order po_id) lines)
keep-AllOf po_id [] = tt
keep-AllOf po_id (l ∷ lines) = elim (Bool-cases (l.po_id == po_id)) [
  | inl own ↦ rw own (own, keep-AllOf po_id lines)
  | inr other ↦ rw other (keep-AllOf po_id lines)
]

-- Where the lineages are as the guard of the lines keeps them, list_lines of a stored order is not
-- refused as inconsistent: it lists each version of the order's lines with its active flag, as often as
-- the table holds it and no other, by ascending line number, and within a line from its root on, each
-- version behind the one that it supersedes.
pub list_lines_complete :
    (t : Tables) (po_id : ℕ) (o : Order)
    → IsLineage t.lines
    → find_order po_id t.orders ≡ some o
    → (out : List Line) × (list_lines t po_id ≡ some (ok (flagged t.lines out)))
      × ((p : Line → Bool) → tally p out ≡ tally p (keep (of_order po_id) t.lines))
      × IsRootToLeaf none out
unfolding list_lines get_order
list_lines_complete t po_id o lineage found =
    let (out, listed, same, ordered) =
      order_rows_complete po_id (keep (of_order po_id) t.lines) (keep-AllOf po_id t.lines)
        (IsLineage-keep po_id t.lines lineage) in
    (out, rw (list_lines, get_order, found, listed) refl, same, ordered)
