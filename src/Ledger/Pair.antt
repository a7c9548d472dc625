-- ===== src/Ledger/Pair.antt =====
-- The two rows of a correction: what they do to the table, and to the row that they replace.
use mathlib.Core.Path.{subst}
use defiant_fleet_ops.Base.{
  ℕ, suc, ◌≡◌, refl, sym, ap, ◌∙◌, Bool, true, false, ◌||◌, none, some, List, [], ◌∷◌, ltb, ◌==◌,
  ==_eq, any, find, keep, find-holds, find-All, find-keep, matches, arith, ok, Bool-cases, inl, inr,
}
use defiant_fleet_ops.Text.{Text}
use defiant_fleet_ops.History.{
  Event, is_ordinary, reversal, corrected, supersedes, is_effective, effective, family, latest,
}
use defiant_fleet_ops.History.Effective.{Below, latest-effective-cons}
use defiant_fleet_ops.Ledger.{insert_event}
use defiant_fleet_ops.Ledger.Table.{
  IsKept, has_id, DistinctIds, Rootless, insert-eq-ok, insert-IsKept, count-insert,
}
use defiant_fleet_ops.Ledger.Extension.{Extends}

abbrev pub is_head : {F : Type 0} → ℕ → Event F → Bool
is_head root h = h.id == root || matches h.root (some root)

module _ {F : Type 0} where
  absent :
      (i : ℕ) (p : Event F → Bool) (q : Event F → Bool) (rows : List (Event F)) (h : Event F)
      → has_id i rows ≡ false
      → find p (keep q rows) ≡ some h
      → (h.id == i) ≡ false
  absent i p q [] h a e = cc
  absent i p q (x ∷ rows) h a e = ground (arith, absent i p q rows h)

  -- Distinct identifiers: the row with the identifier of the root is the root itself.
  same_row :
      (i : ℕ) (p q : Event F → Bool) (rows : List (Event F)) (o h : Event F)
      → DistinctIds rows
      → find (λ r. r.id == i) rows ≡ some o
      → find p (keep q rows) ≡ some h
      → h.id ≡ i
      → h ≡ o
  same_row i p q [] o h d eo eh s = cc
  same_row i p q (x ∷ rows) o h d eo eh s = elim (Bool-cases (x.id == i)) [
    | inl here ↦
        let gone : has_id i rows ≡ false =
          subst (λ n. has_id n rows ≡ false) (==_eq x.id i here) d.0 in
        ground (arith, absent i p q rows h gone)
    | inr there ↦ ground (arith, same_row i p q rows o h d.1)
  ]

  later_generation :
      (h c : Event F) (rows : List (Event F))
      → c.root ≡ some (family h)
      → c.generation ≡ suc h.generation
      → any (supersedes h) rows ≡ false
      → any (supersedes c) rows ≡ false
  unfolding supersedes
  later_generation h c [] r g a = refl
  later_generation h c (x ∷ rows) r g a = ground (arith, later_generation h c rows r g)

  -- The effective row of a root speaks for that root.
  family-head :
      (i v : ℕ) (rows : List (Event F)) (o h : Event F)
      → IsKept v rows
      → find (λ r. r.id == i) rows ≡ some o
      → is_ordinary o.role ≡ true
      → find (is_head i) (effective rows) ≡ some h
      → family h ≡ i
  unfolding effective
  family-head i v rows o h k eo ord eh = elim (Bool-cases (h.id == i)) [
    | inl same_id ↦
        let same : h ≡ o =
          same_row i (is_head i) (is_effective rows) rows o h k.ids eo eh (==_eq h.id i same_id) in
        let rootless : o.root ≡ none = find-All Rootless _ rows o k.rootless eo ord in
        ground (arith, same, rootless)
    | inr other ↦ ground (arith, find-holds (is_head i) (effective rows) h eh)
  ]

  Rootless-reversal : (e : Event F) → e.role ≡ reversal → Rootless e
  Rootless-reversal e r o = ground (arith, r, o)

  Rootless-corrected : (e : Event F) → e.role ≡ corrected → Rootless e
  Rootless-corrected e r o = ground (arith, r, o)

  effective_unsuperseded :
      (rows : List (Event F)) (h : Event F)
      → is_effective rows h ≡ true
      → any (supersedes h) rows ≡ false
  unfolding is_effective
  effective_unsuperseded rows h e = ground arith

  -- Above its reversal, the replacement is effective.
  replacement_effective :
      (back row : Event F) (rows : List (Event F))
      → back.role ≡ reversal
      → row.role ≡ corrected
      → any (supersedes row) rows ≡ false
      → is_effective (row ∷ back ∷ rows) row ≡ true
  unfolding is_effective supersedes
  replacement_effective back row rows b r a =
      let flat : ltb row.generation row.generation ≡ false = ground arith in
      ground (arith, flat, a, b, r)

  pub pair-Extends :
      (p : Text → Bool) (i v : ℕ) (rows reversed rows' : List (Event F)) (o h back row : Event F)
      → IsKept v rows
      → find (λ r. r.id == i) rows ≡ some o
      → is_ordinary o.role ≡ true
      → find (is_head i) (effective rows) ≡ some h
      → insert_event p back rows ≡ ok reversed
      → insert_event p row reversed ≡ ok rows'
      → (back.result_version ≡ suc v) × (back.role ≡ reversal) × (back.root ≡ some i)
      → (row.result_version ≡ suc (suc v)) × (row.role ≡ corrected) × (row.root ≡ some i)
      → row.generation ≡ suc h.generation
      → Extends v (suc (suc v)) rows rows' row
  unfolding effective
  pair-Extends p i v rows reversed rows' o h back row k eo ord eh eb er b r g = record {
    later = omega arith;
    kept = kept';
    head =
        subst (λ (t : List (Event F)). latest (effective t) ≡ some row) (sym stacked)
          (latest-effective-cons row (back ∷ rows)
            (subst (λ (t : List (Event F)). Below row.result_version t)
              (insert-eq-ok p back rows reversed eb).0 (rw (r.0) (kept.below)))
            (replacement_effective back row rows b.1 r.1
              (later_generation h row rows (rw fam r.2) g unsuperseded)));
    grown = λ n. ground (
      arith,
      count-insert p back n rows reversed eb,
      count-insert p row n reversed rows' er,
      b.0,
      r.0,
    );
  }
    where
      kept : IsKept (suc v) reversed
      kept = insert-IsKept p back v rows reversed k eb b.0 (Rootless-reversal back b.1)

      kept' : IsKept (suc (suc v)) rows'
      kept' = insert-IsKept p row (suc v) reversed rows' kept er r.0 (Rootless-corrected row r.1)

      stacked : rows' ≡ row ∷ back ∷ rows
      stacked =
          (insert-eq-ok p row reversed rows' er).0
          ∙ ap (λ (t : List (Event F)). row ∷ t) (insert-eq-ok p back rows reversed eb).0

      fam : family h ≡ i
      fam = family-head i v rows o h k eo ord eh

      unsuperseded : any (supersedes h) rows ≡ false
      unsuperseded =
          effective_unsuperseded rows h (find-keep (is_head i) (is_effective rows) rows h eh)
