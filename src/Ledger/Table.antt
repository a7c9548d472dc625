-- ===== src/Ledger/Table.antt =====
-- A history table: what its constraints keep, and what an INSERT adds to it.
use defiant_fleet_ops.Base.{
  ℕ, suc, ◌≤◌, ◌≡◌, refl, ap, Bool, true, false, Option, none, some, List, [], ◌∷◌, ltb, ◌==◌,
  ==_eq, same, any, All, arith, ok, Bool-cases, inl, inr, count, if◌then◌else◌,
}
use defiant_fleet_ops.Text.{Text}
use defiant_fleet_ops.History.{
  Event, is_ordinary, supersedes, is_effective, effective, latest, versions,
}
use defiant_fleet_ops.History.Effective.{Below, latest-effective-cons}
use defiant_fleet_ops.Ledger.{collides, names_root, insert_event}

module _ {F : Type 0} where
  abbrev pub has_id : ℕ → List (Event F) → Bool
  has_id i = any (λ h. h.id == i)

  -- The primary key.
  abbrev pub DistinctIds : List (Event F) → Type 0
  DistinctIds [] = Unit
  DistinctIds (h ∷ rows) = (has_id h.id rows ≡ false) × DistinctIds rows

  abbrev pub RootsKnown : List (Event F) → List (Event F) → Type 0
  RootsKnown table = All (λ h. names_root table h.root ≡ true)

  abbrev pub Rootless : Event F → Type 0
  Rootless h = is_ordinary h.role ≡ true → h.root ≡ none

  -- No row is ahead of version `v`, identifiers are distinct, a corrects_ column names a row of the
  -- table, and an ordinary row corrects nothing.
  pub record IsKept (v : ℕ) (rows : List (Event F)) : Type 0 where
    pub below : Below (suc v) rows
    pub ids : DistinctIds rows
    pub roots : RootsKnown rows rows
    pub rootless : All Rootless rows

  pub insert-eq-ok :
      (p : Text → Bool) (e : Event F) (rows rows' : List (Event F))
      → insert_event p e rows ≡ ok rows'
      → (rows' ≡ e ∷ rows)
        × (p e.reason ≡ true)
        × (any (collides e) rows ≡ false)
        × (names_root rows e.root ≡ true)
  unfolding insert_event
  insert-eq-ok p e rows rows' h = ground arith

  pub fresh_id :
      (e : Event F) (rows : List (Event F))
      → any (collides e) rows ≡ false
      → has_id e.id rows ≡ false
  unfolding collides
  fresh_id e [] h = refl
  fresh_id e (x ∷ rows) h = ground (arith, fresh_id e rows)

  other_root :
      (i : ℕ) (table : List (Event F)) (r : Option ℕ)
      → has_id i table ≡ false
      → names_root table r ≡ true
      → same r (some i) ≡ false
  unfolding names_root
  other_root i table none f k = refl
  other_root i table (some r) f k = elim (Bool-cases (r == i)) [
    | inl e ↦
        let same_id : has_id r table ≡ has_id i table = ap (λ n. has_id n table) (==_eq r i e) in
        cc (f, k, same_id)
    | inr n ↦ n
  ]

  unreferenced :
      (i : ℕ) (table rows : List (Event F))
      → has_id i table ≡ false
      → RootsKnown table rows
      → any (λ c. same c.root (some i)) rows ≡ false
  unfolding names_root
  unreferenced i table [] f k = refl
  unreferenced i table (x ∷ rows) f k =
      ground (arith, other_root i table x.root f k.0, unreferenced i table rows f k.1)

  names_root-cons :
      (e : Event F) (rows : List (Event F)) (r : Option ℕ)
      → names_root rows r ≡ true
      → names_root (e ∷ rows) r ≡ true
  unfolding names_root
  names_root-cons e rows none h = refl
  names_root-cons e rows (some r) h = ground arith

  RootsKnown-cons :
      (e : Event F) (table rows : List (Event F))
      → RootsKnown table rows
      → RootsKnown (e ∷ table) rows
  RootsKnown-cons e table [] h = tt
  RootsKnown-cons e table (x ∷ rows) h =
      (names_root-cons e table x.root h.0, RootsKnown-cons e table rows h.1)

  Below-mono : (v w : ℕ) (rows : List (Event F)) → v ≤ w → Below v rows → Below w rows
  Below-mono v w [] le h = tt
  Below-mono v w (x ∷ rows) le h = (omega arith, Below-mono v w rows le h.1)

  pub IsKept-mono : (v w : ℕ) (rows : List (Event F)) → v ≤ w → IsKept v rows → IsKept w rows
  IsKept-mono v w rows le k = record {
    below = Below-mono (suc v) (suc w) rows (omega arith) k.below;
    ids = k.ids;
    roots = k.roots;
    rootless = k.rootless;
  }

  -- An INSERT of the next version keeps the table.
  pub insert-IsKept :
      (p : Text → Bool) (e : Event F) (v : ℕ) (rows rows' : List (Event F))
      → IsKept v rows
      → insert_event p e rows ≡ ok rows'
      → e.result_version ≡ suc v
      → Rootless e
      → IsKept (suc v) rows'
  insert-IsKept p e v rows rows' k h ev er =
      let (eq, _, new, root) = insert-eq-ok p e rows rows' h in
      rw eq record {
        below = (omega arith, Below-mono (suc v) (suc (suc v)) rows (omega arith) k.below);
        ids = (fresh_id e rows new, k.ids);
        roots = (names_root-cons e rows e.root root, RootsKnown-cons e rows rows k.roots);
        rootless = (er, k.rootless);
      }

  no_superseder :
      (e : Event F) (rows : List (Event F))
      → e.root ≡ none
      → any (λ c. same c.root (some e.id)) rows ≡ false
      → any (supersedes e) rows ≡ false
  unfolding supersedes
  no_superseder e [] r h = refl
  no_superseder e (x ∷ rows) r h = ground (arith, no_superseder e rows r)

  -- A new ordinary row is effective.
  pub ordinary_effective :
      (e : Event F) (v : ℕ) (rows : List (Event F))
      → IsKept v rows
      → any (collides e) rows ≡ false
      → is_ordinary e.role ≡ true
      → e.root ≡ none
      → is_effective (e ∷ rows) e ≡ true
  unfolding is_effective supersedes
  ordinary_effective e v rows k new o r =
      let none_above : any (supersedes e) rows ≡ false =
        no_superseder e rows r (unreferenced e.id rows rows (fresh_id e rows new) k.roots) in
      let flat : ltb e.generation e.generation ≡ false = ground arith in
      ground (arith, none_above, flat)

  -- An ordinary INSERT of the next version is the latest effective row afterwards.
  pub insert-latest :
      (p : Text → Bool) (e : Event F) (v : ℕ) (rows rows' : List (Event F))
      → IsKept v rows
      → insert_event p e rows ≡ ok rows'
      → e.result_version ≡ suc v
      → is_ordinary e.role ≡ true
      → e.root ≡ none
      → latest (effective rows') ≡ some e
  insert-latest p e v rows rows' k h ev o r =
      let (eq, _, new, _) = insert-eq-ok p e rows rows' h in
      rw eq (latest-effective-cons e rows (rw ev k.below) (ordinary_effective e v rows k new o r))

  pub count-insert :
      (p : Text → Bool) (e : Event F) (w : ℕ) (rows rows' : List (Event F))
      → insert_event p e rows ≡ ok rows'
      → count w (versions rows')
        ≡ (if e.result_version == w then suc (count w (versions rows)) else count w (versions rows))
  count-insert p e w rows rows' h = rw (insert-eq-ok p e rows rows' h).0
