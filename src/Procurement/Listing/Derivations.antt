-- ===== src/Procurement/Listing/Derivations.antt =====
-- What a walk returns: nothing twice, nothing seen, and with each row the one that supersedes it.
use mathlib.Core.Path.{subst}
use defiant_fleet_ops.Base.{
  ℕ, ◌≡◌, inl, inr, refl, arith, true, false, ◌||◌, none, some, List, [], ◌∷◌, ◌==◌, any, find, has,
  All, All-map, Bool-cases, ==_refl, ==_eq, names, IsDistinct,
}
use defiant_fleet_ops.Procurement.{Line, succeeds}
use defiant_fleet_ops.Procurement.Lineage.{line_key}
use defiant_fleet_ops.Procurement.Listing.Walked.{Walks, stops, goes}

-- The row of the walk is its first.
pub Walks-first :
    (successors : List Line) (n : ℕ) (seen : List ℕ) (row : Line) (rows : List Line)
    (after : List ℕ)
    → Walks successors n seen row rows after
    → any (names line_key row.id) rows ≡ true
Walks-first successors n seen row rows after (stops _ _ new number last) =
    ground (arith, ==_refl row.id)
Walks-first successors n seen row rows after (goes _ _ next rest _ new number found w) =
    ground (arith, ==_refl row.id)

-- What a walk has seen is what was seen before and what it returns.
pub Walks-seen :
    (successors : List Line) (n : ℕ) (seen : List ℕ) (row : Line) (rows : List Line)
    (after : List ℕ) (i : ℕ)
    → Walks successors n seen row rows after
    → has i after ≡ (any (names line_key i) rows || has i seen)
Walks-seen successors n seen row rows after i (stops _ _ new number last) = ground arith
Walks-seen successors n seen row rows after i (goes _ _ next rest _ new number found w) =
    let later = Walks-seen successors n (row.id ∷ seen) next rest after i w in ground (arith, later)

abbrev pub IsNew : List ℕ → Line → Type 0
IsNew seen l = has l.id seen ≡ false

older : (i : ℕ) (seen : List ℕ) (l : Line) → IsNew (i ∷ seen) l → IsNew seen l
older i seen l h = ground arith

-- What a walk returns was not seen before.
pub Walks-IsNew :
    (successors : List Line) (n : ℕ) (seen : List ℕ) (row : Line) (rows : List Line)
    (after : List ℕ)
    → Walks successors n seen row rows after
    → All (IsNew seen) rows
Walks-IsNew successors n seen row rows after (stops _ _ new number last) = (new, tt)
Walks-IsNew successors n seen row rows after (goes _ _ next rest _ new number found w) = (
  new,
  All-map (older row.id seen) rest (Walks-IsNew successors n (row.id ∷ seen) next rest after w),
)

not_among :
    (i : ℕ) (seen : List ℕ) (rows : List Line)
    → All (IsNew (i ∷ seen)) rows
    → any (names line_key i) rows ≡ false
not_among i seen [] h = refl
not_among i seen (l ∷ rows) (new, h) =
    let rest = not_among i seen rows h in
    elim (Bool-cases (l.id == i)) [
      | inr other ↦ ground (arith, other, rest)
      | inl clash ↦ let same = ==_eq l.id i clash in ground (arith, new, same)
    ]

-- It returns no row twice.
pub Walks-IsDistinct :
    (successors : List Line) (n : ℕ) (seen : List ℕ) (row : Line) (rows : List Line)
    (after : List ℕ)
    → Walks successors n seen row rows after
    → IsDistinct line_key rows
Walks-IsDistinct successors n seen row rows after (stops _ _ new number last) = (refl, tt)
Walks-IsDistinct successors n seen row rows after (goes _ _ next rest _ new number found w) = (
  not_among row.id seen rest (Walks-IsNew successors n (row.id ∷ seen) next rest after w),
  Walks-IsDistinct successors n (row.id ∷ seen) next rest after w,
)

-- With a row it returns the one that supersedes it.
pub Walks-closed :
    (successors : List Line) (n : ℕ) (seen : List ℕ) (row : Line) (rows : List Line)
    (after : List ℕ) (i : ℕ) (l : Line)
    → find (succeeds i) successors ≡ some l
    → Walks successors n seen row rows after
    → any (names line_key i) rows ≡ true
    → any (names line_key l.id) rows ≡ true
Walks-closed successors n seen row rows after i l s (stops _ _ new number last) h =
    let same : row.id ≡ i = ground (arith, h) in
    let none_left = subst (λ (k : ℕ). find (succeeds k) successors ≡ none) same last in
    ground (arith, s, none_left)
Walks-closed successors n seen row rows after i l s (goes _ _ next rest _ new number found w) h =
    elim (Bool-cases (row.id == i)) [
      | inl here ↦
          let same = ==_eq row.id i here in
          let next_found = subst (λ (k : ℕ). find (succeeds k) successors ≡ some next) same found in
          let next_is : next ≡ l = ground (arith, s, next_found) in
          let first = Walks-first successors n (row.id ∷ seen) next rest after w in
          let there = subst (λ (x : Line). any (names line_key x.id) rest ≡ true) next_is first in
          ground (arith, there)
      | inr later ↦
          let there =
            Walks-closed successors n (row.id ∷ seen) next rest after i l s w
              (ground (arith, h, later)) in
          ground (arith, there)
    ]
