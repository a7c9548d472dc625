-- ===== src/Space/Ancestry.antt =====
-- The walk of both queries: it ends on any table, and it is complete exactly where the ancestry is.
use defiant_fleet_ops.Base.{
  ℕ, zero, suc, ◌<◌, ◌≡◌, ◌≢◌, inl, inr, arith, true, none, some, List, ◌∷◌, ◌==◌, any, has, length,
  Bool-cases, Option-cases, unseen, unseen_less, unseen-le-length, found_present,
}
use defiant_fleet_ops.Space.{Location, parent_of, is_at, ancestry}

-- The identifiers of a table.
abbrev pub id_of : Location → ℕ
id_of l = l.id

pub parent-present :
    (t : List Location) (l p : Location)
    → parent_of t l ≡ some p
    → any (λ x. id_of x == p.id) t ≡ true
unfolding parent_of
parent-present t l p h = elim (Option-cases l.parent_location_id) [
  | inl rootless ↦ ground (arith, rootless)
  | inr (i, named) ↦ found_present id_of (is_at l.facility_id i) t p (ground (arith, named))
]

-- One unit of fuel for each row that was not visited, and one more, is enough.
ancestry_bounded :
    (fuel : ℕ) (t : List Location) (visited : List ℕ) (l : Location)
    → unseen id_of t visited < fuel
    → ancestry fuel t visited l ≢ none
unfolding ancestry
ancestry_bounded zero t visited l h = ground arith
ancestry_bounded (suc fuel) t visited l h = elim (Option-cases (parent_of t l)) [
  | inl topmost ↦ ground (arith, topmost)
  | inr (p, found) ↦ elim (Bool-cases (has p.id visited)) [
    | inl again ↦ ground (arith, found, again)
    | inr first ↦
        let fewer = unseen_less id_of t p.id visited (parent-present t l p found) first in
        let rest = ancestry_bounded fuel t (p.id ∷ visited) p (omega (arith, h, fewer)) in
        ground (arith, found, first, rest)
  ]
]

-- The walk ends on any table, also where the stored ancestry is cyclic or incomplete, whatever it has
-- visited: with one unit of fuel for each row and one more, it does not run out.
pub ancestry_ends :
    (t : List Location) (visited : List ℕ) (l : Location)
    → ancestry (suc (length t)) t visited l ≢ none
ancestry_ends t visited l =
    let bounded = unseen-le-length id_of t visited in
    ancestry_bounded (suc (length t)) t visited l (omega (arith, bounded))
