-- ===== src/Space/Path.antt =====
-- The path that location_path returns.
use mathlib.Core.Path.{subst}
use mathlib.Core.List.{reverse}
use defiant_fleet_ops.Base.{
  ℕ, suc, ◌≡◌, inl, inr, refl, arith, false, none, some, List, [], ◌∷◌, ◌==◌, ==_refl, ==_eq, find,
  length, Bool-cases, Option-cases, ok, ◌↔◌,
}
use defiant_fleet_ops.Space.{
  Location, is_at, ancestry, ancestors, is_cyclic, top, rows_of, location_path,
}
use defiant_fleet_ops.Space.Ancestry.{ancestry_ends}
use defiant_fleet_ops.Space.Chains.{IsChain, IsStored, ancestry-IsChain, ancestry_complete}

pub ancestors-walk :
    (t : List Location) (l : Location)
    → ancestry (suc (length t)) t (l.id ∷ []) l ≡ some (ancestors t l)
unfolding ancestors
ancestors-walk t l = elim (Option-cases (ancestry (suc (length t)) t (l.id ∷ []) l)) [
  | inl spent ↦ absurd (ancestry_ends t (l.id ∷ []) l spent)
  | inr (rows, walked) ↦ rw (ancestors, walked) refl
]

-- A chain from a stored row is what the walk returns.
pub ancestors_complete :
    (t : List Location) (l : Location) (ps : List Location)
    → IsStored t l
    → IsChain t l ps
    → (rows_of (ancestors t l) ≡ ps)
      × (is_cyclic (ancestors t l) ≡ false)
      × ((top l (ancestors t l)).parent_location_id ≡ none)
ancestors_complete t l ps s c =
    ancestry_complete (suc (length t)) t (l.id ∷ []) l ps (ancestors t l) c
      ((l, ps, refl, refl, s, c, omega arith), tt) (ancestors-walk t l)

pub ancestors-IsChain :
    (t : List Location) (l : Location)
    → is_cyclic (ancestors t l) ≡ false
    → (top l (ancestors t l)).parent_location_id ≡ none
    → IsChain t l (rows_of (ancestors t l))
ancestors-IsChain t l =
    ancestry-IsChain (suc (length t)) t (l.id ∷ []) l (ancestors t l) (ancestors-walk t l)

-- The first row of an identifier is what a reference to it in its facility finds.
pub first-IsStored :
    (t : List Location) (l : Location) (i : ℕ)
    → find (λ r. r.id == i) t ≡ some l
    → (l.id ≡ i) × IsStored t l
first-IsStored [] l i h = ground arith
first-IsStored (r ∷ t) l i h = elim (Bool-cases (r.id == i)) [
  | inl here ↦
      let same : r ≡ l = ground (arith, here) in
      let same_id : r.id ≡ i = ==_eq r.id i here in
      subst (λ (x : Location). (x.id ≡ i) × (find (is_at x.facility_id x.id) (r ∷ t) ≡ some x)) same
        (same_id, ground (arith, ==_refl r.id, ==_refl r.facility_id))
  | inr later ↦
      let rest = first-IsStored t l i (ground (arith, later)) in
      let same_id = rest.0 in (same_id, ground (arith, later, same_id, rest.1))
]

-- The path of a location is complete or it is refused: location_path returns a path exactly if the
-- parents of the stored location lead to a root, and then it is these in the order from the root to the
-- location. In every other case it is an error, also where the ancestry is cyclic.
pub location_path-IsChain :
    (t : List Location) (location_id : ℕ) (path : List Location)
    → (location_path t location_id ≡ ok path) ↔ (
        (l : Location) × (ps : List Location) × (find (λ r. r.id == location_id) t ≡ some l)
        × IsChain t l ps
        × (path ≡ reverse (l ∷ ps)))
unfolding location_path
location_path-IsChain t location_id path = (
  λ h. elim (Option-cases (find (λ (r : Location). r.id == location_id) t)) [
    | inl unknown ↦ ground (arith, unknown)
    | inr (l, found) ↦ (
      l,
      rows_of (ancestors t l),
      found,
      ancestors-IsChain t l (ground (arith, found)) (ground (arith, found)),
      ground (arith, found),
    )
  ],
  λ (l, ps, found, chain, whole).
      let (same_id, stored) = first-IsStored t l location_id found in
      let (rows, acyclic, root) = ancestors_complete t l ps stored chain in
      rw (location_path, found, acyclic, root, rows, whole) refl,
)
