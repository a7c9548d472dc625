-- ===== src/Procurement/Listing/Walked.antt =====
-- The walk along one lineage: it is not refused, it repeats nothing, and it passes over nothing.
use mathlib.Core.Path.{subst}
use defiant_fleet_ops.Base.{
  some_same, All-has, ℕ, zero, suc, ◌<◌, ◌≡◌, ◌≢◌, ◌⊎◌, inl, inr, refl, sym, ap, ◌∙◌, arith, true,
  false, not, ◌||◌, none, some, List, [], ◌∷◌, ◌==◌, find, has, All, All-map, find-All, find-holds,
  Bool-cases, Option-cases, ok, names, IsHeld,
}
use defiant_fleet_ops.Procurement.{Line, succeeds}
use defiant_fleet_ops.Procurement.Lineage.{line_key, HasDepth, IsVersion}
use defiant_fleet_ops.Procurement.Listing.{walk}

pub held_same :
    (lines : List Line) (x y : Line)
    → IsHeld line_key lines x
    → IsHeld line_key lines y
    → x.id ≡ y.id
    → x ≡ y
held_same lines x y hx hy e =
    some_same x y (sym hx ∙ ap (λ (i : ℕ). find (names line_key i) lines) e ∙ hy)

HasDepth-unique :
    (lines : List Line) (l : Line) (j k : ℕ) → HasDepth lines l j → HasDepth lines l k → j ≡ k
HasDepth-unique lines l zero zero a b = refl
HasDepth-unique lines l zero (suc k) a b = let next = b.1 in ground (arith, a, next)
HasDepth-unique lines l (suc j) zero a b = let next = a.1 in ground (arith, b, next)
HasDepth-unique lines l (suc j) (suc k) (q, s, hq, _, a) (r, u, hr, _, b) =
    let same_id : q.id ≡ r.id = let e = sym s ∙ u in ground (arith, e) in
    let same = held_same lines q r hq hr same_id in
    ap suc (HasDepth-unique lines r j k (subst (λ (x : Line). HasDepth lines x j) same a) b)

-- What is seen below line number `n`, or of line `n` below depth `d`.
abbrev pub Seen : List Line → ℕ → ℕ → ℕ → Type 0
Seen lines n d i =
    (x : Line) × IsHeld line_key lines x
    × (x.id ≡ i)
    × ((x.line_number < n) ⊎ ((x.line_number ≡ n) × ((k : ℕ) × HasDepth lines x k × (k < d))))

-- A version of line `n` at depth `d` is not yet seen.
unseen_version :
    (lines : List Line) (seen : List ℕ) (row : Line) (d : ℕ)
    → IsHeld line_key lines row
    → HasDepth lines row d
    → All (Seen lines row.line_number d) seen
    → has row.id seen ≡ false
unseen_version lines seen row d held depth all = elim (Bool-cases (has row.id seen)) [
  | inr first ↦ first
  | inl again ↦
      let (x, hx, same_id, place) = All-has (Seen lines row.line_number d) row.id seen all again in
      let same = held_same lines x row hx held same_id in
      let number = ap (λ (l : Line). l.line_number) same in
      elim place [
        | inl below ↦ absurd (omega (arith, below, number))
        | inr (_, (k, dk, less)) ↦
            let e =
              HasDepth-unique lines row k d (subst (λ (l : Line). HasDepth lines l k) same dk)
                depth in
            absurd (omega (arith, less, e))
      ]
]

deeper : (lines : List Line) (n d i : ℕ) → Seen lines n d i → Seen lines n (suc d) i
deeper lines n d i (x, held, same, inl below) = (x, held, same, inl below)
deeper lines n d i (x, held, same, inr (number, (k, depth, less))) =
    (x, held, same, inr (number, (k, depth, omega (arith, less))))

passed : (lines : List Line) (n d i : ℕ) → Seen lines n d i → Seen lines (suc n) zero i
passed lines n d i (x, held, same, inl below) = (x, held, same, inl (omega (arith, below)))
passed lines n d i (x, held, same, inr (number, (k, depth, less))) =
    (x, held, same, inl (omega (arith, number)))

-- The next version: one level deeper, and of the same line.
next_version :
    (lines : List Line) (row next : Line) (d : ℕ)
    → IsHeld line_key lines row
    → HasDepth lines row d
    → IsVersion lines next
    → succeeds row.id next ≡ true
    → (next.line_number ≡ row.line_number) × HasDepth lines next (suc d)
next_version lines row next d held depth (zero, hn, s) h = ground (arith, s)
next_version lines row next d held depth (suc k, hn, (q, s, hq, number, dq)) h =
    let same_id : q.id ≡ row.id = ground (arith, s, h) in
    let same = held_same lines q row hq held same_id in
    (
      sym number ∙ ap (λ (l : Line). l.line_number) same,
      (row, s ∙ ap some same_id, held, ap (λ (l : Line). l.line_number) (sym same) ∙ number, depth),
    )

-- The walks that are not refused: from `row`, with what is seen before and after.
pub data Walks (successors : List Line) (n : ℕ) : List ℕ → Line → List Line → List ℕ → Type 0 where
  stops :
      (seen : List ℕ) (row : Line)
      → has row.id seen ≡ false
      → row.line_number ≡ n
      → find (succeeds row.id) successors ≡ none
      → Walks successors n seen row (row ∷ []) (row.id ∷ seen)
  goes :
      (seen : List ℕ) (row next : Line) (rows : List Line) (after : List ℕ)
      → has row.id seen ≡ false
      → row.line_number ≡ n
      → find (succeeds row.id) successors ≡ some next
      → Walks successors n (row.id ∷ seen) next rows after
      → Walks successors n seen row (row ∷ rows) after

module _ (lines successors : List Line) (known : All (IsVersion lines) successors) where
  -- A walk that ends is not refused, and what it has seen is of this line or of those before.
  pub walk-accepted :
      (fuel n d : ℕ) (seen : List ℕ) (row : Line)
      → IsHeld line_key lines row
      → HasDepth lines row d
      → row.line_number ≡ n
      → All (Seen lines n d) seen
      → walk fuel successors n seen row ≢ none
      → (w : List Line × List ℕ) × (walk fuel successors n seen row ≡ some (ok w))
        × Walks successors n seen row w.0 w.1
        × All (Seen lines (suc n) zero) w.1
        × All (IsVersion lines) w.0
  unfolding walk
  walk-accepted zero n d seen row held depth number all ends = absurd (ends refl)
  walk-accepted (suc fuel) n d seen row held depth number all ends =
      let first =
        unseen_version lines seen row d held depth
          (subst (λ (k : ℕ). All (Seen lines k d) seen) (sym number) all) in
      let go : (has row.id seen || not (row.line_number == n)) ≡ false =
        ground (arith, first, number) in
      let here : Seen lines n (suc d) row.id =
        (row, held, refl, inr (number, (d, depth, omega arith))) in
      let all' : All (Seen lines n (suc d)) (row.id ∷ seen) =
        (here, All-map (deeper lines n d) seen all) in
      elim (Option-cases (find (succeeds row.id) successors)) [
        | inl last ↦ (
          (row ∷ [], row.id ∷ seen),
          rw (walk, go, last) refl,
          stops seen row first number last,
          All-map (passed lines n (suc d)) (row.id ∷ seen) all',
          ((d, held, depth), tt),
        )
        | inr (next, found) ↦
            let version =
              find-All (IsVersion lines) (succeeds row.id) successors next known found in
            let (same, deep) =
              next_version lines row next d held depth version
                (find-holds (succeeds row.id) successors next found) in
            let rest_ends : walk fuel successors n (row.id ∷ seen) next ≢ none =
              λ spent. ends (rw (walk, go, found, spent) refl) in
            let (w, walked, steps, after, versions) =
              walk-accepted fuel n (suc d) (row.id ∷ seen) next version.1 deep (same ∙ number) all'
                rest_ends in
            (
              (row ∷ w.0, w.1),
              rw (walk, go, found, walked) refl,
              goes seen row next w.0 w.1 first number found steps,
              after,
              ((d, held, depth), versions),
            )
      ]
