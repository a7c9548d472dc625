-- ===== src/Reconcile/Gaps.antt =====
-- No range is missing from points that hold the predecessor of each of them.
use defiant_fleet_ops.Base.{
  ℕ, suc, ◌-◌, ◌≤◌, ◌≡◌, refl, arith, Bool, true, false, ◌||◌, ◌&&◌, List, [], ◌∷◌, ltb, leb, ◌==◌,
  ==_eq, ==_refl, any, keep, All, Bool-cases, inl, inr, ap,
}
use defiant_fleet_ops.Reconcile.{nub, insert, sort, gaps, gaps_after}

abbrev pub has : ℕ → List ℕ → Bool
has v vs = any (λ w. w == v) vs

abbrev pub Above : ℕ → List ℕ → Type 0
Above p = All (λ v. p ≤ v)

abbrev pub Sorted : List ℕ → Type 0
Sorted [] = Unit
Sorted (v ∷ vs) = Above v vs × Sorted vs

Above-mono : (p q : ℕ) (vs : List ℕ) → p ≤ q → Above q vs → Above p vs
Above-mono p q [] le a = tt
Above-mono p q (v ∷ vs) le a = (omega (arith, a.0), Above-mono p q vs le a.1)

Above-insert : (p v : ℕ) (vs : List ℕ) → p ≤ v → Above p vs → Above p (insert v vs)
Above-insert p v [] le a = (le, tt)
Above-insert p v (w ∷ ws) le a = elim (Bool-cases (leb v w)) [
  | inl below ↦ rw below (le, a)
  | inr above ↦ rw above (a.0, Above-insert p v ws le a.1)
]

insert-Sorted : (v : ℕ) (vs : List ℕ) → Sorted vs → Sorted (insert v vs)
insert-Sorted v [] s = (tt, tt)
insert-Sorted v (w ∷ ws) s = elim (Bool-cases (leb v w)) [
  | inl below ↦
      let le : v ≤ w = ground (arith, below) in rw below ((le, Above-mono v w ws le s.0), s)
  | inr above ↦
      let le : w ≤ v = ground (arith, above) in
      rw above (Above-insert w v ws le s.0, insert-Sorted v ws s.1)
]

pub sort-Sorted : (vs : List ℕ) → Sorted (sort vs)
sort-Sorted [] = tt
sort-Sorted (v ∷ vs) = insert-Sorted v (sort vs) (sort-Sorted vs)

has-insert : (n v : ℕ) (vs : List ℕ) → has n (insert v vs) ≡ (v == n || has n vs)
has-insert n v [] = refl
has-insert n v (w ∷ ws) = ground (arith, has-insert n v ws)

pub has-sort : (n : ℕ) (vs : List ℕ) → has n (sort vs) ≡ has n vs
has-sort n [] = refl
has-sort n (v ∷ vs) = ground (arith, has-insert n v (sort vs), has-sort n vs)

pub has-keep : (n : ℕ) (p : ℕ → Bool) (vs : List ℕ) → has n (keep p vs) ≡ (p n && has n vs)
has-keep n p [] = ground arith
has-keep n p (v ∷ vs) = elim (Bool-cases (v == n)) [
  | inl here ↦ let same : p v ≡ p n = ap p (==_eq v n here) in ground (arith, has-keep n p vs, same)
  | inr other ↦ ground (arith, has-keep n p vs)
]

pub has-nub : (n : ℕ) (vs : List ℕ) → has n (nub vs) ≡ has n vs
has-nub n [] = refl
has-nub n (v ∷ vs) = elim (Bool-cases (v == n)) [
  | inl here ↦
      let same : has v vs ≡ has n vs = ap (λ k. has k vs) (==_eq v n here) in
      ground (arith, has-nub n vs, same)
  | inr other ↦ ground (arith, has-nub n vs)
]

below-first : (n p : ℕ) (vs : List ℕ) → Above p vs → suc n ≤ p → has n vs ≡ false
below-first n p [] a lt = refl
below-first n p (v ∷ vs) a lt = ground (arith, below-first n p vs a.1, a.0)

-- Each point is 0 or has its predecessor among the points.
abbrev pub Closed : List ℕ → List ℕ → Type 0
Closed all = All (λ v. (1 ≤ v → has (v - 1) all ≡ true))

-- From a point `p` on, where what is below `p` is out of the way.
abbrev Follows : ℕ → List ℕ → List ℕ → Type 0
Follows p all = All (λ v. (suc p ≤ v → has (v - 1) all ≡ true))

Follows-next :
    (p v : ℕ) (vs ys : List ℕ) → p ≤ v → Follows p (p ∷ v ∷ vs) ys → Follows v (v ∷ vs) ys
Follows-next p v vs [] le f = tt
Follows-next p v vs (y ∷ ys) le f =
    (λ above. ground (arith, f.0 (omega arith)), Follows-next p v vs ys le f.1)

no_jump :
    (p v : ℕ) (vs : List ℕ)
    → Above v vs
    → (suc p ≤ v → has (v - 1) (p ∷ v ∷ vs) ≡ true)
    → ltb (suc p) v ≡ false
no_jump p v vs a f = elim (Bool-cases (ltb (suc p) v)) [
  | inl jump ↦
      let far : suc (suc p) ≤ v = ground (arith, jump) in
      let close = f (omega arith) in
      let none_there = below-first (v - 1) v vs a (omega arith) in
      ground (arith, close, none_there, far)
  | inr close ↦ close
]

pub gaps_after-empty :
    (p : ℕ) (vs : List ℕ) → Above p vs → Sorted vs → Follows p (p ∷ vs) vs → gaps_after p vs ≡ []
gaps_after-empty p [] a s f = refl
gaps_after-empty p (v ∷ vs) a s f =
    rw (no_jump p v vs s.0 f.0) (gaps_after-empty v vs s.0 s.1 (Follows-next p v vs vs a.0 f.1))

Follows-Closed : (p : ℕ) (all vs : List ℕ) → Closed all vs → Follows p all vs
Follows-Closed p all [] c = tt
Follows-Closed p all (v ∷ vs) c = (λ above. c.0 (omega arith), Follows-Closed p all vs c.1)

-- No range is missing from sorted points that are closed under predecessors.
pub gaps-empty : (vs : List ℕ) → Sorted vs → Closed vs vs → gaps vs ≡ []
gaps-empty [] s c = refl
gaps-empty (v ∷ vs) s c = gaps_after-empty v vs s.0 s.1 (Follows-Closed v (v ∷ vs) vs c.1)

-- A property of every number that stands in the list.
pub All-has : (P : ℕ → Type 0) (vs : List ℕ) → ((n : ℕ) → has n vs ≡ true → P n) → All P vs
All-has P [] h = tt
All-has P (v ∷ vs) h =
    (h v (ground (arith, ==_refl v)), All-has P vs (λ n e. h n (ground (arith, e))))
