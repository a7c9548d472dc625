-- ===== src/Base/Lists.antt =====
-- Lists as the tables and the collections of the server: selections, tests on every entry, counts.
use Prim.Native.Nat.{ℕ, suc}
use mathlib.Core.Path.{◌≡◌, subst}
use mathlib.Core.Logic.{◌≢◌, inl, inr}
use mathlib.Core.Bool.{Bool, true, false, ◌||◌, ◌&&◌}
use mathlib.Core.Option.{Option, none, some}
use mathlib.Core.List.{List, [], ◌∷◌}
use native.Mathlib.Omega.{arith}
use defiant_fleet_ops.Base.Tests.{if◌then◌else◌, ◌==◌, ==_eq, Bool-cases}

module _ {ℓ} {A : Type ℓ} where
  abbrev pub length : List A → ℕ
  length [] = 0
  length (x ∷ xs) = suc (length xs)

  -- The rows that a WHERE clause selects, in their order.
  abbrev pub keep : (A → Bool) → List A → List A
  keep p [] = []
  keep p (x ∷ xs) = if p x then x ∷ keep p xs else keep p xs

  abbrev pub any : (A → Bool) → List A → Bool
  any p [] = false
  any p (x ∷ xs) = p x || any p xs

  abbrev pub all : (A → Bool) → List A → Bool
  all p [] = true
  all p (x ∷ xs) = p x && all p xs

  -- The first row that fits.
  abbrev pub find : (A → Bool) → List A → Option A
  find p [] = none
  find p (x ∷ xs) = if p x then some x else find p xs

  abbrev pub All {κ} : (A → Type κ) → List A → Type κ
  All P [] = Unit
  All P (x ∷ xs) = P x × All P xs

abbrev pub has : ℕ → List ℕ → Bool
has i = any (λ k. k == i)

-- How often a number stands in a list.
abbrev pub count : ℕ → List ℕ → ℕ
count a [] = 0
count a (x ∷ xs) = if x == a then suc (count a xs) else count a xs

module _ {ℓ} {A : Type ℓ} where
  pub All-if {κ} :
      (P : A → Type κ) (b : Bool) (x : A) (xs : List A)
      → P x
      → All P xs
      → All P (if b then x ∷ xs else xs)
  All-if P true x xs px h = (px, h)
  All-if P false x xs px h = h

  pub All-keep {κ} : (P : A → Type κ) (p : A → Bool) (xs : List A) → All P xs → All P (keep p xs)
  All-keep P p [] h = tt
  All-keep P p (x ∷ xs) h = All-if P (p x) x (keep p xs) h.0 (All-keep P p xs h.1)

  pub find-holds : (p : A → Bool) (xs : List A) (a : A) → find p xs ≡ some a → p a ≡ true
  find-holds p [] a h = ground arith
  find-holds p (x ∷ xs) a h = ground (arith, find-holds p xs a)

  pub All-map {κ ρ} :
      {P : A → Type κ} {Q : A → Type ρ} (f : (x : A) → P x → Q x) (xs : List A)
      → All P xs
      → All Q xs
  All-map f [] h = tt
  All-map f (x ∷ xs) h = (f x h.0, All-map f xs h.1)

  none≢some : {a : A} → none ≢ some a
  none≢some e = cc

  find-All_step {κ} :
      (P : A → Type κ) (b : Bool) (x : A) (o : Option A) (a : A)
      → P x
      → (o ≡ some a → P a)
      → (if b then some x else o) ≡ some a
      → P a
  find-All_step P true x o a px h e = subst P (cc) px
  find-All_step P false x o a px h e = h e

  pub find-All {κ} :
      (P : A → Type κ) (p : A → Bool) (xs : List A) (a : A) → All P xs → find p xs ≡ some a → P a
  find-All P p [] a h e = absurd (none≢some e)
  find-All P p (x ∷ xs) a h e = find-All_step P (p x) x (find p xs) a h.0 (find-All P p xs a h.1) e

  pub find-keep : (p q : A → Bool) (xs : List A) (a : A) → find p (keep q xs) ≡ some a → q a ≡ true
  find-keep p q [] a e = absurd (none≢some e)
  find-keep p q (x ∷ xs) a e = elim (Bool-cases (q x)) [
    | inl yes_q ↦ ground (arith, find-keep p q xs a)
    | inr no_q ↦ find-keep p q xs a (rw no_q at e)
  ]

pub some_same {ℓ} : {A : Type ℓ} (a b : A) → some a ≡ some b → a ≡ b
some_same a b h = cc h

-- What holds of each number of a list holds of one that the list has.
pub All-has {κ} : (P : ℕ → Type κ) (i : ℕ) (xs : List ℕ) → All P xs → has i xs ≡ true → P i
All-has P i [] h e = ground arith
All-has P i (x ∷ xs) h e = elim (Bool-cases (x == i)) [
  | inl here ↦ subst P (==_eq x i here) h.0
  | inr later ↦ All-has P i xs h.1 (ground (arith, later))
]
