-- ===== src/Base/Visited.antt =====
-- How many rows of a table a walk that keeps the identifiers it has seen has still before it.
use Prim.Native.Nat.{ℕ, suc, ◌≤◌, ◌<◌}
use mathlib.Core.Path.{◌≡◌, refl}
use mathlib.Core.Logic.{inl, inr}
use mathlib.Core.Bool.{Bool, true, false}
use mathlib.Core.Option.{some}
use mathlib.Core.List.{List, [], ◌∷◌}
use native.Mathlib.Omega.{arith}
use defiant_fleet_ops.Base.Tests.{if◌then◌else◌, ◌==◌, Bool-cases, ==_refl, ==_eq}
use defiant_fleet_ops.Base.Lists.{any, find, has, length}

module _ {ℓ} {A : Type ℓ} (key : A → ℕ) where
  unfoldable pub unseen : List A → List ℕ → ℕ
  unseen [] seen = 0
  unseen (x ∷ xs) seen = if has (key x) seen then unseen xs seen else suc (unseen xs seen)

  unseen_le : (xs : List A) (i : ℕ) (seen : List ℕ) → unseen xs (i ∷ seen) ≤ unseen xs seen
  unfolding unseen
  unseen_le [] i seen = omega arith
  unseen_le (x ∷ xs) i seen = ground (arith, unseen_le xs i seen)

  pub unseen-le-length : (xs : List A) (seen : List ℕ) → unseen xs seen ≤ length xs
  unfolding unseen
  unseen-le-length [] seen = omega arith
  unseen-le-length (x ∷ xs) seen = ground (arith, unseen-le-length xs seen)

  -- To see a row that was not seen leaves fewer.
  pub unseen_less :
      (xs : List A) (i : ℕ) (seen : List ℕ)
      → any (λ x. key x == i) xs ≡ true
      → has i seen ≡ false
      → unseen xs (i ∷ seen) < unseen xs seen
  unfolding unseen
  unseen_less [] i seen h new = ground arith
  unseen_less (x ∷ xs) i seen h new = elim (Bool-cases (key x == i)) [
    | inl here ↦
        let same : key x ≡ i = ==_eq (key x) i here in
        let rest = unseen_le xs i seen in rw (same, new, ==_refl i) (omega (arith, rest))
    | inr other ↦
        let rest = unseen_less xs i seen (ground (arith, other)) new in ground (arith, other, rest)
  ]

  pub found_present :
      (p : A → Bool) (xs : List A) (a : A)
      → find p xs ≡ some a
      → any (λ x. key x == key a) xs ≡ true
  found_present p [] a h = ground arith
  found_present p (x ∷ xs) a h = elim (Bool-cases (p x)) [
    | inl here ↦ let same : x ≡ a = ground (arith, here) in rw (same, ==_refl (key a)) refl
    | inr later ↦ let rest = found_present p xs a (ground (arith, later)) in ground (arith, rest)
  ]
