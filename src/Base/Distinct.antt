-- ===== src/Base/Distinct.antt =====
-- Tables with a primary key: two that hold the same rows are rearrangements of each other.
use Prim.Native.Nat.{ℕ, suc}
use mathlib.Core.Path.{◌≡◌, refl, ap, sym, subst}
use mathlib.Core.Logic.{inl, inr}
use mathlib.Core.Bool.{Bool, true, false, not}
use mathlib.Core.Option.{some}
use mathlib.Core.List.{List, [], ◌∷◌, map}
use native.Mathlib.Omega.{arith}
use defiant_fleet_ops.Base.Tests.{if◌then◌else◌, ◌==◌, Bool-cases, ==_eq, ==_refl}
use defiant_fleet_ops.Base.Lists.{any, find, find-holds, keep, All}

-- How many rows satisfy a test.
abbrev pub tally {ℓ} : {A : Type ℓ} → (A → Bool) → List A → ℕ
tally p [] = 0
tally p (x ∷ xs) = if p x then suc (tally p xs) else tally p xs

module _ {ℓ} {A : Type ℓ} (key : A → ℕ) where
  abbrev pub names : ℕ → A → Bool
  names i x = key x == i

  abbrev pub IsDistinct : List A → Type 0
  IsDistinct [] = Unit
  IsDistinct (x ∷ xs) = (any (names (key x)) xs ≡ false) × IsDistinct xs

  -- The row that its key finds.
  abbrev pub IsHeld : List A → A → Type ℓ
  IsHeld xs x = find (names (key x)) xs ≡ some x

  abbrev others : ℕ → List A → List A
  others i = keep (λ x. not (names i x))

  any-others :
      (i j : ℕ) (xs : List A) → any (names j) xs ≡ false → any (names j) (others i xs) ≡ false
  any-others i j [] h = refl
  any-others i j (x ∷ xs) h = ground (arith, any-others i j xs)

  others-IsDistinct : (i : ℕ) (xs : List A) → IsDistinct xs → IsDistinct (others i xs)
  others-IsDistinct i [] d = tt
  others-IsDistinct i (x ∷ xs) (new, d) = elim (Bool-cases (names i x)) [
    | inl here ↦ rw here (others-IsDistinct i xs d)
    | inr other ↦ rw other (any-others i (key x) xs new, others-IsDistinct i xs d)
  ]

  absent-others : (i : ℕ) (xs : List A) → any (names i) xs ≡ false → others i xs ≡ xs
  absent-others i [] h = refl
  absent-others i (x ∷ xs) h = let rest = absent-others i xs (ground arith) in ground (arith, rest)

  tally-others :
      (p : A → Bool) (x : A) (xs : List A)
      → IsDistinct xs
      → IsHeld xs x
      → tally p xs ≡ tally p (x ∷ others (key x) xs)
  tally-others p x [] d h = ground arith
  tally-others p x (y ∷ xs) (new, d) h = elim (Bool-cases (names (key x) y)) [
    | inl here ↦
        let same : y ≡ x = ground (arith, here) in
        let absent : any (names (key x)) xs ≡ false =
          subst (λ (z : A). any (names (key z)) xs ≡ false) same new in
        rw (here, absent-others (key x) xs absent) (ap (λ (z : A). tally p (z ∷ xs)) same)
    | inr other ↦
        let rest = tally-others p x xs d (ground (arith, other)) in rw other (ground (arith, rest))
  ]

  find-others :
      (i j : ℕ) (xs : List A) (x : A)
      → (j == i) ≡ false
      → find (names j) xs ≡ some x
      → find (names j) (others i xs) ≡ some x
  find-others i j [] x n h = ground arith
  find-others i j (y ∷ xs) x n h = elim (Bool-cases (names i y)) [
    | inl here ↦
        let same = ==_eq (key y) i here in
        let rest = find-others i j xs x n (ground (arith, n, same)) in rw here rest
    | inr other ↦ elim (Bool-cases (names j y)) [
      | inl found ↦ rw (other, found) (ground (arith, found))
      | inr later ↦
          let rest = find-others i j xs x n (ground (arith, later)) in rw (other, later) rest
    ]
  ]

  All-others :
      (x : A) (xs ys : List A)
      → any (names (key x)) xs ≡ false
      → All (IsHeld ys) xs
      → All (IsHeld (others (key x) ys)) xs
  All-others x [] ys n h = tt
  All-others x (z ∷ xs) ys n h =
      (find-others (key x) (key z) ys z (ground arith) h.0, All-others x xs ys (ground arith) h.1)

  -- A row of another key stands behind the first.
  behind : (x y : A) (xs : List A) → names (key x) y ≡ false → IsHeld (x ∷ xs) y → IsHeld xs y
  behind x y xs n h = ground (arith, n)

  All-behind :
      (x : A) (xs ys : List A) → All (IsHeld (x ∷ xs)) ys → All (IsHeld xs) (others (key x) ys)
  All-behind x xs [] h = tt
  All-behind x xs (y ∷ ys) h = elim (Bool-cases (names (key x) y)) [
    | inl here ↦ rw here (All-behind x xs ys h.1)
    | inr other ↦ rw other (behind x y xs other h.0, All-behind x xs ys h.1)
  ]

  pub tally-same :
      (p : A → Bool) (xs ys : List A)
      → IsDistinct xs
      → IsDistinct ys
      → All (IsHeld ys) xs
      → All (IsHeld xs) ys
      → tally p xs ≡ tally p ys
  tally-same p [] [] dx dy hx hy = refl
  tally-same p [] (y ∷ ys) dx dy hx hy = ground arith
  tally-same p (x ∷ xs) ys (new, dx) dy (held, hx) hy =
      let rest =
        tally-same p xs (others (key x) ys) dx (others-IsDistinct (key x) ys dy)
          (All-others x xs ys new hx) (All-behind x xs ys hy) in
      let split = tally-others p x ys dy held in ground (arith, rest, split)

  -- Distinct rows that are all among others hold each of them by its key.
  pub held_present : (xs : List A) (x : A) → IsHeld xs x → any (names (key x)) xs ≡ true
  held_present [] x h = ground arith
  held_present (y ∷ xs) x h = elim (Bool-cases (names (key x) y)) [
    | inl here ↦ rw here refl
    | inr later ↦ let rest = held_present xs x (ground (arith, later)) in ground (arith, rest)
  ]

module _ {A : Type 0} (key : A → ℕ) (u : A) where
  -- The rows after an UPDATE of the one that has the key of `u`.
  abbrev pub replaced : List A → List A
  replaced = map (λ x. if key x == key u then u else x)

  pub find-replaced_other :
      (i : ℕ) (xs : List A)
      → (key u == i) ≡ false
      → find (names key i) (replaced xs) ≡ find (names key i) xs
  find-replaced_other i [] h = refl
  find-replaced_other i (x ∷ xs) h = elim (Bool-cases (key x == key u)) [
    | inl same ↦
        let same_key = ==_eq (key x) (key u) same in
        let other : (key x == i) ≡ false = subst (λ (k : ℕ). (k == i) ≡ false) (sym same_key) h in
        rw same (rw h (rw other (find-replaced_other i xs h)))
    | inr other ↦ rw other (ground (arith, find-replaced_other i xs h))
  ]

  pub find-replaced :
      (xs : List A) (x : A)
      → find (names key (key u)) xs ≡ some x
      → find (names key (key u)) (replaced xs) ≡ some u
  find-replaced [] x h = ground arith
  find-replaced (y ∷ xs) x h = elim (Bool-cases (key y == key u)) [
    | inl here ↦ rw (here, ==_refl (key u)) refl
    | inr later ↦ rw (later, later) (find-replaced xs x (ground (arith, later)))
  ]

-- A row that is found has the key.
pub found_named :
    {A : Type 0} (key : A → ℕ) (i : ℕ) (xs : List A) (x : A)
    → find (names key i) xs ≡ some x
    → any (names key i) xs ≡ true
found_named key i [] x h = ground arith
found_named key i (y ∷ xs) x h = elim (Bool-cases (key y == i)) [
  | inl here ↦ rw here refl
  | inr later ↦ let rest = found_named key i xs x (ground (arith, later)) in ground (arith, rest)
]

-- A row that some key finds, its own key finds.
pub found_own :
    {A : Type 0} (key : A → ℕ) (i : ℕ) (xs : List A) (x : A)
    → find (names key i) xs ≡ some x
    → find (names key (key x)) xs ≡ some x
found_own key i xs x h =
    let same = ==_eq (key x) i (find-holds (names key i) xs x h) in
    subst (λ (k : ℕ). find (names key k) xs ≡ some x) (sym same) h
