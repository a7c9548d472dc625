-- ===== src/Corrections/Audit.antt =====
-- What the audit names as cancelled.
use defiant_fleet_ops.Base.{
  ℕ, ◌+◌, ◌≡◌, refl, arith, Bool, true, false, ◌&&◌, Option, none, some, List, [], ◌∷◌, ◌==◌, any,
  map, same, Option-cases, Bool-cases, inl, inr, ltb, All, ==_refl,
}
use defiant_fleet_ops.History.{
  Event, CorrectionRole, ordinary, reversal, corrected, is_ordinary, is_reversal, is_corrected,
}
use defiant_fleet_ops.Ledger.Anomalies.{cancels, malformed, bad_metadata, ordinary_root}
use defiant_fleet_ops.Corrections.{replacement, cancels_history_id, audit_rows}

any_mono {ℓ} :
    {A : Type ℓ} (p q : A → Bool) (xs : List A)
    → ((x : A) → p x ≡ true → q x ≡ true)
    → any p xs ≡ true
    → any q xs ≡ true
any_mono p q [] m h = h
any_mono p q (x ∷ xs) m h = elim (Bool-cases (p x)) [
  | inl holds ↦ let there = m x holds in ground (arith, there)
  | inr fails ↦ let rest = any_mono p q xs m (ground (arith, fails)) in ground (arith, rest)
]

any-false {ℓ} :
    {A : Type ℓ} (p : A → Bool) (xs : List A) → any p xs ≡ false → All (λ x. p x ≡ false) xs
any-false p [] h = tt
any-false p (x ∷ xs) h = (ground arith, any-false p xs (ground arith))

false_mono {ℓ} :
    {A : Type ℓ} (p q : A → Bool) (xs : List A)
    → ((x : A) → q x ≡ true → p x ≡ true)
    → any p xs ≡ false
    → any q xs ≡ false
false_mono p q xs m h = elim (Bool-cases (any q xs)) [
  | inl some_one ↦ let found = any_mono q p xs m some_one in ground (arith, found)
  | inr no_one ↦ no_one
]

reversal_not : (r : CorrectionRole) → is_reversal r ≡ true → is_ordinary r ≡ false
reversal_not ordinary h = cc
reversal_not reversal h = refl
reversal_not corrected h = refl

module _ {F : Type 0} where
  -- The test of `replacement` on a row.
  abbrev replaces : ℕ → ℕ → Event F → Bool
  replaces root next r =
      is_corrected r.role && (same r.root (some root) && r.generation + 1 == next)

  replacement-replaces :
      (root next i : ℕ) (rows : List (Event F))
      → replacement (some root) next rows ≡ some i
      → any (λ p. p.id == i && replaces root next p) rows ≡ true
  unfolding replacement
  replacement-replaces root next i [] h = cc
  replacement-replaces root next i (r ∷ rows) h =
      elim (Option-cases (replacement (some root) next rows)) [
        | inl absent ↦ elim (Bool-cases (replaces root next r)) [
          | inl here ↦
              let same_id : r.id ≡ i = ground (arith, absent, here) in
              let named = ==_refl i in rw (same_id, named, here) refl
          | inr elsewhere ↦ ground (arith, absent, elsewhere)
        ]
        | inr (j, found) ↦
            let rest = replacement-replaces root next i rows (ground (arith, found)) in
            ground (arith, rest)
      ]

  replacement-none :
      (root next : ℕ) (rows : List (Event F))
      → replacement (some root) next rows ≡ none
      → any (replaces root next) rows ≡ false
  unfolding replacement
  replacement-none root next [] h = refl
  replacement-none root next (r ∷ rows) h =
      elim (Option-cases (replacement (some root) next rows)) [
        | inl absent ↦
            let rest = replacement-none root next rows absent in
            elim (Bool-cases (replaces root next r)) [
              | inl here ↦ ground (arith, absent, here)
              | inr elsewhere ↦ rw (elsewhere, rest) refl
            ]
        | inr (j, found) ↦ ground (arith, found)
      ]

module _ {F : Type 0} (eq : F → F → Bool) (rows : List (Event F)) where
  -- The metadata of a well-formed reversal.
  record Rooted (h : Event F) : Type 0 where
    root : ℕ
    named : h.root ≡ some root
    present : any (λ p. p.id == root && is_ordinary p.role) rows ≡ true
    numbered : ltb h.generation 1 ≡ false

  reversal-Rooted :
      (h : Event F) → is_reversal h.role ≡ true → bad_metadata eq rows h ≡ false → Rooted h
  unfolding bad_metadata ordinary_root
  reversal-Rooted h r b =
      let other = reversal_not h.role r in
      elim (Option-cases h.root) [
        | inl unnamed ↦ ground (arith, other, unnamed)
        | inr (root, named) ↦ record {
          root = root;
          named = named;
          present = ground (arith, other, named);
          numbered = ground (arith, other, named);
        }
      ]

  -- What the audit names, if anything, is a row that the reversal cancels; it names nothing only
  -- where there is no such row.
  abbrev pub IsNamed : Event F × Option ℕ → Type 0
  IsNamed (h, cancelled) =
      ((i : ℕ) → cancelled ≡ some i → any (λ p. p.id == i && cancels eq rows h p) rows ≡ true)
      × (cancelled ≡ none → any (cancels eq rows h) rows ≡ false)

  first-IsNamed :
      (h : Event F)
      → is_reversal h.role ≡ true
      → Rooted h
      → (h.generation == 1) ≡ true
      → IsNamed (h, cancels_history_id rows h)
  unfolding cancels_history_id cancels
  first-IsNamed h r m g = (
    λ i named.
        let same_root : m.root ≡ i = ground (arith, r, g, m.named) in
        any_mono (λ p. p.id == m.root && is_ordinary p.role) (λ p. p.id == i && cancels eq rows h p)
          rows (λ p holds. ground (arith, g, m.named, same_root)) m.present,
    λ unnamed. ground (arith, r, g, m.named),
  )

  later-IsNamed :
      (h : Event F)
      → is_reversal h.role ≡ true
      → Rooted h
      → (h.generation == 1) ≡ false
      → IsNamed (h, cancels_history_id rows h)
  unfolding cancels_history_id cancels
  later-IsNamed h r m g = (
    λ i named.
        any_mono (λ p. p.id == i && replaces m.root h.generation p)
          (λ p. p.id == i && cancels eq rows h p) rows
          (λ p holds. ground (arith, g, m.named, m.numbered))
          (replacement-replaces m.root h.generation i rows (ground (arith, r, g, m.named))),
    λ unnamed.
        false_mono (replaces m.root h.generation) (cancels eq rows h) rows
          (λ p holds. ground (arith, g, m.named, m.numbered))
          (replacement-none m.root h.generation rows (ground (arith, r, g, m.named))),
  )

  -- The reversals of a list of rows.
  reversals-IsNamed :
      (hs : List (Event F))
      → All (λ h. bad_metadata eq rows h ≡ false) hs
      → All
          (λ e. is_reversal e.0.role ≡ true → IsNamed e)
          (map (λ h. (h, cancels_history_id rows h)) hs)
  reversals-IsNamed [] sound = tt
  reversals-IsNamed (h ∷ hs) (sound, others) = (
    λ r.
        let m = reversal-Rooted h r sound in
        elim (Bool-cases (h.generation == 1)) [
          | inl first ↦ first-IsNamed h r m first
          | inr later ↦ later-IsNamed h r m later
        ],
    reversals-IsNamed hs others,
  )

  -- In a history that is not malformed, what the audit names for a reversal, if anything, is a row of the
  -- history that the reversal cancels, its root or the replacement of the generation before; where it
  -- names nothing, no row of the history is such a row.
  pub audit_rows-IsNamed :
      (baseline : Option F)
      → malformed eq rows baseline ≡ false
      → All (λ e. is_reversal e.0.role ≡ true → IsNamed e) (audit_rows rows)
  unfolding malformed audit_rows
  audit_rows-IsNamed baseline h = reversals-IsNamed rows (
      any-false (bad_metadata eq rows) rows
        (false_mono _ (bad_metadata eq rows) rows (λ x bad. ground (arith, bad)) h))
