-- ===== src/History/Effective.antt =====
-- What an append does to the effective view and to its latest row.
use defiant_fleet_ops.Base.{
  ℕ, ◌<◌, ◌≡◌, true, some, List, [], ◌∷◌, All, All-keep, arith, inl, inr, Option-cases,
}
use defiant_fleet_ops.History.{Event, is_effective, effective, latest}

module _ {F : Type 0} where
  abbrev pub Below : ℕ → List (Event F) → Type 0
  Below v = All (λ h. h.result_version < v)

  pub latest-Below :
      (v : ℕ) (rows : List (Event F)) (l : Event F)
      → Below v rows
      → latest rows ≡ some l
      → l.result_version < v
  unfolding latest
  latest-Below v [] l h e = ground arith
  latest-Below v (x ∷ rows) l h e = ground (arith, h.0, latest-Below v rows l h.1)

  -- A row above all others is the latest.
  pub latest-cons :
      (e : Event F) (rows : List (Event F))
      → Below e.result_version rows
      → latest (e ∷ rows) ≡ some e
  unfolding latest
  latest-cons e rows h = elim (Option-cases (latest rows)) [
    | inl n ↦ rw n
    | inr (m, em) ↦ rw em (ground (arith, latest-Below e.result_version rows m h em))
  ]

  -- The latest effective row after an append that nothing supersedes.
  pub latest-effective-cons :
      (e : Event F) (rows : List (Event F))
      → Below e.result_version rows
      → is_effective (e ∷ rows) e ≡ true
      → latest (effective (e ∷ rows)) ≡ some e
  unfolding effective
  latest-effective-cons e rows h k = rw k (latest-cons e _ (All-keep _ _ rows h))
