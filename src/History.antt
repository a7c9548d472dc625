-- ===== src/History.antt =====
-- The immutable history rows of one Asset, the view that a correction leaves effective
-- (server/alembic/versions/0011_corrections.py), and the queries that pick the latest row.
pub mod Effective
use defiant_fleet_ops.Base.{
  ℕ, ◌≡◌, refl, Bool, true, false, not, ◌&&◌, Option, none, some, List, [], ◌∷◌, ltb, ◌==◌, same,
  any, keep, map, count, if◌then◌else◌,
}
use defiant_fleet_ops.Text.{Text}

-- 'NONE', 'REVERSAL' and 'CORRECTED'.
pub data CorrectionRole : Type 0 where
  ordinary reversal corrected : CorrectionRole

abbrev pub is_ordinary : CorrectionRole → Bool
is_ordinary ordinary = true
is_ordinary _ = false

abbrev pub is_reversal : CorrectionRole → Bool
is_reversal reversal = true
is_reversal _ = false

abbrev pub is_corrected : CorrectionRole → Bool
is_corrected corrected = true
is_corrected _ = false

abbrev pub role_eq : CorrectionRole → CorrectionRole → Bool
role_eq ordinary ordinary = true
role_eq reversal reversal = true
role_eq corrected corrected = true
role_eq _ _ = false

-- A row of one of the five history tables. `F` is the fact that its from_ and to_ columns hold, a
-- pair of columns for an assignment; `none` is NULL. `root` is the corrects_ column of the table.
-- Only asset_transitions has evidence_ref, and the rows of the other tables have `none` there.
pub record Event (F : Type 0) : Type 0 where
  pub id : ℕ
  pub result_version : ℕ
  pub source : Option F
  pub target : Option F
  pub reason : Text
  pub actor_id : ℕ
  pub occurred_at : ℕ
  pub client_op_id : Option ℕ
  pub evidence_ref : Option ℕ
  pub root : Option ℕ
  pub role : CorrectionRole
  pub pair_id : Option ℕ
  pub generation : ℕ
  pub correction_occurred_at : Option ℕ

module _ {F : Type 0} where
  -- COALESCE(h.root, h.id)
  abbrev pub family : Event F → ℕ
  family h = elim h.root [ none ↦ h.id | some r ↦ r ]

  -- `c` is a later replacement of what `h` states.
  unfoldable pub supersedes : Event F → Event F → Bool
  supersedes h c =
      same c.root (some (family h)) && is_corrected c.role && ltb h.generation c.generation

  unfoldable pub is_effective : List (Event F) → Event F → Bool
  is_effective rows h = not (is_reversal h.role) && not (any (supersedes h) rows)

  -- The view effective_<history>.
  unfoldable pub effective : List (Event F) → List (Event F)
  effective rows = keep (is_effective rows) rows

  abbrev pub newer : Event F → Option (Event F) → Option (Event F)
  newer e none = some e
  newer e (some l) = if ltb e.result_version l.result_version then some l else some e

  -- ORDER BY result_version DESC LIMIT 1
  unfoldable pub latest : List (Event F) → Option (Event F)
  latest [] = none
  latest (e ∷ es) = newer e (latest es)

  -- ... WHERE result_version < v ORDER BY result_version DESC LIMIT 1
  unfoldable pub latest_before : ℕ → List (Event F) → Option (Event F)
  unfolding latest
  latest_before v rows = latest (keep (λ h. ltb h.result_version v) rows)

  -- The versions that the rows of a table produced.
  abbrev pub versions : List (Event F) → List ℕ
  versions = map (λ h. h.result_version)
