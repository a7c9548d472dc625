-- ===== src/Ledger/Admission.antt =====
-- What every privileged function checks first: the row that it locks, the version that the caller
-- read, and the correction anomalies (server/alembic/versions/0006_assets.py as adapted by
-- 0011_corrections.py). Then the facts that the histories of an Asset state.
use defiant_fleet_ops.Base.{
  ℕ, not, Option, none, some, List, ◌==◌, leb, Result, ok, err, guard, ◌>>=◌, ◌>>◌, sql,
  no_data_found, raise_exception, serialization_failure,
}
use defiant_fleet_ops.History.{Event, effective, latest}
use defiant_fleet_ops.Ledger.{Ledger, Session, Directory, performer}
use defiant_fleet_ops.Ledger.Anomalies.{has_anomaly}

-- SELECT ... FOR UPDATE, and P0002 for a row that is not there.
unfoldable pub locked : Option Ledger → Result Ledger
locked none = err (sql no_data_found)
locked (some l) = ok l

-- The version is compared only once the row is locked.
unfoldable pub fresh : Ledger → ℕ → Result (Unit {0})
fresh l expected = guard (l.asset.version == expected) (sql serialization_failure)

-- The performer and the locked, current, well-formed Asset.
unfoldable pub admit : Session → Directory → Option Ledger → ℕ → Result (ℕ × Ledger)
unfolding performer locked fresh
admit s d found expected = do
  who ← performer s
  l ← locked found
  fresh l expected
  guard (not (has_anomaly d l)) (sql raise_exception)
  ok (who, l)

-- The latest effective row, or what `missing` says of a table that has none. A row ahead of the
-- Asset is refused.
unfoldable pub prior_fact :
    {F : Type 0} → ℕ → List (Event F) → Result (Option F) → Result (Option F)
prior_fact version rows missing = elim (latest (effective rows)) [
  | none ↦ missing
  | some h ↦ (guard (leb h.result_version version) (sql raise_exception) >> ok h.target)
]
