-- ===== src/Ledger/Authority.antt =====
-- assert_asset_correction_authority of server/alembic/versions/0011_corrections.py: a correction
-- needs an Asset whose projections, witnesses and versions are all in order.
use defiant_fleet_ops.Base.{
  ℕ, ◌+◌, Bool, not, ◌&&◌, Option, none, some, List, [], ◌∷◌, ◌++◌, ltb, ◌==◌, same, any, length,
  is_some, Result, guard, sql, raise_exception, if◌then◌else◌,
}
use defiant_fleet_ops.Lifecycle.{AssetState, state_eq}
use defiant_fleet_ops.History.{effective, latest, versions}
use defiant_fleet_ops.Ledger.{Ledger, Directory}
use defiant_fleet_ops.Ledger.Anomalies.{has_anomaly, fact_same, max_of}
use defiant_fleet_ops.Ledger.Physical.{
  PhysicalFact, movement, custody, ownership, history, initial_fact,
}
use defiant_fleet_ops.Ledger.Assignment.{assignment_id}

-- The state that the effective history states.
unfoldable pub stated_state : Ledger → Option AssetState
stated_state l = elim (latest (effective l.transitions)) [ none ↦ none | some t ↦ t.target ]

-- The location, custodian or owner that the history states, or the creation facts before it.
unfoldable pub stated_fact : PhysicalFact → Ledger → Option ℕ
stated_fact f l = elim l.initial_facts [
  | none ↦ none
  | some b ↦ elim (latest (effective (history f l))) [ none ↦ initial_fact f b | some h ↦ h.target ]
]

-- The row that current_assignment_id is to name.
unfoldable pub stated_assignment : Ledger → Option ℕ
stated_assignment l = elim (latest (effective l.assignment_events)) [
  | none ↦ none
  | some e ↦ assignment_id e
]

-- `projection_invalid`, negated.
unfoldable pub projections_agree : Ledger → Bool
unfolding stated_state stated_fact stated_assignment
projections_agree l =
    fact_same state_eq (some l.asset.current_state) (stated_state l)
    && same l.asset.current_location_id (stated_fact movement l)
    && same l.asset.custodian_party_id (stated_fact custody l)
    && same l.asset.owner_party_id (stated_fact ownership l)
    && same l.asset.current_assignment_id (stated_assignment l)

-- The versions of all five histories.
abbrev pub raw_versions : Ledger → List ℕ
raw_versions l =
    versions l.transitions
    ++ versions l.movements
    ++ versions l.custody_changes
    ++ versions l.ownership_changes
    ++ versions l.assignment_events

distinct_versions : List ℕ → ℕ
distinct_versions [] = 0
distinct_versions (v ∷ vs) =
    if any (λ w. w == v) vs then distinct_versions vs else distinct_versions vs + 1

-- min(), which is 0 for no row.
min_of : List ℕ → ℕ
min_of [] = 0
min_of (v ∷ []) = v
min_of (v ∷ w ∷ ws) = let m = min_of (w ∷ ws) in if ltb v m then v else m

-- As many versions as the Asset counts, all distinct, from 1 to its own.
unfoldable pub versions_complete : Ledger → Bool
unfolding distinct_versions min_of max_of
versions_complete l =
    length (raw_versions l) == l.asset.version
    && distinct_versions (raw_versions l) == l.asset.version
    && min_of (raw_versions l) == 1
    && max_of (raw_versions l) == l.asset.version

unfoldable pub assert_authority : Directory → Ledger → Result (Unit {0})
unfolding projections_agree versions_complete
assert_authority d l =
    guard
      (projections_agree l
        && not (has_anomaly d l)
        && is_some l.initial_facts
        && l.initial_assignment_facts
        && versions_complete l)
      (sql raise_exception)
