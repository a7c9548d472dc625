-- ===== src/Assets.antt =====
-- server/fleetops/domain/assets.py: the transitions that the service offers and admits in front of
-- the SQL function transition_asset, and how a refused statement is reported.
pub mod Legality
pub mod Facts
use defiant_fleet_ops.Base.{
  ℕ, ◌+◌, Bool, true, false, not, ◌&&◌, ◌||◌, Option, none, some, List, [], ◌∷◌, ltb, leb, ◌==◌,
  any, keep, is_none, Result, ok, err, guard, ◌>>=◌, ◌>>◌, Failure, sql, SqlState, if◌then◌else◌,
  insufficient_privilege, no_data_found, raise_exception, serialization_failure, deadlock_detected,
  unique_violation, not_null_violation, foreign_key_violation, check_violation,
  numeric_out_of_range, datetime_overflow, asset_not_found, asset_conflict, asset_invalid,
  lifecycle_invalid,
}
use defiant_fleet_ops.Lifecycle.{
  AssetState, received, in_stock, configuring, ready, deployed, on_hold, out_of_service, retired,
  state_eq, lifecycle, allowed, validate_edge,
}
use defiant_fleet_ops.Evidence.{disposal_evidence}
use defiant_fleet_ops.Evidence.Service.{Storage, verify_asset_evidence}
use defiant_fleet_ops.History.{Event, effective, latest}
use defiant_fleet_ops.Ledger.{Ledger, Session, Directory, Request}
use defiant_fleet_ops.Ledger.Anomalies.{fact_same}
use defiant_fleet_ops.Ledger.Transition.{transition}

-- The classes of `_constraints`; any other failure is raised as it is.
abbrev pub translated : SqlState → Failure
translated no_data_found = asset_not_found
translated serialization_failure = asset_conflict
translated raise_exception = asset_conflict
translated unique_violation = asset_conflict
translated not_null_violation = asset_invalid
translated foreign_key_violation = asset_invalid
translated check_violation = asset_invalid
translated insufficient_privilege = asset_invalid
translated numeric_out_of_range = asset_invalid
translated other = sql other

unfoldable pub constraints {ℓ} : {A : Type ℓ} → Result A → Result A
constraints (ok a) = ok a
constraints (err (sql state)) = err (translated state)
constraints (err e) = err e

-- `sorted` of the states, whose values are texts.
abbrev pub sorted_states : List AssetState
sorted_states =
    configuring ∷ deployed ∷ in_stock ∷ on_hold ∷ out_of_service ∷ ready ∷ received ∷ retired ∷ []

pub record Options : Type 0 where
  pub asset_id : ℕ
  pub expected_version : ℕ
  pub from_state : AssetState
  pub options : List (AssetState × Bool)

abbrev with_evidence : List AssetState → List (AssetState × Bool)
with_evidence [] = []
with_evidence (s ∷ states) = (s, state_eq s retired) ∷ with_evidence states

-- The states that may follow `state`, which the row `h` entered.
unfoldable pub choices : AssetState → Event AssetState → Result (List AssetState)
unfolding lifecycle
choices state h =
    if state_eq state on_hold
    then elim h.source [ none ↦ err asset_conflict | some entry ↦ ok (entry ∷ lifecycle state) ]
    else ok (lifecycle state)

unfoldable pub transition_options : Option Ledger → Result Options
unfolding choices
transition_options none = err asset_not_found
transition_options (some l) = elim (latest (effective l.transitions)) [
  | none ↦ err asset_conflict
  | some h ↦ elim h.target [
    | none ↦ err asset_conflict
    | some state ↦
        (guard (state_eq state l.asset.current_state && leb h.result_version l.asset.version)
            asset_conflict
          >> choices state h
          >>= λ states. ok record {
            asset_id = l.asset.id;
            expected_version = l.asset.version;
            from_state = state;
            options = with_evidence (keep (λ s. any (state_eq s) states) sorted_states);
          })
  ]
]

-- The exit of a hold: the effective history is to have entered it, and its entry state is an exit.
unfoldable pub check_hold : Option Ledger → AssetState → Result (Unit {0})
unfolding validate_edge
check_hold none to = err asset_not_found
check_hold (some l) to = elim (latest (effective l.transitions)) [
  | none ↦ err asset_conflict
  | some h ↦
      (guard (fact_same state_eq h.target (some on_hold)) asset_conflict
        >> validate_edge on_hold to h.source)
]

unfoldable pub transition_asset :
    Session
    → Directory
    → Storage
    → Option Ledger
    → ℕ
    → Request
    → AssetState
    → AssetState
    → Option ℕ
    → Result (Event AssetState × Ledger)
unfolding check_hold constraints
transition_asset s d storage found asset_id q from to evidence_ref = do
  if state_eq from on_hold then ok tt else validate_edge from to none
  guard (not (state_eq to retired && is_none evidence_ref)) lifecycle_invalid
  verify_asset_evidence d.evidence storage asset_id evidence_ref
      (if state_eq to retired then some disposal_evidence else none) (state_eq to retired)
  if state_eq from on_hold then check_hold found to else ok tt
  constraints (transition s d found q from to evidence_ref)
