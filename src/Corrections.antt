-- ===== src/Corrections.antt =====
-- server/fleetops/domain/corrections.py: the corrections that the service admits in front of the SQL
-- functions of Ledger/Corrections.antt, the issues that it finds in corrected lifecycle edges, and the
-- rows that it shows for an audit.
pub mod Audit
pub mod Legality
use defiant_fleet_ops.Base.{
  ℕ, ◌+◌, Bool, true, false, not, ◌&&◌, ◌||◌, Option, none, some, List, [], ◌∷◌, ◌==◌, any, map,
  find, same, matches, is_none, Result, ok, err, guard, ◌>>=◌, ◌>>◌, asset_not_found,
  asset_conflict, asset_invalid, lifecycle_invalid, if◌then◌else◌,
}
use defiant_fleet_ops.Lifecycle.{AssetState, retired, state_eq, validate_edge}
use defiant_fleet_ops.Evidence.{disposal_evidence, valid_asset_evidence}
use defiant_fleet_ops.Evidence.Service.{Storage, verify_asset_evidence}
use defiant_fleet_ops.History.{
  Event, is_ordinary, is_reversal, is_corrected, effective, latest_before,
}
use defiant_fleet_ops.Ledger.{Ledger, Assignee, Session, Directory}
use defiant_fleet_ops.Ledger.Physical.{PhysicalFact, movement, custody, ownership}
use defiant_fleet_ops.Ledger.Correction.{CorrectionRequest}
use defiant_fleet_ops.Ledger.Corrections.{
  correct_transition as sql_correct_transition, correct_fact as sql_correct_fact,
  correct_assignment as sql_correct_assignment,
}
use defiant_fleet_ops.Assets.{constraints}

abbrev pub raises : Result (Unit {0}) → Bool
raises (ok _) = false
raises (err _) = true

-- The body of the loop of classify_lifecycle_issues, on a corrected row and the effective row before
-- its root. `to_state` is NOT NULL in the table.
unfoldable pub is_illegal : Directory → ℕ → Event AssetState → Option (Event AssetState) → Bool
is_illegal d asset_id c none = true
is_illegal d asset_id c (some p) = elim p.target [
  | none ↦ true
  | some from ↦ elim c.target [
    | none ↦ true
    | some to ↦
        (state_eq to retired
          && not (valid_asset_evidence d.evidence c.evidence_ref asset_id (some disposal_evidence)))
        || raises (validate_edge from to p.source)
  ]
]

-- Whether LIFECYCLE_ISSUES_SQL and its classification list the Asset.
unfoldable pub has_lifecycle_issue : Directory → Ledger → Bool
unfolding is_illegal
has_lifecycle_issue d l =
    any
      (λ c.
        is_corrected c.role
        && any
            (λ r.
              matches c.root (some r.id)
              && is_illegal d l.asset.id c
                  (latest_before r.result_version (effective l.transitions)))
            l.transitions)
      l.transitions

-- `_correct`, in front of a statement. An unknown Asset has no rows, and the statement refuses it.
unfoldable pub correct {ℓ} : {A : Type ℓ} → Directory → Option Ledger → Result A → Result A
unfolding constraints
correct d none statement = constraints statement
correct d (some l) statement =
    if has_lifecycle_issue d l then err asset_conflict else constraints statement

-- The ordinary row of the Asset that a lifecycle correction is to replace.
unfoldable pub root_row : ℕ → List (Event AssetState) → Result (Event AssetState)
root_row root_id rows = elim (find (λ r. r.id == root_id) rows) [
  | none ↦ err asset_not_found
  | some r ↦ (guard (is_ordinary r.role) asset_invalid >> ok r)
]

-- The effective state before the root and the state that this one was entered from.
unfoldable pub prior_edge :
    Event AssetState → List (Event AssetState) → Result (AssetState × Option AssetState)
prior_edge root rows = elim (latest_before root.result_version (effective rows)) [
  | none ↦ err lifecycle_invalid
  | some p ↦ elim p.target [ none ↦ err lifecycle_invalid | some from ↦ ok (from, p.source) ]
]

module _ (s : Session) (d : Directory) (found : Option Ledger) (q : CorrectionRequest) where
  unfoldable pub correct_movement : Option ℕ → Result (Event ℕ × Ledger)
  unfolding correct
  correct_movement target = correct d found (sql_correct_fact s d found q movement target)

  unfoldable pub correct_custody : Option ℕ → Result (Event ℕ × Ledger)
  unfolding correct
  correct_custody target = correct d found (sql_correct_fact s d found q custody target)

  unfoldable pub correct_ownership : Option ℕ → Result (Event ℕ × Ledger)
  unfolding correct
  correct_ownership target = correct d found (sql_correct_fact s d found q ownership target)

  unfoldable pub correct_assignment : Option Assignee → Result (Event Assignee × Ledger)
  unfolding correct
  correct_assignment target = correct d found (sql_correct_assignment s d found q target)

unfoldable pub correct_transition :
    Session
    → Directory
    → Storage
    → Option Ledger
    → CorrectionRequest
    → AssetState
    → Option ℕ
    → Result (Event AssetState × Ledger)
unfolding correct root_row prior_edge
correct_transition s d storage none q to evidence_ref = err asset_not_found
correct_transition s d storage (some l) q to evidence_ref = do
  guard (l.asset.version == q.expected_version) asset_conflict
  root ← root_row q.root_id l.transitions
  edge ← prior_edge root l.transitions
  validate_edge edge.0 to edge.1
  guard (not (state_eq to retired && is_none evidence_ref)) lifecycle_invalid
  verify_asset_evidence d.evidence storage l.asset.id evidence_ref
      (if state_eq to retired then some disposal_evidence else none) (state_eq to retired)
  correct d (some l) (sql_correct_transition s d (some l) q to evidence_ref)

module _ {F : Type 0} where
  -- `corrected.get((root, generation))` where `generation + 1` is `next`: a later row of the same key
  -- replaces an earlier one.
  unfoldable pub replacement : Option ℕ → ℕ → List (Event F) → Option ℕ
  replacement root next [] = none
  replacement root next (r ∷ rows) =
      let later = replacement root next rows in
      elim later [
        | some i ↦ some i
        | none ↦
            if is_corrected r.role && (same r.root root && r.generation + 1 == next)
            then some r.id
            else none
      ]

  unfoldable pub cancels_history_id : List (Event F) → Event F → Option ℕ
  unfolding replacement
  cancels_history_id rows h =
      if is_reversal h.role
      then (if h.generation == 1 then h.root else replacement h.root h.generation rows)
      else none

  -- Each row with its cancels_history_id.
  unfoldable pub audit_rows : List (Event F) → List (Event F × Option ℕ)
  unfolding cancels_history_id
  audit_rows rows = map (λ h. (h, cancels_history_id rows h)) rows
