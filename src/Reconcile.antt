-- ===== src/Reconcile.antt =====
-- RECONCILIATION_SQL and reconcile_assets of server/fleetops/domain/asset_facts.py: the disagreements
-- between an Asset and its histories, for one Asset, with the illegal corrected edges of its lifecycle. Occurrence times and the facts that a row reports are left out.
pub mod Gaps
pub mod Sound
use defiant_fleet_ops.Base.{
  ℕ, suc, ◌+◌, ◌-◌, Bool, true, false, not, ◌&&◌, ◌||◌, Option, none, some, List, [], ◌∷◌, ◌++◌,
  ltb, leb, ◌==◌, any, keep, same, is_some, if◌then◌else◌,
}
use defiant_fleet_ops.Lifecycle.{AssetState, state_eq}
use defiant_fleet_ops.History.{Event, effective, latest}
use defiant_fleet_ops.Ledger.{Ledger, Directory, Assignee}
use defiant_fleet_ops.Ledger.Anomalies.{has_anomaly, fact_same}
use defiant_fleet_ops.Ledger.Physical.{
  PhysicalFact, movement, custody, ownership, history, projection, initial_fact,
}
use defiant_fleet_ops.Ledger.Assignment.{assignment_id}
use defiant_fleet_ops.Ledger.Authority.{raw_versions}
use defiant_fleet_ops.Ledger.Invariant.{producers}
use defiant_fleet_ops.Corrections.{has_lifecycle_issue}

pub data Discrepancy : Type 0 where
  correction_history_malformed missing_history state_mismatch history_version_ahead : Discrepancy
  missing_initial_facts : Discrepancy
  initial_projection_mismatch projection_mismatch fact_history_version_ahead :
      PhysicalFact → Discrepancy
  missing_initial_assignment_facts assignment_projection_without_history : Discrepancy
  assignment_projection_mismatch assignment_target_invalid assignment_history_version_ahead :
      Discrepancy
  global_version_missing global_version_duplicate global_history_version_ahead : Discrepancy
  illegal_corrected_lifecycle : Discrepancy

-- GROUP BY result_version
abbrev pub nub : List ℕ → List ℕ
nub [] = []
nub (v ∷ vs) = if any (λ w. w == v) vs then nub vs else v ∷ nub vs

abbrev pub insert : ℕ → List ℕ → List ℕ
insert v [] = v ∷ []
insert v (w ∷ ws) = if leb v w then v ∷ w ∷ ws else w ∷ insert v ws

-- ORDER BY v
abbrev pub sort : List ℕ → List ℕ
sort [] = []
sort (v ∷ vs) = insert v (sort vs)

-- 0, the version after the present one, and the produced versions between them.
unfoldable pub points : Ledger → List ℕ
points l = sort (
    0 ∷ (l.asset.version + 1) ∷ keep (λ v. leb 1 v && leb v l.asset.version) (nub (raw_versions l)))

-- The ranges that lie between a point and the previous one, `lag(v)`.
abbrev pub gaps_after : ℕ → List ℕ → List (ℕ × ℕ)
gaps_after p [] = []
gaps_after p (v ∷ vs) = if ltb (suc p) v then (p + 1, v - 1) ∷ gaps_after v vs else gaps_after v vs

abbrev pub gaps : List ℕ → List (ℕ × ℕ)
gaps [] = []
gaps (v ∷ vs) = gaps_after v vs

unfoldable pub missing_ranges : Ledger → List (ℕ × ℕ)
unfolding points
missing_ranges l = gaps (points l)

unfoldable pub duplicate_versions : Ledger → List ℕ
duplicate_versions l = keep (λ v. ltb 1 (producers v l)) (nub (raw_versions l))

unfoldable pub ahead_versions : Ledger → List ℕ
ahead_versions l = keep (λ v. ltb l.asset.version v) (nub (raw_versions l))

abbrev pub is_empty {ℓ} : {A : Type ℓ} → List A → Bool
is_empty [] = true
is_empty (_ ∷ _) = false

abbrev pub report : Bool → Discrepancy → List Discrepancy
report true x = x ∷ []
report false x = []

abbrev pub ahead : {F : Type 0} → ℕ → Option (Event F) → Bool
ahead v none = false
ahead v (some h) = ltb v h.result_version

unfoldable pub state_discrepancies : Ledger → List Discrepancy
state_discrepancies l =
    let t = latest (effective l.transitions) in
    report (not (is_some t)) missing_history
    ++ report
        (elim t [
          | none ↦ false
          | some h ↦ not (fact_same state_eq (some l.asset.current_state) h.target)
        ])
        state_mismatch
    ++ report (ahead l.asset.version t) history_version_ahead

unfoldable pub fact_discrepancies : PhysicalFact → Ledger → List Discrepancy
fact_discrepancies f l =
    let m = latest (effective (history f l)) in
    report
      (not (is_some m) && elim l.initial_facts [
        | none ↦ false
        | some b ↦ not (same (projection f l.asset) (initial_fact f b))
      ])
      (initial_projection_mismatch f)
    ++ report (elim m [ none ↦ false | some h ↦ not (same (projection f l.asset) h.target) ])
        (projection_mismatch f)
    ++ report (ahead l.asset.version m) (fact_history_version_ahead f)

-- The row that current_assignment_id names is one of this Asset's.
abbrev pub target_valid : Ledger → Bool
target_valid l = elim l.asset.current_assignment_id [
  | none ↦ true
  | some i ↦ any (λ (h : Event Assignee). h.id == i) l.assignment_events
]

unfoldable pub assignment_discrepancies : Ledger → List Discrepancy
assignment_discrepancies l =
    let e = latest (effective l.assignment_events) in
    report (not l.initial_assignment_facts) missing_initial_assignment_facts
    ++ report (not (is_some e) && is_some l.asset.current_assignment_id)
        assignment_projection_without_history
    ++ report
        (elim e [
          | none ↦ false
          | some h ↦ not (same l.asset.current_assignment_id (assignment_id h))
        ])
        assignment_projection_mismatch
    ++ report (not (target_valid l)) assignment_target_invalid
    ++ report (ahead l.asset.version e) assignment_history_version_ahead

unfoldable pub global_discrepancies : Ledger → List Discrepancy
unfolding missing_ranges duplicate_versions ahead_versions
global_discrepancies l =
    report (not (is_empty (missing_ranges l))) global_version_missing
    ++ report (not (is_empty (duplicate_versions l))) global_version_duplicate
    ++ report (not (is_empty (ahead_versions l))) global_history_version_ahead

-- The `discrepancies` column of the query.
unfoldable pub discrepancies : Directory → Ledger → List Discrepancy
unfolding state_discrepancies fact_discrepancies assignment_discrepancies global_discrepancies
discrepancies d l =
    report (has_anomaly d l) correction_history_malformed
    ++ state_discrepancies l
    ++ report (not (is_some l.initial_facts)) missing_initial_facts
    ++ fact_discrepancies movement l
    ++ fact_discrepancies custody l
    ++ fact_discrepancies ownership l
    ++ assignment_discrepancies l
    ++ global_discrepancies l

-- The row of reconcile_assets for the Asset: the query lists it where it has discrepancies or where its
-- corrected lifecycle has an issue, and the service then appends the issue.
unfoldable pub reconcile_asset : Directory → Ledger → Option (List Discrepancy)
unfolding discrepancies
reconcile_asset d l =
    let illegal = has_lifecycle_issue d l in
    let found = discrepancies d l in
    if not (is_empty found) || illegal
    then some (found ++ report illegal illegal_corrected_lifecycle)
    else none
