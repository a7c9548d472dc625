-- ===== src/Ledger/Correction.antt =====
-- The five SQL functions correct_transition, correct_movement, correct_custody, correct_ownership
-- and correct_assignment, one template (correction_sql) in
-- server/alembic/versions/0011_corrections.py. The evidence of a transition follows 0012_evidence.py.
pub mod Inversion
use defiant_fleet_ops.Base.{
  ℕ, ◌+◌, Bool, true, false, not, ◌&&◌, ◌||◌, Option, none, some, List, [], ◌∷◌, ltb, leb, ◌==◌,
  same, matches, find, length, is_some, Result, ok, err, guard, ◌>>=◌, ◌>>◌, sql, no_data_found,
  raise_exception, serialization_failure, check_violation, foreign_key_violation,
  not_null_violation, insufficient_privilege, if◌then◌else◌,
}
use defiant_fleet_ops.Text.{Text, normalize_correction_reason}
use defiant_fleet_ops.History.{
  Event, ordinary, reversal, corrected, is_ordinary, effective, latest_before,
}
use defiant_fleet_ops.Ledger.{Ledger, Session, Directory, add_version, performer}
use defiant_fleet_ops.Ledger.Admission.{locked, fresh}
use defiant_fleet_ops.Ledger.Authority.{assert_authority}

-- What a caller supplies with a correction.
pub record CorrectionRequest : Type 0 where
  pub expected_version : ℕ
  pub root_id : ℕ
  pub reason : Text
  pub correction_occurred_at : ℕ
  pub occurred_at : Option ℕ
  pub pair_id : ℕ
  pub reversal_id : ℕ
  pub corrected_id : ℕ

-- What the template is filled in with for one history table.
pub record Declaration (F : Type 0) : Type 0 where
  pub rows : Ledger → List (Event F)
  -- locked_asset.{projection} IS NOT DISTINCT FROM ({current})
  pub agrees : Ledger → Event F → Bool
  -- {fallback}: the prior fact where no effective row precedes the root
  pub fallback : Ledger → Result (Option F)
  -- {check}, of the prior fact and the replacement
  pub check : Directory → Option F → Option F → Result (Unit {0})
  -- INSERT INTO the table, with its triggers and constraints
  pub insert : Directory → ℕ → Event F → List (Event F) → Result (List (Event F))
  -- UPDATE assets SET {projection}={final}, version=...
  pub write : Ledger → List (Event F) → Event F → ℕ → Ledger

module _ {F : Type 0} where
  abbrev pub reversal_row : CorrectionRequest → ℕ → Text → Event F → ℕ → Event F
  reversal_row q who reason head version = record {
    id = q.reversal_id;
    result_version = version;
    source = head.source;
    target = head.target;
    reason = reason;
    actor_id = who;
    occurred_at = head.occurred_at;
    client_op_id = none;
    evidence_ref = head.evidence_ref;
    root = some q.root_id;
    role = reversal;
    pair_id = some q.pair_id;
    generation = head.generation + 1;
    correction_occurred_at = some q.correction_occurred_at;
  }

  abbrev pub corrected_row :
      CorrectionRequest → ℕ → Text → Event F → Option F → Option F → Option ℕ → ℕ → Event F
  corrected_row q who reason head prior target evidence_ref version = record {
    id = q.corrected_id;
    result_version = version;
    source = prior;
    target = target;
    reason = reason;
    actor_id = who;
    occurred_at = elim q.occurred_at [ none ↦ head.occurred_at | some t ↦ t ];
    client_op_id = none;
    evidence_ref = evidence_ref;
    root = some q.root_id;
    role = corrected;
    pair_id = some q.pair_id;
    generation = head.generation + 1;
    correction_occurred_at = some q.correction_occurred_at;
  }

  -- The row with the identifier of the root, which is to be an ordinary one.
  unfoldable pub original_row : ℕ → List (Event F) → Result (Event F)
  original_row root rows = elim (find (λ r. r.id == root) rows) [
    | none ↦ err (sql no_data_found)
    | some r ↦ (guard (is_ordinary r.role) (sql check_violation) >> ok r)
  ]

  -- The effective row of the root, which is to be the latest of the whole Asset.
  unfoldable pub head_row : ℕ → ℕ → List (Event F) → Result (Event F)
  head_row root version rows =
      elim (find (λ h. h.id == root || matches h.root (some root)) (effective rows)) [
        | none ↦ err (sql serialization_failure)
        | some h ↦ (guard (h.result_version == version) (sql serialization_failure) >> ok h)
      ]

  unfoldable pub prior_of : Declaration F → Ledger → ℕ → Result (Option F)
  prior_of c l version = elim (latest_before version (effective (c.rows l))) [
    | none ↦ c.fallback l
    | some p ↦ ok p.target
  ]

-- The caller: no Actor but the credential's.
unfoldable pub corrector : Session → Result ℕ
unfolding performer
corrector s = do guard (s.trusted_org && not s.actor_hint) (sql insufficient_privilege); performer s

unfoldable pub normalized : Text → Result Text
normalized reason =
    let text = normalize_correction_reason reason in
    guard (leb 1 (length text) && leb (length text) 4000) (sql check_violation) >> ok text

-- The asset, its original row and the effective head that is to be replaced.
unfoldable pub admit_correction :
    {F : Type 0}
    → Declaration F
    → Session
    → Directory
    → Option Ledger
    → CorrectionRequest
    → Result (ℕ × Ledger × Event F × Event F)
unfolding corrector locked fresh original_row head_row
admit_correction c s d found q = do
  who ← corrector s
  l ← locked found
  fresh l q.expected_version
  assert_authority d l
  original ← original_row q.root_id (c.rows l)
  head ← head_row q.root_id l.asset.version (c.rows l)
  guard (c.agrees l head) (sql raise_exception)
  ok (who, l, original, head)

-- The pair takes the next two versions, and both are in range before either is written.
unfoldable pub append_pair :
    {F : Type 0}
    → Declaration F
    → Directory
    → CorrectionRequest
    → Option F
    → Option ℕ
    → ℕ
    → Ledger
    → Event F
    → Event F
    → Result (Event F × Ledger)
unfolding prior_of normalized
append_pair c d q target evidence_ref who l original head = do
  prior ← prior_of c l original.result_version
  c.check d prior target
  reason ← normalized q.reason
  last ← add_version l.asset.version 2
  let back = reversal_row q who reason head (l.asset.version + 1)
  let row = corrected_row q who reason head prior target evidence_ref last
  reversed ← c.insert d l.asset.id back (c.rows l)
  rows ← c.insert d l.asset.id row reversed
  ok (row, c.write l rows row last)

unfoldable pub correct :
    {F : Type 0}
    → Declaration F
    → Session
    → Directory
    → Option Ledger
    → CorrectionRequest
    → Option F
    → Option ℕ
    → Result (Event F × Ledger)
unfolding admit_correction append_pair
correct c s d found q target evidence_ref = do
  (who, l, original, head) ← admit_correction c s d found q
  append_pair c d q target evidence_ref who l original head
