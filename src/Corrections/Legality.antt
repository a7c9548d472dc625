-- ===== src/Corrections/Legality.antt =====
-- What a lifecycle correction that the service admits has checked.
use mathlib.Core.Path.{subst}
use defiant_fleet_ops.Base.{
  ℕ, suc, ◌≡◌, arith, true, false, Option, none, some, List, any, find, ◌==◌, ok, ◌∙◌, sym, ap,
  Option-cases, if◌then◌else◌, inl, inr,
}
use defiant_fleet_ops.Lifecycle.{AssetState, retired, state_eq, allowed, validate_edge}
use defiant_fleet_ops.Evidence.{EvidenceTables, disposal_evidence, valid_asset_evidence}
use defiant_fleet_ops.Evidence.Service.{Storage, verify_asset_evidence}
use defiant_fleet_ops.History.{Event, effective, latest_before}
use defiant_fleet_ops.Ledger.{Ledger, Session, Directory}
use defiant_fleet_ops.Ledger.Correction.{CorrectionRequest, prior_of}
use defiant_fleet_ops.Ledger.Correction.Inversion.{correct-Accepted}
use defiant_fleet_ops.Ledger.Corrections.{
  write_state, transition_declaration, correct_transition as sql_correct_transition,
}
use defiant_fleet_ops.Assets.{constraints}
use defiant_fleet_ops.Assets.Legality.{constraints-eq-ok}
use defiant_fleet_ops.Corrections.{
  has_lifecycle_issue, correct, root_row, prior_edge, correct_transition,
}

verify-required :
    (t : EvidenceTables) (storage : Storage) (asset_id : ℕ) (evidence_ref : Option ℕ)
    → verify_asset_evidence t storage asset_id evidence_ref (some disposal_evidence) true ≡ ok tt
    → valid_asset_evidence t evidence_ref asset_id (some disposal_evidence) ≡ true
unfolding verify_asset_evidence
verify-required t storage asset_id none h = ground arith
verify-required t storage asset_id (some a) h = ground arith

prior_agrees :
    (l : Ledger) (version : ℕ) (recorded : Option AssetState) (prior : Event AssetState)
    (from : AssetState)
    → prior_of transition_declaration l version ≡ ok recorded
    → latest_before version (effective l.transitions) ≡ some prior
    → prior.target ≡ some from
    → recorded ≡ some from
unfolding prior_of
prior_agrees l version recorded prior from h found entered = ground (arith, found, entered)

same_row : (a b : Event AssetState) → some a ≡ some b → a ≡ b
same_row a b h = ground arith

written_state :
    (l l' : Ledger) (rows : List (Event AssetState)) (row : Event AssetState) (to : AssetState)
    (v : ℕ)
    → l' ≡ write_state l rows row v
    → row.target ≡ some to
    → l'.asset.current_state ≡ to
written_state l l' rows row to v h t = ground (arith, h, t)

module _ (s : Session) (d : Directory) (storage : Storage) (l : Ledger) (q : CorrectionRequest)
    (to : AssetState) (evidence_ref : Option ℕ) (row : Event AssetState) (l' : Ledger) where
  -- The checks in front of the statement, on the root and the effective row before it.
  record Checked : Type 0 where
    root : Event AssetState
    prior : Event AssetState
    from : AssetState
    found_root : find (λ r. r.id == q.root_id) l.transitions ≡ some root
    found_prior : latest_before root.result_version (effective l.transitions) ≡ some prior
    entered : prior.target ≡ some from
    edge : any (state_eq to) (allowed from prior.source) ≡ true
    verified :
        verify_asset_evidence d.evidence storage l.asset.id evidence_ref
          (if state_eq to retired then some disposal_evidence else none)
          (state_eq to retired)
        ≡ ok tt
    sound : has_lifecycle_issue d l ≡ false
    statement : constraints (sql_correct_transition s d (some l) q to evidence_ref) ≡ ok (row, l')

  correct_transition-Checked :
      correct_transition s d storage (some l) q to evidence_ref ≡ ok (row, l') → Checked
  unfolding correct_transition root_row prior_edge validate_edge correct
  correct_transition-Checked h = elim (Option-cases (find (λ r. r.id == q.root_id) l.transitions)) [
    | inl unknown ↦ ground (arith, unknown)
    | inr (root, found_root) ↦
        elim (Option-cases (latest_before root.result_version (effective l.transitions))) [
          | inl absent ↦ ground (arith, found_root, absent)
          | inr (prior, found_prior) ↦ elim (Option-cases prior.target) [
            | inl unset ↦ ground (arith, found_root, found_prior, unset)
            | inr (from, entered) ↦ record {
              root = root;
              prior = prior;
              from = from;
              found_root = found_root;
              found_prior = found_prior;
              entered = entered;
              edge = ground (arith, found_root, found_prior, entered);
              verified = ground (arith, found_root, found_prior, entered);
              sound = ground (arith, found_root, found_prior, entered);
              statement = ground (arith, found_root, found_prior, entered);
            }
          ]
        ]
  ]

  -- A lifecycle correction that the service admits was requested at the present version, of an Asset
  -- none of whose corrected edges is illegal; the effective row before the root states a state `from`
  -- such that the edge to the corrected state is in the graph or returns from a hold to where it was
  -- entered; a corrected retirement has valid disposal evidence; and the appended row records exactly
  -- this edge, at two versions later.
  pub correct_transition-legal :
      correct_transition s d storage (some l) q to evidence_ref ≡ ok (row, l')
      → (root : Event AssetState) × (prior : Event AssetState) × (from : AssetState)
        × (q.expected_version ≡ l.asset.version)
        × (has_lifecycle_issue d l ≡ false)
        × (find (λ r. r.id == q.root_id) l.transitions ≡ some root)
        × (latest_before root.result_version (effective l.transitions) ≡ some prior)
        × (any (state_eq to) (allowed from prior.source) ≡ true)
        × (to ≡ retired
            → valid_asset_evidence d.evidence evidence_ref l.asset.id (some disposal_evidence)
              ≡ true)
        × (prior.target ≡ some from)
        × (row.source ≡ some from)
        × (row.target ≡ some to)
        × (l'.asset.current_state ≡ to)
        × (l'.asset.version ≡ suc (suc l.asset.version))
  unfolding sql_correct_transition
  correct_transition-legal h =
      let k = correct_transition-Checked h in
      let a =
        correct-Accepted transition_declaration s d l q (some to) evidence_ref row l'
          (constraints-eq-ok _ (row, l') k.statement) in
      let same_root = same_row a.original k.root (sym a.admission.found_original ∙ k.found_root) in
      let target = ap (λ (e : Event AssetState). e.target) a.pair.written in
      (
        k.root,
        k.prior,
        k.from,
        sym a.admission.current,
        k.sound,
        k.found_root,
        k.found_prior,
        k.edge,
        λ retiring. verify-required d.evidence storage l.asset.id evidence_ref (
            subst
              (λ (x : AssetState).
                verify_asset_evidence d.evidence storage l.asset.id evidence_ref
                  (if state_eq x retired then some disposal_evidence else none) (state_eq x retired)
                ≡ ok tt)
              retiring k.verified),
        k.entered,
        ap (λ (e : Event AssetState). e.source) a.pair.written
            ∙ prior_agrees l k.root.result_version a.pair.prior k.prior k.from
                (subst
                  (λ (r : Event AssetState).
                    prior_of transition_declaration l r.result_version ≡ ok a.pair.prior)
                  same_root a.pair.preceding)
                k.found_prior k.entered,
        target,
        written_state l l' a.pair.rows row to (suc (suc l.asset.version)) a.pair.result target,
        ap (λ (m : Ledger). m.asset.version) a.pair.result,
      )
