-- ===== src/Ledger/Correction/Inversion.antt =====
-- What an accepted correction has checked, and the two rows that it has written.
use mathlib.Core.Path.{subst}
use defiant_fleet_ops.Base.{
  ℕ, suc, ◌≤◌, ◌≡◌, refl, true, Option, some, List, arith, ok, >>=-eq-ok, value_or, find, ◌==◌,
}
use defiant_fleet_ops.History.{Event, is_ordinary, effective}
use defiant_fleet_ops.Ledger.{Ledger, Session, Directory, int_max, add_version}
use defiant_fleet_ops.Ledger.Pair.{is_head}
use defiant_fleet_ops.Ledger.Authority.{assert_authority}
use defiant_fleet_ops.Ledger.Admission.{locked, fresh}
use defiant_fleet_ops.Ledger.Correction.{
  CorrectionRequest, Declaration, correct, reversal_row, corrected_row, admit_correction,
  append_pair, corrector, normalized, prior_of, original_row, head_row,
}

-- What an admitted correction has found.
pub record Admitted {F : Type 0} (c : Declaration F) (s : Session) (d : Directory) (l : Ledger)
    (q : CorrectionRequest) (a : ℕ × Ledger × Event F × Event F) : Type 0 where
  pub credential : corrector s ≡ ok a.0
  pub unchanged : a.1 ≡ l
  pub current : l.asset.version ≡ q.expected_version
  pub authority : assert_authority d l ≡ ok tt
  pub found_original : find (λ r. r.id == q.root_id) (c.rows l) ≡ some a.2
  pub original_ordinary : is_ordinary a.2.role ≡ true
  pub found_head : find (is_head q.root_id) (effective (c.rows l)) ≡ some a.3
  pub head_current : (a.3.result_version == l.asset.version) ≡ true

admit_correction-Admitted :
    {F : Type 0} (c : Declaration F) (s : Session) (d : Directory) (l : Ledger)
    (q : CorrectionRequest) (a : ℕ × Ledger × Event F × Event F)
    → admit_correction c s d (some l) q ≡ ok a
    → Admitted c s d l q a
unfolding admit_correction original_row head_row locked fresh
admit_correction-Admitted c s d l q a h = ground arith

module _ {F : Type 0} (c : Declaration F) (d : Directory) (l : Ledger) (q : CorrectionRequest)
    (target : Option F) (evidence_ref : Option ℕ) (original head row : Event F) (l' : Ledger) where
  -- What the two rows of an accepted pair are, and that they were inserted.
  pub record Appended : Type 0 where
    pub prior : Option F
    pub reversed : List (Event F)
    pub rows : List (Event F)
    pub in_range : suc (suc l.asset.version) ≤ int_max
    pub preceding : prior_of c l original.result_version ≡ ok prior
    pub checked : c.check d prior target ≡ ok tt
    pub admitted : normalized q.reason ≡ ok row.reason
    pub inserted_reversal :
        c.insert d l.asset.id
          (reversal_row q row.actor_id row.reason head (suc l.asset.version))
          (c.rows l)
        ≡ ok reversed
    pub inserted : c.insert d l.asset.id row reversed ≡ ok rows
    pub written :
        row
        ≡ corrected_row q row.actor_id row.reason head prior target evidence_ref
            (suc (suc l.asset.version))
    pub result : l' ≡ c.write l rows row (suc (suc l.asset.version))

  pub append_pair-Appended :
      (who : ℕ)
      → append_pair c d q target evidence_ref who l original head ≡ ok (row, l')
      → (row.actor_id ≡ who) × Appended
  unfolding append_pair add_version
  append_pair-Appended who h =
      let table : List (Event F) = value_or (c.rows l) (
        c.insert d l.asset.id (reversal_row q row.actor_id row.reason head (suc l.asset.version))
          (c.rows l)) in
      let final : List (Event F) = value_or table (c.insert d l.asset.id row table) in
      (
        ground arith,
        record {
          prior = row.source;
          reversed = table;
          rows = final;
          in_range = ground arith;
          preceding = ground arith;
          checked = ground arith;
          admitted = ground arith;
          inserted_reversal = ground arith;
          inserted = ground arith;
          written = ground arith;
          result = ground arith;
        },
      )

module _ {F : Type 0} (c : Declaration F) (s : Session) (d : Directory) (l : Ledger)
    (q : CorrectionRequest) (target : Option F) (evidence_ref : Option ℕ) (row : Event F)
    (l' : Ledger) where
  pub record Accepted : Type 0 where
    pub original : Event F
    pub head : Event F
    pub admission : Admitted c s d l q (row.actor_id, l, original, head)
    pub pair : Appended c d l q target evidence_ref original head row l'

  pub correct-Accepted : correct c s d (some l) q target evidence_ref ≡ ok (row, l') → Accepted
  unfolding correct
  correct-Accepted h =
      let (a, ea, ha) = >>=-eq-ok (admit_correction c s d (some l) q) _ h in
      let m = admit_correction-Admitted c s d l q a ea in
      let (who, x) = append_pair-Appended c d l q target evidence_ref a.2 a.3 row l' a.0 (
        subst (λ (k : Ledger). append_pair c d q target evidence_ref a.0 k a.2 a.3 ≡ ok (row, l'))
          m.unchanged ha) in
      record {
        original = a.2;
        head = a.3;
        admission = record {
          credential = cc (m.credential, who);
          unchanged = refl;
          current = m.current;
          authority = m.authority;
          found_original = m.found_original;
          original_ordinary = m.original_ordinary;
          found_head = m.found_head;
          head_current = m.head_current;
        };
        pair = x;
      }
