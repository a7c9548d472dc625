-- ===== src/Capture/Process/Idempotence.antt =====
-- An operation that is queued again.
use defiant_fleet_ops.Base.{
  ℕ, ◌≡◌, arith, some, List, ◌∷◌, ==_refl, ==_eq, ap, ok, >>=-eq-ok, Option-cases, inl, inr,
}
use defiant_fleet_ops.Ledger.{Session}
use defiant_fleet_ops.Capture.{CaptureOperation, CaptureRow, Tables, duplicate, Flag}
use defiant_fleet_ops.Capture.Sequence.{sequence}
use defiant_fleet_ops.Capture.Apply.{Unversioned}
use defiant_fleet_ops.Capture.Process.{
  Fresh, Out, process, perform, record_operation, find_operation, attempt, classify, Attempt, out,
}

-- What an operation that had no record leaves: its sequence, its attempt, and its record on top.
pub record Performed (u : Unversioned) (s : Session) (actor_id : ℕ) (t : Tables)
    (o : CaptureOperation) (fresh : Fresh) (answer : Out) (t' : Tables) : Type 0 where
  pub flags : List Flag
  pub attempted : Attempt
  pub row : CaptureRow
  pub sequenced :
      sequence o.client_id o.client_epoch o.client_seq actor_id t.streams ≡ ok (flags, t'.streams)
  pub classified : classify u s actor_id t (attempt u s actor_id t o fresh) ≡ ok attempted
  pub recorded : record_operation u s actor_id t o flags attempted ≡ ok row
  pub answered : answer ≡ out row.sync_state row
  pub result : t' ≡ record t {
    world = attempted.world;
    streams = t'.streams;
    operations = row ∷ t.operations;
    conflicts = attempted.conflicts;
  }

pub perform-Performed :
    (u : Unversioned) (s : Session) (actor_id : ℕ) (t : Tables) (o : CaptureOperation)
    (fresh : Fresh) (answer : Out) (t' : Tables)
    → perform u s actor_id t o fresh ≡ ok (answer, t')
    → Performed u s actor_id t o fresh answer t'
unfolding perform
perform-Performed u s actor_id t o fresh answer t' h =
    let (f, ef, hf) =
      >>=-eq-ok (sequence o.client_id o.client_epoch o.client_seq actor_id t.streams) _ h in
    let (a, ea, ha) = >>=-eq-ok (classify u s actor_id t (attempt u s actor_id t o fresh)) _ hf in
    let (row, er, hr) = >>=-eq-ok (record_operation u s actor_id t o f.0 a) _ ha in
    record {
      flags = f.0;
      attempted = a;
      row = row;
      sequenced = ground (arith, ef, hr);
      classified = ea;
      recorded = er;
      answered = ground (arith, hr);
      result = ground (arith, hr);
    }

-- The answer to a repetition.
abbrev pub repeated : Out → Out
repeated answer = record answer { sync_state = duplicate }

pub matching_record :
    (u : Unversioned) (s : Session) (actor_id : ℕ) (t : Tables) (o : CaptureOperation)
    (flags : List Flag) (a : Attempt) (row : CaptureRow)
    → record_operation u s actor_id t o flags a ≡ ok row
    → (row.envelope ≡ o) × (row.actor_id ≡ actor_id)
unfolding record_operation
matching_record u s actor_id t o flags a row h = ground arith

present :
    (u : Unversioned) (s : Session) (actor_id : ℕ) (t : Tables) (again : CaptureOperation)
    (fresh : Fresh) (row : CaptureRow)
    → find_operation u s actor_id again.operation_id t.operations ≡ some row
    → row.actor_id ≡ actor_id
    → process u s actor_id t again fresh ≡ ok (out duplicate row, t)
unfolding process
present u s actor_id t again fresh row found a = ground (arith, found, a, ==_refl actor_id)

-- Once an operation has its terminal record, applied or rejected, whatever is queued by the same Actor
-- with its identifier, with whatever content, is answered with the recorded result and flags as a
-- DUPLICATE, and changes nothing.
pub process-repeated :
    (u : Unversioned) (s : Session) (actor_id : ℕ) (t t' : Tables) (o again : CaptureOperation)
    (fresh fresh' : Fresh) (answer : Out)
    → process u s actor_id t o fresh ≡ ok (answer, t')
    → again.operation_id ≡ o.operation_id
    → process u s actor_id t' again fresh' ≡ ok (repeated answer, t')
unfolding process
process-repeated u s actor_id t t' o again fresh fresh' answer h same_id =
    elim (Option-cases (find_operation u s actor_id o.operation_id t.operations)) [
      | inl absent ↦
          let p = perform-Performed u s actor_id t o fresh answer t' (ground (arith, absent)) in
          let (enveloped, by) =
            matching_record u s actor_id t o p.flags p.attempted p.row p.recorded in
          let stacked : t'.operations ≡ p.row ∷ t.operations =
            ap (λ (k : Tables). k.operations) p.result in
          let found : find_operation u s actor_id again.operation_id t'.operations ≡ some p.row =
            rw stacked (ground (arith, enveloped, same_id, ==_refl o.operation_id)) in
          rw p.answered (present u s actor_id t' again fresh' p.row found by)
      | inr (original, found) ↦
          let unchanged : t' ≡ t = ground (arith, found) in
          let answered : answer ≡ out duplicate original = ground (arith, found) in
          let own : original.actor_id ≡ actor_id =
            ==_eq original.actor_id actor_id (ground (arith, found)) in
          let again_found : find_operation u s actor_id again.operation_id t'.operations
              ≡ some original =
            rw (same_id, unchanged) found in
          rw answered (present u s actor_id t' again fresh' original again_found own)
    ]
