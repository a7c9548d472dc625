-- ===== src/Capture/Batch/Answers.antt =====
-- What a batch answers, and what it leaves at whatever ending.
use defiant_fleet_ops.Base.{
  Result-cases, ℕ, suc, ◌≡◌, refl, arith, Option, List, [], ◌∷◌, ok, Option-cases, Bool-cases, inl,
  inr, find-holds, ==_eq, ◌==◌,
}
use defiant_fleet_ops.Ledger.{Session}
use defiant_fleet_ops.Capture.{CaptureOperation, CaptureRow, Tables}
use defiant_fleet_ops.Capture.Apply.{Unversioned, AllCoherent}
use defiant_fleet_ops.Capture.Process.{Fresh, Out, process, find_operation}
use defiant_fleet_ops.Capture.Process.Idempotence.{perform-Performed, matching_record}
use defiant_fleet_ops.Capture.Process.Outcomes.{process-AllCoherent}
use defiant_fleet_ops.Capture.Order.{Entry, ordered}
use defiant_fleet_ops.Capture.Batch.{completed, session_of, unavailable, is_rolled_back, run, batch}

-- Each entry is answered at its position, with the identifier of its operation.
pub data Answered : List Entry → List (ℕ × Out) → Type 0 where
  none_left : Answered [] []
  answered :
      (i : ℕ) (o : CaptureOperation) (answer : Out) (entries : List Entry)
      (responses : List (ℕ × Out))
      → o.operation_id ≡ answer.operation_id
      → Answered entries responses
      → Answered ((i, o) ∷ entries) ((i, answer) ∷ responses)

recorded_id :
    (u : Unversioned) (s : Session) (actor_id : ℕ) (t : Tables) (o : CaptureOperation)
    (fresh : Fresh) (answer : Out) (t' : Tables)
    → process u s actor_id t o fresh ≡ ok (answer, t')
    → o.operation_id ≡ answer.operation_id
unfolding process
recorded_id u s actor_id t o fresh answer t' h =
    elim (Option-cases (find_operation u s actor_id o.operation_id t.operations)) [
      | inl absent ↦
          let p = perform-Performed u s actor_id t o fresh answer t' (ground (arith, absent)) in
          let (enveloped, _) =
            matching_record u s actor_id t o p.flags p.attempted p.row p.recorded in
          cc (p.answered, enveloped)
      | inr (original, found) ↦
          let named =
            find-holds (λ (r : CaptureRow). r.envelope.operation_id == o.operation_id) t.operations
              original found in
          let same : original.envelope.operation_id ≡ o.operation_id =
            ==_eq original.envelope.operation_id o.operation_id named in
          ground (arith, found, same)
    ]

module _ (u : Unversioned) (credential : ℕ → Option ℕ) (fresh : ℕ → Fresh) where
  run-Answered :
      (n : ℕ) (entries : List Entry) (t : Tables)
      → (run u credential fresh n entries t).ending ≡ completed
      → Answered entries (run u credential fresh n entries t).responses
  unfolding run
  run-Answered n [] t h = none_left
  run-Answered n ((i, o) ∷ entries) t h = elim (Option-cases (credential n)) [
    | inl gone ↦ ground (arith, gone)
    | inr (actor_id, valid) ↦
        elim (Result-cases (process u (session_of actor_id) actor_id t o (fresh n))) [
          | inl (r, done) ↦
              rw (run, valid, done)
                (answered i o r.0 entries _
                  (recorded_id u (session_of actor_id) actor_id t o (fresh n) r.0 r.1 done)
                  (run-Answered (suc n) entries r.1 (rw (run, valid, done) at h)))
          | inr (e, failed) ↦ elim (Bool-cases (is_rolled_back e)) [
            | inl back ↦
                rw (run, valid, failed, back)
                  (answered i o (unavailable o) entries _ refl
                    (run-Answered (suc n) entries t (rw (run, valid, failed, back) at h)))
            | inr fatal ↦ ground (arith, valid, failed, fatal)
          ]
        ]
  ]

  run-AllCoherent :
      (n : ℕ) (entries : List Entry) (t : Tables)
      → AllCoherent t.world
      → AllCoherent (run u credential fresh n entries t).tables.world
  unfolding run
  run-AllCoherent n [] t all = all
  run-AllCoherent n ((i, o) ∷ entries) t all = elim (Option-cases (credential n)) [
    | inl gone ↦ rw (run, gone) all
    | inr (actor_id, valid) ↦
        elim (Result-cases (process u (session_of actor_id) actor_id t o (fresh n))) [
          | inl (r, done) ↦
              rw (run, valid, done)
                (run-AllCoherent (suc n) entries r.1 (
                  process-AllCoherent u (session_of actor_id) actor_id t o (fresh n) r.0 r.1 all
                    done))
          | inr (e, failed) ↦ elim (Bool-cases (is_rolled_back e)) [
            | inl back ↦ rw (run, valid, failed, back) (run-AllCoherent (suc n) entries t all)
            | inr fatal ↦ rw (run, valid, failed, fatal) all
          ]
        ]
  ]

  -- A batch that is completed has answered each operation in the processing order at its position in
  -- the batch, under the operation's identifier.
  pub batch-Answered :
      (operations : List CaptureOperation) (t : Tables)
      → (batch u credential fresh operations t).ending ≡ completed
      → Answered (ordered operations) (batch u credential fresh operations t).responses
  unfolding batch
  batch-Answered operations t h = run-Answered 0 (ordered operations) t h

  -- If the verbs of the interface keep every Asset coherent: however a batch ends, also by an expired credential or a raised failure in the middle, what it has
  -- committed leaves every Asset coherent.
  pub batch-AllCoherent :
      (operations : List CaptureOperation) (t : Tables)
      → AllCoherent t.world
      → AllCoherent (batch u credential fresh operations t).tables.world
  unfolding batch
  batch-AllCoherent operations t all = run-AllCoherent 0 (ordered operations) t all
