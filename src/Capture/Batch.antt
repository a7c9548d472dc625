-- ===== src/Capture/Batch.antt =====
-- `batch` of server/fleetops/capture/service.py: each operation in a transaction of its own, in the
-- processing order. `credential n` is the Actor to which the token resolves in transaction `n`, if it is
-- still valid then, and `fresh n` are the identifiers generated there.
pub mod Answers
use defiant_fleet_ops.Base.{
  ℕ, suc, Bool, true, false, Option, none, some, List, [], ◌∷◌, Result, ok, err, Failure, sql,
  asset_invalid, if◌then◌else◌,
}
use defiant_fleet_ops.Ledger.{Session}
use defiant_fleet_ops.Capture.{CaptureOperation, Outcome, operation_unavailable, rejected, Tables}
use defiant_fleet_ops.Capture.Apply.{Unversioned}
use defiant_fleet_ops.Capture.Process.{Fresh, Out, process}
use defiant_fleet_ops.Capture.Order.{Entry, ordered}

-- How a batch ends: all of it is answered, the credential has expired, or another failure is raised.
pub data Ending : Type 0 where
  completed credential_expired : Ending
  raised : Failure → Ending

-- The committed tables, and the responses by position.
pub record Run : Type 0 where
  pub ending : Ending
  pub tables : Tables
  pub responses : List (ℕ × Out)

-- set_organization and set_credential_context
abbrev pub session_of : ℕ → Session
session_of actor_id = record { trusted_org = true; actor_hint = false; actor = some actor_id }

abbrev pub unavailable : CaptureOperation → Out
unavailable o = record {
  operation_id = o.operation_id;
  sync_state = rejected;
  result = operation_unavailable;
  sequence_flags = [];
}

-- `except (DBAPIError, AssetInvalid)`: this operation alone is rolled back.
abbrev pub is_rolled_back : Failure → Bool
is_rolled_back (sql _) = true
is_rolled_back asset_invalid = true
is_rolled_back _ = false

abbrev pub respond : ℕ → Out → Run → Run
respond i answer r = record r { responses = (i, answer) ∷ r.responses }

module _ (u : Unversioned) (credential : ℕ → Option ℕ) (fresh : ℕ → Fresh) where
  unfoldable pub run : ℕ → List Entry → Tables → Run
  unfolding process
  run n [] t = record { ending = completed; tables = t; responses = [] }
  run n ((i, o) ∷ entries) t = elim (credential n) [
    | none ↦ record { ending = credential_expired; tables = t; responses = [] }
    | some actor_id ↦ elim (process u (session_of actor_id) actor_id t o (fresh n)) [
      | ok (answer, t') ↦ respond i answer (run (suc n) entries t')
      | err e ↦ elim (is_rolled_back e) [
        | true ↦ respond i (unavailable o) (run (suc n) entries t)
        | false ↦ record { ending = raised e; tables = t; responses = [] }
      ]
    ]
  ]

  unfoldable pub batch : List CaptureOperation → Tables → Run
  unfolding run ordered
  batch operations t = run 0 (ordered operations) t
