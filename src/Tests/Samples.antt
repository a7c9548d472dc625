-- ===== src/Tests/Samples.antt =====
-- One organization: an Asset that has just been received, and the session that calls.
use defiant_fleet_ops.Base.{ℕ, true, false, none, some, [], ◌∷◌}
use defiant_fleet_ops.Text.{codes}
use defiant_fleet_ops.Ledger.{Ledger, Session, Directory, Request, Assignee, AssigneeType}
use defiant_fleet_ops.Ledger.Creation.{ReceivedUnit, received_ledger}
use defiant_fleet_ops.Ledger.Correction.{CorrectionRequest}

abbrev pub unit : ReceivedUnit
unit = record {
  asset_id = 100;
  transition_id = 200;
  owner_party_id = 3;
  custodian_party_id = none;
  dock_location_id = 1;
  received_at = 50;
}

abbrev pub fresh_ledger : Ledger
fresh_ledger = received_ledger unit 7

abbrev pub session : Session
session = record { trusted_org = true; actor_hint = false; actor = some 7 }

abbrev pub directory : Directory
directory = record {
  actors = 7 ∷ [];
  locations = 1 ∷ 2 ∷ [];
  parties = 3 ∷ [];
  evidence = record { attachments = []; links = []; actors = 7 ∷ [] };
}

abbrev pub request : ℕ → ℕ → Request
request version row_id = record {
  expected_version = version;
  reason = codes "checked";
  occurred_at = 60;
  client_op_id = none;
  row_id = row_id;
}

abbrev pub correction : ℕ → ℕ → CorrectionRequest
correction version root_id = record {
  expected_version = version;
  root_id = root_id;
  reason = codes " wrong entry ";
  correction_occurred_at = 70;
  occurred_at = none;
  pair_id = 900;
  reversal_id = 901;
  corrected_id = 902;
}

abbrev pub bench : Assignee
bench = record { kind = AssigneeType.location; id = 2 }

abbrev pub desk : Assignee
desk = record { kind = AssigneeType.location; id = 1 }
