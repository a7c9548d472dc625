-- ===== src/Ledger/Creation.antt =====
-- The rows that create_received_unit writes for a new Asset
-- (server/alembic/versions/0010_receiving.py).
use defiant_fleet_ops.Base.{ℕ, refl, true, Option, none, some, [], ◌∷◌, arith}
use defiant_fleet_ops.Lifecycle.{AssetState, received}
use defiant_fleet_ops.Text.{Text}
use defiant_fleet_ops.History.{Event, ordinary, is_effective, effective, supersedes, latest}
use defiant_fleet_ops.Ledger.{Ledger, names_root}
use defiant_fleet_ops.Ledger.Physical.{movement, custody, ownership}
use defiant_fleet_ops.Ledger.Invariant.{IsCoherent, producers}
use defiant_fleet_ops.Ledger.Authority.{stated_state, stated_fact, stated_assignment}

-- The values of the call and of its receipt that the Asset's rows hold.
pub record ReceivedUnit : Type 0 where
  pub asset_id : ℕ
  pub transition_id : ℕ
  pub owner_party_id : ℕ
  pub custodian_party_id : Option ℕ
  pub dock_location_id : ℕ
  pub received_at : ℕ

abbrev pub physical_unit_received : Text
physical_unit_received =
    80 ∷ 104 ∷ 121 ∷ 115 ∷ 105 ∷ 99 ∷ 97 ∷ 108 ∷ 32 ∷ 117 ∷ 110 ∷ 105 ∷ 116 ∷ 32 ∷ 114 ∷ 101 ∷ 99
    ∷ 101 ∷ 105 ∷ 118 ∷ 101 ∷ 100 ∷ []

abbrev pub received_transition : ReceivedUnit → ℕ → Event AssetState
received_transition u performer_id = record {
  id = u.transition_id;
  result_version = 1;
  source = none;
  target = some received;
  reason = physical_unit_received;
  actor_id = performer_id;
  occurred_at = u.received_at;
  client_op_id = none;
  evidence_ref = none;
  root = none;
  role = ordinary;
  pair_id = none;
  generation = 0;
  correction_occurred_at = none;
}

abbrev pub received_ledger : ReceivedUnit → ℕ → Ledger
received_ledger u performer_id = record {
  asset = record {
    id = u.asset_id;
    current_state = received;
    version = 1;
    current_location_id = some u.dock_location_id;
    custodian_party_id = u.custodian_party_id;
    owner_party_id = some u.owner_party_id;
    current_assignment_id = none;
  };
  transitions = received_transition u performer_id ∷ [];
  movements = [];
  custody_changes = [];
  ownership_changes = [];
  assignment_events = [];
  initial_facts = some record {
    initial_location_id = some u.dock_location_id;
    initial_custodian_party_id = u.custodian_party_id;
    initial_owner_party_id = some u.owner_party_id;
  };
  initial_assignment_facts = true;
}

pub received_ledger-IsCoherent :
    (u : ReceivedUnit) (performer_id : ℕ) → IsCoherent (received_ledger u performer_id)
unfolding stated_state stated_fact stated_assignment producers effective is_effective supersedes
    latest names_root
received_ledger-IsCoherent u performer_id = record {
  creation = refl;
  witness = refl;
  transitions = record {
    below = ground arith;
    ids = ground arith;
    roots = ground arith;
    rootless = ground arith;
  };
  physical = elim [
    | movement ↦ record { below = tt; ids = tt; roots = tt; rootless = tt }
    | custody ↦ record { below = tt; ids = tt; roots = tt; rootless = tt }
    | ownership ↦ record { below = tt; ids = tt; roots = tt; rootless = tt }
  ];
  assignments = record { below = tt; ids = tt; roots = tt; rootless = tt };
  dense = λ v. ground arith;
  state = refl;
  facts = elim [ movement ↦ refl | custody ↦ refl | ownership ↦ refl ];
  assignment = refl;
}
