-- ===== src/Capture/Facts.antt =====
-- `_facts` of server/fleetops/capture/service.py: what an Asset's history states at a version.
use defiant_fleet_ops.Base.{ℕ, Option, none, some, List, ltb, leb, keep, if◌then◌else◌}
use defiant_fleet_ops.History.{Event, latest}
use defiant_fleet_ops.Ledger.{Ledger}
use defiant_fleet_ops.Ledger.Physical.{
  PhysicalFact, movement, custody, ownership, history, initial_fact,
}
use defiant_fleet_ops.Capture.{FactsAt}

-- WHERE result_version <= v ORDER BY result_version DESC LIMIT 1, of the table and not of its view
unfoldable pub row_at : {F : Type 0} → ℕ → List (Event F) → Option (Event F)
row_at v rows = latest (keep (λ h. leb h.result_version v) rows)

abbrev pub stated : {F : Type 0} → Option (Event F) → Option F
stated none = none
stated (some h) = h.target

unfoldable pub physical_at : PhysicalFact → Ledger → ℕ → Option ℕ
unfolding row_at
physical_at f l v = elim (row_at v (history f l)) [
  | none ↦ elim l.initial_facts [ none ↦ none | some b ↦ initial_fact f b ]
  | some h ↦ h.target
]

unfoldable pub facts_at : Ledger → ℕ → FactsAt
unfolding physical_at
facts_at l v = record {
  version = v;
  known =
      if ltb l.asset.version v
      then none
      else some record {
        state = stated (row_at v l.transitions);
        location_id = physical_at movement l v;
        custodian_party_id = physical_at custody l v;
        owner_party_id = physical_at ownership l v;
        assignee_id = elim (stated (row_at v l.assignment_events)) [
          | none ↦ none
          | some a ↦ some a.id
        ];
      };
}
