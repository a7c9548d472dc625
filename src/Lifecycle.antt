-- ===== src/Lifecycle.antt =====
-- server/fleetops/domain/lifecycle.py: the lifecycle graph of an Asset.
use defiant_fleet_ops.Base.{
  Bool, true, false, Option, none, some, List, [], ◌∷◌, any, Result, guard, lifecycle_invalid,
  if◌then◌else◌,
}

pub data AssetState : Type 0 where
  received in_stock configuring ready deployed on_hold out_of_service retired : AssetState

abbrev pub state_eq : AssetState → AssetState → Bool
state_eq received received = true
state_eq in_stock in_stock = true
state_eq configuring configuring = true
state_eq ready ready = true
state_eq deployed deployed = true
state_eq on_hold on_hold = true
state_eq out_of_service out_of_service = true
state_eq retired retired = true
state_eq _ _ = false

-- `LIFECYCLE`: the states that an Asset may enter from each state.
unfoldable pub lifecycle : AssetState → List AssetState
lifecycle received = in_stock ∷ on_hold ∷ []
lifecycle in_stock = configuring ∷ on_hold ∷ retired ∷ []
lifecycle configuring = ready ∷ on_hold ∷ []
lifecycle ready = deployed ∷ in_stock ∷ on_hold ∷ []
lifecycle deployed = on_hold ∷ out_of_service ∷ ready ∷ []
lifecycle on_hold = out_of_service ∷ []
lifecycle out_of_service = configuring ∷ retired ∷ []
lifecycle retired = []

-- The edges of ON_HOLD include the state that it was entered from.
unfoldable pub allowed : AssetState → Option AssetState → List AssetState
unfolding lifecycle
allowed from previous = elim previous [
  | none ↦ lifecycle from
  | some p ↦ if state_eq from on_hold then p ∷ lifecycle from else lifecycle from
]

unfoldable pub validate_edge : AssetState → AssetState → Option AssetState → Result (Unit {0})
unfolding allowed
validate_edge from to previous = guard (any (state_eq to) (allowed from previous)) lifecycle_invalid
