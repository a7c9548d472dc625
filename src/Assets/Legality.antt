-- ===== src/Assets/Legality.antt =====
-- What the transitions that the service admits have in common, and what it offers.
use defiant_fleet_ops.Base.{
  ℕ, suc, ◌≡◌, refl, sym, ap, arith, Bool, true, false, Option, none, some, List, [], ◌∷◌, any,
  Result, ok, err, ◌≢◌, ◌∙◌, Bool-cases, Option-cases, inl, inr, value_or, keep, ◌&&◌, ◌||◌,
}
use defiant_fleet_ops.Lifecycle.{
  AssetState, received, in_stock, configuring, ready, deployed, on_hold, out_of_service, retired,
  state_eq, lifecycle, allowed, validate_edge,
}
use defiant_fleet_ops.Evidence.{disposal_evidence, valid_asset_evidence}
use defiant_fleet_ops.Evidence.Service.{Storage}
use defiant_fleet_ops.History.{Event, ordinary, effective, latest}
use defiant_fleet_ops.Ledger.{Ledger, Session, Directory, Request}
use defiant_fleet_ops.Ledger.Anomalies.{fact_same}
use defiant_fleet_ops.Ledger.Transition.{
  transition, insert_transition, guard_asset_evidence, state_agrees,
}
use defiant_fleet_ops.Ledger.Transition.Inversion.{transition-Accepted}
use defiant_fleet_ops.Assets.{
  Options, with_evidence, sorted_states, choices, transition_options, check_hold, constraints,
  transition_asset,
}

-- The state from which the effective history entered the present one.
abbrev pub entered_from : Ledger → Option AssetState
entered_from l = elim (latest (effective l.transitions)) [ none ↦ none | some h ↦ h.source ]

-- An edge of the graph from the present state, or the exit of a hold to where it was entered from.
abbrev pub is_legal : Ledger → AssetState → Bool
is_legal l to = any (state_eq to) (allowed l.asset.current_state (entered_from l))

state_eq-≡ : (a b : AssetState) → state_eq a b ≡ true → a ≡ b
state_eq-≡ = elim [
  | received ↦ elim [ received ↦ λ h. refl | _ ↦ λ h. cc ]
  | in_stock ↦ elim [ in_stock ↦ λ h. refl | _ ↦ λ h. cc ]
  | configuring ↦ elim [ configuring ↦ λ h. refl | _ ↦ λ h. cc ]
  | ready ↦ elim [ ready ↦ λ h. refl | _ ↦ λ h. cc ]
  | deployed ↦ elim [ deployed ↦ λ h. refl | _ ↦ λ h. cc ]
  | on_hold ↦ elim [ on_hold ↦ λ h. refl | _ ↦ λ h. cc ]
  | out_of_service ↦ elim [ out_of_service ↦ λ h. refl | _ ↦ λ h. cc ]
  | retired ↦ elim [ retired ↦ λ h. refl | _ ↦ λ h. cc ]
]

pub constraints-eq-ok : {A : Type 0} → (m : Result A) (a : A) → constraints m ≡ ok a → m ≡ ok a
unfolding constraints
constraints-eq-ok (ok b) a h = h
constraints-eq-ok (err e) a h = ground arith

between :
    (a : AssetState) (t : Option AssetState) (b : AssetState)
    → fact_same state_eq (some a) t ≡ true
    → fact_same state_eq t (some b) ≡ true
    → a ≡ b
between a none b h k = cc
between a (some t) b h k = state_eq-≡ a t h ∙ state_eq-≡ t b k

-- The present state, by the check of the SQL function.
agreed-≡ :
    (l : Ledger) (from : AssetState) → state_agrees l from ≡ true → l.asset.current_state ≡ from
unfolding state_agrees
agreed-≡ l from h = elim (Option-cases (latest (effective l.transitions))) [
  | inl absent ↦ ground arith
  | inr (t, found) ↦
      between l.asset.current_state t.target from (ground (arith, found)) (ground (arith, found))
]

module _ (s : Session) (d : Directory) (storage : Storage) (l : Ledger) (asset_id : ℕ) (q : Request)
    (from to : AssetState) (evidence_ref : Option ℕ) (row : Event AssetState) (l' : Ledger) where
  pub admitted_sql :
      transition_asset s d storage (some l) asset_id q from to evidence_ref ≡ ok (row, l')
      → constraints (transition s d (some l) q from to evidence_ref) ≡ ok (row, l')
  unfolding transition_asset
  admitted_sql h = ground arith

  admitted_edge :
      transition_asset s d storage (some l) asset_id q from to evidence_ref ≡ ok (row, l')
      → any (state_eq to) (allowed from (entered_from l)) ≡ true
  unfolding transition_asset validate_edge check_hold allowed
  admitted_edge h = ground arith

  -- The evidence that the trigger has accepted for a retirement.
  retirement_evidence :
      insert_transition d l.asset.id row l.transitions ≡ ok l'.transitions
      → row.target ≡ some retired
      → row.evidence_ref ≡ evidence_ref
      → row.role ≡ ordinary
      → valid_asset_evidence d.evidence evidence_ref l.asset.id (some disposal_evidence) ≡ true
  unfolding insert_transition guard_asset_evidence
  retirement_evidence i t e o = ground arith

  -- A transition that the service admits was requested at the present version and from the present
  -- state, follows an edge of the lifecycle graph or, for an Asset on hold, may return to the state
  -- that the effective history entered the hold from, is what the state becomes, takes the next
  -- version, and has valid disposal evidence for this Asset if it is a retirement.
  pub transition_asset-is_legal :
      transition_asset s d storage (some l) asset_id q from to evidence_ref ≡ ok (row, l')
      → (q.expected_version ≡ l.asset.version)
        × (l.asset.current_state ≡ from)
        × (is_legal l to ≡ true)
        × (l'.asset.current_state ≡ to)
        × (l'.asset.version ≡ suc l.asset.version)
        × (to ≡ retired
            → valid_asset_evidence d.evidence evidence_ref l.asset.id (some disposal_evidence)
              ≡ true)
  transition_asset-is_legal h =
      let a = transition-Accepted s d l q from to evidence_ref row l' (
        constraints-eq-ok (transition s d (some l) q from to evidence_ref) (row, l')
          (admitted_sql h)) in
      let present = agreed-≡ l from a.agreed in
      (
        sym a.current,
        present,
        rw present (admitted_edge h),
        ap (λ (k : Ledger). k.asset.current_state) a.result,
        ap (λ (k : Ledger). k.asset.version) a.result,
        λ r.
            retirement_evidence a.inserted
              (ap (λ (e : Event AssetState). e.target) a.written ∙ ap some r)
              (ap (λ (e : Event AssetState). e.evidence_ref) a.written)
              (ap (λ (e : Event AssetState). e.role) a.written),
      )

-- No state follows RETIRED: the service admits no transition of a retired Asset.
pub transition_asset-retired :
    (s : Session) (d : Directory) (storage : Storage) (l : Ledger) (asset_id : ℕ) (q : Request)
    (from to : AssetState) (evidence_ref : Option ℕ)
    → l.asset.current_state ≡ retired
    → (row : Event AssetState) (l' : Ledger)
    → transition_asset s d storage (some l) asset_id q from to evidence_ref ≢ ok (row, l')
unfolding allowed lifecycle
transition_asset-retired s d storage l asset_id q from to evidence_ref r row l' h =
    let (_, _, legal, _, _, _) =
      transition_asset-is_legal s d storage l asset_id q from to evidence_ref row l' h in
    ground (arith, r, legal)

-- `to` is among the options.
unfoldable pub offered : AssetState → List (AssetState × Bool) → Bool
offered to [] = false
offered to ((s, needs) ∷ options) = state_eq to s || offered to options

offered-keep :
    (to : AssetState) (p : AssetState → Bool) (states : List AssetState)
    → offered to (with_evidence (keep p states)) ≡ (p to && any (state_eq to) states)
unfolding offered
offered-keep to p [] = ground arith
offered-keep to p (s ∷ states) = elim (Bool-cases (state_eq to s)) [
  | inl same_state ↦
      let same : p to ≡ p s = ap p (state_eq-≡ to s same_state) in
      ground (arith, offered-keep to p states, same)
  | inr other ↦ ground (arith, offered-keep to p states)
]

every_state : (to : AssetState) → any (state_eq to) sorted_states ≡ true
every_state = elim [
  | received ↦ refl
  | in_stock ↦ refl
  | configuring ↦ refl
  | ready ↦ refl
  | deployed ↦ refl
  | on_hold ↦ refl
  | out_of_service ↦ refl
  | retired ↦ refl
]

chosen :
    (l : Ledger) (h : Event AssetState) (state : AssetState) (states : List AssetState)
    (to : AssetState)
    → latest (effective l.transitions) ≡ some h
    → l.asset.current_state ≡ state
    → choices state h ≡ ok states
    → any (state_eq to) states ≡ is_legal l to
unfolding choices allowed
chosen l h state states to found present c = ground arith

-- The options that the service offers are exactly the transitions that are legal for the Asset.
pub transition_options-is_legal :
    (l : Ledger) (o : Options) (to : AssetState)
    → transition_options (some l) ≡ ok o
    → offered to o.options ≡ is_legal l to
unfolding transition_options
transition_options-is_legal l o to h = elim (Option-cases (latest (effective l.transitions))) [
  | inl absent ↦ ground (arith, absent)
  | inr (e, found) ↦ elim (Option-cases e.target) [
    | inl unstated ↦ ground (arith, found, unstated)
    | inr (state, stated) ↦
        let states = value_or [] (choices state e) in
        let chose : choices state e ≡ ok states = ground (arith, found, stated) in
        let matched : state_eq state l.asset.current_state ≡ true = ground (arith, found, stated) in
        let same_options : o.options
            ≡ with_evidence (keep (λ s. any (state_eq s) states) sorted_states) =
          ground (arith, found, stated) in
        let of_choices : offered to o.options ≡ any (state_eq to) states = rw same_options (
          ground (
            arith,
            offered-keep to (λ s. any (state_eq s) states) sorted_states,
            every_state to,
          )) in
        of_choices
        ∙ chosen l e state states to found (sym (state_eq-≡ state l.asset.current_state matched))
            chose
  ]
]
