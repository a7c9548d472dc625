-- ===== src/Reconcile/Sound.antt =====
-- Reconciliation of a coherent Asset finds nothing.
use defiant_fleet_ops.Base.{
  ℕ, suc, ◌+◌, ◌-◌, ◌<◌, ◌≡◌, ◌⊎◌, if◌then◌else◌, refl, arith, Bool, true, false, ◌&&◌, Option,
  none, some, List, [], ◌∷◌, ◌++◌, ltb, leb, ◌==◌, ==_refl, any, keep, All, All-keep, count,
  Bool-cases, Option-cases, inl, inr, same, same_refl,
}
use mathlib.Core.Path.{subst}
use defiant_fleet_ops.Lifecycle.{
  AssetState, received, in_stock, configuring, ready, deployed, on_hold, out_of_service, retired,
  state_eq,
}
use defiant_fleet_ops.History.{Event, effective, is_effective, latest, versions, newer}
use defiant_fleet_ops.History.Effective.{Below}
use defiant_fleet_ops.Ledger.{Ledger, Directory, Assignee}
use defiant_fleet_ops.Ledger.Anomalies.{has_anomaly, fact_same}
use defiant_fleet_ops.Ledger.Physical.{
  PhysicalFact, movement, custody, ownership, history, projection, initial_fact,
}
use defiant_fleet_ops.Ledger.Assignment.{assignment_id}
use defiant_fleet_ops.Ledger.Authority.{raw_versions, stated_state, stated_fact, stated_assignment}
use defiant_fleet_ops.Ledger.Invariant.{IsCoherent, producers}
use defiant_fleet_ops.Corrections.{has_lifecycle_issue}
use defiant_fleet_ops.Reconcile.{
  nub, points, missing_ranges, duplicate_versions, ahead_versions, ahead, state_discrepancies,
  fact_discrepancies, assignment_discrepancies, global_discrepancies, discrepancies, target_valid,
  reconcile_asset, illegal_corrected_lifecycle,
}
use defiant_fleet_ops.Reconcile.Gaps.{
  has, sort-Sorted, has-sort, has-keep, has-nub, gaps-empty, All-has,
}

newer-cases :
    {F : Type 0} (x : Event F) (o : Option (Event F)) (h : Event F)
    → newer x o ≡ some h
    → (x ≡ h) ⊎ (o ≡ some h)
newer-cases x none h e = inl (cc)
newer-cases x (some m) h e = elim (Bool-cases (ltb x.result_version m.result_version)) [
  | inl below ↦ inr (rw below at e)
  | inr above ↦ inl (ground (arith, e, above))
]

latest-All :
    {F : Type 0} (P : Event F → Type 0) (rows : List (Event F)) (h : Event F)
    → All P rows
    → latest rows ≡ some h
    → P h
unfolding latest
latest-All P [] h a e = cc
latest-All P (x ∷ rows) h a e = elim (newer-cases x (latest rows) h e) [
  | inl same_row ↦ subst P same_row a.0
  | inr later ↦ latest-All P rows h a.1 later
]

count-++ : (v : ℕ) (xs ys : List ℕ) → count v (xs ++ ys) ≡ count v xs + count v ys
count-++ v [] ys = ground arith
count-++ v (x ∷ xs) ys = ground (arith, count-++ v xs ys)

has-count : (v : ℕ) (vs : List ℕ) → has v vs ≡ ltb 0 (count v vs)
has-count v [] = refl
has-count v (x ∷ xs) = ground (arith, has-count v xs)

keep-none : (p : ℕ → Bool) (vs : List ℕ) → All (λ v. p v ≡ false) vs → keep p vs ≡ []
keep-none p [] a = refl
keep-none p (v ∷ vs) a = rw a.0 (keep-none p vs a.1)

raw_producers : (v : ℕ) (l : Ledger) → count v (raw_versions l) ≡ producers v l
unfolding producers
raw_producers v l =
    let t = versions l.transitions in
    let m = versions l.movements in
    let c = versions l.custody_changes in
    let o = versions l.ownership_changes in
    let e = versions l.assignment_events in
    omega (
      arith,
      count-++ v (t ++ m ++ c ++ o) e,
      count-++ v (t ++ m ++ c) o,
      count-++ v (t ++ m) c,
      count-++ v t m,
    )

state_eq_refl : (a : AssetState) → state_eq a a ≡ true
state_eq_refl = elim [
  | received ↦ refl
  | in_stock ↦ refl
  | configuring ↦ refl
  | ready ↦ refl
  | deployed ↦ refl
  | on_hold ↦ refl
  | out_of_service ↦ refl
  | retired ↦ refl
]

ids-among :
    {F : Type 0} (table rows : List (Event F))
    → ((i : ℕ)
        → any (λ (e : Event F). e.id == i) rows ≡ true
        → any (λ (e : Event F). e.id == i) table ≡ true)
    → All (λ k. any (λ (e : Event F). e.id == k.id) table ≡ true) rows
ids-among table [] h = tt
ids-among table (x ∷ rows) h =
    (h x.id (ground (arith, ==_refl x.id)), ids-among table rows (λ i e. h i (ground (arith, e))))

own-ids :
    {F : Type 0} (rows : List (Event F))
    → All (λ k. any (λ (e : Event F). e.id == k.id) rows ≡ true) rows
own-ids rows = ids-among rows rows (λ i e. e)

module _ (l : Ledger) (c : IsCoherent l) where
  -- Exactly the versions from 1 on are produced.
  has-raw : (v : ℕ) → has v (raw_versions l) ≡ (ltb 0 v && leb v l.asset.version)
  has-raw v = ground (arith, has-count v (raw_versions l), raw_producers v l, c.dense v)

  has-points : (n : ℕ) → has n (points l) ≡ leb n (l.asset.version + 1)
  unfolding points
  has-points n =
      let between = keep (λ v. leb 1 v && leb v l.asset.version) (nub (raw_versions l)) in
      ground (
        arith,
        has-sort n (0 ∷ (l.asset.version + 1) ∷ between),
        has-keep n (λ v. leb 1 v && leb v l.asset.version) (nub (raw_versions l)),
        has-nub n (raw_versions l),
        has-raw n,
      )

  missing_ranges-empty : missing_ranges l ≡ []
  unfolding missing_ranges points
  missing_ranges-empty =
      gaps-empty (points l)
        (sort-Sorted (
          0
          ∷ (l.asset.version + 1)
          ∷ keep (λ v. leb 1 v && leb v l.asset.version) (nub (raw_versions l))))
        (All-has _ (points l)
          (λ n e above. ground (arith, has-points n, has-points (n - 1), e, above)))

  duplicate_versions-empty : duplicate_versions l ≡ []
  unfolding duplicate_versions
  duplicate_versions-empty =
      keep-none _ (nub (raw_versions l))
        (All-has _ (nub (raw_versions l)) (λ n e. ground (arith, c.dense n)))

  ahead_versions-empty : ahead_versions l ≡ []
  unfolding ahead_versions
  ahead_versions-empty = keep-none _ (nub (raw_versions l)) (
      All-has _ (nub (raw_versions l))
        (λ n e. ground (arith, has-nub n (raw_versions l), has-raw n, e)))

  not_ahead :
      {F : Type 0} (rows : List (Event F))
      → Below (suc l.asset.version) rows
      → ahead l.asset.version (latest (effective rows)) ≡ false
  unfolding effective
  not_ahead rows b = elim (Option-cases (latest (effective rows))) [
    | inl absent ↦ rw absent refl
    | inr (h, found) ↦
        let below =
          latest-All (λ e. e.result_version < suc l.asset.version) (effective rows) h
            (All-keep _ (is_effective rows) rows b) found in
        rw found (ground (arith, below))
  ]

  state-quiet : state_discrepancies l ≡ []
  unfolding state_discrepancies stated_state
  state-quiet = elim (Option-cases (latest (effective l.transitions))) [
    | inl absent ↦ ground (arith, absent, c.state)
    | inr (h, found) ↦
        let stated : h.target ≡ some l.asset.current_state = ground (arith, found, c.state) in
        let agree : fact_same state_eq (some l.asset.current_state) h.target ≡ true =
          rw stated (state_eq_refl l.asset.current_state) in
        ground (arith, found, agree, not_ahead l.transitions c.transitions.below)
  ]

  fact-quiet : (f : PhysicalFact) → fact_discrepancies f l ≡ []
  unfolding fact_discrepancies stated_fact
  fact-quiet f = elim (Option-cases l.initial_facts) [
    | inl uncreated ↦ ground (arith, uncreated, c.creation)
    | inr (b, created) ↦ elim (Option-cases (latest (effective (history f l)))) [
      | inl absent ↦
          let stated : initial_fact f b ≡ projection f l.asset =
            ground (arith, absent, created, c.facts f) in
          let agree : same (projection f l.asset) (initial_fact f b) ≡ true =
            rw stated (same_refl (projection f l.asset)) in
          ground (arith, absent, created, agree)
      | inr (h, found) ↦
          let stated : h.target ≡ projection f l.asset =
            ground (arith, found, created, c.facts f) in
          let agree : same (projection f l.asset) h.target ≡ true =
            rw stated (same_refl (projection f l.asset)) in
          ground (arith, found, agree, not_ahead (history f l) (c.physical f).below)
    ]
  ]

  assignment-quiet : assignment_discrepancies l ≡ []
  unfolding assignment_discrepancies stated_assignment effective
  assignment-quiet = elim (Option-cases (latest (effective l.assignment_events))) [
    | inl absent ↦ ground (arith, absent, c.witness, c.assignment)
    | inr (h, found) ↦
        let stated : l.asset.current_assignment_id ≡ assignment_id h =
          ground (arith, found, c.assignment) in
        let agree : same l.asset.current_assignment_id (assignment_id h) ≡ true =
          rw stated (same_refl (assignment_id h)) in
        let known =
          latest-All (λ k. any (λ (e : Event Assignee). e.id == k.id) l.assignment_events ≡ true)
            (effective l.assignment_events) h
            (All-keep _ (is_effective l.assignment_events) l.assignment_events
              (own-ids l.assignment_events))
            found in
        let valid : target_valid l ≡ true = ground (arith, stated, known) in
        ground
          (arith, found, c.witness, agree, valid, not_ahead l.assignment_events c.assignments.below)
  ]

  discrepancies-empty : (d : Directory) → has_anomaly d l ≡ false → discrepancies d l ≡ []
  unfolding discrepancies global_discrepancies
  discrepancies-empty d well_formed = ground (
    arith,
    well_formed,
    c.creation,
    state-quiet,
    fact-quiet movement,
    fact-quiet custody,
    fact-quiet ownership,
    assignment-quiet,
    missing_ranges-empty,
    duplicate_versions-empty,
    ahead_versions-empty,
  )

  -- Reconciliation lists a coherent Asset whose correction history is not malformed exactly if one of its
  -- corrected lifecycle edges is illegal, and then it reports this and nothing else: no projection,
  -- witness or version of any class is in disagreement.
  pub reconcile_asset-listed :
      (d : Directory)
      → has_anomaly d l ≡ false
      → reconcile_asset d l
        ≡ (if has_lifecycle_issue d l then some (illegal_corrected_lifecycle ∷ []) else none)
  unfolding reconcile_asset
  reconcile_asset-listed d well_formed =
      let quiet = discrepancies-empty d well_formed in
      elim (Bool-cases (has_lifecycle_issue d l)) [
        | inl issue ↦ ground (arith, quiet, issue)
        | inr legal ↦ ground (arith, quiet, legal)
      ]
