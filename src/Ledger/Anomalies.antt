-- ===== src/Ledger/Anomalies.antt =====
-- The view asset_correction_anomalies of one Asset: malformed_sql and source_coherence_sql of
-- server/alembic/versions/0011_corrections.py, and EVIDENCE_ANOMALIES of 0012_evidence.py. Every
-- privileged operation refuses an Asset that it lists.
use defiant_fleet_ops.Base.{
  ℕ, ◌+◌, Bool, true, false, not, ◌||◌, ◌&&◌, Option, none, some, List, [], ◌∷◌, ltb, ◌==◌, any,
  keep, map, length, same, matches, is_some, is_none, if◌then◌else◌,
}
use defiant_fleet_ops.Text.{Text, text_eq, is_space, normalize_correction_reason}
use defiant_fleet_ops.Lifecycle.{AssetState, retired, state_eq}
use defiant_fleet_ops.Evidence.{EvidenceTables, disposal_evidence, valid_asset_evidence}
use defiant_fleet_ops.History.{
  Event, is_ordinary, is_reversal, is_corrected, effective, latest_before, versions,
}
use defiant_fleet_ops.Ledger.{Ledger, Assignee, AssigneeType, InitialFacts, Directory}

-- max(), which is 0 for no row.
unfoldable pub max_of : List ℕ → ℕ
max_of [] = 0
max_of (n ∷ ns) = let m = max_of ns in if ltb n m then m else n

-- count(DISTINCT ...), which passes over NULL.
distinct : List (Option ℕ) → ℕ
distinct [] = 0
distinct (none ∷ ns) = distinct ns
distinct (some n ∷ ns) = if any (λ m. matches m (some n)) ns then distinct ns else distinct ns + 1

distinct_texts : List Text → ℕ
distinct_texts [] = 0
distinct_texts (s ∷ ss) = if any (text_eq s) ss then distinct_texts ss else distinct_texts ss + 1

abbrev pub fact_same : {F : Type 0} → (F → F → Bool) → Option F → Option F → Bool
fact_same eq none none = true
fact_same eq (some a) (some b) = eq a b
fact_same eq _ _ = false

module _ {F : Type 0} (eq : F → F → Bool) (rows : List (Event F)) where
  -- An ordinary row carries no correction metadata.
  bad_ordinary : Event F → Bool
  bad_ordinary h =
      is_ordinary h.role
      && (is_some h.root
          || is_some h.pair_id
          || not (h.generation == 0)
          || is_some h.correction_occurred_at)

  unfoldable pub ordinary_root : Option ℕ → Bool
  ordinary_root none = false
  ordinary_root (some r) = any (λ p. p.id == r && is_ordinary p.role) rows

  -- A row of a pair names an ordinary root and carries the metadata of its pair.
  unfoldable pub bad_metadata : Event F → Bool
  unfolding ordinary_root
  bad_metadata h =
      not (is_ordinary h.role)
      && (not (ordinary_root h.root)
          || is_none h.pair_id
          || ltb h.generation 1
          || is_none h.correction_occurred_at
          || not (any (λ c. not (is_space c)) h.reason)
          || ltb 4000 (length h.reason)
          || not (text_eq h.reason (normalize_correction_reason h.reason)))

  -- The group of the rows that share the pair of `h`.
  bad_pair : Event F → Bool
  unfolding max_of distinct distinct_texts
  bad_pair h =
      let pair = keep (λ p. not (is_ordinary p.role) && same p.pair_id h.pair_id) rows in
      let reversals = keep (λ p. is_reversal p.role) pair in
      let replacements = keep (λ p. is_corrected p.role) pair in
      not (is_ordinary h.role)
      && (not (length pair == 2)
          || not (distinct (map (λ p. p.root) pair) == 1)
          || not (distinct (map (λ p. some p.generation) pair) == 1)
          || not (length reversals == 1)
          || not (length replacements == 1)
          || not (distinct_texts (map (λ p. p.reason) pair) == 1)
          || not (distinct (map (λ p. some p.actor_id) pair) == 1)
          || not (distinct (map (λ p. p.correction_occurred_at) pair) == 1)
          || not (max_of (versions replacements) == max_of (versions reversals) + 1))

  -- The generations of a root are 1, 2, ... without a gap.
  bad_generations : Event F → Bool
  unfolding max_of distinct
  bad_generations h =
      let generations =
        map (λ p. p.generation) (keep (λ p. is_corrected p.role && same p.root h.root) rows) in
      is_corrected h.role
      && (not (length generations == max_of generations)
          || not (distinct (map (λ g. some g) generations) == max_of generations))

  -- The row that a reversal cancels: its root, or the replacement of the generation before.
  unfoldable pub cancels : Event F → Event F → Bool
  cancels h p =
      (h.generation == 1 && matches h.root (some p.id))
      || (ltb 1 h.generation
          && matches p.root h.root
          && p.generation + 1 == h.generation
          && is_corrected p.role)

  -- A reversal follows at once what it cancels, and copies it.
  bad_reversal : Event F → Bool
  unfolding cancels
  bad_reversal h =
      is_reversal h.role
      && any
          (λ p.
            cancels h p
            && (not (h.result_version == p.result_version + 1)
                || not (fact_same eq h.source p.source)
                || not (fact_same eq h.target p.target)
                || not (h.occurred_at == p.occurred_at)))
          rows

  -- A replacement starts from the fact that was effective before its root; `baseline` is the
  -- fact at creation, for the tables that have one.
  bad_source : Option F → Event F → Bool
  bad_source baseline c =
      is_corrected c.role
      && any
          (λ r.
            matches c.root (some r.id)
            && not (
                fact_same eq c.source (elim (latest_before r.result_version (effective rows)) [
                  | none ↦ baseline
                  | some p ↦ p.target
                ])))
          rows

  unfoldable pub malformed : Option F → Bool
  unfolding bad_ordinary bad_metadata bad_pair bad_generations bad_reversal bad_source
  malformed baseline =
      any
        (λ h.
          bad_ordinary h
          || bad_metadata h
          || bad_pair h
          || bad_generations h
          || bad_reversal h
          || bad_source baseline h)
        rows

abbrev kind_eq : AssigneeType → AssigneeType → Bool
kind_eq AssigneeType.actor AssigneeType.actor = true
kind_eq AssigneeType.location AssigneeType.location = true
kind_eq AssigneeType.party AssigneeType.party = true
kind_eq _ _ = false

abbrev pub assignee_eq : Assignee → Assignee → Bool
assignee_eq a b = kind_eq a.kind b.kind && a.id == b.id

abbrev pub retires : Event AssetState → Bool
retires h = fact_same state_eq h.target (some retired) && not (is_reversal h.role)

-- EVIDENCE_ANOMALIES: evidence that does not support its row, or that a reversal did not copy.
unfoldable pub evidence_anomaly : EvidenceTables → ℕ → List (Event AssetState) → Bool
unfolding cancels
evidence_anomaly t asset_id rows =
    any
      (λ h.
        ((is_some h.evidence_ref || retires h)
          && not (
              valid_asset_evidence t h.evidence_ref asset_id
                (if retires h then some disposal_evidence else none)))
        || (is_reversal h.role
            && any (λ p. cancels state_eq rows h p && not (same h.evidence_ref p.evidence_ref))
                rows))
      rows

abbrev nat_eq : ℕ → ℕ → Bool
nat_eq a b = a == b

abbrev initial : Option InitialFacts → (InitialFacts → Option ℕ) → Option ℕ
initial none field = none
initial (some b) field = field b

-- Whether asset_correction_anomalies lists the Asset.
unfoldable pub has_anomaly : Directory → Ledger → Bool
unfolding malformed evidence_anomaly
has_anomaly d l =
    malformed state_eq l.transitions none
    || malformed nat_eq l.movements (initial l.initial_facts (λ b. b.initial_location_id))
    || malformed nat_eq l.custody_changes
        (initial l.initial_facts (λ b. b.initial_custodian_party_id))
    || malformed nat_eq l.ownership_changes
        (initial l.initial_facts (λ b. b.initial_owner_party_id))
    || malformed assignee_eq l.assignment_events none
    || evidence_anomaly d.evidence l.asset.id l.transitions
