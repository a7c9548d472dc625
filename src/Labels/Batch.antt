-- ===== src/Labels/Batch.antt =====
-- The batch of jobs that the receipt of serialized units gets.
use mathlib.Core.Path.{subst}
use defiant_fleet_ops.Base.{
  ℕ, zero, suc, ◌≤◌, ◌≡◌, inl, inr, refl, sym, ap, ◌∙◌, arith, Bool, true, ◌&&◌, ◌||◌, some, List,
  [], ◌∷◌, ◌==◌, ltb, leb, any, has, length, map, All, same, Bool-cases, Option-cases, Result-cases,
  ok,
}
use defiant_fleet_ops.Ledger.{Session}
use defiant_fleet_ops.Labels.{
  OutputFormat, Job, Reference, Tables, ReceivedLine, is_new, find_template,
}
use defiant_fleet_ops.Labels.Service.{
  enqueue, enqueue_all, enqueue_receipt, received_assets, insert_id, take,
}
use defiant_fleet_ops.Labels.Added.{enqueue-IsAdded}

-- The receipt has a line of this serialized unit.
abbrev pub is_received : ℕ → ℕ → List ReceivedLine → Bool
is_received receipt_id a =
    any (λ (l : ReceivedLine). l.receipt_id == receipt_id && same l.asset_id (some a))

abbrev pub IsAscending : ℕ → List ℕ → Type 0
IsAscending n [] = Unit
IsAscending n (a ∷ ids) = (n ≤ a) × IsAscending (suc a) ids

has-insert_id : (b a : ℕ) (ids : List ℕ) → has b (insert_id a ids) ≡ ((a == b) || has b ids)
has-insert_id b a [] = ground arith
has-insert_id b a (c ∷ ids) = ground (arith, has-insert_id b a ids)

insert_id-IsAscending :
    (n a : ℕ) (ids : List ℕ) → IsAscending n ids → n ≤ a → IsAscending n (insert_id a ids)
insert_id-IsAscending n a [] h low = (low, tt)
insert_id-IsAscending n a (c ∷ ids) (first, h) low = elim (Bool-cases (a == c)) [
  | inl here ↦ rw here (first, h)
  | inr other ↦ elim (Bool-cases (ltb a c)) [
    | inl less ↦ rw (other, less) (low, (ground (arith, less), h))
    | inr more ↦
        rw (other, more)
          (first, insert_id-IsAscending (suc c) a ids h (ground (arith, other, more)))
  ]
]

received_assets-IsAscending :
    (receipt_id : ℕ) (lines : List ReceivedLine) → IsAscending 0 (received_assets receipt_id lines)
unfolding received_assets
received_assets-IsAscending receipt_id [] = tt
received_assets-IsAscending receipt_id (l ∷ lines) =
    let rest = received_assets-IsAscending receipt_id lines in
    elim (Option-cases l.asset_id) [
      | inl none_there ↦ rw none_there rest
      | inr (a, there) ↦ elim (Bool-cases (l.receipt_id == receipt_id)) [
        | inl ours ↦
            rw (there, ours)
              (insert_id-IsAscending 0 a (received_assets receipt_id lines) rest (omega arith))
        | inr other ↦ rw (there, other) rest
      ]
    ]

has-received_assets :
    (receipt_id b : ℕ) (lines : List ReceivedLine)
    → has b (received_assets receipt_id lines) ≡ is_received receipt_id b lines
unfolding received_assets
has-received_assets receipt_id b [] = refl
has-received_assets receipt_id b (l ∷ lines) =
    let rest = has-received_assets receipt_id b lines in
    elim (Option-cases l.asset_id) [
      | inl none_there ↦ rw none_there (ground (arith, rest))
      | inr (a, there) ↦
          let put = has-insert_id b a (received_assets receipt_id lines) in
          rw there (ground (arith, put, rest))
    ]

take_whole :
    {A : Type 0} (n : ℕ) (xs : List A) → length (take (suc n) xs) ≤ n → take (suc n) xs ≡ xs
take_whole n [] h = refl
take_whole zero (x ∷ xs) h = ground (arith, h)
take_whole (suc n) (x ∷ xs) h = ap (λ ys. x ∷ ys) (take_whole n xs (omega (arith, h)))

abbrev pub IsQueued : Job → Type 0
IsQueued j = (is_new j ≡ true) × (j.render_snapshot.id ≡ j.entity_id)

enqueue_all-IsQueued :
    (s : Session) (r : Reference) (now : ℕ) (t : Tables) (id : ℕ) (targets : List ℕ)
    (template_id : ℕ) (f : OutputFormat) (jobs : List Job) (t' : Tables)
    → enqueue_all s r now t id targets template_id f ≡ ok (jobs, t')
    → (map (λ (j : Job). j.entity_id) jobs ≡ targets) × All IsQueued jobs
unfolding enqueue_all
enqueue_all-IsQueued s r now t id [] template_id f jobs t' h =
    let jobs_are : [] ≡ jobs = ground (arith, h) in
    subst (λ (x : List Job). (map (λ (j : Job). j.entity_id) x ≡ []) × All IsQueued x) jobs_are
      (refl, tt)
enqueue_all-IsQueued s r now t id (a ∷ targets) template_id f jobs t' h =
    elim (Result-cases (enqueue s r now t id a template_id f)) [
      | inr (e, refused) ↦ ground (arith, refused)
      | inl ((j, t1), first) ↦
          elim (Result-cases (enqueue_all s r now t1 (suc id) targets template_id f)) [
            | inr (e, refused) ↦ ground (arith, first, refused)
            | inl ((rest, t2), later) ↦
                let added = enqueue-IsAdded s r now t id a template_id f j t1 first in
                let more =
                  enqueue_all-IsQueued s r now t1 (suc id) targets template_id f rest t2 later in
                let jobs_are : j ∷ rest ≡ jobs = ground (arith, first, later) in
                subst
                  (λ (x : List Job).
                    (map (λ (j : Job). j.entity_id) x ≡ a ∷ targets) × All IsQueued x)
                  jobs_are
                  (rw (added.of_asset, more.0) refl, ((added.pending, added.identity), more.1))
          ]
    ]

length-entities : (jobs : List Job) → length (map (λ (j : Job). j.entity_id) jobs) ≡ length jobs
length-entities [] = refl
length-entities (j ∷ jobs) = ap suc (length-entities jobs)

-- An accepted batch has at most 500 new jobs, each of them pending with the snapshot of its own Asset:
-- one for each Asset that a line of the receipt names, in ascending order, each once, and for no other.
pub enqueue_receipt-bounded :
    (s : Session) (r : Reference) (now : ℕ) (t : Tables) (id receipt_id template_id : ℕ)
    (f : OutputFormat) (jobs : List Job) (t' : Tables)
    → enqueue_receipt s r now t id receipt_id template_id f ≡ ok (jobs, t')
    → (length jobs ≤ 500)
      × All IsQueued jobs
      × IsAscending 0 (map (λ (j : Job). j.entity_id) jobs)
      × ((a : ℕ)
          → has a (map (λ (j : Job). j.entity_id) jobs) ≡ is_received receipt_id a r.receipt_lines)
unfolding enqueue_receipt
enqueue_receipt-bounded s r now t id receipt_id template_id f jobs t' h =
    let targets = received_assets receipt_id r.receipt_lines in
    elim (Option-cases (find_template template_id t.templates)) [
      | inl missing ↦ ground (arith, missing)
      | inr (m, found) ↦
          let few : leb (length (take 501 targets)) 500 ≡ true = ground (arith, found) in
          let bound : length (take 501 targets) ≤ 500 = ground (arith, few) in
          let whole = take_whole 500 targets bound in
          let queued =
            enqueue_all-IsQueued s r now t id (take 501 targets) template_id f jobs t'
              (ground (arith, found)) in
          let counted = sym (length-entities jobs) ∙ ap length queued.0 in
          let entities : map (λ (j : Job). j.entity_id) jobs ≡ targets = queued.0 ∙ whole in
          (
            omega (arith, bound, counted),
            queued.1,
            rw entities (received_assets-IsAscending receipt_id r.receipt_lines),
            λ a. rw entities (has-received_assets receipt_id a r.receipt_lines),
          )
    ]
