-- ===== src/Capture/Order/Laws.antt =====
-- The processing order of a batch is a rearrangement that respects each client's sequence.
use defiant_fleet_ops.Base.{
  ℕ, suc, ◌+◌, ◌≡◌, refl, arith, Bool, true, false, ◌&&◌, List, [], ◌∷◌, ◌++◌, ◌==◌, All,
  Bool-cases, inl, inr, if◌then◌else◌,
}
use defiant_fleet_ops.Capture.{CaptureOperation}
use defiant_fleet_ops.Capture.Order.{
  Entry, Group, belongs, place, enumerate, group, precedes, insert_entry, sorted, flatten, ordered,
}

-- How many entries satisfy a test.
abbrev pub tally : (Entry → Bool) → List Entry → ℕ
tally p [] = 0
tally p (e ∷ entries) = if p e then suc (tally p entries) else tally p entries

module _ (p : Entry → Bool) where
  tally-++ : (xs ys : List Entry) → tally p (xs ++ ys) ≡ tally p xs + tally p ys
  tally-++ [] ys = ground arith
  tally-++ (x ∷ xs) ys = ground (arith, tally-++ xs ys)

  tally-insert_entry :
      (e : Entry) (xs : List Entry) → tally p (insert_entry e xs) ≡ tally p (e ∷ xs)
  unfolding insert_entry
  tally-insert_entry e [] = refl
  tally-insert_entry e (x ∷ xs) = ground (arith, tally-insert_entry e xs)

  tally-sorted : (xs : List Entry) → tally p (sorted xs) ≡ tally p xs
  unfolding sorted
  tally-sorted [] = refl
  tally-sorted (x ∷ xs) = ground (arith, tally-insert_entry x (sorted xs), tally-sorted xs)

  tally-place :
      (e : Entry) (gs : List Group) → tally p (flatten (place e gs)) ≡ tally p (e ∷ flatten gs)
  unfolding flatten place sorted insert_entry
  tally-place e [] = refl
  tally-place e (g ∷ gs) = elim (Bool-cases (belongs e g)) [
    | inl own ↦
        let entries' = g.entries ++ (e ∷ []) in
        rw own (
          ground (
            arith,
            tally-++ (sorted entries') (flatten gs),
            tally-sorted entries',
            tally-++ g.entries (e ∷ []),
            tally-++ (sorted g.entries) (flatten gs),
            tally-sorted g.entries,
          ))
    | inr other ↦ rw other (
        ground (
          arith,
          tally-++ (sorted g.entries) (flatten (place e gs)),
          tally-++ (sorted g.entries) (flatten gs),
          tally-place e gs,
        ))
  ]

  tally-group :
      (es : List Entry) (gs : List Group)
      → tally p (flatten (group es gs)) ≡ tally p es + tally p (flatten gs)
  unfolding group
  tally-group [] gs = ground arith
  tally-group (e ∷ es) gs = ground (arith, tally-group es (place e gs), tally-place e gs)

  -- The processing order holds every operation of the batch with its position, as often as the batch
  -- does and no other: whatever the test, as many entries of one as of the other satisfy it.
  pub ordered-tally :
      (operations : List CaptureOperation)
      → tally p (ordered operations) ≡ tally p (enumerate 0 operations)
  unfolding ordered flatten
  ordered-tally operations = ground (arith, tally-group (enumerate 0 operations) [])

abbrev pub same_epoch : Entry → Entry → Bool
same_epoch a b = a.1.client_id == b.1.client_id && a.1.client_epoch == b.1.client_epoch

-- No later entry of the same client epoch precedes an earlier one.
abbrev pub InOrder : List Entry → Type 0
InOrder [] = Unit
InOrder (e ∷ es) = All (λ k. same_epoch e k ≡ true → precedes k e ≡ false) es × InOrder es

abbrev pub Floor : Entry → List Entry → Type 0
Floor e = All (λ k. precedes k e ≡ false)

abbrev pub Ascending : List Entry → Type 0
Ascending [] = Unit
Ascending (e ∷ es) = Floor e es × Ascending es

precedes_asym : (a b : Entry) → precedes a b ≡ true → precedes b a ≡ false
precedes_asym a b h = ground arith

floor_trans : (a b c : Entry) → precedes b a ≡ false → precedes c b ≡ false → precedes c a ≡ false
floor_trans a b c h k = ground arith

Floor-mono : (a b : Entry) (es : List Entry) → precedes b a ≡ false → Floor b es → Floor a es
Floor-mono a b [] h f = tt
Floor-mono a b (e ∷ es) h f = (floor_trans a b e h f.0, Floor-mono a b es h f.1)

Floor-insert_entry :
    (a e : Entry) (es : List Entry)
    → precedes e a ≡ false
    → Floor a es
    → Floor a (insert_entry e es)
unfolding insert_entry
Floor-insert_entry a e [] h f = (h, tt)
Floor-insert_entry a e (k ∷ es) h f = elim (Bool-cases (precedes k e)) [
  | inl first ↦ rw first (f.0, Floor-insert_entry a e es h f.1)
  | inr later ↦ rw later (h, f)
]

insert_entry-Ascending :
    (e : Entry) (es : List Entry) → Ascending es → Ascending (insert_entry e es)
unfolding insert_entry
insert_entry-Ascending e [] a = (tt, tt)
insert_entry-Ascending e (k ∷ es) a = elim (Bool-cases (precedes k e)) [
  | inl first ↦
      rw first
        (Floor-insert_entry k e es (precedes_asym k e first) a.0, insert_entry-Ascending e es a.1)
  | inr later ↦ rw later ((later, Floor-mono e k es later a.0), a)
]

pub sorted-Ascending : (es : List Entry) → Ascending (sorted es)
unfolding sorted
sorted-Ascending [] = tt
sorted-Ascending (e ∷ es) = insert_entry-Ascending e (sorted es) (sorted-Ascending es)
