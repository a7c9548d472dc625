-- ===== src/Capture/Order/Sequence.antt =====
-- The processing order respects the sequence of each client epoch.
use defiant_fleet_ops.Base.{
  ◌≡◌, arith, Bool, true, false, ◌&&◌, List, [], ◌∷◌, ◌++◌, ◌==◌, ==_refl, All, Bool-cases, inl,
  inr,
}
use defiant_fleet_ops.Capture.{CaptureOperation}
use defiant_fleet_ops.Capture.Order.{
  Entry, Group, belongs, place, enumerate, group, precedes, insert_entry, sorted, flatten, ordered,
}
use defiant_fleet_ops.Capture.Order.Laws.{same_epoch, InOrder, Ascending, sorted-Ascending}

abbrev same_key : Group → Group → Bool
same_key g h = g.client_id == h.client_id && g.client_epoch == h.client_epoch

abbrev Owned : Group → List Entry → Type 0
Owned g = All (λ e. belongs e g ≡ true)

abbrev Apart : Group → List Group → Type 0
Apart g = All (λ h. same_key g h ≡ false)

-- The entries of each group are its own, and no two groups have one key.
abbrev Separate : List Group → Type 0
Separate [] = Unit
Separate (g ∷ gs) = Owned g g.entries × Apart g gs × Separate gs

All-++ : (P : Entry → Type 0) (xs ys : List Entry) → All P xs → All P ys → All P (xs ++ ys)
All-++ P [] ys a b = b
All-++ P (x ∷ xs) ys a b = (a.0, All-++ P xs ys a.1 b)

All-insert_entry :
    (P : Entry → Type 0) (e : Entry) (xs : List Entry) → P e → All P xs → All P (insert_entry e xs)
unfolding insert_entry
All-insert_entry P e [] pe a = (pe, tt)
All-insert_entry P e (x ∷ xs) pe a = elim (Bool-cases (precedes x e)) [
  | inl first ↦ rw first (a.0, All-insert_entry P e xs pe a.1)
  | inr later ↦ rw later (pe, a)
]

All-sorted : (P : Entry → Type 0) (xs : List Entry) → All P xs → All P (sorted xs)
unfolding sorted
All-sorted P [] a = tt
All-sorted P (x ∷ xs) a = All-insert_entry P x (sorted xs) a.0 (All-sorted P xs a.1)

Apart-place :
    (g : Group) (e : Entry) (gs : List Group)
    → belongs e g ≡ false
    → Apart g gs
    → Apart g (place e gs)
unfolding place
Apart-place g e [] b a = (ground (arith, b), tt)
Apart-place g e (h ∷ gs) b a = elim (Bool-cases (belongs e h)) [
  | inl own ↦ rw own (a.0, a.1)
  | inr other ↦ rw other (a.0, Apart-place g e gs b a.1)
]

place-Separate : (e : Entry) (gs : List Group) → Separate gs → Separate (place e gs)
unfolding place
place-Separate e [] s =
    ((ground (arith, ==_refl e.1.client_id, ==_refl e.1.client_epoch), tt), tt, tt)
place-Separate e (g ∷ gs) s = elim (Bool-cases (belongs e g)) [
  | inl own ↦ rw own (All-++ (λ k. belongs k g ≡ true) g.entries (e ∷ []) s.0 (own, tt), s.1, s.2)
  | inr other ↦ rw other (s.0, Apart-place g e gs other s.1, place-Separate e gs s.2)
]

group-Separate : (es : List Entry) (gs : List Group) → Separate gs → Separate (group es gs)
unfolding group
group-Separate [] gs s = s
group-Separate (e ∷ es) gs s = group-Separate es (place e gs) (place-Separate e gs s)

abbrev Foreign : Entry → List Entry → Type 0
Foreign e = All (λ k. same_epoch e k ≡ false)

Foreign-group :
    (e : Entry) (g h : Group) (es : List Entry)
    → belongs e g ≡ true
    → same_key g h ≡ false
    → Owned h es
    → Foreign e es
Foreign-group e g h [] b a o = tt
Foreign-group e g h (k ∷ es) b a o = (ground (arith, b, a, o.0), Foreign-group e g h es b a o.1)

Foreign-rest :
    (e : Entry) (g : Group) (gs : List Group)
    → belongs e g ≡ true
    → Apart g gs
    → Separate gs
    → Foreign e (flatten gs)
unfolding flatten
Foreign-rest e g [] b a s = tt
Foreign-rest e g (h ∷ gs) b a s =
    All-++ (λ k. same_epoch e k ≡ false) (sorted h.entries) (flatten gs)
      (All-sorted (λ k. same_epoch e k ≡ false) h.entries (Foreign-group e g h h.entries b a.0 s.0))
      (Foreign-rest e g gs b a.1 s.2)

in_order_head :
    (e : Entry) (xs ys : List Entry)
    → All (λ k. precedes k e ≡ false) xs
    → Foreign e ys
    → All (λ k. same_epoch e k ≡ true → precedes k e ≡ false) (xs ++ ys)
in_order_head e [] [] a f = tt
in_order_head e [] (y ∷ ys) a f = (λ same. ground (arith, same, f.0), in_order_head e [] ys tt f.1)
in_order_head e (x ∷ xs) ys a f = (λ same. a.0, in_order_head e xs ys a.1 f)

InOrder-++ :
    (xs ys : List Entry)
    → Ascending xs
    → All (λ x. Foreign x ys) xs
    → InOrder ys
    → InOrder (xs ++ ys)
InOrder-++ [] ys a f o = o
InOrder-++ (x ∷ xs) ys a f o = (in_order_head x xs ys a.0 f.0, InOrder-++ xs ys a.1 f.1 o)

Foreign-All :
    (g : Group) (es : List Entry) (gs : List Group)
    → Owned g es
    → Apart g gs
    → Separate gs
    → All (λ e. Foreign e (flatten gs)) es
Foreign-All g [] gs o a s = tt
Foreign-All g (e ∷ es) gs o a s = (Foreign-rest e g gs o.0 a s, Foreign-All g es gs o.1 a s)

flatten-InOrder : (gs : List Group) → Separate gs → InOrder (flatten gs)
unfolding flatten
flatten-InOrder [] s = tt
flatten-InOrder (g ∷ gs) s =
    InOrder-++ (sorted g.entries) (flatten gs) (sorted-Ascending g.entries)
      (All-sorted (λ e. Foreign e (flatten gs)) g.entries (Foreign-All g g.entries gs s.0 s.1 s.2))
      (flatten-InOrder gs s.2)

-- Of two operations of one client epoch in a batch, the one that is processed later has no smaller
-- sequence number, and with the same number no smaller position in the batch.
pub ordered-InOrder : (operations : List CaptureOperation) → InOrder (ordered operations)
unfolding ordered
ordered-InOrder operations = flatten-InOrder _ (group-Separate (enumerate 0 operations) [] tt)
