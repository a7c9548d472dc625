-- ===== src/Procurement/Listing/Ordered.antt =====
-- The order of a listing: by line number, and from the root of a line to its last version.
use defiant_fleet_ops.Base.{
  ℕ, zero, suc, ◌<◌, ◌≤◌, ◌≡◌, ◌⊎◌, inl, inr, refl, sym, arith, Bool, true, false, ◌||◌, Option,
  none, some, List, [], ◌∷◌, ◌++◌, ltb, ◌==◌, any, ◌∙◌, find-holds, Bool-cases,
}
use defiant_fleet_ops.Procurement.{Line, succeeds}
use defiant_fleet_ops.Procurement.Listing.{insert_root, sorted_roots}
use defiant_fleet_ops.Procurement.Listing.Collected.{NumbersDiffer}
use defiant_fleet_ops.Procurement.Listing.Walked.{Walks, stops, goes}

-- A version stands behind the one that it supersedes, and a root behind every smaller line number.
abbrev pub Continues : Option Line → Line → Type 0
Continues none l = l.supersedes_line_id ≡ none
Continues (some a) l =
    ((l.supersedes_line_id ≡ some a.id) × (l.line_number ≡ a.line_number))
    ⊎ ((l.supersedes_line_id ≡ none) × (a.line_number < l.line_number))

abbrev pub IsRootToLeaf : Option Line → List Line → Type 0
IsRootToLeaf before [] = Unit
IsRootToLeaf before (l ∷ lines) = Continues before l × IsRootToLeaf (some l) lines

abbrev pub IsAscending : ℕ → List Line → Type 0
IsAscending n [] = Unit
IsAscending n (r ∷ roots) = (n ≤ r.line_number) × IsAscending (suc r.line_number) roots

insert_root-IsAscending :
    (l : Line) (n : ℕ) (roots : List Line)
    → IsAscending n roots
    → n ≤ l.line_number
    → any (λ k. k.line_number == l.line_number) roots ≡ false
    → IsAscending n (insert_root l roots)
unfolding insert_root
insert_root-IsAscending l n [] a h d = (h, tt)
insert_root-IsAscending l n (k ∷ roots) (first, a) h d =
    elim (Bool-cases (ltb l.line_number k.line_number)) [
      | inl below ↦ rw below (h, (ground (arith, below), a))
      | inr above ↦
          let higher : suc k.line_number ≤ l.line_number = ground (arith, above, d) in
          rw above (
            first,
            insert_root-IsAscending l (suc k.line_number) roots a higher (ground (arith, d)),
          )
    ]

any-insert_root :
    (p : Line → Bool) (l : Line) (roots : List Line)
    → any p (insert_root l roots) ≡ (p l || any p roots)
unfolding insert_root
any-insert_root p l [] = refl
any-insert_root p l (k ∷ roots) = ground (arith, any-insert_root p l roots)

pub any-sorted_roots :
    (p : Line → Bool) (roots : List Line) → any p (sorted_roots roots) ≡ any p roots
unfolding sorted_roots
any-sorted_roots p [] = refl
any-sorted_roots p (l ∷ roots) =
    ground (arith, any-insert_root p l (sorted_roots roots), any-sorted_roots p roots)

pub sorted_roots-IsAscending :
    (roots : List Line) → NumbersDiffer roots → IsAscending zero (sorted_roots roots)
unfolding sorted_roots
sorted_roots-IsAscending [] d = tt
sorted_roots-IsAscending (l ∷ roots) (new, d) =
    insert_root-IsAscending l zero (sorted_roots roots) (sorted_roots-IsAscending roots d)
      (omega arith) (any-sorted_roots (λ k. k.line_number == l.line_number) roots ∙ new)

succeeds-some : (i : ℕ) (l : Line) → succeeds i l ≡ true → l.supersedes_line_id ≡ some i
succeeds-some i l h = ground arith

Walks-number :
    (successors : List Line) (n : ℕ) (seen : List ℕ) (row : Line) (rows : List Line)
    (after : List ℕ)
    → Walks successors n seen row rows after
    → row.line_number ≡ n
Walks-number successors n seen row rows after (stops _ _ new number last) = number
Walks-number successors n seen row rows after (goes _ _ next rest _ new number found w) = number

-- A walk followed by what may follow any row of its line.
pub Walks-IsRootToLeaf :
    (successors : List Line) (n : ℕ) (seen : List ℕ) (row : Line) (rows : List Line)
    (after : List ℕ) (before : Option Line) (rest : List Line)
    → Continues before row
    → ((a : Line) → a.line_number ≡ n → IsRootToLeaf (some a) rest)
    → Walks successors n seen row rows after
    → IsRootToLeaf before (rows ++ rest)
Walks-IsRootToLeaf successors n seen row rows after before rest c k (stops _ _ new number last) =
    (c, k row number)
Walks-IsRootToLeaf successors n seen row rows after before rest c k
      (goes _ _ next more _ new number found w) =
    (
      c,
      Walks-IsRootToLeaf successors n (row.id ∷ seen) next more after (some row) rest
          (inl (
            succeeds-some row.id next (find-holds (succeeds row.id) successors next found),
            Walks-number successors n (row.id ∷ seen) next more after w ∙ sym number,
          ))
          k w,
    )
