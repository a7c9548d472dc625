-- ===== src/Procurement/Listing/Visited.antt =====
-- The walks from all roots, one after the other.
use mathlib.Core.Path.{subst}
use defiant_fleet_ops.Base.{
  ℕ, zero, suc, ◌<◌, ◌≤◌, ◌≡◌, inl, inr, refl, arith, Bool, true, false, ◌||◌, Option, none, some,
  List, [], ◌∷◌, ◌++◌, ◌==◌, any, find, has, length, All, All-map, Bool-cases, ok, unseen-le-length,
  names, IsDistinct, held_present, ==_refl, ==_eq,
}
use defiant_fleet_ops.Procurement.{Line, succeeds}
use defiant_fleet_ops.Procurement.Lineage.{line_key, IsVersion}
use defiant_fleet_ops.Procurement.Listing.{visit}
use defiant_fleet_ops.Procurement.Listing.Ends.{line_id, IsPresent, walk-ends}
use defiant_fleet_ops.Procurement.Listing.Walked.{Seen, walk-accepted}
use defiant_fleet_ops.Procurement.Listing.Derivations.{
  IsNew, Walks-first, Walks-seen, Walks-IsNew, Walks-IsDistinct, Walks-closed,
}
use defiant_fleet_ops.Procurement.Listing.Ordered.{
  Continues, IsRootToLeaf, IsAscending, Walks-IsRootToLeaf,
}

any-++ : (p : Line → Bool) (xs ys : List Line) → any p (xs ++ ys) ≡ (any p xs || any p ys)
any-++ p [] ys = refl
any-++ p (x ∷ xs) ys = ground (arith, any-++ p xs ys)

All-++ : (P : Line → Type 0) (xs ys : List Line) → All P xs → All P ys → All P (xs ++ ys)
All-++ P [] ys hx hy = hy
All-++ P (x ∷ xs) ys hx hy = (hx.0, All-++ P xs ys hx.1 hy)

-- What is new after a walk was new before it, and is not in the walk.
IsNew-before :
    (rows : List Line) (seen after : List ℕ)
    → ((i : ℕ) → has i after ≡ (any (names line_key i) rows || has i seen))
    → (l : Line) → IsNew after l
    → IsNew seen l
IsNew-before rows seen after h l new = ground (arith, h l.id, new)

absent_after :
    (i : ℕ) (after : List ℕ) (rest : List Line)
    → has i after ≡ true
    → All (IsNew after) rest
    → any (names line_key i) rest ≡ false
absent_after i after [] h new = refl
absent_after i after (l ∷ rest) h (first, new) =
    let later = absent_after i after rest h new in
    elim (Bool-cases (l.id == i)) [
      | inr other ↦ ground (arith, other, later)
      | inl clash ↦ let same = ==_eq l.id i clash in ground (arith, h, first, same)
    ]

IsDistinct-++ :
    (rows rest : List Line) (after : List ℕ)
    → IsDistinct line_key rows
    → IsDistinct line_key rest
    → ((i : ℕ) → any (names line_key i) rows ≡ true → has i after ≡ true)
    → All (IsNew after) rest
    → IsDistinct line_key (rows ++ rest)
IsDistinct-++ [] rest after d e h new = e
IsDistinct-++ (l ∷ rows) rest after (first, d) e h new =
    let absent = absent_after l.id after rest (h l.id (ground (arith, ==_refl l.id))) new in
    (
      ground (arith, any-++ (names line_key l.id) rows rest, first, absent),
      IsDistinct-++ rows rest after d e (λ i k. h i (ground (arith, k))) new,
    )

raised : (lines : List Line) (m n : ℕ) → m ≤ n → (i : ℕ) → Seen lines m zero i → Seen lines n zero i
raised lines m n le i (x, held, same, inl below) = (x, held, same, inl (omega (arith, le, below)))
raised lines m n le i (x, held, same, inr (number, (k, depth, less))) = absurd (omega (arith, less))

-- What is known of the listing of some roots.
pub record Visits (lines successors : List Line) (seen : List ℕ) (roots out : List Line)
    : Type 0 where
  pub versions : All (IsVersion lines) out
  pub distinct : IsDistinct line_key out
  pub new : All (IsNew seen) out
  pub rooted : (i : ℕ) → any (names line_key i) roots ≡ true → any (names line_key i) out ≡ true
  pub closed :
      (i : ℕ) (l : Line)
      → find (succeeds i) successors ≡ some l
      → any (names line_key i) out ≡ true
      → any (names line_key l.id) out ≡ true

-- What may stand before the first of the roots.
abbrev pub Precedes : Option Line → ℕ → Type 0
Precedes none n = Unit
Precedes (some a) n = a.line_number < n

Continues-root :
    (before : Option Line) (n : ℕ) (root : Line)
    → Precedes before n
    → n ≤ root.line_number
    → root.supersedes_line_id ≡ none
    → Continues before root
Continues-root none n root p h r = r
Continues-root (some a) n root p h r = inr (r, omega (arith, p, h))

-- A version of the table that supersedes none.
abbrev pub IsRoot : List Line → Line → Type 0
IsRoot lines r = IsVersion lines r × (r.supersedes_line_id ≡ none)

module _ (lines successors : List Line) (known : All (IsVersion lines) successors) where
  version-IsPresent : (l : Line) → IsVersion lines l → IsPresent lines l
  version-IsPresent l (k, held, depth) = held_present line_key lines l held

  pub visit-accepted :
      (fuel n : ℕ) (seen : List ℕ) (roots : List Line)
      → length lines < fuel
      → IsAscending n roots
      → All (IsRoot lines) roots
      → All (Seen lines n zero) seen
      → (out : List Line) × (visit fuel successors seen roots ≡ some (ok out))
        × Visits lines successors seen roots out
        × ((before : Option Line) → Precedes before n → IsRootToLeaf before out)
  unfolding visit
  visit-accepted fuel n seen [] enough asc all before = (
    [],
    refl,
    record {
      versions = tt;
      distinct = tt;
      new = tt;
      rooted = λ i h. h;
      closed = λ i l s h. ground (arith, h);
    },
    λ b p. tt,
  )
  visit-accepted fuel n seen (root ∷ roots) enough (low, asc) (((k, held, depth), rootless), all)
        before =
      let bounded = unseen-le-length line_id lines seen in
      let ends =
        walk-ends lines successors (All-map version-IsPresent successors known) fuel
          root.line_number seen root (version-IsPresent root (k, held, depth))
          (omega (arith, bounded, enough)) in
      let (w, walked, steps, after, versions) =
        walk-accepted lines successors known fuel root.line_number zero seen root held rootless refl
          (All-map (raised lines n root.line_number low) seen before) ends in
      let (rest, visited, v, ordered) =
        visit-accepted fuel (suc root.line_number) w.1 roots enough asc all after in
      let seen_after =
        λ (i : ℕ). Walks-seen successors root.line_number seen root w.0 w.1 i steps in
      (
        w.0 ++ rest,
        rw (visit, walked, visited) refl,
        record {
          versions = All-++ (IsVersion lines) w.0 rest versions v.versions;
          distinct =
              IsDistinct-++ w.0 rest w.1
                (Walks-IsDistinct successors root.line_number seen root w.0 w.1 steps) v.distinct
                (λ i h. let e = seen_after i in ground (arith, e, h)) v.new;
          new =
              All-++ (IsNew seen) w.0 rest
                (Walks-IsNew successors root.line_number seen root w.0 w.1 steps)
                (All-map (IsNew-before w.0 seen w.1 seen_after) rest v.new);
          rooted = λ i h. elim (Bool-cases (root.id == i)) [
            | inl here ↦
                let first = Walks-first successors root.line_number seen root w.0 w.1 steps in
                let there =
                  subst (λ (j : ℕ). any (names line_key j) w.0 ≡ true) (==_eq root.id i here)
                    first in
                ground (arith, any-++ (names line_key i) w.0 rest, there)
            | inr later ↦
                let there = v.rooted i (ground (arith, h, later)) in
                ground (arith, any-++ (names line_key i) w.0 rest, there)
          ];
          closed = λ i l s h. elim (Bool-cases (any (names line_key i) w.0)) [
            | inl here ↦
                let there =
                  Walks-closed successors root.line_number seen root w.0 w.1 i l s steps here in
                ground (arith, any-++ (names line_key l.id) w.0 rest, there)
            | inr later ↦
                let there =
                  v.closed i l s (ground (arith, any-++ (names line_key i) w.0 rest, h, later)) in
                ground (arith, any-++ (names line_key l.id) w.0 rest, there)
          ];
        },
        λ b p.
            Walks-IsRootToLeaf successors root.line_number seen root w.0 w.1 b rest
              (Continues-root b n root p low rootless)
              (λ a number. ordered (some a) (omega (arith, number))) steps,
      )
