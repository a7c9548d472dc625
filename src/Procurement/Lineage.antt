-- ===== src/Procurement/Lineage.antt =====
-- The lineages that the guard of purchase_order_lines keeps: what each new row has found of the older ones.
use mathlib.Core.Path.{subst}
use defiant_fleet_ops.Base.{
  ℕ, zero, suc, ◌≡◌, inl, inr, refl, sym, ap, ◌∙◌, arith, Bool, true, false, ◌&&◌, Option, none,
  some, List, [], ◌∷◌, ◌==◌, any, find, keep, is_none, All, find-All, find-holds, Bool-cases,
  ==_refl, ==_eq, IsDistinct, IsHeld, held_present, names,
}
use defiant_fleet_ops.Procurement.{Line, succeeds}

abbrev pub line_key : Line → ℕ
line_key l = l.id

abbrev pub is_root_like : Line → Line → Bool
is_root_like l q =
    is_none q.supersedes_line_id && (q.po_id == l.po_id && q.line_number == l.line_number)

abbrev pub is_lineal : Line → ℕ → Line → Bool
is_lineal l p q = q.po_id == l.po_id && (q.line_number == l.line_number && q.id == p)

-- A root is the only one of its line number; an amendment supersedes an older version of its line that
-- nothing else supersedes.
abbrev pub IsPlaced : Line → List Line → Option ℕ → Type 0
IsPlaced l lines none = any (is_root_like l) lines ≡ false
IsPlaced l lines (some p) = (any (is_lineal l p) lines ≡ true) × (any (succeeds p) lines ≡ false)

abbrev pub IsLineage : List Line → Type 0
IsLineage [] = Unit
IsLineage (l ∷ lines) =
    (any (names line_key l.id) lines ≡ false)
    × IsPlaced l lines l.supersedes_line_id
    × IsLineage lines

-- The lineage of the lines of one order.
any-keep-false :
    (p q : Line → Bool) (lines : List Line) → any p lines ≡ false → any p (keep q lines) ≡ false
any-keep-false p q [] h = refl
any-keep-false p q (l ∷ lines) h = ground (arith, any-keep-false p q lines)

any-keep-true :
    (p q : Line → Bool) (lines : List Line)
    → ((x : Line) → p x ≡ true → q x ≡ true)
    → any p lines ≡ true
    → any p (keep q lines) ≡ true
any-keep-true p q [] k h = h
any-keep-true p q (l ∷ lines) k h = elim (Bool-cases (p l)) [
  | inl here ↦ let kept = k l here in rw (kept, here) refl
  | inr later ↦ let rest = any-keep-true p q lines k (ground (arith, later)) in ground (arith, rest)
]

IsPlaced-keep :
    (po_id : ℕ) (l : Line) (lines : List Line) (o : Option ℕ)
    → (l.po_id == po_id) ≡ true
    → IsPlaced l lines o
    → IsPlaced l (keep (λ q. q.po_id == po_id) lines) o
IsPlaced-keep po_id l lines none own h =
    any-keep-false (is_root_like l) (λ q. q.po_id == po_id) lines h
IsPlaced-keep po_id l lines (some p) own h =
    let same = ==_eq l.po_id po_id own in
    (
      any-keep-true (is_lineal l p) (λ q. q.po_id == po_id) lines
          (λ x lineal.
            let there : x.po_id ≡ l.po_id = ground (arith, lineal) in ground (arith, there, same))
          h.0,
      any-keep-false (succeeds p) (λ q. q.po_id == po_id) lines h.1,
    )

pub IsLineage-keep :
    (po_id : ℕ) (lines : List Line)
    → IsLineage lines
    → IsLineage (keep (λ l. l.po_id == po_id) lines)
IsLineage-keep po_id [] h = tt
IsLineage-keep po_id (l ∷ lines) (new, placed, h) = elim (Bool-cases (l.po_id == po_id)) [
  | inr other ↦ rw other (IsLineage-keep po_id lines h)
  | inl own ↦ rw own (
    any-keep-false (names line_key l.id) (λ q. q.po_id == po_id) lines new,
    IsPlaced-keep po_id l lines l.supersedes_line_id own placed,
    IsLineage-keep po_id lines h,
  )
]

pub IsLineage-IsDistinct : (lines : List Line) → IsLineage lines → IsDistinct line_key lines
IsLineage-IsDistinct [] h = tt
IsLineage-IsDistinct (l ∷ lines) (new, placed, h) = (new, IsLineage-IsDistinct lines h)

-- How far a version is from its root, by versions of the table that have its line number.
abbrev pub HasDepth : List Line → Line → ℕ → Type 0
HasDepth lines l zero = l.supersedes_line_id ≡ none
HasDepth lines l (suc k) =
    (q : Line) × (l.supersedes_line_id ≡ some q.id)
    × IsHeld line_key lines q
    × (q.line_number ≡ l.line_number)
    × HasDepth lines q k

IsHeld-kept :
    (r q : Line) (lines : List Line)
    → any (names line_key r.id) lines ≡ false
    → IsHeld line_key lines q
    → IsHeld line_key (r ∷ lines) q
IsHeld-kept r q lines new h = elim (Bool-cases (r.id == q.id)) [
  | inr other ↦ rw other h
  | inl same ↦
      let there = held_present line_key lines q h in
      let same_id = ==_eq r.id q.id same in
      let absent = subst (λ (i : ℕ). any (names line_key i) lines ≡ false) same_id new in
      ground (arith, there, absent)
]

HasDepth-kept :
    (r l : Line) (lines : List Line) (k : ℕ)
    → any (names line_key r.id) lines ≡ false
    → HasDepth lines l k
    → HasDepth (r ∷ lines) l k
HasDepth-kept r l lines zero new h = h
HasDepth-kept r l lines (suc k) new (q, s, held, n, d) =
    (q, s, IsHeld-kept r q lines new held, n, HasDepth-kept r q lines k new d)

-- A version of the table, held by its identifier, at some depth.
abbrev pub IsVersion : List Line → Line → Type 0
IsVersion lines l = (k : ℕ) × IsHeld line_key lines l × HasDepth lines l k

Versions-kept :
    (r : Line) (lines ls : List Line)
    → any (names line_key r.id) lines ≡ false
    → All (IsVersion lines) ls
    → All (IsVersion (r ∷ lines)) ls
Versions-kept r lines [] new h = tt
Versions-kept r lines (l ∷ ls) new ((k, held, d), h) = (
  (k, IsHeld-kept r l lines new held, HasDepth-kept r l lines k new d),
  Versions-kept r lines ls new h,
)

pub any-find :
    (l : Line) (p : ℕ) (lines : List Line)
    → IsDistinct line_key lines
    → any (is_lineal l p) lines ≡ true
    → (q : Line) × (find (names line_key p) lines ≡ some q) × (is_lineal l p q ≡ true)
any-find l p [] d h = ground arith
any-find l p (q ∷ lines) (new, d) h = elim (Bool-cases (is_lineal l p q)) [
  | inl here ↦ (q, ground (arith, here), here)
  | inr later ↦
      let (x, found, lineal) = any-find l p lines d (ground (arith, later)) in
      let same = find-holds (names line_key p) lines x found in
      elim (Bool-cases (q.id == p)) [
        | inr other ↦ (x, rw other found, lineal)
        | inl clash ↦
            let there = held_present line_key lines x (
              subst (λ (i : ℕ). find (names line_key i) lines ≡ some x) (sym (==_eq x.id p same))
                found) in
            let same_id = ==_eq q.id p clash ∙ sym (==_eq x.id p same) in
            let absent = subst (λ (i : ℕ). any (names line_key i) lines ≡ false) same_id new in
            ground (arith, there, absent)
      ]
]

new_depth :
    (l : Line) (lines : List Line) (o : Option ℕ)
    → l.supersedes_line_id ≡ o
    → IsDistinct line_key lines
    → IsPlaced l lines o
    → All (IsVersion lines) lines
    → (k : ℕ) × HasDepth lines l k
new_depth l lines none s d h all = (zero, s)
new_depth l lines (some p) s d (lineal, unique) all =
    let (q, found, holds) = any-find l p lines d lineal in
    let (k, held, depth) = find-All (IsVersion lines) (names line_key p) lines q all found in
    let same_id : q.id ≡ p = ground (arith, holds) in
    let same_number : q.line_number ≡ l.line_number = ground (arith, holds) in
    (suc k, (q, s ∙ ap some (sym same_id), held, same_number, depth))

-- Each row of a lineage leads to a root.
pub IsLineage-IsVersion : (lines : List Line) → IsLineage lines → All (IsVersion lines) lines
IsLineage-IsVersion [] h = tt
IsLineage-IsVersion (l ∷ lines) (new, placed, h) =
    let all = IsLineage-IsVersion lines h in
    let (k, depth) =
      new_depth l lines l.supersedes_line_id refl (IsLineage-IsDistinct lines h) placed all in
    (
      (k, ground (arith, ==_refl l.id), HasDepth-kept l l lines k new depth),
      Versions-kept l lines lines new all,
    )
