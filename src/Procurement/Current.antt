-- ===== src/Procurement/Current.antt =====
-- The current expectation of each line of an order, as a map from order and line number, which
-- create_line updates at one key.
use mathlib.Core.Path.{subst}
use defiant_fleet_ops.Base.{
  some_same, ok_same, ℕ, ◌≡◌, inl, inr, refl, sym, ap, ◌∙◌, arith, Bool, true, false, ◌&&◌, Option,
  none, some, List, [], ◌∷◌, ◌==◌, any, find, is_none, All, All-map, Bool-cases, ok, ==_refl, ==_eq,
  names, IsHeld, >>=-eq-ok, if◌then◌else◌,
}
use defiant_fleet_ops.Ledger.{Session}
use defiant_fleet_ops.Procurement.{Line, Reference, Tables, succeeds, insert_line}
use defiant_fleet_ops.Procurement.Services.{
  is_active, get_order, get_line, number_of, new_line, LineValues, require_draft, require_issued,
  create_line,
}
use defiant_fleet_ops.Procurement.Lineage.{
  line_key, is_lineal, IsPlaced, IsLineage, IsVersion, IsLineage-IsDistinct, IsLineage-IsVersion,
  any-find,
}
use defiant_fleet_ops.Procurement.Rows.{constraints-eq-ok, insert_line-IsPlaced}
use defiant_fleet_ops.Procurement.Invariant.{IsSound}

abbrev pub is_line : ℕ → ℕ → Line → Bool
is_line po_id number l = l.po_id == po_id && l.line_number == number

-- The active version of a line.
unfoldable pub current : List Line → ℕ → ℕ → Option Line
unfolding is_active
current lines po_id number = find (λ l. is_line po_id number l && is_active lines l) lines

lineal_named :
    (l : Line) (p : ℕ) (lines : List Line)
    → any (is_lineal l p) lines ≡ true
    → any (names line_key p) lines ≡ true
lineal_named l p [] h = ground arith
lineal_named l p (q ∷ lines) h = elim (Bool-cases (is_lineal l p q)) [
  | inl here ↦ ground (arith, here)
  | inr later ↦ let rest = lineal_named l p lines (ground (arith, later)) in ground (arith, rest)
]

placed_named :
    (l : Line) (lines : List Line) (i : ℕ) (o : Option ℕ)
    → l.supersedes_line_id ≡ o
    → IsPlaced l lines o
    → any (names line_key i) lines ≡ false
    → succeeds i l ≡ false
placed_named l lines i none s h new = ground (arith, s)
placed_named l lines i (some p) s (lineal, unique) new = elim (Bool-cases (p == i)) [
  | inr other ↦ ground (arith, s, other)
  | inl same ↦
      let there = lineal_named l p lines lineal in
      let absent =
        subst (λ (k : ℕ). any (names line_key k) lines ≡ false) (sym (==_eq p i same)) new in
      ground (arith, there, absent)
]

-- What no version has as identifier, none supersedes.
not_succeeded :
    (i : ℕ) (lines : List Line)
    → IsLineage lines
    → any (names line_key i) lines ≡ false
    → any (succeeds i) lines ≡ false
not_succeeded i [] h new = refl
not_succeeded i (l ∷ lines) (fresh, placed, h) new =
    let own = placed_named l lines i l.supersedes_line_id refl placed (ground arith) in
    let rest = not_succeeded i lines h (ground arith) in ground (arith, own, rest)

any-weaker :
    (p q : Line → Bool) (lines : List Line)
    → any q lines ≡ false
    → any (λ x. p x && q x) lines ≡ false
any-weaker p q [] h = refl
any-weaker p q (l ∷ lines) h =
    let rest = any-weaker p q lines (ground arith) in ground (arith, rest)

new_active : (l : Line) (lines : List Line) → IsLineage (l ∷ lines) → is_active (l ∷ lines) l ≡ true
unfolding is_active
new_active l lines (fresh, placed, h) =
    let own = placed_named l lines l.id l.supersedes_line_id refl placed fresh in
    let rest =
      any-weaker (λ q. q.po_id == l.po_id) (succeeds l.id) lines
        (not_succeeded l.id lines h fresh) in
    ground (arith, own, rest)

-- A version of another line is not what a new row supersedes.
not_superseded :
    (l q : Line) (lines : List Line) (o : Option ℕ)
    → l.supersedes_line_id ≡ o
    → IsLineage lines
    → IsPlaced l lines o
    → IsHeld line_key lines q
    → is_line l.po_id l.line_number q ≡ false
    → succeeds q.id l ≡ false
not_superseded l q lines none s h placed held other = ground (arith, s)
not_superseded l q lines (some p) s h (lineal, unique) held other = elim (Bool-cases (p == q.id)) [
  | inr differs ↦ ground (arith, s, differs)
  | inl same ↦
      let (x, found, holds) = any-find l p lines (IsLineage-IsDistinct lines h) lineal in
      let same_id = ==_eq p q.id same in
      let is_x =
        some_same x q
          (sym (subst (λ (k : ℕ). find (names line_key k) lines ≡ some x) same_id found) ∙ held) in
      let there = subst (λ (y : Line). is_lineal l p y ≡ true) is_x holds in
      ground (arith, there, other)
]

find-same :
    (p q : Line → Bool) (lines : List Line)
    → All (λ x. p x ≡ q x) lines
    → find p lines ≡ find q lines
find-same p q [] h = refl
find-same p q (l ∷ lines) (first, h) = ground (arith, first, find-same p q lines h)

activity_kept :
    (l q : Line) (lines : List Line) (po_id number : ℕ)
    → IsLineage (l ∷ lines)
    → is_line po_id number l ≡ false
    → IsVersion lines q
    → (is_line po_id number q && is_active (l ∷ lines) q)
      ≡ (is_line po_id number q && is_active lines q)
unfolding is_active
activity_kept l q lines po_id number (fresh, placed, h) other (k, held, depth) =
    elim (Bool-cases (is_line po_id number q)) [
      | inr elsewhere ↦ ground (arith, elsewhere)
      | inl here ↦
          let apart : is_line l.po_id l.line_number q ≡ false = ground (arith, other, here) in
          let free = not_superseded l q lines l.supersedes_line_id refl h placed held apart in
          ground (arith, free)
    ]

-- A new version becomes the current one of its line, and no other line changes.
current-added :
    (l : Line) (lines : List Line) (po_id number : ℕ)
    → IsLineage (l ∷ lines)
    → current (l ∷ lines) po_id number
      ≡ (if is_line po_id number l then some l else current lines po_id number)
unfolding current
current-added l lines po_id number lineage = elim (Bool-cases (is_line po_id number l)) [
  | inl here ↦ let active = new_active l lines lineage in rw (current, here, active) refl
  | inr other ↦
      let (fresh, placed, h) = lineage in
      let same =
        find-same (λ q. is_line po_id number q && is_active (l ∷ lines) q)
          (λ q. is_line po_id number q && is_active lines q) lines
          (All-map (λ q v. activity_kept l q lines po_id number lineage other v) lines
            (IsLineage-IsVersion lines h)) in
      rw (current, other) same
]

first_read :
    (t : Tables) (l : Line) (read : Line × Bool)
    → get_line (record t { lines = l ∷ t.lines }) l.po_id l.id ≡ ok read
    → (l ≡ read.0) × (is_active (l ∷ t.lines) l ≡ read.1)
unfolding get_line
first_read t l read h =
    let found : find (λ (q : Line). q.po_id == l.po_id && q.id == l.id) (l ∷ t.lines) ≡ some l =
      ground (arith, ==_refl l.po_id, ==_refl l.id) in
    (ground (arith, found), ground (arith, found))

-- A root or an amendment that create_line accepts is returned as active, with the identifier, the order
-- and the predecessor that were given; it becomes the current version of its line number in its order,
-- and the current version of every other line of every order is what it was.
pub create_line-current :
    (s : Session) (r : Reference) (now : ℕ) (t t' : Tables) (id po_id who : ℕ)
    (predecessor_id : Option ℕ) (v : LineValues) (row : Line × Bool)
    → IsSound t
    → create_line s r now t id po_id who predecessor_id v ≡ ok (row, t')
    → (row.1 ≡ true)
      × (row.0.id ≡ id)
      × (row.0.po_id ≡ po_id)
      × (row.0.supersedes_line_id ≡ predecessor_id)
      × ((po number : ℕ)
          → current t'.lines po number
            ≡ (if is_line po number row.0 then some row.0 else current t.lines po number))
unfolding create_line
create_line-current s r now t t' id po_id who predecessor_id v row sound h =
    let (o, got, h1) = >>=-eq-ok (get_order t po_id) _ (constraints-eq-ok _ (row, t') h) in
    let (done, state, h2) =
      >>=-eq-ok (if is_none predecessor_id then require_draft o else require_issued o) _ h1 in
    let (number, numbered, h3) = >>=-eq-ok (number_of t po_id predecessor_id v) _ h2 in
    let (lines, inserted, h4) =
      >>=-eq-ok (insert_line s r now (new_line id po_id who predecessor_id number v) t) _ h3 in
    let (read, got_row, h5) = >>=-eq-ok (get_line (record t { lines = lines }) po_id id) _ h4 in
    let (l, added, same_id, same_po, _, same_prior, fresh, placed, bounded) =
      insert_line-IsPlaced s r now (new_line id po_id who predecessor_id number v) t lines
        inserted in
    let pair = ok_same (read, record t { lines = lines }) (row, t') h5 in
    let read_row = ap (λ (x : (Line × Bool) × Tables). x.0) pair in
    let result = ap (λ (x : (Line × Bool) × Tables). x.1.lines) pair in
    let got_l =
      ap (λ (i : ℕ). get_line (record t { lines = l ∷ t.lines }) l.po_id i) same_id
      ∙ ap (λ (k : ℕ). get_line (record t { lines = l ∷ t.lines }) k id) same_po
      ∙ ap (λ (x : List Line). get_line (record t { lines = x }) po_id id) added
      ∙ got_row
      ∙ ap ok read_row in
    let (is_row, active) = first_read t l row got_l in
    let lineage : IsLineage (l ∷ t.lines) = (fresh, placed, sound.lineage) in
    (
      sym active ∙ new_active l t.lines lineage,
      ap (λ (x : Line). x.id) (sym is_row) ∙ same_id,
      ap (λ (x : Line). x.po_id) (sym is_row) ∙ same_po,
      ap (λ (x : Line). x.supersedes_line_id) (sym is_row) ∙ same_prior,
      λ po n.
          subst
            (λ (x : Line).
              current t'.lines po n ≡ (if is_line po n x then some x else current t.lines po n))
            is_row
            (ap (λ (x : List Line). current x po n) (sym (added ∙ result))
              ∙ current-added l t.lines po n lineage),
    )
