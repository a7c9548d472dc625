-- ===== src/Space.antt =====
-- Facilities and locations: server/fleetops/domain/space.py, the constraints of
-- server/alembic/versions/0004_space.py, and the guard against cycles of 0005_space_cycle_guard.py.
pub mod Ancestry
pub mod Chains
pub mod Path
pub mod Insertion
use defiant_fleet_ops.Base.{
  ℕ, zero, suc, Bool, true, false, not, ◌&&◌, ◌||◌, Option, none, some, List, [], ◌∷◌, leb, ◌==◌,
  any, find, has, length, map, matches, is_some, is_none, Result, ok, err, guard, ◌>>=◌, ◌>>◌,
  Failure, sql, unique_violation, foreign_key_violation, check_violation, not_null_violation,
  insufficient_privilege, space_not_found, space_conflict, space_invalid, space_hierarchy_invalid,
  if◌then◌else◌,
}
use mathlib.Core.List.{reverse}
use defiant_fleet_ops.Text.{Text, text_eq, btrim}
use defiant_fleet_ops.Ledger.{Session, performer}

pub data LocationKind : Type 0 where
  site room rack bin station dock vehicle other : LocationKind

pub record Facility : Type 0 where
  pub id : ℕ
  pub name : Text
  pub timezone : Text
  pub active : Bool
  pub created_by_actor_id : ℕ

pub record Location : Type 0 where
  pub id : ℕ
  pub facility_id : ℕ
  pub parent_location_id : Option ℕ
  pub code : Text
  pub name : Text
  pub kind : LocationKind
  pub active : Bool
  pub created_by_actor_id : ℕ

-- The newest row first.
pub record Space : Type 0 where
  pub facilities : List Facility
  pub locations : List Location

-- length(btrim(...)) BETWEEN 1 AND 200
unfoldable pub name_admitted : Text → Bool
unfolding btrim
name_admitted s = leb 1 (length (btrim s)) && leb (length (btrim s)) 200

-- The key of a composite reference to a location: its facility and its identifier.
abbrev pub is_at : ℕ → ℕ → Location → Bool
is_at facility_id id l = l.id == id && l.facility_id == facility_id

-- The row that a location names as its parent, in the location's own facility.
unfoldable pub parent_of : List Location → Location → Option Location
parent_of t l = elim l.parent_location_id [ none ↦ none | some p ↦ find (is_at l.facility_id p) t ]

-- The recursive part of both queries: the rows above `l`, each with `is_cycle`. A row that was visited
-- before is the last. `none` is that the fuel ran out.
unfoldable pub ancestry : ℕ → List Location → List ℕ → Location → Option (List (Location × Bool))
unfolding parent_of
ancestry zero t visited l = none
ancestry (suc fuel) t visited l = elim (parent_of t l) [
  | none ↦ some []
  | some p ↦ elim (has p.id visited) [
    | true ↦ some ((p, true) ∷ [])
    | false ↦ elim (ancestry fuel t (p.id ∷ visited) p) [
      | none ↦ none
      | some rows ↦ some ((p, false) ∷ rows)
    ]
  ]
]

unfoldable pub ancestors : List Location → Location → List (Location × Bool)
unfolding ancestry
ancestors t l = elim (ancestry (suc (length t)) t (l.id ∷ []) l) [ none ↦ [] | some rows ↦ rows ]

abbrev pub is_cyclic : List (Location × Bool) → Bool
is_cyclic rows = any (λ r. r.1) rows

-- The first row of ORDER BY depth DESC.
abbrev pub top : Location → List (Location × Bool) → Location
top l [] = l
top l ((p, cyclic) ∷ rows) = top p rows

-- The columns of the rows below the target, without the recursion's own.
abbrev pub rows_of : List (Location × Bool) → List Location
rows_of = map (λ r. r.0)

unfoldable pub location_path : List Location → ℕ → Result (List Location)
unfolding ancestors
location_path t location_id = elim (find (λ l. l.id == location_id) t) [
  | none ↦ err space_not_found
  | some l ↦
      (guard (not (is_cyclic (ancestors t l) || is_some (top l (ancestors t l)).parent_location_id))
          space_hierarchy_invalid
        >> ok (reverse (l ∷ rows_of (ancestors t l))))
]

-- The classes of `_space_constraints`; any other failure is raised as it is.
unfoldable pub constraints {ℓ} : {A : Type ℓ} → Result A → Result A
constraints (err (sql unique_violation)) = err space_conflict
constraints (err (sql foreign_key_violation)) = err space_invalid
constraints (err (sql check_violation)) = err space_invalid
constraints (err (sql not_null_violation)) = err space_invalid
constraints r = r

-- What holds of a row as it is written: its CHECKs, then its unique keys.
unfoldable pub write_row : Location → List Location → Result (List Location)
unfolding name_admitted
write_row l t = do
  guard (not (matches l.parent_location_id (some l.id))) (sql check_violation)
  guard (name_admitted l.code && name_admitted l.name) (sql check_violation)
  guard (not (any (λ r. r.id == l.id) t)) (sql unique_violation)
  guard (not (any (λ r. r.facility_id == l.facility_id && text_eq r.code l.code) t))
      (sql unique_violation)
  ok (l ∷ t)

unfoldable pub write_rows : List Location → List Location → Result (List Location)
unfolding write_row
write_rows [] t = ok t
write_rows (l ∷ rows) t = do t' ← write_row l t; write_rows rows t'

-- The AFTER ROW triggers of one row, which see every row of the statement: its references,
-- enforce_location_acyclic and enforce_authenticated_creator.
unfoldable pub after_row : Session → List Facility → List Location → Location → Result (Unit {0})
unfolding parent_of ancestors
after_row s facilities t l = do
  guard (any (λ f. f.id == l.facility_id) facilities) (sql foreign_key_violation)
  guard (is_none l.parent_location_id || is_some (parent_of t l)) (sql foreign_key_violation)
  guard (is_none l.parent_location_id || not (is_cyclic (ancestors t l))) (sql check_violation)
  who ← performer s
  guard (l.created_by_actor_id == who) (sql insufficient_privilege)

unfoldable pub after_rows :
    Session → List Facility → List Location → List Location → Result (Unit {0})
unfolding after_row
after_rows s facilities t [] = ok tt
after_rows s facilities t (l ∷ rows) = after_row s facilities t l >> after_rows s facilities t rows

-- INSERT INTO locations of several rows.
unfoldable pub insert_locations : Session → List Location → Space → Result Space
unfolding write_rows after_rows
insert_locations s rows space = do
  t ← write_rows rows space.locations
  after_rows s space.facilities t rows
  ok record space { locations = t }

unfoldable pub insert_facility : Session → Facility → Space → Result Space
unfolding name_admitted
insert_facility s f space = do
  guard (name_admitted f.name && name_admitted f.timezone) (sql check_violation)
  guard (not (any (λ r. r.id == f.id) space.facilities)) (sql unique_violation)
  who ← performer s
  guard (f.created_by_actor_id == who) (sql insufficient_privilege)
  ok record space { facilities = f ∷ space.facilities }

unfoldable pub create_location : Session → Location → Space → Result (Location × Space)
unfolding constraints insert_locations
create_location s l space =
    constraints (insert_locations s (l ∷ []) space) >>= λ space'. ok (l, space')

-- `available_timezones` of the installed tzdata is an argument.
unfoldable pub create_facility :
    (Text → Bool) → Session → Facility → Space → Result (Facility × Space)
unfolding constraints insert_facility
create_facility is_zone s f space =
    guard (is_zone f.timezone) space_invalid
    >> (constraints (insert_facility s f space) >>= λ space'. ok (f, space'))
