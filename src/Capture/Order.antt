-- ===== src/Capture/Order.antt =====
-- `ordered` of server/fleetops/capture/service.py: the order in which a batch is processed.
pub mod Laws
pub mod Sequence
use defiant_fleet_ops.Base.{
  ℕ, suc, ◌+◌, Bool, true, false, ◌&&◌, ◌||◌, List, [], ◌∷◌, ◌++◌, ltb, ◌==◌, if◌then◌else◌,
}
use defiant_fleet_ops.Capture.{CaptureOperation}

-- An operation with its position in the batch.
abbrev pub Entry : Type 0
Entry = ℕ × CaptureOperation

-- The entries of one client epoch, a value of `groups`.
pub record Group : Type 0 where
  pub client_id : ℕ
  pub client_epoch : ℕ
  pub entries : List Entry

abbrev pub belongs : Entry → Group → Bool
belongs e g = e.1.client_id == g.client_id && e.1.client_epoch == g.client_epoch

abbrev pub start : Entry → Group
start e = record { client_id = e.1.client_id; client_epoch = e.1.client_epoch; entries = e ∷ [] }

-- groups.setdefault(key, []).append(entry), which keeps the order of first arrival.
unfoldable pub place : Entry → List Group → List Group
place e [] = start e ∷ []
place e (g ∷ groups) =
    if belongs e g
    then record g { entries = g.entries ++ (e ∷ []) } ∷ groups
    else g ∷ place e groups

abbrev pub enumerate : ℕ → List CaptureOperation → List Entry
enumerate i [] = []
enumerate i (o ∷ operations) = (i, o) ∷ enumerate (suc i) operations

unfoldable pub group : List Entry → List Group → List Group
group [] groups = groups
group (e ∷ entries) groups = group entries (place e groups)

-- The sort key: the client's sequence number, then the position.
abbrev pub precedes : Entry → Entry → Bool
precedes a b =
    ltb a.1.client_seq b.1.client_seq || (a.1.client_seq == b.1.client_seq && ltb a.0 b.0)

unfoldable pub insert_entry : Entry → List Entry → List Entry
insert_entry e [] = e ∷ []
insert_entry e (k ∷ entries) = if precedes k e then k ∷ insert_entry e entries else e ∷ k ∷ entries

unfoldable pub sorted : List Entry → List Entry
unfolding insert_entry
sorted [] = []
sorted (e ∷ entries) = insert_entry e (sorted entries)

unfoldable pub flatten : List Group → List Entry
unfolding sorted
flatten [] = []
flatten (g ∷ groups) = sorted g.entries ++ flatten groups

unfoldable pub ordered : List CaptureOperation → List Entry
unfolding flatten group
ordered operations = flatten (group (enumerate 0 operations) [])
