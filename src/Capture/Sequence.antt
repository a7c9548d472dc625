-- ===== src/Capture/Sequence.antt =====
-- `_sequence` of server/fleetops/capture/service.py, with the trigger guard_capture_stream of
-- server/alembic/versions/0014_capture.py: the last sequence number of each client epoch.
use defiant_fleet_ops.Base.{
  ℕ, ◌+◌, Bool, ◌&&◌, none, some, List, [], ◌∷◌, ltb, leb, ◌==◌, find, any, Result, ok, err, guard,
  ◌>>◌, asset_invalid, if◌then◌else◌,
}
use defiant_fleet_ops.Capture.{Stream, Flag, sequence_reused, sequence_gap}

abbrev pub names : ℕ → ℕ → Stream → Bool
names client_id client_epoch s = s.client_id == client_id && s.client_epoch == client_epoch

-- INSERT ... ON CONFLICT DO NOTHING; the trigger names the credential's Actor.
unfoldable pub open_stream : ℕ → ℕ → ℕ → List Stream → List Stream
open_stream client_id client_epoch actor_id streams =
    if any (names client_id client_epoch) streams
    then streams
    else record {
      client_id = client_id;
      client_epoch = client_epoch;
      actor_id = actor_id;
      last_seq = 0;
    }
      ∷ streams

abbrev pub max : ℕ → ℕ → ℕ
max a b = if ltb a b then b else a

unfoldable pub set_last : ℕ → ℕ → ℕ → List Stream → List Stream
set_last client_id client_epoch seq [] = []
set_last client_id client_epoch seq (s ∷ streams) =
    (if names client_id client_epoch s then record s { last_seq = max seq s.last_seq } else s)
    ∷ set_last client_id client_epoch seq streams

abbrev pub flags_of : ℕ → ℕ → List Flag
flags_of seq last =
    if leb seq last then sequence_reused ∷ [] else if seq == last + 1 then [] else sequence_gap ∷ []

unfoldable pub sequence : ℕ → ℕ → ℕ → ℕ → List Stream → Result (List Flag × List Stream)
unfolding open_stream set_last
sequence client_id client_epoch seq actor_id streams =
    let opened = open_stream client_id client_epoch actor_id streams in
    elim (find (names client_id client_epoch) opened) [
      | none ↦ err asset_invalid
      | some row ↦
          (guard (row.actor_id == actor_id) asset_invalid
            >> ok (flags_of seq row.last_seq, set_last client_id client_epoch seq opened))
    ]
