-- ===== src/Tests/Records.antt =====
-- A stored object, a received line and an exception.
use defiant_fleet_ops.Base.{ℕ, true, false, none, some, List, [], ◌∷◌, ok, ◌≡◌, ◌≢◌, refl, any}
use defiant_fleet_ops.Text.{Text, codes}
use defiant_fleet_ops.Ledger.{Session}
use defiant_fleet_ops.Evidence.Storage.{Objects, object_at, key_of, read, put, reference_of}
use defiant_fleet_ops.Evidence.Storage.Laws.{put-read, put-keeps}
use defiant_fleet_ops.Receiving.{
  ExceptionType, unexpected_item, serial_mismatch, quantity_variance, short, Condition, Observed,
  Line, OrderLine, Context, kind_eq, line_exceptions, required_exceptions, line_supports,
  quantity_exception, required_quantity, quantity_supports,
}
use defiant_fleet_ops.Receiving.Agreement.{
  IsRecorded, line_exceptions-required, line_exceptions-supported, quantity_exception-agreed,
}
use defiant_fleet_ops.Exceptions.{
  Status, acknowledged, open_status, resolved, StatusEvent, StatusRequest, projected, latest_event,
  is_terminal, status_of, transition_exception,
}
use defiant_fleet_ops.Exceptions.Workflows.{
  IsChained, opened, transition_exception-IsChained, transition_exception-terminal,
}
use defiant_fleet_ops.Tests.Samples.{session}

-- A digest of 64 characters, which here is the same for every content.
abbrev digest : List ℕ → Text
digest content = codes "0123456789abcdef0123456789abcdef0123456789abcdef0123456789abcdef"

abbrev org : Text
org = codes "acme"

abbrev objects : Objects
objects = (codes "other/1", 1 ∷ []) ∷ []

abbrev content : List ℕ
content = 8 ∷ 9 ∷ []

abbrev stored : Objects
stored = (key_of org (digest content), content) ∷ objects

put-ok : put digest objects org content ≡ ok (reference_of digest org content, stored)
unfolding put
put-ok = refl

put-read_example : read digest stored org (reference_of digest org content) ≡ ok content
put-read_example =
    put-read digest objects org content (reference_of digest org content) stored put-ok

other-there : object_at objects (codes "other/1") ≡ some (1 ∷ [])
unfolding object_at
other-there = refl

put-keeps_example : object_at stored (codes "other/1") ≡ some (1 ∷ [])
put-keeps_example =
    put-keeps digest objects org content (reference_of digest org content) stored (codes "other/1")
      (1 ∷ []) put-ok other-there

-- A serialized unit that nobody ordered and whose serial number another Asset has.
abbrev serial : Observed
serial = record { type = codes "OTHER"; value = codes "S1" }

abbrev context : Context
context = record {
  order_lines = [];
  identifiers = record { asset_id = 100; reading = some serial } ∷ [];
}

abbrev line : Line
line = record {
  id = 1;
  po_line_id = none;
  item_id = 2;
  quantity = 1;
  uom = codes "EA";
  condition = Condition.damaged;
  packing_quantity = some 2;
  serialized = true;
  asset_id = none;
  observed = some serial;
}

line-IsRecorded : IsRecorded context line false (some 100)
unfolding defiant_fleet_ops.Receiving.names_conflict defiant_fleet_ops.Receiving.has_unreadable
line-IsRecorded = record {
  unit_shape = refl;
  one_of_both = refl;
  observed_conflict = refl;
  known_conflict = λ o. refl;
  read = refl;
}

abbrev kinds : List ExceptionType
kinds = unexpected_item ∷ ExceptionType.damaged ∷ quantity_variance ∷ serial_mismatch ∷ []

kinds-ok : line_exceptions context line false (some 100) ≡ ok kinds
unfolding line_exceptions
kinds-ok = refl

line_exceptions-required_example : kinds ≡ required_exceptions context line
line_exceptions-required_example =
    line_exceptions-required context line false (some 100) kinds line-IsRecorded kinds-ok

line_exceptions-supported_example :
    any (kind_eq serial_mismatch) kinds ≡ line_supports context line (some 100) serial_mismatch
line_exceptions-supported_example =
    line_exceptions-supported context line false (some 100) kinds line-IsRecorded kinds-ok
      serial_mismatch

abbrev ordered : OrderLine
ordered = record { id = 4; item_id = 2; uom = codes "EA"; quantity = 3 }

abbrev arrived : List Line
arrived = record line { po_line_id = some 4 } ∷ []

quantity_exception-agreed_example :
    (quantity_exception ordered arrived ≡ required_quantity ordered arrived)
    × (quantity_supports ordered arrived short
        ≡ elim (quantity_exception ordered arrived) [ none ↦ false | some k ↦ kind_eq short k ])
quantity_exception-agreed_example = quantity_exception-agreed ordered arrived short refl

abbrev status_request : Status → Status → StatusRequest
status_request from to = record {
  expected_status = from;
  to_status = to;
  note = some (codes " done ");
  occurred_at = 80;
  event_id = 600;
}

abbrev resolution : StatusEvent
resolution = record {
  id = 600;
  event_seq = 1;
  from_status = open_status;
  to_status = resolved;
  note = some (codes "done");
  actor_id = 7;
  occurred_at = 80;
}

resolved-ok :
    transition_exception session (some (projected none, [])) (status_request open_status resolved)
    ≡ ok (resolution, projected (some resolution), resolution ∷ [])
unfolding transition_exception defiant_fleet_ops.Ledger.performer
    defiant_fleet_ops.Text.normalize_correction_reason
resolved-ok = refl

transition_exception-IsChained_example :
    IsChained (resolution ∷ [])
    × (projected (some resolution) ≡ projected (latest_event (resolution ∷ [])))
transition_exception-IsChained_example =
    transition_exception-IsChained session (projected none) [] (status_request open_status resolved)
      resolution (projected (some resolution)) (resolution ∷ []) opened resolved-ok

resolution-terminal : is_terminal (status_of (latest_event (resolution ∷ []))) ≡ true
unfolding latest_event
resolution-terminal = refl

transition_exception-terminal_example :
    transition_exception session
      (some (projected (some resolution), resolution ∷ []))
      (status_request resolved acknowledged)
    ≢ ok (resolution, projected (some resolution), [])
transition_exception-terminal_example =
    transition_exception-terminal session (projected (some resolution)) (resolution ∷ [])
      (status_request resolved acknowledged) resolution (projected (some resolution)) []
      resolution-terminal
