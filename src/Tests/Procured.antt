-- ===== src/Tests/Procured.antt =====
-- An order with two lines, issued, of which one is amended.
use defiant_fleet_ops.Base.{
  ℕ, Bool, true, false, none, some, Option, List, [], ◌∷◌, ok, ◌≡◌, ◌≢◌, refl, tally, keep,
  if◌then◌else◌, err, procurement_conflict,
}
use defiant_fleet_ops.Text.{codes}
use defiant_fleet_ops.Procurement.{
  draft, issued, Order, Line, Item, Reference, Tables, find_order, find_line,
}
use defiant_fleet_ops.Procurement.Services.{
  OrderValues, LineValues, create_order, issue_order, create_line,
}
use defiant_fleet_ops.Procurement.Lineage.{IsLineage}
use defiant_fleet_ops.Procurement.Listing.{list_lines, flagged, of_order}
use defiant_fleet_ops.Procurement.Listing.Ends.{list_lines-ends}
use defiant_fleet_ops.Procurement.Listing.Ordered.{IsRootToLeaf}
use defiant_fleet_ops.Procurement.Listing.Whole.{list_lines_complete}
use defiant_fleet_ops.Procurement.Steps.{
  Steps, Step, unchanged, stepped, order_created, order_issued, line_created,
}
use defiant_fleet_ops.Procurement.Invariant.{IsSound, Steps-IsSound}
use defiant_fleet_ops.Procurement.Issued.{Steps-issued}
use defiant_fleet_ops.Procurement.Current.{is_line, current, create_line-current}
use defiant_fleet_ops.Tests.Samples.{session}

abbrev goods : Reference
goods = record {
  vendors = 3 ∷ [];
  items = record { id = 20; uom = codes "EA" } ∷ [];
  actors = 7 ∷ [];
}

abbrev empty : Tables
empty = record { orders = []; lines = [] }

abbrev drafted : Order
drafted = record {
  id = 50;
  vendor_party_id = 3;
  po_number = codes "PO-1";
  status = draft;
  issued_at = none;
  issued_by_actor_id = none;
  notes = none;
  created_by_actor_id = 7;
  updated_by_actor_id = 7;
  created_at = 100;
  updated_at = 100;
}

abbrev sent : Order
sent = record drafted {
  status = issued;
  issued_at = some 103;
  issued_by_actor_id = some 7;
  updated_at = 103;
}

abbrev line : ℕ → ℕ → Option ℕ → ℕ → ℕ → Line
line id number prior quantity now = record {
  id = id;
  po_id = 50;
  line_number = number;
  item_id = 20;
  quantity = quantity;
  uom = codes "EA";
  unit_price = 5;
  expected_date = none;
  supersedes_line_id = prior;
  created_by_actor_id = 7;
  updated_by_actor_id = 7;
  created_at = now;
  updated_at = now;
}

abbrev wanted : ℕ → ℕ → LineValues
wanted number quantity = record {
  line_number = number;
  item_id = 20;
  quantity = quantity;
  unit_price = 5;
  expected_date = none;
}

abbrev begun : Tables
begun = record { orders = drafted ∷ []; lines = [] }

abbrev lined : Tables
lined = record { orders = drafted ∷ []; lines = line 61 1 none 4 102 ∷ line 60 2 none 9 101 ∷ [] }

abbrev open_order : Tables
open_order = record lined { orders = sent ∷ [] }

abbrev amendment_row : Line
amendment_row = line 62 1 (some 61) 6 104

abbrev amendment_result : Line × Bool
amendment_result = (amendment_row, true)

abbrev amended : Tables
amended = record open_order { lines = line 62 1 (some 61) 6 104 ∷ open_order.lines }

order-created :
    create_order session goods 100 empty 50 7
      record { vendor_party_id = 3; po_number = codes "PO-1"; notes = none }
    ≡ ok begun
unfolding create_order defiant_fleet_ops.Ledger.performer
order-created = refl

first-created :
    create_line session goods 101 begun 60 50 7 none (wanted 2 9)
    ≡ ok ((line 60 2 none 9 101, true), record begun { lines = line 60 2 none 9 101 ∷ [] })
unfolding create_line defiant_fleet_ops.Ledger.performer
first-created = refl

second-created :
    create_line session goods 102
      (record begun { lines = line 60 2 none 9 101 ∷ [] })
      61
      50
      7
      none
      (wanted 1 4)
    ≡ ok ((line 61 1 none 4 102, true), lined)
unfolding create_line defiant_fleet_ops.Ledger.performer
second-created = refl

order-issued : issue_order session goods 103 lined 50 ≡ ok (sent, open_order)
unfolding issue_order defiant_fleet_ops.Ledger.performer
order-issued = refl

line-amended :
    create_line session goods 104 open_order 62 50 7 (some 61) (wanted 9 6)
    ≡ ok ((line 62 1 (some 61) 6 104, true), amended)
unfolding create_line defiant_fleet_ops.Ledger.performer
line-amended = refl

-- A superseded version cannot be amended again.
amended-once :
    create_line session goods 105 amended 63 50 7 (some 61) (wanted 1 7) ≡ err procurement_conflict
unfolding create_line
amended-once = refl

empty-IsSound : IsSound empty
empty-IsSound = record { lineage = tt; bounded = tt; attributed = tt }

before-issue : Steps empty lined
before-issue =
    stepped (record begun { lines = line 60 2 none 9 101 ∷ [] }) lined
      (stepped begun (record begun { lines = line 60 2 none 9 101 ∷ [] })
        (stepped empty begun unchanged (order_created session goods 100 50 7 _ begun order-created))
        (line_created session goods 101 60 50 7 none (wanted 2 9) _ _ first-created))
      (line_created session goods 102 61 50 7 none (wanted 1 4) _ lined second-created)

issue_step : Steps empty open_order
issue_step =
    stepped lined open_order before-issue
      (order_issued session goods 103 50 sent open_order order-issued)

amendment : Step open_order amended
amendment = line_created session goods 104 62 50 7 (some 61) (wanted 9 6) _ amended line-amended

Steps-IsSound_example : IsSound amended
Steps-IsSound_example =
    Steps-IsSound empty amended empty-IsSound (stepped open_order amended issue_step amendment)

Steps-issued_example :
    (find_order 50 amended.orders ≡ some sent)
    × ((l : Line)
        → find_line l.id open_order.lines ≡ some l
        → l.po_id ≡ 50
        → find_line l.id amended.lines ≡ some l)
Steps-issued_example =
    Steps-issued open_order amended sent (Steps-IsSound empty open_order empty-IsSound issue_step)
      refl refl (stepped open_order amended unchanged amendment)

create_line-current_example :
    (amendment_result.1 ≡ true)
    × (amendment_row.id ≡ 62)
    × (amendment_row.po_id ≡ 50)
    × (amendment_row.supersedes_line_id ≡ some 61)
    × ((po number : ℕ)
        → current amended.lines po number ≡ (
            if is_line po number amendment_row
            then some amendment_row
            else current open_order.lines po number))
create_line-current_example =
    create_line-current session goods 104 open_order amended 62 50 7 (some 61) (wanted 9 6)
      amendment_result (Steps-IsSound empty open_order empty-IsSound issue_step) line-amended

amended-IsLineage : IsLineage amended.lines
amended-IsLineage =
    (Steps-IsSound empty amended empty-IsSound
      (stepped open_order amended issue_step amendment)).lineage

list_lines_complete_example :
    (out : List Line) × (list_lines amended 50 ≡ some (ok (flagged amended.lines out)))
    × ((p : Line → Bool) → tally p out ≡ tally p (keep (of_order 50) amended.lines))
    × IsRootToLeaf none out
list_lines_complete_example = list_lines_complete amended 50 sent amended-IsLineage refl

amended-listed :
    list_lines amended 50
    ≡ some (
        ok (
          (line 61 1 none 4 102, false)
          ∷ (line 62 1 (some 61) 6 104, true)
          ∷ (line 60 2 none 9 101, true)
          ∷ []))
unfolding list_lines defiant_fleet_ops.Procurement.Services.is_active
amended-listed = refl

-- Two versions that supersede each other.
abbrev cyclic : Tables
cyclic = record begun { lines = line 61 1 (some 60) 4 102 ∷ line 60 1 (some 61) 9 101 ∷ [] }

list_lines-ends_example : list_lines cyclic 50 ≢ none
list_lines-ends_example = list_lines-ends cyclic 50

cyclic-listed : list_lines cyclic 50 ≡ some (err procurement_conflict)
unfolding list_lines
cyclic-listed = refl
