-- ===== src/Tests/Located.antt =====
-- A facility with a site, and a rack with its bin that are inserted by one statement, the bin first.
use mathlib.Core.List.{reverse}
use defiant_fleet_ops.Base.{
  ℕ, true, none, some, List, [], ◌∷◌, ok, ◌≡◌, ◌≢◌, ◌↔◌, refl, err, sql, check_violation,
  if◌then◌else◌, find, ◌==◌,
}
use defiant_fleet_ops.Text.{codes}
use defiant_fleet_ops.Space.{
  Facility, Location, LocationKind, Space, ancestry, location_path, insert_locations,
}
use defiant_fleet_ops.Space.Ancestry.{ancestry_ends}
use defiant_fleet_ops.Space.Chains.{IsChain}
use defiant_fleet_ops.Space.Path.{location_path-IsChain}
use defiant_fleet_ops.Space.Insertion.{IsRooted, insert_locations-IsRooted}
use defiant_fleet_ops.Tests.Samples.{session}

abbrev lab : Facility
lab = record {
  id = 1;
  name = codes "Lab";
  timezone = codes "Europe/Berlin";
  active = true;
  created_by_actor_id = 7;
}

abbrev at : ℕ → ℕ → LocationKind → Location
at id parent kind = record {
  id = id;
  facility_id = 1;
  parent_location_id = if parent == 0 then none else some parent;
  code = id ∷ [];
  name = codes "place";
  kind = kind;
  active = true;
  created_by_actor_id = 7;
}

abbrev site_only : Space
site_only = record { facilities = lab ∷ []; locations = at 10 0 LocationKind.site ∷ [] }

abbrev added : List Location
added = at 12 11 LocationKind.bin ∷ at 11 10 LocationKind.rack ∷ []

abbrev furnished : Space
furnished = record {
  facilities = lab ∷ [];
  locations =
      at 11 10 LocationKind.rack ∷ at 12 11 LocationKind.bin ∷ at 10 0 LocationKind.site ∷ [];
}

furnished-ok : insert_locations session added site_only ≡ ok furnished
unfolding insert_locations defiant_fleet_ops.Ledger.performer
furnished-ok = refl

insert_locations-IsRooted_example : IsRooted furnished.locations
insert_locations-IsRooted_example =
    insert_locations-IsRooted session added site_only furnished (([], refl), tt) furnished-ok

-- Two new locations that name each other are refused.
cyclic-refused :
    insert_locations session (at 12 11 LocationKind.bin ∷ at 11 12 LocationKind.rack ∷ []) site_only
    ≡ err (sql check_violation)
unfolding insert_locations
cyclic-refused = refl

location_path-IsChain_example :
    (location_path furnished.locations 12
      ≡ ok
          (at 10 0 LocationKind.site ∷ at 11 10 LocationKind.rack ∷ at 12 11 LocationKind.bin ∷ []))
    ↔ ((l : Location) × (ps : List Location) × (find (λ r. r.id == 12) furnished.locations ≡ some l)
        × IsChain furnished.locations l ps
        × (at 10 0 LocationKind.site ∷ at 11 10 LocationKind.rack ∷ at 12 11 LocationKind.bin ∷ []
            ≡ reverse (l ∷ ps)))
location_path-IsChain_example =
    location_path-IsChain furnished.locations 12
      (at 10 0 LocationKind.site ∷ at 11 10 LocationKind.rack ∷ at 12 11 LocationKind.bin ∷ [])

path-found :
    location_path furnished.locations 12
    ≡ ok (at 10 0 LocationKind.site ∷ at 11 10 LocationKind.rack ∷ at 12 11 LocationKind.bin ∷ [])
unfolding location_path
path-found = refl

abbrev corrupt : List Location
corrupt = at 12 11 LocationKind.bin ∷ at 11 12 LocationKind.rack ∷ []

ancestry_ends_example : ancestry 3 corrupt (12 ∷ []) (at 12 11 LocationKind.bin) ≢ none
ancestry_ends_example = ancestry_ends corrupt (12 ∷ []) (at 12 11 LocationKind.bin)
