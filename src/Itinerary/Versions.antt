-- ===== src/Itinerary/Versions.antt =====
-- The reading queries of ItineraryVersionRepository in syncinerary/store/repositories/itinerary.py and
-- of ReplanEventRepository in syncinerary/store/repositories/ops.py, on the tables of a decision.
use syncinerary.Prelude.{
  ℕ, ◌+◌, max, List, [], ◌∷◌, Bool, ◌&&◌, Option, none, some, filter_by, leb, ◌==◌,
}
use syncinerary.Prelude.Sorting.{sorted_by}
use syncinerary.Itinerary.Decision.{ReplanEvent, ItineraryVersion, Db, is_pending, is_active}

abbrev on_trip : ℕ → ItineraryVersion → Bool
on_trip trip_id v = v.trip_id == trip_id

-- `max(version_no)` of the rows, and 0 for none of them.
greatest_version_no : List ItineraryVersion → ℕ
greatest_version_no [] = 0
greatest_version_no (v ∷ vs) = max v.version_no (greatest_version_no vs)

next_version_no : ℕ → Db → ℕ
unfolding greatest_version_no
next_version_no trip_id db = greatest_version_no (filter_by (on_trip trip_id) db.versions) + 1

-- The versions of a trip by their number.
versions_of_trip : ℕ → Db → List ItineraryVersion
unfolding sorted_by
versions_of_trip trip_id db =
    sorted_by (λ v w. leb v.version_no w.version_no) (filter_by (on_trip trip_id) db.versions)

abbrev first_of : List ItineraryVersion → Option ItineraryVersion
first_of [] = none
first_of (v ∷ vs) = some v

abbrev last_in : List ItineraryVersion → Option ItineraryVersion
last_in [] = none
last_in (v ∷ []) = some v
last_in (v ∷ w ∷ vs) = last_in (w ∷ vs)

get_active : ℕ → Db → Option ItineraryVersion
get_active trip_id db =
    first_of (filter_by (λ v. on_trip trip_id v && is_active v.status) db.versions)

get_latest : ℕ → Db → Option ItineraryVersion
unfolding versions_of_trip
get_latest trip_id db = last_in (versions_of_trip trip_id db)

list_pending : ℕ → Db → List ReplanEvent
list_pending trip_id db = filter_by (λ e. (e.trip_id == trip_id) && is_pending e.status) db.events
