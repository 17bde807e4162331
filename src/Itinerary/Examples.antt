-- ===== src/Itinerary/Examples.antt =====
-- Diffs and decisions at concrete values.
use syncinerary.Prelude.{
  ℕ, ◌≡◌, Option, ◌⊎◌, refl, [], ◌∷◌, map, Bool, true, false, ◌&&◌, none, some, raise, any_by,
  find_row, ◌==◌,
}
use syncinerary.Itinerary.Diff.{
  ItineraryNode, ItineraryDiffStop, ItineraryMove, ItineraryTimeChange, itinerary_diff,
}
use syncinerary.Itinerary.Diff.Dictionary.{last_of}
use syncinerary.Itinerary.Diff.Exact.{
  stop_due, move_due, time_change_due, itinerary_diff-exact, renumbered, no_changes,
  itinerary_diff_unchanged,
}
use syncinerary.Itinerary.Disruption.{overslept, not_comparable, Payload, select_affected_nodes}
use syncinerary.Itinerary.Disruption.Selection.{IsSelection, select_affected_nodes-IsSelection}
use syncinerary.Itinerary.Decision.{
  ReplanError, pending, approved, proposed, active, ReplanEvent, Db, answered, decide_replan,
}
use syncinerary.Itinerary.Decision.Once.{
  Refuses, Commits, decide_replan-decides, decide_replan_once,
}

abbrev museum : ItineraryNode
museum = record { id = 1; candidate_id = 10; day = 0; start_time = 540; end_time = 600 }

abbrev market : ItineraryNode
market = record { id = 2; candidate_id = 20; day = 0; start_time = 620; end_time = 700 }

abbrev museum_moved : ItineraryNode
museum_moved = record { id = 3; candidate_id = 10; day = 1; start_time = 540; end_time = 600 }

itinerary_diff-exact_example :
    let old = last_of 10 (museum ∷ market ∷ []) none in
    let new = last_of 10 (museum_moved ∷ []) none in
    let diff = itinerary_diff (museum ∷ market ∷ []) (museum_moved ∷ []) in
    ((p : ItineraryDiffStop → Bool)
      → any_by (λ s. (s.candidate_id == 10) && p s) diff.added ≡ stop_due p new old)
    × ((p : ItineraryDiffStop → Bool)
        → any_by (λ s. (s.candidate_id == 10) && p s) diff.removed ≡ stop_due p old new)
    × ((p : ItineraryMove → Bool)
        → any_by (λ m. (m.candidate_id == 10) && p m) diff.moved ≡ move_due p old new)
    × ((p : ItineraryTimeChange → Bool)
        → any_by (λ m. (m.candidate_id == 10) && p m) diff.time_changed ≡ time_change_due p old new)
itinerary_diff-exact_example = itinerary_diff-exact 10 (museum ∷ market ∷ []) (museum_moved ∷ [])

abbrev saved_again : ItineraryNode → ℕ
saved_again n = n.candidate_id

itinerary_diff_unchanged_example :
    itinerary_diff (museum ∷ market ∷ []) (map (renumbered saved_again) (museum ∷ market ∷ []))
    ≡ no_changes
itinerary_diff_unchanged_example = itinerary_diff_unchanged saved_again (museum ∷ market ∷ [])

abbrev asked : ReplanEvent
asked = record {
  id = 5;
  trip_id = 1;
  status = pending;
  proposed_version_id = some 8;
  decided_by = none;
}

abbrev two_versions : Db
two_versions = record {
  travelers = record { id = 3; trip_id = 1 } ∷ [];
  events = asked ∷ [];
  versions =
      record { id = 7; trip_id = 1; version_no = 1; status = active; parent_version_id = none }
      ∷ record {
        id = 8;
        trip_id = 1;
        version_no = 2;
        status = proposed;
        parent_version_id = some 7;
      }
      ∷ [];
}

decide_replan-decides_example : Refuses true 1 5 3 two_versions ⊎ Commits true 1 5 3 two_versions
decide_replan-decides_example = decide_replan-decides true 1 5 3 two_versions

decide_replan_once_example :
    (error : ReplanError) × (decide_replan 1 5 3 false (decide_replan 1 5 3 true two_versions).1
      ≡ (raise error, (decide_replan 1 5 3 true two_versions).1))
unfolding decide_replan find_row
decide_replan_once_example =
    decide_replan_once true false 1 5 3 1 3 two_versions (decide_replan 1 5 3 true two_versions).1
      (answered approved 3 asked) refl

abbrev slept_in : Payload
slept_in = record {
  node_id = none;
  day = some 0;
  at = some (record { time_of_day = 610; has_zone = false });
  delay_minutes = 0;
  affected_node_ids = [];
}

abbrev no_weather : ℕ → Option Bool
no_weather c = none

select_affected_nodes-IsSelection_example :
    IsSelection overslept slept_in
      (market ∷ museum ∷ [])
      no_weather
      (select_affected_nodes overslept slept_in (market ∷ museum ∷ []) no_weather)
select_affected_nodes-IsSelection_example =
    select_affected_nodes-IsSelection overslept slept_in (market ∷ museum ∷ []) no_weather

-- With a zone in the time the comparison fails.
zoned-not_comparable :
    select_affected_nodes overslept
      (record slept_in { at = some (record { time_of_day = 610; has_zone = true }) })
      (market ∷ museum ∷ [])
      no_weather
    ≡ raise not_comparable
unfolding select_affected_nodes
zoned-not_comparable = refl
