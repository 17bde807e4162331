-- ===== src/Gather/SearchExamples.antt =====
-- The social search at concrete states: a city whose searches each find one place, and one in which the
-- provider is down.
use syncinerary.Prelude.{ℕ, ◌≡◌, refl, [], ◌∷◌, Option, none, some, false, arith}
use syncinerary.Prelude.Sorting.{sorted_by}
use syncinerary.Gather.Intents.{discovery_platforms}
use syncinerary.Gather.SocialSearch.{
  SocialSearchState, Thresholds, default_thresholds, searches_used, SearchOutcome, StopReason,
  initialize_social_search_state, is_buildable, is_available, update_search_state,
}
use syncinerary.Gather.SocialSearch.Planner.{decide_next, plan_next_search}
use syncinerary.Gather.SocialSearch.Stopping.{Sound, decide_next-Sound}
use syncinerary.Gather.SocialSearch.Loop.{City, mine_city}
use syncinerary.Gather.SocialSearch.Loop.Bounds.{Ended, mine_city-ends}

abbrev found_one : SearchOutcome
found_one = record {
  raw_results_count = 5;
  readable_posts_count = 4;
  extracted_mentions_count = 2;
  resolved_places_count = 1;
  new_unique_places_count = 1;
  provider_error = none;
}

abbrev timed_out : SearchOutcome
timed_out = record {
  raw_results_count = 0;
  readable_posts_count = 0;
  extracted_mentions_count = 0;
  resolved_places_count = 0;
  new_unique_places_count = 0;
  provider_error = some "ReadTimeout";
}

abbrev quiet_city : City
quiet_city = record {
  wording = λ s i. "things to do";
  run_search = λ s i query offset.
      (found_one, record { intent_types = i.intent_type ∷ [] } ∷ s.discovered_places);
  verification = none;
}

abbrev dark_city : City
dark_city = record {
  wording = λ s i. "things to do";
  run_search = λ s i query offset. (timed_out, s.discovered_places);
  verification = none;
}

-- The targets that the caller sets for a city.
abbrev targets : Thresholds
targets = record default_thresholds { reel_target = 2; food_target = 3; attraction_target = 4 }

-- Each search verifies one more Reel; the other lanes and types are full from the start.
abbrev reel_city : City
reel_city = record quiet_city {
  verification = some (λ s. record {
    reels = searches_used s;
    supply = (24, 24);
    food = 3;
    attractions = 4;
    exhausted = false;
  });
}

abbrev start : SocialSearchState
start = initialize_social_search_state none 24 8 discovery_platforms "en" targets

abbrev reason_of : Option SocialSearchState → Option StopReason
reason_of none = none
reason_of (some s) = s.stop_reason

abbrev searches_of : Option SocialSearchState → Option ℕ
searches_of none = none
searches_of (some s) = some (searches_used s)

-- Each search adds a single place, so the third one in a row ends the run.
quiet_city-stops :
    reason_of (mine_city quiet_city none 24 8 "en" default_thresholds 9) ≡ some StopReason.low_yield
unfolding mine_city plan_next_search initialize_social_search_state sorted_by is_buildable
    is_available update_search_state
quiet_city-stops = refl

dark_city-stops :
    reason_of (mine_city dark_city none 24 8 "en" targets 9) ≡ some StopReason.provider_unavailable
unfolding mine_city plan_next_search initialize_social_search_state sorted_by is_buildable
    is_available update_search_state
dark_city-stops = refl

decide_next-Sound_example : Sound start (decide_next start)
decide_next-Sound_example = decide_next-Sound start

-- Two searches are made for the two Reels that are missing, and then the city is covered.
reel_city-stops :
    let final = mine_city reel_city none 24 8 "en" targets 9 in
    (reason_of final ≡ some StopReason.target_reached) × (searches_of final ≡ some 2)
unfolding mine_city plan_next_search initialize_social_search_state sorted_by is_buildable
    is_available update_search_state
reel_city-stops = (refl, refl)

mine_city-ends_example :
    (final : SocialSearchState) × ((mine_city reel_city none 24 8 "en" targets 9 ≡ some final)
      × Ended 8 final)
mine_city-ends_example = mine_city-ends reel_city none 24 8 "en" targets 9 (omega arith)
