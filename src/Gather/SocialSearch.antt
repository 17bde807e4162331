-- ===== src/Gather/SocialSearch.antt =====
-- The state of the adaptive search for places, syncinerary/agents/gather/social_search.py, with the
-- limits of syncinerary/config/gather.py.
-- The dictionaries that are filled with a default for every key are functions. The interests and their
-- coverage, which do not steer the search, are left out, and of a place only the intents that found it
-- are kept.
pub mod Counters
pub mod Choices
pub mod Planner
pub mod Availability
pub mod Loop
pub mod Stopping
use syncinerary.Prelude.{
  ℕ, ◌+◌, ◌-◌, ◌*◌, ◌/◌, String, List, [], ◌∷◌, ◌++◌, Option, none, some, Bool, true, false, ◌&&◌,
  ◌||◌, not, any_by, count_by, length, ltb, leb, ◌==◌, if◌then◌else◌, str_eq,
}
use syncinerary.Prelude.Partial.{is_given}
use text.Mathlib.Text.{starts_with}
use syncinerary.Gather.Intents.{
  SocialPlatform, SearchIntentType, SearchIntent, same_platform, same_type, same_specificity,
  same_question,
}

pub data SearchYield : Type 0 where
  productive duplicate_heavy no_search_results no_mentions : SearchYield
  resolution_failure provider_error : SearchYield

pub data StopReason : Type 0 where
  target_reached search_budget_reached low_yield no_search_actions_left : StopReason
  provider_unavailable verification_budget_reached : StopReason

pub record SearchOutcome : Type 0 where
  pub raw_results_count : ℕ
  pub readable_posts_count : ℕ
  pub extracted_mentions_count : ℕ
  pub resolved_places_count : ℕ
  pub new_unique_places_count : ℕ
  pub provider_error : Option String

abbrev yield_of_counts : SearchOutcome → SearchYield
yield_of_counts o =
    if o.raw_results_count == 0
    then no_search_results
    else if o.extracted_mentions_count == 0
    then no_mentions
    else if o.resolved_places_count == 0
    then resolution_failure
    else if o.new_unique_places_count == 0
    then duplicate_heavy
    else productive

-- `SearchOutcome.yield_type`
unfoldable pub yield_type : SearchOutcome → SearchYield
yield_type o = if is_given o.provider_error then SearchYield.provider_error else yield_of_counts o

abbrev pub is_duplicate_heavy : SearchYield → Bool
is_duplicate_heavy duplicate_heavy = true
is_duplicate_heavy _ = false

abbrev pub is_provider_error : SearchYield → Bool
is_provider_error SearchYield.provider_error = true
is_provider_error _ = false

pub record SearchAction : Type 0 where
  pub intent : SearchIntent
  pub query : String
  pub outcome : SearchOutcome

pub record SearchStats : Type 0 where
  pub searches : ℕ
  raw_results : ℕ
  extracted_mentions : ℕ
  resolved_places : ℕ
  pub new_unique_places : ℕ
  duplicate_places : ℕ

abbrev no_stats : SearchStats
no_stats = record {
  searches = 0;
  raw_results = 0;
  extracted_mentions = 0;
  resolved_places = 0;
  new_unique_places = 0;
  duplicate_places = 0;
}

-- `SearchStats.record`
abbrev recorded : SearchOutcome → SearchStats → SearchStats
recorded o s = record {
  searches = s.searches + 1;
  raw_results = s.raw_results + o.raw_results_count;
  extracted_mentions = s.extracted_mentions + o.extracted_mentions_count;
  resolved_places = s.resolved_places + o.resolved_places_count;
  new_unique_places = s.new_unique_places + o.new_unique_places_count;
  duplicate_places = s.duplicate_places + (o.resolved_places_count - o.new_unique_places_count);
}

-- What the planner asks of a mined place: the intents that found it.
pub record MinedPlace : Type 0 where
  pub intent_types : List SearchIntentType

pub record SocialSearchState : Type 0 where
  destination_local_name : Option String
  pub output_locale : String
  pub target_candidates : ℕ
  pub reel_target : ℕ
  pub verified_reels : ℕ
  pub verified_lane_supply : Option (ℕ × ℕ)
  pub verification_exhausted : Bool
  pub food_target : ℕ
  pub attraction_target : ℕ
  pub verified_food : ℕ
  pub verified_attractions : ℕ
  pub max_searches : ℕ
  pub platforms : List SocialPlatform
  pub discovered_places : List MinedPlace
  pub searched_queries : List SearchAction
  pub attempts_by_intent : SocialPlatform → SearchIntentType → ℕ
  pub platform_stats : SocialPlatform → SearchStats
  pub intent_stats : SearchIntentType → SearchStats
  pub platform_intent_stats : SocialPlatform → SearchIntentType → SearchStats
  last_search_new_places : ℕ
  recent_new_place_counts : List ℕ
  pub consecutive_low_yield_searches : ℕ
  pub consecutive_zero_yield_searches : ℕ
  pub consecutive_duplicate_heavy_searches : ℕ
  pub consecutive_provider_errors : ℕ
  pub stop_reason : Option StopReason
  pub low_yield_new_places : ℕ
  pub max_consecutive_low_yield : ℕ
  pub max_consecutive_duplicate_heavy : ℕ
  pub max_consecutive_provider_errors : ℕ
  pub max_attempts_per_intent : ℕ
  pub cold_start_max_searches : ℕ
  pub platform_probe_min : ℕ

-- The keywords of `**thresholds`: the numbers of the state that a caller may set.
pub record Thresholds : Type 0 where
  pub reel_target : ℕ
  pub food_target : ℕ
  pub attraction_target : ℕ
  pub low_yield_new_places : ℕ
  pub max_consecutive_low_yield : ℕ
  pub max_consecutive_duplicate_heavy : ℕ
  pub max_consecutive_provider_errors : ℕ
  pub max_attempts_per_intent : ℕ
  pub cold_start_max_searches : ℕ
  pub platform_probe_min : ℕ

-- The defaults of the fields, for the keywords that a caller leaves out.
abbrev pub default_thresholds : Thresholds
default_thresholds = record {
  reel_target = 0;
  food_target = 0;
  attraction_target = 0;
  low_yield_new_places = 1;
  max_consecutive_low_yield = 3;
  max_consecutive_duplicate_heavy = 2;
  max_consecutive_provider_errors = 3;
  max_attempts_per_intent = 2;
  cold_start_max_searches = 6;
  platform_probe_min = 2;
}

unfoldable pub initialize_social_search_state :
    (destination_local_name : Option String) (target_candidates max_searches : ℕ)
    (platforms : List SocialPlatform) (output_locale : String)
    → Thresholds
    → SocialSearchState
initialize_social_search_state local target max_searches platforms locale thresholds = record {
  destination_local_name = local;
  output_locale = locale;
  target_candidates = target;
  reel_target = thresholds.reel_target;
  verified_reels = 0;
  verified_lane_supply = none;
  verification_exhausted = false;
  food_target = thresholds.food_target;
  attraction_target = thresholds.attraction_target;
  verified_food = 0;
  verified_attractions = 0;
  max_searches = max_searches;
  platforms = platforms;
  discovered_places = [];
  searched_queries = [];
  attempts_by_intent = λ p t. 0;
  platform_stats = λ p. no_stats;
  intent_stats = λ t. no_stats;
  platform_intent_stats = λ p t. no_stats;
  last_search_new_places = 0;
  recent_new_place_counts = [];
  consecutive_low_yield_searches = 0;
  consecutive_zero_yield_searches = 0;
  consecutive_duplicate_heavy_searches = 0;
  consecutive_provider_errors = 0;
  stop_reason = none;
  low_yield_new_places = thresholds.low_yield_new_places;
  max_consecutive_low_yield = thresholds.max_consecutive_low_yield;
  max_consecutive_duplicate_heavy = thresholds.max_consecutive_duplicate_heavy;
  max_consecutive_provider_errors = thresholds.max_consecutive_provider_errors;
  max_attempts_per_intent = thresholds.max_attempts_per_intent;
  cold_start_max_searches = thresholds.cold_start_max_searches;
  platform_probe_min = thresholds.platform_probe_min;
}

abbrev pub searches_used : SocialSearchState → ℕ
searches_used s = length s.searched_queries

abbrev pub attempts_for : SocialSearchState → SearchIntent → ℕ
attempts_for s i = s.attempts_by_intent i.platform i.intent_type

-- `has_run`: the same wording of the same question.
unfoldable pub has_run : SocialSearchState → SearchIntent → Bool
has_run s i =
    any_by (λ a. same_question a.intent i && same_specificity a.intent.specificity i.specificity)
      s.searched_queries

-- A dictionary changed at the key of the intent.
abbrev at_question :
    {A : Type 0}
    → SearchIntent
    → (A → A)
    → (SocialPlatform → SearchIntentType → A)
    → SocialPlatform
    → SearchIntentType
    → A
at_question i f d p t =
    if same_platform i.platform p && same_type i.intent_type t then f (d p t) else d p t

-- The counters after an outcome that is no provider error.
abbrev counted_outcome : SearchOutcome → SocialSearchState → SocialSearchState
counted_outcome o s = record s {
  consecutive_provider_errors = 0;
  consecutive_low_yield_searches =
      if leb o.new_unique_places_count s.low_yield_new_places
      then s.consecutive_low_yield_searches + 1
      else 0;
  consecutive_zero_yield_searches =
      if o.new_unique_places_count == 0 then s.consecutive_zero_yield_searches + 1 else 0;
  consecutive_duplicate_heavy_searches =
      if is_duplicate_heavy (yield_type o) then s.consecutive_duplicate_heavy_searches + 1 else 0;
}

abbrev with_provider_error : SocialSearchState → SocialSearchState
with_provider_error s = record s { consecutive_provider_errors = s.consecutive_provider_errors + 1 }

-- The entries that every outcome makes.
abbrev pub entered : SearchIntent → String → SearchOutcome → SocialSearchState → SocialSearchState
entered i query o s = record s {
  attempts_by_intent = at_question i (λ n. n + 1) s.attempts_by_intent;
  searched_queries = s.searched_queries ++ record { intent = i; query = query; outcome = o } ∷ [];
  platform_stats = λ p.
      if same_platform i.platform p then recorded o (s.platform_stats p) else s.platform_stats p;
  intent_stats =
      λ t. if same_type i.intent_type t then recorded o (s.intent_stats t) else s.intent_stats t;
  platform_intent_stats = at_question i (recorded o) s.platform_intent_stats;
  last_search_new_places = o.new_unique_places_count;
  recent_new_place_counts = s.recent_new_place_counts ++ o.new_unique_places_count ∷ [];
}

unfoldable pub update_search_state :
    SearchIntent → String → SearchOutcome → SocialSearchState → SocialSearchState
unfolding yield_type
update_search_state i query o s =
    if is_provider_error (yield_type o)
    then with_provider_error (entered i query o s)
    else counted_outcome o (entered i query o s)

-- A text that is missing or empty is falsy.
abbrev has_text : Option String → Bool
has_text none = false
has_text (some t) = not (str_eq t "")

-- The locale is no Chinese one, or the name of the destination is translated; the intent does not
-- matter.
unfoldable pub is_buildable : SocialSearchState → SearchIntent → Bool
is_buildable s i = not (starts_with s.output_locale "zh") || has_text s.destination_local_name

unfoldable pub is_available : SocialSearchState → SearchIntent → Bool
unfolding is_buildable has_run
is_available s i =
    is_buildable s i && (not (has_run s i) && ltb (attempts_for s i) s.max_attempts_per_intent)
