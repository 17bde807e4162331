-- ===== src/Gather/SocialSearch/Planner.antt =====
-- The rules that choose the next search: plan_next_search of
-- syncinerary/agents/gather/social_search.py and what it calls.
use syncinerary.Prelude.{
  ℕ, ◌-◌, List, [], ◌∷◌, ◌++◌, Option, none, some, Bool, true, false, ◌&&◌, ◌||◌, not, any_by,
  filter_by, length, drop, ltb, leb, ◌==◌, if◌then◌else◌,
}
use syncinerary.Prelude.Partial.{is_given, or_else}
use text.Mathlib.Text.{starts_with}
use syncinerary.Gather.Intents.{
  SocialPlatform, instagram, rednote, SearchIntentType, food, specific, normal, SearchIntent,
  same_platform, same_type, opening_sequence,
}
use syncinerary.Gather.SocialSearch.{StopReason, SearchAction, SocialSearchState, searches_used}
use syncinerary.Gather.SocialSearch.Choices.{
  first_given, intent_of, if_available, opening_intent, cold_start_intent, recovery_intent,
  lane_gap_intent, any_remaining_intent, Lane, lane_deficits,
}

abbrev pub has_platform : SocialPlatform → SocialSearchState → Bool
has_platform p s = any_by (same_platform p) s.platforms

-- `xs[-n:]`, which is the whole list for n = 0.
abbrev last_items {ℓ} : {A : Type ℓ} → ℕ → List A → List A
last_items n xs = if n == 0 then xs else drop (length xs - n) xs

abbrev is_informative_reel : SearchAction → Bool
is_informative_reel a =
    same_platform a.intent.platform instagram && not (is_given a.outcome.provider_error)

-- The guards of `_chinese_rednote_recovery`.
unfoldable pub probes_rednote : SocialSearchState → Bool
probes_rednote s =
    let reels = filter_by is_informative_reel s.searched_queries in
    starts_with s.output_locale "zh"
    && has_platform rednote s
    && (leb s.platform_probe_min (length reels)
        && not (
            any_by (λ a. ltb s.low_yield_new_places a.outcome.new_unique_places_count)
              (last_items s.platform_probe_min reels)))

unfoldable pub chinese_rednote_recovery : SocialSearchState → Option SearchIntent
unfolding first_given if_available probes_rednote
chinese_rednote_recovery s =
    if probes_rednote s
    then first_given (λ t. if_available s (intent_of rednote t specific)) opening_sequence
    else none

abbrev remove_type : SearchIntentType → List SearchIntentType → List SearchIntentType
remove_type t [] = []
remove_type t (u ∷ us) = let rest = remove_type t us in if same_type u t then us else u ∷ rest

abbrev types_of : List Lane → List SearchIntentType
types_of [] = []
types_of (lane ∷ lanes) = lane.intent_types ++ types_of lanes

-- The kinds to probe for Reels, food first while food is short.
unfoldable pub reel_kinds : SocialSearchState → List SearchIntentType
unfolding lane_deficits
reel_kinds s =
    let kinds = types_of (lane_deficits s) in
    if ltb s.verified_food s.food_target then food ∷ remove_type food kinds else kinds

abbrev pub if_on_platform : SocialSearchState → SearchIntent → Option SearchIntent
if_on_platform s i = if has_platform instagram s then if_available s i else none

-- The block of `plan_next_search` for Reels that are short.
unfoldable pub reel_intent : SocialSearchState → Option SearchIntent
unfolding first_given if_available chinese_rednote_recovery reel_kinds
reel_intent s =
    if ltb s.verified_reels s.reel_target
    then or_else (chinese_rednote_recovery s) (
        first_given
          (λ w. first_given (λ t. if_on_platform s (intent_of instagram t w)) (reel_kinds s))
          (specific ∷ normal ∷ []))
    else none

-- The goal is reached: every target of the trip, and no lane is short.
unfoldable pub is_covered : SocialSearchState → Bool
unfolding lane_deficits
is_covered s =
    (not (s.target_candidates == 0)
      && (leb s.reel_target s.verified_reels
          && (leb s.food_target s.verified_food && leb s.attraction_target s.verified_attractions)))
    && not (any_by (λ lane. not (lane.short == 0)) (lane_deficits s))

pub data Decision : Type 0 where
  search : SearchIntent → Decision
  stop_for : StopReason → Decision

abbrev pub search_or : Option SearchIntent → Decision → Decision
search_or none d = d
search_or (some i) d = search i

abbrev pub is_empty {ℓ} : {A : Type ℓ} → List A → Bool
is_empty [] = true
is_empty (x ∷ xs) = false

-- The guards that stand before the opening.
unfoldable pub early_stop : SocialSearchState → Option StopReason
unfolding is_covered
early_stop s =
    if leb s.max_searches (searches_used s)
    then some StopReason.search_budget_reached
    else if s.verification_exhausted
    then some StopReason.verification_budget_reached
    else if is_covered s
    then some StopReason.target_reached
    else if leb s.max_consecutive_provider_errors s.consecutive_provider_errors
    then some StopReason.provider_unavailable
    else none

-- The rest of the rules, once something was found or the cold start is over.
unfoldable pub adaptive_decision : SocialSearchState → Decision
unfolding recovery_intent lane_gap_intent any_remaining_intent
adaptive_decision s =
    if leb s.max_consecutive_low_yield s.consecutive_low_yield_searches
      || leb s.max_consecutive_duplicate_heavy s.consecutive_duplicate_heavy_searches
    then stop_for StopReason.low_yield
    else search_or (recovery_intent s) (
        search_or (lane_gap_intent s)
          (search_or (any_remaining_intent s) (stop_for StopReason.no_search_actions_left)))

unfoldable pub late_decision : SocialSearchState → Decision
unfolding cold_start_intent adaptive_decision
late_decision s =
    if is_empty s.discovered_places && ltb (searches_used s) s.cold_start_max_searches
    then search_or (cold_start_intent s) (stop_for StopReason.no_search_actions_left)
    else adaptive_decision s

abbrev pub decision_after : SocialSearchState → Option StopReason → Decision
decision_after s (some reason) = stop_for reason
decision_after s none = search_or (opening_intent s) (search_or (reel_intent s) (late_decision s))

unfoldable pub decide_next : SocialSearchState → Decision
unfolding early_stop opening_intent reel_intent late_decision
decide_next s = decision_after s (early_stop s)

abbrev pub planned : SocialSearchState → Decision → Option SearchIntent × SocialSearchState
planned s (search i) = (some i, s)
planned s (stop_for reason) = (none, record s { stop_reason = some reason })

-- `plan_next_search`, which writes the reason for a stop into the state.
unfoldable pub plan_next_search : SocialSearchState → Option SearchIntent × SocialSearchState
unfolding decide_next
plan_next_search s = planned s (decide_next s)
