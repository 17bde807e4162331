-- ===== src/Gather/SocialSearch/Choices.antt =====
-- How syncinerary/agents/gather/social_search.py chooses among the intents that are left: the platforms
-- by priority, the opening, the cold start, the recovery and the lanes that are short.
-- Each intent is chosen by going through candidates in order; `first_given` is such a loop with its
-- early return. Fractions are compared by cross-multiplication.
use syncinerary.Prelude.{
  ℕ, suc, ◌+◌, ◌-◌, ◌*◌, ◌/◌, max, List, [], ◌∷◌, Option, none, some, Bool, true, false, ◌&&◌,
  any_by, count_by, filter_by, leb, ◌==◌, if◌then◌else◌,
}
use syncinerary.Prelude.Partial.{is_given, or_else}
use syncinerary.Prelude.Sorting.{sorted_by, then_by}
use syncinerary.Gather.Intents.{
  SocialPlatform, SearchIntentType, places, food, hidden_gems, QuerySpecificity, specific, normal,
  broad, SearchIntent, same_platform, same_type, opening_sequence, trending_intents,
  for_you_intents, broadened,
}
use syncinerary.Gather.SocialSearch.{
  SearchYield, no_search_results, no_mentions, yield_type, SearchAction, SearchStats, MinedPlace,
  SocialSearchState, is_buildable, is_available,
}

-- `for x in xs: if (y := f(x)) is not None: return y`
unfoldable pub first_given {ℓ κ} : {A : Type ℓ} {B : Type κ} → (A → Option B) → List A → Option B
first_given f [] = none
first_given f (x ∷ xs) = or_else (f x) (first_given f xs)

abbrev pub intent_of : SocialPlatform → SearchIntentType → QuerySpecificity → SearchIntent
intent_of p t w = record { platform = p; intent_type = t; specificity = w }

-- `if is_available(state, intent): return intent`
unfoldable pub if_available : SocialSearchState → SearchIntent → Option SearchIntent
if_available s i = if is_available s i then some i else none

-- `available_platforms`
unfoldable pub available_platforms : SocialSearchState → List SocialPlatform
available_platforms s = filter_by (λ p. is_buildable s (intent_of p places specific)) s.platforms

-- `tuple.index(value)`, or the length where it does not occur.
abbrev index_of {ℓ} : {A : Type ℓ} → (A → Bool) → List A → ℕ
index_of same [] = 0
index_of same (x ∷ xs) = let rest = index_of same xs in if same x then 0 else suc rest

abbrev stats_for : SocialSearchState → Option SearchIntentType → SocialPlatform → SearchStats
stats_for s none p = s.platform_stats p
stats_for s (some t) p = s.platform_intent_stats p t

abbrev number : Bool → ℕ
number b = if b then 1 else 0

abbrev unproductive : SocialSearchState → SearchStats → ℕ
unproductive s st = number (leb s.platform_probe_min st.searches && (st.new_unique_places == 0))

-- The key of `platform_priority` as a test of two platforms, "not after": whether unproductive, the
-- place in the tuple of platforms, the yield per search downwards, and the searches.
unfoldable pub platform_leb :
    SocialSearchState → Option SearchIntentType → SocialPlatform → SocialPlatform → Bool
platform_leb s t =
    then_by (λ p q. leb (unproductive s (stats_for s t p)) (unproductive s (stats_for s t q)))
      (then_by
        (λ p q.
          leb (index_of (same_platform p) s.platforms) (index_of (same_platform q) s.platforms))
        (then_by
          (λ p q.
            leb ((stats_for s t q).new_unique_places * max (stats_for s t p).searches 1)
              ((stats_for s t p).new_unique_places * max (stats_for s t q).searches 1))
          (λ p q. leb (stats_for s t p).searches (stats_for s t q).searches)))

-- `platforms_by_priority`
unfoldable pub platforms_by_priority :
    SocialSearchState → Option SearchIntentType → List SocialPlatform
unfolding available_platforms platform_leb
platforms_by_priority s t = sorted_by (platform_leb s t) (available_platforms s)

-- The order of the platforms in `_first_available`.
abbrev pub platform_order :
    SocialSearchState → SearchIntentType → (by_pair : Bool) → List SocialPlatform
platform_order s t true = platforms_by_priority s (some t)
platform_order s t false =
    sorted_by (λ p q. leb (s.platform_stats p).searches (s.platform_stats q).searches)
      (platforms_by_priority s none)

-- `_first_available`
unfoldable pub first_available :
    SocialSearchState → (by_pair : Bool) → SearchIntentType → Option SearchIntent
unfolding first_given if_available platforms_by_priority
first_available s by_pair t =
    first_given (λ p. if_available s (intent_of p t specific)) (platform_order s t by_pair)

-- One turn of `_opening_intent`: an intent that was ever asked for is skipped.
abbrev pub opening_for : SocialSearchState → SearchIntentType → Option SearchIntent
opening_for s t = if (s.intent_stats t).searches == 0 then first_available s false t else none

-- `_opening_intent`
unfoldable pub opening_intent : SocialSearchState → Option SearchIntent
unfolding first_given first_available
opening_intent s = first_given (opening_for s) opening_sequence

-- `_cold_start_intent`
unfoldable pub cold_start_intent : SocialSearchState → Option SearchIntent
unfolding first_given if_available platforms_by_priority
cold_start_intent s =
    first_given
      (λ p.
        first_given (λ t. first_given (λ w. if_available s (intent_of p t w)) (normal ∷ broad ∷ []))
          opening_sequence)
      (platforms_by_priority s none)

-- The last action that was no provider error.
unfoldable pub last_informative_action : List SearchAction → Option SearchAction
last_informative_action [] = none
last_informative_action (a ∷ actions) =
    or_else (last_informative_action actions)
      (if is_given a.outcome.provider_error then none else some a)

-- `VENUE_BEARING_INTENTS`
abbrev pub venue_bearing_intents : List SearchIntentType
venue_bearing_intents = food ∷ hidden_gems ∷ []

abbrev pub wider_intent : SocialSearchState → Option SearchIntent → Option SearchIntent
wider_intent s none = none
wider_intent s (some wider) = if_available s wider

-- The reaction to the kind of the last outcome.
abbrev pub reaction : SocialSearchState → SearchIntent → SearchYield → Option SearchIntent
reaction s i no_mentions =
    or_else
      (first_given (λ t. if_available s (intent_of i.platform t specific)) venue_bearing_intents)
      (wider_intent s (broadened i))
reaction s i no_search_results = wider_intent s (broadened i)
reaction s i _ = none

-- `_recovery_intent`
abbrev pub recovery_after : SocialSearchState → Option SearchAction → Option SearchIntent
recovery_after s none = none
recovery_after s (some a) = reaction s a.intent (yield_type a.outcome)

unfoldable pub recovery_intent : SocialSearchState → Option SearchIntent
unfolding first_given if_available last_informative_action yield_type broadened
recovery_intent s = recovery_after s (last_informative_action s.searched_queries)

-- `lane_slots`: the ceiling of seven tenths, and the rest.
unfoldable lane_slots : ℕ → ℕ × ℕ
lane_slots budget = let trending = (budget * 7 + 9) / 10 in (trending, budget - trending)

abbrev found_by : List SearchIntentType → MinedPlace → Bool
found_by types place = any_by (λ t. any_by (same_type t) types) place.intent_types

abbrev mined_supply : Option (ℕ × ℕ) → List MinedPlace → ℕ × ℕ
mined_supply (some supply) mined = supply
mined_supply none mined =
    (count_by (found_by trending_intents) mined, count_by (found_by for_you_intents) mined)

-- `lane_supply`
unfoldable lane_supply : SocialSearchState → ℕ × ℕ
lane_supply s = mined_supply s.verified_lane_supply s.discovered_places

-- A lane with its shortfall as a fraction: `_deficit`.
pub record Lane : Type 0 where
  pub short : ℕ
  pub target : ℕ
  pub intent_types : List SearchIntentType

abbrev lane_for : (supply target : ℕ) → List SearchIntentType → Lane
lane_for supply target types =
    if target == 0
    then record { short = 0; target = 1; intent_types = types }
    else record { short = target - supply; target = target; intent_types = types }

abbrev lane_leb : Lane → Lane → Bool
lane_leb a b = leb (b.short * a.target) (a.short * b.target)

-- `lane_deficits`: worst first.
unfoldable pub lane_deficits : SocialSearchState → List Lane
unfolding lane_slots lane_supply
lane_deficits s =
    let (trending_target, for_you_target) = lane_slots s.target_candidates in
    let (trending_supply, for_you_supply) = lane_supply s in
    sorted_by lane_leb (
      lane_for for_you_supply for_you_target for_you_intents
      ∷ lane_for trending_supply trending_target trending_intents
      ∷ [])

-- The order of a lane's intents: least found, least searched, first in the opening.
unfoldable pub intent_leb : SocialSearchState → SearchIntentType → SearchIntentType → Bool
intent_leb s =
    then_by (λ t u. leb (s.intent_stats t).new_unique_places (s.intent_stats u).new_unique_places)
      (then_by (λ t u. leb (s.intent_stats t).searches (s.intent_stats u).searches)
        (λ t u.
          leb (index_of (same_type t) opening_sequence) (index_of (same_type u) opening_sequence)))

abbrev pub gap_in : SocialSearchState → Lane → Option SearchIntent
gap_in s lane =
    if lane.short == 0
    then none
    else first_given (first_available s true) (sorted_by (intent_leb s) lane.intent_types)

-- `_lane_gap_intent`
unfoldable pub lane_gap_intent : SocialSearchState → Option SearchIntent
unfolding first_given first_available lane_deficits intent_leb
lane_gap_intent s = first_given (gap_in s) (lane_deficits s)

-- `_any_remaining_intent`
unfoldable pub any_remaining_intent : SocialSearchState → Option SearchIntent
unfolding first_given first_available
any_remaining_intent s = first_given (first_available s true) (
    sorted_by (λ t u. leb (s.intent_stats t).new_unique_places (s.intent_stats u).new_unique_places)
      opening_sequence)
