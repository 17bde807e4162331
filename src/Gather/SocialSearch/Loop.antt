-- ===== src/Gather/SocialSearch/Loop.antt =====
-- The search of one city: mine_city of syncinerary/agents/gather/social.py, with search_page of
-- syncinerary/agents/gather/social_search.py.
-- The wording of a query, what a search brings back (its outcome and the places known after it), and
-- what the verification of the places found so far writes into the state are parameters; each may
-- depend on the whole state, which holds the history. The loop runs on fuel. Tracing is left out.
pub mod Bounds
use syncinerary.Prelude.{
  ℕ, zero, suc, String, List, [], ◌∷◌, Option, none, some, Bool, true, false, ◌&&◌, leb, ltb, ◌==◌,
  if◌then◌else◌,
}
use syncinerary.Gather.Intents.{
  SocialPlatform, instagram, discovery_platforms, SearchIntent, same_platform, same_question,
}
use syncinerary.Gather.SocialSearch.{
  SearchOutcome, SearchAction, MinedPlace, SocialSearchState, Thresholds,
  initialize_social_search_state, attempts_for, update_search_state,
}
use syncinerary.Gather.SocialSearch.Planner.{plan_next_search}

-- What `CityVerification.update` writes.
pub record Verified : Type 0 where
  pub reels : ℕ
  pub supply : ℕ × ℕ
  pub food : ℕ
  pub attractions : ℕ
  pub exhausted : Bool

pub record City : Type 0 where
  pub wording : SocialSearchState → SearchIntent → String
  pub run_search :
      SocialSearchState
      → SearchIntent
      → (query : String) → (offset : ℕ) → SearchOutcome × List MinedPlace
  pub verification : Option (SocialSearchState → Verified)

-- The first action with the key of the intent.
unfoldable pub first_asked : SearchIntent → List SearchAction → Option SearchAction
first_asked i [] = none
first_asked i (a ∷ actions) =
    let rest = first_asked i actions in if same_question a.intent i then some a else rest

abbrev page_after : String → Option SearchAction → String × ℕ
page_after query none = (query, 0)
page_after query (some previous) =
    if leb 20 previous.outcome.raw_results_count && ltb 1 previous.outcome.new_unique_places_count
    then (previous.query, 1)
    else (query, 0)

-- `search_page`
unfoldable pub search_page : SocialSearchState → SearchIntent → String → String × ℕ
unfolding first_asked
search_page s i query =
    if same_platform i.platform instagram && (attempts_for s i == 1)
    then page_after query (first_asked i s.searched_queries)
    else (query, 0)

abbrev pub with_verified : Verified → SocialSearchState → SocialSearchState
with_verified v s = record s {
  verified_reels = v.reels;
  verified_lane_supply = some v.supply;
  verified_food = v.food;
  verified_attractions = v.attractions;
  verification_exhausted = v.exhausted;
}

-- `if verification is not None: await verification.update(state)`
unfoldable pub verify :
    Option (SocialSearchState → Verified) → SocialSearchState → SocialSearchState
verify none s = s
verify (some update) s = with_verified (update s) s

abbrev pub page_for :
    Option (SocialSearchState → Verified) → SocialSearchState → SearchIntent → String → String × ℕ
page_for none s i query = (query, 0)
page_for (some update) s i query = search_page s i query

-- One turn of the loop, for the planned intent.
unfoldable pub search_once : City → SearchIntent → SocialSearchState → SocialSearchState
unfolding search_page verify
search_once city i s =
    let (query, offset) = page_for city.verification s i (city.wording s i) in
    let (outcome, mined) = city.run_search s i query offset in
    verify city.verification
      (update_search_state i query outcome (record s { discovered_places = mined }))

abbrev pub after_plan :
    (SearchIntent → SocialSearchState → Option SocialSearchState)
    → Option SearchIntent × SocialSearchState
    → Option SocialSearchState
after_plan continue (none, stopped) = some stopped
after_plan continue (some i, planned) = continue i planned

-- The loop, `none` where the fuel does not last.
unfoldable pub mine : City → (fuel : ℕ) → SocialSearchState → Option SocialSearchState
unfolding search_once
mine city zero s = none
mine city (suc fuel) s =
    after_plan (λ i planned. mine city fuel (search_once city i planned)) (plan_next_search s)

-- `mine_city`: the search starts from the state of its arguments, on all platforms.
unfoldable pub mine_city :
    City
    → (destination_local_name : Option String) → (target_candidates max_searches : ℕ)
    → (output_locale : String) → Thresholds
    → (fuel : ℕ) → Option SocialSearchState
unfolding mine verify
mine_city city local target max_searches locale thresholds fuel = mine city fuel (
    verify city.verification (
      initialize_social_search_state local target max_searches discovery_platforms locale
        thresholds))
