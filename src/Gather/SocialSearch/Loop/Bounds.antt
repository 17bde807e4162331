-- ===== src/Gather/SocialSearch/Loop/Bounds.antt =====
-- The loop of mine_city in syncinerary/agents/gather/social.py ends within its budget.
use syncinerary.Prelude.{
  ℕ, zero, suc, ◌+◌, ◌≤◌, ◌<◌, ◌≡◌, refl, ◌∙◌, String, List, Option, none, some, true, arith, subst,
}
use syncinerary.Gather.Intents.{SocialPlatform, SearchIntent, discovery_platforms}
use syncinerary.Gather.SocialSearch.{
  StopReason, SearchOutcome, MinedPlace, SocialSearchState, Thresholds, searches_used, is_available,
  initialize_social_search_state, update_search_state, is_buildable, has_run,
}
use syncinerary.Gather.SocialSearch.Counters.{
  Consistent, update_search_state-Consistent, update_search_state-used,
}
use syncinerary.Gather.SocialSearch.Planner.{
  Decision, search, stop_for, decide_next, planned, plan_next_search,
}
use syncinerary.Gather.SocialSearch.Stopping.{MaySearch, Justified, Sound, decide_next-Sound}
use syncinerary.Gather.SocialSearch.Loop.{
  Verified, City, verify, with_verified, page_for, search_once, mine, after_plan, mine_city,
}

-- A state of the loop: consistent, and within the budget.
record Running (s : SocialSearchState) : Type 0 where
  consistent : Consistent s
  in_budget : searches_used s ≤ s.max_searches

-- One more search, under the same budget.
record Advanced (s after : SocialSearchState) : Type 0 where
  is_running : Running after
  one_more : searches_used after ≡ searches_used s + 1
  same_budget : after.max_searches ≡ s.max_searches

with_verified-Running :
    (v : Verified) (s : SocialSearchState) → Running s → Running (with_verified v s)
with_verified-Running v s r = record {
  consistent = record {
    attempts_counted = r.consistent.attempts_counted;
    attempts_capped = r.consistent.attempts_capped;
    no_repeats = r.consistent.no_repeats;
    duplicates_in_zero = r.consistent.duplicates_in_zero;
    zero_in_low = r.consistent.zero_in_low;
    low_in_used = r.consistent.low_in_used;
    errors_in_used = r.consistent.errors_in_used;
  };
  in_budget = r.in_budget;
}

verify-Running :
    (o : Option (SocialSearchState → Verified)) (s : SocialSearchState)
    → Running s
    → Running (verify o s)
unfolding verify
verify-Running none s r = r
verify-Running (some update) s r = with_verified-Running (update s) s r

verify-unchanged :
    (o : Option (SocialSearchState → Verified)) (s : SocialSearchState)
    → (searches_used (verify o s) ≡ searches_used s) × ((verify o s).max_searches ≡ s.max_searches)
unfolding verify
verify-unchanged none s = (refl, refl)
verify-unchanged (some update) s = (refl, refl)

update_search_state-Advanced :
    (i : SearchIntent) (query : String) (o : SearchOutcome) (s : SocialSearchState)
    → Running s
    → is_available s i ≡ true
    → searches_used s < s.max_searches
    → Advanced s (update_search_state i query o s)
update_search_state-Advanced i query o s r available left =
    let (used, budget) = update_search_state-used i query o s in
    record {
      is_running = record {
        consistent = update_search_state-Consistent i query o s r.consistent available;
        in_budget = omega (arith, used, budget, left);
      };
      one_more = used;
      same_budget = budget;
    }

-- The state once the places of a search are merged.
abbrev with_places : List MinedPlace → SocialSearchState → SocialSearchState
with_places mined s = record s { discovered_places = mined }

with_places-Running :
    (mined : List MinedPlace) (s : SocialSearchState) → Running s → Running (with_places mined s)
with_places-Running mined s r = record {
  consistent = record {
    attempts_counted = r.consistent.attempts_counted;
    attempts_capped = r.consistent.attempts_capped;
    no_repeats = r.consistent.no_repeats;
    duplicates_in_zero = r.consistent.duplicates_in_zero;
    zero_in_low = r.consistent.zero_in_low;
    low_in_used = r.consistent.low_in_used;
    errors_in_used = r.consistent.errors_in_used;
  };
  in_budget = r.in_budget;
}

with_places-is_available :
    (mined : List MinedPlace) (s : SocialSearchState) (i : SearchIntent)
    → is_available (with_places mined s) i ≡ is_available s i
unfolding is_available is_buildable has_run
with_places-is_available mined s i = refl

verify-Advanced :
    (o : Option (SocialSearchState → Verified)) (s after : SocialSearchState)
    → Advanced s after
    → Advanced s (verify o after)
verify-Advanced o s after a = record {
  is_running = verify-Running o after a.is_running;
  one_more = (verify-unchanged o after).0 ∙ a.one_more;
  same_budget = (verify-unchanged o after).1 ∙ a.same_budget;
}

search_once-Advanced :
    (city : City) (i : SearchIntent) (s : SocialSearchState)
    → Running s
    → MaySearch s i
    → Advanced s (search_once city i s)
unfolding search_once
search_once-Advanced city i s r may =
    let (query, offset) = page_for city.verification s i (city.wording s i) in
    let (outcome, mined) = city.run_search s i query offset in
    let a =
      update_search_state-Advanced i query outcome (with_places mined s)
        (with_places-Running mined s r) (with_places-is_available mined s i ∙ may.available)
        may.in_budget in
    verify-Advanced city.verification s (update_search_state i query outcome (with_places mined s))
      (record { is_running = a.is_running; one_more = a.one_more; same_budget = a.same_budget })

-- How the loop ends: some state of it was given up for a reason that was true there.
pub record Ended (budget : ℕ) (final : SocialSearchState) : Type 0 where
  pub last : SocialSearchState
  pub reason : StopReason
  pub stopped : final ≡ record last { stop_reason = some reason }
  pub justified : Justified last reason
  pub consistent : Consistent last
  pub in_budget : searches_used last ≤ budget

-- The loop returns from here, and ends well.
Ends : City → (fuel : ℕ) → SocialSearchState → Type 0
Ends city fuel s =
    (final : SocialSearchState) × ((mine city fuel s ≡ some final) × Ended s.max_searches final)

turn-Ends :
    (city : City) (fuel : ℕ) (s : SocialSearchState) (d : Decision)
    → Running s
    → Sound s d
    → s.max_searches < searches_used s + suc fuel
    → ((t : SocialSearchState)
        → Running t
        → t.max_searches < searches_used t + fuel
        → Ends city fuel t)
    → (final : SocialSearchState) × ((after_plan
            (λ i plan. mine city fuel (search_once city i plan))
            (planned s d)
          ≡ some final)
        × Ended s.max_searches final)
unfolding Ends Sound
turn-Ends city fuel s (stop_for reason) r sound enough later = (
  record s { stop_reason = some reason },
  (
    refl,
    record {
      last = s;
      reason = reason;
      stopped = refl;
      justified = sound;
      consistent = r.consistent;
      in_budget = r.in_budget;
    },
  ),
)
turn-Ends city fuel s (search i) r sound enough later =
    let a = search_once-Advanced city i s r sound in
    let (final, (returns, ended)) =
      later (search_once city i s) a.is_running
        (omega (arith, a.one_more, a.same_budget, enough)) in
    (final, (returns, subst (λ budget. Ended budget final) a.same_budget ended))

mine-Ends :
    (city : City) (fuel : ℕ) (s : SocialSearchState)
    → Running s
    → s.max_searches < searches_used s + fuel
    → Ends city fuel s
unfolding Ends mine plan_next_search
mine-Ends city zero s r enough = absurd (omega (arith, enough, r.in_budget))
mine-Ends city (suc fuel) s r enough =
    turn-Ends city fuel s (decide_next s) r (decide_next-Sound s) enough (mine-Ends city fuel)

initial-Running :
    (local : Option String) (target max_searches : ℕ) (platforms : List SocialPlatform)
    (locale : String) (thresholds : Thresholds)
    → Running (initialize_social_search_state local target max_searches platforms locale thresholds)
unfolding initialize_social_search_state
initial-Running local target max_searches platforms locale thresholds = record {
  consistent = record {
    attempts_counted = λ p t. refl;
    attempts_capped = λ p t. omega arith;
    no_repeats = tt;
    duplicates_in_zero = omega arith;
    zero_in_low = omega arith;
    low_in_used = omega arith;
    errors_in_used = omega arith;
  };
  in_budget = omega arith;
}

-- The search of a city ends, whatever its targets and other thresholds, and whatever its searches and
-- its verification bring: with more fuel than the budget of searches the loop returns, within the
-- budget, with a reason for the stop that was true of the last state. There no wording of a question
-- has run twice, the attempts of every question were counted exactly and are within their limit, and
-- the counters of dry searches are ordered and do not exceed the number of searches.
pub mine_city-ends :
    (city : City) (local : Option String) (target max_searches : ℕ) (locale : String)
    (thresholds : Thresholds) (fuel : ℕ)
    → max_searches < fuel
    → (final : SocialSearchState) × ((mine_city city local target max_searches locale thresholds
            fuel
          ≡ some final)
        × Ended max_searches final)
unfolding mine_city Ends initialize_social_search_state
mine_city-ends city local target max_searches locale thresholds fuel enough =
    let s0 =
      initialize_social_search_state local target max_searches discovery_platforms locale
        thresholds in
    let (used, budget) = verify-unchanged city.verification s0 in
    let (final, (returns, ended)) =
      mine-Ends city fuel (verify city.verification s0)
        (verify-Running city.verification s0
          (initial-Running local target max_searches discovery_platforms locale thresholds))
        (omega (arith, used, budget, enough)) in
    (final, (returns, subst (λ b. Ended b final) budget ended))
