-- ===== src/Transit/Resolver.antt =====
-- The fallback chain of syncinerary/tools/transit/resolver.py.
-- What a provider answers to a request is a parameter: a matrix, or a failure of one kind (a leaked
-- transport error counts as `provider_error`). Tracing, logging and the closing of the providers are
-- left out. The dictionaries of legs and of statuses are lists of their entries: a pair is settled
-- once, so an assignment to `legs` always adds a key at the end.
-- The constructor's refusal of an empty chain is left out: an empty chain asks nobody here.
pub mod Chain
pub mod Subrequest
use syncinerary.Prelude.{
  ℕ, zero, suc, ◌+◌, ◌*◌, String, List, [], ◌∷◌, ◌++◌, map, Option, none, some, Bool, true, false,
  ◌&&◌, ◌||◌, not, any_by, filter_by, length, range_from, elem, ◌==◌, leb, if◌then◌else◌, str_eq,
}
use syncinerary.Prelude.Partial.{is_given}
use syncinerary.Prelude.Sorting.{sorted_by}
use syncinerary.Transit.Request.{
  Maths, TransitMode, transit, routed, estimated, TransitLocation, TransitDuration,
  PairwiseTransitRequest, TransitUnavailable, TransitMatrix, cache_id, location_at, choose_mode,
  estimated_transit_leg, wants,
}

pub data FailureKind : Type 0 where
  no_route provider_error unsupported rate_limited : FailureKind

pub data Role : Type 0 where
  primary secondary regional : Role

-- `_role`
abbrev pub role_of : ℕ → Role
role_of zero = primary
role_of (suc zero) = secondary
role_of (suc (suc i)) = regional

abbrev same_role : Role → Role → Bool
same_role primary primary = true
same_role secondary secondary = true
same_role regional regional = true
same_role _ _ = false

abbrev same_kind : FailureKind → FailureKind → Bool
same_kind no_route no_route = true
same_kind provider_error provider_error = true
same_kind unsupported unsupported = true
same_kind rate_limited rate_limited = true
same_kind _ _ = false

-- A `Counter` is the function of its counts.
pub record TransitResolutionStats : Type 0 where
  routed_by : Role → ℕ
  no_route_by : Role → ℕ
  errors : Role → FailureKind → ℕ
  pub estimated : ℕ
  unroutable : ℕ

abbrev pub empty_stats : TransitResolutionStats
empty_stats = record {
  routed_by = λ r. 0;
  no_route_by = λ r. 0;
  errors = λ r k. 0;
  estimated = 0;
  unroutable = 0;
}

abbrev bump_role : Role → (Role → ℕ) → Role → ℕ
bump_role role counts r = if same_role role r then counts r + 1 else counts r

abbrev bump_error : Role → FailureKind → (Role → FailureKind → ℕ) → Role → FailureKind → ℕ
bump_error role kind counts r k =
    if same_role role r && same_kind kind k then counts r k + 1 else counts r k

abbrev pub Pair : Type 0
Pair = ℕ × ℕ

abbrev pub PairKey : Type 0
PairKey = String × String

abbrev same_pair_key : PairKey → PairKey → Bool
same_pair_key (a, b) (c, d) = str_eq a c && str_eq b d

abbrev same_pair : Pair → Pair → Bool
same_pair (a, b) (c, d) = (a == c) && (b == d)

-- All pairs of the two indices, row by row.
abbrev grid : List ℕ → List ℕ → List Pair
grid [] js = []
grid (i ∷ is) js = map (λ j. (i, j)) js ++ grid is js

abbrev pub indices_of : List Pair → List ℕ
indices_of [] = []
indices_of ((i, j) ∷ pairs) = i ∷ j ∷ indices_of pairs

-- `set(…)`: one of each.
abbrev pub distinct : List ℕ → List ℕ
distinct [] = []
distinct (x ∷ xs) = let rest = distinct xs in if elem x xs then rest else x ∷ rest

abbrev pub involved_in : List Pair → List ℕ
involved_in pairs = sorted_by leb (distinct (indices_of pairs))

-- `remap[i]`
abbrev pub position : ℕ → List ℕ → ℕ
position i [] = 0
position i (x ∷ xs) = let rest = position i xs in if x == i then 0 else suc rest

-- `list(legs.values())`
abbrev pub leg_of {ℓ κ} : {A : Type ℓ} {B : Type κ} → A × B → B
leg_of (a, b) = b

module _ (m : Maths) where
  pub data Answer : Type 0 where
    failed : FailureKind → Answer
    answered : TransitMatrix m → Answer

  pub record TransitProvider : Type 0 where
    pub name : String
    pub prefetch : PairwiseTransitRequest m → Answer

  abbrev pub Request : Type 0
  Request = PairwiseTransitRequest m

  abbrev pair_key : TransitLocation m → TransitLocation m → PairKey
  pair_key origin destination = (cache_id m origin, cache_id m destination)

  -- `_pair_id`
  abbrev pub pair_id : Request → Pair → PairKey
  pair_id request (i, j) =
      pair_key (location_at m i request.locations) (location_at m j request.locations)

  abbrev is_transit : TransitMode → Bool
  is_transit transit = true
  is_transit _ = false

  abbrev is_required : Request → Pair → Bool
  is_required request (i, j) =
      not (i == j)
      && (wants m request (i, j)
          && is_transit (
              choose_mode m (location_at m i request.locations) (location_at m j request.locations)
                request.walking_cutoff_km))

  -- `_required_pairs`
  unfoldable pub required_pairs_of : Request → List Pair
  required_pairs_of request =
      let indices = range_from 0 (length request.locations) in
      filter_by (is_required request) (grid indices indices)

  -- `_subrequest`
  unfoldable pub subrequest : Request → List Pair → Request
  subrequest request pairs =
      let involved = involved_in pairs in
      record {
        locations = map (λ i. location_at m i request.locations) involved;
        departure_window = request.departure_window;
        departure_at = request.departure_at;
        walking_cutoff_km = request.walking_cutoff_km;
        required_pairs = some (map (λ (i, j). (position i involved, position j involved)) pairs);
      }

  -- `by_pair.get(key)`: of two legs with one key the later one stays.
  unfoldable pub leg_for : PairKey → List (TransitDuration m) → Option (TransitDuration m)
  leg_for key [] = none
  leg_for key (leg ∷ legs) = elim (leg_for key legs) [
    | some later ↦ some later
    | none ↦ if same_pair_key (pair_key leg.origin leg.destination) key then some leg else none
  ]

  -- `declined.get(key)`
  unfoldable pub status_for : PairKey → List (TransitUnavailable m) → Option String
  status_for key [] = none
  status_for key (u ∷ us) = elim (status_for key us) [
    | some later ↦ some later
    | none ↦ if same_pair_key (pair_key u.origin u.destination) key then some u.status else none
  ]

  -- The variables of the loop over the providers, with what outlives it: the counters, and the arcs
  -- that a provider of this name has declined.
  pub record Search : Type 0 where
    pub outstanding : List Pair
    pub legs : List (Pair × TransitDuration m)
    pub last_status : List (Pair × String)
    pub stats : TransitResolutionStats
    pub declined : List (String × PairKey)

  abbrev has_declined : String → PairKey → List (String × PairKey) → Bool
  has_declined name key declined = any_by (λ (n, k). str_eq n name && same_pair_key k key) declined

  -- A leg is found for the pair.
  abbrev with_leg : Role → Pair → TransitDuration m → Search → Search
  with_leg role pair leg s = record s {
    legs = s.legs ++ (pair, leg) ∷ [];
    stats = record s.stats { routed_by = bump_role role s.stats.routed_by };
  }

  -- No leg is found, and perhaps a refusal: the pair stays missing.
  abbrev still_missing : String → Role → PairKey → Pair → Option String → Search → Search
  still_missing name role key pair none s = record s { outstanding = s.outstanding ++ pair ∷ [] }
  still_missing name role key pair (some status) s = record s {
    outstanding = s.outstanding ++ pair ∷ [];
    last_status = (pair, status) ∷ s.last_status;
    stats = record s.stats { no_route_by = bump_role role s.stats.no_route_by };
    declined = (name, key) ∷ s.declined;
  }

  abbrev pub settle_pair :
      String → Role → PairKey → Pair → Option (TransitDuration m) → Option String → Search → Search
  settle_pair name role key pair (some leg) status s = with_leg role pair leg s
  settle_pair name role key pair none status s = still_missing name role key pair status s

  -- The loop over the outstanding pairs after an answer; `outstanding` of the state collects the
  -- pairs that are still missing.
  unfoldable pub settle_all :
      Request → String → Role → TransitMatrix m → List Pair → Search → Search
  unfolding leg_for status_for
  settle_all request name role matrix [] s = s
  settle_all request name role matrix (pair ∷ pairs) s =
      let key = pair_id request pair in
      settle_all request name role matrix pairs (
        settle_pair name role key pair (leg_for key matrix.legs) (status_for key matrix.unavailable)
          s)

  -- What `_ask` brings back: the failure is counted, an answer is matched to the pairs.
  unfoldable pub take_answer : Request → String → Role → Answer → Search → Search
  unfolding settle_all
  take_answer request name role (failed kind) s = record s {
    stats = record s.stats { errors = bump_error role kind s.stats.errors };
  }
  take_answer request name role (answered matrix) s =
      settle_all request name role matrix s.outstanding (record s { outstanding = [] })

  abbrev askable_of : Request → String → Search → List Pair
  askable_of request name s =
      filter_by (λ pair. not (has_declined name (pair_id request pair) s.declined)) s.outstanding

  -- The request that a provider sees: the whole day, or the askable arcs over their locations.
  unfoldable request_for : Request → (required askable : ℕ) → List Pair → Request
  unfolding subrequest
  request_for request required askable pairs =
      if (askable == required) && not (is_given request.required_pairs)
      then request
      else subrequest request pairs

  -- Whom the loop asks at this position, and with which answer: `none` where it breaks or continues.
  abbrev asked_with : Request → (required : ℕ) → TransitProvider → List Pair → Option Answer
  asked_with request required provider [] = none
  asked_with request required provider (pair ∷ pairs) =
      some (provider.prefetch (request_for request required (length (pair ∷ pairs)) (pair ∷ pairs)))

  unfoldable pub ask : Request → (required : ℕ) → TransitProvider → Search → Option Answer
  unfolding request_for
  ask request required provider s =
      asked_with request required provider (askable_of request provider.name s)

  unfoldable pub apply_answer : Request → String → Role → Option Answer → Search → Search
  unfolding take_answer
  apply_answer request name role none s = s
  apply_answer request name role (some answer) s = take_answer request name role answer s

  -- One round of the loop over the providers.
  unfoldable pub provider_step : Request → (required index : ℕ) → TransitProvider → Search → Search
  unfolding ask apply_answer
  provider_step request required index provider s =
      apply_answer request provider.name (role_of index) (ask request required provider s) s

  unfoldable pub run_chain : Request → (required index : ℕ) → List TransitProvider → Search → Search
  unfolding provider_step
  run_chain request required index [] s = s
  run_chain request required index (provider ∷ providers) s =
      run_chain request required (suc index) providers
        (provider_step request required index provider s)

  abbrev no_provider_route : String
  no_provider_route = "NO_PROVIDER_ROUTE"

  -- `last_status.get(pair, …)`
  unfoldable pub status_of : Pair → List (Pair × String) → String
  status_of pair [] = no_provider_route
  status_of pair ((p, status) ∷ rest) =
      let older = status_of pair rest in if same_pair p pair then status else older

  abbrev estimate_if : Bool → TransitLocation m → TransitLocation m → Option (ℕ × TransitMode)
  estimate_if false origin destination = none
  estimate_if true origin destination = estimated_transit_leg m origin destination

  -- The estimated leg of a pair, if there is one.
  unfoldable pub estimated_leg :
      (estimate_missing : Bool) → Request → Pair → Option (TransitDuration m)
  estimated_leg estimate_missing request (i, j) =
      let origin = location_at m i request.locations in
      let destination = location_at m j request.locations in
      elim (estimate_if estimate_missing origin destination) [
        | none ↦ none
        | some (minutes, mode) ↦ some (record {
          origin = origin;
          destination = destination;
          mode = mode;
          departure_window = request.departure_window;
          duration_seconds = minutes * 60;
          duration_minutes = minutes;
          cache_hit = false;
          provider = some "estimated";
          routing_status = estimated;
        })
      ]

  unfoldable pub unavailable_arc : Request → Pair → String → TransitUnavailable m
  unavailable_arc request (i, j) status = record {
    origin = location_at m i request.locations;
    destination = location_at m j request.locations;
    mode = transit;
    departure_window = request.departure_window;
    status = status;
    detail = some "no provider routed this pair and it is beyond estimate range";
  }

  abbrev pub finish_pair :
      Request
      → Pair
      → Option (TransitDuration m)
      → Search × List (TransitUnavailable m)
      → Search × List (TransitUnavailable m)
  finish_pair request pair none (s, unavailable) = (
    record s { stats = record s.stats { unroutable = s.stats.unroutable + 1 } },
    unavailable ++ unavailable_arc request pair (status_of pair s.last_status) ∷ [],
  )
  finish_pair request pair (some leg) (s, unavailable) = (
    record s {
      legs = s.legs ++ (pair, leg) ∷ [];
      stats = record s.stats { estimated = s.stats.estimated + 1 };
    },
    unavailable,
  )

  -- `_finish`
  unfoldable pub finish_pairs :
      (estimate_missing : Bool)
      → Request
      → List Pair
      → Search × List (TransitUnavailable m)
      → Search × List (TransitUnavailable m)
  unfolding estimated_leg unavailable_arc status_of
  finish_pairs estimate_missing request [] done = done
  finish_pairs estimate_missing request (pair ∷ pairs) done =
      finish_pairs estimate_missing request pairs
        (finish_pair request pair (estimated_leg estimate_missing request pair) done)

  -- `FallbackTransitResolver`: what it keeps between the calls.
  pub record Resolver : Type 0 where
    pub providers : List TransitProvider
    pub estimate_missing : Bool
    pub stats : TransitResolutionStats
    pub declined : List (String × PairKey)

  abbrev pub start_search : Request → Resolver → Search
  start_search request r = record {
    outstanding = required_pairs_of request;
    legs = [];
    last_status = [];
    stats = r.stats;
    declined = r.declined;
  }

  abbrev pub resolved : Resolver → Search × List (TransitUnavailable m) → TransitMatrix m × Resolver
  resolved r (s, unavailable) = (
    record { legs = map leg_of s.legs; unavailable = unavailable },
    record r { stats = s.stats; declined = s.declined },
  )

  -- `prefetch_pairwise`. With nothing outstanding the code returns or breaks at once; here the rounds
  -- that are left ask nobody.
  unfoldable pub prefetch_pairwise : Request → Resolver → TransitMatrix m × Resolver
  unfolding required_pairs_of run_chain finish_pairs
  prefetch_pairwise request r =
      let required = required_pairs_of request in
      let s = run_chain request (length required) 0 r.providers (start_search request r) in
      resolved r (finish_pairs r.estimate_missing request s.outstanding (s, []))
