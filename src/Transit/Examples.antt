-- ===== src/Transit/Examples.antt =====
-- The transit chain on three places of a line, with whole numbers for the floats: the primary provider
-- is down and the secondary one knows a single arc.
use mathlib.Core.List.{Perm}
use syncinerary.Prelude.{
  ℕ, ◌+◌, ◌-◌, ◌*◌, ◌/◌, ◌≡◌, refl, List, [], ◌∷◌, map, none, some, false, true, ltb, leb, ◌==◌,
  if◌then◌else◌, length, return, str_eq,
}
use syncinerary.Prelude.Partial.{collect, missing}
use syncinerary.Consensus.Scoring.{Floats}
use syncinerary.Transit.Request.{
  Maths, TransitLocation, TransitDuration, transit, routed, check_request, wants, choose_mode,
  location_at, cache_id, estimated_transit_leg,
}
use syncinerary.Transit.Resolver.{
  Request, Resolver, TransitProvider, failed, answered, unsupported, empty_stats, Pair, pair_id,
  required_pairs_of, subrequest, prefetch_pairwise,
}
use syncinerary.Transit.Resolver.Chain.{owed, answers_to, arc_of, arc_at, prefetch_pairwise-refines}
use syncinerary.Transit.Resolver.Subrequest.{named_arcs, subrequest-keeps_arcs}

abbrev whole : Floats
whole = record {
  Float = ℕ;
  of_int = λ n. n;
  add = λ x y. x + y;
  sub = λ x y. if ltb x y then y - x else x - y;
  mul = λ x y. x * y;
  div = λ x y. x / y;
  neg = λ x. x;
  leb = leb;
}

abbrev maths : Maths
maths = record {
  floats = whole;
  literal = λ s. if str_eq s "2.0" then 2 else if str_eq s "30.0" then 30 else 1;
  radians = λ x. x;
  sin = λ x. x;
  cos = λ x. 1;
  asin = λ x. x;
  sqrt = λ x. x;
  round = λ x. x;
  fixed_six = λ x. if x == 0 then "zero" else if x == 4 then "four" else "twenty";
}

abbrev at : ℕ → TransitLocation maths
at x = record { place_id = none; lat = x; lng = 0 }

abbrev morning : Request maths
morning = record {
  locations = at 0 ∷ at 4 ∷ at 20 ∷ [];
  departure_window = "morning";
  departure_at = none;
  walking_cutoff_km = 2;
  required_pairs = none;
}

abbrev known_leg : TransitDuration maths
known_leg = record {
  origin = at 0;
  destination = at 20;
  mode = transit;
  departure_window = "morning";
  duration_seconds = 900;
  duration_minutes = 15;
  cache_hit = false;
  provider = some "second";
  routing_status = routed;
}

abbrev down : TransitProvider maths
down = record { name = "first"; prefetch = λ _. failed unsupported }

abbrev one_arc : TransitProvider maths
one_arc = record {
  name = "second";
  prefetch = λ _. answered (record { legs = known_leg ∷ []; unavailable = [] });
}

abbrev resolver : Resolver maths
resolver = record {
  providers = down ∷ one_arc ∷ [];
  estimate_missing = true;
  stats = empty_stats;
  declined = [];
}

-- The pair 0, 20 is routed by the second provider, the pairs of 0 and 4 are estimated, and the other
-- three are too far.
morning_result : length (prefetch_pairwise maths morning resolver).0.legs ≡ 3
unfolding prefetch_pairwise wants choose_mode location_at cache_id estimated_transit_leg
morning_result = refl

prefetch_pairwise-refines_example :
    let (matrix, _) = prefetch_pairwise maths morning resolver in
    let required = required_pairs_of maths morning in
    let owed_leg = owed maths morning true (answers_to maths morning resolver) in
    Perm matrix.legs (collect owed_leg required)
    × (map (arc_of maths morning) matrix.unavailable
        ≡ map (arc_at maths morning) (missing owed_leg required))
prefetch_pairwise-refines_example = prefetch_pairwise-refines maths morning resolver

abbrev two_arcs : List Pair
two_arcs = (2, 0) ∷ (0, 2) ∷ []

subrequest-keeps_arcs_example :
    let sub = subrequest maths morning two_arcs in
    (check_request maths sub ≡ return tt)
    × (named_arcs maths sub ≡ map (pair_id maths morning) two_arcs)
subrequest-keeps_arcs_example = subrequest-keeps_arcs maths morning two_arcs (refl, (refl, tt))
