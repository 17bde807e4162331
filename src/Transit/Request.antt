-- ===== src/Transit/Request.antt =====
-- The inputs and outputs of a transit lookup, syncinerary/tools/transit/models.py, and the estimate
-- by distance, syncinerary/tools/transit/estimate.py.
-- Floating point, its mathematical functions and Python's formatting of a float are parameters.
use syncinerary.Prelude.{
  ℕ, zero, suc, ◌+◌, max, String, List, [], ◌∷◌, Option, none, some, Bool, true, ◌&&◌, ◌||◌, not,
  any_by, length, ltb, ◌==◌, if◌then◌else◌, Outcome, return, raise, str_eq,
}
use Prim.Native.String.{◌++◌}
use syncinerary.Consensus.Scoring.{Floats}

pub data TransitMode : Type 0 where
  walking transit : TransitMode

pub data RoutingStatus : Type 0 where
  routed estimated : RoutingStatus

-- What the code takes from Python's `math` and formatting.
pub record Maths : Type 1 where
  pub floats : Floats
  -- A decimal literal of the source.
  pub literal : String → floats.Float
  pub radians : floats.Float → floats.Float
  pub sin : floats.Float → floats.Float
  pub cos : floats.Float → floats.Float
  pub asin : floats.Float → floats.Float
  pub sqrt : floats.Float → floats.Float
  -- `round` of a float that is not negative.
  pub round : floats.Float → ℕ
  -- `f"{x:.6f}"`
  pub fixed_six : floats.Float → String

module _ (m : Maths) where
  abbrev pub Float : Type 0
  Float = m.floats.Float

  pub record TransitLocation : Type 0 where
    pub place_id : Option String
    pub lat : Float
    pub lng : Float

  pub record TransitDuration : Type 0 where
    pub origin : TransitLocation
    pub destination : TransitLocation
    pub mode : TransitMode
    pub departure_window : String
    pub duration_seconds : ℕ
    pub duration_minutes : ℕ
    pub cache_hit : Bool
    pub provider : Option String
    pub routing_status : RoutingStatus

  pub record PairwiseTransitRequest : Type 0 where
    pub locations : List TransitLocation
    pub departure_window : String
    pub departure_at : Option ℕ
    pub walking_cutoff_km : Float
    pub required_pairs : Option (List (ℕ × ℕ))

  pub record TransitUnavailable : Type 0 where
    pub origin : TransitLocation
    pub destination : TransitLocation
    pub mode : TransitMode
    pub departure_window : String
    pub status : String
    pub detail : Option String

  pub record TransitMatrix : Type 0 where
    pub legs : List TransitDuration
    pub unavailable : List TransitUnavailable

  abbrev coordinates_id : TransitLocation → String
  coordinates_id l = "ll:" ++ (m.fixed_six l.lat ++ ("," ++ m.fixed_six l.lng))

  -- An empty place id is falsy.
  abbrev id_or_coordinates : Option String → TransitLocation → String
  id_or_coordinates none l = coordinates_id l
  id_or_coordinates (some i) l = if str_eq i "" then coordinates_id l else "place:" ++ i

  -- `TransitLocation.cache_id`
  unfoldable pub cache_id : TransitLocation → String
  cache_id l = id_or_coordinates l.place_id l

  -- `locations[i]`. Every index below comes from a range over the locations or was validated; out of
  -- range, where Python raises, this is the origin of the coordinates.
  unfoldable pub location_at : ℕ → List TransitLocation → TransitLocation
  location_at i [] = record { place_id = none; lat = m.floats.of_int 0; lng = m.floats.of_int 0 }
  location_at zero (l ∷ ls) = l
  location_at (suc i) (l ∷ ls) = location_at i ls

  square : Float → Float
  square x = m.floats.mul x x

  unfoldable pub haversine_km : TransitLocation → TransitLocation → Float
  unfolding square
  haversine_km origin destination =
      let f = m.floats in
      let lat1 = m.radians origin.lat in
      let lat2 = m.radians destination.lat in
      let dlat = f.sub lat2 lat1 in
      let dlng = f.sub (m.radians destination.lng) (m.radians origin.lng) in
      let two = f.of_int 2 in
      let a =
        f.add (square (m.sin (f.div dlat two)))
          (f.mul (f.mul (m.cos lat1) (m.cos lat2)) (square (m.sin (f.div dlng two)))) in
      f.mul (f.mul two (m.literal "6371.0088")) (m.asin (m.sqrt a))

  unfoldable pub choose_mode : TransitLocation → TransitLocation → Float → TransitMode
  unfolding haversine_km
  choose_mode origin destination cutoff =
      if m.floats.leb (haversine_km origin destination) cutoff then walking else transit

  abbrev pub float_gt : Float → Float → Bool
  float_gt x y = m.floats.leb y x && not (m.floats.leb x y)

  abbrev pub nearby_walking_km : Float
  nearby_walking_km = m.literal "2.0"

  abbrev estimated_transit_kmh : Float
  estimated_transit_kmh = m.literal "15.0"

  abbrev estimated_transit_overhead_min : ℕ
  estimated_transit_overhead_min = 10

  abbrev estimated_transit_max_km : Float
  estimated_transit_max_km = m.literal "30.0"

  abbrev estimate_for : Float → Option (ℕ × TransitMode)
  estimate_for distance =
      let f = m.floats in
      if f.leb distance nearby_walking_km
      then some (max 5 (m.round (f.mul distance (f.of_int 12))), walking)
      else if float_gt distance estimated_transit_max_km
      then none
      else some (
        max 5 (
            estimated_transit_overhead_min
            + m.round (f.mul (f.div distance estimated_transit_kmh) (f.of_int 60))),
        transit,
      )

  unfoldable pub estimated_transit_leg :
      TransitLocation → TransitLocation → Option (ℕ × TransitMode)
  unfolding haversine_km
  estimated_transit_leg origin destination = estimate_for (haversine_km origin destination)

  -- `wants`: `None` asks for every pair.
  unfoldable pub wants : PairwiseTransitRequest → ℕ × ℕ → Bool
  wants request (i, j) = elim request.required_pairs [
    | none ↦ true
    | some pairs ↦ any_by (λ (a, b). (a == i) && (b == j)) pairs
  ]

pub data RequestError : Type 0 where
  missing_location self_pair : RequestError

unfoldable pub check_pairs : (limit : ℕ) → List (ℕ × ℕ) → Outcome RequestError (Unit {0})
check_pairs limit [] = return tt
check_pairs limit ((i, j) ∷ pairs) =
    let rest = check_pairs limit pairs in
    if not (ltb i limit) || not (ltb j limit)
    then raise missing_location
    else if i == j
    then raise self_pair
    else rest

-- The validator `_required_pairs_index_real_locations`.
unfoldable pub check_request :
    (m : Maths) → PairwiseTransitRequest m → Outcome RequestError (Unit {0})
unfolding check_pairs
check_request m request = elim request.required_pairs [
  | none ↦ return tt
  | some pairs ↦ check_pairs (length request.locations) pairs
]
