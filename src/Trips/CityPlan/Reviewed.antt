-- ===== src/Trips/CityPlan/Reviewed.antt =====
-- The day counts of a trip whose reviewed plan was accepted (syncinerary/domain/city_plan.py).
use syncinerary.Prelude.{
  ℕ, ◌≤◌, ◌≡◌, refl, String, List, [], ◌∷◌, Option, none, some, return, length, sum, arith,
}
use syncinerary.Trips.CityPlan.{
  validate_city_plan, Trip, city_count, given_or_suggested, city_day_counts,
}
use syncinerary.Trips.CityPlan.Shares.{
  PriorityFits, suggested_city_days-shares, suggested_city_days-return_iff,
}

reviewed :
    (cities : List String) (days d : ℕ) (ds : List ℕ) (priority : Option ℕ)
    → validate_city_plan cities days (d ∷ ds) priority ≡ return tt
    → (length (d ∷ ds) ≡ city_count cities) × (sum (d ∷ ds) ≡ days)
unfolding validate_city_plan
reviewed [] days d ds none h = absurd (ground arith)
reviewed [] days d ds (some p) h = absurd (ground arith)
reviewed (c ∷ cs) days d ds none h = ground arith
reviewed (c ∷ cs) days d ds (some p) h = ground arith

counts :
    (trip : Trip) (city_days result : List ℕ)
    → validate_city_plan trip.cities trip.days city_days trip.priority_city_index ≡ return tt
    → given_or_suggested trip city_days ≡ return result
    → (length result ≡ city_count trip.cities) × (sum result ≡ trip.days)
counts trip [] result valid h =
    let s =
      suggested_city_days-shares trip.days (city_count trip.cities) trip.priority_city_index result
        h in
    (s.0, s.1)
counts trip (d ∷ ds) result valid h =
    let q : d ∷ ds ≡ result = cc in
    rw (← q) (reviewed trip.cities trip.days d ds trip.priority_city_index valid)

main_city :
    (cities : List String) (days : ℕ) (city_days : List ℕ) (priority : Option ℕ)
    → validate_city_plan cities days city_days priority ≡ return tt
    → PriorityFits (city_count cities) priority
unfolding validate_city_plan
main_city cities days city_days none h = tt
main_city [] days city_days (some p) h = absurd (ground arith)
main_city (c ∷ cs) days city_days (some p) h = ground arith

counted :
    (trip : Trip) (city_days : List ℕ)
    → validate_city_plan trip.cities trip.days city_days trip.priority_city_index ≡ return tt
    → city_count trip.cities ≤ trip.days
    → (result : List ℕ) × (given_or_suggested trip city_days ≡ return result)
counted trip [] valid room =
    (suggested_city_days-return_iff trip.days (city_count trip.cities) trip.priority_city_index).1 (
      one_city trip.cities,
      room,
      main_city trip.cities trip.days [] trip.priority_city_index valid,
    )
  where
    one_city : (cities : List String) → 1 ≤ city_count cities
    one_city [] = omega arith
    one_city (c ∷ cs) = omega arith
counted trip (d ∷ ds) valid room = (d ∷ ds, refl)

-- For a trip whose stored plan passes the check and which has a day for each city, the day counts
-- are found: they have one entry for each city (one in all for a trip without a list of cities) and
-- add up to the days of the trip.
pub city_day_counts-total :
    (trip : Trip)
    → validate_city_plan trip.cities trip.days trip.city_days trip.priority_city_index ≡ return tt
    → city_count trip.cities ≤ trip.days
    → (result : List ℕ) × (city_day_counts trip ≡ return result)
      × (length result ≡ city_count trip.cities)
      × (sum result ≡ trip.days)
unfolding city_day_counts
city_day_counts-total trip valid room =
    let (result, found) = counted trip trip.city_days valid room in
    let (size, total) = counts trip trip.city_days result valid found in
    (result, found, size, total)
