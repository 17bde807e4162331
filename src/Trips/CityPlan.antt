-- ===== src/Trips/CityPlan.antt =====
-- syncinerary/domain/city_plan.py: how the days of a trip are shared out between its cities.
-- The counts are natural numbers: the data models refuse negative ones before this code runs.
pub mod Order
pub mod Days
pub mod Shares
pub mod Reviewed
use syncinerary.Prelude.{
  ℕ, zero, suc, ◌+◌, ◌/◌, ◌%◌, String, List, [], ◌∷◌, Option, none, some, Bool, true, false, not,
  ◌||◌, Outcome, return, raise, length, take, replicate, sum, range_from, ltb, ◌==◌, if◌then◌else◌,
}

pub data CityPlanError : Type 0 where
  main_city_not_selected city_days_mismatch too_few_days not_in_list : CityPlanError

-- `city_days and (len(city_days) != len(cities) or sum(city_days) != days)`
abbrev mismatched : List String → ℕ → List ℕ → Bool
mismatched cities days [] = false
mismatched cities days (d ∷ ds) =
    let city_days = d ∷ ds in not (length city_days == length cities) || not (sum city_days == days)

unfoldable pub validate_city_plan :
    List String → ℕ → List ℕ → Option ℕ → Outcome CityPlanError (Unit {0})
validate_city_plan cities days city_days none =
    if mismatched cities days city_days then raise city_days_mismatch else return tt
validate_city_plan cities days city_days (some priority) =
    if ltb priority (length cities)
    then (if mismatched cities days city_days then raise city_days_mismatch else return tt)
    else raise main_city_not_selected

-- `order.remove(x)`: the first occurrence, or `ValueError`.
pub remove : ℕ → List ℕ → Outcome CityPlanError (List ℕ)
remove x [] = raise not_in_list
remove x (y ∷ ys) = elim (y == x) [
  | true ↦ return ys
  | false ↦ elim (remove x ys) [ return rest ↦ return (y ∷ rest) | raise e ↦ raise e ]
]

-- The order in which the cities are given an extra day.
pub share_order : ℕ → Option ℕ → Outcome CityPlanError (List ℕ)
unfolding remove
share_order count none = return (range_from 0 count)
share_order count (some priority) = elim (remove priority (range_from 0 count)) [
  | return rest ↦ return (priority ∷ rest)
  | raise e ↦ raise e
]

-- `result[index] += 1`
pub bump : List ℕ → ℕ → List ℕ
bump [] i = []
bump (x ∷ xs) zero = (x + 1) ∷ xs
bump (x ∷ xs) (suc i) = x ∷ bump xs i

pub bump_all : List ℕ → List ℕ → List ℕ
unfolding bump
bump_all result [] = result
bump_all result (i ∷ indices) = bump_all (bump result i) indices

-- Every city gets the whole share, and the first ones in the order one day more.
abbrev pub hand_out : ℕ → ℕ → Outcome CityPlanError (List ℕ) → Outcome CityPlanError (List ℕ)
hand_out days count (return order) =
    return (bump_all (replicate count (days / count)) (take (days % count) order))
hand_out days count (raise e) = raise e

unfoldable pub suggested_city_days : ℕ → ℕ → Option ℕ → Outcome CityPlanError (List ℕ)
unfolding share_order bump_all
suggested_city_days days count priority =
    if ltb count 1 || ltb days count
    then raise too_few_days
    else hand_out days count (share_order count priority)

-- The fields of a trip that its day allocation depends on.
pub record Trip : Type 0 where
  pub destination : String
  pub cities : List String
  pub city_days : List ℕ
  pub priority_city_index : Option ℕ
  pub days : ℕ

-- `len(trip.cities) or 1`
abbrev pub city_count : List String → ℕ
city_count [] = 1
city_count (c ∷ cs) = length (c ∷ cs)

abbrev pub given_or_suggested : Trip → List ℕ → Outcome CityPlanError (List ℕ)
given_or_suggested trip [] =
    suggested_city_days trip.days (city_count trip.cities) trip.priority_city_index
given_or_suggested trip (d ∷ ds) = return (d ∷ ds)

unfoldable pub city_day_counts : Trip → Outcome CityPlanError (List ℕ)
unfolding suggested_city_days
city_day_counts trip = given_or_suggested trip trip.city_days
