-- ===== src/Trips/Examples.antt =====
-- Plans of a trip of eight days at concrete values.
use syncinerary.Prelude.{
  find_row, none, ℕ, ◌+◌, ◌/◌, ◌≤◌, ◌<◌, ◌≡◌, ◌↔◌, refl, String, List, [], ◌∷◌, some, return,
  length, sum, get_or, arith,
}
use syncinerary.Trips.Invites.{TripInvite}
use syncinerary.Trips.Invites.Uses.{
  claims, revokes, accepted, IsCounted, accepted-IsCounted, accepted_revoked,
}
use syncinerary.Trips.CityPlan.{
  validate_city_plan, suggested_city_days, Trip, city_count, city_day_counts,
}
use syncinerary.Trips.CityPlan.Shares.{
  PriorityLeads, PriorityFits, suggested_city_days-shares, suggested_city_days-return_iff,
}
use syncinerary.Trips.CityPlan.Reviewed.{city_day_counts-total}

abbrev three_cities : List String
three_cities = "Kyoto" ∷ "Osaka" ∷ "Nara" ∷ []

abbrev eight_days : List ℕ
eight_days = 3 ∷ 2 ∷ 3 ∷ []

suggested_city_days-shares_example :
    (length eight_days ≡ 3)
    × (sum eight_days ≡ 8)
    × ((i : ℕ) → i < 3 → (8 / 3 ≤ get_or eight_days i 0) × (get_or eight_days i 0 ≤ 8 / 3 + 1))
    × PriorityLeads eight_days (some 2)
unfolding suggested_city_days
suggested_city_days-shares_example = suggested_city_days-shares 8 3 (some 2) eight_days refl

suggested_city_days-return_iff_example :
    ((result : List ℕ) × (suggested_city_days 8 3 (some 2) ≡ return result))
    ↔ ((1 ≤ 3) × (3 ≤ 8) × PriorityFits 3 (some 2))
suggested_city_days-return_iff_example = suggested_city_days-return_iff 8 3 (some 2)

abbrev reviewed_trip : Trip
reviewed_trip = record {
  destination = "Kansai";
  cities = three_cities;
  city_days = 1 ∷ 5 ∷ 2 ∷ [];
  priority_city_index = some 0;
  days = 8;
}

city_day_counts-total_example :
    (result : List ℕ) × (city_day_counts reviewed_trip ≡ return result)
    × (length result ≡ city_count three_cities)
    × (sum result ≡ 8)
unfolding validate_city_plan
city_day_counts-total_example = city_day_counts-total reviewed_trip refl (omega arith)

-- A code for two people that one has used.
abbrev shared_code : TripInvite
shared_code = record {
  id = 3;
  trip_id = 1;
  expires_at = 90;
  max_uses = 2;
  uses = 1;
  revoked_at = none;
}

accepted-IsCounted_example :
    IsCounted 3
      (accepted 3 (claims 10 ∷ claims 11 ∷ revokes 12 ∷ []) (shared_code ∷ [])).0
      shared_code
      (accepted 3 (claims 10 ∷ claims 11 ∷ revokes 12 ∷ []) (shared_code ∷ [])).1
unfolding find_row
accepted-IsCounted_example =
    accepted-IsCounted 3 (claims 10 ∷ claims 11 ∷ revokes 12 ∷ []) (shared_code ∷ []) shared_code
      refl (omega arith)

accepted_revoked_example :
    (accepted 3 (claims 10 ∷ claims 11 ∷ []) (record shared_code { revoked_at = some 5 } ∷ [])).0
    ≡ 0
unfolding find_row
accepted_revoked_example =
    accepted_revoked 3 (claims 10 ∷ claims 11 ∷ [])
      (record shared_code { revoked_at = some 5 } ∷ []) (record shared_code { revoked_at = some 5 })
      refl refl
