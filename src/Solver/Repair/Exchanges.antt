-- ===== src/Solver/Repair/Exchanges.antt =====
-- classify_bucket_changes of syncinerary/agents/solver/repair.py: how many places changed their day,
-- two that trade days counted as one swap. A bucket is the list of its candidates' identifiers; a
-- dictionary is a list without repeated keys, and the common keys are walked in its order.
use syncinerary.Prelude.{
  ℕ, ◌+◌, ◌-◌, ◌/◌, List, [], ◌∷◌, not, ◌&&◌, Option, none, some, length, elem, find_row, ◌==◌,
  if◌then◌else◌,
}

pub record Placed : Type 0 where
  pub candidate_id : ℕ
  pub day : ℕ

pub record Moved : Type 0 where
  pub candidate_id : ℕ
  pub origin : ℕ
  pub destination : ℕ

abbrev placed_key : Placed → ℕ
placed_key p = p.candidate_id

-- One assignment of `{candidate.id: day ...}`: a later one replaces the value.
put_placed : Placed → List Placed → List Placed
put_placed p [] = p ∷ []
put_placed p (q ∷ qs) =
    let rest = put_placed p qs in if q.candidate_id == p.candidate_id then p ∷ qs else q ∷ rest

put_bucket : (day : ℕ) → List ℕ → List Placed → List Placed
unfolding put_placed
put_bucket day [] table = table
put_bucket day (c ∷ cs) table =
    put_bucket day cs (put_placed (record { candidate_id = c; day = day }) table)

days_from : (day : ℕ) → List (List ℕ) → List Placed → List Placed
unfolding put_bucket
days_from day [] table = table
days_from day (bucket ∷ buckets) table = days_from (day + 1) buckets (put_bucket day bucket table)

abbrev add_moved : Placed → Option Placed → List Moved → List Moved
add_moved p none rest = rest
add_moved p (some q) rest =
    if p.day == q.day
    then rest
    else record { candidate_id = p.candidate_id; origin = p.day; destination = q.day } ∷ rest

moved_between : (after before : List Placed) → List Moved
moved_between after [] = []
moved_between after (p ∷ ps) =
    add_moved p (find_row placed_key p.candidate_id after) (moved_between after ps)

-- `next(... for other, ... in moved.items() if ...)`
partner_of : Moved → (swapped : List ℕ) → List Moved → Option Moved
partner_of m swapped [] = none
partner_of m swapped (o ∷ os) =
    let rest = partner_of m swapped os in
    if not (elem o.candidate_id swapped)
      && (not (o.candidate_id == m.candidate_id)
          && ((o.origin == m.destination) && (o.destination == m.origin)))
    then some o
    else rest

abbrev with_partner : Moved → Option Moved → List ℕ → List ℕ
with_partner m none swapped = swapped
with_partner m (some o) swapped = m.candidate_id ∷ o.candidate_id ∷ swapped

swaps_from : (moved : List Moved) → List Moved → (swapped : List ℕ) → List ℕ
unfolding partner_of
swaps_from moved [] swapped = swapped
swaps_from moved (m ∷ ms) swapped = swaps_from moved ms (
    if elem m.candidate_id swapped
    then swapped
    else with_partner m (partner_of m swapped moved) swapped)

-- The number of moves and of swaps.
unfoldable pub classify_bucket_changes : (before after : List (List ℕ)) → ℕ × ℕ
unfolding days_from moved_between swaps_from find_row
classify_bucket_changes before after =
    let moved = moved_between (days_from 0 after []) (days_from 0 before []) in
    let swapped = swaps_from moved moved [] in (length moved - length swapped, length swapped / 2)
