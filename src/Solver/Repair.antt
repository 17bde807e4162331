-- ===== src/Solver/Repair.antt =====
-- syncinerary/agents/solver/repair.py: what one round of the repair loop learns, and how two plans
-- are compared. A set is a list in which only membership counts. `dict[UUID, set[int]]` is the list
-- of its facts, a candidate with a day: a candidate with no blocked day has none.
pub mod Capacities
pub mod Exchanges
pub mod Learning
pub mod Plans
use syncinerary.Prelude.{
  ℕ, ◌+◌, ◌-◌, ◌≡◌, refl, String, List, [], ◌∷◌, ◌++◌, map, Bool, true, false, ◌&&◌, ◌||◌, not,
  Option, none, some, any_by, filter_by, take, length, sum, elem, ltb, ◌==◌, if◌then◌else◌, str_eq,
}

pub data ReasonCode : Type 0 where
  closed_on_available_days no_meal_slot no_day_fit other_reason : ReasonCode

-- `UNARY_REASON_CODES`
abbrev is_unary : ReasonCode → Bool
is_unary closed_on_available_days = true
is_unary no_meal_slot = true
is_unary _ = false

-- A candidate that cannot be on a day.
pub record Block : Type 0 where
  pub candidate_id : ℕ
  pub day : ℕ

pub record Refusal : Type 0 where
  pub candidate_id : ℕ
  pub day : ℕ
  pub reason_code : ReasonCode

abbrev pub blocks_day : (candidate_id day : ℕ) → List Block → Bool
blocks_day candidate_id day blocks =
    any_by (λ b. (b.candidate_id == candidate_id) && (b.day == day)) blocks

-- The refusal is about this place and this date alone, and the place may be blocked.
abbrev pub teaches : (protected_ids conflicted : List ℕ) → Refusal → Bool
teaches protected_ids conflicted r =
    is_unary r.reason_code
    && not (elem r.candidate_id protected_ids || elem r.candidate_id conflicted)

-- One refusal: the facts and whether anything new was learned.
pub learn_block :
    (protected_ids conflicted : List ℕ) → Refusal → List Block × Bool → List Block × Bool
learn_block protected_ids conflicted r (blocks, learned) =
    if teaches protected_ids conflicted r && not (blocks_day r.candidate_id r.day blocks)
    then (record { candidate_id = r.candidate_id; day = r.day } ∷ blocks, true)
    else (blocks, learned)

pub learn_from :
    (protected_ids conflicted : List ℕ) → List Refusal → List Block × Bool → List Block × Bool
unfolding learn_block
learn_from protected_ids conflicted [] known = known
learn_from protected_ids conflicted (r ∷ rs) known =
    learn_from protected_ids conflicted rs (learn_block protected_ids conflicted r known)

unfoldable pub learn_day_blocks :
    List Refusal
    → (protected_ids conflicted_ids : List ℕ) (existing : List Block) → List Block × Bool
unfolding learn_from
learn_day_blocks refusals protected_ids conflicted_ids existing =
    learn_from protected_ids conflicted_ids refusals (existing, false)

-- `PlanValue` and its order.
pub record PlanValue : Type 0 where
  pub retained_value : ℕ
  pub placed_count : ℕ
  pub total_transit_minutes : ℕ

-- The order of the keys `(retained_value, placed_count, -total_transit_minutes)`.
unfoldable pub is_better : PlanValue → PlanValue → Bool
is_better p q =
    ltb q.retained_value p.retained_value
    || ((p.retained_value == q.retained_value)
        && (ltb q.placed_count p.placed_count
            || ((p.placed_count == q.placed_count)
                && ltb p.total_transit_minutes q.total_transit_minutes)))

-- `values` gives every candidate's worth, and 0 for one it does not know.
unfoldable pub plan_value : List ℕ → (values : ℕ → ℕ) → (total_transit_minutes : ℕ) → PlanValue
plan_value placed_ids values total_transit_minutes = record {
  retained_value = sum (map values placed_ids);
  placed_count = length placed_ids;
  total_transit_minutes = total_transit_minutes;
}

-- `select_replacements`, on the identifiers. A limit that is not positive is 0 here.
unfoldable pub select_replacements : (reserve already_admitted : List ℕ) (limit : ℕ) → List ℕ
select_replacements reserve already_admitted limit =
    if ltb 0 limit then take limit (filter_by (λ c. not (elem c already_admitted)) reserve) else []
