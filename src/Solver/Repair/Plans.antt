-- ===== src/Solver/Repair/Plans.antt =====
-- How two plans compare, and which reserves are called in.
use syncinerary.Prelude.{
  ℕ, zero, suc, ◌<◌, ◌≡◌, refl, min, List, [], ◌∷◌, ◌++◌, true, false, not, filter_by, take, drop,
  length, elem, ltb, arith, Bool-cases, inl, inr, take-append-drop, length-take, sum, map,
}
use syncinerary.Prelude.Sorting.{All}
use syncinerary.Solver.Repair.{PlanValue, is_better, plan_value, select_replacements}

-- The order of plans is strict and total: no plan is better than itself or than a better one, it is
-- transitive, and of two plans that differ in a figure one is better.
is_better-order :
    (p q r : PlanValue)
    → (is_better p q ≡ true → is_better q p ≡ false)
      × (is_better p q ≡ true → is_better q r ≡ true → is_better p r ≡ true)
      × (is_better p q ≡ false
          → is_better q p ≡ false
          → (p.retained_value ≡ q.retained_value)
            × (p.placed_count ≡ q.placed_count)
            × (p.total_transit_minutes ≡ q.total_transit_minutes))
unfolding is_better
is_better-order p q r =
    (λ h. ground (arith, h), λ h h'. ground (arith, h, h'), λ h h'. ground (arith, h, h'))

-- One place more makes a plan better, whatever it is worth and however long the ways become; and any
-- places that are worth more together make a better plan, however many they are.
plan_value-is_better :
    (c : ℕ) (placed placed' : List ℕ) (values : ℕ → ℕ) (transit transit' : ℕ)
    → (is_better (plan_value (c ∷ placed) values transit') (plan_value placed values transit)
        ≡ true)
      × (sum (map values placed) < sum (map values placed')
          → is_better (plan_value placed' values transit') (plan_value placed values transit)
            ≡ true)
unfolding is_better plan_value
plan_value-is_better c placed placed' values transit transit' =
    (ground arith, λ more. ground (arith, more))

abbrev IsFree : List ℕ → ℕ → Type 0
IsFree already_admitted c = elem c already_admitted ≡ false

-- The reserves that are not in the plan yet.
abbrev free_of : (reserve already_admitted : List ℕ) → List ℕ
free_of reserve already_admitted = filter_by (λ c. not (elem c already_admitted)) reserve

free_of-IsFree : (reserve admitted : List ℕ) → All (IsFree admitted) (free_of reserve admitted)
free_of-IsFree [] admitted = tt
free_of-IsFree (c ∷ cs) admitted = elim (Bool-cases (elem c admitted)) [
  | inl e ↦ rw e (free_of-IsFree cs admitted)
  | inr e ↦ rw e (e, free_of-IsFree cs admitted)
]

take-IsFree :
    (admitted cs : List ℕ) (n : ℕ) → All (IsFree admitted) cs → All (IsFree admitted) (take n cs)
take-IsFree admitted cs zero h = tt
take-IsFree admitted [] (suc n) h = tt
take-IsFree admitted (c ∷ cs) (suc n) h = (h.0, take-IsFree admitted cs n h.1)

-- The replacements are the best reserves outside the plan: the head of the reserves that are not in
-- it, in their order, as many as the limit allows, and none that is in the plan already.
select_replacements-IsFree :
    (reserve already_admitted : List ℕ) (limit : ℕ)
    → let selected = select_replacements reserve already_admitted limit in
      (selected ++ drop limit (free_of reserve already_admitted) ≡ free_of reserve already_admitted)
      × (length selected ≡ min limit (length (free_of reserve already_admitted)))
      × All (IsFree already_admitted) selected
unfolding select_replacements
select_replacements-IsFree reserve admitted zero = (refl, omega arith, tt)
select_replacements-IsFree reserve admitted (suc n) =
    let pos : ltb 0 (suc n) ≡ true = ground arith in
    rw pos (
      take-append-drop (suc n) (free_of reserve admitted),
      length-take (suc n) (free_of reserve admitted),
      take-IsFree admitted (free_of reserve admitted) (suc n) (free_of-IsFree reserve admitted),
    )
