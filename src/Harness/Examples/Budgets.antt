-- ===== src/Harness/Examples/Budgets.antt =====
-- Budgets and detectors at concrete values.
use syncinerary.Prelude.{◌+◌, ◌≤◌, ◌≡◌, ◌↔◌, refl, List, [], ◌∷◌, return, raise, replicate, arith}
use syncinerary.Harness.Budget.{no_progress, RunBudget}
use syncinerary.Harness.Budget.Spending.{
  Charge, step, tokens, charge_all, steps_of, usd_of, charge_all-return_iff,
}
use syncinerary.Harness.LoopDetector.History.{
  watch, NeverRepeats, watch-return_iff, stuck_run-raises,
}
use syncinerary.Harness.Examples.{canonical, detector_of_two}

abbrev budget_of_two : RunBudget
budget_of_two = record {
  max_steps = 2;
  max_token_cost_usd = 100;
  step_count = 0;
  token_cost_usd = 10;
}

abbrev charges : List Charge
charges =
    step
    ∷ tokens 3 4 (record { input_usd_per_million = 5; output_usd_per_million = 6 })
    ∷ step
    ∷ step
    ∷ []

charge_all-return_iff_example :
    ((charge_all charges budget_of_two).0 ≡ return tt)
    ↔ ((0 + steps_of charges ≤ 2) × (10 + usd_of charges ≤ 100))
charge_all-return_iff_example =
    charge_all-return_iff charges budget_of_two (record { steps = omega arith; usd = omega arith })

watch-return_iff_example :
    ((watch canonical (9 ∷ 7 ∷ []) detector_of_two).0 ≡ return tt)
    ↔ NeverRepeats canonical 4 2 (7 ∷ 8 ∷ []) (9 ∷ 7 ∷ [])
watch-return_iff_example = watch-return_iff canonical (7 ∷ 8 ∷ []) (9 ∷ 7 ∷ []) detector_of_two refl

stuck_run-raises_example : (watch canonical (replicate 2 5) detector_of_two).0 ≡ raise no_progress
stuck_run-raises_example = stuck_run-raises canonical 5 detector_of_two (record {
  repeat_pos = omega arith;
  repeat_fits = omega arith;
  tool_pos = omega arith;
  tool_fits = omega arith;
  states = omega arith;
  tools = omega arith;
})
