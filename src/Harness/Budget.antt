-- ===== src/Harness/Budget.antt =====
-- syncinerary/harness/budget.py: the step and token-cost limits of one run.
-- Costs are exact decimals in the source. Here one unit is a millionth of the unit in which the
-- prices per million tokens are whole, so that the division by a million is exact.
pub mod Spending
use syncinerary.Prelude.{ℕ, ◌+◌, ◌*◌, Outcome, return, raise, Action, ltb, if◌then◌else◌}

-- What a guarded call can raise (`HarnessError` stands for the exception classes of the source).
pub data HarnessError : Type 0 where
  budget_exceeded no_progress tool_cycle : HarnessError
  run_disappeared usage_unavailable credential_unavailable : HarnessError
  tool_call_unrecoverable provider_failure cancelled : HarnessError

pub record TokenPricing : Type 0 where
  pub input_usd_per_million : ℕ
  pub output_usd_per_million : ℕ

pub record RunBudget : Type 0 where
  pub max_steps : ℕ
  pub max_token_cost_usd : ℕ
  pub step_count : ℕ
  pub token_cost_usd : ℕ

-- A budget with its defaults: nothing spent yet.
abbrev pub new_budget : ℕ → ℕ → RunBudget
new_budget steps usd = record {
  max_steps = steps;
  max_token_cost_usd = usd;
  step_count = 0;
  token_cost_usd = 0;
}

unfoldable pub cost : TokenPricing → (input_tokens output_tokens : ℕ) → ℕ
cost p input output = input * p.input_usd_per_million + output * p.output_usd_per_million

-- The count is raised before the test, so it is kept when the call is refused.
unfoldable pub charge_step : Action RunBudget HarnessError (Unit {0})
charge_step b =
    let b' = record b { step_count = b.step_count + 1 } in
    if ltb b.max_steps b'.step_count then (raise budget_exceeded, b') else (return tt, b')

unfoldable pub charge_tokens :
    (input_tokens output_tokens : ℕ) → TokenPricing → Action RunBudget HarnessError (Unit {0})
unfolding cost
charge_tokens input output pricing b =
    let b' = record b { token_cost_usd = b.token_cost_usd + cost pricing input output } in
    if ltb b.max_token_cost_usd b'.token_cost_usd
    then (raise budget_exceeded, b')
    else (return tt, b')
