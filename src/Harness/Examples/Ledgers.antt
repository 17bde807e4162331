-- ===== src/Harness/Examples/Ledgers.antt =====
-- Runs, calls and credentials at concrete values.
use syncinerary.Prelude.{ℕ, ◌+◌, ◌≡◌, refl, none, some, return, raise, ◌==◌, find_row, false}
use syncinerary.Harness.Budget.{HarnessError, budget_exceeded, TokenPricing, cost, charge_step}
use syncinerary.Harness.Ledger.{
  RunStatus, AgentRun, Harness, find_run, ledger_before_call, guards, record_usage, on_budget,
}
use syncinerary.Harness.Ledger.Saving.{ledger_before_call-saves, record_usage-saves}
use syncinerary.Harness.Runs.{Settings, final_status, enter, tracked_run}
use syncinerary.Harness.Runs.Outcomes.{
  closed_row, body_result, tracked_run-closes, call_times, tracked_calls,
}
use syncinerary.Harness.Calls.{Provider, given, built, call_llm, require_anthropic_api_key}
use syncinerary.Harness.Calls.Charging.{call_llm-charges}
use syncinerary.Harness.Calls.Credentials.{required_key_missing}
use syncinerary.Harness.Examples.{canonical, first_run, one_run}

ledger_before_call-saves_example :
    let after = ledger_before_call canonical 1 5 (some 9) none one_run in
    (after.0 ≡ (guards canonical 1 5 (some 9) none one_run).0)
    × (find_run 1 after.1 ≡ some (record first_run { step_count = 3; token_cost = 30 }))
    × ((j : ℕ) → (1 == j) ≡ false → find_run j after.1 ≡ find_run j one_run)
    × (after.1.current ≡ some 1)
    × (after.1.scoped_key ≡ one_run.scoped_key)
unfolding find_row
ledger_before_call-saves_example =
    ledger_before_call-saves canonical 1 5 (some 9) none one_run first_run refl

abbrev prices : TokenPricing
prices = record { input_usd_per_million = 2; output_usd_per_million = 10 }

-- The charge of 80 takes the cost of 30 beyond the limit of 100.
record_usage-saves_example :
    ((record_usage 1 10 6 prices one_run).0 ≡ raise budget_exceeded)
    × (find_run 1 (record_usage 1 10 6 prices one_run).1
        ≡ some (record first_run { step_count = 2; token_cost = 110 }))
unfolding find_row cost
record_usage-saves_example = record_usage-saves 1 10 6 prices one_run first_run refl

abbrev settings : Settings
settings = record { sync_max_steps = 40; sync_max_tokens_usd = 500 }

abbrev costly : Harness ℕ
costly w = (raise HarnessError.tool_cycle, w)

tracked_run-closes_example :
    let after = tracked_run settings 4 none none costly one_run in
    (after.0 ≡ (body_result settings 4 none none costly one_run).0)
    × (find_run 4 after.1
        ≡ some (
            closed_row
              (final_status (body_result settings 4 none none costly one_run).0)
              ((body_result settings 4 none none costly one_run).1.ledgers 4)
              (record { id = 4; status = RunStatus.running; step_count = 0; token_cost = 0 })))
    × (after.1.current ≡ some 1)
unfolding enter find_row
tracked_run-closes_example =
    tracked_run-closes settings 4 none none costly one_run
      (record { id = 4; status = RunStatus.running; step_count = 0; token_cost = 0 }) refl

tracked_calls_example :
    let after = tracked_run settings 4 (some 2) none (call_times canonical 5 3) one_run in
    (after.0 ≡ raise budget_exceeded)
    × ((row : AgentRun) × (find_run 4 after.1 ≡ some row)
        × (row.status ≡ RunStatus.budget_exceeded)
        × (row.step_count ≡ 3))
tracked_calls_example = tracked_calls canonical 5 settings 4 2 3 none one_run

abbrev provider : Provider ℕ ℕ
provider = record {
  server_key = "server";
  default_pricing = prices;
  create = λ c request. elim c [
    | given n ↦ return (request + n)
    | built k ↦ raise HarnessError.provider_failure
  ];
  usage_of = λ response. some (record { input_tokens = response; output_tokens = 1 });
}

call_llm-charges_example :
    let after = call_llm canonical provider 5 (some 3) none none one_run in
    (after.0 ≡ return 8)
    × ((row : AgentRun) × (find_run 1 after.1 ≡ some row)
        × (row.token_cost ≡ 56)
        × (row.step_count ≡ 3))
unfolding find_row cost guards on_budget charge_step
call_llm-charges_example =
    call_llm-charges canonical provider 1 3 5 none none 8
      (record { input_tokens = 8; output_tokens = 1 }) one_run first_run refl refl refl
      (record { created = refl; used = refl })

abbrev refusing : Provider ℕ ℕ
refusing = record provider { server_key = ""; create = λ c request. raise HarnessError.cancelled }

required_key_missing_example :
    let scoped = λ (p : Provider ℕ ℕ).
      require_anthropic_api_key none (call_llm canonical p 5 none none none) one_run in
    ((e : HarnessError) × ((scoped provider).0 ≡ raise e))
    × (scoped provider ≡ scoped refusing)
    × ((scoped provider).1.scoped_key ≡ one_run.scoped_key)
required_key_missing_example = required_key_missing canonical provider refusing 5 none none one_run
