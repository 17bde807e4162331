-- ===== src/Harness/Tools.antt =====
-- `run_tool` of syncinerary/harness/tool_guard.py: validated arguments, a bounded repair, a guarded
-- call and a validated result. The tool's models, its handler and the repairer are parameters.
-- A failed validation carries its text. Arguments are JSON objects, of a type `V`.
pub mod Validation
use syncinerary.Prelude.{
  ℕ, zero, suc, ◌+◌, ◌-◌, String, Option, none, some, Outcome, return, raise, Action, ◌>>=◌, ◌>>◌,
  pure, throw,
}
use syncinerary.Harness.Budget.{HarnessError}
use syncinerary.Harness.LoopDetector.{Observed}
use syncinerary.Harness.Ledger.{AttemptStatus, World, Harness, before_call}
use syncinerary.Harness.Calls.{log_attempt}

abbrev repair_attempt_cap : ℕ
repair_attempt_cap = 2

pub record ToolDefinition (V In Raw Out : Type 0) : Type 0 where
  pub name : String
  pub input_model : V → Outcome String In
  pub dump : In → V
  pub handler : In → Harness Raw
  pub output_model : Raw → Outcome String Out

-- `ToolRepairer.repair`: the original arguments, the validation error and the attempt.
abbrev pub ToolRepairer : Type 0 → Type 0
ToolRepairer V = V → String → ℕ → Harness V

-- `except Exception` around the handler.
abbrev pub note_failure : {Raw : Type 0} → ℕ → Outcome HarnessError Raw → Harness Raw
note_failure attempt (return raw) w = (return raw, w)
note_failure attempt (raise HarnessError.cancelled) w = (raise HarnessError.cancelled, w)
note_failure attempt (raise e) w = (log_attempt attempt AttemptStatus.call_failed >> throw e) w

abbrev pub check_output : {Out : Type 0} → ℕ → Outcome String Out → Harness Out
check_output attempt (return result) = log_attempt attempt AttemptStatus.succeeded >> pure result
check_output attempt (raise text) =
    log_attempt attempt AttemptStatus.invalid_output >> throw HarnessError.tool_call_unrecoverable

module _ {V In Raw Out : Type 0} (canonical : Observed V → ℕ) (tool : ToolDefinition V In Raw Out)
    (repairer : Option (ToolRepairer V)) (state : Option V) (original : V) where
  -- An attempt whose arguments are valid.
  pub execute : ℕ → In → Harness Out
  execute attempt validated = do
    before_call canonical (tool.dump validated) state (some tool.name)
    log_attempt attempt AttemptStatus.executing
    raw ← λ w. let (r, w') = tool.handler validated w in note_failure attempt r w'
    check_output attempt (tool.output_model raw)

  -- The repair after a failed validation; on the last attempt, or with no repairer, the loop ends.
  pub repaired : (left : ℕ) → Option (ToolRepairer V) → String → ℕ → (V → Harness Out) → Harness Out
  repaired zero r text attempt again = throw HarnessError.tool_call_unrecoverable
  repaired (suc left) none text attempt again = throw HarnessError.tool_call_unrecoverable
  repaired (suc left) (some repair) text attempt again = do
    candidate ← repair original text attempt
    again candidate

  pub judge : (left attempt : ℕ) → Outcome String In → (V → Harness Out) → Harness Out
  unfolding repaired execute
  judge left attempt (return validated) again = execute attempt validated
  judge left attempt (raise text) again = do
    log_attempt attempt AttemptStatus.invalid_input
    repaired left repairer text attempt again

  -- `left` attempts may follow this one.
  pub attempt_from : (left attempt : ℕ) → V → Harness Out
  unfolding judge
  attempt_from zero attempt candidate =
      judge zero attempt (tool.input_model candidate)
        (λ _. throw HarnessError.tool_call_unrecoverable)
  attempt_from (suc left) attempt candidate =
      judge (suc left) attempt (tool.input_model candidate) (attempt_from left (attempt + 1))

  unfoldable pub run_tool : Harness Out
  unfolding attempt_from
  run_tool = attempt_from (repair_attempt_cap - 1) 1 original
