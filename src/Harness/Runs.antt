-- ===== src/Harness/Runs.antt =====
-- `tracked_run` of syncinerary/harness/wrapper.py: a run row and a ledger around a body of work.
-- `fresh` is the identifier that the database gives the new run.
pub mod Outcomes
use syncinerary.Prelude.{
  ℕ, List, [], ◌∷◌, Option, none, some, Outcome, return, raise, Action, ◌==◌, if◌then◌else◌,
  after_cleanup, Bool, ◌≡◌, refl,
}
use syncinerary.Harness.Budget.{HarnessError, RunBudget, new_budget}
use syncinerary.Harness.LoopDetector.{LoopDetector, make_detector, or_default}
use syncinerary.Harness.Ledger.{RunStatus, AgentRun, RunLedger, World, Harness, persist, set_ledger}

abbrev loop_hash_repeat_threshold : ℕ
loop_hash_repeat_threshold = 3

abbrev tool_arg_cycle_threshold : ℕ
tool_arg_cycle_threshold = 3

abbrev no_progress_window : ℕ
no_progress_window = 6

-- The detector that `tracked_run` builds from the defaults.
abbrev default_detector : LoopDetector
default_detector = record {
  window_size = no_progress_window;
  repeat_threshold = loop_hash_repeat_threshold;
  tool_repeat_threshold = tool_arg_cycle_threshold;
  state_hashes = [];
  tool_hashes = [];
}

make_detector_default :
    make_detector no_progress_window loop_hash_repeat_threshold (some tool_arg_cycle_threshold)
    ≡ return default_detector
unfolding make_detector
make_detector_default = refl

pub record Settings : Type 0 where
  pub sync_max_steps : ℕ
  pub sync_max_tokens_usd : ℕ

-- The status that the `except` clauses write. A cancellation is no `Exception`: no clause
-- catches it.
abbrev status_of_error : HarnessError → Option RunStatus
status_of_error HarnessError.budget_exceeded = some RunStatus.budget_exceeded
status_of_error HarnessError.no_progress = some RunStatus.no_progress
status_of_error HarnessError.tool_cycle = some RunStatus.tool_cycle
status_of_error HarnessError.cancelled = none
status_of_error _ = some RunStatus.failed

abbrev pub final_status : {A : Type 0} → Outcome HarnessError A → Option RunStatus
final_status (return a) = some RunStatus.ok
final_status (raise e) = status_of_error e

-- The run is opened: its row, its ledger and the context variable.
unfoldable pub enter : ℕ → RunBudget → World → World
enter fresh budget w =
    let opened = set_ledger fresh (record { budget = budget; detector = default_detector }) w in
    record opened {
      runs =
          record { id = fresh; status = RunStatus.running; step_count = 0; token_cost = 0 }
          ∷ w.runs;
      current = some fresh;
    }

-- The `except` and `else` clauses: the last save, whose failure takes the place of the outcome.
unfoldable pub settle :
    {A : Type 0} → ℕ → Outcome HarnessError A → World → Outcome HarnessError A × World
settle fresh r w = elim (final_status r) [
  | none ↦ (r, w)
  | some status ↦ let (saved, w') = persist fresh (some status) w in (after_cleanup r saved, w')
]

unfoldable pub tracked_run :
    {A : Type 0} (settings : Settings) (fresh : ℕ) (max_steps max_token_cost_usd : Option ℕ)
    → Harness A
    → Harness A
unfolding enter settle persist
tracked_run settings fresh max_steps max_usd body w =
    let budget =
      new_budget (or_default max_steps settings.sync_max_steps)
        (or_default max_usd settings.sync_max_tokens_usd) in
    let (r, w') = body (enter fresh budget w) in
    let (r', w'') = settle fresh r w' in (r', record w'' { current = w.current })
