-- ===== src/Harness/Ledger.antt =====
-- The run ledger of syncinerary/harness/wrapper.py and the `agent_run` table that it is saved to
-- (syncinerary/store/repositories/ops.py).
-- A ledger is an object shared by reference: the heap maps the identifier of a run to its ledger,
-- and the context variable `_current_run` holds such an identifier or nothing.
pub mod Saving
pub mod Stepping
use mathlib.Core.Option
use syncinerary.Prelude.{
  ℕ, ◌+◌, String, List, [], ◌∷◌, ◌++◌, Option, none, some, Outcome, return, raise, Action, ◌>>=◌,
  ◌>>◌, pure, throw, try_finally, ◌==◌, if◌then◌else◌, find_row, update_row, ◌≡◌, refl,
}
use syncinerary.Harness.Budget.{
  HarnessError, run_disappeared, TokenPricing, RunBudget, charge_step, charge_tokens,
}
use syncinerary.Harness.LoopDetector.{
  LoopDetector, Observed, observe_state, observe_tool, or_default,
}

pub data RunStatus : Type 0 where
  running ok failed budget_exceeded no_progress tool_cycle : RunStatus

pub record AgentRun : Type 0 where
  pub id : ℕ
  pub status : RunStatus
  pub step_count : ℕ
  pub token_cost : ℕ

pub record RunLedger : Type 0 where
  pub budget : RunBudget
  pub detector : LoopDetector

-- `_current_anthropic_api_key`: not set, the `_CREATOR_KEY_MISSING` marker, or a key.
pub data ScopedKey : Type 0 where
  unset creator_key_missing : ScopedKey
  key : String → ScopedKey

pub data AttemptStatus : Type 0 where
  executing succeeded call_failed invalid_input invalid_output invalid_usage : AttemptStatus

-- One `harness.attempt` event of the trace.
pub record Attempt : Type 0 where
  pub attempt : ℕ
  pub status : AttemptStatus

pub record World : Type 0 where
  pub current : Option ℕ
  pub ledgers : ℕ → RunLedger
  pub runs : List AgentRun
  pub scoped_key : ScopedKey
  pub attempts : List Attempt

abbrev pub Harness : Type 0 → Type 0
Harness A = Action World HarnessError A

abbrev pub run_id_of : AgentRun → ℕ
run_id_of r = r.id

abbrev pub find_run : ℕ → World → Option AgentRun
find_run i w = find_row run_id_of i w.runs

-- `AgentRunRepository.record_progress`, with both counters given; `none` leaves the status.
pub record_progress : ℕ → Option RunStatus → (step_count token_cost : ℕ) → World → Option World
record_progress i status steps usd w =
    Option.map
      (λ (_ : AgentRun). record w {
        runs =
            update_row run_id_of i
              (λ r. record {
                id = r.id;
                status = elim status [ none ↦ r.status | some s ↦ s ];
                step_count = steps;
                token_cost = usd;
              })
              w.runs;
      })
      (find_run i w)

-- `PostgresRunRecorder.progress` for the ledger of run `i`: `RunLedger._persist`
unfoldable pub persist : ℕ → Option RunStatus → Harness (Unit {0})
unfolding record_progress
persist i status w =
    elim (record_progress i status (w.ledgers i).budget.step_count
      (w.ledgers i).budget.token_cost_usd w) [
        | none ↦ (raise run_disappeared, w)
        | some w' ↦ (return tt, w')
      ]

abbrev pub set_ledger : ℕ → RunLedger → World → World
set_ledger i l w = record w { ledgers = λ j. if i == j then l else w.ledgers j }

-- A method of the budget or of the detector, run on the ledger object.
unfoldable pub on_budget : ℕ → Action RunBudget HarnessError (Unit {0}) → Harness (Unit {0})
on_budget i m w =
    let (r, b) = m (w.ledgers i).budget in
    (r, set_ledger i (record { budget = b; detector = (w.ledgers i).detector }) w)

unfoldable pub on_detector : ℕ → Action LoopDetector HarnessError (Unit {0}) → Harness (Unit {0})
on_detector i m w =
    let (r, d) = m (w.ledgers i).detector in
    (r, set_ledger i (record { budget = (w.ledgers i).budget; detector = d }) w)

abbrev pub if_given {ℓ} : {X : Type ℓ} → Option X → (X → Harness (Unit {0})) → Harness (Unit {0})
if_given none f = pure tt
if_given (some x) f = f x

module _ {V : Type 0} (canonical : Observed V → ℕ) where
  -- The body of `try` in `RunLedger.before_call`.
  unfoldable pub guards : ℕ → V → Option V → Option String → Harness (Unit {0})
  unfolding on_budget on_detector
  guards i arguments state tool_name = do
    on_budget i charge_step
    if_given state (λ v. on_detector i (observe_state canonical v))
    if_given tool_name (λ name. on_detector i (observe_tool canonical name arguments))

  -- `RunLedger.before_call`
  unfoldable pub ledger_before_call : ℕ → V → Option V → Option String → Harness (Unit {0})
  unfolding guards persist
  ledger_before_call i arguments state tool_name =
      try_finally (guards i arguments state tool_name) (persist i none)

  abbrev pub call_in : Option ℕ → V → Option V → Option String → Harness (Unit {0})
  call_in none arguments state tool_name = pure tt
  call_in (some i) arguments state tool_name = ledger_before_call i arguments state tool_name

  -- The function `before_call`.
  unfoldable pub before_call : V → Option V → Option String → Harness (Unit {0})
  unfolding ledger_before_call
  before_call arguments state tool_name w = call_in w.current arguments state tool_name w

-- `RunLedger.record_usage`
unfoldable pub record_usage :
    ℕ → (input_tokens output_tokens : ℕ) → TokenPricing → Harness (Unit {0})
unfolding on_budget persist
record_usage i input output pricing =
    try_finally (on_budget i (charge_tokens input output pricing)) (persist i none)
