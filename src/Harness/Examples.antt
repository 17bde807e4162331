-- ===== src/Harness/Examples.antt =====
-- Concrete runs of the harness.
pub mod Budgets
pub mod Ledgers
pub mod Tools
use syncinerary.Prelude.{ℕ, ◌+◌, List, [], ◌∷◌, some}
use syncinerary.Harness.Budget.{new_budget}
use syncinerary.Harness.LoopDetector.{LoopDetector, Observed, state, call}
use syncinerary.Harness.Ledger.{RunStatus, running, AgentRun, World, unset}

-- Fingerprints that keep what they stand for apart.
abbrev pub canonical : Observed ℕ → ℕ
canonical (state v) = v
canonical (call name v) = v + 1000

abbrev pub detector_of_two : LoopDetector
detector_of_two = record {
  window_size = 4;
  repeat_threshold = 2;
  tool_repeat_threshold = 2;
  state_hashes = 7 ∷ 8 ∷ [];
  tool_hashes = [];
}

abbrev pub first_run : AgentRun
first_run = record { id = 1; status = running; step_count = 2; token_cost = 30 }

abbrev pub one_run : World
one_run = record {
  current = some 1;
  ledgers = λ _. record {
    budget = record {
      max_steps = 3;
      max_token_cost_usd = 100;
      step_count = 2;
      token_cost_usd = 30;
    };
    detector = detector_of_two;
  };
  runs = first_run ∷ [];
  scoped_key = unset;
  attempts = [];
}
