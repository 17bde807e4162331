-- ===== src/Harness/Budget/Spending.antt =====
-- What sequences of charges do to a budget of syncinerary/harness/budget.py.
use syncinerary.Prelude.{
  ℕ, suc, ◌+◌, ◌≤◌, ◌≡◌, ◌↔◌, List, [], ◌∷◌, return, raise, Action, ◌>>◌, pure, arith,
}
use syncinerary.Harness.Budget.{
  HarnessError, budget_exceeded, TokenPricing, RunBudget, cost, charge_step, charge_tokens,
}

-- One charge of a run.
pub data Charge : Type 0 where
  step : Charge
  tokens : (input_tokens output_tokens : ℕ) → TokenPricing → Charge

charge : Charge → Action RunBudget HarnessError (Unit {0})
unfolding charge_step charge_tokens
charge step = charge_step
charge (tokens i o p) = charge_tokens i o p

-- A run makes its charges in order and stops at the first refusal.
pub charge_all : List Charge → Action RunBudget HarnessError (Unit {0})
unfolding charge
charge_all [] = pure tt
charge_all (c ∷ cs) = charge c >> charge_all cs

abbrev pub steps_of : List Charge → ℕ
steps_of [] = 0
steps_of (step ∷ cs) = suc (steps_of cs)
steps_of (tokens i o p ∷ cs) = steps_of cs

abbrev pub usd_of : List Charge → ℕ
usd_of [] = 0
usd_of (step ∷ cs) = usd_of cs
usd_of (tokens i o p ∷ cs) = cost p i o + usd_of cs

pub record IsWithin (b : RunBudget) : Type 0 where
  pub steps : b.step_count ≤ b.max_steps
  pub usd : b.token_cost_usd ≤ b.max_token_cost_usd

-- From a budget within its limits, a sequence of charges goes through exactly when the steps and
-- the costs, each added up over the whole sequence, stay within the limits.
pub charge_all-return_iff :
    (cs : List Charge) (b : RunBudget)
    → IsWithin b
    → ((charge_all cs b).0 ≡ return tt) ↔ (
        (b.step_count + steps_of cs ≤ b.max_steps)
        × (b.token_cost_usd + usd_of cs ≤ b.max_token_cost_usd))
unfolding charge_all
charge_all-return_iff [] b w = ground arith
charge_all-return_iff (step ∷ cs) b w =
    ground (arith, charge_all-return_iff cs (record b { step_count = b.step_count + 1 }))
charge_all-return_iff (tokens i o p ∷ cs) b w =
    ground (
      arith,
      charge_all-return_iff cs (record b { token_cost_usd = b.token_cost_usd + cost p i o }),
    )

-- From a budget within its limits, a sequence of charges ends with at most one step more than
-- allowed, whether it is refused or not, and any refusal is `BudgetExceeded`.
charge_all-overrun :
    (cs : List Charge) (b : RunBudget)
    → IsWithin b
    → ((charge_all cs b).1.step_count ≤ b.max_steps + 1)
      × ((e : HarnessError) → (charge_all cs b).0 ≡ raise e → e ≡ budget_exceeded)
unfolding charge_all
charge_all-overrun [] b w = ground arith
charge_all-overrun (step ∷ cs) b w =
    ground (arith, charge_all-overrun cs (record b { step_count = b.step_count + 1 }))
charge_all-overrun (tokens i o p ∷ cs) b w =
    ground
      (arith, charge_all-overrun cs (record b { token_cost_usd = b.token_cost_usd + cost p i o }))
