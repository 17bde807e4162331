-- ===== src/Harness/Ledger/Stepping.antt =====
-- One call through the harness that observes no state and calls no tool.
use syncinerary.Prelude.{
  ℕ, ◌+◌, ◌≡◌, ap, String, Option, none, some, Outcome, return, raise, arith, ltb, if◌then◌else◌,
  ◌∙◌,
}
use syncinerary.Harness.Budget.{HarnessError, budget_exceeded, charge_step}
use syncinerary.Harness.LoopDetector.{Observed}
use syncinerary.Harness.Ledger.{
  AgentRun, World, find_run, on_budget, guards, ledger_before_call, call_in, before_call,
}
use syncinerary.Harness.Ledger.Saving.{persist-Persists, guards-GuardFrame}

-- The state after such a call in the run `i`.
pub record Steps (i : ℕ) (w : World) (after : Outcome HarnessError (Unit {0}) × World)
    : Type 0 where
  pub outcome : after.0 ≡ (
      if ltb (w.ledgers i).budget.max_steps ((w.ledgers i).budget.step_count + 1)
      then raise budget_exceeded
      else return tt)
  pub steps : (after.1.ledgers i).budget.step_count ≡ (w.ledgers i).budget.step_count + 1
  pub max_steps : (after.1.ledgers i).budget.max_steps ≡ (w.ledgers i).budget.max_steps
  pub current : after.1.current ≡ some i
  pub row : AgentRun
  pub found : find_run i after.1 ≡ some row

module _ {V : Type 0} (canonical : Observed V → ℕ) (arguments : V) where
  guards_outcome :
      (i : ℕ) (w : World)
      → ((guards canonical i arguments none none w).0 ≡ (
          if ltb (w.ledgers i).budget.max_steps ((w.ledgers i).budget.step_count + 1)
          then raise budget_exceeded
          else return tt))
        × (((guards canonical i arguments none none w).1.ledgers i).budget.max_steps
            ≡ (w.ledgers i).budget.max_steps)
  unfolding guards on_budget charge_step
  guards_outcome i w = ground arith

  pub before_call_inside :
      (i : ℕ) (state : Option V) (tool_name : Option String) (w : World)
      → w.current ≡ some i
      → before_call canonical arguments state tool_name w
        ≡ ledger_before_call canonical i arguments state tool_name w
  unfolding before_call
  before_call_inside i state tool_name w now =
      ap (λ c. call_in canonical c arguments state tool_name w) now

  pub before_call-Steps :
      (i : ℕ) (w : World) (r : AgentRun)
      → w.current ≡ some i
      → find_run i w ≡ some r
      → Steps i w (before_call canonical arguments none none w)
  unfolding ledger_before_call
  before_call-Steps i w r now found =
      let guarded = guards canonical i arguments none none w in
      let f = guards-GuardFrame canonical i arguments none none w in
      let found' : find_run i guarded.1 ≡ some r = rw f.runs found in
      let p = persist-Persists i none guarded.1 r found' in
      let o = guards_outcome i w in
      rw (before_call_inside i none none w now) (record {
        outcome = rw p.returns o.0;
        steps = rw p.ledgers f.steps;
        max_steps = rw p.ledgers o.1;
        current = p.current ∙ f.current ∙ now;
        row = _;
        found = p.row;
      })
