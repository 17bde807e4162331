-- ===== src/Harness/Ledger/Saving.antt =====
-- The row of a run follows its ledger.
use mathlib.Core.Option
use syncinerary.Prelude.{
  ℕ, ◌+◌, ◌≡◌, refl, inl, inr, String, Option, none, some, Outcome, return, raise, Action, and_then,
  arith, ◌==◌, if◌then◌else◌, update_row, find_row-update_row, true, false, Option-cases, ltb, ◌∙◌,
}
use syncinerary.Harness.Budget.{
  HarnessError, budget_exceeded, run_disappeared, TokenPricing, charge_step, charge_tokens, cost,
}
use syncinerary.Harness.LoopDetector.{LoopDetector, Observed, observe_state, observe_tool}
use syncinerary.Harness.Ledger.{
  RunStatus, AgentRun, RunLedger, World, find_run, run_id_of, persist, on_budget, on_detector,
  guards, ledger_before_call, record_usage, if_given, Harness,
}

abbrev status_or : Option RunStatus → RunStatus → RunStatus
status_or none old = old
status_or (some s) old = s

-- The row that saving the ledger of a run writes.
abbrev pub saved_row : RunLedger → Option RunStatus → AgentRun → AgentRun
saved_row l status r = record {
  id = r.id;
  status = status_or status r.status;
  step_count = l.budget.step_count;
  token_cost = l.budget.token_cost_usd;
}

-- What a save does to the world when the row is there.
pub record Persists (i : ℕ) (status : Option RunStatus) (w : World) (r : AgentRun) : Type 0 where
  pub returns : (persist i status w).0 ≡ return tt
  pub row : find_run i (persist i status w).1 ≡ some (saved_row (w.ledgers i) status r)
  pub others : (j : ℕ) → (i == j) ≡ false → find_run j (persist i status w).1 ≡ find_run j w
  pub ledgers : (persist i status w).1.ledgers ≡ w.ledgers
  pub current : (persist i status w).1.current ≡ w.current
  pub scoped_key : (persist i status w).1.scoped_key ≡ w.scoped_key
  pub attempts : (persist i status w).1.attempts ≡ w.attempts

pub ==_refl : (i : ℕ) → (i == i) ≡ true
==_refl i = ground arith

-- The world after a save that finds its row.
abbrev saved_world : ℕ → Option RunStatus → World → World
saved_world i status w = record w {
  runs = update_row run_id_of i (saved_row (w.ledgers i) status) w.runs;
}

persist-found :
    (i : ℕ) (status : Option RunStatus) (w : World) (r : AgentRun)
    → find_run i w ≡ some r
    → persist i status w ≡ (return tt, saved_world i status w)
unfolding persist
persist-found i none w r found = rw (found, persist) refl
persist-found i (some s) w r found = rw (found, persist) refl

find_run-saved_world :
    (i j : ℕ) (status : Option RunStatus) (w : World)
    → find_run j (saved_world i status w) ≡ (
        if i == j then Option.map (saved_row (w.ledgers i) status) (find_run i w) else find_run j w)
find_run-saved_world i j status w =
    find_row-update_row run_id_of i j (saved_row (w.ledgers i) status) w.runs (λ _. refl)

pub persist-Persists :
    (i : ℕ) (status : Option RunStatus) (w : World) (r : AgentRun)
    → find_run i w ≡ some r
    → Persists i status w r
persist-Persists i status w r found =
    let e = persist-found i status w r found in
    record {
      returns = rw e refl;
      row = rw e (rw (find_run-saved_world i i status w, ==_refl i, found) refl);
      others = λ j ne. rw e (rw (find_run-saved_world i j status w, ne) refl);
      ledgers = rw e refl;
      current = rw e refl;
      scoped_key = rw e refl;
      attempts = rw e refl;
    }

persist_missing :
    (i : ℕ) (status : Option RunStatus) (w : World)
    → find_run i w ≡ none
    → persist i status w ≡ (raise run_disappeared, w)
unfolding persist
persist_missing i status w missing = rw (missing, persist) refl

-- What the guards of a call do to everything but the detector.
pub record GuardFrame (i : ℕ) (w w' : World) : Type 0 where
  pub runs : w'.runs ≡ w.runs
  pub current : w'.current ≡ w.current
  pub scoped_key : w'.scoped_key ≡ w.scoped_key
  pub attempts : w'.attempts ≡ w.attempts
  pub steps : (w'.ledgers i).budget.step_count ≡ (w.ledgers i).budget.step_count + 1
  pub usd : (w'.ledgers i).budget.token_cost_usd ≡ (w.ledgers i).budget.token_cost_usd
  pub max_steps : (w'.ledgers i).budget.max_steps ≡ (w.ledgers i).budget.max_steps
  pub max_usd : (w'.ledgers i).budget.max_token_cost_usd ≡ (w.ledgers i).budget.max_token_cost_usd
  pub others : (j : ℕ) → (i == j) ≡ false → w'.ledgers j ≡ w.ledgers j

charge_step_frame : (i : ℕ) (w : World) → GuardFrame i w (on_budget i charge_step w).1
unfolding on_budget charge_step
charge_step_frame i w = record {
  runs = refl;
  current = refl;
  scoped_key = refl;
  attempts = refl;
  steps = ground arith;
  usd = ground arith;
  max_steps = ground arith;
  max_usd = ground arith;
  others = λ j ne. rw ne refl;
}

detector_frame :
    (i : ℕ) (m : Action LoopDetector HarnessError (Unit {0})) (w w' : World)
    → GuardFrame i w w'
    → GuardFrame i w (on_detector i m w').1
unfolding on_detector
detector_frame i m w w' f = record {
  runs = f.runs;
  current = f.current;
  scoped_key = f.scoped_key;
  attempts = f.attempts;
  steps = rw ==_refl f.steps;
  usd = rw ==_refl f.usd;
  max_steps = rw ==_refl f.max_steps;
  max_usd = rw ==_refl f.max_usd;
  others = λ j ne. rw ne (f.others j ne);
}

-- A statement that runs only if the one before it did not raise.
and_then_frame :
    (i : ℕ) (w w' : World) (r : Outcome HarnessError (Unit {0})) (k : Harness (Unit {0}))
    → GuardFrame i w w'
    → ((v : World) → GuardFrame i w v → GuardFrame i w (k v).1)
    → GuardFrame i w (and_then r (λ _. k) w').1
and_then_frame i w w' (return _) k f next = next w' f
and_then_frame i w w' (raise e) k f next = f

module _ {V : Type 0} (canonical : Observed V → ℕ) (i : ℕ) (arguments : V) where
  tool_frame :
      (tool_name : Option String) (w w' : World)
      → GuardFrame i w w'
      → GuardFrame i w
          (if_given tool_name (λ name. on_detector i (observe_tool canonical name arguments)) w').1
  tool_frame none w w' f = f
  tool_frame (some name) w w' f = detector_frame i (observe_tool canonical name arguments) w w' f

  state_frame :
      (state : Option V) (w w' : World)
      → GuardFrame i w w'
      → GuardFrame i w (if_given state (λ v. on_detector i (observe_state canonical v)) w').1
  state_frame none w w' f = f
  state_frame (some v) w w' f = detector_frame i (observe_state canonical v) w w' f

  pub guards-GuardFrame :
      (state : Option V) (tool_name : Option String) (w : World)
      → GuardFrame i w (guards canonical i arguments state tool_name w).1
  unfolding guards
  guards-GuardFrame state tool_name w =
      let charged = on_budget i charge_step w in
      and_then_frame i w charged.1 charged.0 _ (charge_step_frame i w) λ v f.
        let checked = if_given state (λ u. on_detector i (observe_state canonical u)) v in
        and_then_frame i w checked.1 checked.0 _ (state_frame state w v f) (tool_frame tool_name w)

  -- A guarded call whose row exists: the exception is that of the guards, and the row has one
  -- step more than the ledger had, the ledger's cost and its old status, whether or not the
  -- guards refuse. No other row is written and the context variables are as before.
  pub ledger_before_call-saves :
      (state : Option V) (tool_name : Option String) (w : World) (r : AgentRun)
      → find_run i w ≡ some r
      → let after = ledger_before_call canonical i arguments state tool_name w in
        (after.0 ≡ (guards canonical i arguments state tool_name w).0)
        × (find_run i after.1
            ≡ some (record {
              id = r.id;
              status = r.status;
              step_count = (w.ledgers i).budget.step_count + 1;
              token_cost = (w.ledgers i).budget.token_cost_usd;
            }))
        × ((j : ℕ) → (i == j) ≡ false → find_run j after.1 ≡ find_run j w)
        × (after.1.current ≡ w.current)
        × (after.1.scoped_key ≡ w.scoped_key)
  unfolding ledger_before_call
  ledger_before_call-saves state tool_name w r found =
      let guarded = guards canonical i arguments state tool_name w in
      let f = guards-GuardFrame state tool_name w in
      let found' : find_run i guarded.1 ≡ some r = rw f.runs found in
      let p = persist-Persists i none guarded.1 r found' in
      (
        rw p.returns refl,
        rw (p.row, f.steps, f.usd) refl,
        λ j ne. rw (p.others j ne, f.runs) refl,
        rw (p.current, f.current) refl,
        rw (p.scoped_key, f.scoped_key) refl,
      )

  pub ledger_before_call-ledger :
      (state : Option V) (tool_name : Option String) (w : World) (r : AgentRun)
      → find_run i w ≡ some r
      → let b = ((ledger_before_call canonical i arguments state tool_name w).1.ledgers i).budget in
        (b.step_count ≡ (w.ledgers i).budget.step_count + 1)
        × (b.token_cost_usd ≡ (w.ledgers i).budget.token_cost_usd)
        × (b.max_token_cost_usd ≡ (w.ledgers i).budget.max_token_cost_usd)
  unfolding ledger_before_call
  ledger_before_call-ledger state tool_name w r found =
      let guarded = guards canonical i arguments state tool_name w in
      let f = guards-GuardFrame state tool_name w in
      let p = persist-Persists i none guarded.1 r (rw f.runs found) in
      (rw p.ledgers f.steps, rw p.ledgers f.usd, rw p.ledgers f.max_usd)

  -- A save leaves the credential scope alone, whether it finds its row or not.
  persist-scoped_key :
      (status : Option RunStatus) (w : World) → (persist i status w).1.scoped_key ≡ w.scoped_key
  persist-scoped_key status w = elim (Option-cases (find_run i w)) [
    | inl missing ↦ rw (persist_missing i status w missing) refl
    | inr (r, found) ↦ (persist-Persists i status w r found).scoped_key
  ]

  pub ledger_before_call-scoped_key :
      (state : Option V) (tool_name : Option String) (w : World)
      → (ledger_before_call canonical i arguments state tool_name w).1.scoped_key ≡ w.scoped_key
  unfolding ledger_before_call
  ledger_before_call-scoped_key state tool_name w =
      persist-scoped_key none (guards canonical i arguments state tool_name w).1
      ∙ (guards-GuardFrame state tool_name w).scoped_key

-- A charge of tokens whose run row exists: the row has the ledger's cost with the charge added,
-- also when the charge breaks the limit and is refused.
pub record_usage-saves :
    (i input output : ℕ) (pricing : TokenPricing) (w : World) (r : AgentRun)
    → find_run i w ≡ some r
    → let total = (w.ledgers i).budget.token_cost_usd + cost pricing input output in
      ((record_usage i input output pricing w).0 ≡ (
        if ltb (w.ledgers i).budget.max_token_cost_usd total
        then raise budget_exceeded
        else return tt))
      × (find_run i (record_usage i input output pricing w).1
          ≡ some (record {
            id = r.id;
            status = r.status;
            step_count = (w.ledgers i).budget.step_count;
            token_cost = total;
          }))
unfolding record_usage on_budget charge_tokens
record_usage-saves i input output pricing w r found =
    let charged = on_budget i (charge_tokens input output pricing) w in
    let p = persist-Persists i none charged.1 r found in
    (rw p.returns (ground arith), p.row ∙ ground (arith, ==_refl i))
