-- ===== src/Harness/Runs/Outcomes.antt =====
-- How a tracked run ends, whatever its body does.
use syncinerary.Prelude.{
  ℕ, zero, suc, ◌+◌, ◌≤◌, ◌≡◌, refl, ap, Option, none, some, Outcome, return, raise, ◌>>◌, pure,
  arith, leb, ltb, ◌∙◌, if◌then◌else◌, Bool-cases, Option-cases, inl, inr, find_row,
}
use syncinerary.Harness.Budget.{HarnessError, budget_exceeded, RunBudget, new_budget}
use syncinerary.Harness.LoopDetector.{Observed, or_default}
use syncinerary.Harness.Ledger.{
  RunStatus, AgentRun, RunLedger, World, Harness, find_run, before_call,
}
use syncinerary.Harness.Ledger.Saving.{saved_row, ==_refl, persist-Persists}
use syncinerary.Harness.Ledger.Stepping.{before_call-Steps}
use syncinerary.Harness.Runs.{Settings, final_status, enter, settle, tracked_run}

-- The row that a run leaves, from the row that its body leaves.
abbrev pub closed_row : Option RunStatus → RunLedger → AgentRun → AgentRun
closed_row none l row = row
closed_row (some s) l row = saved_row l (some s) row

settle-closed :
    {A : Type 0} (i : ℕ) (r : Outcome HarnessError A) (w : World) (row : AgentRun)
    → find_run i w ≡ some row
    → ((settle i r w).0 ≡ r)
      × (find_run i (settle i r w).1 ≡ some (closed_row (final_status r) (w.ledgers i) row))
unfolding settle
settle-closed i r w row found = elim (Option-cases (final_status r)) [
  | inl e ↦ rw (e, settle) (refl, found)
  | inr (s, e) ↦
      let p = persist-Persists i (some s) w row found in rw (e, settle) (rw p.returns refl, p.row)
]

opened_row : ℕ → AgentRun
opened_row fresh = record { id = fresh; status = RunStatus.running; step_count = 0; token_cost = 0 }

find_run-enter :
    (fresh : ℕ) (b : RunBudget) (w : World)
    → (find_run fresh (enter fresh b w) ≡ some (opened_row fresh))
      × (((enter fresh b w).ledgers fresh).budget ≡ b)
      × ((enter fresh b w).current ≡ some fresh)
unfolding enter find_row opened_row
find_run-enter fresh b w = (rw ==_refl refl, rw ==_refl refl, refl)

module _ {A : Type 0} (settings : Settings) (fresh : ℕ) (steps usd : Option ℕ) (body : Harness A)
    (w : World) where
  -- The budget that a run opens with.
  abbrev opening_budget : RunBudget
  opening_budget =
      new_budget (or_default steps settings.sync_max_steps)
        (or_default usd settings.sync_max_tokens_usd)

  -- What the body does from the opened run.
  abbrev pub body_result : Outcome HarnessError A × World
  body_result = body (enter fresh opening_budget w)

  -- Whatever the body does, if its run row is still there at the end then the run has the body's
  -- outcome, the row has the status of that outcome and the ledger's counters (on a cancellation
  -- it stays as the body left it), and the context variable is what it was before the run.
  pub tracked_run-closes :
      (row : AgentRun)
      → find_run fresh body_result.1 ≡ some row
      → let after = tracked_run settings fresh steps usd body w in
        (after.0 ≡ body_result.0)
        × (find_run fresh after.1
            ≡ some (closed_row (final_status body_result.0) (body_result.1.ledgers fresh) row))
        × (after.1.current ≡ w.current)
  unfolding tracked_run
  tracked_run-closes row found =
      let closed = settle-closed fresh body_result.0 body_result.1 row found in
      (closed.0, closed.1, refl)

module _ {V : Type 0} (canonical : Observed V → ℕ) (arguments : V) where
  -- A loop of `n` calls through the harness that observes no state and calls no tool.
  pub call_times : ℕ → Harness (Unit {0})
  call_times zero = pure tt
  call_times (suc n) = before_call canonical arguments none none >> call_times n

  record Ends (i m s n : ℕ) (after : Outcome HarnessError (Unit {0}) × World) : Type 0 where
    outcome : after.0 ≡ (if leb (s + n) m then return tt else raise budget_exceeded)
    steps : (after.1.ledgers i).budget.step_count ≡ (if leb (s + n) m then s + n else m + 1)
    row : AgentRun
    found : find_run i after.1 ≡ some row

  call_times-Ends :
      (i n m s : ℕ) (w : World) (r : AgentRun)
      → w.current ≡ some i
      → find_run i w ≡ some r
      → (w.ledgers i).budget.max_steps ≡ m
      → (w.ledgers i).budget.step_count ≡ s
      → s ≤ m
      → Ends i m s n (call_times n w)
  unfolding call_times
  call_times-Ends i zero m s w r now found max_eq s_eq below = record {
    outcome = ground arith;
    steps = ground arith;
    row = r;
    found = found;
  }
  call_times-Ends i (suc n) m s w r now found max_eq s_eq below =
      let w' = (before_call canonical arguments none none w).1 in
      let p = before_call-Steps canonical arguments i w r now found in
      elim (Bool-cases (ltb m (s + 1))) [
        | inl over ↦
            let raised : (before_call canonical arguments none none w).0 ≡ raise budget_exceeded =
              rw (p.outcome, max_eq, s_eq, over) refl in
            record {
              outcome = rw raised (ground arith);
              steps = rw raised (ground (arith, p.steps));
              row = p.row;
              found = rw raised p.found;
            }
        | inr room ↦
            let returned : (before_call canonical arguments none none w).0 ≡ return tt =
              rw (p.outcome, max_eq, s_eq, room) refl in
            let rest =
              call_times-Ends i n m (s + 1) w' p.row p.current p.found (p.max_steps ∙ max_eq)
                (rw (p.steps, s_eq) refl) (ground arith) in
            record {
              outcome = rw returned (ground (arith, rest.outcome));
              steps = rw returned (ground (arith, rest.steps));
              row = rest.row;
              found = rw returned rest.found;
            }
      ]

  -- A tracked run of `n` plain calls under the limit of `m` steps: up to `m` calls it returns and
  -- the row ends as ok with `n` steps, beyond that it raises `BudgetExceeded` and the row ends
  -- with that status after the step that broke the limit.
  pub tracked_calls :
      (settings : Settings) (fresh m n : ℕ) (usd : Option ℕ) (w : World)
      → let after = tracked_run settings fresh (some m) usd (call_times n) w in
        (after.0 ≡ (if leb n m then return tt else raise budget_exceeded))
        × ((row : AgentRun) × (find_run fresh after.1 ≡ some row)
            × (row.status ≡ (if leb n m then RunStatus.ok else RunStatus.budget_exceeded))
            × (row.step_count ≡ (if leb n m then n else m + 1)))
  tracked_calls settings fresh m n usd w =
      let b = opening_budget settings fresh (some m) usd (call_times n) w in
      let (row, budget, now) = find_run-enter fresh b w in
      let ends =
        call_times-Ends fresh n m 0 (enter fresh b w) (opened_row fresh) now row
          (ap (λ (c : RunBudget). c.max_steps) budget) (ap (λ (c : RunBudget). c.step_count) budget)
          (omega arith) in
      let closed =
        tracked_run-closes settings fresh (some m) usd (call_times n) w ends.row ends.found in
      elim (Bool-cases (leb n m)) [
        | inl fits ↦
            let ok : (call_times n (enter fresh b w)).0 ≡ return tt =
              ground (arith, ends.outcome) in
            (
              rw (closed.0, ok, fits) refl,
              (_, closed.1, rw (ok, fits) refl, rw (ok, fits) (ground (arith, ends.steps))),
            )
        | inr over ↦
            let bad : (call_times n (enter fresh b w)).0 ≡ raise budget_exceeded =
              ground (arith, ends.outcome) in
            (
              rw (closed.0, bad, over) refl,
              (_, closed.1, rw (bad, over) refl, rw (bad, over) (ground (arith, ends.steps))),
            )
      ]
