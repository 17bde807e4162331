-- ===== src/Harness/Calls/Charging.antt =====
-- What a call of the model costs a run.
use syncinerary.Prelude.{
  ℕ, ◌+◌, ◌≡◌, refl, ap, ◌∙◌, [], ◌∷◌, ◌++◌, Option, none, some, Outcome, return, raise, and_then,
  ltb, if◌then◌else◌, Bool, true, false, pure,
}
use syncinerary.Harness.Budget.{HarnessError, budget_exceeded, TokenPricing, cost}
use syncinerary.Harness.LoopDetector.{Observed}
use syncinerary.Harness.Ledger.{
  AgentRun, World, find_run, guards, ledger_before_call, record_usage, AttemptStatus,
}
use syncinerary.Harness.Ledger.Saving.{
  ledger_before_call-saves, record_usage-saves, ledger_before_call-ledger,
}
use syncinerary.Harness.Ledger.Stepping.{before_call_inside}
use syncinerary.Harness.Calls.{
  given, Usage, Provider, call_llm, pricing_or, account_for, behind_guards,
}

-- The world with the two events of an answered call.
abbrev logged : World → World
logged v = record v {
  attempts =
      (v.attempts ++ record { attempt = 1; status = AttemptStatus.executing } ∷ [])
      ++ record { attempt = 1; status = AttemptStatus.succeeded } ∷ [];
}

module _ {V R : Type 0} (provider : Provider V R) where
  -- The caller's client answers the request with this response and this usage.
  pub record Answers (c : ℕ) (request : V) (response : R) (u : Usage) : Type 0 where
    pub created : provider.create (given c) request ≡ return response
    pub used : provider.usage_of response ≡ some u

  abbrev charged : ℕ → Option TokenPricing → Usage → World → Outcome HarnessError (Unit {0}) × World
  charged i pricing u v =
      record_usage i u.input_tokens u.output_tokens (pricing_or provider pricing) (logged v)

  behind_guards_answered :
      (i c : ℕ) (request : V) (pricing : Option TokenPricing) (response : R) (u : Usage) (v : World)
      → v.current ≡ some i
      → Answers c request response u
      → behind_guards provider request (some c) pricing v
        ≡ and_then (charged i pricing u v).0 (λ _. pure response) (charged i pricing u v).1
  unfolding behind_guards
  behind_guards_answered i c request pricing response u v now a =
      let v1 : World = record v {
        attempts = v.attempts ++ record { attempt = 1; status = AttemptStatus.executing } ∷ [];
      } in
      let accounted : account_for provider v.current pricing response v1 ≡ charged i pricing u v =
        ap (λ o. account_for provider o pricing response v1) now ∙ rw a.used refl in
      rw a.created (ap (λ after. and_then after.0 (λ _. pure response) after.1) accounted)

pass_on-world :
    {A : Type 0} (o : Outcome HarnessError (Unit {0})) (a : A) (v : World)
    → (and_then o (λ _. pure a) v).1 ≡ v
pass_on-world (return _) a v = refl
pass_on-world (raise e) a v = refl

pass_on-outcome :
    {A : Type 0} (b : Bool) (e : HarnessError) (o : Outcome HarnessError (Unit {0})) (a : A)
    (v : World)
    → o ≡ (if b then raise e else return tt)
    → (and_then o (λ _. pure a) v).0 ≡ (if b then raise e else return a)
pass_on-outcome true e o a v h = rw h refl
pass_on-outcome false e o a v h = rw h refl

module _ {V R : Type 0} (canonical : Observed V → ℕ) (provider : Provider V R) where
  -- Inside the run `i`, a call whose guards pass and whose client answers with valid usage adds
  -- the price of that usage to the run: the row ends with the old cost plus the price and with one
  -- step more, also when the price breaks the limit. The response is returned within the limit,
  -- and `BudgetExceeded` is raised beyond it.
  pub call_llm-charges :
      (i c : ℕ) (request : V) (pricing : Option TokenPricing) (state : Option V) (response : R)
      (u : Usage) (w : World) (r : AgentRun)
      → w.current ≡ some i
      → find_run i w ≡ some r
      → (guards canonical i request state none w).0 ≡ return tt
      → Answers provider c request response u
      → let total =
          (w.ledgers i).budget.token_cost_usd
          + cost (pricing_or provider pricing) u.input_tokens u.output_tokens in
        let after = call_llm canonical provider request (some c) pricing state w in
        (after.0 ≡ (
          if ltb (w.ledgers i).budget.max_token_cost_usd total
          then raise budget_exceeded
          else return response))
        × ((row : AgentRun) × (find_run i after.1 ≡ some row)
            × (row.token_cost ≡ total)
            × (row.step_count ≡ (w.ledgers i).budget.step_count + 1))
  unfolding call_llm
  call_llm-charges i c request pricing state response u w r now found passed a =
      let before = ledger_before_call canonical i request state none w in
      let saved = ledger_before_call-saves canonical i request state none w r found in
      let ledger = ledger_before_call-ledger canonical i request state none w r found in
      let spent =
        record_usage-saves i u.input_tokens u.output_tokens (pricing_or provider pricing)
          (logged before.1) _ saved.1 in
      let whole : call_llm canonical provider request (some c) pricing state w
          ≡ and_then (charged provider i pricing u before.1).0 (λ _. pure response)
              (charged provider i pricing u before.1).1 =
        ap (λ o. and_then o.0 (λ _. behind_guards provider request (some c) pricing) o.1)
          (before_call_inside canonical request i state none w now)
        ∙ ap (λ o. and_then o (λ _. behind_guards provider request (some c) pricing) before.1)
            (saved.0 ∙ passed)
        ∙ behind_guards_answered provider i c request pricing response u before.1 (saved.3 ∙ now)
            a in
      let limit : ltb (before.1.ledgers i).budget.max_token_cost_usd (
            (before.1.ledgers i).budget.token_cost_usd
            + cost (pricing_or provider pricing) u.input_tokens u.output_tokens)
          ≡ ltb (w.ledgers i).budget.max_token_cost_usd (
              (w.ledgers i).budget.token_cost_usd
              + cost (pricing_or provider pricing) u.input_tokens u.output_tokens) =
        rw (ledger.1, ledger.2) refl in
      let end = charged provider i pricing u before.1 in
      (
        ap (λ o. o.0) whole
            ∙ pass_on-outcome _ budget_exceeded end.0 response end.1 spent.0
            ∙ ap (λ b. if b then raise budget_exceeded else return response) limit,
        (
          _,
          ap (λ o. find_run i o.1) whole
              ∙ ap (find_run i) (pass_on-world end.0 response end.1)
              ∙ spent.1,
          ap (λ n. n + cost (pricing_or provider pricing) u.input_tokens u.output_tokens) ledger.1,
          ledger.0,
        ),
      )
