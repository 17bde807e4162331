-- ===== src/Harness/Tools/Validation.antt =====
-- What a tool's result has been through.
use syncinerary.Prelude.{
  ℕ, ◌≡◌, refl, sym, ◌∙◌, ap, ◌⊎◌, ◌↔◌, inl, inr, String, Option, none, some, Outcome, return,
  raise, and_then, arith,
}
use syncinerary.Harness.Budget.{HarnessError}
use syncinerary.Harness.LoopDetector.{Observed}
use syncinerary.Harness.Ledger.{AttemptStatus, World, Harness, before_call}
use syncinerary.Harness.Calls.{log_attempt}
use syncinerary.Harness.Tools.{
  ToolDefinition, ToolRepairer, note_failure, check_output, execute, repaired, judge, attempt_from,
  run_tool,
}

-- A bind that returns: its first part returned, and the rest returned from where that part left off.
bind-eq-return :
    {A B : Type 0} (r : Outcome HarnessError A) (s : World) (k : A → Harness B) {b : B}
    {final : World}
    → and_then r k s ≡ (return b, final)
    → (a : A) × (r ≡ return a) × (k a s ≡ (return b, final))
bind-eq-return (return a) s k e = (a, refl, e)
bind-eq-return (raise _) s k e = let raised = ap (λ x. x.0) e in cc

note_failure-eq-return :
    {Raw : Type 0} (attempt : ℕ) (r : Outcome HarnessError Raw) (w : World) {raw : Raw}
    → (note_failure attempt r w).0 ≡ return raw
    → r ≡ return raw
unfolding log_attempt
note_failure-eq-return attempt r w e = ground arith

check_output-eq-return :
    {Out : Type 0} (attempt : ℕ) (o : Outcome String Out) (w : World) {result : Out}
    → (check_output attempt o w).0 ≡ return result
    → o ≡ return result
unfolding log_attempt
check_output-eq-return attempt o w e = ground arith

note_failure-return :
    {Raw : Type 0} (attempt : ℕ) (r : Outcome HarnessError Raw) (w : World) {raw : Raw}
    → r ≡ return raw
    → note_failure attempt r w ≡ (return raw, w)
note_failure-return attempt r w e = rw e refl

check_output-return :
    {Out : Type 0} (attempt : ℕ) (o : Outcome String Out) (w : World) {result : Out}
    → o ≡ return result
    → check_output attempt o w ≡ (return result, (log_attempt attempt AttemptStatus.succeeded w).1)
unfolding log_attempt
check_output-return attempt o w e = rw e refl

module _ {V In Raw Out : Type 0} (canonical : Observed V → ℕ) (tool : ToolDefinition V In Raw Out)
    (repairer : Option (ToolRepairer V)) (state : Option V) (original : V) where
  -- An attempt from the state `w` that ends in `final`: valid arguments, then the guards, then the
  -- handler after the event `executing`, then a valid output and the event `succeeded`.
  pub record IsChecked (attempt : ℕ) (candidate : V) (w : World) (result : Out) (final : World)
      : Type 0 where
    pub validated : In
    pub valid_input : tool.input_model candidate ≡ return validated
    pub after_guards : World
    pub guarded :
        before_call canonical (tool.dump validated) state (some tool.name) w
        ≡ (return tt, after_guards)
    pub raw : Raw
    pub after_handler : World
    pub handled :
        tool.handler validated (log_attempt attempt AttemptStatus.executing after_guards).1
        ≡ (return raw, after_handler)
    pub valid_output : tool.output_model raw ≡ return result
    pub ended : (log_attempt attempt AttemptStatus.succeeded after_handler).1 ≡ final

  -- The candidate is what the repairer made of the original arguments in the state `w`, after the
  -- event `invalid_input`; it left the state `after`.
  pub record IsRepaired (w : World) (candidate : V) (after : World) : Type 0 where
    pub repair : ToolRepairer V
    pub has_repairer : repairer ≡ some repair
    pub text : String
    pub invalid : tool.input_model original ≡ raise text
    pub answered :
        repair original text 1 (log_attempt 1 AttemptStatus.invalid_input w).1
        ≡ (return candidate, after)

  -- The first attempt goes through, or the one after the single repair does.
  abbrev Passed : World → Out → World → Type 0
  Passed w result final =
      IsChecked 1 original w result final
      ⊎ ((candidate : V) × (after : World) × IsRepaired w candidate after
          × IsChecked 2 candidate after result final)

  execute-IsChecked :
      (attempt : ℕ) (candidate : V) (validated : In) (w : World) (result : Out) (final : World)
      → tool.input_model candidate ≡ return validated
      → execute canonical tool repairer state original attempt validated w ≡ (return result, final)
      → IsChecked attempt candidate w result final
  unfolding execute log_attempt
  execute-IsChecked attempt candidate validated w result final valid e =
      let before = before_call canonical (tool.dump validated) state (some tool.name) w in
      let (_, passed, e1) = bind-eq-return before.0 before.1 _ e in
      let ran = tool.handler validated (log_attempt attempt AttemptStatus.executing before.1).1 in
      let noted_pair = note_failure attempt ran.0 ran.1 in
      let (raw, noted, e2) =
        bind-eq-return noted_pair.0 noted_pair.1
          (λ raw. check_output attempt (tool.output_model raw)) e1 in
      let returned = note_failure-eq-return attempt ran.0 ran.1 noted in
      let valid_out : tool.output_model raw ≡ return result =
        check_output-eq-return attempt (tool.output_model raw) noted_pair.1 (ap (λ x. x.0) e2) in
      let log_success : World → World = λ u. (log_attempt attempt AttemptStatus.succeeded u).1 in
      let same_world : noted_pair.1 ≡ ran.1 =
        ap (λ x. x.1) (note_failure-return attempt ran.0 ran.1 returned) in
      let checked = check_output-return attempt (tool.output_model raw) noted_pair.1 valid_out in
      record {
        validated = validated;
        valid_input = valid;
        after_guards = before.1;
        guarded = ap (λ r. (r, before.1)) passed;
        raw = raw;
        after_handler = ran.1;
        handled = ap (λ r. (r, ran.1)) returned;
        valid_output = valid_out;
        ended = sym (ap log_success same_world) ∙ ap (λ x. x.1) (sym checked ∙ e2);
      }

  -- And back: such an attempt is what `execute` does.
  IsChecked-execute :
      (attempt : ℕ) (candidate : V) (w : World) (result : Out) (final : World)
      (c : IsChecked attempt candidate w result final)
      → execute canonical tool repairer state original attempt c.validated w
        ≡ (return result, final)
  unfolding execute log_attempt
  IsChecked-execute attempt candidate w result final c =
      rw (c.guarded, c.handled, c.valid_output, c.ended) refl

  last_judge-IsChecked :
      (candidate : V) (o : Outcome String In) (again : V → Harness Out) (w : World) (result : Out)
      (final : World)
      → tool.input_model candidate ≡ o
      → judge canonical tool repairer state original 0 2 o again w ≡ (return result, final)
      → IsChecked 2 candidate w result final
  unfolding judge repaired log_attempt
  last_judge-IsChecked candidate (return validated) again w result final valid e =
      execute-IsChecked 2 candidate validated w result final valid e
  last_judge-IsChecked candidate (raise text) again w result final valid e =
      let raised = ap (λ x. x.0) e in cc

  after_repair-Passed :
      (r : Option (ToolRepairer V)) (text : String) (w : World) (result : Out) (final : World)
      → repairer ≡ r
      → tool.input_model original ≡ raise text
      → repaired canonical tool repairer state original 1 r text 1
          (attempt_from canonical tool repairer state original 0 2)
          (log_attempt 1 AttemptStatus.invalid_input w).1
        ≡ (return result, final)
      → Passed w result final
  unfolding repaired attempt_from
  after_repair-Passed none text w result final is_r invalid e = let raised = ap (λ x. x.0) e in cc
  after_repair-Passed (some repair) text w result final is_r invalid e =
      let asked = repair original text 1 (log_attempt 1 AttemptStatus.invalid_input w).1 in
      let (candidate, answered, e1) =
        bind-eq-return asked.0 asked.1
          (λ c. attempt_from canonical tool repairer state original 0 2 c) e in
      inr (
        candidate,
        asked.1,
        record {
          repair = repair;
          has_repairer = is_r;
          text = text;
          invalid = invalid;
          answered = ap (λ r. (r, asked.1)) answered;
        },
        last_judge-IsChecked candidate (tool.input_model candidate) _ asked.1 result final refl e1,
      )

  first_judge-Passed :
      (o : Outcome String In) (w : World) (result : Out) (final : World)
      → tool.input_model original ≡ o
      → judge canonical tool repairer state original 1 1 o
          (attempt_from canonical tool repairer state original 0 2)
          w
        ≡ (return result, final)
      → Passed w result final
  unfolding judge log_attempt
  first_judge-Passed (return validated) w result final valid e =
      inl (execute-IsChecked 1 original validated w result final valid e)
  first_judge-Passed (raise text) w result final invalid e =
      after_repair-Passed repairer text w result final refl invalid e

  Passed-run_tool :
      (w : World) (result : Out) (final : World)
      → Passed w result final
      → run_tool canonical tool repairer state original w ≡ (return result, final)
  unfolding run_tool attempt_from judge repaired log_attempt
  Passed-run_tool w result final (inl c) =
      rw c.valid_input (IsChecked-execute 1 original w result final c)
  Passed-run_tool w result final (inr (candidate, after, r, c)) =
      rw (r.invalid, r.has_repairer, r.answered, c.valid_input)
        (IsChecked-execute 2 candidate after result final c)

  -- `run_tool` returns a result from a state exactly when one of its two attempts goes through from
  -- there, and it leaves the state that this attempt leaves. The first attempt is on the original
  -- arguments. The second follows only when these are invalid, in the state that the repairer left, on
  -- what it answered to the single question about the original arguments. An attempt goes through when
  -- its arguments are valid, the guards then pass, the handler then returns, from the state of the
  -- guards and the event `executing`, and its output is valid: the event `succeeded` is the last
  -- change of the state.
  pub run_tool-IsChecked_iff :
      (w : World) (result : Out) (final : World)
      → (run_tool canonical tool repairer state original w ≡ (return result, final)) ↔ (
          IsChecked 1 original w result final
          ⊎ ((candidate : V) × (after : World) × IsRepaired w candidate after
              × IsChecked 2 candidate after result final))
  unfolding run_tool
  run_tool-IsChecked_iff w result final = (
    first_judge-Passed (tool.input_model original) w result final refl,
    Passed-run_tool w result final,
  )
