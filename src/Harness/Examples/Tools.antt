-- ===== src/Harness/Examples/Tools.antt =====
-- Tool calls at concrete values.
use syncinerary.Prelude.{
  ℕ, ◌*◌, ◌≡◌, ◌⊎◌, ◌↔◌, refl, none, some, return, raise, ◌==◌, if◌then◌else◌, pure,
}
use syncinerary.Harness.Ledger.{AttemptStatus, World, before_call}
use syncinerary.Harness.Calls.{log_attempt}
use syncinerary.Harness.Tools.{ToolDefinition, ToolRepairer, run_tool}
use syncinerary.Harness.Tools.Validation.{IsChecked, IsRepaired, run_tool-IsChecked_iff}
use syncinerary.Harness.Examples.{canonical, one_run}

-- A tool that doubles any number but zero.
abbrev doubling : ToolDefinition ℕ ℕ ℕ ℕ
doubling = record {
  name = "double";
  input_model = λ v. if v == 0 then raise "zero" else return v;
  dump = λ v. v;
  handler = λ v. pure (v * 2);
  output_model = λ raw. return raw;
}

abbrev one_instead : ToolRepairer ℕ
one_instead original text attempt = pure 1

no_run : World
no_run = record one_run { current = none }

-- Zero is repaired to one, and one is doubled.
abbrev after_repair : World
after_repair =
    (log_attempt 2 AttemptStatus.succeeded
      (log_attempt 2 AttemptStatus.executing
        (log_attempt 1 AttemptStatus.invalid_input no_run).1).1).1

zero-doubled :
    run_tool canonical doubling (some one_instead) none 0 no_run ≡ (return 2, after_repair)
unfolding run_tool before_call no_run log_attempt
zero-doubled = refl

run_tool-IsChecked_iff_example :
    (run_tool canonical doubling (some one_instead) none 0 no_run ≡ (return 2, after_repair)) ↔ (
      IsChecked canonical doubling (some one_instead) none 0 1 0 no_run 2 after_repair
      ⊎ ((candidate : ℕ) × (after : World) × IsRepaired canonical doubling
            (some one_instead)
            none
            0
            no_run
            candidate
            after
          × IsChecked canonical doubling
              (some one_instead)
              none
              0
              2
              candidate
              after
              2
              after_repair))
run_tool-IsChecked_iff_example =
    run_tool-IsChecked_iff canonical doubling (some one_instead) none 0 no_run 2 after_repair
