-- ===== src/Harness/LoopDetector.antt =====
-- syncinerary/harness/loop_detector.py: repeated states and repeated tool calls.
-- `_canonical` hashes a JSON rendering by SHA-256. Both are libraries, so the fingerprint is a
-- parameter, and everything here speaks of equal fingerprints.
pub mod History
use syncinerary.Prelude.{
  ℕ, ◌-◌, min, max, String, List, [], ◌∷◌, ◌++◌, Bool, ◌||◌, Outcome, return, raise, Action, length,
  drop, count, ltb, leb, ◌==◌, if◌then◌else◌, Option, none, some,
}
use syncinerary.Harness.Budget.{HarnessError, no_progress, tool_cycle}

pub record LoopDetector : Type 0 where
  pub window_size : ℕ
  pub repeat_threshold : ℕ
  pub tool_repeat_threshold : ℕ
  pub state_hashes : List ℕ
  pub tool_hashes : List ℕ

pub data SetupError : Type 0 where
  thresholds_not_positive window_too_small : SetupError

abbrev pub or_default : Option ℕ → ℕ → ℕ
or_default none d = d
or_default (some n) d = n

-- `LoopDetector.__init__`
unfoldable pub make_detector :
    (window_size repeat_threshold : ℕ) (tool_repeat_threshold : Option ℕ)
    → Outcome SetupError LoopDetector
make_detector window repeat tool =
    let tool_repeat = or_default tool repeat in
    if ltb (min window (min repeat tool_repeat)) 1
    then raise thresholds_not_positive
    else if ltb window (max repeat tool_repeat)
    then raise window_too_small
    else return (record {
      window_size = window;
      repeat_threshold = repeat;
      tool_repeat_threshold = tool_repeat;
      state_hashes = [];
      tool_hashes = [];
    })

-- `append` on a `deque(maxlen=n)`: the oldest entries fall out.
pub push_bounded : ℕ → List ℕ → ℕ → List ℕ
push_bounded n q x = let q' = q ++ x ∷ [] in drop (length q' - n) q'

-- What is hashed: a state, or a tool's name with its arguments.
pub data Observed (V : Type 0) : Type 0 where
  state : V → Observed V
  call : String → V → Observed V

module _ {V : Type 0} (canonical : Observed V → ℕ) where
  unfoldable pub observe_state : V → Action LoopDetector HarnessError (Unit {0})
  unfolding push_bounded
  observe_state v d =
      let fingerprint = canonical (state v) in
      let d' = record d { state_hashes = push_bounded d.window_size d.state_hashes fingerprint } in
      if leb d.repeat_threshold (count fingerprint d'.state_hashes)
      then (raise no_progress, d')
      else (return tt, d')

  unfoldable pub observe_tool : String → V → Action LoopDetector HarnessError (Unit {0})
  unfolding push_bounded
  observe_tool name arguments d =
      let fingerprint = canonical (call name arguments) in
      let d' = record d { tool_hashes = push_bounded d.window_size d.tool_hashes fingerprint } in
      if leb d.tool_repeat_threshold (count fingerprint d'.tool_hashes)
      then (raise tool_cycle, d')
      else (return tt, d')
