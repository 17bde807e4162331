-- ===== src/Harness/LoopDetector/History.antt =====
-- The detector of syncinerary/harness/loop_detector.py against the whole history of a run.
use syncinerary.Prelude.{
  ℕ, zero, suc, ◌+◌, ◌-◌, ◌≤◌, ◌<◌, ◌≡◌, ◌↔◌, ◌∙◌, refl, sym, ap, List, [], ◌∷◌, ◌++◌, Option,
  Outcome, return, raise, Action, ◌>>◌, pure, length, drop, replicate, count, length-append,
  length-drop, length-replicate, drop-append, drop_one, count_by-append, arith, leb, ◌==◌, inl, inr,
  Bool-cases,
}
use mathlib.Core.List.{append_assoc, append-nil}
use syncinerary.Harness.Budget.{HarnessError, no_progress}
use syncinerary.Harness.LoopDetector.{
  LoopDetector, SetupError, or_default, make_detector, push_bounded, Observed, state, observe_state,
}

pub record IsValid (d : LoopDetector) : Type 0 where
  pub repeat_pos : 1 ≤ d.repeat_threshold
  pub repeat_fits : d.repeat_threshold ≤ d.window_size
  pub tool_pos : 1 ≤ d.tool_repeat_threshold
  pub tool_fits : d.tool_repeat_threshold ≤ d.window_size
  pub states : length d.state_hashes ≤ d.window_size
  pub tools : length d.tool_hashes ≤ d.window_size

abbrev Accepts : Outcome SetupError LoopDetector → Type 0
Accepts (return d) = IsValid d
Accepts (raise e) = ⊥

-- The constructor succeeds exactly on positive thresholds that the window covers, and what it
-- then returns is a valid detector.
make_detector-Accepts_iff :
    (window repeat : ℕ) (tool : Option ℕ)
    → Accepts (make_detector window repeat tool) ↔ (
        (1 ≤ repeat)
        × (1 ≤ or_default tool repeat)
        × (repeat ≤ window)
        × (or_default tool repeat ≤ window))
unfolding make_detector
make_detector-Accepts_iff window repeat tool = ground arith

make_detector-IsValid :
    (window repeat : ℕ) (tool : Option ℕ) (d : LoopDetector)
    → make_detector window repeat tool ≡ return d
    → IsValid d
unfolding make_detector
make_detector-IsValid window repeat tool d h = ground arith

length-push_bounded : (n : ℕ) (q : List ℕ) (x : ℕ) → length (push_bounded n q x) ≤ n
unfolding push_bounded
length-push_bounded n q x = omega (arith, length-drop (length (q ++ x ∷ []) - n) (q ++ x ∷ []))

-- The last `n` entries.
abbrev pub recent : ℕ → List ℕ → List ℕ
recent n h = drop (length h - n) h

push_bounded-recent :
    (n : ℕ) (h : List ℕ) (x : ℕ) → push_bounded n (recent n h) x ≡ recent n (h ++ x ∷ [])
unfolding push_bounded
push_bounded-recent n h x = elim (Bool-cases (leb (length h) n)) [
  | inl short ↦ let e : length h - n ≡ 0 = ground arith in rw e refl
  | inr long ↦
      let k = length h - n in
      let more : length (h ++ x ∷ []) - n ≡ suc k = ground (arith, length-append h (x ∷ [])) in
      let one : length (drop k h ++ x ∷ []) - n ≡ 1 =
        ground (arith, length-append (drop k h) (x ∷ []), length-drop k h) in
      rw (one, more, ← drop_one k (h ++ x ∷ []), drop-append k h (x ∷ []) (omega arith)) refl
]

module _ {V : Type 0} (canonical : Observed V → ℕ) where
  observe_state-IsValid :
      (v : V) (d : LoopDetector) → IsValid d → IsValid (observe_state canonical v d).1
  unfolding observe_state
  observe_state-IsValid v d h =
      ground (arith, length-push_bounded d.window_size d.state_hashes (canonical (state v)))

  observe_state-recent :
      (h : List ℕ) (v : V) (d : LoopDetector)
      → d.state_hashes ≡ recent d.window_size h
      → (observe_state canonical v d).1.state_hashes
        ≡ recent d.window_size (h ++ canonical (state v) ∷ [])
  unfolding observe_state
  observe_state-recent h v d e =
      ground (arith, push_bounded-recent d.window_size h (canonical (state v)))

  -- States observed one after the other, up to the first that is refused.
  pub watch : List V → Action LoopDetector HarnessError (Unit {0})
  watch [] = pure tt
  watch (v ∷ vs) = observe_state canonical v >> watch vs

  -- No fingerprint reaches `limit` among the last `window` of the history `h` as it grows.
  abbrev pub NeverRepeats : (window limit : ℕ) → List ℕ → List V → Type 0
  NeverRepeats window limit h [] = Unit
  NeverRepeats window limit h (v ∷ vs) =
      let x = canonical (state v) in
      let h' = h ++ x ∷ [] in (count x (recent window h') < limit) × NeverRepeats window limit h' vs

  -- With the bounded queue holding the recent part of the history `h`, a run of states goes
  -- through exactly when no fingerprint repeats too often in any window of the full history.
  pub watch-return_iff :
      (h : List ℕ) (vs : List V) (d : LoopDetector)
      → d.state_hashes ≡ recent d.window_size h
      → ((watch vs d).0 ≡ return tt) ↔ NeverRepeats d.window_size d.repeat_threshold h vs
  unfolding watch observe_state
  watch-return_iff h [] d e = ground arith
  watch-return_iff h (v ∷ vs) d e =
      let x = canonical (state v) in
      let d' : LoopDetector = record d {
        state_hashes = push_bounded d.window_size d.state_hashes x;
      } in
      let e' : d'.state_hashes ≡ recent d.window_size (h ++ x ∷ []) =
        rw e (push_bounded-recent d.window_size h x) in
      let ih = watch-return_iff (h ++ x ∷ []) vs d' e' in ground (arith, ih, e')

-- The queue ends in `k` copies of `x`.
abbrev EndsIn : ℕ → ℕ → List ℕ → Type 0
EndsIn k x q = (xs : List ℕ) × (q ≡ xs ++ replicate k x)

replicate-snoc : (k x : ℕ) → replicate k x ++ x ∷ [] ≡ replicate (suc k) x
replicate-snoc zero x = refl
replicate-snoc (suc k) x = ap (◌∷◌ x) (replicate-snoc k x)

count-replicate : (k x : ℕ) → count x (replicate k x) ≡ k
count-replicate zero x = refl
count-replicate (suc k) x = ground (arith, count-replicate k x)

push_bounded-EndsIn :
    (n k x : ℕ) (q : List ℕ)
    → k < n
    → EndsIn k x q
    → length q ≤ n
    → EndsIn (suc k) x (push_bounded n q x)
unfolding push_bounded
push_bounded-EndsIn n k x q room (xs, e) short =
    let whole : q ++ x ∷ [] ≡ xs ++ replicate (suc k) x =
      rw (e, append_assoc, replicate-snoc k x) refl in
    let m = length (q ++ x ∷ []) - n in
    let fits : m ≤ length xs = omega (
      arith,
      ap (length {A = ℕ}) e,
      length-append q (x ∷ []),
      length-append xs (replicate k x),
      length-replicate k x,
    ) in
    (drop m xs, ap (drop m) whole ∙ drop-append m xs (replicate (suc k) x) fits)

count-EndsIn : (k x : ℕ) (q : List ℕ) → EndsIn k x q → k ≤ count x q
count-EndsIn k x q (xs, e) =
    omega
      (arith, ap (count x) e, count_by-append (λ y. y == x) xs (replicate k x), count-replicate k x)

module _ {V : Type 0} (canonical : Observed V → ℕ) where
  stuck_raises :
      (more k : ℕ) (v : V) (d : LoopDetector)
      → IsValid d
      → EndsIn k (canonical (state v)) d.state_hashes
      → k < d.repeat_threshold
      → d.repeat_threshold ≤ k + more
      → (watch canonical (replicate more v) d).0 ≡ raise no_progress
  unfolding watch observe_state
  stuck_raises zero k v d h ends below enough = absurd (omega arith)
  stuck_raises (suc more) k v d h ends below enough =
      let x = canonical (state v) in
      let q = push_bounded d.window_size d.state_hashes x in
      let d' : LoopDetector = record d { state_hashes = q } in
      let ends' =
        push_bounded-EndsIn d.window_size k x d.state_hashes (omega (arith, h.repeat_fits)) ends
          h.states in
      let h' : IsValid d' = record {
        repeat_pos = h.repeat_pos;
        repeat_fits = h.repeat_fits;
        tool_pos = h.tool_pos;
        tool_fits = h.tool_fits;
        states = length-push_bounded d.window_size d.state_hashes x;
        tools = h.tools;
      } in
      elim (Bool-cases (leb d.repeat_threshold (count x q))) [
        | inl found ↦ rw found refl
        | inr clear ↦ rw clear (
            stuck_raises more (suc k) v d' h' ends' (ground (arith, count-EndsIn (suc k) x q ends'))
              (omega arith))
      ]

  -- A run stuck on one state is stopped: from any valid detector, whatever it saw before,
  -- `repeat_threshold` observations of the same state in a row raise `NoProgress`.
  pub stuck_run-raises :
      (v : V) (d : LoopDetector)
      → IsValid d
      → (watch canonical (replicate d.repeat_threshold v) d).0 ≡ raise no_progress
  stuck_run-raises v d h =
      stuck_raises d.repeat_threshold 0 v d h (d.state_hashes, sym (append-nil d.state_hashes))
        h.repeat_pos (omega arith)
