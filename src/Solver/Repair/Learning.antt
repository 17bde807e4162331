-- ===== src/Solver/Repair/Learning.antt =====
-- What a round of the repair loop learns from the refusals.
use syncinerary.Prelude.{
  ℕ, ◌≡◌, refl, List, [], ◌∷◌, Bool, true, false, ◌&&◌, ◌||◌, not, any_by, ◌==◌, arith, ◌<◌, ◌↔◌,
  ◌⊎◌, ap, length, Bool-cases, inl, inr, ◌∙◌,
}
use syncinerary.Solver.Repair.{
  Block, Refusal, blocks_day, teaches, learn_block, learn_from, learn_day_blocks,
}

-- A refusal of this place on this day that teaches.
abbrev pub taught : (protected_ids conflicted : List ℕ) (candidate_id day : ℕ) → List Refusal → Bool
taught protected_ids conflicted candidate_id day refusals =
    any_by
      (λ r.
        teaches protected_ids conflicted r && ((r.candidate_id == candidate_id) && (r.day == day)))
      refusals

is_one : (c d : ℕ) → Refusal → Bool
is_one c d r = (r.candidate_id == c) && (r.day == d)

blocks_day-same :
    (r : Refusal) (c d : ℕ) (blocks : List Block)
    → is_one c d r ≡ true
    → blocks_day r.candidate_id r.day blocks ≡ blocks_day c d blocks
unfolding is_one
blocks_day-same r c d blocks h =
    let cs : r.candidate_id ≡ c = ground (arith, h) in
    let ds : r.day ≡ d = ground (arith, h) in rw (cs, ds) refl

learn_block-blocks_day :
    (ps cs : List ℕ) (r : Refusal) (known : List Block × Bool) (c d : ℕ)
    → blocks_day c d (learn_block ps cs r known).0
      ≡ (blocks_day c d known.0 || (teaches ps cs r && is_one c d r))
unfolding learn_block is_one
learn_block-blocks_day ps cs r (blocks, learned) c d = elim (Bool-cases (is_one c d r)) [
  | inl e ↦ ground (arith, blocks_day-same r c d blocks e)
  | inr e ↦ ground arith
]

learn_from-blocks_day :
    (ps cs : List ℕ) (rs : List Refusal) (known : List Block × Bool) (c d : ℕ)
    → blocks_day c d (learn_from ps cs rs known).0 ≡ (blocks_day c d known.0 || taught ps cs c d rs)
unfolding learn_from is_one
learn_from-blocks_day ps cs [] known c d = ground arith
learn_from-blocks_day ps cs (r ∷ rs) known c d =
    learn_from-blocks_day ps cs rs (learn_block ps cs r known) c d
    ∙ ground (arith, learn_block-blocks_day ps cs r known c d)

-- A place is blocked on a day after the round exactly when it was before, or when some refusal of
-- the round is about that place and day alone and the place is neither protected nor in a conflict.
pub learn_day_blocks-blocks_day :
    (refusals : List Refusal) (protected_ids conflicted_ids : List ℕ) (existing : List Block)
    (candidate_id day : ℕ)
    → blocks_day candidate_id day
        (learn_day_blocks refusals protected_ids conflicted_ids existing).0
      ≡ (blocks_day candidate_id day existing
          || taught protected_ids conflicted_ids candidate_id day refusals)
unfolding learn_day_blocks
learn_day_blocks-blocks_day refusals ps cs existing c d =
    learn_from-blocks_day ps cs refusals (existing, false) c d

-- What a step did: nothing, or it added facts and says so.
abbrev Grows : List Block × Bool → List Block × Bool → Type 0
Grows known after = (after ≡ known) ⊎ ((after.1 ≡ true) × (length known.0 < length after.0))

learn_block-Grows :
    (ps cs : List ℕ) (r : Refusal) (known : List Block × Bool)
    → Grows known (learn_block ps cs r known)
unfolding learn_block
learn_block-Grows ps cs r (blocks, learned) =
    elim (Bool-cases (teaches ps cs r && not (blocks_day r.candidate_id r.day blocks))) [
      | inl new ↦ rw new (inr (refl, omega arith))
      | inr old ↦ rw old (inl refl)
    ]

Grows-trans : (a b c : List Block × Bool) → Grows a b → Grows b c → Grows a c
Grows-trans a b c (inl e) (inl e') = inl (e' ∙ e)
Grows-trans a b c (inl e) (inr g) = rw (← e) (inr g)
Grows-trans a b c (inr g) (inl e) = rw e (inr g)
Grows-trans a b c (inr g) (inr g') = inr (g'.0, omega (arith, g.1, g'.1))

learn_from-Grows :
    (ps cs : List ℕ) (rs : List Refusal) (known : List Block × Bool)
    → Grows known (learn_from ps cs rs known)
unfolding learn_from
learn_from-Grows ps cs [] known = inl refl
learn_from-Grows ps cs (r ∷ rs) known =
    Grows-trans known (learn_block ps cs r known) (learn_from ps cs rs (learn_block ps cs r known))
      (learn_block-Grows ps cs r known) (learn_from-Grows ps cs rs (learn_block ps cs r known))

-- The signal that stops the loop is exact: a round reports that it learned nothing exactly when the
-- facts are those from before, and a round that reports something new has more facts than before.
pub learn_day_blocks-learned_iff :
    (refusals : List Refusal) (protected_ids conflicted_ids : List ℕ) (existing : List Block)
    → let after = learn_day_blocks refusals protected_ids conflicted_ids existing in
      ((after.1 ≡ false) ↔ (after.0 ≡ existing))
      × (after.1 ≡ true → length existing < length after.0)
unfolding learn_day_blocks
learn_day_blocks-learned_iff refusals ps cs existing =
    signal (learn_from ps cs refusals (existing, false))
      (learn_from-Grows ps cs refusals (existing, false))
  where
    signal :
        (after : List Block × Bool)
        → Grows (existing, false) after
        → ((after.1 ≡ false) ↔ (after.0 ≡ existing))
          × (after.1 ≡ true → length existing < length after.0)
    signal after (inl e) = (
      (λ _. ap (λ x. x.0) e, λ _. ap (λ x. x.1) e),
      λ t. absurd (ground (arith, t, ap (λ x. x.1) e)),
    )
    signal after (inr (t, more)) = (
      (
        λ f. absurd (ground (arith, t, f)),
        λ same. absurd (omega (arith, more, ap (λ x. length x) same)),
      ),
      λ _. more,
    )
