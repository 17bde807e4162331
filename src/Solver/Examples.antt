-- ===== src/Solver/Examples.antt =====
-- Rounds of the repair loop at concrete values.
use syncinerary.Prelude.{refl, ◌<◌, ◌≡◌, ◌↔◌, List, [], ◌∷◌, true, false, ◌||◌, length}
use syncinerary.Solver.Repair.{
  closed_on_available_days, no_day_fit, Block, Refusal, blocks_day, learn_day_blocks,
}
use syncinerary.Solver.Repair.Capacities.{merge_day_capacities, learn_incompatible_pairs}
use syncinerary.Solver.Repair.Exchanges.{classify_bucket_changes}
use syncinerary.Solver.Repair.Learning.{
  taught, learn_day_blocks-blocks_day, learn_day_blocks-learned_iff,
}

abbrev refusals : List Refusal
refusals =
    record { candidate_id = 1; day = 0; reason_code = closed_on_available_days }
    ∷ record { candidate_id = 2; day = 0; reason_code = no_day_fit }
    ∷ record { candidate_id = 3; day = 1; reason_code = closed_on_available_days }
    ∷ []

abbrev known : List Block
known = record { candidate_id = 1; day = 2 } ∷ []

learn_day_blocks-blocks_day_example :
    blocks_day 1 0 (learn_day_blocks refusals (3 ∷ []) [] known).0
    ≡ (blocks_day 1 0 known || taught (3 ∷ []) [] 1 0 refusals)
learn_day_blocks-blocks_day_example = learn_day_blocks-blocks_day refusals (3 ∷ []) [] known 1 0

learn_day_blocks-learned_iff_example :
    let after = learn_day_blocks refusals (3 ∷ []) [] known in
    ((after.1 ≡ false) ↔ (after.0 ≡ known)) × (after.1 ≡ true → length known < length after.0)
learn_day_blocks-learned_iff_example = learn_day_blocks-learned_iff refusals (3 ∷ []) [] known

-- A limit that is tighter than the known one replaces it, a looser one teaches nothing.
merge_day_capacities_test :
    merge_day_capacities (record { day = 1; members = 4 ∷ 5 ∷ []; limit = 2 } ∷ []) (
      record { day = 1; members = 4 ∷ 5 ∷ []; limit = 1 }
      ∷ record { day = 0; members = 4 ∷ []; limit = 0 }
      ∷ [])
    ≡ (
      record { day = 0; members = 4 ∷ []; limit = 0 }
          ∷ record { day = 1; members = 4 ∷ 5 ∷ []; limit = 1 }
          ∷ [],
      true,
    )
unfolding merge_day_capacities
merge_day_capacities_test = refl

learn_incompatible_pairs_test :
    learn_incompatible_pairs
      ((record { first = 1; second = 2 } ∷ []) ∷ [])
      (record { first = 1; second = 2 } ∷ [])
    ≡ (record { first = 1; second = 2 } ∷ [], false)
unfolding learn_incompatible_pairs
learn_incompatible_pairs_test = refl

-- 1 and 2 trade days, 3 finds another one.
classify_bucket_changes_test :
    classify_bucket_changes
      ((1 ∷ 3 ∷ []) ∷ (2 ∷ []) ∷ [] ∷ [])
      ((2 ∷ []) ∷ (1 ∷ []) ∷ (3 ∷ []) ∷ [])
    ≡ (1, 1)
unfolding classify_bucket_changes
classify_bucket_changes_test = refl
