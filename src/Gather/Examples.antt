-- ===== src/Gather/Examples.antt =====
-- A discovery job that is started, taken, broken and started again.
use syncinerary.Prelude.{List, [], ◌∷◌, some, find_row, refl}
use syncinerary.Gather.Runs.{
  draft, provider_failure, TripRow, GatherDb, new_run, start, claim, fail,
}
use syncinerary.Gather.Runs.History.{
  starts, claims, fails, done, next, IsFine, gather_history-IsFine,
}

abbrev one_trip : List TripRow
one_trip = record { id = 1; created_by = some 9; status = draft } ∷ []

abbrev no_jobs : GatherDb
no_jobs = record { trips = one_trip; runs = [] }

abbrev started : GatherDb
started = (start 4 1 9 no_jobs).1

abbrev broken_off : GatherDb
broken_off = fail (new_run 4 1) provider_failure (claim 4 started)

gather_history-IsFine_example : IsFine (start 5 1 9 broken_off).1.runs
unfolding start claim fail find_row
gather_history-IsFine_example = gather_history-IsFine one_trip (start 5 1 9 broken_off).1 (
    next (starts 4 1 9 no_jobs refl) (
      next (claims 4 started) (
        next (fails (new_run 4 1) provider_failure (claim 4 started))
          (next (starts 5 1 9 broken_off refl) (done _)))))
