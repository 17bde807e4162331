-- ===== src/Gather/Runs/History.antt =====
-- What holds of the discovery jobs after any sequence of starts and worker steps.
use syncinerary.Prelude.{
  ℕ, ◌≤◌, ◌<◌, ◌≡◌, refl, List, [], ◌∷◌, Option, none, some, Bool, true, false, ◌&&◌, find_row,
  update_row, count_by, ltb, ◌==◌, arith, Bool-cases, inl, inr,
}
use syncinerary.Prelude.Sorting.{All}
use syncinerary.Gather.Runs.{
  ErrorCode, TripRow, GatherRun, GatherDb, run_key, run_trip, trip_key, current, is_claimable,
  is_failed, is_led_by, is_before_start, swiping, changed, change, requeued, claimed, progressed,
  finished, broken, set_trip, restart, open_run, start_with, start_on, start, claim_found, claim,
  finish, fail, progress,
}

-- One step of a client or of a worker. A new row has an identifier that no row has.
pub data Step : GatherDb → GatherDb → Type 0 where
  starts :
      (fresh trip_id leader_id : ℕ) (db : GatherDb)
      → find_row run_key fresh db.runs ≡ none
      → Step db (start fresh trip_id leader_id db).1
  claims : (i : ℕ) (db : GatherDb) → Step db (claim i db)
  progresses : (run : GatherRun) (units : ℕ) (db : GatherDb) → Step db (progress run units db)
  finishes : (run : GatherRun) (deck : ℕ) (db : GatherDb) → Step db (finish run deck db)
  fails : (run : GatherRun) (code : ErrorCode) (db : GatherDb) → Step db (fail run code db)

pub data Steps : GatherDb → GatherDb → Type 0 where
  done : (db : GatherDb) → Steps db db
  next : {a b c : GatherDb} → Step a b → Steps b c → Steps a c

abbrev rows_with : (GatherRun → ℕ) → ℕ → List GatherRun → ℕ
rows_with key k rs = count_by (λ r. key r == k) rs

abbrev FewRetries : GatherRun → Type 0
FewRetries r = r.retry_count ≤ 2

-- Identifiers are unique, no trip has two runs, and no run was retried more than twice.
pub record IsFine (rs : List GatherRun) : Type 0 where
  pub unique : (i : ℕ) → rows_with run_key i rs ≤ 1
  pub single : (t : ℕ) → rows_with run_trip t rs ≤ 1
  retries : All FewRetries rs

rows_with-update_row :
    (key : GatherRun → ℕ) (i : ℕ) (f : GatherRun → GatherRun) (rs : List GatherRun) (k : ℕ)
    → ((r : GatherRun) → key (f r) ≡ key r)
    → rows_with key k (update_row run_key i f rs) ≡ rows_with key k rs
unfolding update_row
rows_with-update_row key i f [] k keeps = refl
rows_with-update_row key i f (r ∷ rs) k keeps =
    ground (arith, keeps r, rows_with-update_row key i f rs k keeps)

rows_with-none :
    (key : GatherRun → ℕ) (k : ℕ) (rs : List GatherRun)
    → find_row key k rs ≡ none
    → rows_with key k rs ≡ 0
unfolding find_row
rows_with-none key k [] h = refl
rows_with-none key k (r ∷ rs) h = ground (arith, rows_with-none key k rs)

-- A row that is found under one key is counted under the other.
rows_with-found :
    (t : ℕ) (rs : List GatherRun) (e : GatherRun)
    → find_row run_trip t rs ≡ some e
    → 1 ≤ rows_with run_key e.id rs
unfolding find_row
rows_with-found t [] e h = absurd (ground arith)
rows_with-found t (r ∷ rs) e h = ground (arith, rows_with-found t rs e)

FewRetries-update_row :
    (i : ℕ) (f : GatherRun → GatherRun) (rs : List GatherRun)
    → ((r : GatherRun) → (f r).retry_count ≡ r.retry_count)
    → All FewRetries rs
    → All FewRetries (update_row run_key i f rs)
unfolding update_row
FewRetries-update_row i f [] keeps h = tt
FewRetries-update_row i f (r ∷ rs) keeps h =
    (ground (arith, keeps r, h.0), FewRetries-update_row i f rs keeps h.1)

update_row-absent :
    (i : ℕ) (f : GatherRun → GatherRun) (rs : List GatherRun)
    → rows_with run_key i rs ≡ 0
    → update_row run_key i f rs ≡ rs
unfolding update_row
update_row-absent i f [] h = refl
update_row-absent i f (r ∷ rs) h = ground (arith, update_row-absent i f rs)

-- The one row that a retry changes has been retried once at most.
FewRetries-requeued :
    (t : ℕ) (e : GatherRun) (rs : List GatherRun)
    → find_row run_trip t rs ≡ some e
    → rows_with run_key e.id rs ≤ 1
    → e.retry_count < 2
    → All FewRetries rs
    → All FewRetries (update_row run_key e.id requeued rs)
unfolding update_row find_row
FewRetries-requeued t e [] found one few h = tt
FewRetries-requeued t e (r ∷ rs) found one few h = elim (Bool-cases (run_trip r == t)) [
  | inl here ↦
      let same : r ≡ e = ground arith in
      let rest = update_row-absent e.id requeued rs (ground arith) in (ground arith, rw rest h.1)
  | inr there ↦
      let found' : find_row run_trip t rs ≡ some e = ground arith in
      let other = rows_with-found t rs e found' in
      (ground (arith, h.0), FewRetries-requeued t e rs found' (ground arith) few h.1)
]

-- A change that keeps the identifier, the trip and the number of retries.
record Keeps (f : GatherRun → GatherRun) : Type 0 where
  id : (r : GatherRun) → (f r).id ≡ r.id
  trip : (r : GatherRun) → (f r).trip_id ≡ r.trip_id
  retry : (r : GatherRun) → (f r).retry_count ≡ r.retry_count

change-IsFine :
    (i : ℕ) (only : Bool) (f : GatherRun → GatherRun) (db : GatherDb)
    → Keeps f
    → IsFine db.runs
    → IsFine (change i only f db).runs
unfolding change
change-IsFine i only f db k h = record {
  unique = λ j.
      rw (rows_with-update_row run_key i (changed only f) db.runs j (λ r. ground (arith, k.id r)))
        (h.unique j);
  single = λ t.
      rw
        (rows_with-update_row run_trip i (changed only f) db.runs t (λ r. ground (arith, k.trip r)))
        (h.single t);
  retries =
      FewRetries-update_row i (changed only f) db.runs (λ r. ground (arith, k.retry r)) h.retries;
}

restart-IsFine :
    (t : ℕ) (e : GatherRun) (db : GatherDb)
    → current t db ≡ some e
    → IsFine db.runs
    → IsFine (restart e db).1.runs
unfolding restart change
restart-IsFine t e db found h = elim (Bool-cases (is_failed e.status && ltb e.retry_count 2)) [
  | inl again ↦ rw again (record {
    unique =
        λ j. rw (rows_with-update_row run_key e.id requeued db.runs j (λ r. refl)) (h.unique j);
    single =
        λ t. rw (rows_with-update_row run_trip e.id requeued db.runs t (λ r. refl)) (h.single t);
    retries = FewRetries-requeued t e db.runs found (h.unique e.id) (ground arith) h.retries;
  })
  | inr kept ↦ rw kept h
]

open_run-IsFine :
    (fresh : ℕ) (trip : TripRow) (db : GatherDb)
    → find_row run_key fresh db.runs ≡ none
    → current trip.id db ≡ none
    → IsFine db.runs
    → IsFine (open_run fresh trip db).1.runs
unfolding open_run
open_run-IsFine fresh trip db unused first h = elim (Bool-cases (is_before_start trip.status)) [
  | inl before ↦
      let no_id = rows_with-none run_key fresh db.runs unused in
      let no_run = rows_with-none run_trip trip.id db.runs first in
      rw before (record {
        unique = λ j. ground (arith, no_id, h.unique j);
        single = λ t. ground (arith, no_run, h.single t);
        retries = (omega arith, h.retries);
      })
  | inr late ↦ rw late h
]

start_with-IsFine :
    (fresh : ℕ) (trip : TripRow) (o : Option GatherRun) (db : GatherDb)
    → find_row run_key fresh db.runs ≡ none
    → current trip.id db ≡ o
    → IsFine db.runs
    → IsFine (start_with fresh trip o db).1.runs
start_with-IsFine fresh trip none db unused is h = open_run-IsFine fresh trip db unused is h
start_with-IsFine fresh trip (some e) db unused is h = restart-IsFine trip.id e db is h

start_on-IsFine :
    (fresh l : ℕ) (o : Option TripRow) (db : GatherDb)
    → find_row run_key fresh db.runs ≡ none
    → IsFine db.runs
    → IsFine (start_on fresh l o db).1.runs
start_on-IsFine fresh l none db unused h = h
start_on-IsFine fresh l (some trip) db unused h = elim (Bool-cases (is_led_by l trip)) [
  | inl led ↦ rw led (start_with-IsFine fresh trip (current trip.id db) db unused refl h)
  | inr other ↦ rw other h
]

claim_found-IsFine :
    (o : Option GatherRun) (db : GatherDb) → IsFine db.runs → IsFine (claim_found o db).runs
claim_found-IsFine none db h = h
claim_found-IsFine (some r) db h = elim (Bool-cases (is_claimable r.status)) [
  | inl free ↦ rw free (change-IsFine r.id false claimed db keeps h)
  | inr closed ↦ rw closed h
]
  where
    keeps : Keeps claimed
    keeps = record { id = λ r. refl; trip = λ r. refl; retry = λ r. refl }

finish-IsFine :
    (run : GatherRun) (deck : ℕ) (db : GatherDb) → IsFine db.runs → IsFine (finish run deck db).runs
unfolding finish
finish-IsFine run deck db h = elim (Bool-cases (ltb 0 deck)) [
  | inl some_places ↦
      rw some_places
        (change-IsFine run.id false (finished deck) (set_trip run.trip_id swiping db) keeps h)
  | inr no_places ↦ rw no_places h
]
  where
    keeps : Keeps (finished deck)
    keeps = record { id = λ r. refl; trip = λ r. refl; retry = λ r. refl }

Step-IsFine : {a b : GatherDb} → Step a b → IsFine a.runs → IsFine b.runs
unfolding start claim progress fail
Step-IsFine (starts fresh t l db unused) h =
    start_on-IsFine fresh l (find_row trip_key t db.trips) db unused h
Step-IsFine (claims i db) h = claim_found-IsFine (find_row run_key i db.runs) db h
Step-IsFine (progresses run units db) h =
    change-IsFine run.id false (progressed units) db
      (record { id = λ r. refl; trip = λ r. refl; retry = λ r. refl }) h
Step-IsFine (finishes run deck db) h = finish-IsFine run deck db h
Step-IsFine (fails run code db) h =
    change-IsFine run.id true (broken code) db
      (record { id = λ r. refl; trip = λ r. refl; retry = λ r. refl }) h

-- From tables without jobs, any sequence of starts and worker steps leaves at most one run for each
-- trip, with an identifier of its own, and no run that was retried more than twice.
pub gather_history-IsFine :
    (trips : List TripRow) (db : GatherDb)
    → Steps (record { trips = trips; runs = [] }) db
    → IsFine db.runs
gather_history-IsFine trips db steps =
    Steps-IsFine steps
      (record { unique = λ i. omega arith; single = λ t. omega arith; retries = tt })
  where
    Steps-IsFine : {a b : GatherDb} → Steps a b → IsFine a.runs → IsFine b.runs
    Steps-IsFine (done _) h = h
    Steps-IsFine (next step rest) h = Steps-IsFine rest (Step-IsFine step h)
