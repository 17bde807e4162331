-- ===== src/Gather/Runs.antt =====
-- The durable discovery job: GatherRunRepository of syncinerary/store/repositories/gather.py and the
-- writes that syncinerary/workers/gather.py makes through it.
-- The rows of the job stand newest first, which is the order of `created_at`. The snapshot of the
-- input, the phase, the city and the times are left out: no guard reads them here. `start` holds the
-- lock of the trip's row, so it is one step on the tables.
pub mod History
use syncinerary.Prelude.{
  ℕ, ◌+◌, List, [], ◌∷◌, Option, none, some, Bool, true, false, ◌&&◌, ◌||◌, Outcome, return, raise,
  Action, find_row, update_row, ltb, ◌==◌, if◌then◌else◌,
}

pub data GatherStatus : Type 0 where
  queued running completed failed : GatherStatus

pub data ErrorCode : Type 0 where
  no_usable_places consent_required credential_missing provider_failure : ErrorCode

pub data TripStatus : Type 0 where
  setup swiping shortlisting scheduling active disrupted draft gathering : TripStatus

pub data StartError : Type 0 where
  not_leader already_started : StartError

pub record GatherRun : Type 0 where
  pub id : ℕ
  pub trip_id : ℕ
  pub status : GatherStatus
  completed_units : ℕ
  deck_size : Option ℕ
  error_code : Option ErrorCode
  pub retry_count : ℕ

pub record TripRow : Type 0 where
  pub id : ℕ
  pub created_by : Option ℕ
  pub status : TripStatus

pub record GatherDb : Type 0 where
  pub trips : List TripRow
  pub runs : List GatherRun

abbrev pub run_key : GatherRun → ℕ
run_key r = r.id

abbrev pub run_trip : GatherRun → ℕ
run_trip r = r.trip_id

abbrev pub trip_key : TripRow → ℕ
trip_key t = t.id

-- The newest run of the trip.
abbrev pub current : ℕ → GatherDb → Option GatherRun
current trip_id db = find_row run_trip trip_id db.runs

abbrev pub is_failed : GatherStatus → Bool
is_failed failed = true
is_failed _ = false

abbrev pub is_running : GatherStatus → Bool
is_running running = true
is_running _ = false

-- `status in {"queued", "running"}`
abbrev pub is_claimable : GatherStatus → Bool
is_claimable queued = true
is_claimable running = true
is_claimable _ = false

-- `trip.status in {DRAFT, SETUP}`
abbrev pub is_before_start : TripStatus → Bool
is_before_start draft = true
is_before_start setup = true
is_before_start _ = false

abbrev pub allows : (only_running : Bool) → GatherStatus → Bool
allows true s = is_running s
allows false s = true

abbrev pub changed : (only_running : Bool) → (GatherRun → GatherRun) → GatherRun → GatherRun
changed only_running f r = if allows only_running r.status then f r else r

-- `change`: the row with this identifier, and with `only_status` only if it is running.
unfoldable pub change : ℕ → (only_running : Bool) → (GatherRun → GatherRun) → GatherDb → GatherDb
change i only_running f db = record db {
  runs = update_row run_key i (changed only_running f) db.runs;
}

abbrev pub requeued : GatherRun → GatherRun
requeued r = record r { status = queued; error_code = none; retry_count = r.retry_count + 1 }

-- The changes of a run that the worker makes.
abbrev pub claimed : GatherRun → GatherRun
claimed r = record r { status = running }

abbrev pub progressed : ℕ → GatherRun → GatherRun
progressed units r = record r { completed_units = units }

abbrev pub finished : ℕ → GatherRun → GatherRun
finished deck r = record r { status = completed; deck_size = some deck; error_code = none }

abbrev pub broken : ErrorCode → GatherRun → GatherRun
broken code r = record r { status = failed; error_code = some code }

abbrev pub new_run : (fresh trip_id : ℕ) → GatherRun
new_run fresh trip_id = record {
  id = fresh;
  trip_id = trip_id;
  status = queued;
  completed_units = 0;
  deck_size = none;
  error_code = none;
  retry_count = 0;
}

abbrev pub set_trip : ℕ → TripStatus → GatherDb → GatherDb
set_trip i status db = record db {
  trips = update_row trip_key i (λ t. record t { status = status }) db.trips;
}

-- `existing` is the newest run. The identifier is the primary key, so the row that is changed is the
-- one that was read.
unfoldable pub restart : GatherRun → GatherDb → Outcome StartError GatherRun × GatherDb
unfolding change
restart existing db =
    if is_failed existing.status && ltb existing.retry_count 2
    then (return (requeued existing), change existing.id false requeued db)
    else (return existing, db)

unfoldable pub open_run : (fresh : ℕ) → TripRow → GatherDb → Outcome StartError GatherRun × GatherDb
open_run fresh trip db =
    if is_before_start trip.status
    then (
      return (new_run fresh trip.id),
      set_trip trip.id gathering (record db { runs = new_run fresh trip.id ∷ db.runs }),
    )
    else (raise already_started, db)

abbrev pub is_led_by : ℕ → TripRow → Bool
is_led_by leader_id trip = elim trip.created_by [ none ↦ false | some c ↦ c == leader_id ]

abbrev pub start_with :
    (fresh : ℕ) → TripRow → Option GatherRun → Action GatherDb StartError GatherRun
start_with fresh trip none db = open_run fresh trip db
start_with fresh trip (some existing) db = restart existing db

abbrev pub start_on : (fresh leader_id : ℕ) → Option TripRow → Action GatherDb StartError GatherRun
start_on fresh leader_id none db = (raise not_leader, db)
start_on fresh leader_id (some trip) db =
    if is_led_by leader_id trip
    then start_with fresh trip (current trip.id db) db
    else (raise not_leader, db)

-- `GatherRunRepository.start`; `fresh` is the identifier of a new row.
unfoldable pub start : (fresh trip_id leader_id : ℕ) → Action GatherDb StartError GatherRun
unfolding restart open_run find_row update_row
start fresh trip_id leader_id db = start_on fresh leader_id (find_row trip_key trip_id db.trips) db

abbrev pub claim_found : Option GatherRun → GatherDb → GatherDb
claim_found none db = db
claim_found (some r) db = if is_claimable r.status then change r.id false claimed db else db

-- `work_one`, with the lock of the trip: the run is read again, and taken if it is still open.
unfoldable pub claim : ℕ → GatherDb → GatherDb
unfolding change find_row
claim i db = claim_found (find_row run_key i db.runs) db

-- The end of `_execute_run`: with an empty deck nothing is written.
unfoldable pub finish : GatherRun → (deck : ℕ) → GatherDb → GatherDb
unfolding change update_row
finish run deck db =
    if ltb 0 deck then change run.id false (finished deck) (set_trip run.trip_id swiping db) else db

-- The end of `work_one` after an exception.
unfoldable pub fail : GatherRun → ErrorCode → GatherDb → GatherDb
unfolding change
fail run code db = change run.id true (broken code) db

-- A report of progress.
unfoldable pub progress : GatherRun → (units : ℕ) → GatherDb → GatherDb
unfolding change
progress run units db = change run.id false (progressed units) db
