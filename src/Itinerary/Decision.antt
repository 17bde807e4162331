-- ===== src/Itinerary/Decision.antt =====
-- `decide_replan` of syncinerary/agents/rescue.py over the tables of
-- syncinerary/store/repositories: the group's answer to a proposed itinerary.
-- The row locks make the whole function one transaction, so it is one step on the tables. The time
-- of the decision is left out.
pub mod Effects
pub mod Once
use syncinerary.Prelude.{
  ℕ, List, Option, none, some, Bool, true, false, not, Outcome, return, raise, Action, ◌>>=◌, ◌>>◌,
  pure, throw, find_row, update_row, ◌==◌, if◌then◌else◌,
}

pub data ReplanError : Type 0 where
  not_found already_decided conflict : ReplanError

pub data ReplanStatus : Type 0 where
  pending approved rejected : ReplanStatus

pub data ItineraryStatus : Type 0 where
  proposed active superseded rejected : ItineraryStatus

pub record Traveler : Type 0 where
  pub id : ℕ
  pub trip_id : ℕ

pub record ReplanEvent : Type 0 where
  pub id : ℕ
  pub trip_id : ℕ
  pub status : ReplanStatus
  pub proposed_version_id : Option ℕ
  pub decided_by : Option ℕ

pub record ItineraryVersion : Type 0 where
  pub id : ℕ
  pub trip_id : ℕ
  pub version_no : ℕ
  pub status : ItineraryStatus
  pub parent_version_id : Option ℕ

pub record Db : Type 0 where
  pub travelers : List Traveler
  pub events : List ReplanEvent
  pub versions : List ItineraryVersion

abbrev traveler_key : Traveler → ℕ
traveler_key t = t.id

abbrev pub event_key : ReplanEvent → ℕ
event_key e = e.id

abbrev pub version_key : ItineraryVersion → ℕ
version_key v = v.id

abbrev pub Store : Type 0 → Type 0
Store A = Action Db ReplanError A

pub require : Bool → ReplanError → Store (Unit {0})
require true e = pure tt
require false e = throw e

-- A value that must be there.
pub present : {A : Type 0} → Option A → ReplanError → Store A
present none e = throw e
present (some a) e = pure a

abbrev pub is_pending : ReplanStatus → Bool
is_pending pending = true
is_pending _ = false

abbrev pub is_proposed : ItineraryStatus → Bool
is_proposed proposed = true
is_proposed _ = false

abbrev pub is_active : ItineraryStatus → Bool
is_active active = true
is_active _ = false

abbrev pub with_status : ItineraryStatus → ItineraryVersion → ItineraryVersion
with_status status v = record v { status = status }

-- `ItineraryVersionRepository.set_status`
pub set_status : ℕ → ItineraryStatus → Store (Unit {0})
set_status i status db =
    (return tt, record db { versions = update_row version_key i (with_status status) db.versions })

abbrev pub answered : ReplanStatus → ℕ → ReplanEvent → ReplanEvent
answered status by e = record e { status = status; decided_by = some by }

-- `ReplanEventRepository.decide`
pub decide : ℕ → ReplanStatus → ℕ → Db → Option ReplanEvent × Db
decide i status by db =
    let db' = record db { events = update_row event_key i (answered status by) db.events } in
    (find_row event_key i db'.events, db')

abbrev find_traveler : ℕ → Db → Option Traveler
find_traveler i db = find_row traveler_key i db.travelers

abbrev pub find_event : ℕ → Db → Option ReplanEvent
find_event i db = find_row event_key i db.events

abbrev pub find_version : ℕ → Db → Option ItineraryVersion
find_version i db = find_row version_key i db.versions

-- The two writes on the versions.
pub apply_decision : Bool → (parent proposal : ℕ) → Store ReplanStatus
unfolding set_status
apply_decision true parent proposal = do
  set_status parent superseded
  set_status proposal active
  pure approved
apply_decision false parent proposal = do
  set_status proposal ItineraryStatus.rejected
  pure ReplanStatus.rejected

-- What the checks before the writes establish.
pub record Checked : Type 0 where
  pub event : ReplanEvent
  pub proposal : ItineraryVersion
  pub parent : ItineraryVersion

-- Every check, in the source's order. Nothing is written.
pub check_decision : (trip_id event_id traveler_id : ℕ) → Store Checked
check_decision trip_id event_id traveler_id = do
  traveler ← λ db. present (find_traveler traveler_id db) not_found db
  require (traveler.trip_id == trip_id) not_found
  event ← λ db. present (find_event event_id db) not_found db
  require (event.trip_id == trip_id) not_found
  require (is_pending event.status) already_decided
  version_id ← present event.proposed_version_id conflict
  proposal ← λ db. present (find_version version_id db) conflict db
  require (proposal.trip_id == trip_id) conflict
  parent_id ← present proposal.parent_version_id conflict
  parent ← λ db. present (find_version parent_id db) conflict db
  locked ← λ db. present (find_version proposal.id db) conflict db
  require (is_proposed locked.status) conflict
  require (is_active parent.status) conflict
  pure (record { event = event; proposal = locked; parent = parent })

unfoldable pub decide_replan :
    (trip_id event_id traveler_id : ℕ) (approve : Bool) → Store ReplanEvent
unfolding require present check_decision apply_decision decide find_row update_row
decide_replan trip_id event_id traveler_id approve = do
  checked ← check_decision trip_id event_id traveler_id
  decision ← apply_decision approve checked.parent.id checked.proposal.id
  decided ←
      λ db. (let (o, db') = decide checked.event.id decision traveler_id db in (return o, db'))
  present decided not_found
