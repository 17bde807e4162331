-- ===== src/Itinerary/Disruption.antt =====
-- The disruption that a replan answers: select_affected_nodes, _affected_day, _cutoff and
-- _unavailable_candidates of syncinerary/agents/rescue.py.
-- The payload holds what _payload_uuid and _payload_time read from it, with nothing for a missing or
-- unreadable entry, and a delay of 0 minutes for one that is no positive number. Times of day are
-- microseconds, and those of the itinerary have no zone. A trigger's name decides which fields are read.
pub mod Selection
pub mod Triggers
use syncinerary.Prelude.{
  ℕ, ◌+◌, ◌*◌, ◌/◌, ◌%◌, min, List, [], ◌∷◌, map, Bool, true, false, ◌&&◌, Option, none, some,
  Outcome, return, raise, any_by, filter_by, elem, ltb, leb, ◌==◌, if◌then◌else◌,
}
use syncinerary.Prelude.Sorting.{sorted_by, then_by}
use syncinerary.Itinerary.Diff.{ItineraryNode}

pub data ReplanTrigger : Type 0 where
  reservation_cancelled transit_delay overslept place_closed weather other user_request :
      ReplanTrigger

-- The two refusals of a ReplanInputError, and the TypeError of a comparison of times.
pub data InputError : Type 0 where
  no_match several_days not_comparable : InputError

-- `datetime.time` as a payload gives it: the time of day, and whether it has a zone.
pub record PayloadTime : Type 0 where
  pub time_of_day : ℕ
  pub has_zone : Bool

pub record Payload : Type 0 where
  pub node_id : Option ℕ
  pub day : Option ℕ
  pub at : Option PayloadTime
  pub delay_minutes : ℕ
  pub affected_node_ids : List ℕ

-- `==` with a value that may be `None`.
abbrev pub is_value : ℕ → Option ℕ → Bool
is_value n none = false
is_value n (some m) = n == m

abbrev pub is_before : ℕ → Option PayloadTime → Bool
is_before n none = false
is_before n (some t) = ltb n t.time_of_day

abbrev pub is_aware : Option PayloadTime → Bool
is_aware none = false
is_aware (some t) = t.has_zone

-- `candidates.get(...) is not None and candidates[...].weather_dependent`
abbrev pub is_exposed : Option Bool → Bool
is_exposed none = false
is_exposed (some weather_dependent) = weather_dependent

-- The test of the branch that a trigger takes. `weather_dependent` looks a candidate up.
abbrev pub is_hit :
    ReplanTrigger → Payload → (weather_dependent : ℕ → Option Bool) → ItineraryNode → Bool
is_hit reservation_cancelled p w n = is_value n.id p.node_id
is_hit transit_delay p w n = is_value n.id p.node_id
is_hit place_closed p w n = is_value n.id p.node_id
is_hit overslept p w n = is_value n.day p.day && is_before n.start_time p.at
is_hit user_request p w n = is_value n.day p.day
is_hit weather p w n = is_value n.day p.day && is_exposed (w n.candidate_id)
is_hit other p w n = elem n.id p.affected_node_ids

-- Where the test raises instead: the start of a node has no zone, and Python does not compare it with
-- a time that has one.
abbrev pub fails_on : ReplanTrigger → Payload → ItineraryNode → Bool
fails_on overslept p n = is_value n.day p.day && is_aware p.at
fails_on _ p n = false

-- `(node.day, node.start_time, str(node.id))`
abbrev pub node_leb : ItineraryNode → ItineraryNode → Bool
node_leb =
    then_by (λ s t. leb s.day t.day)
      (then_by (λ s t. leb s.start_time t.start_time) (λ s t. leb s.id t.id))

abbrev pub ordered_or_raise : List ItineraryNode → Outcome InputError (List ItineraryNode)
ordered_or_raise [] = raise no_match
ordered_or_raise (n ∷ ns) = return (sorted_by node_leb (n ∷ ns))

unfoldable pub select_affected_nodes :
    ReplanTrigger
    → Payload
    → List ItineraryNode
    → (weather_dependent : ℕ → Option Bool) → Outcome InputError (List ItineraryNode)
unfolding sorted_by
select_affected_nodes trigger payload nodes w =
    if any_by (fails_on trigger payload) nodes
    then raise not_comparable
    else ordered_or_raise (filter_by (is_hit trigger payload w) nodes)

abbrev pub all_on : ℕ → List ItineraryNode → Bool
all_on d [] = true
all_on d (n ∷ ns) = (n.day == d) && all_on d ns

-- `_affected_day`: the set of the days has one element.
unfoldable pub affected_day : List ItineraryNode → Outcome InputError ℕ
affected_day [] = raise several_days
affected_day (n ∷ ns) = if all_on n.day ns then return n.day else raise several_days

-- `min(node.start_time for node in affected)`, of a list with a first node.
unfoldable pub first_start : ItineraryNode → List ItineraryNode → ℕ
first_start n [] = n.start_time
first_start n (m ∷ ms) = min n.start_time (first_start m ms)

abbrev pub minute_length : ℕ
minute_length = 60000000

abbrev default_day_start_hour : ℕ
default_day_start_hour = 8

-- `time(min(23, minute // 60), minute % 60)`
unfoldable pub clamped_time : (minute : ℕ) → ℕ
clamped_time minute = (min 23 (minute / 60) * 60 + minute % 60) * minute_length

-- The zone is not read: nothing is selected with a time that has one.
abbrev time_or : Option PayloadTime → ℕ → ℕ
time_or none default = default
time_or (some t) default = t.time_of_day

-- `_cutoff`, of the affected nodes with a first one.
unfoldable pub cutoff : ReplanTrigger → Payload → ItineraryNode → List ItineraryNode → ℕ
unfolding first_start clamped_time
cutoff overslept p n ns = time_or p.at (first_start n ns)
cutoff transit_delay p n ns = clamped_time (first_start n ns / minute_length + p.delay_minutes)
cutoff weather p n ns = default_day_start_hour * 60 * minute_length
cutoff user_request p n ns = default_day_start_hour * 60 * minute_length
cutoff _ p n ns = first_start n ns

-- `_unavailable_candidates`
unfoldable unavailable_candidates : ReplanTrigger → List ItineraryNode → List ℕ
unavailable_candidates transit_delay affected = []
unavailable_candidates overslept affected = []
unavailable_candidates user_request affected = []
unavailable_candidates _ affected = map (λ n. n.candidate_id) affected
