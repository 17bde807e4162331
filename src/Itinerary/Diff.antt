-- ===== src/Itinerary/Diff.antt =====
-- syncinerary/diff/itinerary_diff.py: two itinerary versions compared by candidate identity.
-- Identifiers are numbers, whose order is that of the fixed-width texts that the source sorts by;
-- a time of day is the number of its microseconds. A dictionary is a list without repeated keys,
-- in the order of first insertion, and a set of keys is walked in the order of its dictionary: the
-- final sorts make that order irrelevant, since their keys end in the identifier.
pub mod Dictionary
pub mod Exact
use syncinerary.Prelude.{
  ℕ, List, [], ◌∷◌, map, Bool, not, ◌||◌, Option, none, some, filter_by, find_row, leb, ◌==◌,
  if◌then◌else◌,
}
use syncinerary.Prelude.Sorting.{sorted_by, then_by}

pub record ItineraryNode : Type 0 where
  pub id : ℕ
  pub candidate_id : ℕ
  pub day : ℕ
  pub start_time : ℕ
  pub end_time : ℕ

pub record ItineraryDiffStop : Type 0 where
  pub candidate_id : ℕ
  pub node_id : ℕ
  pub day : ℕ
  pub start_time : ℕ
  pub end_time : ℕ

pub record ItineraryMove : Type 0 where
  pub candidate_id : ℕ
  old_node_id : ℕ
  new_node_id : ℕ
  old_day : ℕ
  new_day : ℕ
  old_start_time : ℕ
  new_start_time : ℕ

pub record ItineraryTimeChange : Type 0 where
  pub candidate_id : ℕ
  old_node_id : ℕ
  new_node_id : ℕ
  pub day : ℕ
  old_start_time : ℕ
  old_end_time : ℕ
  new_start_time : ℕ
  new_end_time : ℕ

pub record ItineraryDiff : Type 0 where
  pub added : List ItineraryDiffStop
  pub removed : List ItineraryDiffStop
  pub moved : List ItineraryMove
  pub time_changed : List ItineraryTimeChange

abbrev pub candidate_of : ItineraryNode → ℕ
candidate_of n = n.candidate_id

-- `_stop`
abbrev pub stop : ItineraryNode → ItineraryDiffStop
stop n = record {
  candidate_id = n.candidate_id;
  node_id = n.id;
  day = n.day;
  start_time = n.start_time;
  end_time = n.end_time;
}

-- One step of `{node.candidate_id: node for node in nodes}`.
pub put : ItineraryNode → List ItineraryNode → List ItineraryNode
put n [] = n ∷ []
put n (m ∷ ms) =
    let rest = put n ms in if m.candidate_id == n.candidate_id then n ∷ ms else m ∷ rest

pub put_all : List ItineraryNode → List ItineraryNode → List ItineraryNode
unfolding put
put_all d [] = d
put_all d (n ∷ ns) = put_all (put n d) ns

abbrev pub by_candidate : List ItineraryNode → List ItineraryNode
by_candidate nodes = put_all [] nodes

abbrev is_some {ℓ} : {A : Type ℓ} → Option A → Bool
is_some none = Bool.false
is_some (some a) = Bool.true

-- The entries of a dictionary whose keys another one lacks.
pub missing_from : List ItineraryNode → List ItineraryNode → List ItineraryDiffStop
missing_from others nodes =
    map stop (filter_by (λ n. not (is_some (find_row candidate_of n.candidate_id others))) nodes)

abbrev pub move_of : ItineraryNode → ItineraryNode → ItineraryMove
move_of old new = record {
  candidate_id = old.candidate_id;
  old_node_id = old.id;
  new_node_id = new.id;
  old_day = old.day;
  new_day = new.day;
  old_start_time = old.start_time;
  new_start_time = new.start_time;
}

abbrev pub time_change_of : ItineraryNode → ItineraryNode → ItineraryTimeChange
time_change_of old new = record {
  candidate_id = old.candidate_id;
  old_node_id = old.id;
  new_node_id = new.id;
  day = old.day;
  old_start_time = old.start_time;
  old_end_time = old.end_time;
  new_start_time = new.start_time;
  new_end_time = new.end_time;
}

abbrev pub day_differs : ItineraryNode → ItineraryNode → Bool
day_differs old new = not (old.day == new.day)

abbrev pub times_differ : ItineraryNode → ItineraryNode → Bool
times_differ old new = not (old.start_time == new.start_time) || not (old.end_time == new.end_time)

abbrev add_move : ItineraryNode → Option ItineraryNode → List ItineraryMove → List ItineraryMove
add_move old none rest = rest
add_move old (some new) rest = if day_differs old new then move_of old new ∷ rest else rest

abbrev add_time_change :
    ItineraryNode → Option ItineraryNode → List ItineraryTimeChange → List ItineraryTimeChange
add_time_change old none rest = rest
add_time_change old (some new) rest =
    if day_differs old new
    then rest
    else if times_differ old new
    then time_change_of old new ∷ rest
    else rest

-- The loop over the common keys.
pub moves : List ItineraryNode → List ItineraryNode → List ItineraryMove
moves news [] = []
moves news (old ∷ olds) =
    add_move old (find_row candidate_of old.candidate_id news) (moves news olds)

pub time_changes : List ItineraryNode → List ItineraryNode → List ItineraryTimeChange
time_changes news [] = []
time_changes news (old ∷ olds) =
    add_time_change old (find_row candidate_of old.candidate_id news) (time_changes news olds)

-- The sort keys: the day, then the start, then the candidate.
abbrev pub stop_leb : ItineraryDiffStop → ItineraryDiffStop → Bool
stop_leb =
    then_by (λ s t. leb s.day t.day)
      (then_by (λ s t. leb s.start_time t.start_time) (λ s t. leb s.candidate_id t.candidate_id))

abbrev pub move_leb : ItineraryMove → ItineraryMove → Bool
move_leb =
    then_by (λ s t. leb s.old_day t.old_day)
      (then_by (λ s t. leb s.old_start_time t.old_start_time)
        (λ s t. leb s.candidate_id t.candidate_id))

abbrev pub time_change_leb : ItineraryTimeChange → ItineraryTimeChange → Bool
time_change_leb =
    then_by (λ s t. leb s.day t.day)
      (then_by (λ s t. leb s.old_start_time t.old_start_time)
        (λ s t. leb s.candidate_id t.candidate_id))

unfoldable pub itinerary_diff : List ItineraryNode → List ItineraryNode → ItineraryDiff
unfolding put_all missing_from moves time_changes sorted_by find_row
itinerary_diff old_nodes new_nodes =
    let olds = by_candidate old_nodes in
    let news = by_candidate new_nodes in
    record {
      added = sorted_by stop_leb (missing_from olds news);
      removed = sorted_by stop_leb (missing_from news olds);
      moved = sorted_by move_leb (moves news olds);
      time_changed = sorted_by time_change_leb (time_changes news olds);
    }
