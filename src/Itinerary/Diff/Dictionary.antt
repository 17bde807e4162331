-- ===== src/Itinerary/Diff/Dictionary.antt =====
-- The dictionaries of syncinerary/diff/itinerary_diff.py: unique keys, and the last node wins.
use mathlib.Core.Option
use syncinerary.Prelude.{
  ℕ, map, ◌≡◌, refl, ◌∙◌, List, [], ◌∷◌, Option, none, some, find_row, ◌==◌, if◌then◌else◌, arith,
}
use syncinerary.Itinerary.Diff.{ItineraryNode, candidate_of, put, put_all, by_candidate}

abbrev pub IsDict : List ItineraryNode → Type 0
IsDict [] = Unit
IsDict (n ∷ ns) = (find_row candidate_of n.candidate_id ns ≡ none) × IsDict ns

find_row-put :
    (c : ℕ) (n : ItineraryNode) (d : List ItineraryNode)
    → find_row candidate_of c (put n d)
      ≡ (if n.candidate_id == c then some n else find_row candidate_of c d)
unfolding put find_row
find_row-put c n [] = refl
find_row-put c n (m ∷ ms) = ground (arith, find_row-put c n ms)

put-IsDict : (n : ItineraryNode) (d : List ItineraryNode) → IsDict d → IsDict (put n d)
unfolding put find_row
put-IsDict n [] h = (refl, tt)
put-IsDict n (m ∷ ms) h = ground (arith, find_row-put m.candidate_id n ms, put-IsDict n ms h.1)

-- The last node of a candidate, or else the given one.
pub last_of : ℕ → List ItineraryNode → Option ItineraryNode → Option ItineraryNode
last_of c [] found = found
last_of c (n ∷ ns) found = last_of c ns (if n.candidate_id == c then some n else found)

put_all-IsDict : (d ns : List ItineraryNode) → IsDict d → IsDict (put_all d ns)
unfolding put_all
put_all-IsDict d [] h = h
put_all-IsDict d (n ∷ ns) h = put_all-IsDict (put n d) ns (put-IsDict n d h)

find_row-put_all :
    (c : ℕ) (d ns : List ItineraryNode)
    → find_row candidate_of c (put_all d ns) ≡ last_of c ns (find_row candidate_of c d)
unfolding put_all last_of
find_row-put_all c d [] = refl
find_row-put_all c d (n ∷ ns) = find_row-put_all c (put n d) ns ∙ rw (find_row-put c n d) refl

pub by_candidate-IsDict : (ns : List ItineraryNode) → IsDict (by_candidate ns)
by_candidate-IsDict ns = put_all-IsDict [] ns tt

pub find_row-by_candidate :
    (c : ℕ) (ns : List ItineraryNode)
    → find_row candidate_of c (by_candidate ns) ≡ last_of c ns none
find_row-by_candidate c ns = find_row-put_all c [] ns ∙ (unfold find_row in refl)

-- A change of the nodes that leaves their candidates alone passes through the search.
pub last_of-map :
    (f : ItineraryNode → ItineraryNode) (c : ℕ)
    → ((n : ItineraryNode) → (f n).candidate_id ≡ n.candidate_id)
    → (ns : List ItineraryNode) (found : Option ItineraryNode)
    → last_of c (map f ns) (Option.map f found) ≡ Option.map f (last_of c ns found)
unfolding last_of
last_of-map f c keeps [] found = refl
last_of-map f c keeps (n ∷ ns) found =
    ground (arith, keeps n, last_of-map f c keeps ns (some n), last_of-map f c keeps ns found)
