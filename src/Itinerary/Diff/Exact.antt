-- ===== src/Itinerary/Diff/Exact.antt =====
-- What syncinerary/diff/itinerary_diff.py reports.
use mathlib.Core.Option
use syncinerary.Prelude.{
  ℕ, map, ◌≡◌, refl, ◌∙◌, ap₂, List, [], ◌∷◌, Bool, true, false, not, ◌&&◌, Option, none, some,
  any_by, find_row, ◌==◌, arith,
}
use syncinerary.Prelude.Sorting.{any_by-sorted_by}
use syncinerary.Itinerary.Diff.{
  ItineraryNode, ItineraryDiffStop, ItineraryMove, ItineraryTimeChange, ItineraryDiff, candidate_of,
  stop, by_candidate, missing_from, move_of, time_change_of, day_differs, times_differ, moves,
  time_changes, stop_leb, move_leb, time_change_leb, itinerary_diff,
}
use syncinerary.Itinerary.Diff.Dictionary.{
  IsDict, last_of, last_of-map, by_candidate-IsDict, find_row-by_candidate,
}

-- What must be reported of one candidate, given its last node in each version.
abbrev pub stop_due : (ItineraryDiffStop → Bool) → (here there : Option ItineraryNode) → Bool
stop_due p none there = false
stop_due p (some n) none = p (stop n)
stop_due p (some n) (some m) = false

abbrev pub move_due : (ItineraryMove → Bool) → (old new : Option ItineraryNode) → Bool
move_due p none new = false
move_due p (some old) none = false
move_due p (some old) (some new) = day_differs old new && p (move_of old new)

abbrev pub time_change_due : (ItineraryTimeChange → Bool) → (old new : Option ItineraryNode) → Bool
time_change_due p none new = false
time_change_due p (some old) none = false
time_change_due p (some old) (some new) =
    not (day_differs old new) && (times_differ old new && p (time_change_of old new))

module _ (c : ℕ) where
  missing_from-any :
      (p : ItineraryDiffStop → Bool) (others nodes : List ItineraryNode)
      → IsDict nodes
      → any_by (λ s. (s.candidate_id == c) && p s) (missing_from others nodes)
        ≡ stop_due p (find_row candidate_of c nodes) (find_row candidate_of c others)
  unfolding missing_from find_row
  missing_from-any p others [] h = refl
  missing_from-any p others (n ∷ ns) h = ground (arith, missing_from-any p others ns h.1)

  moves-any :
      (p : ItineraryMove → Bool) (news olds : List ItineraryNode)
      → IsDict olds
      → any_by (λ m. (m.candidate_id == c) && p m) (moves news olds)
        ≡ move_due p (find_row candidate_of c olds) (find_row candidate_of c news)
  unfolding moves find_row
  moves-any p news [] h = refl
  moves-any p news (o ∷ os) h = ground (arith, moves-any p news os h.1)

  time_changes-any :
      (p : ItineraryTimeChange → Bool) (news olds : List ItineraryNode)
      → IsDict olds
      → any_by (λ m. (m.candidate_id == c) && p m) (time_changes news olds)
        ≡ time_change_due p (find_row candidate_of c olds) (find_row candidate_of c news)
  unfolding time_changes find_row
  time_changes-any p news [] h = refl
  time_changes-any p news (o ∷ os) h = ground (arith, time_changes-any p news os h.1)

-- For every candidate and every test of an entry, the four lists hold an entry of that candidate
-- which passes the test exactly when such an entry is due: a stop that only one version has is
-- removed or added, one whose day differs is moved, one on the same day whose start or end differs
-- is a time change, each with the fields of the candidate's last node in either version, and
-- nothing else is reported of it.
pub itinerary_diff-exact :
    (c : ℕ) (old_nodes new_nodes : List ItineraryNode)
    → let old = last_of c old_nodes none in
      let new = last_of c new_nodes none in
      let diff = itinerary_diff old_nodes new_nodes in
      ((p : ItineraryDiffStop → Bool)
        → any_by (λ s. (s.candidate_id == c) && p s) diff.added ≡ stop_due p new old)
      × ((p : ItineraryDiffStop → Bool)
          → any_by (λ s. (s.candidate_id == c) && p s) diff.removed ≡ stop_due p old new)
      × ((p : ItineraryMove → Bool)
          → any_by (λ m. (m.candidate_id == c) && p m) diff.moved ≡ move_due p old new)
      × ((p : ItineraryTimeChange → Bool)
          → any_by (λ m. (m.candidate_id == c) && p m) diff.time_changed
            ≡ time_change_due p old new)
unfolding itinerary_diff
itinerary_diff-exact c old_nodes new_nodes =
    let olds = by_candidate old_nodes in
    let news = by_candidate new_nodes in
    let old = find_row-by_candidate c old_nodes in
    let new = find_row-by_candidate c new_nodes in
    (
      λ p.
          any_by-sorted_by stop_leb _ (missing_from olds news)
          ∙ missing_from-any c p olds news (by_candidate-IsDict new_nodes)
          ∙ ap₂ (stop_due p) new old,
      λ p.
          any_by-sorted_by stop_leb _ (missing_from news olds)
          ∙ missing_from-any c p news olds (by_candidate-IsDict old_nodes)
          ∙ ap₂ (stop_due p) old new,
      λ p.
          any_by-sorted_by move_leb _ (moves news olds)
          ∙ moves-any c p news olds (by_candidate-IsDict old_nodes)
          ∙ ap₂ (move_due p) old new,
      λ p.
          any_by-sorted_by time_change_leb _ (time_changes news olds)
          ∙ time_changes-any c p news olds (by_candidate-IsDict old_nodes)
          ∙ ap₂ (time_change_due p) old new,
    )

no_entry {ℓ} :
    {A : Type ℓ} (key : A → ℕ) (xs : List A)
    → ((c : ℕ) → any_by (λ x. (key x == c) && true) xs ≡ false)
    → xs ≡ []
no_entry key [] none_found = refl
no_entry key (x ∷ xs) none_found = absurd (ground (arith, none_found (key x)))

-- A node of the next version, with an identifier of its own.
abbrev pub renumbered : (ItineraryNode → ℕ) → ItineraryNode → ItineraryNode
renumbered ids n = record n { id = ids n }

abbrev pub no_changes : ItineraryDiff
no_changes = record { added = []; removed = []; moved = []; time_changed = [] }

stop_due-renumbered :
    (ids : ItineraryNode → ℕ) (o : Option ItineraryNode)
    → (stop_due (λ s. true) (Option.map (renumbered ids) o) o ≡ false)
      × (stop_due (λ s. true) o (Option.map (renumbered ids) o) ≡ false)
      × (move_due (λ m. true) o (Option.map (renumbered ids) o) ≡ false)
      × (time_change_due (λ m. true) o (Option.map (renumbered ids) o) ≡ false)
stop_due-renumbered ids none = (refl, refl, refl, refl)
stop_due-renumbered ids (some n) = ground arith

-- The same stops saved again, under whatever new node identifiers, are no change.
pub itinerary_diff_unchanged :
    (ids : ItineraryNode → ℕ) (ns : List ItineraryNode)
    → itinerary_diff ns (map (renumbered ids) ns) ≡ no_changes
itinerary_diff_unchanged ids ns =
    let diff = itinerary_diff ns (map (renumbered ids) ns) in
    let exact = λ (c : ℕ). itinerary_diff-exact c ns (map (renumbered ids) ns) in
    let new = λ (c : ℕ). last_of-map (renumbered ids) c (λ n. refl) ns none in
    let added =
      no_entry (λ (s : ItineraryDiffStop). s.candidate_id) diff.added
        (λ c.
          (exact c).0 (λ s. true) ∙ rw (new c) (stop_due-renumbered ids (last_of c ns none)).0) in
    let removed =
      no_entry (λ (s : ItineraryDiffStop). s.candidate_id) diff.removed
        (λ c.
          (exact c).1 (λ s. true) ∙ rw (new c) (stop_due-renumbered ids (last_of c ns none)).1) in
    let moved =
      no_entry (λ (s : ItineraryMove). s.candidate_id) diff.moved
        (λ c.
          (exact c).2 (λ s. true) ∙ rw (new c) (stop_due-renumbered ids (last_of c ns none)).2) in
    let changed =
      no_entry (λ (s : ItineraryTimeChange). s.candidate_id) diff.time_changed
        (λ c.
          (exact c).3 (λ s. true) ∙ rw (new c) (stop_due-renumbered ids (last_of c ns none)).3) in
    λ i. record { added = added i; removed = removed i; moved = moved i; time_changed = changed i }
