-- ===== src/Gather/Deck.antt =====
-- The order of the swipe deck, syncinerary/agents/gather/deck.py.
-- The case folding of a name into its code points is a parameter. The platforms instagram, rednote and
-- tiktok are the numbers 1, 2 and 3. Positions are compared as fractions, by cross-multiplication.
pub mod Complete
pub mod Leading
use syncinerary.Prelude.{
  ℕ, zero, suc, ◌+◌, ◌*◌, max, String, List, [], ◌∷◌, ◌++◌, map, Option, none, some, Bool, true,
  false, any_by, elem, length, leb, ◌==◌, if◌then◌else◌, str_eq,
}
use syncinerary.Prelude.Sorting.{sorted_by, then_by}
use syncinerary.Consensus.Scoring.{name_leb}
use syncinerary.Transit.Request.{Maths}
use syncinerary.Gather.Candidates.{
  Source, SourceType, buzz, personal, same_source_type, CandidatePlace,
}

pub data DeckLane : Type 0 where
  from_traveler for_you trending foundation : DeckLane

abbrev pub same_lane : DeckLane → DeckLane → Bool
same_lane from_traveler from_traveler = true
same_lane for_you for_you = true
same_lane trending trending = true
same_lane foundation foundation = true
same_lane _ _ = false

-- `_LANE_PRIORITY`
abbrev lane_priority : DeckLane → ℕ
lane_priority from_traveler = 0
lane_priority for_you = 1
lane_priority trending = 2
lane_priority foundation = 3

abbrev has_source_type : SourceType → List Source → Bool
has_source_type t sources = any_by (λ s. same_source_type s.type t) sources

abbrev buzz_lane : Option String → DeckLane
buzz_lane none = trending
buzz_lane (some lane) = if str_eq lane "for_you" then for_you else trending

abbrev buzz_of : Source → Option ℕ → ℕ
buzz_of s none = 0
buzz_of s (some score) = if same_source_type s.type buzz then score else 0

-- The greatest score of a buzz source, or 0.
unfoldable best_buzz : List Source → ℕ
best_buzz [] = 0
best_buzz (s ∷ sources) = max (buzz_of s s.score) (best_buzz sources)

-- The place of the first preferred platform among those of the candidate, or their number.
abbrev first_platform : (preferred platforms : List ℕ) → ℕ
first_platform [] platforms = 0
first_platform (p ∷ preferred) platforms =
    let rest = first_platform preferred platforms in if elem p platforms then 0 else suc rest

abbrev social_platform_priority : List ℕ
social_platform_priority = 1 ∷ 2 ∷ 3 ∷ []

module _ {m : Maths} where
  unfoldable pub deck_lane : CandidatePlace m → DeckLane
  deck_lane c =
      if has_source_type personal c.sources
      then from_traveler
      else if has_source_type buzz c.sources
      then buzz_lane c.selection_lane
      else foundation

-- A group of the dictionary: the lane and its members.
abbrev pub Group : Maths → Type 0
Group m = DeckLane × List (CandidatePlace m)

-- A row of `placed`.
pub record PlacedCard (m : Maths) : Type 0 where
  pub index : ℕ
  pub size : ℕ
  pub priority : ℕ
  pub candidate : CandidatePlace m

module _ (m : Maths) (casefold : String → List ℕ) where
  abbrev Card : Type 0
  Card = CandidatePlace m

  -- `_evidence_rank` as a test of two cards, "not after".
  unfoldable pub evidence_leb : Card → Card → Bool
  unfolding best_buzz
  evidence_leb =
      then_by
        (λ c d.
          leb (first_platform social_platform_priority c.enrichment.social_platforms)
            (first_platform social_platform_priority d.enrichment.social_platforms))
        (then_by (λ c d. leb (best_buzz d.sources) (best_buzz c.sources))
          (λ c d. name_leb (casefold c.name_canonical) (casefold d.name_canonical)))

  -- `groups.setdefault(lane, []).append(candidate)`
  unfoldable pub add_to : DeckLane → Card → List (Group m) → List (Group m)
  add_to lane c [] = (lane, c ∷ []) ∷ []
  add_to lane c ((key, members) ∷ groups) =
      let rest = add_to lane c groups in
      if same_lane key lane then (key, members ++ c ∷ []) ∷ groups else (key, members) ∷ rest

  unfoldable pub grouped : List Card → List (Group m) → List (Group m)
  unfolding add_to deck_lane
  grouped [] groups = groups
  grouped (c ∷ cards) groups = grouped cards (add_to (deck_lane c) c groups)

  -- `groups.pop(lane, [])`: the members, and the groups that are left.
  unfoldable pub pop_group : DeckLane → List (Group m) → List Card × List (Group m)
  pop_group lane [] = ([], [])
  pop_group lane ((key, members) ∷ groups) =
      let (found, rest) = pop_group lane groups in
      if same_lane key lane then (members, groups) else (found, (key, members) ∷ rest)

  -- The rows of one group, from this index on.
  unfoldable pub place_members : (size priority index : ℕ) → List Card → List (PlacedCard m)
  place_members size priority index [] = []
  place_members size priority index (c ∷ members) =
      record { index = index; size = size; priority = priority; candidate = c }
      ∷ place_members size priority (suc index) members

  unfoldable pub place_groups : List (Group m) → List (PlacedCard m)
  unfolding evidence_leb place_members
  place_groups [] = []
  place_groups ((lane, members) ∷ groups) =
      place_members (length members) (lane_priority lane) 0 (sorted_by evidence_leb members)
      ++ place_groups groups

  -- The key of `placed.sort`: the position (index + 0.5) / size, the lane and the name.
  unfoldable pub placed_leb : PlacedCard m → PlacedCard m → Bool
  placed_leb =
      then_by (λ a b. leb ((2 * a.index + 1) * b.size) ((2 * b.index + 1) * a.size))
        (then_by (λ a b. leb a.priority b.priority)
          (λ a b.
            name_leb (casefold a.candidate.name_canonical) (casefold b.candidate.name_canonical)))

  abbrev deck_of : List Card × List (Group m) → List Card
  deck_of (leading, groups) =
      sorted_by evidence_leb leading
      ++ map (λ (row : PlacedCard m). row.candidate) (sorted_by placed_leb (place_groups groups))

  unfoldable pub order_deck : List Card → List Card
  unfolding grouped pop_group place_groups placed_leb
  order_deck candidates = deck_of (pop_group from_traveler (grouped candidates []))
