-- ===== src/Gather/Deck/Leading.antt =====
-- Who leads the swipe deck of syncinerary/agents/gather/deck.py.
use mathlib.Core.List.{Perm}
use syncinerary.Prelude.{
  ℕ, suc, ◌≡◌, refl, ap, ◌∙◌, subst, String, List, [], ◌∷◌, ◌++◌, map, Bool, true, false, ◌||◌, not,
  any_by, any_by-append, length, arith, Bool-cases, inl, inr,
}
use syncinerary.Prelude.Sorting.{sorted_by, any_by-sorted_by}
use syncinerary.Transit.Request.{Maths}
use syncinerary.Gather.Candidates.{CandidatePlace}
use syncinerary.Gather.Deck.{
  DeckLane, from_traveler, for_you, trending, foundation, same_lane, lane_priority, deck_lane,
  Group, PlacedCard, evidence_leb, add_to, grouped, pop_group, place_members, place_groups,
  placed_leb, order_deck,
}
use syncinerary.Gather.Deck.Complete.{order_deck-perm}

same_lane-eq : (a b : DeckLane) → same_lane a b ≡ true → a ≡ b
same_lane-eq from_traveler from_traveler h = refl
same_lane-eq from_traveler for_you h = absurd (ground (arith, h))
same_lane-eq from_traveler trending h = absurd (ground (arith, h))
same_lane-eq from_traveler foundation h = absurd (ground (arith, h))
same_lane-eq for_you from_traveler h = absurd (ground (arith, h))
same_lane-eq for_you for_you h = refl
same_lane-eq for_you trending h = absurd (ground (arith, h))
same_lane-eq for_you foundation h = absurd (ground (arith, h))
same_lane-eq trending from_traveler h = absurd (ground (arith, h))
same_lane-eq trending for_you h = absurd (ground (arith, h))
same_lane-eq trending trending h = refl
same_lane-eq trending foundation h = absurd (ground (arith, h))
same_lane-eq foundation from_traveler h = absurd (ground (arith, h))
same_lane-eq foundation for_you h = absurd (ground (arith, h))
same_lane-eq foundation trending h = absurd (ground (arith, h))
same_lane-eq foundation foundation h = refl

same_lane_refl : (a : DeckLane) → same_lane a a ≡ true
same_lane_refl from_traveler = refl
same_lane_refl for_you = refl
same_lane_refl trending = refl
same_lane_refl foundation = refl

same_lane-differ : (a b : DeckLane) → same_lane a b ≡ false → same_lane b a ≡ false
same_lane-differ a b h = elim (Bool-cases (same_lane b a)) [
  | inr f ↦ f
  | inl t ↦
      absurd (
        ground
          (arith, h, subst (λ x. same_lane x b ≡ true) (same_lane-eq b a t) (same_lane_refl b)))
]

any_by-map {ℓ κ} :
    {A : Type ℓ} {B : Type κ} (p : B → Bool) (f : A → B) (xs : List A)
    → any_by p (map f xs) ≡ any_by (λ x. p (f x)) xs
any_by-map p f [] = refl
any_by-map p f (x ∷ xs) = ap (λ b. p (f x) || b) (any_by-map p f xs)

module _ (m : Maths) (casefold : String → List ℕ) where
  abbrev pub is_in : DeckLane → CandidatePlace m → Bool
  is_in lane c = same_lane (deck_lane c) lane

  abbrev has_key : DeckLane → Group m → Bool
  has_key lane (key, members) = same_lane key lane

  -- Every group holds the cards of its lane, and no lane has two groups.
  Grouped : List (Group m) → Type 0
  Grouped [] = Unit
  Grouped ((key, members) ∷ groups) =
      (any_by (λ c. not (is_in key c)) members ≡ false)
      × ((any_by (has_key key) groups ≡ false) × Grouped groups)

  add_to-has_key :
      (key lane : DeckLane) (c : CandidatePlace m) (groups : List (Group m))
      → any_by (has_key key) groups ≡ false
      → same_lane lane key ≡ false
      → any_by (has_key key) (add_to m casefold lane c groups) ≡ false
  unfolding add_to
  add_to-has_key key lane c [] h other = rw other refl
  add_to-has_key key lane c ((k, members) ∷ groups) h other = elim (Bool-cases (same_lane k lane)) [
    | inl e ↦ rw e h
    | inr e ↦ rw e (
        let first : same_lane k key ≡ false = ground (arith, h) in
        rw first (add_to-has_key key lane c groups (ground (arith, h)) other))
  ]

  add_to-Grouped :
      (c : CandidatePlace m) (groups : List (Group m))
      → Grouped groups
      → Grouped (add_to m casefold (deck_lane c) c groups)
  unfolding add_to Grouped
  add_to-Grouped c [] h = (rw (same_lane_refl (deck_lane c)) refl, (refl, tt))
  add_to-Grouped c ((key, members) ∷ groups) h = elim (Bool-cases (same_lane key (deck_lane c))) [
    | inl e ↦ rw e (
        let is : is_in key c ≡ true =
          rw (same_lane-eq key (deck_lane c) e) (same_lane_refl (deck_lane c)) in
        (any_by-append (λ d. not (is_in key d)) members (c ∷ []) ∙ rw (h.0, is) refl, h.1))
    | inr e ↦ rw e (
      h.0,
      (
        add_to-has_key key (deck_lane c) c groups h.1.0 (same_lane-differ key (deck_lane c) e),
        add_to-Grouped c groups h.1.1,
      ),
    )
  ]

  grouped-Grouped :
      (cards : List (CandidatePlace m)) (groups : List (Group m))
      → Grouped groups
      → Grouped (grouped m casefold cards groups)
  unfolding grouped
  grouped-Grouped [] groups h = h
  grouped-Grouped (c ∷ cards) groups h =
      grouped-Grouped cards (add_to m casefold (deck_lane c) c groups) (add_to-Grouped c groups h)

  members-free :
      (key lane : DeckLane) (members : List (CandidatePlace m))
      → any_by (λ c. not (is_in key c)) members ≡ false
      → same_lane key lane ≡ false
      → any_by (is_in lane) members ≡ false
  members-free key lane [] h other = refl
  members-free key lane (c ∷ members) h other =
      let is : deck_lane c ≡ key = same_lane-eq (deck_lane c) key (ground (arith, h)) in
      rw (is, other) (members-free key lane members (ground (arith, h)) other)

  place_members-any :
      (p : CandidatePlace m → Bool) (size priority index : ℕ) (members : List (CandidatePlace m))
      → any_by
          (λ (row : PlacedCard m). p row.candidate)
          (place_members m casefold size priority index members)
        ≡ any_by p members
  unfolding place_members
  place_members-any p size priority index [] = refl
  place_members-any p size priority index (c ∷ members) =
      ap (λ b. p c || b) (place_members-any p size priority (suc index) members)

  place_groups-free :
      (lane : DeckLane) (groups : List (Group m))
      → Grouped groups
      → any_by (has_key lane) groups ≡ false
      → any_by (λ (row : PlacedCard m). is_in lane row.candidate) (place_groups m casefold groups)
        ≡ false
  unfolding place_groups Grouped
  place_groups-free lane [] h none_has = refl
  place_groups-free lane ((key, members) ∷ groups) h none_has =
      let le = evidence_leb m casefold in
      rw
        (
          any_by-append (λ (row : PlacedCard m). is_in lane row.candidate)
              (place_members m casefold (length members) (lane_priority key) 0
                (sorted_by le members))
              (place_groups m casefold groups),
          place_members-any (is_in lane) (length members) (lane_priority key) 0
              (sorted_by le members),
          any_by-sorted_by le (is_in lane) members,
          members-free key lane members h.0 (ground (arith, none_has)),
        )
        (place_groups-free lane groups h.1.1 (ground (arith, none_has)))

  pop_group-has_key :
      (key lane : DeckLane) (groups : List (Group m))
      → any_by (has_key key) groups ≡ false
      → any_by (has_key key) (pop_group m casefold lane groups).1 ≡ false
  unfolding pop_group
  pop_group-has_key key lane [] h = refl
  pop_group-has_key key lane ((k, members) ∷ groups) h = elim (Bool-cases (same_lane k lane)) [
    | inl e ↦ rw e (ground (arith, h))
    | inr e ↦ rw e (
        let first : same_lane k key ≡ false = ground (arith, h) in
        rw first (pop_group-has_key key lane groups (ground (arith, h))))
  ]

  pop_group-apart :
      (lane : DeckLane) (groups : List (Group m))
      → Grouped groups
      → let (found, rest) = pop_group m casefold lane groups in
        (any_by (λ c. not (is_in lane c)) found ≡ false)
        × ((any_by (has_key lane) rest ≡ false) × Grouped rest)
  unfolding pop_group Grouped
  pop_group-apart lane [] h = (refl, (refl, tt))
  pop_group-apart lane ((key, members) ∷ groups) h = elim (Bool-cases (same_lane key lane)) [
    | inl e ↦ rw e (
        subst
          (λ k.
            (any_by (λ c. not (is_in k c)) members ≡ false)
            × ((any_by (has_key k) groups ≡ false) × Grouped groups))
          (same_lane-eq key lane e) h)
    | inr e ↦ rw e (
        let (found, (left, keyed)) = pop_group-apart lane groups h.1.1 in
        (found, (rw e left, (h.0, (pop_group-has_key key lane groups h.1.0, keyed)))))
  ]

  -- The deck shows every candidate exactly once, and the cards that travelers added themselves lead it:
  -- it is a rearrangement of the candidates, in a first part that holds only such cards, in the order of
  -- their evidence, and a rest without any.
  pub order_deck_leading :
      (candidates : List (CandidatePlace m))
      → (leading rest : List (CandidatePlace m)) × (Perm
            (order_deck m casefold candidates)
            candidates
          × ((order_deck m casefold candidates
                ≡ sorted_by (evidence_leb m casefold) leading ++ rest)
              × ((any_by (λ c. not (is_in from_traveler c)) leading ≡ false)
                  × (any_by (is_in from_traveler) rest ≡ false))))
  unfolding order_deck Grouped
  order_deck_leading candidates =
      let groups = grouped m casefold candidates [] in
      let (leading, left) = pop_group m casefold from_traveler groups in
      let (own, (none_left, keyed)) =
        pop_group-apart from_traveler groups (grouped-Grouped candidates [] tt) in
      let row_card = λ (row : PlacedCard m). row.candidate in
      let rows = sorted_by (placed_leb m casefold) (place_groups m casefold left) in
      (
        leading,
        map row_card rows,
        (
          order_deck-perm m casefold candidates,
          (
            refl,
            (
              own,
              any_by-map (is_in from_traveler) row_card rows
                  ∙ any_by-sorted_by (placed_leb m casefold)
                      (λ (row : PlacedCard m). is_in from_traveler row.candidate)
                      (place_groups m casefold left)
                  ∙ place_groups-free from_traveler left keyed none_left,
            ),
          ),
        ),
      )
