-- ===== src/Gather/Deck/Complete.antt =====
-- What the swipe deck of syncinerary/agents/gather/deck.py shows.
use mathlib.Core.List.Perm
use mathlib.Core.List.{Perm, append_assoc, append-nil, perm_middle, perm_append_comm, map-append}
use syncinerary.Prelude.{
  ℕ, suc, ◌≡◌, refl, sym, ap, subst, String, List, [], ◌∷◌, ◌++◌, map, length, Bool-cases, inl, inr,
}
use syncinerary.Prelude.Sorting.{sorted_by, sorted_by-perm}
use syncinerary.Transit.Request.{Maths}
use syncinerary.Gather.Candidates.{CandidatePlace}
use syncinerary.Gather.Deck.{
  DeckLane, from_traveler, same_lane, lane_priority, deck_lane, Group, PlacedCard, evidence_leb,
  add_to, grouped, pop_group, place_members, place_groups, placed_leb, order_deck,
}

module _ (m : Maths) (casefold : String → List ℕ) where
  abbrev flat : List (Group m) → List (CandidatePlace m)
  flat [] = []
  flat ((key, members) ∷ groups) = members ++ flat groups

  add_to-perm :
      (lane : DeckLane) (c : CandidatePlace m) (groups : List (Group m))
      → Perm (flat (add_to m casefold lane c groups)) (c ∷ flat groups)
  unfolding add_to
  add_to-perm lane c [] = Perm.rfl
  add_to-perm lane c ((key, members) ∷ groups) = elim (Bool-cases (same_lane key lane)) [
    | inl e ↦
        rw e (rw (append_assoc members (c ∷ []) (flat groups)) (perm_middle members (flat groups)))
    | inr e ↦ rw e (
        Perm.trans (Perm.append_left members (add_to-perm lane c groups))
          (perm_middle members (flat groups)))
  ]

  grouped-perm :
      (cards : List (CandidatePlace m)) (groups : List (Group m))
      → Perm (flat (grouped m casefold cards groups)) (flat groups ++ cards)
  unfolding grouped
  grouped-perm [] groups = rw (append-nil (flat groups)) Perm.rfl
  grouped-perm (c ∷ cards) groups =
      Perm.trans (grouped-perm cards (add_to m casefold (deck_lane c) c groups)) (
        Perm.trans (Perm.append_right cards (add_to-perm (deck_lane c) c groups))
          (Perm.symm (perm_middle (flat groups) cards)))

  pop_group-perm :
      (lane : DeckLane) (groups : List (Group m))
      → let (found, rest) = pop_group m casefold lane groups in
        Perm (found ++ flat rest) (flat groups)
  unfolding pop_group
  pop_group-perm lane [] = Perm.rfl
  pop_group-perm lane ((key, members) ∷ groups) = elim (Bool-cases (same_lane key lane)) [
    | inl e ↦ rw e Perm.rfl
    | inr e ↦ rw e (
        let (found, rest) = pop_group m casefold lane groups in
        subst (λ l. Perm l (members ++ flat groups)) (append_assoc found members (flat rest))
          (Perm.trans (Perm.append_right (flat rest) (perm_append_comm found members)) (
            subst (λ l. Perm l (members ++ flat groups))
              (sym (append_assoc members found (flat rest)))
              (Perm.append_left members (pop_group-perm lane groups)))))
  ]

  abbrev cards_of : List (PlacedCard m) → List (CandidatePlace m)
  cards_of rows = map (λ (row : PlacedCard m). row.candidate) rows

  place_members-cards :
      (size priority index : ℕ) (members : List (CandidatePlace m))
      → cards_of (place_members m casefold size priority index members) ≡ members
  unfolding place_members
  place_members-cards size priority index [] = refl
  place_members-cards size priority index (c ∷ members) =
      ap (λ l. c ∷ l) (place_members-cards size priority (suc index) members)

  place_groups-perm :
      (groups : List (Group m)) → Perm (cards_of (place_groups m casefold groups)) (flat groups)
  unfolding place_groups
  place_groups-perm [] = Perm.rfl
  place_groups-perm ((lane, members) ∷ groups) =
      let row_card = λ (row : PlacedCard m). row.candidate in
      let rows =
        place_members m casefold (length members) (lane_priority lane) 0
          (sorted_by (evidence_leb m casefold) members) in
      rw
        (
          map-append row_card rows (place_groups m casefold groups),
          place_members-cards (length members) (lane_priority lane) 0
              (sorted_by (evidence_leb m casefold) members),
        )
        (Perm.append (sorted_by-perm (evidence_leb m casefold) members) (place_groups-perm groups))

  -- The deck shows every card exactly once: it is a rearrangement of the candidates.
  pub order_deck-perm :
      (candidates : List (CandidatePlace m)) → Perm (order_deck m casefold candidates) candidates
  unfolding order_deck
  order_deck-perm candidates =
      let groups = grouped m casefold candidates [] in
      let (leading, rest) = pop_group m casefold from_traveler groups in
      Perm.trans
        (Perm.append (sorted_by-perm (evidence_leb m casefold) leading) (
          Perm.trans
            (Perm.map (λ (row : PlacedCard m). row.candidate)
              (sorted_by-perm (placed_leb m casefold) (place_groups m casefold rest)))
            (place_groups-perm rest)))
        (Perm.trans (pop_group-perm from_traveler groups) (grouped-perm candidates []))
