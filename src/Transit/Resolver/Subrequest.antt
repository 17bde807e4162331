-- ===== src/Transit/Resolver/Subrequest.antt =====
-- The narrowed request of syncinerary/tools/transit/resolver.py: `_subrequest` renumbers the locations.
use syncinerary.Prelude.{
  ℕ, ◌<◌, ◌≡◌, refl, ap, ◌∙◌, List, [], ◌∷◌, map, none, some, true, false, elem, length, length-map,
  leb, ◌==◌, arith, Bool-cases, inl, inr, return,
}
use syncinerary.Prelude.Sorting.{All, any_by-sorted_by}
use syncinerary.Transit.Request.{Maths, TransitLocation, location_at, check_pairs, check_request}
use syncinerary.Transit.Resolver.{
  Pair, PairKey, Request, pair_id, indices_of, distinct, involved_in, position, subrequest,
}

position-lt : (i : ℕ) (xs : List ℕ) → elem i xs ≡ true → position i xs < length xs
position-lt i [] h = absurd (ground arith)
position-lt i (x ∷ xs) h = ground (arith, position-lt i xs)

position-injective :
    (i j : ℕ) (xs : List ℕ)
    → elem i xs ≡ true
    → elem j xs ≡ true
    → position i xs ≡ position j xs
    → i ≡ j
position-injective i j [] hi hj e = absurd (ground arith)
position-injective i j (x ∷ xs) hi hj e = ground (arith, position-injective i j xs)

elem-distinct : (i : ℕ) (xs : List ℕ) → elem i (distinct xs) ≡ elem i xs
elem-distinct i [] = refl
elem-distinct i (x ∷ xs) = elim (Bool-cases (elem x xs)) [
  | inr new ↦ rw new (ground (arith, elem-distinct i xs))
  | inl old ↦ rw old (
      elem-distinct i xs ∙ elim (Bool-cases (x == i)) [
        | inl same ↦ rw same (let e : x ≡ i = ground (arith, same) in rw (← e) old)
        | inr other ↦ rw other refl
      ])
]

module _ (m : Maths) where
  location_at-position :
      (f : ℕ → TransitLocation m) (i : ℕ) (xs : List ℕ)
      → elem i xs ≡ true
      → location_at m (position i xs) (map f xs) ≡ f i
  unfolding location_at
  location_at-position f i [] h = absurd (ground arith)
  location_at-position f i (x ∷ xs) h = elim (Bool-cases (x == i)) [
    | inl same ↦ rw same (ap f (ground (arith, same)))
    | inr other ↦ rw other (location_at-position f i xs (ground (arith, h, other)))
  ]

  elem-involved :
      (i : ℕ) (pairs : List Pair) → elem i (involved_in pairs) ≡ elem i (indices_of pairs)
  elem-involved i pairs =
      any_by-sorted_by leb (λ x. x == i) (distinct (indices_of pairs))
      ∙ elem-distinct i (indices_of pairs)

  -- Both ends of the pair are among the indices, and differ.
  Known : List ℕ → Pair → Type 0
  Known xs (i, j) = (elem i xs ≡ true) × ((elem j xs ≡ true) × ((i == j) ≡ false))

  pairs-Known :
      (xs : List ℕ) (pairs : List Pair)
      → ((k : ℕ) → elem k (indices_of pairs) ≡ true → elem k xs ≡ true)
      → All (λ (i, j). (i == j) ≡ false) pairs
      → All (Known xs) pairs
  unfolding Known
  pairs-Known xs [] sub h = tt
  pairs-Known xs ((i, j) ∷ pairs) sub h = (
    (sub i (ground arith), (sub j (ground arith), h.0)),
    pairs-Known xs pairs (λ k e. sub k (ground (arith, e))) h.1,
  )

  renumber : List ℕ → Pair → Pair
  renumber xs (i, j) = (position i xs, position j xs)

  check_pairs-renumber :
      (xs : List ℕ) (pairs : List Pair)
      → All (Known xs) pairs
      → check_pairs (length xs) (map (renumber xs) pairs) ≡ return tt
  unfolding check_pairs Known renumber
  check_pairs-renumber xs [] h = refl
  check_pairs-renumber xs ((i, j) ∷ pairs) h = ground (
    arith,
    position-lt i xs h.0.0,
    position-lt j xs h.0.1.0,
    position-injective i j xs h.0.0 h.0.1.0,
    h.0.1.1,
    check_pairs-renumber xs pairs h.1,
  )

  -- The arcs that a request names, by the identifiers of their ends.
  abbrev pub named_arcs : Request m → List PairKey
  named_arcs request = elim request.required_pairs [
    | none ↦ []
    | some pairs ↦ map (pair_id m request) pairs
  ]

  named-renumber :
      (request : Request m) (xs : List ℕ) (pairs : List Pair) (sub : Request m)
      → sub.locations ≡ map (λ i. location_at m i request.locations) xs
      → All (Known xs) pairs
      → map (pair_id m sub) (map (renumber xs) pairs) ≡ map (pair_id m request) pairs
  unfolding Known renumber
  named-renumber request xs [] sub same h = refl
  named-renumber request xs ((i, j) ∷ pairs) sub same h =
      let found = λ (k : ℕ) (e : elem k xs ≡ true). located_same k e in
      rw (found i h.0.0, found j h.0.1.0)
        (ap (λ l. pair_id m request (i, j) ∷ l) (named-renumber request xs pairs sub same h.1))
    where
      located_same :
          (k : ℕ)
          → elem k xs ≡ true
          → location_at m (position k xs) sub.locations ≡ location_at m k request.locations
      located_same k e =
          ap (location_at m (position k xs)) same
          ∙ location_at-position (λ i. location_at m i request.locations) k xs e

  -- A narrowed request asks about the arcs that it was made for: it passes the validator of requests,
  -- and its pairs have, in order, the identifiers of the given pairs of the whole request, if none of
  -- these joins a location to itself.
  pub subrequest-keeps_arcs :
      (request : Request m) (pairs : List Pair)
      → All (λ (i, j). (i == j) ≡ false) pairs
      → let sub = subrequest m request pairs in
        (check_request m sub ≡ return tt) × (named_arcs sub ≡ map (pair_id m request) pairs)
  unfolding subrequest check_request renumber
  subrequest-keeps_arcs request pairs h =
      let xs = involved_in pairs in
      let known = pairs-Known xs pairs (λ k e. elem-involved k pairs ∙ e) h in
      (
        rw (length-map (λ i. location_at m i request.locations) xs)
            (check_pairs-renumber xs pairs known),
        named-renumber request xs pairs (subrequest m request pairs) refl known,
      )
