-- ===== src/Gather/PlaceExamples.antt =====
-- The merge and the deck on three cards: two listings of one museum and a place a traveler added.
use mathlib.Core.List.{Perm}
use syncinerary.Prelude.{
  ℕ, ◌+◌, ◌-◌, ◌*◌, ◌/◌, ◌≡◌, refl, String, List, [], ◌∷◌, ◌++◌, map, none, some, false, ltb, leb,
  if◌then◌else◌, any_by, not, str_eq,
}
use syncinerary.Prelude.Sorting.{sorted_by}
use syncinerary.Consensus.Scoring.{Floats}
use syncinerary.Transit.Request.{Maths}
use syncinerary.Gather.Candidates.{Source, discovery, buzz, personal, CandidatePlace}
use syncinerary.Gather.Dedup.{same_place, dedup_candidates}
use syncinerary.Gather.Dedup.Survivors.{
  Separate, is_from, dedup_candidates-Separate, dedup_candidates-sources,
}
use syncinerary.Gather.Deck.{from_traveler, evidence_leb, order_deck}
use syncinerary.Gather.Deck.Leading.{is_in, order_deck_leading}

-- Whole numbers for the floats.
abbrev pub whole : Floats
whole = record {
  Float = ℕ;
  of_int = λ n. n;
  add = λ x y. x + y;
  sub = λ x y. if ltb x y then y - x else x - y;
  mul = λ x y. x * y;
  div = λ x y. x / y;
  neg = λ x. x;
  leb = leb;
}

abbrev pub maths : Maths
maths = record {
  floats = whole;
  literal = λ s. 1;
  radians = λ x. x;
  sin = λ x. x;
  cos = λ x. 1;
  asin = λ x. x;
  sqrt = λ x. x;
  round = λ x. x;
  fixed_six = λ x. "";
}

abbrev words : String → List String
words name =
    if str_eq name "The Art Museum"
    then "the" ∷ "art" ∷ "museum" ∷ []
    else if str_eq name "Art Museum"
    then "art" ∷ "museum" ∷ []
    else "cafe" ∷ []

abbrev casefold : String → List ℕ
casefold name = if str_eq name "Cafe" then 2 ∷ [] else 1 ∷ []

abbrev card : (id : ℕ) → (name : String) → (lat : ℕ) → List Source → CandidatePlace maths
card id name lat sources = record {
  id = id;
  name_canonical = name;
  lat = lat;
  lng = 0;
  address = none;
  area = none;
  hours_by_weekday = [];
  sources = sources;
  enrichment = record {
    social_platforms = [];
    social_post_urls = [];
    social_posts = [];
    discovery_queries = [];
    others = λ k. none;
  };
  selection_lane = none;
  trending_signals = λ k. none;
}

abbrev searched : Source
searched = record { type = discovery; score = none; detail = 1 }

abbrev posted : Source
posted = record { type = buzz; score = some 7; detail = 2 }

abbrev added : Source
added = record { type = personal; score = none; detail = 3 }

abbrev three : List (CandidatePlace maths)
three =
    card 1 "Art Museum" 0 (searched ∷ [])
    ∷ card 2 "The Art Museum" 0 (posted ∷ [])
    ∷ card 3 "Cafe" 0 (added ∷ [])
    ∷ []

abbrev ids : List (CandidatePlace maths) → List ℕ
ids cards = map (λ (c : CandidatePlace maths). c.id) cards

-- The second listing is merged into the first one.
three-merged : ids (dedup_candidates maths words three) ≡ 1 ∷ 3 ∷ []
unfolding dedup_candidates
three-merged = refl

three-ordered : ids (order_deck maths casefold three) ≡ 3 ∷ 2 ∷ 1 ∷ []
unfolding order_deck sorted_by
three-ordered = refl

dedup_candidates-Separate_example :
    let resolved = dedup_candidates maths words three in
    Separate (same_place maths words) resolved × (dedup_candidates maths words resolved ≡ resolved)
dedup_candidates-Separate_example = dedup_candidates-Separate maths words three

dedup_candidates-sources_example :
    any_by (is_from maths words posted) (dedup_candidates maths words three)
    ≡ any_by (is_from maths words posted) three
dedup_candidates-sources_example = dedup_candidates-sources maths words posted three

order_deck_leading_example :
    (leading rest : List (CandidatePlace maths)) × (Perm (order_deck maths casefold three) three
      × ((order_deck maths casefold three ≡ sorted_by (evidence_leb maths casefold) leading ++ rest)
          × ((any_by (λ c. not (is_in maths casefold from_traveler c)) leading ≡ false)
              × (any_by (is_in maths casefold from_traveler) rest ≡ false))))
order_deck_leading_example = order_deck_leading maths casefold three
