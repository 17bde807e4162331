-- ===== src/Gather/Dedup.antt =====
-- The merge of duplicate places, syncinerary/agents/gather/dedup.py.
-- Floating point is a parameter, and so is the reading of a name as its normalized words, which is done
-- by Python's Unicode tables and regular expressions.
pub mod Survivors
use syncinerary.Prelude.{
  ℕ, String, List, [], ◌∷◌, ◌++◌, Option, none, some, Bool, true, false, ◌&&◌, ◌||◌, not, any_by,
  filter_by, elem, ◌==◌, if◌then◌else◌, str_eq,
}
use syncinerary.Prelude.Partial.{or_else}
use syncinerary.Transit.Request.{Maths, Float, TransitLocation, haversine_km, float_gt}
use syncinerary.Gather.Candidates.{Source, same_source, Dictionary, Enrichment, CandidatePlace}

-- `_NOISE`
abbrev noise : List String
noise =
    "the" ∷ "a" ∷ "an" ∷ "of" ∷ "at" ∷ "in" ∷ "and" ∷ "museum" ∷ "park" ∷ "center" ∷ "centre"
    ∷ "store" ∷ "shop" ∷ "branch" ∷ "main" ∷ []

abbrev is_noise : String → Bool
is_noise word = any_by (str_eq word) noise

abbrev or_list {ℓ} : {A : Type ℓ} → List A → List A → List A
or_list [] ys = ys
or_list (x ∷ xs) ys = x ∷ xs

-- `_identity_tokens` of the words of a name: all of them where every word is noise.
abbrev identity_tokens : List String → List String
identity_tokens words = or_list (filter_by (λ w. not (is_noise w)) words) words

-- `left <= right` on sets.
abbrev subset_of : List String → List String → Bool
subset_of xs ys = not (any_by (λ x. not (any_by (str_eq x) ys)) xs)

abbrev is_nonempty {ℓ} : {A : Type ℓ} → List A → Bool
is_nonempty [] = false
is_nonempty (x ∷ xs) = true

abbrev names_agree : List String → List String → Bool
names_agree left right =
    is_nonempty left && (is_nonempty right && (subset_of left right || subset_of right left))

module _ (m : Maths) (words : String → List String) where
  abbrev Place : Type 0
  Place = CandidatePlace m

  abbrev location_of : Place → TransitLocation m
  location_of c = record { place_id = none; lat = c.lat; lng = c.lng }

  -- `_same_place`
  unfoldable pub same_place : Place → Place → Bool
  unfolding haversine_km
  same_place left right =
      let distance_m =
        m.floats.mul (haversine_km m (location_of left) (location_of right))
          (m.floats.of_int 1000) in
      if float_gt m distance_m (m.floats.of_int 50)
      then false
      else names_agree (identity_tokens (words left.name_canonical))
          (identity_tokens (words right.name_canonical))

-- The loop over the sources of the duplicate.
unfoldable pub add_sources : List Source → List Source → List Source
add_sources sources [] = sources
add_sources sources (s ∷ more) =
    add_sources (if any_by (same_source s) sources then sources else sources ++ s ∷ []) more

-- `values.extend(v for v in more if v not in values)`: the generator is read while `values` grows, so
-- a repeat within `more` is added once.
unfoldable extended : List ℕ → List ℕ → List ℕ
extended values [] = values
extended values (v ∷ more) = extended (if elem v values then values else values ++ v ∷ []) more

abbrev is_truthy : Option ℕ → Bool
is_truthy none = false
is_truthy (some v) = not (v == 0)

-- `{**duplicate, **keeper}`
abbrev overlaid : Dictionary → Dictionary → Dictionary
overlaid keeper duplicate key = or_else (keeper key) (duplicate key)

-- And then the truthy values of the duplicate where the keeper has none.
abbrev richer : Dictionary → Dictionary → Dictionary
richer keeper duplicate key =
    if not (is_truthy (keeper key)) && is_truthy (duplicate key)
    then duplicate key
    else overlaid keeper duplicate key

unfoldable merged_enrichment : Enrichment → Enrichment → Enrichment
unfolding extended
merged_enrichment keeper duplicate = record {
  social_platforms = extended keeper.social_platforms duplicate.social_platforms;
  social_post_urls = extended keeper.social_post_urls duplicate.social_post_urls;
  social_posts = extended keeper.social_posts duplicate.social_posts;
  discovery_queries = extended keeper.discovery_queries duplicate.discovery_queries;
  others = richer keeper.others duplicate.others;
}

-- `a or b` of two texts.
abbrev or_text : Option String → Option String → Option String
or_text none b = b
or_text (some t) b = if str_eq t "" then b else some t

module _ {m : Maths} where
  unfoldable pub merge_candidate_evidence : CandidatePlace m → CandidatePlace m → CandidatePlace m
  unfolding add_sources merged_enrichment
  merge_candidate_evidence keeper duplicate = record keeper {
    sources = add_sources keeper.sources duplicate.sources;
    enrichment = merged_enrichment keeper.enrichment duplicate.enrichment;
    hours_by_weekday = or_list keeper.hours_by_weekday duplicate.hours_by_weekday;
    address = or_text keeper.address duplicate.address;
    area = or_text keeper.area duplicate.area;
    selection_lane = or_else keeper.selection_lane duplicate.selection_lane;
    trending_signals = overlaid keeper.trending_signals duplicate.trending_signals;
  }

-- The loops, for any test and any merge.
module _ {ℓ} {A : Type ℓ} (same : A → A → Bool) (merge : A → A → A) where
  -- The first kept element that is the same takes the new one up; else it goes to the end.
  unfoldable pub absorb : A → List A → List A
  absorb c [] = c ∷ []
  absorb c (kept ∷ resolved) =
      let rest = absorb c resolved in if same kept c then merge kept c ∷ resolved else kept ∷ rest

  unfoldable pub resolve_all : List A → List A → List A
  unfolding absorb
  resolve_all resolved [] = resolved
  resolve_all resolved (c ∷ candidates) = resolve_all (absorb c resolved) candidates

unfoldable pub dedup_candidates :
    (m : Maths) (words : String → List String) → List (CandidatePlace m) → List (CandidatePlace m)
unfolding resolve_all same_place merge_candidate_evidence
dedup_candidates m words candidates =
    resolve_all (same_place m words) merge_candidate_evidence [] candidates
