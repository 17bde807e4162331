-- ===== src/Gather/SocialSearch/Availability.antt =====
-- What the planner of syncinerary/agents/gather/social_search.py may answer.
use syncinerary.Prelude.{
  ◌≡◌, List, [], ◌∷◌, Option, none, some, Bool, true, false, Bool-cases, inl, inr, if◌then◌else◌,
}
use syncinerary.Prelude.Partial.{or_else}
use syncinerary.Prelude.Sorting.{sorted_by}
use syncinerary.Gather.Intents.{
  instagram, rednote, SearchIntentType, specific, normal, broad, SearchIntent, opening_sequence,
  broadened,
}
use syncinerary.Gather.SocialSearch.{
  SearchYield, SocialSearchState, is_available, yield_type, SearchAction,
}
use syncinerary.Gather.SocialSearch.Choices.{
  first_given, intent_of, if_available, first_available, opening_intent, opening_for,
  cold_start_intent, recovery_intent, recovery_after, reaction, wider_intent,
  last_informative_action, venue_bearing_intents, lane_gap_intent, gap_in, intent_leb,
  any_remaining_intent, lane_deficits, platforms_by_priority, platform_order,
}
use syncinerary.Gather.SocialSearch.Planner.{
  chinese_rednote_recovery, probes_rednote, reel_intent, reel_kinds, if_on_platform, has_platform,
}

module _ (s : SocialSearchState) where
  -- Whatever is chosen is available.
  abbrev pub Fresh : Option SearchIntent → Type 0
  Fresh none = Unit
  Fresh (some i) = is_available s i ≡ true

  if_available-Fresh : (i : SearchIntent) → Fresh (if_available s i)
  unfolding if_available
  if_available-Fresh i = elim (Bool-cases (is_available s i)) [ inl e ↦ rw e e | inr e ↦ rw e tt ]

  or_else-Fresh : (a b : Option SearchIntent) → Fresh a → Fresh b → Fresh (or_else a b)
  or_else-Fresh none b ha hb = hb
  or_else-Fresh (some i) b ha hb = ha

  first_given-Fresh {ℓ} :
      {A : Type ℓ} (f : A → Option SearchIntent) (xs : List A)
      → ((x : A) → Fresh (f x))
      → Fresh (first_given f xs)
  unfolding first_given
  first_given-Fresh f [] h = tt
  first_given-Fresh f (x ∷ xs) h =
      or_else-Fresh (f x) (first_given f xs) (h x) (first_given-Fresh f xs h)

  if-Fresh : (b : Bool) (o : Option SearchIntent) → Fresh o → Fresh (if b then o else none)
  if-Fresh true o h = h
  if-Fresh false o h = tt

  unless-Fresh : (b : Bool) (o : Option SearchIntent) → Fresh o → Fresh (if b then none else o)
  unless-Fresh true o h = tt
  unless-Fresh false o h = h

  first_available-Fresh :
      (by_pair : Bool) (t : SearchIntentType) → Fresh (first_available s by_pair t)
  unfolding first_available
  first_available-Fresh by_pair t =
      first_given-Fresh (λ p. if_available s (intent_of p t specific)) (platform_order s t by_pair)
        (λ p. if_available-Fresh (intent_of p t specific))

  pub opening_intent-Fresh : Fresh (opening_intent s)
  unfolding opening_intent
  opening_intent-Fresh =
      first_given-Fresh (opening_for s) opening_sequence
        (λ t. if-Fresh _ (first_available s false t) (first_available-Fresh false t))

  pub cold_start_intent-Fresh : Fresh (cold_start_intent s)
  unfolding cold_start_intent
  cold_start_intent-Fresh = first_given-Fresh _ (platforms_by_priority s none) (λ p.
      first_given-Fresh _ opening_sequence (λ t.
        first_given-Fresh _ (normal ∷ broad ∷ []) (λ w. if_available-Fresh (intent_of p t w))))

  wider_intent-Fresh : (o : Option SearchIntent) → Fresh (wider_intent s o)
  wider_intent-Fresh none = tt
  wider_intent-Fresh (some i) = if_available-Fresh i

  reaction-Fresh : (i : SearchIntent) (y : SearchYield) → Fresh (reaction s i y)
  reaction-Fresh i SearchYield.no_mentions =
      or_else-Fresh _ (wider_intent s (broadened i))
        (first_given-Fresh _ venue_bearing_intents
          (λ t. if_available-Fresh (intent_of i.platform t specific)))
        (wider_intent-Fresh (broadened i))
  reaction-Fresh i SearchYield.no_search_results = wider_intent-Fresh (broadened i)
  reaction-Fresh i SearchYield.productive = tt
  reaction-Fresh i SearchYield.duplicate_heavy = tt
  reaction-Fresh i SearchYield.resolution_failure = tt
  reaction-Fresh i SearchYield.provider_error = tt

  pub recovery_intent-Fresh : Fresh (recovery_intent s)
  unfolding recovery_intent
  recovery_intent-Fresh = after (last_informative_action s.searched_queries)
    where
      after : (o : Option SearchAction) → Fresh (recovery_after s o)
      after none = tt
      after (some a) = reaction-Fresh a.intent (yield_type a.outcome)

  pub lane_gap_intent-Fresh : Fresh (lane_gap_intent s)
  unfolding lane_gap_intent
  lane_gap_intent-Fresh = first_given-Fresh (gap_in s) (lane_deficits s) (λ lane. unless-Fresh _ _ (
      first_given-Fresh (first_available s true) (sorted_by (intent_leb s) lane.intent_types)
        (first_available-Fresh true)))

  pub any_remaining_intent-Fresh : Fresh (any_remaining_intent s)
  unfolding any_remaining_intent
  any_remaining_intent-Fresh =
      first_given-Fresh (first_available s true) _ (first_available-Fresh true)

  chinese_rednote_recovery-Fresh : Fresh (chinese_rednote_recovery s)
  unfolding chinese_rednote_recovery
  chinese_rednote_recovery-Fresh = if-Fresh (probes_rednote s) _ (
      first_given-Fresh _ opening_sequence (λ t. if_available-Fresh (intent_of rednote t specific)))

  pub reel_intent-Fresh : Fresh (reel_intent s)
  unfolding reel_intent
  reel_intent-Fresh = if-Fresh _ _ (
      or_else-Fresh (chinese_rednote_recovery s) _ chinese_rednote_recovery-Fresh (
        first_given-Fresh _ (specific ∷ normal ∷ []) (λ w.
          first_given-Fresh (λ t. if_on_platform s (intent_of instagram t w)) (reel_kinds s)
            (λ t.
              if-Fresh (has_platform instagram s) (if_available s (intent_of instagram t w))
                (if_available-Fresh (intent_of instagram t w))))))
