-- ===== src/Gather/SocialSearch/Stopping.antt =====
-- Why the planner of syncinerary/agents/gather/social_search.py stops, and that it searches otherwise.
use syncinerary.Prelude.{
  ◌≤◌, ◌<◌, ◌≡◌, ◌⊎◌, refl, sym, ◌∙◌, List, [], ◌∷◌, Option, none, some, Bool, true, false, ◌&&◌,
  ◌||◌, any_by, any_by-cong, any_by-filter_by, leb, ltb, arith, Bool-cases, Option-cases, inl, inr,
}
use syncinerary.Prelude.Partial.{is_given}
use syncinerary.Prelude.Sorting.{any_by-sorted_by}
use syncinerary.Gather.Intents.{
  SocialPlatform, SearchIntentType, places, QuerySpecificity, specific, normal, broad, SearchIntent,
  opening_sequence,
}
use syncinerary.Gather.SocialSearch.{
  StopReason, SocialSearchState, searches_used, is_available, is_buildable,
}
use syncinerary.Gather.SocialSearch.Choices.{
  first_given, intent_of, if_available, first_available, opening_intent, cold_start_intent,
  recovery_intent, lane_gap_intent, any_remaining_intent, available_platforms,
  platforms_by_priority, platform_leb,
}
use syncinerary.Gather.SocialSearch.Planner.{
  Decision, search, stop_for, search_or, reel_intent, is_covered, is_empty, early_stop,
  adaptive_decision, late_decision, decision_after, decide_next,
}
use syncinerary.Gather.SocialSearch.Availability.{
  Fresh, opening_intent-Fresh, cold_start_intent-Fresh, recovery_intent-Fresh,
  lane_gap_intent-Fresh, any_remaining_intent-Fresh, reel_intent-Fresh,
}

is_given-first_given {ℓ κ} :
    {A : Type ℓ} {B : Type κ} (f : A → Option B) (xs : List A)
    → is_given (first_given f xs) ≡ any_by (λ x. is_given (f x)) xs
unfolding first_given
is_given-first_given f [] = refl
is_given-first_given f (x ∷ xs) = elim (Option-cases (f x)) [
  | inl e ↦ rw e (is_given-first_given f xs)
  | inr (b, e) ↦ rw e refl
]

module _ (s : SocialSearchState) where
  is_given-if_available : (i : SearchIntent) → is_given (if_available s i) ≡ is_available s i
  unfolding if_available
  is_given-if_available i = ground arith

  is_available-is_buildable :
      (i j : SearchIntent) → is_available s i ≡ true → is_buildable s j ≡ true
  unfolding is_available is_buildable
  is_available-is_buildable i j h = ground (arith, h)

  -- On some platform the question can still be asked in this wording.
  abbrev is_askable : QuerySpecificity → SearchIntentType → Bool
  is_askable w t = any_by (λ p. is_available s (intent_of p t w)) s.platforms

  any_available-platforms :
      (order : Option SearchIntentType) (t : SearchIntentType) (w : QuerySpecificity)
      → any_by (λ p. is_available s (intent_of p t w)) (platforms_by_priority s order)
        ≡ is_askable w t
  unfolding platforms_by_priority available_platforms
  any_available-platforms order t w =
      any_by-sorted_by (platform_leb s order) (λ p. is_available s (intent_of p t w))
        (available_platforms s)
      ∙ any_by-filter_by (λ p. is_available s (intent_of p t w))
          (λ p. is_buildable s (intent_of p places specific)) s.platforms
          (λ p. is_available-is_buildable (intent_of p t w) (intent_of p places specific))

  first_available-is_askable :
      (t : SearchIntentType) → is_given (first_available s true t) ≡ is_askable specific t
  unfolding first_available
  first_available-is_askable t =
      is_given-first_given (λ p. if_available s (intent_of p t specific))
        (platforms_by_priority s (some t))
      ∙ any_by-cong _ (λ p. is_available s (intent_of p t specific))
          (platforms_by_priority s (some t)) (λ p. is_given-if_available (intent_of p t specific))
      ∙ any_available-platforms (some t) t specific

  any_remaining-is_askable :
      is_given (any_remaining_intent s) ≡ any_by (is_askable specific) opening_sequence
  unfolding any_remaining_intent
  any_remaining-is_askable =
      is_given-first_given (first_available s true) _
      ∙ any_by-cong _ (is_askable specific) _ first_available-is_askable
      ∙ any_by-sorted_by _ (is_askable specific) opening_sequence

  -- On this platform something is left for a cold start.
  abbrev is_cold_askable : SocialPlatform → Bool
  is_cold_askable p =
      any_by (λ t. any_by (λ w. is_available s (intent_of p t w)) (normal ∷ broad ∷ []))
        opening_sequence

  is_cold_askable-is_buildable :
      (p : SocialPlatform) (i : SearchIntent) → is_cold_askable p ≡ true → is_buildable s i ≡ true
  unfolding is_available is_buildable
  is_cold_askable-is_buildable p i h = ground (arith, h)

  cold_start-is_cold_askable : is_given (cold_start_intent s) ≡ any_by is_cold_askable s.platforms
  unfolding cold_start_intent platforms_by_priority available_platforms
  cold_start-is_cold_askable =
      is_given-first_given _ (platforms_by_priority s none)
      ∙ any_by-cong _ is_cold_askable (platforms_by_priority s none) (λ p.
        is_given-first_given
          (λ t. first_given (λ w. if_available s (intent_of p t w)) (normal ∷ broad ∷ []))
          opening_sequence
        ∙ any_by-cong _ _ opening_sequence (λ t.
          is_given-first_given (λ w. if_available s (intent_of p t w)) (normal ∷ broad ∷ [])
          ∙ any_by-cong _ (λ w. is_available s (intent_of p t w)) (normal ∷ broad ∷ [])
              (λ w. is_given-if_available (intent_of p t w))))
      ∙ any_by-sorted_by (platform_leb s none) is_cold_askable (available_platforms s)
      ∙ any_by-filter_by is_cold_askable (λ p. is_buildable s (intent_of p places specific))
          s.platforms (λ p. is_cold_askable-is_buildable p (intent_of p places specific))

  -- What each reason says of the state.
  pub Justified : StopReason → Type 0
  Justified StopReason.search_budget_reached = s.max_searches ≤ searches_used s
  Justified StopReason.verification_budget_reached = s.verification_exhausted ≡ true
  Justified StopReason.target_reached = is_covered s ≡ true
  Justified StopReason.provider_unavailable =
      s.max_consecutive_provider_errors ≤ s.consecutive_provider_errors
  Justified StopReason.low_yield =
      (s.max_consecutive_low_yield ≤ s.consecutive_low_yield_searches)
      ⊎ (s.max_consecutive_duplicate_heavy ≤ s.consecutive_duplicate_heavy_searches)
  Justified StopReason.no_search_actions_left =
      (any_by (is_askable specific) opening_sequence ≡ false)
      ⊎ ((s.discovered_places ≡ []) × (any_by is_cold_askable s.platforms ≡ false))

  is_empty-nil {ℓ} : {A : Type ℓ} (xs : List A) → is_empty xs ≡ true → xs ≡ []
  is_empty-nil [] h = refl
  is_empty-nil (x ∷ xs) h = absurd (ground (arith, h))

  -- What a search says of the state and of its intent.
  pub record MaySearch (i : SearchIntent) : Type 0 where
    pub available : is_available s i ≡ true
    pub in_budget : searches_used s < s.max_searches
    unverified : s.verification_exhausted ≡ false
    uncovered : is_covered s ≡ false
    reachable : s.consecutive_provider_errors < s.max_consecutive_provider_errors

  unfoldable pub Sound : Decision → Type 0
  Sound (search i) = MaySearch i
  Sound (stop_for reason) = Justified reason

  search_or-Sound :
      (o : Option SearchIntent) (d : Decision)
      → ((i : SearchIntent) → is_available s i ≡ true → MaySearch i)
      → Fresh s o
      → Sound d
      → Sound (search_or o d)
  unfolding Sound
  search_or-Sound none d may fresh sound = sound
  search_or-Sound (some i) d may fresh sound = may i fresh

  search_or_stop-Sound :
      (o : Option SearchIntent) (reason : StopReason)
      → ((i : SearchIntent) → is_available s i ≡ true → MaySearch i)
      → Fresh s o
      → (is_given o ≡ false → Justified reason)
      → Sound (search_or o (stop_for reason))
  unfolding Sound
  search_or_stop-Sound none reason may fresh left = left refl
  search_or_stop-Sound (some i) reason may fresh left = may i fresh

  early_stop-Sound : (reason : StopReason) → early_stop s ≡ some reason → Justified reason
  unfolding early_stop Justified
  early_stop-Sound StopReason.target_reached h = ground (arith, h)
  early_stop-Sound StopReason.search_budget_reached h = ground (arith, h)
  early_stop-Sound StopReason.low_yield h = ground (arith, h)
  early_stop-Sound StopReason.no_search_actions_left h = ground (arith, h)
  early_stop-Sound StopReason.provider_unavailable h = ground (arith, h)
  early_stop-Sound StopReason.verification_budget_reached h = ground (arith, h)

  early_stop-MaySearch :
      early_stop s ≡ none → (i : SearchIntent) → is_available s i ≡ true → MaySearch i
  unfolding early_stop
  early_stop-MaySearch h i available = record {
    available = available;
    in_budget = ground (arith, h);
    unverified = ground (arith, h);
    uncovered = ground (arith, h);
    reachable = ground (arith, h);
  }

  adaptive_decision-Sound :
      ((i : SearchIntent) → is_available s i ≡ true → MaySearch i) → Sound (adaptive_decision s)
  unfolding adaptive_decision Sound Justified
  adaptive_decision-Sound may =
      elim (Bool-cases (
        leb s.max_consecutive_low_yield s.consecutive_low_yield_searches
        || leb s.max_consecutive_duplicate_heavy s.consecutive_duplicate_heavy_searches)) [
          | inl dry ↦ rw dry (ground (arith, dry))
          | inr more ↦ rw more (
              search_or-Sound (recovery_intent s) _ may (recovery_intent-Fresh s) (
                search_or-Sound (lane_gap_intent s) _ may (lane_gap_intent-Fresh s) (
                  search_or_stop-Sound (any_remaining_intent s) StopReason.no_search_actions_left
                    may (any_remaining_intent-Fresh s)
                    (λ none_left. inl (sym any_remaining-is_askable ∙ none_left)))))
        ]

  late_decision-Sound :
      ((i : SearchIntent) → is_available s i ≡ true → MaySearch i) → Sound (late_decision s)
  unfolding late_decision Justified
  late_decision-Sound may =
      elim (Bool-cases
        (is_empty s.discovered_places && ltb (searches_used s) s.cold_start_max_searches)) [
          | inr later ↦ rw later (adaptive_decision-Sound may)
          | inl cold ↦ rw cold (
              search_or_stop-Sound (cold_start_intent s) StopReason.no_search_actions_left may
                (cold_start_intent-Fresh s)
                (λ none_left. inr (
                  is_empty-nil s.discovered_places (ground (arith, cold)),
                  sym cold_start-is_cold_askable ∙ none_left,
                )))
        ]

  -- Every decision is sound. A search is for an intent that is still available (a query exists for it,
  -- this wording has not run, and its question has attempts left), within the budget of searches, with
  -- verification left, the targets not reached and the provider not given up. A stop names a reason
  -- that is true of the state: for the lack of actions, that no platform has the first wording of any
  -- question left, or that nothing was found and no platform has a simpler wording left.
  pub decide_next-Sound : Sound (decide_next s)
  unfolding decide_next Sound
  decide_next-Sound = after (early_stop s) refl
    where
      after : (o : Option StopReason) → early_stop s ≡ o → Sound (decision_after s o)
      after (some reason) e = early_stop-Sound reason e
      after none e =
          let may = early_stop-MaySearch e in
          search_or-Sound (opening_intent s) _ may (opening_intent-Fresh s)
            (search_or-Sound (reel_intent s) _ may (reel_intent-Fresh s) (late_decision-Sound may))
