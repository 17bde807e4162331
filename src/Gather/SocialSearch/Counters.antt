-- ===== src/Gather/SocialSearch/Counters.antt =====
-- What update_search_state of syncinerary/agents/gather/social_search.py keeps true of the counters and
-- of the history.
use syncinerary.Prelude.{
  ◌+◌, ◌≤◌, ◌<◌, ◌≡◌, refl, ◌∙◌, String, List, [], ◌∷◌, ◌++◌, Bool, true, false, ◌&&◌, any_by,
  any_by-append, count_by, count_by-append, length-append, arith, Bool-cases, inl, inr,
}
use syncinerary.Gather.Intents.{
  SocialPlatform, instagram, tiktok, rednote, SearchIntentType, places, food, hidden_gems,
  SearchIntent, same_platform, same_type, same_specificity, same_question,
}
use syncinerary.Gather.SocialSearch.{
  SearchOutcome, SearchAction, SocialSearchState, searches_used, attempts_for, has_run, entered,
  update_search_state, yield_type, is_available, is_provider_error, is_duplicate_heavy,
}

same_platform-eq : (p q : SocialPlatform) → same_platform p q ≡ true → p ≡ q
same_platform-eq instagram instagram h = refl
same_platform-eq tiktok tiktok h = refl
same_platform-eq rednote rednote h = refl
same_platform-eq instagram tiktok h = absurd (ground (arith, h))
same_platform-eq instagram rednote h = absurd (ground (arith, h))
same_platform-eq tiktok instagram h = absurd (ground (arith, h))
same_platform-eq tiktok rednote h = absurd (ground (arith, h))
same_platform-eq rednote instagram h = absurd (ground (arith, h))
same_platform-eq rednote tiktok h = absurd (ground (arith, h))

same_type-eq : (t u : SearchIntentType) → same_type t u ≡ true → t ≡ u
same_type-eq places places h = refl
same_type-eq food food h = refl
same_type-eq hidden_gems hidden_gems h = refl
same_type-eq places food h = absurd (ground (arith, h))
same_type-eq places hidden_gems h = absurd (ground (arith, h))
same_type-eq food places h = absurd (ground (arith, h))
same_type-eq food hidden_gems h = absurd (ground (arith, h))
same_type-eq hidden_gems places h = absurd (ground (arith, h))
same_type-eq hidden_gems food h = absurd (ground (arith, h))

-- The action asked this question.
abbrev pub asks : SocialPlatform → SearchIntentType → SearchAction → Bool
asks p t a = same_platform a.intent.platform p && same_type a.intent.intent_type t

abbrev same_wording : SearchIntent → SearchIntent → Bool
same_wording i j = same_question i j && same_specificity i.specificity j.specificity

-- No later action has the wording of this one, and so on.
abbrev NoRepeats : List SearchAction → Type 0
NoRepeats [] = Unit
NoRepeats (a ∷ actions) =
    (any_by (λ b. same_wording a.intent b.intent) actions ≡ false) × NoRepeats actions

NoRepeats-append :
    (actions : List SearchAction) (b : SearchAction)
    → NoRepeats actions
    → any_by (λ a. same_wording a.intent b.intent) actions ≡ false
    → NoRepeats (actions ++ b ∷ [])
NoRepeats-append [] b h new = (refl, tt)
NoRepeats-append (a ∷ actions) b h new = (
  any_by-append (λ c. same_wording a.intent c.intent) actions (b ∷ []) ∙ ground (arith, h.0, new),
  NoRepeats-append actions b h.1 (ground (arith, new)),
)

-- The invariant of the state.
pub record Consistent (s : SocialSearchState) : Type 0 where
  pub attempts_counted :
      (p : SocialPlatform) (t : SearchIntentType)
      → s.attempts_by_intent p t ≡ count_by (asks p t) s.searched_queries
  pub attempts_capped :
      (p : SocialPlatform) (t : SearchIntentType)
      → s.attempts_by_intent p t ≤ s.max_attempts_per_intent
  pub no_repeats : NoRepeats s.searched_queries
  pub duplicates_in_zero :
      s.consecutive_duplicate_heavy_searches ≤ s.consecutive_zero_yield_searches
  pub zero_in_low : s.consecutive_zero_yield_searches ≤ s.consecutive_low_yield_searches
  pub low_in_used : s.consecutive_low_yield_searches ≤ searches_used s
  pub errors_in_used : s.consecutive_provider_errors ≤ searches_used s

module _ (i : SearchIntent) (query : String) (o : SearchOutcome) (s : SocialSearchState) where
  entered-counted_at :
      (p : SocialPlatform) (t : SearchIntentType)
      → s.attempts_by_intent p t ≡ count_by (asks p t) s.searched_queries
      → (entered i query o s).attempts_by_intent p t
        ≡ count_by (asks p t) (entered i query o s).searched_queries
  entered-counted_at p t h = ground (
    arith,
    h,
    count_by-append (asks p t) s.searched_queries
        (record { intent = i; query = query; outcome = o } ∷ []),
  )

  entered-capped :
      (p : SocialPlatform) (t : SearchIntentType)
      → attempts_for s i < s.max_attempts_per_intent
      → s.attempts_by_intent p t ≤ s.max_attempts_per_intent
      → (entered i query o s).attempts_by_intent p t ≤ s.max_attempts_per_intent
  entered-capped p t free h =
      elim (Bool-cases (same_platform i.platform p && same_type i.intent_type t)) [
        | inl same ↦
            let ps : i.platform ≡ p = same_platform-eq i.platform p (ground (arith, same)) in
            let ts : i.intent_type ≡ t = same_type-eq i.intent_type t (ground (arith, same)) in
            rw same (
              let at : s.attempts_by_intent p t < s.max_attempts_per_intent =
                rw (← ps, ← ts) free in
              omega (arith, at))
        | inr other ↦ rw other h
      ]

  -- The stages of an outcome: only a search that found nothing new is heavy with duplicates.
  duplicate_heavy-zero : is_duplicate_heavy (yield_type o) ≡ true → o.new_unique_places_count ≡ 0
  unfolding yield_type
  duplicate_heavy-zero h = ground (arith, h)

  entered-used : searches_used (entered i query o s) ≡ searches_used s + 1
  entered-used =
      length-append s.searched_queries (record { intent = i; query = query; outcome = o } ∷ [])

  entered-NoRepeats :
      NoRepeats s.searched_queries
      → is_available s i ≡ true
      → NoRepeats (entered i query o s).searched_queries
  unfolding is_available has_run
  entered-NoRepeats h available =
      NoRepeats-append s.searched_queries (record { intent = i; query = query; outcome = o }) h
        (ground (arith, available))

  below_cap : is_available s i ≡ true → attempts_for s i < s.max_attempts_per_intent
  unfolding is_available
  below_cap available = ground (arith, available)

  -- The invariant is kept by every search for an available intent, whatever its outcome.
  pub update_search_state-Consistent :
      Consistent s → is_available s i ≡ true → Consistent (update_search_state i query o s)
  unfolding update_search_state
  update_search_state-Consistent c available =
      let used = entered-used in
      let attempts = λ (p : SocialPlatform) (t : SearchIntentType).
        entered-counted_at p t (c.attempts_counted p t) in
      let capped = λ (p : SocialPlatform) (t : SearchIntentType).
        entered-capped p t (below_cap available) (c.attempts_capped p t) in
      let distinct = entered-NoRepeats c.no_repeats available in
      elim (Bool-cases (is_provider_error (yield_type o))) [
        | inl failed ↦ rw failed (record {
          attempts_counted = attempts;
          attempts_capped = capped;
          no_repeats = distinct;
          duplicates_in_zero = c.duplicates_in_zero;
          zero_in_low = c.zero_in_low;
          low_in_used = omega (arith, used, c.low_in_used);
          errors_in_used = omega (arith, used, c.errors_in_used);
        })
        | inr answered ↦ rw answered (record {
          attempts_counted = attempts;
          attempts_capped = capped;
          no_repeats = distinct;
          duplicates_in_zero = ground (arith, c.duplicates_in_zero, duplicate_heavy-zero);
          zero_in_low = ground (arith, c.zero_in_low);
          low_in_used = ground (arith, used, c.low_in_used);
          errors_in_used = omega arith;
        })
      ]

  -- Every search counts, under an unchanged budget.
  pub update_search_state-used :
      let after = update_search_state i query o s in
      (searches_used after ≡ searches_used s + 1) × (after.max_searches ≡ s.max_searches)
  unfolding update_search_state
  update_search_state-used = elim (Bool-cases (is_provider_error (yield_type o))) [
    | inl failed ↦ rw failed (entered-used, refl)
    | inr answered ↦ rw answered (entered-used, refl)
  ]
