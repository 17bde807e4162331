-- ===== src/Gather/Pool/Filling.antt =====
-- How far `select_dense_pool` of syncinerary/agents/gather/live.py fills the pool.
use mathlib.Core.List.{append_assoc, append-nil}
use syncinerary.Prelude.{
  ℕ, zero, suc, ◌+◌, ◌≤◌, ◌<◌, ◌≡◌, refl, sym, ap, ◌∙◌, subst, List, [], ◌∷◌, ◌++◌, true, false,
  not, ◌||◌, any_by-filter_by, any_by-append, length, length-append, leb, ◌==◌, ==_iff,
  if◌then◌else◌, arith, Bool-cases, ◌⊎◌, inl, inr,
}
use syncinerary.Transit.Request.{Maths}
use syncinerary.Gather.Pool.{
  dealt_at, add_until, deal, PoolCandidate, holds, chosen_clusters, filled, without,
  select_dense_pool,
}

module _ {ℓ} {A : Type ℓ} where
  length_snoc : (xs : List A) (x : A) → length (xs ++ x ∷ []) ≡ suc (length xs)
  length_snoc xs x = length-append xs (x ∷ []) ∙ omega arith

  add_until-length :
      (limit : ℕ) (selected more : List A)
      → length selected < limit
      → length (add_until limit selected more) ≤ limit
  unfolding add_until
  add_until-length limit selected [] h = omega (arith, h)
  add_until-length limit selected (x ∷ more) h =
      elim (Bool-cases (length (selected ++ x ∷ []) == limit)) [
        | inl e ↦ rw e ground (arith, e)
        | inr e ↦ rw e (
            add_until-length limit (selected ++ x ∷ []) more
              (ground (arith, e, h, length_snoc selected x)))
      ]

  -- Below the limit nothing was left out.
  add_until-all :
      (limit : ℕ) (selected more : List A)
      → length (add_until limit selected more) < limit
      → add_until limit selected more ≡ selected ++ more
  unfolding add_until
  add_until-all limit selected [] h = sym (append-nil selected)
  add_until-all limit selected (x ∷ more) h =
      elim (Bool-cases (length (selected ++ x ∷ []) == limit)) [
        | inl e ↦ absurd (ground (arith, h, e))
        | inr e ↦ rw e (
            add_until-all limit (selected ++ x ∷ []) more (
              subst
                (λ b.
                  length
                    (if b then selected ++ x ∷ [] else add_until limit (selected ++ x ∷ []) more)
                  < limit)
                e h)
            ∙ append_assoc selected (x ∷ []) more)
      ]

  -- A round more changes nothing when the rounds are as many as what is missing.
  deal-enough :
      (fuel limit offset : ℕ) (active : List (List A)) (selected : List A)
      → length selected < limit
      → limit ≤ length selected + fuel
      → deal (suc fuel) limit offset active selected ≡ deal fuel limit offset active selected
  unfolding deal
  deal-enough zero limit offset active selected h k = absurd (omega (arith, h, k))
  deal-enough (suc fuel) limit offset active selected h k =
      let dealt = dealt_at offset active in
      let next = add_until limit selected dealt in
      elim (Bool-cases (length dealt == 0)) [
        | inl e ↦ rw e refl
        | inr e ↦ rw e (elim (Bool-cases (leb limit (length next))) [
          | inl f ↦ rw f refl
          | inr f ↦
              let grown =
                ap length (add_until-all limit selected dealt (ground (arith, f)))
                ∙ length-append selected dealt in
              rw f (
                deal-enough fuel limit (suc offset) active next (ground (arith, f))
                  (ground (arith, e, k, grown)))
        ])
      ]

  deal-length :
      (fuel limit offset : ℕ) (active : List (List A)) (selected : List A)
      → length selected < limit
      → length (deal fuel limit offset active selected) ≤ limit
  unfolding deal
  deal-length zero limit offset active selected h = omega (arith, h)
  deal-length (suc fuel) limit offset active selected h =
      let dealt = dealt_at offset active in
      let next = add_until limit selected dealt in
      elim (Bool-cases (length dealt == 0)) [
        | inl e ↦ rw e (omega (arith, h))
        | inr e ↦ rw e (elim (Bool-cases (leb limit (length next))) [
          | inl f ↦ rw f (add_until-length limit selected dealt h)
          | inr f ↦ rw f (deal-length fuel limit (suc offset) active next (ground (arith, f)))
        ])
      ]

module _ (m : Maths) where
  -- Who is not in the pool yet is among those that are added.
  filled-length :
      (limit : ℕ) (selected candidates : List (PoolCandidate m))
      → length selected ≤ limit
      → length (filled m limit selected candidates) ≤ limit
  unfolding filled
  filled-length limit selected candidates h = elim (Bool-cases (leb limit (length selected))) [
    | inl e ↦ rw e (omega (arith, h))
    | inr e ↦ rw e (add_until-length limit selected _ (ground (arith, e)))
  ]

  -- Who is not there yet is among the rest.
  pub holds-without :
      (selected candidates : List (PoolCandidate m)) (i : ℕ)
      → holds m selected i ≡ false
      → holds m (without m selected candidates) i ≡ holds m candidates i
  holds-without selected candidates i h =
      any_by-filter_by (λ c. c.id == i) (λ c. not (holds m selected c.id)) candidates
        (λ c e. rw ((==_iff c.id i).0 e, h) refl)

  holds-append-without :
      (selected candidates : List (PoolCandidate m)) (i : ℕ)
      → holds m candidates i ≡ true
      → holds m (selected ++ without m selected candidates) i ≡ true
  holds-append-without selected candidates i held = elim (Bool-cases (holds m selected i)) [
    | inl e ↦ rw (any_by-append (λ c. c.id == i) selected (without m selected candidates), e) refl
    | inr e ↦
        rw
          (
            any_by-append (λ c. c.id == i) selected (without m selected candidates),
            e,
            holds-without selected candidates i e,
          )
          held
  ]

  -- Below the limit every candidate got in.
  holds-filled :
      (limit : ℕ) (selected candidates : List (PoolCandidate m)) (i : ℕ)
      → length (filled m limit selected candidates) < limit
      → holds m candidates i ≡ true
      → holds m (filled m limit selected candidates) i ≡ true
  unfolding filled
  holds-filled limit selected candidates i h held =
      let more = without m selected candidates in
      let added = add_until limit selected more in
      elim (Bool-cases (leb limit (length selected))) [
        | inl e ↦
            absurd
              (ground (arith, e, subst (λ b. length (if b then selected else added) < limit) e h))
        | inr e ↦
            rw
              (
                e,
                add_until-all limit selected more
                    (subst (λ b. length (if b then selected else added) < limit) e h),
              )
              (holds-append-without selected candidates i held)
      ]

module _ (m : Maths) where
  pub pool-length :
      (candidates : List (PoolCandidate m)) (days limit : ℕ)
      → length (select_dense_pool m candidates days limit) ≤ limit
  unfolding select_dense_pool
  pool-length candidates days limit = elim (Bool-cases (leb days 0 || leb limit 0)) [
    | inl e ↦ rw e (omega arith)
    | inr e ↦ rw e (
        filled-length m limit (deal limit limit 0 (chosen_clusters m candidates days) []) candidates
          (deal-length limit limit 0 (chosen_clusters m candidates days) [] (ground (arith, e))))
  ]

  pool-holds :
      (candidates : List (PoolCandidate m)) (days limit i : ℕ)
      → 1 ≤ days
      → 1 ≤ limit
      → length (select_dense_pool m candidates days limit) < limit
      → holds m candidates i ≡ true
      → holds m (select_dense_pool m candidates days limit) i ≡ true
  unfolding select_dense_pool
  pool-holds candidates days limit i h k short held =
      let dealt = deal limit limit 0 (chosen_clusters m candidates days) [] in
      let positive : (leb days 0 || leb limit 0) ≡ false = ground (arith, h, k) in
      rw positive (
        holds-filled m limit dealt candidates i
          (subst (λ b. length (if b then [] else filled m limit dealt candidates) < limit) positive
            short)
          held)

  pub pool-full :
      (candidates : List (PoolCandidate m)) (days limit i : ℕ)
      → 1 ≤ days
      → 1 ≤ limit
      → holds m candidates i ≡ true
      → (length (select_dense_pool m candidates days limit) ≡ limit)
        ⊎ (holds m (select_dense_pool m candidates days limit) i ≡ true)
  pool-full candidates days limit i h k held =
      let bound = pool-length candidates days limit in
      let pool = select_dense_pool m candidates days limit in
      elim (Bool-cases (leb limit (length pool))) [
        | inl e ↦ inl (ground (arith, e, bound))
        | inr e ↦ inr (pool-holds candidates days limit i h k (ground (arith, e)) held)
      ]
