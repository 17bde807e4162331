-- ===== src/Gather/Pool/Members.antt =====
-- Who is in the pool of syncinerary/agents/gather/live.py, and how large it is.
use mathlib.Core.List as L
use mathlib.Core.List.{Perm}
use mathlib.Core.List.Perm
use mathlib.Core.Bool.{Bool-set}
use syncinerary.Prelude.{
  ℕ, zero, suc, ◌≤◌, ◌≡◌, refl, sym, ap, ◌∙◌, List, [], ◌∷◌, ◌++◌, map, Bool, true, false, not,
  ◌||◌, any_by, any_by-append, filter_by, take, length, leb, ◌==◌, arith, Bool-cases, ◌⊎◌, inl, inr,
}
use syncinerary.Prelude.Sorting.{any_by-sorted_by}
use syncinerary.Transit.Request.{Maths}
use syncinerary.Gather.Pool.{
  min_stops_per_day, or_all, element_at, dealt_at, add_until, deal, days_per_cluster, PoolCandidate,
  is_near, holds, without, seed_of, clusters_from, dense_clusters, mix_day_types, chosen_clusters,
  filled, select_dense_pool,
}
use syncinerary.Gather.Pool.DayMix.{mix_day_types-perm}
use syncinerary.Gather.Pool.Clusters.{holds-round}
use syncinerary.Gather.Pool.Filling.{pool-length, pool-full}

or_left : (a b : Bool) → (a || b) ≡ false → a ≡ false
or_left a b h = ground (arith, h)

or_right : (a b : Bool) → (a || b) ≡ false → b ≡ false
or_right a b h = ground (arith, h)

or_none : {a b : Bool} → a ≡ false → b ≡ false → (a || b) ≡ false
or_none h k = rw (h, k) refl

module _ {ℓ} {A : Type ℓ} (p : A → Bool) where
  any_by-filter-none :
      (q : A → Bool) (xs : List A) → any_by p xs ≡ false → any_by p (filter_by q xs) ≡ false
  any_by-filter-none q [] h = refl
  any_by-filter-none q (x ∷ xs) h = ground (arith, h, any_by-filter-none q xs)

  any_by-take-none : (n : ℕ) (xs : List A) → any_by p xs ≡ false → any_by p (take n xs) ≡ false
  any_by-take-none zero xs h = refl
  any_by-take-none (suc n) [] h = refl
  any_by-take-none (suc n) (x ∷ xs) h = ground (arith, h, any_by-take-none n xs)

  any_by-or_all-none :
      (xs ys : List A) → any_by p xs ≡ false → any_by p ys ≡ false → any_by p (or_all xs ys) ≡ false
  any_by-or_all-none [] ys h k = k
  any_by-or_all-none (x ∷ xs) ys h k = h

  any_by-append-none :
      (xs ys : List A) → any_by p xs ≡ false → any_by p ys ≡ false → any_by p (xs ++ ys) ≡ false
  any_by-append-none xs ys h k = rw (any_by-append p xs ys, h, k) refl

  any_by-add_until-none :
      (limit : ℕ) (selected more : List A)
      → any_by p selected ≡ false
      → any_by p more ≡ false
      → any_by p (add_until limit selected more) ≡ false
  unfolding add_until
  any_by-add_until-none limit selected [] h k = h
  any_by-add_until-none limit selected (x ∷ more) h k =
      let grown : any_by p (selected ++ x ∷ []) ≡ false =
        any_by-append-none selected (x ∷ []) h (ground (arith, k)) in
      elim (Bool-cases (length (selected ++ x ∷ []) == limit)) [
        | inl e ↦ rw e grown
        | inr e ↦
            rw e (any_by-add_until-none limit (selected ++ x ∷ []) more grown (ground (arith, k)))
      ]

  any_by-element_at-none :
      (n : ℕ) (xs : List A) → any_by p xs ≡ false → any_by p (element_at n xs) ≡ false
  any_by-element_at-none n [] h = refl
  any_by-element_at-none zero (x ∷ xs) h = ground (arith, h)
  any_by-element_at-none (suc n) (x ∷ xs) h = any_by-element_at-none n xs (ground (arith, h))

  any_by-dealt_at-none :
      (offset : ℕ) (active : List (List A))
      → any_by (any_by p) active ≡ false
      → any_by p (dealt_at offset active) ≡ false
  unfolding dealt_at
  any_by-dealt_at-none offset [] h = refl
  any_by-dealt_at-none offset (cluster ∷ active) h =
      any_by-append-none (element_at offset cluster) (dealt_at offset active)
        (any_by-element_at-none offset cluster (ground (arith, h)))
        (any_by-dealt_at-none offset active (ground (arith, h)))

  any_by-deal-none :
      (fuel limit offset : ℕ) (active : List (List A)) (selected : List A)
      → any_by (any_by p) active ≡ false
      → any_by p selected ≡ false
      → any_by p (deal fuel limit offset active selected) ≡ false
  unfolding deal
  any_by-deal-none zero limit offset active selected h k = k
  any_by-deal-none (suc fuel) limit offset active selected h k =
      let dealt = dealt_at offset active in
      let next = add_until limit selected dealt in
      let next_none : any_by p next ≡ false =
        any_by-add_until-none limit selected dealt k (any_by-dealt_at-none offset active h) in
      elim (Bool-cases (length dealt == 0)) [
        | inl e ↦ rw e k
        | inr e ↦ rw e (elim (Bool-cases (leb limit (length next))) [
          | inl f ↦ rw f next_none
          | inr f ↦ rw f (any_by-deal-none fuel limit (suc offset) active next h next_none)
        ])
      ]

  any_by-foldr : (xs : List A) → any_by p xs ≡ L.foldr (λ x b. p x || b) false xs
  any_by-foldr [] = refl
  any_by-foldr (x ∷ xs) = ap (λ b. p x || b) (any_by-foldr xs)

  or_swap : (x y : A) (b : Bool) → (p x || (p y || b)) ≡ (p y || (p x || b))
  or_swap x y b = ground arith

  any_by-perm : {xs ys : List A} → Perm xs ys → any_by p xs ≡ any_by p ys
  any_by-perm {xs = xs} {ys = ys} q =
      any_by-foldr xs
      ∙ Perm.foldr-eq Bool-set (λ x b. p x || b) or_swap q false
      ∙ sym (any_by-foldr ys)

module _ (m : Maths) (i : ℕ) where
  abbrev is_in : PoolCandidate m → Bool
  is_in c = c.id == i

  clusters_from-none :
      (fuel : ℕ) (remaining : List (PoolCandidate m))
      → holds m remaining i ≡ false
      → any_by (any_by is_in) (clusters_from m fuel remaining) ≡ false
  unfolding clusters_from
  clusters_from-none fuel [] h = refl
  clusters_from-none zero (c ∷ rest) h = refl
  clusters_from-none (suc fuel) (c ∷ rest) h =
      let cluster = filter_by (is_near m (seed_of m c rest)) (c ∷ rest) in
      let left = without m cluster (c ∷ rest) in
      let both : (holds m cluster i || holds m left i) ≡ false =
        holds-round m (seed_of m c rest) (c ∷ rest) i ∙ h in
      or_none (or_left _ _ both) (clusters_from-none fuel left (or_right _ _ both))

  mixed_clusters-none :
      (days : ℕ) (clusters : List (List (PoolCandidate m)))
      → any_by (any_by is_in) clusters ≡ false
      → any_by (any_by is_in) (map (λ cluster. mix_day_types m cluster days) clusters) ≡ false
  mixed_clusters-none days [] h = refl
  mixed_clusters-none days (cluster ∷ clusters) h =
      or_none (any_by-perm is_in (mix_day_types-perm m cluster days) ∙ or_left _ _ h)
        (mixed_clusters-none days clusters (or_right _ _ h))

  chosen_clusters-none :
      (candidates : List (PoolCandidate m)) (days : ℕ)
      → holds m candidates i ≡ false
      → any_by (any_by is_in) (chosen_clusters m candidates days) ≡ false
  unfolding chosen_clusters dense_clusters
  chosen_clusters-none candidates days h =
      let clusters = dense_clusters m candidates in
      let long = λ (c : List (PoolCandidate m)). leb min_stops_per_day (length c) in
      let chosen = take days (or_all (filter_by long clusters) clusters) in
      let none_there : any_by (any_by is_in) clusters ≡ false =
        any_by-sorted_by _ (any_by is_in) (clusters_from m (length candidates) candidates)
        ∙ clusters_from-none (length candidates) candidates h in
      mixed_clusters-none (days_per_cluster days (length chosen)) chosen (
        any_by-take-none (any_by is_in) days (or_all (filter_by long clusters) clusters) (
          any_by-or_all-none (any_by is_in) (filter_by long clusters) clusters
            (any_by-filter-none (any_by is_in) long clusters none_there) none_there))

  filled-none :
      (limit : ℕ) (selected candidates : List (PoolCandidate m))
      → holds m selected i ≡ false
      → holds m candidates i ≡ false
      → holds m (filled m limit selected candidates) i ≡ false
  unfolding filled
  filled-none limit selected candidates h k = elim (Bool-cases (leb limit (length selected))) [
    | inl e ↦ rw e h
    | inr e ↦ rw e (
        any_by-add_until-none is_in limit selected (without m selected candidates) h
          (any_by-filter-none is_in (λ c. not (holds m selected c.id)) candidates k))
  ]

module _ (m : Maths) (i : ℕ) where
  pool-none :
      (candidates : List (PoolCandidate m)) (days limit : ℕ)
      → holds m candidates i ≡ false
      → holds m (select_dense_pool m candidates days limit) i ≡ false
  unfolding select_dense_pool
  pool-none candidates days limit h = elim (Bool-cases (leb days 0 || leb limit 0)) [
    | inl e ↦ rw e refl
    | inr e ↦ rw e (
        filled-none m i limit (deal limit limit 0 (chosen_clusters m candidates days) []) candidates
          (any_by-deal-none (is_in m i) limit limit 0 (chosen_clusters m candidates days) []
            (chosen_clusters-none m i candidates days h) refl)
          h)
  ]

-- With at least one day and a positive limit, the pool keeps to its limit, has no one but candidates,
-- and a candidate is missing only where the limit is reached: below it, a place is in the pool exactly
-- when it is among the candidates.
pub select_dense_pool-fills :
    (m : Maths) (candidates : List (PoolCandidate m)) (days limit i : ℕ)
    → 1 ≤ days
    → 1 ≤ limit
    → let pool = select_dense_pool m candidates days limit in
      (length pool ≤ limit)
      × (((not (holds m pool i) || holds m candidates i) ≡ true)
          × ((length pool ≡ limit) ⊎ (holds m pool i ≡ holds m candidates i)))
select_dense_pool-fills m candidates days limit i h k =
    let pool = select_dense_pool m candidates days limit in
    let bound : length pool ≤ limit = pool-length m candidates days limit in
    elim (Bool-cases (holds m candidates i)) [
      | inl e ↦
          let full_or_there : (length pool ≡ limit) ⊎ (holds m pool i ≡ holds m candidates i) =
            elim (pool-full m candidates days limit i h k e) [
              | inl full ↦ inl full
              | inr there ↦ inr (there ∙ sym e)
            ] in
          (bound, (rw e (ground arith), full_or_there))
      | inr e ↦
          let absent = pool-none m i candidates days limit e in
          (bound, (rw (e, absent) refl, inr (absent ∙ sym e)))
    ]
