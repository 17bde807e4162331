-- ===== src/Gather/Pool/Clusters.antt =====
-- Which candidates the dense clusters of syncinerary/agents/gather/live.py hold.
use syncinerary.Prelude.{
  ℕ, zero, suc, ◌≤◌, ◌<◌, ◌≡◌, refl, sym, ap, ◌∙◌, subst, List, [], ◌∷◌, Bool, true, not, ◌||◌,
  ◌&&◌, any_by, filter_by, count_by, length, ltb, ◌==◌, ==_iff, if◌then◌else◌, arith, Bool-cases,
  inl, inr,
}
use syncinerary.Prelude.Sorting.{any_by-sorted_by}
use syncinerary.Transit.Request.{Maths}
use syncinerary.Gather.Pool.{
  first_max, PoolCandidate, is_near, holds, without, seed_of, clusters_from, dense_clusters,
}
use syncinerary.Gather.Pool.Filling.{holds-without}

module _ {ℓ} {A : Type ℓ} where
  -- The greatest element is one of them: what holds of it holds of some element.
  any_by-first_max :
      (p : A → Bool) (key : A → ℕ) (x : A) (ys : List A)
      → p (first_max key x ys) ≡ true
      → any_by p (x ∷ ys) ≡ true
  any_by-first_max p key x [] h = ground (arith, h)
  any_by-first_max p key x (y ∷ ys) h = elim (Bool-cases (ltb (key x) (key y))) [
    | inl e ↦ ground (
      arith,
      any_by-first_max p key y ys
          (subst (λ b. p (if b then first_max key y ys else first_max key x ys) ≡ true) e h),
    )
    | inr e ↦ ground (
      arith,
      any_by-first_max p key x ys
          (subst (λ b. p (if b then first_max key y ys else first_max key x ys) ≡ true) e h),
    )
  ]

  any_by-filter_both :
      (p q : A → Bool) (xs : List A) → any_by p (filter_by q xs) ≡ any_by (λ x. p x && q x) xs
  any_by-filter_both p q [] = refl
  any_by-filter_both p q (x ∷ xs) = ground (arith, any_by-filter_both p q xs)

  any_by-weaken :
      (p q : A → Bool) (xs : List A) → any_by (λ x. p x && q x) xs ≡ true → any_by p xs ≡ true
  any_by-weaken p q [] h = absurd (ground (arith, h))
  any_by-weaken p q (x ∷ xs) h = ground (arith, h, any_by-weaken p q xs)

  length-filter_by-le : (q : A → Bool) (xs : List A) → length (filter_by q xs) ≤ length xs
  length-filter_by-le q [] = omega arith
  length-filter_by-le q (x ∷ xs) = ground (arith, length-filter_by-le q xs)

  -- A filter that drops something is shorter.
  length-filter_by-lt :
      (q : A → Bool) (xs : List A)
      → any_by (λ x. not (q x)) xs ≡ true
      → length (filter_by q xs) < length xs
  length-filter_by-lt q [] h = absurd (ground (arith, h))
  length-filter_by-lt q (x ∷ xs) h = elim (Bool-cases (q x)) [
    | inl e ↦ rw e (ground (arith, h, e, length-filter_by-lt q xs))
    | inr e ↦ rw e (ground (arith, length-filter_by-le q xs))
  ]

module _ (m : Maths) where
  abbrev near_to : PoolCandidate m → List (PoolCandidate m) → List (PoolCandidate m)
  near_to seed remaining = filter_by (is_near m seed) remaining

  any_by-seed_of :
      (p : PoolCandidate m → Bool) (c : PoolCandidate m) (rest : List (PoolCandidate m))
      → p (seed_of m c rest) ≡ true
      → any_by p (c ∷ rest) ≡ true
  unfolding seed_of
  any_by-seed_of p c rest h =
      any_by-first_max p (λ x. count_by (λ other. is_near m x other) (c ∷ rest)) c rest h

  -- One round of the loop, for any seed: whoever is left or in the cluster was there.
  pub holds-round :
      (seed : PoolCandidate m) (remaining : List (PoolCandidate m)) (i : ℕ)
      → (holds m (near_to seed remaining) i
          || holds m (without m (near_to seed remaining) remaining) i)
        ≡ holds m remaining i
  holds-round seed remaining i = elim (Bool-cases (holds m (near_to seed remaining) i)) [
    | inl e ↦ rw e (
        sym (
          any_by-weaken (λ c. c.id == i) (is_near m seed) remaining
            (sym (any_by-filter_both (λ c. c.id == i) (is_near m seed) remaining) ∙ e)))
    | inr e ↦ rw e (holds-without m (near_to seed remaining) remaining i e)
  ]

module _ (m : Maths) (near_itself : (c : PoolCandidate m) → is_near m c c ≡ true) where
  is_itself : (c : PoolCandidate m) → ((c.id == c.id) && is_near m c c) ≡ true
  is_itself c = rw (near_itself c, (==_iff c.id c.id).1 refl) refl

  -- The seed is in its own cluster.
  holds-near_to :
      (c : PoolCandidate m) (rest : List (PoolCandidate m))
      → holds m (near_to m (seed_of m c rest) (c ∷ rest)) (seed_of m c rest).id ≡ true
  holds-near_to c rest =
      let seed = seed_of m c rest in
      any_by-filter_both (λ d. d.id == seed.id) (is_near m seed) (c ∷ rest)
      ∙ any_by-seed_of m (λ d. (d.id == seed.id) && is_near m seed d) c rest (is_itself seed)

  without-shorter :
      (c : PoolCandidate m) (rest : List (PoolCandidate m))
      → length (without m (near_to m (seed_of m c rest) (c ∷ rest)) (c ∷ rest)) < length (c ∷ rest)
  without-shorter c rest =
      let cluster = near_to m (seed_of m c rest) (c ∷ rest) in
      length-filter_by-lt (λ d. not (holds m cluster d.id)) (c ∷ rest)
        (any_by-seed_of m (λ d. not (not (holds m cluster d.id))) c rest
          (rw (holds-near_to c rest) refl))

  clusters_from-covers :
      (fuel : ℕ) (remaining : List (PoolCandidate m)) (i : ℕ)
      → length remaining ≤ fuel
      → any_by (λ cluster. holds m cluster i) (clusters_from m fuel remaining) ≡ holds m remaining i
  unfolding clusters_from
  clusters_from-covers fuel [] i h = refl
  clusters_from-covers zero (c ∷ rest) i h = absurd (omega (arith, h))
  clusters_from-covers (suc fuel) (c ∷ rest) i h =
      let cluster = near_to m (seed_of m c rest) (c ∷ rest) in
      ap (λ b. holds m cluster i || b)
        (clusters_from-covers fuel (without m cluster (c ∷ rest)) i
          (omega (arith, h, without-shorter c rest)))
      ∙ holds-round m (seed_of m c rest) (c ∷ rest) i

-- Every candidate is in a cluster, and a cluster has no one else: where a place is within the radius
-- of itself, so that the loop ends.
pub dense_clusters-covers :
    (m : Maths) (near_itself : (c : PoolCandidate m) → is_near m c c ≡ true)
    (candidates : List (PoolCandidate m)) (i : ℕ)
    → any_by (λ cluster. holds m cluster i) (dense_clusters m candidates) ≡ holds m candidates i
unfolding dense_clusters
dense_clusters-covers m near_itself candidates i =
    any_by-sorted_by _ (λ cluster. holds m cluster i)
      (clusters_from m (length candidates) candidates)
    ∙ clusters_from-covers m near_itself (length candidates) candidates i (omega arith)
