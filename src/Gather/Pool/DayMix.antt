-- ===== src/Gather/Pool/DayMix.antt =====
-- What `_mix_day_types` of syncinerary/agents/gather/live.py keeps of a cluster.
use mathlib.Core.List.Perm
use mathlib.Core.List.{Perm, append_assoc, perm_middle, perm_append_comm}
use syncinerary.Prelude.{
  ℕ, zero, suc, ◌-◌, ◌*◌, max, ◌≡◌, refl, ap, subst, List, [], ◌∷◌, ◌++◌, not, filter_by, length,
  take, drop,
}
use syncinerary.Prelude.Sorting.{split_by-perm}
use syncinerary.Transit.Request.{Maths}
use syncinerary.Gather.Pool.{
  is_food, food_per_day_target, pool_per_day, mixed, PoolCandidate, mix_day_types,
}

module _ {ℓ} {A : Type ℓ} where
  mixed-perm : (activities meals : List A) → Perm (mixed activities meals) (activities ++ meals)
  unfolding mixed
  mixed-perm [] [] = Perm.rfl
  mixed-perm [] (f ∷ meals) = Perm.cons f (mixed-perm [] meals)
  mixed-perm (a ∷ []) [] = Perm.rfl
  mixed-perm (a ∷ []) (f ∷ meals) = Perm.cons a (Perm.cons f (mixed-perm [] meals))
  mixed-perm (a ∷ b ∷ activities) [] = Perm.cons a (Perm.cons b (mixed-perm activities []))
  mixed-perm (a ∷ b ∷ activities) (f ∷ meals) = Perm.cons a (
      Perm.cons b (
        Perm.trans (Perm.cons f (mixed-perm activities meals))
          (Perm.symm (perm_middle activities meals))))

  take-length-take : (n : ℕ) (xs : List A) → take n xs ++ drop (length (take n xs)) xs ≡ xs
  take-length-take zero xs = refl
  take-length-take (suc n) [] = refl
  take-length-take (suc n) (x ∷ xs) = ap (λ l. x ∷ l) (take-length-take n xs)

  -- Two lists cut in two: the heads may stand before the tails.
  heads_first-perm : (hs ts ks us : List A) → Perm (hs ++ ks ++ ts ++ us) (hs ++ ts ++ (ks ++ us))
  heads_first-perm hs ts ks us =
      rw (append_assoc hs ks ts, append_assoc hs (ks ++ ts) us, append_assoc hs ts (ks ++ us))
        (Perm.append_left hs (
          subst (λ l. Perm (ks ++ ts ++ us) l) (append_assoc ts ks us)
            (Perm.append_right us (perm_append_comm ks ts))))

-- The mix of a cluster shows each of its candidates exactly once, for any number of days.
pub mix_day_types-perm :
    (m : Maths) (cluster : List (PoolCandidate m)) (days : ℕ)
    → Perm (mix_day_types m cluster days) cluster
unfolding mix_day_types
mix_day_types-perm m cluster days =
    let is_meal = λ (c : PoolCandidate m). is_food c.type in
    let sights = filter_by (λ c. not (is_meal c)) cluster in
    let meals = filter_by is_meal cluster in
    let n = food_per_day_target * max 1 days in
    let k = pool_per_day * max 1 days - length (take n meals) in
    let late_sights = drop (length (take k sights)) sights in
    let late_meals = drop (length (take n meals)) meals in
    Perm.trans
      (Perm.append_right late_meals
        (Perm.append_right late_sights (mixed-perm (take k sights) (take n meals))))
      (Perm.trans (heads_first-perm (take k sights) late_sights (take n meals) late_meals)
        (rw (take-length-take k sights, take-length-take n meals) (split_by-perm is_meal cluster)))
