-- ===== src/Trips/CityPlan/Shares.antt =====
-- The shares that syncinerary/domain/city_plan.py suggests.
use syncinerary.Prelude.{
  ℕ, zero, suc, ◌+◌, ◌/◌, ◌%◌, ◌≤◌, ◌<◌, ◌≡◌, ◌↔◌, ◌∙◌, refl, ap, String, List, [], ◌∷◌, Option,
  none, some, ◌||◌, Outcome, return, raise, length, take, replicate, sum, count, range_from, get_or,
  ltb, true, false, inl, inr, Bool-cases, lt→ltb, arith, length-take, length-replicate,
  get_or-replicate, sum-replicate, count-take-le,
}
use native.Mathlib.Nat.{div-add-mod, mod-lt}
use syncinerary.Trips.CityPlan.{
  CityPlanError, too_few_days, hand_out, validate_city_plan, mismatched, share_order, bump_all,
  suggested_city_days,
}
use syncinerary.Trips.CityPlan.Order.{
  AllBelow, AllBelow-take, get_or-bump_all, length-bump_all, remove-range, share_order-IsOrderOf,
  share_order-head, sum-bump_all,
}

abbrev pub PriorityFits : ℕ → Option ℕ → Type 0
PriorityFits n none = Unit
PriorityFits n (some p) = p < n

-- A priority city has as many days as any other.
abbrev pub PriorityLeads : List ℕ → Option ℕ → Type 0
PriorityLeads result none = Unit
PriorityLeads result (some p) = (i : ℕ) → i < length result → get_or result i 0 ≤ get_or result p 0

-- What a suggestion is made of.
record Shares (days n : ℕ) (priority : Option ℕ) (result : List ℕ) : Type 0 where
  pos : 1 ≤ n
  fits : n ≤ days
  order : List ℕ
  ordered : share_order n priority ≡ return order
  made : result ≡ bump_all (replicate n (days / n)) (take (days % n) order)

hand_out-Shares :
    (days n : ℕ) (priority : Option ℕ) (result : List ℕ) (o : Outcome CityPlanError (List ℕ))
    → (ltb n 1 || ltb days n) ≡ false
    → share_order n priority ≡ o
    → hand_out days n o ≡ return result
    → Shares days n priority result
hand_out-Shares days n priority result (return order) room ordered h = record {
  pos = ground arith;
  fits = ground arith;
  order = order;
  ordered = ordered;
  made = cc;
}
hand_out-Shares days n priority result (raise e) room ordered h = cc

suggested-Shares :
    (days n : ℕ) (priority : Option ℕ) (result : List ℕ)
    → suggested_city_days days n priority ≡ return result
    → Shares days n priority result
unfolding suggested_city_days
suggested-Shares days n priority result h = elim (Bool-cases (ltb n 1 || ltb days n)) [
  | inl small ↦ let bad : raise too_few_days ≡ return result = rw small at h in cc
  | inr room ↦
      hand_out-Shares days n priority result (share_order n priority) room refl (rw room at h)
]

module _ (days n : ℕ) (priority : Option ℕ) (result : List ℕ)
    (s : Shares days n priority result) where
  entry : (i : ℕ) → i < n → get_or result i 0 ≡ days / n + count i (take (days % n) s.order)
  entry i h = rw s.made (
      get_or-bump_all (replicate n (days / n)) (take (days % n) s.order) i
        (omega (arith, length-replicate n (days / n)))
      ∙ ap (λ k. k + count i (take (days % n) s.order)) (get_or-replicate n i (days / n) 0 h))

  once : (i : ℕ) → count i (take (days % n) s.order) ≤ 1
  once i = omega (
    arith,
    count-take-le i (days % n) s.order,
    (share_order-IsOrderOf n priority s.order s.ordered).once i,
  )

  total : sum result ≡ days
  total =
      let o = share_order-IsOrderOf n priority s.order s.ordered in
      let size = length-replicate n (days / n) in
      let below : AllBelow (length (replicate n (days / n))) (take (days % n) s.order) =
        rw size (AllBelow-take n (days % n) s.order o.below) in
      rw s.made (sum-bump_all (replicate n (days / n)) (take (days % n) s.order) below ∙ spent)
    where
      spent : sum (replicate n (days / n)) + length (take (days % n) s.order) ≡ days
      spent = omega (
        arith,
        sum-replicate n (days / n),
        length-take (days % n) s.order,
        o_all,
        div-add-mod days n,
        mod-lt days s.pos,
      )
        where
          o_all : length s.order ≡ n
          o_all = (share_order-IsOrderOf n priority s.order s.ordered).all

  size : length result ≡ n
  size = rw s.made (
      length-bump_all (replicate n (days / n)) (take (days % n) s.order)
      ∙ length-replicate n (days / n))

lead_count :
    (r p i : ℕ) (rest : List ℕ)
    → count i (take r (p ∷ rest)) ≤ 1
    → count i (take r (p ∷ rest)) ≤ count p (take r (p ∷ rest))
lead_count zero p i rest h = omega arith
lead_count (suc r) p i rest h = ground arith

leads :
    (days n : ℕ) (priority : Option ℕ) (result : List ℕ)
    → Shares days n priority result
    → PriorityLeads result priority
leads days n none result s = tt
leads days n (some p) result s = λ i h.
    let (rest, head, fits) = share_order-head n p s.order s.ordered in
    let below : i < n = omega (arith, size days n (some p) result s) in
    let few : count i (take (days % n) (p ∷ rest)) ≤ 1 =
      rw head at (once days n (some p) result s i) in
    let order_p = entry days n (some p) result s p fits in
    let order_i = entry days n (some p) result s i below in
    let more : count i (take (days % n) s.order) ≤ count p (take (days % n) s.order) =
      rw head (lead_count (days % n) p i rest few) in
    omega arith

-- A suggestion has one entry for each city, they add up to the trip's days, each is the whole
-- share or one day more, and no city has more days than the main city.
pub suggested_city_days-shares :
    (days n : ℕ) (priority : Option ℕ) (result : List ℕ)
    → suggested_city_days days n priority ≡ return result
    → (length result ≡ n)
      × (sum result ≡ days)
      × ((i : ℕ) → i < n → (days / n ≤ get_or result i 0) × (get_or result i 0 ≤ days / n + 1))
      × PriorityLeads result priority
suggested_city_days-shares days n priority result h =
    let s = suggested-Shares days n priority result h in
    (
      size days n priority result s,
      total days n priority result s,
      λ i below.
          let e = entry days n priority result s i below in
          let o = once days n priority result s i in (omega arith, omega arith),
      leads days n priority result s,
    )

share_order-total :
    (n : ℕ) (priority : Option ℕ)
    → PriorityFits n priority
    → (order : List ℕ) × (share_order n priority ≡ return order)
unfolding share_order
share_order-total n none h = (range_from 0 n, refl)
share_order-total n (some p) h =
    let (rest, found) = remove-range p 0 n (omega arith) (omega arith) in
    (p ∷ rest, rw (found, share_order) refl)

share_order-PriorityFits :
    (n : ℕ) (priority : Option ℕ) (order : List ℕ)
    → share_order n priority ≡ return order
    → PriorityFits n priority
share_order-PriorityFits n none order h = tt
share_order-PriorityFits n (some p) order h = (share_order-head n p order h).2

-- A suggestion is made exactly for at least one city, at most as many cities as days, and a main
-- city, if any, among them.
pub suggested_city_days-return_iff :
    (days n : ℕ) (priority : Option ℕ)
    → ((result : List ℕ) × (suggested_city_days days n priority ≡ return result))
      ↔ ((1 ≤ n) × (n ≤ days) × PriorityFits n priority)
unfolding suggested_city_days
suggested_city_days-return_iff days n priority = (
  λ (result, h).
      let s = suggested-Shares days n priority result h in
      (s.pos, s.fits, share_order-PriorityFits n priority s.order s.ordered),
  λ (pos, fits, main).
      let (order, ordered) = share_order-total n priority main in
      let room : (ltb n 1 || ltb days n) ≡ false = ground (arith, pos, fits) in
      (bump_all (replicate n (days / n)) (take (days % n) order), rw (room, ordered) refl),
)

not_mismatched :
    (cities : List String) (days : ℕ) (city_days : List ℕ)
    → length city_days ≡ length cities
    → sum city_days ≡ days
    → mismatched cities days city_days ≡ false
not_mismatched cities days [] l t = refl
not_mismatched cities days (d ∷ ds) l t = ground arith

-- Every suggestion passes the check of a reviewed city plan.
suggested_city_days-validates :
    (cities : List String) (days : ℕ) (priority : Option ℕ) (result : List ℕ)
    → suggested_city_days days (length cities) priority ≡ return result
    → validate_city_plan cities days result priority ≡ return tt
unfolding validate_city_plan
suggested_city_days-validates cities days none result h =
    let s = suggested-Shares days (length cities) none result h in
    rw
      (not_mismatched cities days result (size days (length cities) none result s)
        (total days (length cities) none result s))
      refl
suggested_city_days-validates cities days (some p) result h =
    let s = suggested-Shares days (length cities) (some p) result h in
    let fits : ltb p (length cities) ≡ true =
      lt→ltb _ _ (share_order-PriorityFits (length cities) (some p) s.order s.ordered) in
    rw
      (
        fits,
        not_mismatched cities days result (size days (length cities) (some p) result s)
            (total days (length cities) (some p) result s),
      )
      refl
