-- ===== src/Trips/CityPlan/Order.antt =====
-- The order in which syncinerary/domain/city_plan.py gives the cities an extra day, and what one
-- more day for each city of it adds up to.
use syncinerary.Prelude.{
  ℕ, zero, suc, ◌+◌, ◌≤◌, ◌<◌, ◌≡◌, ◌∙◌, refl, ap, List, [], ◌∷◌, Option, none, some, Outcome,
  return, raise, length, take, sum, count, range_from, get_or, ltb, ◌==◌, if◌then◌else◌, true,
  false, inl, inr, Bool-cases, arith, length-range_from, count-range_from-le,
}
use syncinerary.Trips.CityPlan.{CityPlanError, not_in_list, remove, share_order, bump, bump_all}

length-bump : (xs : List ℕ) (i : ℕ) → length (bump xs i) ≡ length xs
unfolding bump
length-bump [] i = refl
length-bump (x ∷ xs) zero = refl
length-bump (x ∷ xs) (suc i) = ap suc (length-bump xs i)

pub length-bump_all : (xs is : List ℕ) → length (bump_all xs is) ≡ length xs
unfolding bump_all
length-bump_all xs [] = refl
length-bump_all xs (i ∷ is) = length-bump_all (bump xs i) is ∙ length-bump xs i

get_or-bump :
    (xs : List ℕ) (i j : ℕ)
    → j < length xs
    → get_or (bump xs i) j 0 ≡ get_or xs j 0 + (if i == j then 1 else 0)
unfolding bump
get_or-bump [] i j h = absurd (omega arith)
get_or-bump (x ∷ xs) zero zero h = refl
get_or-bump (x ∷ xs) zero (suc j) h = ground arith
get_or-bump (x ∷ xs) (suc i) zero h = ground arith
get_or-bump (x ∷ xs) (suc i) (suc j) h = ground (arith, get_or-bump xs i j)

pub get_or-bump_all :
    (xs is : List ℕ) (j : ℕ)
    → j < length xs
    → get_or (bump_all xs is) j 0 ≡ get_or xs j 0 + count j is
unfolding bump_all
get_or-bump_all xs [] j h = omega arith
get_or-bump_all xs (i ∷ is) j h =
    ground (arith, get_or-bump_all (bump xs i) is j, length-bump xs i, get_or-bump xs i j)

-- Every index stands for a city.
abbrev pub AllBelow : ℕ → List ℕ → Type 0
AllBelow n [] = Unit
AllBelow n (i ∷ is) = (i < n) × AllBelow n is

sum-bump : (xs : List ℕ) (i : ℕ) → i < length xs → sum (bump xs i) ≡ sum xs + 1
unfolding bump
sum-bump [] i h = absurd (omega arith)
sum-bump (x ∷ xs) zero h = omega arith
sum-bump (x ∷ xs) (suc i) h = omega (arith, sum-bump xs i (omega arith))

pub sum-bump_all :
    (xs is : List ℕ) → AllBelow (length xs) is → sum (bump_all xs is) ≡ sum xs + length is
unfolding bump_all
sum-bump_all xs [] h = omega arith
sum-bump_all xs (i ∷ is) h =
    let n = length-bump xs i in
    sum-bump_all (bump xs i) is (rw n h.1) ∙ omega (arith, sum-bump xs i h.0)

AllBelow-range_from : (m start n : ℕ) → start + n ≤ m → AllBelow m (range_from start n)
AllBelow-range_from m start zero h = tt
AllBelow-range_from m start (suc n) h =
    (omega arith, AllBelow-range_from m (suc start) n (omega arith))

pub AllBelow-take : (m k : ℕ) (is : List ℕ) → AllBelow m is → AllBelow m (take k is)
AllBelow-take m zero is h = tt
AllBelow-take m (suc k) [] h = tt
AllBelow-take m (suc k) (i ∷ is) h = (h.0, AllBelow-take m k is h.1)

-- A permutation of the cities, as far as the shares depend on it.
pub record IsOrderOf (n : ℕ) (order : List ℕ) : Type 0 where
  pub below : AllBelow n order
  pub once : (i : ℕ) → count i order ≤ 1
  pub all : length order ≡ n

IsOrderOf-range : (n : ℕ) → IsOrderOf n (range_from 0 n)
IsOrderOf-range n = record {
  below = AllBelow-range_from n 0 n (omega arith);
  once = λ i. ground (arith, count-range_from-le i 0 n);
  all = length-range_from 0 n;
}

-- What removing an entry leaves.
record IsRemoved (n x : ℕ) (xs rest : List ℕ) : Type 0 where
  below : AllBelow n xs → AllBelow n rest
  counts : (i : ℕ) → count i xs ≡ count i rest + (if x == i then 1 else 0)
  size : length xs ≡ suc (length rest)

abbrev behind : ℕ → Outcome CityPlanError (List ℕ) → Outcome CityPlanError (List ℕ)
behind y (return rest) = return (y ∷ rest)
behind y (raise e) = raise e

IsRemoved-head :
    (n x y : ℕ) (ys rest : List ℕ) → (y == x) ≡ true → ys ≡ rest → IsRemoved n x (y ∷ ys) rest
IsRemoved-head n x y ys rest e q = record {
  below = λ b. rw q at (b.1);
  counts = λ i. rw q (ground arith);
  size = rw q refl;
}

IsRemoved-tail :
    (n x y : ℕ) (ys rest : List ℕ) (o : Outcome CityPlanError (List ℕ))
    → (y == x) ≡ false
    → ((r : List ℕ) → o ≡ return r → IsRemoved n x ys r)
    → behind y o ≡ return rest
    → IsRemoved n x (y ∷ ys) rest
IsRemoved-tail n x y ys rest (return r) ne ih h =
    let q : y ∷ r ≡ rest = cc in
    let ih' = ih r refl in
    rw (← q) (record {
      below = λ b. (b.0, ih'.below b.1);
      counts = λ i. ground (arith, ih'.counts i);
      size = ap suc ih'.size;
    })
IsRemoved-tail n x y ys rest (raise e) ne ih h = cc

remove-IsRemoved : (n x : ℕ) (xs rest : List ℕ) → remove x xs ≡ return rest → IsRemoved n x xs rest
unfolding remove
remove-IsRemoved n x [] rest h = cc
remove-IsRemoved n x (y ∷ ys) rest h = elim (Bool-cases (y == x)) [
  | inl e ↦ IsRemoved-head n x y ys rest e (ground arith)
  | inr e ↦ IsRemoved-tail n x y ys rest (remove x ys) e (remove-IsRemoved n x ys) (ground arith)
]

-- `remove` finds every index of the range.
pub remove-range :
    (x start n : ℕ)
    → start ≤ x
    → x < start + n
    → (rest : List ℕ) × (remove x (range_from start n) ≡ return rest)
unfolding remove
remove-range x start zero low high = absurd (omega arith)
remove-range x start (suc n) low high = elim (Bool-cases (start == x)) [
  | inl e ↦ (range_from (suc start) n, ground arith)
  | inr e ↦
      let (rest, found) = remove-range x (suc start) n (ground arith) (omega arith) in
      (start ∷ rest, ground arith)
]

remove-absent : (x start n : ℕ) → start + n ≤ x → remove x (range_from start n) ≡ raise not_in_list
unfolding remove
remove-absent x start zero h = refl
remove-absent x start (suc n) h = ground (arith, remove-absent x (suc start) n (omega arith))

pub share_order-IsOrderOf :
    (n : ℕ) (priority : Option ℕ) (order : List ℕ)
    → share_order n priority ≡ return order
    → IsOrderOf n order
unfolding share_order
share_order-IsOrderOf n none order h =
    let q : range_from 0 n ≡ order = cc in rw (← q) (IsOrderOf-range n)
share_order-IsOrderOf n (some p) order h = elim (Bool-cases (ltb p n)) [
  | inl e ↦
      let (rest, found) = remove-range p 0 n (omega arith) (ground arith) in
      let q : p ∷ rest ≡ order = ground arith in
      let r = remove-IsRemoved n p (range_from 0 n) rest found in
      let o = IsOrderOf-range n in
      rw (← q) (record {
        below = (ground arith, r.below o.below);
        once = λ i. ground (arith, r.counts i, o.once i);
        all = omega (arith, r.size, o.all);
      })
  | inr e ↦ let missing = remove-absent p 0 n (ground arith) in absurd (ground arith)
]

-- The priority city stands first.
pub share_order-head :
    (n p : ℕ) (order : List ℕ)
    → share_order n (some p) ≡ return order
    → (rest : List ℕ) × (order ≡ p ∷ rest) × (p < n)
unfolding share_order
share_order-head n p order h = elim (Bool-cases (ltb p n)) [
  | inl e ↦
      let (rest, found) = remove-range p 0 n (omega arith) (ground arith) in
      (rest, ground arith, ground arith)
  | inr e ↦ let missing = remove-absent p 0 n (ground arith) in absurd (ground arith)
]
