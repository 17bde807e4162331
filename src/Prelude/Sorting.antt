-- ===== src/Prelude/Sorting.antt =====
-- Python's stable `sorted` by a test `le x y`, "the key of x does not come after that of y".
use mathlib.Core.List.Perm
use mathlib.Core.List.{Perm, perm_middle}
use mathlib.Core.List as L
use Prim.Native.Nat.{suc}
use syncinerary.Prelude.Tests.{leb, if◌then◌else◌, Bool-cases}
use syncinerary.Prelude.Lists.{any_by, filter_by, length}
use mathlib.Core.Path.{◌≡◌, refl, ap, sym, ◌∙◌}
use mathlib.Core.Bool.{Bool, true, false, ◌&&◌, ◌||◌, not}
use mathlib.Core.Logic.{inl, inr}
use mathlib.Core.List.{List, [], ◌∷◌, ◌++◌}
use native.Mathlib.Omega.{arith}
use native.Mathlib.Nat.{ℕ_set}

abbrev pub All {ℓ κ} : {A : Type ℓ} → (A → Type κ) → List A → Type κ
All P [] = Unit
All P (x ∷ xs) = P x × All P xs

pub All-append-right {ℓ κ} :
    {A : Type ℓ} (P : A → Type κ) (xs ys : List A) → All P (xs ++ ys) → All P ys
All-append-right P [] ys h = h
All-append-right P (x ∷ xs) ys h = All-append-right P xs ys h.1

module _ {ℓ} {A : Type ℓ} (le : A → A → Bool) where
  insert : A → List A → List A
  insert x [] = x ∷ []
  insert x (y ∷ ys) = let rest = insert x ys in if le x y then x ∷ y ∷ ys else y ∷ rest

  unfoldable pub sorted_by : List A → List A
  unfolding insert
  sorted_by [] = []
  sorted_by (x ∷ xs) = insert x (sorted_by xs)

  abbrev pub IsSorted : List A → Type 0
  IsSorted [] = Unit
  IsSorted (x ∷ xs) = All (λ y. le x y ≡ true) xs × IsSorted xs

module _ {ℓ} {A : Type ℓ} (le : A → A → Bool) where
  insert-perm : (x : A) (ys : List A) → Perm (insert le x ys) (x ∷ ys)
  unfolding insert
  insert-perm x [] = Perm.rfl
  insert-perm x (y ∷ ys) = elim (Bool-cases (le x y)) [
    | inl e ↦ rw e Perm.rfl
    | inr e ↦ rw e (Perm.trans (Perm.cons y (insert-perm x ys)) (Perm.swap x y ys))
  ]

  -- A sort loses and invents nothing.
  pub sorted_by-perm : (xs : List A) → Perm (sorted_by le xs) xs
  unfolding sorted_by
  sorted_by-perm [] = Perm.rfl
  sorted_by-perm (x ∷ xs) =
      Perm.trans (insert-perm x (sorted_by le xs)) (Perm.cons x (sorted_by-perm xs))

module _ {ℓ} {A : Type ℓ} (le : A → A → Bool) (p : A → Bool) where
  any_by-insert : (x : A) (ys : List A) → any_by p (insert le x ys) ≡ (p x || any_by p ys)
  unfolding insert
  any_by-insert x [] = refl
  any_by-insert x (y ∷ ys) = ground (arith, any_by-insert x ys)

  -- A search does not see the order.
  pub any_by-sorted_by : (xs : List A) → any_by p (sorted_by le xs) ≡ any_by p xs
  unfolding sorted_by
  any_by-sorted_by [] = refl
  any_by-sorted_by (x ∷ xs) = ground (arith, any_by-insert x (sorted_by le xs), any_by-sorted_by xs)

length-foldr {ℓ} : {A : Type ℓ} (xs : List A) → length xs ≡ L.foldr (λ _ n. suc n) 0 xs
length-foldr [] = refl
length-foldr (x ∷ xs) = ap suc (length-foldr xs)

-- A permutation is as long.
pub length-perm {ℓ} : {A : Type ℓ} {xs ys : List A} → Perm xs ys → length xs ≡ length ys
length-perm {xs = xs} {ys = ys} p =
    length-foldr xs ∙ Perm.foldr-eq ℕ_set (λ _ n. suc n) (λ a b n. refl) p 0 ∙ sym (length-foldr ys)

-- The test is a total preorder, as the order of Python's tuples of keys is.
pub record IsOrder {ℓ} {A : Type ℓ} (le : A → A → Bool) : Type ℓ where
  pub total : (x y : A) → le x y ≡ false → le y x ≡ true
  pub trans : (x y z : A) → le x y ≡ true → le y z ≡ true → le x z ≡ true

pub All-middle {ℓ κ} :
    {A : Type ℓ} (P : A → Type κ) (xs : List A) (y : A) (ys : List A) → All P (xs ++ y ∷ ys) → P y
All-middle P [] y ys h = h.0
All-middle P (x ∷ xs) y ys h = All-middle P xs y ys h.1

-- Of two elements of a sorted list the earlier one does not come after the later one.
pub IsSorted-middle {ℓ} :
    {A : Type ℓ} (le : A → A → Bool) (xs : List A) (x : A) (ys : List A) (y : A) (zs : List A)
    → IsSorted le (xs ++ x ∷ (ys ++ y ∷ zs))
    → le x y ≡ true
IsSorted-middle le [] x ys y zs h = All-middle (λ z. le x z ≡ true) ys y zs h.0
IsSorted-middle le (a ∷ xs) x ys y zs h = IsSorted-middle le xs x ys y zs h.1

module _ {ℓ κ} {A : Type ℓ} (le : A → A → Bool) (P : A → Type κ) where
  insert-All : (x : A) (ys : List A) → P x → All P ys → All P (insert le x ys)
  unfolding insert
  insert-All x [] p h = (p, tt)
  insert-All x (y ∷ ys) p h = elim (Bool-cases (le x y)) [
    | inl e ↦ rw e (p, h)
    | inr e ↦ rw e (h.0, insert-All x ys p h.1)
  ]

  -- What holds of every element holds of every element of the sorted list.
  pub sorted_by-All : (xs : List A) → All P xs → All P (sorted_by le xs)
  unfolding sorted_by
  sorted_by-All [] h = tt
  sorted_by-All (x ∷ xs) h = insert-All x (sorted_by le xs) h.0 (sorted_by-All xs h.1)

module _ {ℓ} {A : Type ℓ} (p : A → Bool) where
  -- A list is its two parts by a test.
  pub split_by-perm : (xs : List A) → Perm (filter_by (λ x. not (p x)) xs ++ filter_by p xs) xs
  split_by-perm [] = Perm.rfl
  split_by-perm (x ∷ xs) = elim (Bool-cases (p x)) [
    | inl e ↦ rw e (
        Perm.trans (perm_middle (filter_by (λ x. not (p x)) xs) (filter_by p xs))
          (Perm.cons x (split_by-perm xs)))
    | inr e ↦ rw e (Perm.cons x (split_by-perm xs))
  ]

  -- A filter keeps only what passes the test.
  pub filter_by-All {κ} :
      (P : A → Type κ) (xs : List A) → ((x : A) → p x ≡ true → P x) → All P (filter_by p xs)
  filter_by-All P [] h = tt
  filter_by-All P (x ∷ xs) h = elim (Bool-cases (p x)) [
    | inl e ↦ rw e (h x e, filter_by-All P xs h)
    | inr e ↦ rw e (filter_by-All P xs h)
  ]

module _ {ℓ} {A : Type ℓ} {le : A → A → Bool} (order : IsOrder le) where
  All-trans :
      (x y : A) (ys : List A)
      → le x y ≡ true
      → All (λ z. le y z ≡ true) ys
      → All (λ z. le x z ≡ true) ys
  All-trans x y [] e h = tt
  All-trans x y (z ∷ zs) e h = (order.trans x y z e h.0, All-trans x y zs e h.1)

  insert-IsSorted : (x : A) (ys : List A) → IsSorted le ys → IsSorted le (insert le x ys)
  unfolding insert
  insert-IsSorted x [] h = (tt, tt)
  insert-IsSorted x (y ∷ ys) h = elim (Bool-cases (le x y)) [
    | inl e ↦ rw e ((e, All-trans x y ys e h.0), h)
    | inr e ↦
        rw e (
          insert-All le (λ z. le y z ≡ true) x ys (order.total x y e) h.0,
          insert-IsSorted x ys h.1,
        )
  ]

  pub sorted_by-IsSorted : (xs : List A) → IsSorted le (sorted_by le xs)
  unfolding sorted_by
  sorted_by-IsSorted [] = tt
  sorted_by-IsSorted (x ∷ xs) = insert-IsSorted x (sorted_by le xs) (sorted_by-IsSorted xs)

-- Python's comparison of tuples: by the first parts that differ, here for a first part and a rest.
abbrev pub then_by {ℓ} : {A : Type ℓ} → (A → A → Bool) → (A → A → Bool) → A → A → Bool
then_by p q x y = if p x y && p y x then q x y else p x y

-- Both parts of a test are orders, so the comparison of the pairs is.
pub then_by-IsOrder {ℓ} :
    {A : Type ℓ} (p q : A → A → Bool) → IsOrder p → IsOrder q → IsOrder (then_by p q)
then_by-IsOrder p q op oq = record {
  total = λ x y. ground (arith, op.total x y, oq.total x y);
  trans = λ x y z.
      ground
        (arith, op.trans x y z, op.trans y z x, op.trans z x y, op.trans y x z, oq.trans x y z);
}

-- An order of keys is an order of what has the keys.
pub IsOrder-on {ℓ κ} :
    {A : Type ℓ} {K : Type κ} {le : K → K → Bool} (key : A → K)
    → IsOrder le
    → IsOrder (λ x y. le (key x) (key y))
IsOrder-on key o = record {
  total = λ x y. o.total (key x) (key y);
  trans = λ x y z. o.trans (key x) (key y) (key z);
}

pub leb-IsOrder : IsOrder leb
leb-IsOrder = record { total = λ x y. ground arith; trans = λ x y z. ground arith }

-- In a sorted list nothing before a cut comes after anything behind it.
pub IsSorted-append {ℓ} :
    {A : Type ℓ} (le : A → A → Bool) (xs ys : List A)
    → IsSorted le (xs ++ ys)
    → All (λ x. All (λ y. le x y ≡ true) ys) xs
IsSorted-append le [] ys h = tt
IsSorted-append le (x ∷ xs) ys h =
    (All-append-right (λ y. le x y ≡ true) xs ys h.0, IsSorted-append le xs ys h.1)
