-- ===== src/Prelude/Partial.antt =====
-- Partial functions on a list: what they give, where they give nothing, and one after the other.
use mathlib.Core.List.Perm
use mathlib.Core.List.{Perm, perm_middle, List, [], ◌∷◌, ◌++◌}
use mathlib.Core.Path.{◌≡◌, refl, ap}
use mathlib.Core.Logic.{inl, inr}
use mathlib.Core.Bool.{Bool, true, false, not}
use mathlib.Core.Option.{Option, none, some}
use syncinerary.Prelude.Tests.{Option-cases}
use syncinerary.Prelude.Lists.{filter_by}

-- `value is not None`
abbrev pub is_given {ℓ} : {A : Type ℓ} → Option A → Bool
is_given none = false
is_given (some _) = true

module _ {ℓ} {B : Type ℓ} where
  abbrev pub cons_if : Option B → List B → List B
  cons_if none bs = bs
  cons_if (some b) bs = b ∷ bs

  abbrev pub or_else : Option B → Option B → Option B
  or_else none o = o
  or_else (some b) o = some b

module _ {ℓ κ} {A : Type ℓ} {B : Type κ} where
  -- What a partial function gives on a list.
  abbrev pub collect : (A → Option B) → List A → List B
  collect f [] = []
  collect f (x ∷ xs) = cons_if (f x) (collect f xs)

  -- Where it gives nothing.
  abbrev pub missing : (A → Option B) → List A → List A
  missing f = filter_by (λ x. not (is_given (f x)))

  abbrev pub either_of : (f g : A → Option B) → A → Option B
  either_of f g x = or_else (f x) (g x)

  pub missing-either :
      (f g : A → Option B) (xs : List A) → missing g (missing f xs) ≡ missing (either_of f g) xs
  missing-either f g [] = refl
  missing-either f g (x ∷ xs) = elim (Option-cases (f x)) [
    | inl e ↦ rw e (rw (missing-either f g xs) refl)
    | inr (b, e) ↦ rw e (missing-either f g xs)
  ]

  -- To serve what one source has and then the rest from another is to serve each from the first that
  -- has it, up to the order.
  pub collect-either :
      (f g : A → Option B) (xs : List A)
      → Perm (collect f xs ++ collect g (missing f xs)) (collect (either_of f g) xs)
  collect-either f g [] = Perm.rfl
  collect-either f g (x ∷ xs) = elim (Option-cases (f x)) [
    | inr (b, e) ↦ rw e (Perm.cons b (collect-either f g xs))
    | inl e ↦ elim (Option-cases (g x)) [
      | inl e' ↦ rw (e, e') (collect-either f g xs)
      | inr (b, e') ↦
          rw (e, e')
            (Perm.trans (perm_middle (collect f xs) (collect g (missing f xs)))
              (Perm.cons b (collect-either f g xs)))
    ]
  ]

  pub missing-nothing :
      (f : A → Option B) (xs : List A) → ((x : A) → f x ≡ none) → missing f xs ≡ xs
  missing-nothing f [] h = refl
  missing-nothing f (x ∷ xs) h = rw (h x) (ap (λ l. x ∷ l) (missing-nothing f xs h))

  pub collect-nothing :
      (f : A → Option B) (xs : List A) → ((x : A) → f x ≡ none) → collect f xs ≡ []
  collect-nothing f [] h = refl
  collect-nothing f (x ∷ xs) h = rw (h x) (collect-nothing f xs h)
