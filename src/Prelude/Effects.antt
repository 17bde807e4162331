-- ===== src/Prelude/Effects.antt =====
-- Statements that change a state and may raise. What was written before a raise stays written,
-- so the state comes back beside the error too.
pub data Outcome {ℓ κ} (E : Type ℓ) (A : Type κ) : Type (ℓ ⊔ κ) where
  return : A → Outcome E A
  raise : E → Outcome E A

abbrev pub Action {ℓ κ μ} : Type ℓ → Type κ → Type μ → Type (ℓ ⊔ κ ⊔ μ)
Action S E A = S → Outcome E A × S

module _ {ℓ κ μ} {S : Type ℓ} {E : Type κ} {A : Type μ} where
  abbrev pub pure : A → Action S E A
  pure a s = (return a, s)

  abbrev pub throw : E → Action S E A
  throw e s = (raise e, s)

module _ {ℓ κ μ ν} {S : Type ℓ} {E : Type κ} {A : Type μ} {B : Type ν} where
  abbrev pub and_then : Outcome E A → (A → Action S E B) → Action S E B
  and_then (return a) f = f a
  and_then (raise e) f = throw e

  infixl 5 ◌>>=◌ ◌>>◌
  abbrev pub ◌>>=◌ : Action S E A → (A → Action S E B) → Action S E B
  ◌>>=◌ m f s = let (r, s') = m s in and_then r f s'

  abbrev pub ◌>>◌ : Action S E A → Action S E B → Action S E B
  m >> k = m >>= λ _. k

-- An exception of the cleanup takes the place of the body's.
abbrev pub after_cleanup {κ μ} :
    {E : Type κ} {A : Type μ} → Outcome E A → Outcome E (Unit {0}) → Outcome E A
after_cleanup r (return _) = r
after_cleanup r (raise e) = raise e

module _ {ℓ κ μ} {S : Type ℓ} {E : Type κ} {A : Type μ} where
  -- `try: body` / `finally: cleanup`
  abbrev pub try_finally : Action S E A → Action S E (Unit {0}) → Action S E A
  try_finally body cleanup s =
      let (r, s') = body s in let (c, s'') = cleanup s' in (after_cleanup r c, s'')
