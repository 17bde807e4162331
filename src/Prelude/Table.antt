-- ===== src/Prelude/Table.antt =====
-- A database table as the list of its rows, looked up by an identifier.
use mathlib.Core.Option
use mathlib.Core.Path.{◌≡◌, refl, ◌∙◌}
use mathlib.Core.Option.{Option, none, some}
use mathlib.Core.List.{List, [], ◌∷◌}
use mathlib.Core.Logic.{inl, inr}
use Prim.Native.Nat.{ℕ}
use native.Mathlib.Omega.{arith}
use syncinerary.Prelude.Tests.{◌==◌, Bool-cases, if◌then◌else◌}

module _ {ℓ} {R : Type ℓ} (key : R → ℕ) where
  -- `session.get(table, id)`
  unfoldable pub find_row : ℕ → List R → Option R
  find_row i [] = none
  find_row i (r ∷ rs) = if key r == i then some r else find_row i rs

  -- A change of the row with this identifier.
  unfoldable pub update_row : ℕ → (R → R) → List R → List R
  update_row i f [] = []
  update_row i f (r ∷ rs) = (if key r == i then f r else r) ∷ update_row i f rs

  pub find_row-update_row :
      (i j : ℕ) (f : R → R) (rs : List R)
      → ((r : R) → key (f r) ≡ key r)
      → find_row j (update_row i f rs)
        ≡ (if i == j then Option.map f (find_row i rs) else find_row j rs)
  unfolding find_row update_row
  find_row-update_row i j f [] keeps = ground arith
  find_row-update_row i j f (r ∷ rs) keeps =
      ground (arith, keeps r, find_row-update_row i j f rs keeps)

  pub find_row-key : (i : ℕ) (rs : List R) (r : R) → find_row i rs ≡ some r → key r ≡ i
  unfolding find_row
  find_row-key i [] r h = absurd (ground arith)
  find_row-key i (x ∷ xs) r h = ground (arith, find_row-key i xs r)

  -- The tables' rows after one of them is changed.
  pub find_row-written :
      (i : ℕ) (f : R → R) (r : R) (rs : List R)
      → ((x : R) → key (f x) ≡ key x)
      → find_row (key r) rs ≡ some r
      → find_row i (update_row (key r) f rs) ≡ (if key r == i then some (f r) else find_row i rs)
  find_row-written i f r rs keeps found =
      find_row-update_row (key r) i f rs keeps ∙ elim (Bool-cases (key r == i)) [
        | inl same ↦ rw same (rw found refl)
        | inr other ↦ rw other refl
      ]
