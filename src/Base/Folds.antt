-- ===== src/Base/Folds.antt =====
-- Sums over lists, and the predicate that every element satisfies.
use Prim.Native.Nat.{ℕ, zero, suc, ◌+◌}
use mathlib.Core.Path.{◌≡◌}
use mathlib.Core.Bool.{Bool, true, false}
use mathlib.Core.List.{List, [], ◌∷◌, ◌++◌}
use mathlib.Core.Option.{some}
use native.Mathlib.Omega.{arith}
use tunl.Base.Lists.{get_elem?, set}

abbrev pub All {ℓ κ} : {A : Type ℓ} → (A → Type κ) → List A → Type κ
All P [] = Unit
All P (x ∷ xs) = P x × All P xs

-- 1 for a true test.
abbrev pub bit : Bool → ℕ
bit true = 1
bit false = 0

module _ {ℓ} {A : Type ℓ} where
  abbrev pub sum_by : (A → ℕ) → List A → ℕ
  sum_by f [] = 0
  sum_by f (x ∷ xs) = f x + sum_by f xs

  pub sum_by-append : (f : A → ℕ) (xs ys : List A) → sum_by f (xs ++ ys) ≡ sum_by f xs + sum_by f ys
  sum_by-append f [] ys = omega arith
  sum_by-append f (x ∷ xs) ys = omega (arith, sum_by-append f xs ys)

  -- An update of one place moves the sum by the difference of the two values.
  pub sum_by-set :
      (f : A → ℕ) (xs : List A) (i : ℕ) (v w : A)
      → get_elem? xs i ≡ some w
      → sum_by f (set xs i v) + f w ≡ sum_by f xs + f v
  sum_by-set f [] i v w h = cc
  sum_by-set f (x ∷ xs) zero v w h = ground arith
  sum_by-set f (x ∷ xs) (suc i) v w h = omega (arith, sum_by-set f xs i v w h)
