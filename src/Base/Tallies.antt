-- ===== src/Base/Tallies.antt =====
-- Sums over a list, which count the items of a kind.
use Prim.Native.Nat.{ℕ, ◌+◌}
use mathlib.Core.Path.{◌≡◌, refl}
use mathlib.Core.Bool.{Bool, true, false}
use mathlib.Core.List.{List, [], ◌∷◌, ◌++◌}
use native.Mathlib.Omega.{arith}

abbrev pub tally {ℓ} : {A : Type ℓ} → (A → ℕ) → List A → ℕ
tally f [] = 0
tally f (a ∷ rest) = f a + tally f rest

pub tally-append {ℓ} :
    {A : Type ℓ} (f : A → ℕ) (xs ys : List A) → tally f (xs ++ ys) ≡ tally f xs + tally f ys
tally-append f [] ys = omega arith
tally-append f (a ∷ rest) ys = omega (arith, tally-append f rest ys)

abbrev pub one_if : Bool → ℕ
one_if true = 1
one_if false = 0

pub tally-without {ℓ} :
    {A : Type ℓ} (f : A → ℕ) (front : List A) (a : A) (back : List A)
    → tally f (front ++ a ∷ back) ≡ f a + tally f (front ++ back)
tally-without f [] a back = refl
tally-without f (b ∷ front) a back = omega (arith, tally-without f front a back)
