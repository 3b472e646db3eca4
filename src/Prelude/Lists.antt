-- ===== src/Prelude/Lists.antt =====
-- Lists: the tests and the predicate by recursion that the components share.
use Prim.Native.Nat.{ℕ, suc}
use mathlib.Core.Path.{◌≡◌, refl}
use native.Mathlib.Omega.{arith}
use mathlib.Core.Bool.{Bool, true, false, not, ◌&&◌, ◌||◌}
use mathlib.Core.List.{List, [], ◌∷◌}
use polixy.Prelude.Tests.{Eq, ◌==◌, if◌then◌else◌}

module _ {ℓ} {A : Type ℓ} where
  abbrev pub length : List A → ℕ
  length [] = 0
  length (x ∷ xs) = suc (length xs)

  -- `iter().any(p)`, `iter().all(p)`
  abbrev pub any : (A → Bool) → List A → Bool
  any p [] = false
  any p (x ∷ xs) = p x || any p xs

  abbrev pub all : (A → Bool) → List A → Bool
  all p [] = true
  all p (x ∷ xs) = p x && all p xs

  -- `is_empty()`
  abbrev pub is_empty : List A → Bool
  is_empty [] = true
  is_empty (x ∷ xs) = false

  abbrev pub All {κ} : (A → Type κ) → List A → Type κ
  All P [] = Unit
  All P (x ∷ xs) = P x × All P xs

module _ {ℓ} {A : Type ℓ} ⦃e : Eq A⦄ where
  -- `contains(x)`
  abbrev pub contains : List A → A → Bool
  contains [] a = false
  contains (x ∷ xs) a = x == a || contains xs a

  -- `HashSet::remove`, all occurrences
  abbrev pub without : A → List A → List A
  without a [] = []
  without a (x ∷ xs) = let rest = without a xs in if x == a then rest else x ∷ rest

  pub contains-without :
      (a b : A) (xs : List A) → contains (without a xs) b ≡ (contains xs b && not (a == b))
  contains-without a b [] = refl
  contains-without a b (x ∷ xs) =
      ground (arith, contains-without a b xs, e.beq_iff x a, e.beq_iff x b, e.beq_iff a b)
