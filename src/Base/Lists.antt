-- ===== src/Base/Lists.antt =====
-- Lists measured by native numbers, and the Boolean quantifiers `any` and `all`.
use Prim.Native.Nat.{ℕ, suc, ◌+◌}
use mathlib.Core.Path.{◌≡◌, ap}
use mathlib.Core.Logic.{◌⊎◌, inl, inr}
use mathlib.Core.Bool.{Bool, false, ◌||◌}
use mathlib.Core.List.{List, [], ◌∷◌, ◌++◌, map}
use mathlib.Core.Option.{Option, none, some}
use native.Mathlib.Omega.{arith}
use sana_v.Base.Tests.{if◌then◌else◌}

module _ {ℓ} {A : Type ℓ} where
  abbrev pub length : List A → ℕ
  length [] = 0
  length (x ∷ xs) = suc (length xs)

  -- `any(p(x) for x in xs)`
  abbrev pub any : (A → Bool) → List A → Bool
  any p [] = false
  any p (x ∷ xs) = p x || any p xs

  -- `[x for x in xs if p(x)]`
  abbrev pub keep : (A → Bool) → List A → List A
  keep p [] = []
  keep p (x ∷ xs) = let rest = keep p xs in if p x then x ∷ rest else rest

  pub length-append : (xs ys : List A) → length (xs ++ ys) ≡ length xs + length ys
  length-append [] ys = omega arith
  length-append (x ∷ xs) ys = omega (arith, length-append xs ys)

-- Every element satisfies `P`.
abbrev pub All {ℓ κ} : {A : Type ℓ} → (A → Type κ) → List A → Type κ
All P [] = Unit
All P (x ∷ xs) = P x × All P xs

-- The first element that `f` maps to a value.
abbrev pub first_some {ℓ κ} : {A : Type ℓ} {B : Type κ} → (A → Option B) → List A → Option B
first_some f [] = none
first_some f (x ∷ xs) = let rest = first_some f xs in elim (f x) [ none ↦ rest | some b ↦ some b ]

-- `x` is one of the elements.
abbrev pub Among : {A : Type 0} → A → List A → Type 0
Among x [] = ⊥
Among x (y ∷ ys) = (x ≡ y) ⊎ Among x ys

-- An element of a list and one after it is of one of them.
pub Among-++ : {A : Type 0} (x : A) (xs ys : List A) → Among x (xs ++ ys) → Among x xs ⊎ Among x ys
Among-++ x [] ys h = inr h
Among-++ x (z ∷ xs) ys (inl same) = inl (inl same)
Among-++ x (z ∷ xs) ys (inr later) = elim (Among-++ x xs ys later) [
  | inl left ↦ inl (inr left)
  | inr right ↦ inr right
]

pub Among-left : {A : Type 0} (x : A) (xs ys : List A) → Among x xs → Among x (xs ++ ys)
Among-left x [] ys h = elim h [ ]
Among-left x (z ∷ xs) ys (inl same) = inl same
Among-left x (z ∷ xs) ys (inr later) = inr (Among-left x xs ys later)

pub Among-right : {A : Type 0} (x : A) (xs ys : List A) → Among x ys → Among x (xs ++ ys)
Among-right x [] ys h = h
Among-right x (z ∷ xs) ys h = inr (Among-right x xs ys h)

pub Among-map :
    {A B : Type 0} (f : A → B) (x : A) (xs : List A) → Among x xs → Among (f x) (map f xs)
Among-map f x [] h = elim h [ ]
Among-map f x (z ∷ xs) (inl same) = inl (ap f same)
Among-map f x (z ∷ xs) (inr later) = inr (Among-map f x xs later)
