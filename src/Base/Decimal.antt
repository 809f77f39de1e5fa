-- ===== src/Base/Decimal.antt =====
-- Python's `str` of a number that is not negative: its decimal digits.
use Prim.Native.Nat.{ℕ, zero, suc, ◌/◌, ◌%◌, ◌<◌}
use Prim.Native.String.{String}
use mathlib.Core.Path.{◌≡◌, refl}
use mathlib.Core.List.{List, [], ◌∷◌}
use mathlib.Core.Logic.{inl, inr}
use mathlib.Core.Bool.{false}
use native.Mathlib.Omega.{arith}
use sana_v.Base.Tests.{ltb, Bool-cases, if◌then◌else◌}
use sana_v.Base.Text.{str_append}

-- The element at a position, and "" past the end.
abbrev at_position : ℕ → List String → String
at_position n [] = ""
at_position zero (d ∷ ds) = d
at_position (suc n) (d ∷ ds) = at_position n ds

abbrev digit : ℕ → String
digit n = at_position n ("0" ∷ "1" ∷ "2" ∷ "3" ∷ "4" ∷ "5" ∷ "6" ∷ "7" ∷ "8" ∷ "9" ∷ [])

-- The digits of `n`, for which `suc n` is enough fuel.
unfoldable digits : ℕ → ℕ → String
digits zero n = ""
digits (suc fuel) n =
    let front = digits fuel (n / 10) in
    if ltb n 10 then digit n else str_append front (digit (n % 10))

-- `str(n)`
unfoldable pub decimal : ℕ → String
unfolding digits
decimal n = digits (suc n) n

-- More fuel than `suc n` changes nothing.
digits-fuel : (fuel n : ℕ) → n < fuel → digits (suc fuel) n ≡ digits fuel n
unfolding digits
digits-fuel zero n h = absurd (omega (arith, h))
digits-fuel (suc fuel) n h = elim (Bool-cases (ltb n 10)) [
  | inl small ↦ rw small refl
  | inr large ↦ rw (large, digits-fuel fuel (n / 10) (smaller fuel n h large)) refl
]
  where
    smaller : (fuel n : ℕ) → n < suc fuel → ltb n 10 ≡ false → n / 10 < fuel
    smaller fuel n h large = ground arith
