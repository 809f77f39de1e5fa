-- ===== src/Campaign/Money.antt =====
-- `_nonnegative_decimal` of shadow_campaign/budget.py: an amount of money as a whole number of
-- units of 10^-10, which is what the quantum of the code makes of every amount.
use sana_v.Base.{ℕ, ◌+◌, ◌-◌, ◌*◌, ◌/◌, ◌^◌, String, str_append, ltb, leb, ℤ, pos, if◌then◌else◌}
use sana_v.Shared.Errors.{Result, ok, err, value_error}

-- `number n s` is n * 10^-s. A value of Python's `Decimal` that is infinite or not a number, and a
-- text that none can be read from, are the other case.
pub data Decimal : Type 0 where
  number : ℤ → ℕ → Decimal
  not_finite : Decimal

-- The context of `decimal` holds 28 digits.
abbrev pub precision_limit : ℕ
precision_limit = 10_000_000_000_000_000_000_000_000_000

-- `quantize(Decimal("0.0000000001"), rounding=ROUND_HALF_UP)`, in units
unfoldable pub quantize : ℕ → ℕ → ℕ
quantize n s = if leb s 10 then n * 10 ^ (10 - s) else (2 * n + 10 ^ (s - 10)) / (2 * 10 ^ (s - 10))

unfoldable pub nonnegative_decimal : Decimal → String → Result ℕ
unfolding quantize
nonnegative_decimal (number (pos n) s) name =
    if ltb (quantize n s) precision_limit
    then ok (quantize n s)
    else err (value_error (str_append name " exceeds the campaign money precision"))
nonnegative_decimal _ name =
    err (value_error (str_append name " must be a finite non-negative Decimal"))
