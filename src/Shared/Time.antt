-- ===== src/Shared/Time.antt =====
-- Points in time, as `datetime` values. An aware one is the number of microseconds since the first
-- instant of year 1 in UTC, which is what Python compares; a naive one only shows up in the checks
-- that refuse it. A duration is a whole number of microseconds, as in `timedelta`.
use Prim.Native.String.{◌++◌ as str_append}
use sana_v.Base.{
  ℕ, ◌+◌, String, Bool, not, xor, ltb, leb, ℤ, ◌==◌, pos_part, neg_part, ◌-◌, if◌then◌else◌,
}
use sana_v.Shared.Errors.{Result, ok, err, value_error, type_error, overflow_error, raise_if}

pub record DateTime : Type 0 where
  pub is_aware : Bool
  pub instant : ℕ

-- The last microsecond of year 9999.
abbrev pub max_instant : ℕ
max_instant = 315537897599999999

-- `require_aware`, which shadow_campaign/domain.py and orchestration/domain.py both define
abbrev pub require_aware : DateTime → String → Result (Unit {0})
require_aware value name =
    raise_if (not value.is_aware) (value_error (str_append name " must be timezone-aware"))

-- `a < b`, `a <= b` and `a == b` between aware values
abbrev pub is_before : DateTime → DateTime → Bool
is_before a b = ltb a.instant b.instant

abbrev pub is_at_most : DateTime → DateTime → Bool
is_at_most a b = leb a.instant b.instant

abbrev pub is_same_instant : DateTime → DateTime → Bool
is_same_instant a b = a.instant == b.instant

-- `a <= b` where the code has not checked both: Python does not compare a naive with an aware time
abbrev pub le_or_raise : DateTime → DateTime → Result Bool
le_or_raise a b = if xor a.is_aware b.is_aware then err type_error else ok (is_at_most a b)

-- `value + timedelta(microseconds=d)`, which stays within the years 1 to 9999 or raises
unfoldable pub shift : DateTime → ℤ → Result DateTime
shift t d =
    if ltb (t.instant + pos_part d) (neg_part d)
    then err overflow_error
    else if ltb max_instant (t.instant + pos_part d - neg_part d)
    then err overflow_error
    else ok (record t { instant = t.instant + pos_part d - neg_part d })
