-- ===== src/Queue/Delay.antt =====
-- The retry delay of sales_imports/queue.py. A `timedelta` is a signed number of microseconds, and
-- one that `_validate_duration` has let through is a natural number of them.
pub mod Laws
use pharma_intel.Base.{
  ℕ, zero, suc, ◌-◌, ◌*◌, min, ◌≡◌, Bool, true, false, Result, ok, err, ◌>>=◌, ◌>>◌, raise_if, leb,
}
use pharma_intel.Base.Int.{ℤ, pos, negsuc, pos_part, ltb_ℤ}

-- The `ValueError`s about the arguments of a call.
pub data ArgumentError : Type 0 where
  attempt_count_not_positive duration_not_positive : ArgumentError

-- timedelta(minutes=5), timedelta(seconds=30) and timedelta(minutes=15)
abbrev pub default_lease_duration : ℤ
default_lease_duration = pos 300_000_000

abbrev pub default_retry_base_delay : ℤ
default_retry_base_delay = pos 30_000_000

abbrev pub default_retry_max_delay : ℤ
default_retry_max_delay = pos 900_000_000

unfoldable pub validate_duration : ℤ → Result ArgumentError ℕ
validate_duration (pos zero) = err duration_not_positive
validate_duration (pos (suc n)) = ok (suc n)
validate_duration (negsuc n) = err duration_not_positive

-- The `for` loop, with its `break`.
unfoldable pub double_until : ℕ → ℕ → ℕ → ℕ
double_until zero delay maximum = delay
double_until (suc rounds) delay maximum = elim (leb maximum delay) [
  | true ↦ delay
  | false ↦ double_until rounds (min (delay * 2) maximum) maximum
]

unfoldable pub retry_delay : ℤ → ℤ → ℤ → Result ArgumentError ℕ
unfolding validate_duration
retry_delay attempt_count base_delay maximum_delay = do
  raise_if (ltb_ℤ attempt_count (pos 1)) attempt_count_not_positive
  base ← validate_duration base_delay
  maximum ← validate_duration maximum_delay
  ok (double_until (pos_part attempt_count - 1) (min base maximum) maximum)
