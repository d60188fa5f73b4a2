-- ===== src/Prelude/Int.antt =====
-- Signed integers over the native numbers: durations in nanoseconds and sizes that may be -1.
use Prim.Native.Nat.{ℕ, zero, suc, ◌+◌, ◌-◌, ◌*◌, ◌/◌}
use mathlib.Core.Bool.{Bool, true, false}

-- `negsuc n` is -(n + 1).
pub data ℤ : Type 0 where
  pos : ℕ → ℤ
  negsuc : ℕ → ℤ

-- d > 0.
abbrev pub is_positive : ℤ → Bool
is_positive (pos zero) = false
is_positive (pos (suc n)) = true
is_positive (negsuc n) = false

-- d < 0.
abbrev pub is_negative : ℤ → Bool
is_negative (pos n) = false
is_negative (negsuc n) = true

-- A time in nanoseconds after the zero time, moved by a signed duration.
abbrev pub add_duration : ℕ → ℤ → ℕ
add_duration t (pos n) = t + n
add_duration t (negsuc n) = t - suc n

-- -n
abbrev pub neg : ℕ → ℤ
neg zero = pos 0
neg (suc n) = negsuc n

-- time.Duration.Microseconds, which truncates towards zero.
abbrev pub microseconds : ℤ → ℤ
microseconds (pos n) = pos (n / 1000)
microseconds (negsuc n) = neg (suc n / 1000)

-- $n::bigint * interval '1 microsecond', in nanoseconds.
abbrev pub interval_of_micros : ℤ → ℤ
interval_of_micros (pos n) = pos (n * 1000)
interval_of_micros (negsuc n) = neg (suc n * 1000)
