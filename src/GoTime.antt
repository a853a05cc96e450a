-- ===== src/GoTime.antt =====
-- What the program uses of Go's `time.Time` and `time.Duration`.
--
-- An instant is the number of nanoseconds since the earliest second that a `time.Time` can hold,
-- 2^63 seconds before 1 January of the year 1, which is the zero `time.Time`. `Before`, `After`
-- and `Equal` are then the order and the equality of numbers. `Time.Add` is exact here: it is
-- taken not to leave the 584 billion years that a `time.Time` covers, and a negative duration
-- stops at the earliest instant.
--
-- A duration is a signed number of nanoseconds of 64 bits. `Time.Sub` saturates, as Go documents,
-- and the sum of two durations wraps around.
use go_temporal_timeline.Prelude.{
  ℕ, suc, ◌+◌, ◌-◌, ◌*◌, ◌%◌, ◌^◌, ◌≤◌, ◌≡◌, Bool, arith, ltb, ◌==◌, if◌then◌else◌,
}
use go_temporal_timeline.Prelude.Int.{ℤ, pos, negsuc, sub_ℕ, ltb_ℤ, ◌+ℤ◌, neg_ℤ}

abbrev pub Time : Type 0
Time = ℕ

abbrev pub Duration : Type 0
Duration = ℤ

-- The zero `time.Time`.
abbrev pub zero_time : Time
zero_time = 2 ^ 63 * 1_000_000_000

abbrev pub is_zero : Time → Bool
is_zero t = t == zero_time

abbrev pub before : Time → Time → Bool
before t u = ltb t u

abbrev pub after : Time → Time → Bool
after t u = ltb u t

abbrev pub equal : Time → Time → Bool
equal t u = t == u

-- `t.Add(d)`.
abbrev pub add : Time → Duration → Time
add t (pos n) = t + n
add t (negsuc n) = t - suc n

-- `time.Unix(n, 0)`: 1 January 1970 is that many seconds after the zero `time.Time`. The sum is taken
-- not to leave the range of a `time.Time`.
abbrev pub unix_epoch : Time
unix_epoch = zero_time + 62135596800 * 1_000_000_000

abbrev pub unix : ℤ → Time
unix (pos n) = unix_epoch + n * 1_000_000_000
unix (negsuc n) = unix_epoch - suc n * 1_000_000_000

abbrev pub max_duration : ℕ
max_duration = 2 ^ 63 - 1

abbrev saturate : ℤ → Duration
saturate (pos n) = if ltb max_duration n then pos max_duration else pos n
saturate (negsuc n) = if ltb max_duration n then negsuc max_duration else negsuc n

-- `t.Sub(u)`.
unfoldable pub sub : Time → Time → Duration
sub t u = saturate (sub_ℕ t u)

-- An integer as a signed word of 64 bits.
abbrev signed64 : ℕ → Duration
signed64 m = if ltb m (2 ^ 63) then pos m else negsuc (2 ^ 64 - 1 - m)

unfoldable pub wrap64 : ℤ → Duration
wrap64 (pos n) = signed64 (n % 2 ^ 64)
wrap64 (negsuc n) = signed64 (2 ^ 64 - 1 - n % 2 ^ 64)

-- `d + e` and `-d` on durations.
unfoldable pub add_duration : Duration → Duration → Duration
unfolding wrap64 ◌+ℤ◌
add_duration d e = wrap64 (d +ℤ e)

unfoldable pub neg_duration : Duration → Duration
unfolding wrap64 neg_ℤ
neg_duration d = wrap64 (neg_ℤ d)

abbrev pub nanosecond : Duration
nanosecond = pos 1

abbrev pub hour : Duration
hour = pos 3_600_000_000_000

-- A difference that fits 64 bits is exact.
pub sub-of_le : (t u : Time) → u ≤ t → t - u ≤ max_duration → sub t u ≡ pos (t - u)
unfolding sub
sub-of_le t u h k = ground arith

-- The difference of a later instant from an earlier one is never negative.
pub sub-neg : (t u : Time) → t ≤ u → ltb_ℤ (pos 0) (sub t u) ≡ Bool.false
unfolding sub
sub-neg t u h = ground arith

-- A sum of durations that fits 64 bits is exact.
pub add_duration-pos : (a b : ℕ) → a + b ≤ max_duration → add_duration (pos a) (pos b) ≡ pos (a + b)
unfolding add_duration
add_duration-pos a b h = ground arith

-- The negation of a duration that is not negative.
pub add-neg_duration : (t : Time) (w : ℕ) → w ≤ max_duration → add t (neg_duration (pos w)) ≡ t - w
unfolding neg_duration
add-neg_duration t w h = ground arith
