-- ===== src/Go/Time.antt =====
-- time.Time and time.Duration, in nanoseconds. A Time counts from year 1 (the zero Time is 0), by
-- the wall clock: the monotonic reading that Go carries beside it is left out, and so is the zone.
use wallbox_homeautomation_g.Base.{
  Bool, arith, if◌then◌else◌, ltb, refl, true, ℕ, ◌*◌, ◌-◌, ◌^◌, ◌≡◌,
}
use wallbox_homeautomation_g.Base.Int.{IsInt64, eq_ℤ, lt_ℤ, negsuc, pos, ℤ, ◌+ℤ◌, ◌-ℤ◌}

abbrev pub Time : Type 0
Time = ℤ

abbrev pub Duration : Type 0
Duration = ℤ

abbrev pub zero_time : Time
zero_time = pos 0

unfoldable pub is_zero : Time → Bool
is_zero t = eq_ℤ t zero_time

abbrev pub before : Time → Time → Bool
before t u = lt_ℤ t u

abbrev pub equal : Time → Time → Bool
equal t u = eq_ℤ t u

-- A Duration is an int64: `Sub` gives the nearest one.
unfoldable pub saturate : ℤ → Duration
saturate (pos n) = if ltb n (2 ^ 63) then pos n else pos (2 ^ 63 - 1)
saturate (negsuc n) = if ltb n (2 ^ 63) then negsuc n else negsuc (2 ^ 63 - 1)

unfoldable pub since : Time → Time → Duration
unfolding saturate
since t u = saturate (t -ℤ u)

unfoldable pub add : Time → Duration → Time
add t d = t +ℤ d

abbrev pub second : ℕ
second = 1_000_000_000

abbrev pub minute : ℕ
minute = 60 * second

abbrev pub hour : ℕ
hour = 60 * minute

saturate_lem : (d : ℤ) → IsInt64 d → saturate d ≡ d
unfolding saturate
saturate_lem (pos n) h = ground arith
saturate_lem (negsuc n) h = ground arith

pub zero_time-is_zero : is_zero zero_time ≡ true
unfolding is_zero eq_ℤ
zero_time-is_zero = refl

pub since_self : (t : Time) → since t t ≡ pos 0
unfolding since ◌-ℤ◌
since_self (pos n) = ground arith
since_self (negsuc n) = ground arith

-- A Duration of less than 292 years is exact.
pub since-exact : (t u : Time) → IsInt64 (t -ℤ u) → since t u ≡ t -ℤ u
unfolding since
since-exact t u h = saturate_lem (t -ℤ u) h
