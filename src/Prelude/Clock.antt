-- ===== src/Prelude/Clock.antt =====
-- time.Time and time.Duration. An instant is the number of nanoseconds since Go's zero time, which
-- is the instant that `IsZero` tests for; a duration is an integer number of nanoseconds.
use Prim.Native.Nat.{ℕ, ◌+◌, ◌-◌, ◌/◌, ◌^◌, min}
use mathlib.Core.Bool.{Bool}
use tracearr.Prelude.Tests.{ltb, leb, nat_beq, if◌then◌else◌}
use tracearr.Prelude.Int.{ℤ, pos, negsuc}

abbrev pub Time : Type 0
Time = ℕ

abbrev pub is_zero : Time → Bool
is_zero t = nat_beq t 0

-- t.Before(now.Add(-ttl)), with the subtraction moved to the other side
abbrev pub is_expired : ℕ → Time → Time → Bool
is_expired ttl now t = ltb (t + ttl) now

-- a.Sub(b), which saturates at the ends of int64
unfoldable pub sub_time : Time → Time → ℤ
sub_time a b =
    if leb b a then pos (min (a - b) (2 ^ 63 - 1)) else negsuc (min (b - a - 1) (2 ^ 63 - 1))

-- -q
negate : ℕ → ℤ
negate q = if nat_beq q 0 then pos 0 else negsuc (q - 1)

-- d.Milliseconds(), which truncates towards zero
unfoldable pub milliseconds : ℤ → ℤ
unfolding negate
milliseconds (pos n) = pos (n / 1000000)
milliseconds (negsuc n) = negate ((n + 1) / 1000000)
