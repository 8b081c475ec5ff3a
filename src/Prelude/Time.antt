-- ===== src/Prelude/Time.antt =====
-- Go's `time.Time` and `time.Duration`, as far as the backend uses them. An instant is the number
-- of nanoseconds since the first instant that Go represents (the "absolute" zero of package time),
-- so Go's zero `Time`, 1 January of year 1, is `zero_time`. Locations and monotonic readings, which
-- no comparison here looks at, are left out: `UTC()` is the identity.
use Prim.Native.Nat.{ℕ, ◌*◌, ◌%◌}
use mathlib.Core.Bool.{Bool, not}
use ai_portfolio_research_as.Prelude.Tests.{ltb, ◌==◌}

abbrev pub Instant : Type 0
Instant = ℕ

-- 9223371966579724800 seconds lie between Go's absolute zero and year 1.
unfoldable pub zero_time : Instant
zero_time = 9223371966579724800 * 1000000000

abbrev pub is_zero_time : Instant → Bool
is_zero_time t = t == zero_time

-- `t.Nanosecond() % 1000 != 0`: a second is a multiple of 1000 nanoseconds.
abbrev pub is_submicrosecond : Instant → Bool
is_submicrosecond t = not (t % 1000 == 0)

abbrev pub after : Instant → Instant → Bool
after a b = ltb b a

abbrev pub before : Instant → Instant → Bool
before a b = ltb a b

abbrev pub utc : Instant → Instant
utc t = t
