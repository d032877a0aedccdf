-- ===== src/Prelude/Word.antt =====
-- Machine integers as native numbers, and durations. The release build wraps: `+` on u64 and usize
-- (64 bits wide) is a sum modulo 2 ^ 64. A `Duration` counts nanoseconds; its `+` panics where the
-- sum does not fit 2 ^ 64 - 1 seconds and 999999999 nanoseconds.
use Prim.Native.Nat.{ℕ, ◌+◌, ◌*◌, ◌/◌, ◌%◌, ◌^◌}
use nailgun.Prelude.Tests.{ltb, if◌then◌else◌}
use nailgun.Prelude.Outcome.{Result, Fault, ok, err}

abbrev pub u16_mod : ℕ
u16_mod = 2 ^ 16

abbrev pub u32_mod : ℕ
u32_mod = 2 ^ 32

abbrev pub u64_mod : ℕ
u64_mod = 2 ^ 64

abbrev pub add64 : ℕ → ℕ → ℕ
add64 a b = (a + b) % u64_mod

abbrev pub nanos_per_sec : ℕ
nanos_per_sec = 1_000_000_000

-- One more than the longest duration.
abbrev pub duration_limit : ℕ
duration_limit = u64_mod * nanos_per_sec

abbrev pub add_duration : ℕ → ℕ → Result ℕ
add_duration a b = if ltb (a + b) duration_limit then ok (a + b) else err Fault.panicked

abbrev pub from_micros : ℕ → ℕ
from_micros n = n * 1000

abbrev pub as_micros : ℕ → ℕ
as_micros d = d / 1000
