-- ===== src/Timestamp.antt =====
-- Timestamps of video packets: `VideoTimestamp` of mmids-core/src/lib.rs. A `Duration` is its number
-- of nanoseconds; i64 and u64 arithmetic wraps, as in a release build.
pub mod Laws
use mmids_core.Common.{ℕ, ◌+◌, ◌-◌, ◌*◌, ◌/◌, ◌%◌, ◌^◌, Bool, ◌&&◌, ltb, leb, if◌then◌else◌}
use mmids_core.Common.Int.{ℤ, pos, negsuc, pos_part, neg_part, to_word, of_word}

-- `as_millis` and `from_millis`.
unfoldable pub as_millis : ℕ → ℕ
as_millis d = d / 1_000_000

unfoldable pub from_millis : ℕ → ℕ
from_millis n = n * 1_000_000

abbrev pub u64_mod : ℕ
u64_mod = 2 ^ 64

pub record VideoTimestamp : Type 0 where
  pub dts : ℕ
  pub pts_offset : ℤ

-- `pts.as_millis() as i64 - dts.as_millis() as i64`.
unfoldable pub millis_between : ℕ → ℕ → ℤ
unfolding as_millis
millis_between dts pts =
    of_word u64_mod ((as_millis pts % u64_mod + u64_mod - as_millis dts % u64_mod) % u64_mod)

-- `(-8388608..838607).contains(&z)`.
unfoldable pub in_offset_range : ℤ → Bool
in_offset_range z = leb (neg_part z) 8388608 && ltb (pos_part z) 838607

-- The offset as an i32; zero outside the range.
unfoldable pub clamp_offset : ℤ → ℤ
unfolding in_offset_range
clamp_offset z = of_word (2 ^ 32) (to_word (2 ^ 32) (if in_offset_range z then z else pos 0))

unfoldable pub from_durations : ℕ → ℕ → VideoTimestamp
from_durations dts pts = record { dts = dts; pts_offset = clamp_offset (millis_between dts pts) }

unfoldable pub from_zero : VideoTimestamp
from_zero = record { dts = 0; pts_offset = pos 0 }

-- The offset is added to, or its opposite taken from, the decoding time in wrapping u64.
unfoldable pub shift_millis : ℕ → ℤ → ℕ
shift_millis m (pos n) = (m % u64_mod + n) % u64_mod
shift_millis m (negsuc n) = (m % u64_mod + u64_mod - (n + 1)) % u64_mod

-- `VideoTimestamp::pts`.
unfoldable pub pts : VideoTimestamp → ℕ
pts t = from_millis (shift_millis (as_millis t.dts) t.pts_offset)
