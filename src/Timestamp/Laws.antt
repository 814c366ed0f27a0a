-- ===== src/Timestamp/Laws.antt =====
-- What presentation time a video timestamp stands for.
use mmids_core.Common.{ℕ, ◌+◌, ◌^◌, ◌≤◌, ◌<◌, ◌≡◌, ◌⊎◌, arith}
use mmids_core.Common.Int.{pos, sub_ℕ}
use mmids_core.Timestamp.{
  as_millis, from_millis, millis_between, clamp_offset, from_durations, shift_millis, pts,
}

-- Both times below 2 ^ 63 milliseconds.
abbrev pub IsTime : ℕ → Type 0
IsTime d = as_millis d < 2 ^ 63

millis_between_lem :
    (dts now : ℕ)
    → IsTime dts
    → IsTime now
    → millis_between dts now ≡ sub_ℕ (as_millis now) (as_millis dts)
unfolding millis_between
millis_between_lem dts now h k = ground arith

clamp_in : (a b : ℕ) → b ≤ a + 8388608 → a < b + 838607 → clamp_offset (sub_ℕ a b) ≡ sub_ℕ a b
unfolding clamp_offset
clamp_in a b h k = ground arith

clamp_out : (a b : ℕ) → (a + 8388608 < b) ⊎ (b + 838607 ≤ a) → clamp_offset (sub_ℕ a b) ≡ pos 0
unfolding clamp_offset
clamp_out a b h = ground arith

shift_back : (a b : ℕ) → a < 2 ^ 63 → b < 2 ^ 63 → shift_millis b (sub_ℕ a b) ≡ a
unfolding shift_millis
shift_back a b h k = ground arith

shift_zero : (b : ℕ) → b < 2 ^ 63 → shift_millis b (pos 0) ≡ b
unfolding shift_millis
shift_zero b h = omega arith

-- Where the presentation time is at most 8388608 ms before the decoding time and less than 838607 ms
-- after it, and both are below 2^63 ms, the timestamp gives back the presentation time, in whole
-- milliseconds.
pub pts-from_durations :
    (dts now : ℕ)
    → IsTime dts
    → IsTime now
    → as_millis dts ≤ as_millis now + 8388608
    → as_millis now < as_millis dts + 838607
    → pts (from_durations dts now) ≡ from_millis (as_millis now)
unfolding pts from_durations
pts-from_durations dts now h k l m =
    rw (millis_between_lem dts now h k, clamp_in (as_millis now) (as_millis dts) l m)
      (rw (shift_back (as_millis now) (as_millis dts) k h))

-- Where the presentation time is more than 8388608 ms before the decoding time, or 838607 ms or more
-- after it, and both are below 2^63 ms, the timestamp gives the decoding time as the presentation
-- time: so it is for every offset from 838607 to 8388607 ms, which a signed number of 24 bits holds.
pub pts-from_durations_out :
    (dts now : ℕ)
    → IsTime dts
    → IsTime now
    → (as_millis now + 8388608 < as_millis dts) ⊎ (as_millis dts + 838607 ≤ as_millis now)
    → pts (from_durations dts now) ≡ from_millis (as_millis dts)
unfolding pts from_durations
pts-from_durations_out dts now h k o =
    rw (millis_between_lem dts now h k, clamp_out (as_millis now) (as_millis dts) o)
      (rw (shift_zero (as_millis dts) h))
