-- ===== src/Time.antt =====
-- `Duration` and `Instant` of the standard library, in nanoseconds: an instant is the time since
-- some origin. `Instant::duration_since` stops at zero, as `-` does here.
use headset_battery_indicato.Prelude.{ℕ, ◌*◌, ◌-◌}

abbrev pub Duration : Type 0
Duration = ℕ

abbrev pub Instant : Type 0
Instant = ℕ

-- `Duration::from_secs`
abbrev pub from_secs : ℕ → Duration
from_secs n = n * 1_000_000_000

-- `Duration::from_millis`
abbrev pub from_millis : ℕ → Duration
from_millis n = n * 1_000_000

-- `Duration::MAX`, 2^64 seconds less a nanosecond.
abbrev pub max_duration : Duration
max_duration = 18_446_744_073_709_551_615_999_999_999

abbrev pub duration_since : Instant → Instant → Duration
duration_since now at = now - at
