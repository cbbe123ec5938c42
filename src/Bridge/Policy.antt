-- ===== src/Bridge/Policy.antt =====
-- src/bridge/policy.rs: the decisions the bridge makes about a reading, as functions of their
-- inputs.
pub mod Graces
use headset_battery_indicato.Prelude.{
  ℕ, Bool, true, false, not, ◌&&◌, Option, none, some, min, abs_diff, ltb, leb, if◌then◌else◌,
  option_eq, is_some, Text,
}
use headset_battery_indicato.Time.{Duration, Instant, from_secs, duration_since}

-- `uhid_battery::Reading`, as the source uses it: two public fields.
pub record Reading : Type 0 where
  pub percent : ℕ
  pub charging : Bool

-- `super::Config`
pub record Config : Type 0 where
  pub interval : Duration
  pub offline_grace : Duration
  pub missing_grace : Duration
  pub uhid_path : Text

abbrev pub default_interval_secs : ℕ
default_interval_secs = 60

abbrev pub default_offline_grace_secs : ℕ
default_offline_grace_secs = 10

abbrev pub default_missing_grace_secs : ℕ
default_missing_grace_secs = 30

-- `Config::default`, the path of the device node being `uhid-battery`'s.
abbrev pub default_config : Text → Config
default_config dev_uhid = record {
  interval = from_secs default_interval_secs;
  offline_grace = from_secs default_offline_grace_secs;
  missing_grace = from_secs default_missing_grace_secs;
  uhid_path = dev_uhid;
}

abbrev pub native_tick : Duration
native_tick = from_secs 1

abbrev pub unanswered_retry : Duration
unanswered_retry = from_secs 3

abbrev pub max_plausible_step : ℕ
max_plausible_step = 15

abbrev pub confirm_tolerance : ℕ
confirm_tolerance = 5

unfoldable pub next_delay : Bool → Bool → Config → Duration
next_delay unanswered native config =
    let regular = if native then native_tick else config.interval in
    if unanswered then min unanswered_retry regular else regular

-- The clock as it is left behind.
pub note : Option Instant → Bool → Instant → Option Instant
note since true now = none
note none false now = some now
note (some at) false now = some at

-- The closure of `Bridge::expire`: how long a clock has run.
abbrev pub elapsed : Option Instant → Instant → Duration
elapsed none now = 0
elapsed (some start) now = duration_since now start

pub data Withdrawal : Type 0 where
  keep silent missing : Withdrawal

unfoldable pub withdrawal : Duration → Duration → Config → Withdrawal
withdrawal silent_for missing_for config =
    if ltb 0 missing_for
    then if ltb config.missing_grace missing_for then missing else keep
    else if ltb config.offline_grace silent_for
    then silent
    else keep

abbrev pub unless : Bool → Option ℕ → Option ℕ
unless same deferred = if same then none else deferred

unfoldable pub second_opinion : Option ℕ → Option ℕ → Option ℕ → Option ℕ
second_opinion deferred deferred_sample sample =
    unless (is_some sample && option_eq sample deferred_sample) deferred

pub data Verdict : Type 0 where
  accept defer hold : Verdict

unfoldable pub confirmed : Option ℕ → ℕ → Verdict
confirmed none percent = defer
confirmed (some previous) percent =
    if leb (abs_diff previous percent) confirm_tolerance then accept else defer

unfoldable pub vet : Reading → Reading → Option ℕ → Verdict
unfolding confirmed
vet published candidate deferred =
    if ltb max_plausible_step (abs_diff published.percent candidate.percent)
    then confirmed deferred candidate.percent
    else if (not candidate.charging && not published.charging)
        && ltb published.percent candidate.percent
    then hold
    else accept
