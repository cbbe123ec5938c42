-- ===== src/Cli.antt =====
-- src/main.rs: the command line. What `clap` parses is the record `Cli`; Cli/Output is what the
-- commands print, and Cli/Program runs them.
pub mod Ending
pub mod Output
pub mod Rules
pub mod Program
mod Tests
use headset_battery_indicato.Prelude.{
  ℕ, zero, suc, ◌≤◌, ◌≡◌, Bool, true, false, Option, none, some, arith, Text, codes, ltb,
  if◌then◌else◌, min,
}
use headset_battery_indicato.Time.{Duration, from_secs}
use headset_battery_indicato.HeadsetControl.Process.{Invocation}
use headset_battery_indicato.Source.{Backend, Source, new_source, default_native_interval_secs}
use headset_battery_indicato.Source
use headset_battery_indicato.Bridge.Policy.{
  Config, default_interval_secs, default_offline_grace_secs, default_missing_grace_secs, next_delay,
}

pub data BackendArg : Type 0 where
  auto native headsetcontrol : BackendArg

-- `impl From<BackendArg> for Backend`
unfoldable pub backend_of : BackendArg → Backend
backend_of auto = Source.auto
backend_of native = Source.native
backend_of headsetcontrol = Source.headset_control

pub record CommonArgs : Type 0 where
  pub backend : BackendArg
  pub headsetcontrol : Text
  pub timeout : ℕ
  pub verbose : ℕ

pub record RunArgs : Type 0 where
  pub interval : ℕ
  pub native_interval : ℕ
  pub offline_grace : ℕ
  pub missing_grace : ℕ
  pub uhid : Text

-- `RunArgs::default`, the path of the device node being `uhid-battery`'s.
unfoldable pub default_run_args : Text → RunArgs
default_run_args dev_uhid = record {
  interval = default_interval_secs;
  native_interval = default_native_interval_secs;
  offline_grace = default_offline_grace_secs;
  missing_grace = default_missing_grace_secs;
  uhid = dev_uhid;
}

pub record UdevRulesArgs : Type 0 where
  pub group : Text

pub data Command : Type 0 where
  run : RunArgs → Command
  status : Command
  udev_rules : UdevRulesArgs → Command

pub record Cli : Type 0 where
  pub common : CommonArgs
  pub command : Option Command

pub data LevelFilter : Type 0 where
  info debug trace : LevelFilter

-- `init_logging`, less the setting up of the log.
unfoldable pub log_level : ℕ → LevelFilter
log_level zero = info
log_level (suc zero) = debug
log_level (suc (suc verbose)) = trace

-- `max(1)`
abbrev pub at_least_one : ℕ → ℕ
at_least_one n = if ltb n 1 then 1 else n

unfoldable pub control_of : CommonArgs → Invocation
control_of common = record {
  binary = common.headsetcontrol;
  timeout = from_secs (at_least_one common.timeout);
}

unfoldable pub command_or_default : Text → Option Command → Command
unfolding default_run_args
command_or_default dev_uhid none = run (default_run_args dev_uhid)
command_or_default dev_uhid (some command) = command

unfoldable pub native_interval_of : Command → ℕ
native_interval_of (run args) = args.native_interval
native_interval_of status = default_native_interval_secs
native_interval_of (udev_rules args) = default_native_interval_secs

unfoldable pub source_of : {D : Type 0} → CommonArgs → Command → Source D
unfolding new_source backend_of control_of native_interval_of
source_of common command =
    new_source (backend_of common.backend) (control_of common)
      (from_secs (at_least_one (native_interval_of command)))

-- The configuration that `run` starts the bridge with.
unfoldable pub config_of : RunArgs → Config
config_of args = record {
  interval = from_secs (at_least_one args.interval);
  offline_grace = from_secs args.offline_grace;
  missing_grace = from_secs args.missing_grace;
  uhid_path = args.uhid;
}

-- Whatever numbers the command line has, zero included, the daemon pauses for at least a second
-- between two polls, the native reader for a second between two questions, and HeadsetControl is
-- given a second.
pauses_at_least_second :
    (D : Type 0) (common : CommonArgs) (args : RunArgs) (unanswered natively : Bool)
    → (from_secs 1 ≤ next_delay unanswered natively (config_of args))
      × (from_secs 1 ≤ (source_of {D = D} common (run args)).native_interval)
      × (from_secs 1 ≤ (source_of {D = D} common (run args)).control.timeout)
unfolding next_delay config_of source_of
pauses_at_least_second D common args unanswered natively =
    (ground arith, ground arith, ground arith)
