-- ===== src/Cli/Program.antt =====
-- `main`, `run`, `status` and `udev_rules` of src/main.rs, over the models of what they call. Signal
-- handlers, the notification socket, inherited handles and what a reading meets are arguments; log
-- lines are left out, and so are errors of the standard output.
use mathlib.Core.Option
use headset_battery_indicato.Prelude.{ℕ, Bool, Option, none, some, List, [], Text, if◌then◌else◌}
use headset_battery_indicato.Prelude.Outcome.{ok, err}
use headset_battery_indicato.Time.{Duration, Instant}
use headset_battery_indicato.Maxwell.Session.{Hidraw}
use headset_battery_indicato.Maxwell.Access.{Outside, outset}
use headset_battery_indicato.Maxwell.Reader.OneShot.{Scene}
use headset_battery_indicato.Source
use headset_battery_indicato.Source.{
  Source, Surroundings, Answer, last_probe_was_native, probe_once, looks_wedged,
}
use headset_battery_indicato.Notify.{Sockets, from_env}
use headset_battery_indicato.Bridge.Uhid.{UhidBattery, new_pool, device_pool}
use headset_battery_indicato.Bridge.Daemon.{over}
use headset_battery_indicato.Bridge.Daemon.Apply.{Probed, found, failure}
use headset_battery_indicato.Bridge.Daemon.Serving.{Served}
use headset_battery_indicato.Bridge.Daemon.Running.{
  BatterySource, State, Exit, told_to, wait_failed,
}
use headset_battery_indicato.Bridge.Daemon.Running
use headset_battery_indicato.Cli.{
  RunArgs, UdevRulesArgs, Command, run, status, udev_rules, Cli, config_of, command_or_default,
  source_of,
}
use headset_battery_indicato.Cli.Output.{printed, status_lines, udev_rules_text}

pub data ExitCode : Type 0 where
  success failed : ExitCode

-- What comes of a command: the daemon's exit code, or that of a command that answers, with what it
-- has printed.
pub data Outcome : Type 0 where
  served : ExitCode → Outcome
  answered : ExitCode → Text → Outcome

-- What a probe is to the bridge.
abbrev pub probed_of : Answer → Bool → Probed
probed_of (ok headsets) raised = found headsets
probed_of (err e) raised = failure raised

module _ (h : Hidraw) {M : Type 0} (playback : Option Text → M → M × Option Bool)
    (scene : ℕ → Scene) (around : ℕ → Surroundings) (raised : ℕ → Bool) where
  -- `impl BatterySource for Source`, with the machine that the readers look at. The stop flag is
  -- read again after a failure.
  abbrev pub battery_source : BatterySource
  battery_source = record {
    State = Source h.Device × Outside M;
    probe = λ state turn.
        let (source, outside, answer) =
          Source.probe h playback state.0 state.1 (scene turn) (around turn) in
        ((source, outside), probed_of answer (raised turn));
    last_probe_was_native = λ state. last_probe_was_native state.0;
  }

  module _ (k : UhidBattery) (n : Sockets) (stop : ℕ → Bool) (clock after : ℕ → Instant)
      (within : ℕ → ℕ → Instant)
      (serve : ℕ → Duration → ℕ → List k.Battery → List k.Battery × Served) where
    -- What the daemon is made of: the configuration, the handles that were inherited, and the
    -- socket that the environment names.
    abbrev pub started :
        RunArgs
        → List k.Handle
        → Option Text
        → Source h.Device
        → Outside M
        → State k (device_pool k) battery_source n stop clock after within serve
    started args inherited address source outside = record {
      daemon = over (config_of args) (new_pool inherited (config_of args).uhid_path);
      source = (source, outside);
      notifier = from_env n address;
    }

    abbrev pub code_of :
        Option (State k (device_pool k) battery_source n stop clock after within serve × Exit)
        → Option ExitCode
    code_of none = none
    code_of (some (r, told_to)) = some success
    code_of (some (r, wait_failed)) = some failed

    -- `run`; whether the signal handlers could be installed is the first argument.
    unfoldable pub run_daemon :
        Bool
        → ℕ
        → RunArgs
        → List k.Handle
        → Option Text
        → Source h.Device
        → Outside M
        → Option ExitCode
    unfolding Running.run
    run_daemon handled fuel args inherited address source outside =
        let exit = code_of (
          Running.run k (device_pool k) battery_source n stop clock after within serve fuel
            (started args inherited address source outside)) in
        if handled then exit else some failed

  -- What `status` prints of a reading, with the source that it leaves.
  abbrev pub status_of : (Text → Option Text) → Source h.Device × Outside M × Answer → Outcome
  unfolding status_lines printed looks_wedged
  status_of find_power_supply (source, outside, err e) = answered failed []
  status_of find_power_supply (source, outside, ok headsets) =
      answered success (
        printed
          (status_lines find_power_supply (looks_wedged h playback source) headsets outside).1)

  -- `status`; its result comes with what it has printed.
  unfoldable pub status_command :
      (Text → Option Text) → Source h.Device → Outside M → Surroundings → Outcome
  unfolding status_of probe_once
  status_command find_power_supply source outside o =
      status_of find_power_supply (probe_once h playback source outside scene o)

  abbrev pub rules_of : (Text → Option Text) → Text → Source h.Device × Outside M × Answer → Outcome
  unfolding udev_rules_text
  rules_of kind_rule group (source, outside, err e) = answered failed []
  rules_of kind_rule group (source, outside, ok headsets) =
      answered success (udev_rules_text kind_rule group headsets)

  -- `udev_rules`
  unfoldable pub udev_rules_command :
      (Text → Option Text) → UdevRulesArgs → Source h.Device → Outside M → Surroundings → Outcome
  unfolding rules_of probe_once
  udev_rules_command kind_rule args source outside o =
      rules_of kind_rule args.group (probe_once h playback source outside scene o)

-- Where the program runs: what is under neither reader's nor the daemon's control.
pub record Host : Type 1 where
  pub hidraw : Hidraw
  pub Machine : Type 0
  pub playback : Option Text → Machine → Machine × Option Bool
  pub scene : ℕ → Scene
  pub around : ℕ → Surroundings
  pub once : Surroundings
  pub uhid : UhidBattery
  pub sockets : Sockets
  pub stop : ℕ → Bool
  pub clock : ℕ → Instant
  pub after : ℕ → Instant
  pub within : ℕ → ℕ → Instant
  pub serve : ℕ → Duration → ℕ → List uhid.Battery → List uhid.Battery × Served
  pub error_clock : ℕ → Instant
  pub handled : Bool
  pub inherited : List uhid.Handle
  pub address : Option Text
  pub find_power_supply : Text → Option Text
  pub kind_rule : Text → Option Text
  pub dev_uhid : Text

module _ (host : Host) where
  -- The dispatch of `main`.
  unfoldable pub commanded :
      ℕ → Command → Source host.hidraw.Device → Outside host.Machine → Option Outcome
  unfolding run_daemon status_command udev_rules_command
  commanded fuel (run args) source outside = Option.map served (
      run_daemon host.hidraw host.playback host.scene host.around host.stop host.uhid host.sockets
        host.stop host.clock host.after host.within host.serve host.handled fuel args host.inherited
        host.address source outside)
  commanded fuel status source outside = some (
      status_command host.hidraw host.playback host.scene host.around host.stop
        host.find_power_supply source outside host.once)
  commanded fuel (udev_rules args) source outside = some (
      udev_rules_command host.hidraw host.playback host.scene host.around host.stop host.kind_rule
        args source outside host.once)

  -- `main`, on a command line that parsed; `none` means that the fuel of the daemon ran out.
  unfoldable pub main : ℕ → Cli → host.Machine → Option Outcome
  unfolding commanded command_or_default source_of outset
  main fuel cli machine =
      let command = command_or_default host.dev_uhid cli.command in
      commanded fuel command (source_of cli.common command) (outset machine host.error_clock)
