-- ===== src/Cli/Tests.antt =====
-- The commands on a host without a dongle, and what they print of one headset.
use headset_battery_indicato.Prelude.{
  ℕ, ◌+◌, ◌*◌, ◌≡◌, refl, true, false, none, some, [], ◌∷◌, arith, codes, All, leb, split_lines,
  decimal,
}
use headset_battery_indicato.Prelude.Outcome.{ok}
use headset_battery_indicato.Headset.{Headset, discharging, hex4}
use headset_battery_indicato.Cli.Ending.{Finished, looped, main-Finished}
use headset_battery_indicato.Bridge.Daemon.Serving.Strikes.{IsServing}
use headset_battery_indicato.Maxwell.Access.{outset}
use headset_battery_indicato.Time.{Duration, Instant, from_millis}
use headset_battery_indicato.HeadsetControl.Process.{Ticks}
use headset_battery_indicato.Source.{Surroundings}
use headset_battery_indicato.Bridge.Uhid.{created, listed}
use headset_battery_indicato.Bridge.Daemon.Serving.{woken}
use headset_battery_indicato.Cli.{
  CommonArgs, Cli, auto, headsetcontrol, status, run, default_run_args, command_or_default,
  source_of,
}
use headset_battery_indicato.Cli.Output.{printed, status_lines, udev_rules_text}
use headset_battery_indicato.Cli.Rules.{IsExplained, AllRuled, udev_rules-IsExplained}
use headset_battery_indicato.Cli.Program.{Host, ExitCode, failed, served, answered, main}

abbrev ticking : ℕ → Instant
ticking i = i * from_millis 25

ticking-Ticks : Ticks ticking 0
ticking-Ticks = record { begun = omega arith; ticks = λ j. omega arith }

-- No program is installed, and no dongle is plugged in.
abbrev bare : Host
bare = record {
  hidraw = record {
    Device = ℕ;
    IoError = ℕ;
    open_node = λ node. ok 3;
    opening = λ now node. now + 1;
    get_input = λ device buffer. (device, ok []);
    write = λ device bytes. (device, ok tt);
    is_gone = λ e. false;
    is_denied = λ e. false;
    describe = λ e. [];
  };
  Machine = ℕ;
  playback = λ device machine. (machine, none);
  scene = λ turn. record { dongles = []; wired = false; now = turn; answered = turn };
  around = λ turn. none_installed;
  once = none_installed;
  uhid = record {
    Battery = ℕ;
    Handle = ℕ;
    new_reading = λ percent charging. record { percent = percent; charging = charging };
    reading = λ battery. record { percent = 50; charging = false };
    update = λ battery reading. (battery, true);
    destroy = λ battery. battery;
    open_handle = λ path. none;
    create_battery = λ handle identity reading. created handle;
    registered = λ battery timeout. (battery, listed);
  };
  sockets = record {
    Socket = ℕ;
    unbound = none;
    connect = λ socket address. none;
    transmit = λ socket message. (socket, false);
  };
  stop = λ turn. leb 3 turn;
  clock = λ turn. turn;
  after = λ turn. turn;
  error_clock = λ turn. turn;
  within = λ turn step. turn;
  serve = λ turn timeout step devices. (devices, woken);
  handled = true;
  inherited = [];
  address = none;
  find_power_supply = λ uniq. none;
  kind_rule = λ phys. none;
  dev_uhid = codes "/dev/uhid";
}
  where
    none_installed : Surroundings
    none_installed = record {
      system = record {
        Child = ℕ;
        spawn = λ binary args. none;
        try_wait = λ child. (child, some true);
        kill = λ child. child;
        written = λ child. ([], []);
      };
      stop = λ turn. false;
      clock = ticking;
      started = 0;
      ticks = ticking-Ticks;
      decode = λ json. none;
    }

abbrev common : CommonArgs
common = record {
  backend = auto;
  headsetcontrol = codes "headsetcontrol";
  timeout = 0;
  verbose = 0;
}

abbrev as_daemon : Cli
as_daemon = record { common = common; command = none }

serving : (i : ℕ) (timeout : Duration) → IsServing (bare.serve i timeout)
serving i timeout = record { in_place = λ step devices. refl; blames = λ step devices. tt }

main-Finished_example :
    (code : ExitCode) × (main bare 5 as_daemon 0 ≡ some (served code))
    × Finished bare serving
        (looped bare serving 5
          (default_run_args (codes "/dev/uhid"))
          (source_of common (run (default_run_args (codes "/dev/uhid"))))
          (outset 0 (λ turn. turn)))
        code
unfolding command_or_default
main-Finished_example =
    main-Finished bare serving 5 3 as_daemon (default_run_args (codes "/dev/uhid")) 0 refl
      (λ turn late. ground (arith, late)) (omega arith)

-- A reading that fails is the command's failure.
status_fails :
    main bare 0
      (record { common = record common { backend = headsetcontrol }; command = some status })
      0
    ≡ some (answered failed [])
unfolding main
status_fails = refl

abbrev headset : Headset
headset = record {
  name = codes "Maxwell";
  product = codes "Dongle";
  vendor_id = 0x3329;
  product_id = 0x4b18;
  supports_battery = true;
  battery = discharging 73;
  sample = none;
}

status_of_one :
    printed (status_lines (λ uniq. none) (λ (machine : ℕ). (machine, false)) (headset ∷ []) 0).1
    ≡ codes
        "Maxwell [3329:4b18] via Dongle\n  battery: 73%\n  sysfs:   not published (is the daemon running?)\n"
unfolding printed status_lines hex4 decimal
status_of_one = refl

udev_rules-IsExplained_example :
    All
      (IsExplained (codes "audio") none (headset ∷ []))
      (split_lines (udev_rules_text (λ phys. none) (codes "audio") (headset ∷ [])))
    × AllRuled
        (codes "audio")
        (headset ∷ [])
        (split_lines (udev_rules_text (λ phys. none) (codes "audio") (headset ∷ [])))
udev_rules-IsExplained_example =
    udev_rules-IsExplained (codes "audio") (omega arith) (λ phys. none) (headset ∷ [])
      (λ rule e. cc) ((omega arith, omega arith), tt)
