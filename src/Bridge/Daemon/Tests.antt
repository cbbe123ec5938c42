-- ===== src/Bridge/Daemon/Tests.antt =====
-- The daemon's loops over two batteries, of which one has been silent for too long and has failed
-- before.
use headset_battery_indicato.Prelude.{
  ◌+◌, length, ℕ, ◌≤◌, ◌≡◌, refl, Bool, leb, true, false, Option, none, some, List, [], ◌∷◌, arith,
  Text, codes, text_eq,
}
use headset_battery_indicato.Prelude.Assoc.{text_key, contains}
use headset_battery_indicato.Time.{Instant, from_secs}
use headset_battery_indicato.Bridge.Policy.{default_config, withdrawal}
use headset_battery_indicato.Bridge.Batteries.{VirtualBattery}
use headset_battery_indicato.Bridge.Uhid.{UhidBattery, created, listed, device_pool, new_pool}
use headset_battery_indicato.Bridge.Daemon.{over}
use headset_battery_indicato.Bridge.Daemon.Devices.{Daemon, expire}
use headset_battery_indicato.Bridge.Daemon.Invariant.{Inv}
use headset_battery_indicato.Bridge.Daemon.Expiry.{
  stays, staying, staying_devices, given_back, expire-staying,
}
use headset_battery_indicato.Headset.{Headset, discharging}
use headset_battery_indicato.Bridge.Daemon.Apply.{found, tick}
use headset_battery_indicato.Bridge.Daemon.Handles.{handles, device_ledger}
use headset_battery_indicato.Bridge.Daemon.Handles.Poll.{tick-handles}
use headset_battery_indicato.Bridge.Daemon.Handles.Inherited.{inherited-handles}
use headset_battery_indicato.Bridge.Daemon.Serving.{Served, woken, broke, wait, shutdown}
use headset_battery_indicato.Notify.{Sockets, silent_notifier}
use headset_battery_indicato.Bridge.Daemon.Running.{BatterySource, Running, run}
use headset_battery_indicato.Bridge.Daemon.Running.Stop.{Ends, run-Ends}
use headset_battery_indicato.Bridge.Batteries.{position}
use headset_battery_indicato.Bridge.Daemon.Abandoned.Forever.{
  Event, polled, served, lived, abandoned_for_good,
}
use headset_battery_indicato.Bridge.Daemon.Serving.Strikes.{IsServing, Waits, wait-Waits}

-- A kernel whose devices and handles are numbers, alike.
abbrev plain : UhidBattery
plain = record {
  Battery = ℕ;
  Handle = ℕ;
  new_reading = λ percent charging. record { percent = percent; charging = charging };
  reading = λ battery. record { percent = 50; charging = false };
  update = λ battery reading. (battery, true);
  destroy = λ battery. battery;
  open_handle = λ path. none;
  create_battery = λ handle identity reading. created handle;
  registered = λ battery timeout. (battery, listed);
}

abbrev battery : Text → Option Instant → ℕ → VirtualBattery
battery key silent_since failures = record {
  key = key;
  name = key;
  last_reading = 0;
  last_seen = 0;
  silent_since = silent_since;
  missing_since = none;
  gone_since = none;
  deferred = none;
  deferred_sample = none;
  held = none;
  logged_percent = 50;
  published_at = 0;
  failures = failures;
}

abbrev two : Daemon plain (device_pool plain)
two = record {
  config = default_config [];
  uhid = record { spare = []; path = []; may_open = false };
  batteries = record {
    devices = 8 ∷ 9 ∷ [];
    states = battery (codes "off") (some 0) 2 ∷ battery (codes "on") none 0 ∷ [];
  };
  probe_failing = false;
  attach_retry_at = [];
  abandoned = [];
  last_summary = none;
  unsettled = none;
}

two-Inv : Inv two
unfolding contains text_eq
two-Inv = record { parallel = refl; sound = ground arith }

one_expires : (expire plain (device_pool plain) two (from_secs 11)).batteries.devices ≡ 9 ∷ []
unfolding expire withdrawal
one_expires = refl

expire-staying_example : expire plain (device_pool plain) two (from_secs 11) ≡ record two {
  uhid =
      given_back plain
        (device_pool plain)
        (stays two.config (from_secs 11))
        two.batteries.states
        two.batteries.devices
        two.uhid;
  batteries = record {
    devices =
        staying_devices
          (stays two.config (from_secs 11))
          two.batteries.states
          two.batteries.devices;
    states = staying (stays two.config (from_secs 11)) two.batteries.states;
  };
}
expire-staying_example = expire-staying plain (device_pool plain) two (from_secs 11) refl

-- The first device fails whenever it is served.
abbrev failing_first : ℕ → List ℕ → List ℕ × Served
failing_first turn [] = ([], woken)
failing_first turn (device ∷ devices) = (device ∷ devices, broke (some 0))

failing_first-IsServing : IsServing failing_first
failing_first-IsServing = record {
  in_place = λ turn devices. ground arith;
  blames = λ turn devices. ground arith;
}

wait-Waits_example :
    Waits plain
      (device_pool plain)
      failing_first
      (λ turn. 0)
      failing_first-IsServing
      (wait plain (device_pool plain) failing_first (λ turn. 0) 5 0 two)
wait-Waits_example =
    wait-Waits plain (device_pool plain) failing_first (λ turn. 0) failing_first-IsServing 5 0 two
      two-Inv (omega arith)

abbrev headset : Headset
headset = record {
  name = codes "Audeze Maxwell";
  product = [];
  vendor_id = 0x3329;
  product_id = 0x4b18;
  supports_battery = true;
  battery = discharging 73;
  sample = some 1;
}

-- The poll creates a device and withdraws another.
tick-handles_example :
    handles plain (device_pool plain) (device_ledger plain) two
    ≤ handles plain
        (device_pool plain)
        (device_ledger plain)
        (tick plain (device_pool plain) two (found (headset ∷ [])) (from_secs 11)).0
tick-handles_example =
    tick-handles plain (device_pool plain) (device_ledger plain) two (found (headset ∷ []))
      (from_secs 11)

-- A device is created, and withdrawn once it has failed three times.
abbrev device_fails : List Event
device_fails =
    polled (found (headset ∷ [])) 0 ∷ served 0 false 1 ∷ served 0 false 2 ∷ served 0 false 3 ∷ []

inherited-handles_example :
    (handles plain (device_pool plain) (device_ledger plain) (
        lived plain
          (device_pool plain)
          (over (default_config []) (new_pool (8 ∷ 9 ∷ []) []))
          device_fails)
      ≡ 2)
    × (length
            (lived plain
              (device_pool plain)
              (over (default_config []) (new_pool (8 ∷ 9 ∷ []) []))
              device_fails).uhid.spare
          + length
              (shutdown plain (device_pool plain) (
                lived plain
                  (device_pool plain)
                  (over (default_config []) (new_pool (8 ∷ 9 ∷ []) []))
                  device_fails)).1
        ≡ 2)
inherited-handles_example =
    inherited-handles plain (default_config []) (8 ∷ 9 ∷ []) [] device_fails refl

-- A reader that finds nothing.
abbrev nothing_found : BatterySource
nothing_found = record {
  State = Unit;
  probe = λ source turn. (source, found []);
  last_probe_was_native = λ source. true;
}

abbrev no_sockets : Sockets
no_sockets = record {
  Socket = ℕ;
  unbound = none;
  connect = λ socket address. none;
  transmit = λ socket message. (socket, false);
}

abbrev stopped_at_three : ℕ → Bool
stopped_at_three turn = leb 3 turn

abbrev running : Running (Daemon plain (device_pool plain)) Unit ℕ
running = record { daemon = two; source = tt; notifier = silent_notifier }

run-Ends_example :
    Ends plain
      (device_pool plain)
      nothing_found
      no_sockets
      stopped_at_three
      (λ turn. turn)
      (λ turn. turn)
      (λ turn step. turn)
      (λ turn timeout. failing_first)
      (λ turn timeout. failing_first-IsServing)
      (run plain
        (device_pool plain)
        nothing_found
        no_sockets
        stopped_at_three
        (λ turn. turn)
        (λ turn. turn)
        (λ turn step. turn)
        (λ turn timeout. failing_first)
        5
        running)
run-Ends_example =
    run-Ends plain (device_pool plain) nothing_found no_sockets stopped_at_three (λ turn. turn)
      (λ turn. turn) (λ turn step. turn) (λ turn timeout. failing_first)
      (λ turn timeout. failing_first-IsServing) 5 running 3 (λ turn late. ground (arith, late))
      (omega arith) two-Inv

-- A poll, and a device that fails.
abandoned_for_good_example :
    position
      (lived plain
        (device_pool plain)
        (record two { abandoned = codes "gone" ∷ [] })
        (polled (found []) (from_secs 20) ∷ served 0 false (from_secs 21) ∷ [])).batteries
      (codes "gone")
    ≡ none
unfolding contains text_eq
abandoned_for_good_example =
    abandoned_for_good plain (device_pool plain) (record two { abandoned = codes "gone" ∷ [] })
      (polled (found []) (from_secs 20) ∷ served 0 false (from_secs 21) ∷ []) (codes "gone")
      (record { parallel = refl; sound = ground arith }) refl
