-- ===== src/Bridge/Tests.antt =====
-- The bridge over a kernel made for the purpose, and the theorems at concrete readings and polls.
use headset_battery_indicato.Prelude.{
  ℕ, ◌≤◌, ◌<◌, ◌≡◌, refl, ◌↔◌, true, false, Option, none, some, List, [], ◌∷◌, arith, abs_diff,
}
use headset_battery_indicato.Time.{from_secs}
use headset_battery_indicato.Headset.{Headset, discharging}
use headset_battery_indicato.Bridge.Policy.{
  Reading, Config, default_config, elapsed, withdrawal, silent, missing, confirm_tolerance, vet,
  second_opinion,
}
use headset_battery_indicato.Bridge.Policy.Graces.{
  noted, misses, withdrawal_exact, grace_from_first_miss,
}
use headset_battery_indicato.Bridge.Batteries.{VirtualBattery}
use headset_battery_indicato.Bridge.Batteries
use headset_battery_indicato.Bridge.Vetted.{vetted}
use headset_battery_indicato.Bridge.Vetted.Jumps.{same_sample, jump_needs_two, second_reading_shows}
use headset_battery_indicato.Bridge.Vetted.Lowest.{published, lowest, published_is_lowest}
use headset_battery_indicato.Bridge.Uhid.{UhidBattery, created, listed, device_pool, new_pool}
use headset_battery_indicato.Bridge.Daemon.{over}
use headset_battery_indicato.Bridge.Daemon.Devices.{Daemon}
use headset_battery_indicato.Bridge.Daemon.Apply.{found, tick}
use headset_battery_indicato.Bridge.Daemon.Invariant.{Inv}
use headset_battery_indicato.Bridge.Daemon.Invariant.Poll.{tick-Inv}

abbrev config : Config
config = default_config []

abbrev on : ℕ → Reading
on percent = record { percent = percent; charging = false }

abbrev battery : VirtualBattery
battery = record {
  key = [];
  name = [];
  last_reading = 0;
  last_seen = 0;
  silent_since = none;
  missing_since = none;
  gone_since = none;
  deferred = none;
  deferred_sample = none;
  held = none;
  logged_percent = 92;
  published_at = 0;
  failures = 0;
}

-- A night's sleep: 92%, then 40% and 38%.
after_the_night :
    (vetted (vetted battery (on 92) (on 40) (some 7)).0 (on 92) (on 38) (some 8)).1 ≡ some (on 38)
unfolding vetted vet second_opinion
after_the_night = refl

jump_needs_two_example :
    (on 38 ≡ on 38) × (abs_diff 40 38 ≤ confirm_tolerance) × (same_sample (some 8) (some 7) ≡ false)
unfolding vetted vet second_opinion
jump_needs_two_example =
    jump_needs_two battery (on 92) (on 40) (on 38) (on 38) (some 7) (some 8) refl (omega arith)

second_reading_shows_example :
    (vetted (vetted battery (on 59) (on 80) none).0 (on 59) (on 80) none).1 ≡ some (on 80)
unfolding vetted vet second_opinion
second_reading_shows_example =
    second_reading_shows battery (on 59) (on 80) none none (omega arith) refl

-- The gauge settling after the headset wakes.
abbrev settling : List (ℕ × Option ℕ)
settling = (62, none) ∷ (58, none) ∷ (60, none) ∷ (57, none) ∷ []

published_is_lowest_example : published battery (on 59) settling ≡ on (lowest 59 settling)
published_is_lowest_example =
    published_is_lowest battery 59 settling
      (omega arith, (omega arith, (omega arith, (omega arith, tt))))

withdrawal_exact_example :
    ((withdrawal (from_secs 11) 0 config ≡ missing) ↔ (from_secs 30 < 0))
    × ((withdrawal (from_secs 11) 0 config ≡ silent)
        ↔ ((◌≡◌ {A = ℕ} 0 0) × (from_secs 10 < from_secs 11)))
withdrawal_exact_example = withdrawal_exact (from_secs 11) 0 config

grace_from_first_miss_example :
    (withdrawal
        (elapsed
          (noted none
            ((true, 0) ∷ (false, from_secs 60) ∷ misses (from_secs 63 ∷ from_secs 66 ∷ [])))
          (from_secs 71))
        0
        config
      ≡ silent)
    ↔ (from_secs 10 < from_secs 11)
grace_from_first_miss_example =
    grace_from_first_miss none 0 (from_secs 60) (from_secs 63 ∷ from_secs 66 ∷ []) (from_secs 71)
      config

-- A kernel that takes every device, whose battery is the reading last pushed and whose handles are
-- numbers.
abbrev willing : UhidBattery
willing = record {
  Battery = Reading;
  Handle = ℕ;
  new_reading = λ percent charging. record { percent = percent; charging = charging };
  reading = λ battery. battery;
  update = λ battery reading. (reading, true);
  destroy = λ battery. 3;
  open_handle = λ path. none;
  create_battery = λ handle identity reading. created reading;
  registered = λ battery timeout. (battery, listed);
}

-- Over the one handle that the service manager passed.
abbrev fresh_daemon : Daemon willing (device_pool willing)
fresh_daemon = over config (new_pool (3 ∷ []) [])

abbrev maxwell : Headset
maxwell = record {
  name = b'M' ∷ [];
  product = [];
  vendor_id = 0x3329;
  product_id = 0x4b18;
  supports_battery = true;
  battery = discharging 73;
  sample = some 1;
}

fresh_daemon-Inv : Inv fresh_daemon
unfolding over Batteries.empty
fresh_daemon-Inv = record { parallel = refl; sound = tt }

tick-Inv_example :
    Inv (tick willing (device_pool willing) fresh_daemon (found (maxwell ∷ [])) (from_secs 1)).0
tick-Inv_example =
    tick-Inv willing (device_pool willing) fresh_daemon (found (maxwell ∷ [])) (from_secs 1)
      fresh_daemon-Inv
