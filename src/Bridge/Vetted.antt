-- ===== src/Bridge/Vetted.antt =====
-- `vetted` of src/bridge/mod.rs: a reading against the one known to the kernel, and the record that
-- a deferral or a hold needs.
pub mod Jumps
pub mod Lowest
pub mod Frame
use headset_battery_indicato.Prelude.{ℕ, Bool, Option, none, some, List, [], ◌∷◌}
use headset_battery_indicato.Bridge.Policy.{
  Reading, Verdict, accept, defer, hold, vet, second_opinion,
}
use headset_battery_indicato.Bridge.Batteries.{VirtualBattery}

unfoldable pub judged :
    Verdict → VirtualBattery → Reading → Reading → Option ℕ → VirtualBattery × Option Reading
judged defer battery known reading sample =
    (record battery { deferred = some reading.percent; deferred_sample = sample }, none)
judged hold battery known reading sample = (
  record battery { held = some reading.percent; deferred = none; deferred_sample = none },
  some known,
)
judged accept battery known reading sample =
    (record battery { held = none; deferred = none; deferred_sample = none }, some reading)

unfoldable pub vetted :
    VirtualBattery → Reading → Reading → Option ℕ → VirtualBattery × Option Reading
unfolding judged
vetted battery known reading sample =
    let confirming = second_opinion battery.deferred battery.deferred_sample sample in
    judged (vet known reading confirming) battery known reading sample
