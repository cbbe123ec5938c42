-- ===== src/Bridge/Daemon/Serving.antt =====
-- `Bridge::wait` and `Bridge::shutdown` of src/bridge/mod.rs. What the kernel asks for meanwhile is
-- `uhid-battery`'s `serve_all`, a parameter, and so is the instant of each turn of the loop.
pub mod Strikes
use headset_battery_indicato.Prelude.{
  ℕ, zero, suc, ◌+◌, Bool, true, false, Option, none, some, List, [], ◌∷◌, map,
}
use headset_battery_indicato.Time.{Instant}
use headset_battery_indicato.Bridge.Batteries.{Batteries}
use headset_battery_indicato.Bridge.Batteries
use headset_battery_indicato.Bridge.Uhid.{UhidBattery, Uhid}
use headset_battery_indicato.Bridge.Daemon.Devices.{Daemon, outcome}

-- How `serve_all` returns: at the deadline or by a signal, or with an error, which is one battery's
-- or the wait's own.
pub data Served : Type 0 where
  woken : Served
  broke : Option ℕ → Served

module _ (k : UhidBattery) (u : Uhid k) (serve : ℕ → List k.Battery → List k.Battery × Served)
    (clock : ℕ → Instant) where
  abbrev pub with_devices : Daemon k u → List k.Battery → Daemon k u
  with_devices br devices = record br {
    batteries = record { devices = devices; states = br.batteries.states };
  }

  -- What follows a call of `serve_all`: the wait is over, or the loop serves again.
  abbrev pub after_serving :
      Served
      → Daemon k u
      → Instant
      → (Daemon k u → Option (Daemon k u × Bool))
      → Option (Daemon k u × Bool)
  unfolding outcome
  after_serving woken br now again = some (br, true)
  after_serving (broke none) br now again = some (br, false)
  after_serving (broke (some index)) br now again = again (outcome k u br index false now).0

  -- Whether the wait went well comes with the new state; `none` means that the fuel ran out.
  unfoldable pub wait : ℕ → ℕ → Daemon k u → Option (Daemon k u × Bool)
  unfolding after_serving
  wait zero turn br = none
  wait (suc fuel) turn br =
      let (devices, served) = serve turn br.batteries.devices in
      after_serving served (with_devices br devices) (clock turn) (wait fuel (suc turn))

module _ (k : UhidBattery) (u : Uhid k) where
  -- Every battery is destroyed, and its handle closed: these handles come with the new state.
  unfoldable pub shutdown : Daemon k u → Daemon k u × List k.Handle
  unfolding Batteries.drain
  shutdown br =
      let (left, taken) = Batteries.drain br.batteries in
      (record br { batteries = left }, map (λ pair. k.destroy pair.0) taken)
