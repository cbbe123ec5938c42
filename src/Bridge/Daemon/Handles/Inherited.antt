-- ===== src/Bridge/Daemon/Handles/Inherited.antt =====
-- The handles of `/dev/uhid` that the daemon of src/bridge/mod.rs was started with.
use mathlib.Core.List.{zip, zip_with}
use headset_battery_indicato.Prelude.{
  ◌+◌, ◌≡◌, refl, false, List, [], ◌∷◌, arith, Text, length, map, is_empty_list,
}
use headset_battery_indicato.Bridge.Policy.{Config}
use headset_battery_indicato.Bridge.Batteries.{VirtualBattery}
use headset_battery_indicato.Bridge.Batteries
use headset_battery_indicato.Bridge.Uhid.{UhidBattery, Uhid, device_pool, new_pool}
use headset_battery_indicato.Bridge.Daemon.{over}
use headset_battery_indicato.Bridge.Daemon.Devices.{Daemon, outcome}
use headset_battery_indicato.Bridge.Daemon.Apply.{tick}
use headset_battery_indicato.Bridge.Daemon.Abandoned.Forever.{Event, polled, served, lived}
use headset_battery_indicato.Bridge.Daemon.Invariant.{Inv, outcome-Inv}
use headset_battery_indicato.Bridge.Daemon.Invariant.Poll.{tick-Inv}
use headset_battery_indicato.Bridge.Daemon.Serving.{shutdown}
use headset_battery_indicato.Bridge.Daemon.Handles.{Account, handles, device_ledger, kept_account}
use headset_battery_indicato.Bridge.Daemon.Handles.Devices.{Balanced, outcome-Balanced}
use headset_battery_indicato.Bridge.Daemon.Handles.Poll.{tick-Balanced}

lived-Balanced :
    (k : UhidBattery) (u : Uhid k) (a : Account k u) (br : Daemon k u) (events : List Event)
    → Balanced k u a br
    → Balanced k u a (lived k u br events)
unfolding lived
lived-Balanced k u a br [] h = h
lived-Balanced k u a br (polled probed now ∷ events) h =
    lived-Balanced k u a (tick k u br probed now).0 events (tick-Balanced k u a br probed now h)
lived-Balanced k u a br (served index succeeded now ∷ events) h =
    lived-Balanced k u a (outcome k u br index succeeded now).0 events
      (outcome-Balanced k u a br index succeeded now h)

lived-Inv :
    (k : UhidBattery) (u : Uhid k) (br : Daemon k u) (events : List Event)
    → Inv br
    → Inv (lived k u br events)
unfolding lived
lived-Inv k u br [] v = v
lived-Inv k u br (polled probed now ∷ events) v =
    lived-Inv k u (tick k u br probed now).0 events (tick-Inv k u br probed now v)
lived-Inv k u br (served index succeeded now ∷ events) v =
    lived-Inv k u (outcome k u br index succeeded now).0 events
      (outcome-Inv k u br index succeeded now v)

length-map-zip :
    {B C : Type 0} (f : B × VirtualBattery → C) (devices : List B) (states : List VirtualBattery)
    → length devices ≡ length states
    → length (map f (zip devices states)) ≡ length devices
unfolding zip zip_with
length-map-zip f [] states e = refl
length-map-zip f (device ∷ devices) [] e = absurd (omega (arith, e))
length-map-zip f (device ∷ devices) (state ∷ states) e =
    omega (arith, length-map-zip f devices states (omega (arith, e)))

-- A sound bridge closes the handle of each of its devices.
length-shutdown :
    (k : UhidBattery) (u : Uhid k) (br : Daemon k u)
    → Inv br
    → length (shutdown k u br).1 ≡ length br.batteries.devices
unfolding shutdown Batteries.drain
length-shutdown k u br v = length-map-zip _ br.batteries.devices br.batteries.states v.parallel

-- A daemon that is started with handles of its own has exactly those for good, spare or held by a
-- device: however many polls follow, whatever they find, and however its devices fare, none is lost
-- and none is opened. If it shuts down then, it closes exactly those that are not spare.
pub inherited-handles :
    (k : UhidBattery) (config : Config) (inherited : List k.Handle) (path : Text)
    (events : List Event)
    → is_empty_list inherited ≡ false
    → let br = lived k (device_pool k) (over config (new_pool inherited path)) events in
      (handles k (device_pool k) (device_ledger k) br ≡ length inherited)
      × (length br.uhid.spare + length (shutdown k (device_pool k) br).1 ≡ length inherited)
unfolding over new_pool Batteries.empty
inherited-handles k config inherited path events some_given =
    let br = lived k (device_pool k) (over config (new_pool inherited path)) events in
    let (closed, all) =
      lived-Balanced k (device_pool k) (kept_account k (length inherited))
        (over config (new_pool inherited path)) events (some_given, omega arith) in
    let v =
      lived-Inv k (device_pool k) (over config (new_pool inherited path)) events
        (record { parallel = refl; sound = tt }) in
    (all, omega (arith, all, length-shutdown k (device_pool k) br v))
