-- ===== src/Bridge/Daemon.antt =====
-- src/bridge/mod.rs: the bridge itself. Log lines are left out, and what decides about them is kept.
-- An index that a `Vec` does not have, where the source would panic, changes nothing.
pub mod Devices
pub mod Apply
pub mod Invariant
pub mod Expiry
pub mod Serving
pub mod Handles
pub mod Running
pub mod Abandoned
mod Tests
use headset_battery_indicato.Prelude.{
  ℕ, zero, suc, ◌+◌, ◌%◌, Bool, true, false, not, ◌&&◌, ◌||◌, Option, none, some, List, [], ◌∷◌,
  ◌++◌, Text, abs_diff, ltb, leb, ◌==◌, if◌then◌else◌, get_elem?, any, all, is_empty_list, is_some,
}
use headset_battery_indicato.Prelude.Assoc.{
  text_key, lookup, insert, remove as map_remove, contains,
}
use headset_battery_indicato.Time.{Duration, Instant, from_secs, duration_since}
use headset_battery_indicato.Headset.{
  Headset, BatteryState, discharging, charging, unavailable, disconnected, key, uniq, display_name,
}
use headset_battery_indicato.Bridge.Policy.{
  Reading, Config, note, elapsed, Withdrawal, keep, silent, missing, withdrawal,
}
use headset_battery_indicato.Bridge.Batteries.{
  VirtualBattery, Batteries, len, position, push, remove, set_state, set_device,
}
use headset_battery_indicato.Bridge.Batteries
use headset_battery_indicato.Bridge.Vetted.{vetted}
use headset_battery_indicato.Bridge.Uhid.{
  UhidBattery, Uhid, Identity, Created, created, refused, Registration, listed, unlisted, failed,
  release,
}

abbrev pub attach_retry : Duration
attach_retry = from_secs 60

abbrev pub device_failure_limit : ℕ
device_failure_limit = 3

abbrev pub disconnect_settle : Duration
disconnect_settle = from_secs 3

abbrev pub summary_settle : Duration
summary_settle = from_secs 5

abbrev pub republish_every : Duration
republish_every = from_secs 60

abbrev pub registration_timeout : Duration
registration_timeout = from_secs 2

abbrev pub log_step : ℕ
log_step = 5

abbrev pub phys_prefix : Text
phys_prefix =
    b'h' ∷ b'e' ∷ b'a' ∷ b'd' ∷ b's' ∷ b'e' ∷ b't' ∷ b'-' ∷ b'b' ∷ b'a' ∷ b't' ∷ b't' ∷ b'e' ∷ b'r'
    ∷ b'y' ∷ b'-' ∷ b'i' ∷ b'n' ∷ b'd' ∷ b'i' ∷ b'c' ∷ b'a' ∷ b't' ∷ b'o' ∷ b'r' ∷ []

pub data Summary : Type 0 where
  no_device no_battery offline online : Summary

abbrev pub summary_eq : Summary → Summary → Bool
summary_eq no_device no_device = true
summary_eq no_battery no_battery = true
summary_eq offline offline = true
summary_eq online online = true
summary_eq _ _ = false

pub record Bridge (P B : Type 0) : Type 0 where
  pub config : Config
  pub uhid : P
  pub batteries : Batteries B
  pub probe_failing : Bool
  pub attach_retry_at : List (Text × Instant)
  pub abandoned : List Text
  pub last_summary : Option Summary
  pub unsettled : Option (Summary × Instant)

pub answers : Headset → Bool
answers h = elim h.battery [ unavailable ↦ false | disconnected ↦ false | _ ↦ true ]

with_battery : List Headset → Bool
with_battery = any (λ h. h.supports_battery)

-- `Summary::of`.
unfoldable pub summary_of : List Headset → Summary
unfolding answers with_battery
summary_of headsets =
    if is_empty_list headsets
    then no_device
    else if not (with_battery headsets)
    then no_battery
    else if all (λ h. not h.supports_battery || not (answers h)) headsets
    then offline
    else online

abbrev announced : Option Summary → Summary → Bool
announced none summary = false
announced (some last) summary = summary_eq last summary

module _ {P B : Type 0} where
  settled : Option (Summary × Instant) → Bridge P B → Summary → Instant → Bridge P B
  settled none br summary now = record br { unsettled = some (summary, now) }
  settled (some (pending, since)) br summary now =
      if summary_eq pending summary
      then if ltb (duration_since now since) summary_settle
        then br
        else record br { unsettled = none; last_summary = some summary }
      else record br { unsettled = some (summary, now) }

  unfoldable pub announce : Bridge P B → Summary → Instant → Bridge P B
  unfolding settled
  announce br summary now =
      if announced br.last_summary summary
      then record br { unsettled = none }
      else settled br.unsettled br summary now

  -- `Bridge::over`, less the source of readings.
  unfoldable pub over : Config → P → Bridge P B
  over config uhid = record {
    config = config;
    uhid = uhid;
    batteries = Batteries.empty;
    probe_failing = false;
    attach_retry_at = [];
    abandoned = [];
    last_summary = none;
    unsettled = none;
  }
