-- ===== src/Bridge/Daemon/Apply.antt =====
-- One poll of src/bridge/mod.rs: `apply` and `tick`. What the source's probe returned is an argument.
use headset_battery_indicato.Prelude.{
  ℕ, ◌+◌, Bool, true, false, not, ◌&&◌, ◌||◌, Option, none, some, List, [], ◌∷◌, Text, abs_diff,
  ltb, leb, ◌==◌, if◌then◌else◌, get_elem?, any, is_some, map,
}
use headset_battery_indicato.Prelude.Assoc.{text_key, lookup, insert, contains}
use headset_battery_indicato.Prelude.Assoc
use headset_battery_indicato.Time.{Duration, Instant, duration_since}
use headset_battery_indicato.Headset.{
  Headset, BatteryState, discharging, charging, unavailable, disconnected, key,
}
use headset_battery_indicato.Bridge.Policy.{Reading, note}
use headset_battery_indicato.Bridge.Batteries.{VirtualBattery, position, set_state, set_device}
use headset_battery_indicato.Bridge.Vetted.{vetted}
use headset_battery_indicato.Bridge.Uhid.{UhidBattery, Uhid}
use headset_battery_indicato.Bridge.Daemon.{
  attach_retry, disconnect_settle, republish_every, log_step, summary_of, announce,
}
use headset_battery_indicato.Bridge.Daemon.Devices.{
  Daemon, Attached, attached, retry, give_up, attach, withdraw, outcome, expire,
}

abbrev pub reading_eq : Reading → Reading → Bool
reading_eq a b = a.percent == b.percent && (if a.charging then b.charging else not b.charging)

-- An unchanged level that was pushed not long ago.
abbrev pub settled_level : Reading → Reading → Duration → Bool
settled_level known reading since = reading_eq known reading && ltb since republish_every

-- What `apply` makes of a battery state: a reading to publish, nothing to do, or a headset that is
-- gone.
pub data Narrowed : Type 0 where
  publish : Reading → Narrowed
  nothing gone : Narrowed

abbrev pub get_or_insert : Option Instant → Instant → Instant
get_or_insert none now = now
get_or_insert (some at) now = at

-- What the probe brought: the headsets, or a failure, which a shutdown may have caused.
pub data Probed : Type 0 where
  found : List Headset → Probed
  failure : Bool → Probed

-- The two clocks of a battery at the end of a poll.
unfoldable pub clocks : Instant → VirtualBattery → VirtualBattery
clocks now battery = record battery {
  silent_since = note battery.silent_since (battery.last_reading == now) now;
  missing_since = note battery.missing_since (battery.last_seen == now) now;
}

abbrev pub pending_until : Option Instant → Instant → Bool
pending_until none now = false
pending_until (some retry_at) now = ltb now retry_at

module _ (k : UhidBattery) where
  abbrev pub on_cable : Option Reading → Narrowed
  on_cable none = nothing
  on_cable (some known) = publish (k.new_reading known.percent true)

  unfoldable pub narrow : BatteryState → Option Reading → Narrowed
  narrow (discharging percent) known = publish (k.new_reading percent false)
  narrow (charging (some percent)) known = publish (k.new_reading percent true)
  narrow (charging none) known = on_cable known
  narrow unavailable known = nothing
  narrow disconnected known = gone

module _ (k : UhidBattery) (u : Uhid k) where
  -- The reading of the device at an index.
  abbrev pub reading_at : Daemon k u → ℕ → Option Reading
  reading_at br index = elim (get_elem? br.batteries.devices index) [
    | none ↦ none
    | some device ↦ some (k.reading device)
  ]

  abbrev pub seen_at : Option VirtualBattery → ℕ → Daemon k u → Instant → Daemon k u
  seen_at none index br now = br
  seen_at (some battery) index br now = record br {
    batteries = set_state br.batteries index (record battery { last_seen = now });
  }

  abbrev pub listed_again : Option ℕ → Daemon k u → Instant → Daemon k u
  listed_again none br now = br
  listed_again (some index) br now = seen_at (get_elem? br.batteries.states index) index br now

  abbrev pub gone_noted : Daemon k u → ℕ → VirtualBattery → Instant → Daemon k u
  gone_noted br index battery since = record br {
    batteries = set_state br.batteries index (record battery { gone_since = some since });
  }

  unfoldable pub gone_at : Option VirtualBattery → ℕ → Daemon k u → Instant → Daemon k u
  unfolding withdraw set_state
  gone_at none index br now = br
  gone_at (some battery) index br now =
      let since = get_or_insert battery.gone_since now in
      if leb disconnect_settle (duration_since now since)
      then withdraw k u (gone_noted br index battery since) index
      else gone_noted br index battery since

  -- The reader was told that the headset is gone.
  unfoldable pub switched_off : Option ℕ → Daemon k u → Instant → Daemon k u
  unfolding gone_at
  switched_off none br now = br
  switched_off (some index) br now = gone_at (get_elem? br.batteries.states index) index br now

  abbrev pub after_attach : Text → Instant → Daemon k u × Attached → Daemon k u × Bool
  after_attach key now (br, attached) =
      (record br { attach_retry_at = Assoc.remove key br.attach_retry_at }, true)
  after_attach key now (br, retry) =
      (record br { attach_retry_at = insert key (now + attach_retry) br.attach_retry_at }, false)
  after_attach key now (br, give_up) = (record br { abandoned = key ∷ br.abandoned }, false)

  -- A headset with no virtual battery yet.
  unfoldable pub appear : Daemon k u → Headset → Reading → Instant → Daemon k u × Bool
  unfolding attach
  appear br headset reading now =
      if pending_until (lookup (key headset) br.attach_retry_at) now
        || contains (key headset) br.abandoned
      then (br, true)
      else after_attach (key headset) now (attach k u br headset reading now)

  -- What is published of a reading, once it has been vetted.
  unfoldable pub pushed :
      Daemon k u → ℕ → k.Battery → VirtualBattery → Reading → Instant → Daemon k u
  unfolding outcome set_state set_device
  pushed br index device battery reading now =
      let known = k.reading device in
      let changed = not (reading_eq known reading) in
      let worth_a_line =
        not (if known.charging then reading.charging else not reading.charging)
        || leb log_step (abs_diff battery.logged_percent reading.percent) in
      let logged = if changed && worth_a_line then reading.percent else battery.logged_percent in
      let battery' = record battery { logged_percent = logged; published_at = now } in
      let (device', succeeded) = k.update device reading in
      let kept = record br { batteries = set_state br.batteries index battery } in
      let told = record br {
        batteries = set_device (set_state br.batteries index battery') index device';
      } in
      if settled_level known reading (duration_since now battery.published_at)
      then kept
      else (outcome k u told index succeeded now).0

  unfoldable pub vetted_push :
      Daemon k u → ℕ → k.Battery → Instant → VirtualBattery × Option Reading → Daemon k u
  unfolding pushed set_state
  vetted_push br index device now (battery, none) = record br {
    batteries = set_state br.batteries index battery;
  }
  vetted_push br index device now (battery, some reading) =
      pushed br index device battery reading now

  unfoldable pub refreshed :
      Option k.Battery
      → Option VirtualBattery
      → Daemon k u
      → ℕ
      → Reading
      → Option ℕ
      → Instant
      → Daemon k u
  unfolding vetted_push
  refreshed none state br index reading sample now = br
  refreshed (some device) none br index reading sample now = br
  refreshed (some device) (some battery) br index reading sample now =
      vetted_push br index device now (
        vetted (record battery { last_reading = now; gone_since = none }) (k.reading device) reading
          sample)

  -- A headset that has a virtual battery, and answered.
  unfoldable pub refresh : Daemon k u → ℕ → Reading → Option ℕ → Instant → Daemon k u
  unfolding refreshed
  refresh br index reading sample now =
      refreshed (get_elem? br.batteries.devices index) (get_elem? br.batteries.states index) br
        index reading sample now

  unfoldable pub publishing :
      Narrowed → Option ℕ → Daemon k u → Headset → Instant → Daemon k u × Bool
  unfolding switched_off appear refresh
  publishing nothing existing br headset now = (br, true)
  publishing gone existing br headset now = (switched_off existing br now, true)
  publishing (publish reading) none br headset now = appear br headset reading now
  publishing (publish reading) (some index) br headset now =
      (refresh br index reading headset.sample now, true)

  abbrev pub known_at : Option ℕ → Daemon k u → Option Reading
  known_at none br = none
  known_at (some index) br = reading_at br index

  -- Creates or updates the virtual battery backing a headset.
  unfoldable pub apply : Daemon k u → Headset → Instant → Daemon k u × Bool
  unfolding publishing narrow position set_state
  apply br headset now =
      let existing = position br.batteries (key headset) in
      let seen = listed_again existing br now in
      publishing (narrow k headset.battery (known_at existing seen)) existing seen headset now

  -- The loop of `tick` over the headsets.
  unfoldable pub apply_all : Daemon k u → List Headset → Instant → Daemon k u
  unfolding apply
  apply_all br [] now = br
  apply_all br (headset ∷ headsets) now =
      apply_all (if headset.supports_battery then (apply br headset now).0 else br) headsets now

  unfoldable pub note_all : Daemon k u → Instant → Daemon k u
  unfolding clocks
  note_all br now = record br {
    batteries = record {
      devices = br.batteries.devices;
      states = map (clocks now) br.batteries.states;
    };
  }

  unfoldable pub take_probe : Daemon k u → Probed → Instant → Daemon k u × List Headset
  unfolding announce summary_of
  take_probe br (found headsets) now =
      (announce (record br { probe_failing = false }) (summary_of headsets) now, headsets)
  take_probe br (failure stopped) now =
      (if stopped then br else record br { probe_failing = true }, [])

  -- Whether a published battery went unanswered comes with the new state.
  unfoldable pub tick : Daemon k u → Probed → Instant → Daemon k u × Bool
  unfolding take_probe apply_all note_all expire
  tick br probed now =
      let (br', headsets) = take_probe br probed now in
      let after = expire k u (note_all (apply_all br' headsets now) now) now in
      (after, any (λ battery. is_some battery.silent_since) after.batteries.states)
