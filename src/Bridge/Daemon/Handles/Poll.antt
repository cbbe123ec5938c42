-- ===== src/Bridge/Daemon/Handles/Poll.antt =====
-- The account of the handles over a poll.
use headset_battery_indicato.Prelude.{
  ℕ, ◌≤◌, ◌≡◌, sym, subst, inl, inr, Bool, true, false, ◌||◌, Option, none, some, List, [], ◌∷◌,
  arith, Text, if◌then◌else◌, get_elem?, length-set, Bool-cases, leb,
}
use headset_battery_indicato.Prelude.Assoc.{text_key, lookup, contains}
use headset_battery_indicato.Time.{Instant, duration_since}
use headset_battery_indicato.Headset.{Headset, key}
use headset_battery_indicato.Bridge.Policy.{Reading}
use headset_battery_indicato.Bridge.Batteries.{VirtualBattery, set_state, set_device, position}
use headset_battery_indicato.Bridge.Uhid.{UhidBattery, Uhid}
use headset_battery_indicato.Bridge.Daemon.{Summary, announce, summary_of, disconnect_settle}
use headset_battery_indicato.Bridge.Daemon.Devices.{
  Daemon, Attached, attached, retry, give_up, attach,
}
use headset_battery_indicato.Bridge.Daemon.Apply.{
  get_or_insert, switched_off, gone_at, seen_at, listed_again, after_attach, appear, pending_until,
  settled_level, pushed, vetted_push, refreshed, refresh, publishing, apply, apply_all, note_all,
  take_probe, Probed, found, failure, tick, Narrowed, publish, nothing, gone,
}
use headset_battery_indicato.Bridge.Daemon.Handles.{Account, Ledger, handles, no_fewer}
use headset_battery_indicato.Bridge.Daemon.Handles.Devices.{
  Balanced, withdraw-Balanced, outcome-Balanced, attach-Balanced, expire-Balanced,
}

module _ (k : UhidBattery) (u : Uhid k) (a : Account k u) where
  gone_at-Balanced :
      (o : Option VirtualBattery) (index : ℕ) (br : Daemon k u) (now : Instant)
      → Balanced k u a br
      → Balanced k u a (gone_at k u o index br now)
  unfolding gone_at set_state
  gone_at-Balanced none index br now h = h
  gone_at-Balanced (some battery) index br now h =
      elim (Bool-cases
        (leb disconnect_settle (duration_since now (get_or_insert battery.gone_since now)))) [
          | inl e ↦ rw e (withdraw-Balanced k u a _ index h)
          | inr e ↦ rw e h
        ]

  switched_off-Balanced :
      (existing : Option ℕ) (br : Daemon k u) (now : Instant)
      → Balanced k u a br
      → Balanced k u a (switched_off k u existing br now)
  unfolding switched_off
  switched_off-Balanced none br now h = h
  switched_off-Balanced (some index) br now h = gone_at-Balanced _ index br now h

  after_attach-Balanced :
      (key : Text) (now : Instant) (r : Daemon k u × Attached)
      → Balanced k u a r.0
      → Balanced k u a (after_attach k u key now r).0
  after_attach-Balanced key now (br, attached) h = h
  after_attach-Balanced key now (br, retry) h = h
  after_attach-Balanced key now (br, give_up) h = h

  appear-Balanced :
      (br : Daemon k u) (headset : Headset) (reading : Reading) (now : Instant)
      → Balanced k u a br
      → Balanced k u a (appear k u br headset reading now).0
  unfolding appear
  appear-Balanced br headset reading now h =
      elim (Bool-cases (
        pending_until (lookup (key headset) br.attach_retry_at) now
        || contains (key headset) br.abandoned)) [
          | inl e ↦ rw e h
          | inr e ↦ rw e (
              after_attach-Balanced (key headset) now (attach k u br headset reading now)
                (attach-Balanced k u a br headset reading now h))
        ]

  pushed-Balanced :
      (br : Daemon k u) (index : ℕ) (device : k.Battery) (battery : VirtualBattery)
      (reading : Reading) (now : Instant)
      → Balanced k u a br
      → Balanced k u a (pushed k u br index device battery reading now)
  unfolding pushed set_state set_device
  pushed-Balanced br index device battery reading now h =
      elim (Bool-cases
        (settled_level (k.reading device) reading (duration_since now battery.published_at))) [
          | inl e ↦ rw e h
          | inr e ↦ rw e (
              outcome-Balanced k u a _ index _ now (
                subst (a.Owes br.uhid)
                  (sym (length-set br.batteries.devices index (k.update device reading).0)) h))
        ]

  vetted_push-Balanced :
      (br : Daemon k u) (index : ℕ) (device : k.Battery) (now : Instant)
      (r : VirtualBattery × Option Reading)
      → Balanced k u a br
      → Balanced k u a (vetted_push k u br index device now r)
  unfolding vetted_push set_state
  vetted_push-Balanced br index device now (battery, none) h = h
  vetted_push-Balanced br index device now (battery, some reading) h =
      pushed-Balanced br index device battery reading now h

  refreshed-Balanced :
      (device : Option k.Battery) (state : Option VirtualBattery) (br : Daemon k u) (index : ℕ)
      (reading : Reading) (sample : Option ℕ) (now : Instant)
      → Balanced k u a br
      → Balanced k u a (refreshed k u device state br index reading sample now)
  unfolding refreshed
  refreshed-Balanced none state br index reading sample now h = h
  refreshed-Balanced (some device) none br index reading sample now h = h
  refreshed-Balanced (some device) (some battery) br index reading sample now h =
      vetted_push-Balanced br index device now _ h

  publishing-Balanced :
      (n : Narrowed) (existing : Option ℕ) (br : Daemon k u) (headset : Headset) (now : Instant)
      → Balanced k u a br
      → Balanced k u a (publishing k u n existing br headset now).0
  unfolding publishing refresh
  publishing-Balanced nothing existing br headset now h = h
  publishing-Balanced gone existing br headset now h = switched_off-Balanced existing br now h
  publishing-Balanced (publish reading) none br headset now h =
      appear-Balanced br headset reading now h
  publishing-Balanced (publish reading) (some index) br headset now h =
      refreshed-Balanced (get_elem? br.batteries.devices index)
        (get_elem? br.batteries.states index) br index reading headset.sample now h

  listed_again-Balanced :
      (existing : Option ℕ) (br : Daemon k u) (now : Instant)
      → Balanced k u a br
      → Balanced k u a (listed_again k u existing br now)
  unfolding set_state
  listed_again-Balanced none br now h = h
  listed_again-Balanced (some index) br now h =
      seen_at-Balanced (get_elem? br.batteries.states index)
    where
      seen_at-Balanced : (o : Option VirtualBattery) → Balanced k u a (seen_at k u o index br now)
      seen_at-Balanced none = h
      seen_at-Balanced (some battery) = h

  apply-Balanced :
      (br : Daemon k u) (headset : Headset) (now : Instant)
      → Balanced k u a br
      → Balanced k u a (apply k u br headset now).0
  unfolding apply
  apply-Balanced br headset now h =
      let existing = position br.batteries (key headset) in
      publishing-Balanced _ existing (listed_again k u existing br now) headset now
        (listed_again-Balanced existing br now h)

  apply_all-Balanced :
      (br : Daemon k u) (headsets : List Headset) (now : Instant)
      → Balanced k u a br
      → Balanced k u a (apply_all k u br headsets now)
  unfolding apply_all
  apply_all-Balanced br [] now h = h
  apply_all-Balanced br (headset ∷ headsets) now h =
      apply_all-Balanced (if headset.supports_battery then (apply k u br headset now).0 else br)
        headsets now (one headset.supports_battery)
    where
      one : (b : Bool) → Balanced k u a (if b then (apply k u br headset now).0 else br)
      one true = apply-Balanced br headset now h
      one false = h

  announce_frame :
      (br : Daemon k u) (summary : Summary) (now : Instant)
      → ((announce br summary now).uhid ≡ br.uhid)
        × ((announce br summary now).batteries ≡ br.batteries)
  unfolding announce
  announce_frame br summary now = (ground arith, ground arith)

  announce-Balanced :
      (br : Daemon k u) (summary : Summary) (now : Instant)
      → Balanced k u a br
      → Balanced k u a (announce br summary now)
  announce-Balanced br summary now h =
      let frame = announce_frame br summary now in rw (Balanced, frame.0, frame.1) h

  take_probe-Balanced :
      (br : Daemon k u) (probed : Probed) (now : Instant)
      → Balanced k u a br
      → Balanced k u a (take_probe k u br probed now).0
  unfolding take_probe
  take_probe-Balanced br (found headsets) now h =
      let br' : Daemon k u = record br { probe_failing = false } in
      announce-Balanced br' (summary_of headsets) now h
  take_probe-Balanced br (failure true) now h = h
  take_probe-Balanced br (failure false) now h = h

  pub tick-Balanced :
      (br : Daemon k u) (probed : Probed) (now : Instant)
      → Balanced k u a br
      → Balanced k u a (tick k u br probed now).0
  unfolding tick note_all
  tick-Balanced br probed now h =
      let (br', headsets) = take_probe k u br probed now in
      expire-Balanced k u a (note_all k u (apply_all k u br' headsets now) now) now
        (apply_all-Balanced br' headsets now (take_probe-Balanced br probed now h))

-- A poll loses no handle, whatever the readers report, whichever devices the kernel refuses, does
-- not list or fails on, and whichever batteries it withdraws: there are at least as many after it,
-- spare or held by a device.
pub tick-handles :
    (k : UhidBattery) (u : Uhid k) (l : Ledger k u) (br : Daemon k u) (probed : Probed)
    (now : Instant)
    → handles k u l br ≤ handles k u l (tick k u br probed now).0
tick-handles k u l br probed now =
    tick-Balanced k u (no_fewer k u l (handles k u l br)) br probed now (omega arith)
