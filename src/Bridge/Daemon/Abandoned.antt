-- ===== src/Bridge/Daemon/Abandoned.antt =====
-- What leaves `abandoned` of src/bridge/mod.rs alone: everything but giving up on a headset.
pub mod Forever
use headset_battery_indicato.Prelude.{
  ℕ, zero, suc, ◌≡◌, refl, sym, ◌∙◌, inl, inr, Bool, true, false, ◌||◌, Option, none, some, List,
  [], ◌∷◌, arith, Text, text_eq, text_eq_iff, if◌then◌else◌, get_elem?, Bool-cases, Option-cases,
  leb, ltb, ◌+◌,
}
use headset_battery_indicato.Prelude.Assoc.{text_key, contains, lookup}
use headset_battery_indicato.Time.{Instant, duration_since}
use headset_battery_indicato.Headset.{Headset, key}
use headset_battery_indicato.Bridge.Policy.{Reading, Withdrawal, keep, silent, missing}
use headset_battery_indicato.Bridge.Batteries.{VirtualBattery, Batteries, position, position_in}
use headset_battery_indicato.Bridge.Batteries.Keys.{IsSound}
use headset_battery_indicato.Bridge.Uhid.{
  UhidBattery, Uhid, Created, created, refused, Registration, listed, unlisted, failed,
}
use headset_battery_indicato.Bridge.Daemon.{
  announce, summary_of, disconnect_settle, device_failure_limit,
}
use headset_battery_indicato.Bridge.Daemon.Devices.{
  Daemon, Attached, attached, retry, give_up, registered, creation, acquired, attach, withdraw,
  outcome, outcome_of, expire_turn, expire_from, expire, grace, advance,
}
use headset_battery_indicato.Bridge.Daemon.Apply.{
  Probed, found, failure, seen_at, listed_again, gone_at, gone_noted, get_or_insert, switched_off,
  pending_until, after_attach, appear, pushed, settled_level, vetted_push, refreshed, refresh,
  publishing, apply, apply_all, note_all, take_probe, tick, Narrowed, publish, nothing, gone,
}
use headset_battery_indicato.Bridge.Daemon.Invariant.{Inv, outcome-Inv}
use headset_battery_indicato.Bridge.Daemon.Invariant.Poll.{tick-Inv}

module _ (k : UhidBattery) (u : Uhid k) where
  withdraw_frame : (br : Daemon k u) (index : ℕ) → (withdraw k u br index).abandoned ≡ br.abandoned
  unfolding withdraw
  withdraw_frame br index = elim (Option-cases (get_elem? br.batteries.devices index)) [
    | inl e ↦ rw (e, withdraw)
    | inr (device, e) ↦ rw (e, withdraw)
  ]

  outcome_of_frame :
      (o : Option VirtualBattery) (br : Daemon k u) (index : ℕ) (succeeded : Bool) (now : Instant)
      → (outcome_of k u o br index succeeded now).0.abandoned ≡ br.abandoned
  unfolding outcome_of
  outcome_of_frame none br index succeeded now = refl
  outcome_of_frame (some battery) br index true now = refl
  outcome_of_frame (some battery) br index false now =
      elim (Bool-cases (ltb (battery.failures + 1) device_failure_limit)) [
        | inl h ↦ rw h
        | inr h ↦ rw h (withdraw_frame _ index)
      ]

  pub outcome_frame :
      (br : Daemon k u) (index : ℕ) (succeeded : Bool) (now : Instant)
      → (outcome k u br index succeeded now).0.abandoned ≡ br.abandoned
  unfolding outcome
  outcome_frame br index succeeded now = outcome_of_frame _ br index succeeded now

  advance_frame :
      (w : Withdrawal) (index : ℕ) (br : Daemon k u)
      → (advance k u w index br).1.abandoned ≡ br.abandoned
  unfolding advance
  advance_frame keep index br = refl
  advance_frame silent index br = withdraw_frame br index
  advance_frame missing index br = withdraw_frame br index

  expire_turn_frame :
      (o : Option VirtualBattery) (index : ℕ) (br : Daemon k u) (now : Instant)
      → (expire_turn k u o index br now).1.abandoned ≡ br.abandoned
  unfolding expire_turn
  expire_turn_frame none index br now = refl
  expire_turn_frame (some battery) index br now = advance_frame _ index br

  pub expire_from_frame :
      (turns index : ℕ) (br : Daemon k u) (now : Instant)
      → (expire_from k u turns index br now).abandoned ≡ br.abandoned
  unfolding expire_from
  expire_from_frame zero index br now = refl
  expire_from_frame (suc turns) index br now =
      expire_from_frame turns _ _ now ∙ expire_turn_frame _ index br now

  pub listed_again_frame :
      (existing : Option ℕ) (br : Daemon k u) (now : Instant)
      → (listed_again k u existing br now).abandoned ≡ br.abandoned
  listed_again_frame none br now = refl
  listed_again_frame (some index) br now =
      elim (Option-cases (get_elem? br.batteries.states index)) [
        | inl e ↦ rw (e, seen_at)
        | inr (battery, e) ↦ rw (e, seen_at)
      ]

  gone_at_frame :
      (o : Option VirtualBattery) (index : ℕ) (br : Daemon k u) (now : Instant)
      → (gone_at k u o index br now).abandoned ≡ br.abandoned
  unfolding gone_at
  gone_at_frame none index br now = refl
  gone_at_frame (some battery) index br now =
      elim (Bool-cases
        (leb disconnect_settle (duration_since now (get_or_insert battery.gone_since now)))) [
          | inl h ↦ rw h (withdraw_frame _ index)
          | inr h ↦ rw h
        ]

  pub switched_off_frame :
      (existing : Option ℕ) (br : Daemon k u) (now : Instant)
      → (switched_off k u existing br now).abandoned ≡ br.abandoned
  unfolding switched_off
  switched_off_frame none br now = refl
  switched_off_frame (some index) br now = gone_at_frame _ index br now

  pushed_frame :
      (br : Daemon k u) (index : ℕ) (device : k.Battery) (battery : VirtualBattery)
      (reading : Reading) (now : Instant)
      → (pushed k u br index device battery reading now).abandoned ≡ br.abandoned
  unfolding pushed
  pushed_frame br index device battery reading now =
      elim (Bool-cases
        (settled_level (k.reading device) reading (duration_since now battery.published_at))) [
          | inl h ↦ rw h
          | inr h ↦ rw h (outcome_frame _ index _ now)
        ]

  vetted_push_frame :
      (br : Daemon k u) (index : ℕ) (device : k.Battery) (now : Instant)
      (r : VirtualBattery × Option Reading)
      → (vetted_push k u br index device now r).abandoned ≡ br.abandoned
  unfolding vetted_push
  vetted_push_frame br index device now (battery, none) = refl
  vetted_push_frame br index device now (battery, some reading) =
      pushed_frame br index device battery reading now

  pub refreshed_frame :
      (device : Option k.Battery) (state : Option VirtualBattery) (br : Daemon k u) (index : ℕ)
      (reading : Reading) (sample : Option ℕ) (now : Instant)
      → (refreshed k u device state br index reading sample now).abandoned ≡ br.abandoned
  unfolding refreshed
  refreshed_frame none state br index reading sample now = refl
  refreshed_frame (some device) none br index reading sample now = refl
  refreshed_frame (some device) (some battery) br index reading sample now =
      vetted_push_frame br index device now _

  registered_frame :
      (br : Daemon k u) (headset : Headset) (reading : Reading) (now : Instant)
      (r : u.Pool × k.Battery × Registration)
      → (registered k u br headset reading now r).0.abandoned ≡ br.abandoned
  unfolding registered
  registered_frame br headset reading now (pool, device, listed) = refl
  registered_frame br headset reading now (pool, device, unlisted) = refl
  registered_frame br headset reading now (pool, device, failed) = refl

  creation_frame :
      (br : Daemon k u) (headset : Headset) (reading : Reading) (now : Instant)
      (r : u.Pool × Created k.Battery k.Handle)
      → (creation k u br headset reading now r).0.abandoned ≡ br.abandoned
  unfolding creation
  creation_frame br headset reading now (pool, created device) =
      registered_frame br headset reading now _
  creation_frame br headset reading now (pool, refused invalid handle) = refl

  pub acquired_frame :
      (br : Daemon k u) (headset : Headset) (reading : Reading) (now : Instant)
      (r : u.Pool × Option k.Handle)
      → (acquired k u br headset reading now r).0.abandoned ≡ br.abandoned
  unfolding acquired
  acquired_frame br headset reading now (pool, none) = refl
  acquired_frame br headset reading now (pool, some handle) =
      creation_frame br headset reading now _

  pub announced_frame :
      (br : Daemon k u) (probed : Probed) (now : Instant)
      → (take_probe k u br probed now).0.abandoned ≡ br.abandoned
  unfolding take_probe announce
  announced_frame br (found headsets) now = ground arith
  announced_frame br (failure true) now = refl
  announced_frame br (failure false) now = refl
