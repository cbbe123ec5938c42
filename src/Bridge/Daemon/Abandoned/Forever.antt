-- ===== src/Bridge/Daemon/Abandoned/Forever.antt =====
-- A headset that src/bridge/mod.rs has given up on never has a battery again.
use headset_battery_indicato.Prelude.{
  ℕ, ◌≡◌, refl, ◌⊎◌, inl, inr, Bool, true, false, ◌||◌, Option, none, some, List, [], ◌∷◌, arith,
  Text, text_eq, text_eq_iff, if◌then◌else◌, get_elem?, Bool-cases,
}
use headset_battery_indicato.Prelude.Assoc.{text_key, contains, lookup}
use headset_battery_indicato.Time.{Instant}
use headset_battery_indicato.Headset.{Headset, key}
use headset_battery_indicato.Bridge.Policy.{Reading}
use headset_battery_indicato.Bridge.Batteries.{VirtualBattery, position, position_in, len}
use headset_battery_indicato.Bridge.Batteries.Keys.{IsSound}
use headset_battery_indicato.Bridge.Uhid.{UhidBattery, Uhid}
use headset_battery_indicato.Bridge.Daemon.Devices.{
  Daemon, Attached, attached, retry, give_up, acquired, attach, outcome, expire,
}
use headset_battery_indicato.Bridge.Daemon.Apply.{
  Probed, listed_again, pending_until, after_attach, appear, refresh, publishing, apply, apply_all,
  note_all, take_probe, tick, Narrowed, publish, nothing, gone,
}
use headset_battery_indicato.Bridge.Daemon.Invariant.{Inv, outcome-Inv}
use headset_battery_indicato.Bridge.Daemon.Invariant.Poll.{tick-Inv}
use headset_battery_indicato.Bridge.Daemon.Abandoned.{
  outcome_frame, expire_from_frame, listed_again_frame, switched_off_frame, refreshed_frame,
  acquired_frame, announced_frame,
}

-- No battery has the key of an abandoned headset.
IsSound-absent :
    (abandoned : List Text) (states : List VirtualBattery) (name : Text)
    → IsSound abandoned states
    → contains name abandoned ≡ true
    → position_in name states ≡ none
unfolding position_in
IsSound-absent abandoned [] name h c = refl
IsSound-absent abandoned (s ∷ states) name h c =
    let other : text_eq s.key name ≡ false =
      not_abandoned s.key (Bool-cases (text_eq s.key name)) h.1 in
    rw (other, IsSound-absent abandoned states name h.3 c)
  where
    not_abandoned :
        (other : Text)
        → (text_eq other name ≡ true) ⊎ (text_eq other name ≡ false)
        → contains other abandoned ≡ false
        → text_eq other name ≡ false
    not_abandoned other (inl same) free = cc (c, rw ((text_eq_iff other name).0 same) at free)
    not_abandoned other (inr different) free = different

module _ (k : UhidBattery) (u : Uhid k) (name : Text) where
  -- The headset with this key was given up on.
  abbrev pub IsAbandoned : Daemon k u → Type 0
  IsAbandoned br = contains name br.abandoned ≡ true

  after_attach-IsAbandoned :
      (headset_key : Text) (now : Instant) (r : Daemon k u × Attached)
      → IsAbandoned r.0
      → IsAbandoned (after_attach k u headset_key now r).0
  unfolding contains
  after_attach-IsAbandoned headset_key now (br, attached) h = h
  after_attach-IsAbandoned headset_key now (br, retry) h = h
  after_attach-IsAbandoned headset_key now (br, give_up) h = ground arith

  appear-IsAbandoned :
      (br : Daemon k u) (headset : Headset) (reading : Reading) (now : Instant)
      → IsAbandoned br
      → IsAbandoned (appear k u br headset reading now).0
  unfolding appear attach
  appear-IsAbandoned br headset reading now h =
      elim (Bool-cases (
        pending_until (lookup (key headset) br.attach_retry_at) now
        || contains (key headset) br.abandoned)) [
          | inl skip ↦ rw skip h
          | inr go ↦ rw go (
              after_attach-IsAbandoned (key headset) now
                (acquired k u br headset reading now (u.acquire br.uhid))
                (rw (acquired_frame k u br headset reading now (u.acquire br.uhid)) h))
        ]

  publishing-IsAbandoned :
      (n : Narrowed) (existing : Option ℕ) (br : Daemon k u) (headset : Headset) (now : Instant)
      → IsAbandoned br
      → IsAbandoned (publishing k u n existing br headset now).0
  unfolding publishing refresh
  publishing-IsAbandoned nothing existing br headset now h = h
  publishing-IsAbandoned gone existing br headset now h =
      rw (switched_off_frame k u existing br now) h
  publishing-IsAbandoned (publish reading) none br headset now h =
      appear-IsAbandoned br headset reading now h
  publishing-IsAbandoned (publish reading) (some index) br headset now h =
      rw
        (refreshed_frame k u (get_elem? br.batteries.devices index)
          (get_elem? br.batteries.states index) br index reading headset.sample now)
        h

  apply_all-IsAbandoned :
      (br : Daemon k u) (headsets : List Headset) (now : Instant)
      → IsAbandoned br
      → IsAbandoned (apply_all k u br headsets now)
  unfolding apply_all apply
  apply_all-IsAbandoned br [] now h = h
  apply_all-IsAbandoned br (headset ∷ headsets) now h =
      apply_all-IsAbandoned (if headset.supports_battery then (apply k u br headset now).0 else br)
        headsets now (one headset.supports_battery)
    where
      one : (b : Bool) → IsAbandoned (if b then (apply k u br headset now).0 else br)
      one true =
          let existing = position br.batteries (key headset) in
          publishing-IsAbandoned _ existing (listed_again k u existing br now) headset now
            (rw (listed_again_frame k u existing br now) h)
      one false = h

  tick-IsAbandoned :
      (br : Daemon k u) (probed : Probed) (now : Instant)
      → IsAbandoned br
      → IsAbandoned (tick k u br probed now).0
  unfolding tick note_all expire
  tick-IsAbandoned br probed now h =
      let (taken, headsets) = take_probe k u br probed now in
      let applied = apply_all k u taken headsets now in
      let kept : IsAbandoned applied =
        apply_all-IsAbandoned taken headsets now (rw (announced_frame k u br probed now) h) in
      rw
        (expire_from_frame k u (len (note_all k u applied now).batteries) 0
          (note_all k u applied now) now)
        kept

-- What happens to the bridge: a poll, or the result of serving the device at an index.
pub data Event : Type 0 where
  polled : Probed → Instant → Event
  served : ℕ → Bool → Instant → Event

module _ (k : UhidBattery) (u : Uhid k) where
  unfoldable pub lived : Daemon k u → List Event → Daemon k u
  unfolding tick outcome
  lived br [] = br
  lived br (polled probed now ∷ events) = lived (tick k u br probed now).0 events
  lived br (served index succeeded now ∷ events) =
      lived (outcome k u br index succeeded now).0 events

  lived-frame :
      (name : Text) (br : Daemon k u) (events : List Event)
      → Inv br
      → IsAbandoned k u name br
      → Inv (lived br events) × IsAbandoned k u name (lived br events)
  unfolding lived
  lived-frame name br [] v h = (v, h)
  lived-frame name br (polled probed now ∷ events) v h =
      lived-frame name (tick k u br probed now).0 events (tick-Inv k u br probed now v)
        (tick-IsAbandoned k u name br probed now h)
  lived-frame name br (served index succeeded now ∷ events) v h =
      lived-frame name (outcome k u br index succeeded now).0 events
        (outcome-Inv k u br index succeeded now v) (rw (outcome_frame k u br index succeeded now) h)

  -- Once a headset is given up on, it has no battery, however many polls follow, whatever they
  -- find and however its devices fare in between.
  pub abandoned_for_good :
      (br : Daemon k u) (events : List Event) (name : Text)
      → Inv br
      → contains name br.abandoned ≡ true
      → position (lived br events).batteries name ≡ none
  unfolding position
  abandoned_for_good br events name v h =
      let (v', h') = lived-frame name br events v h in
      IsSound-absent (lived br events).abandoned (lived br events).batteries.states name v'.sound h'
