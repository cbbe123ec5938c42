-- ===== src/Bridge/Daemon/Invariant/Poll.antt =====
-- Every poll keeps the invariant.
use headset_battery_indicato.Prelude.{
  ℕ, ◌≡◌, refl, sym, ◌∙◌, inl, inr, Bool, true, false, Option, none, some, List, [], ◌∷◌, arith,
  if◌then◌else◌, get_elem?, length-set, length-map, Bool-cases,
}
use headset_battery_indicato.Prelude.Assoc.{text_key}
use headset_battery_indicato.Time.{Instant, duration_since}
use headset_battery_indicato.Headset.{Headset, key}
use headset_battery_indicato.Bridge.Policy.{Reading}
use headset_battery_indicato.Bridge.Batteries.{VirtualBattery, position, set_state, set_device}
use headset_battery_indicato.Bridge.Batteries.Keys.{
  Lacks, Lacks-position_in, failures-get_elem?, IsSound-map,
}
use headset_battery_indicato.Bridge.Uhid.{UhidBattery, Uhid}
use headset_battery_indicato.Bridge.Daemon.{Summary, announce, summary_of}
use headset_battery_indicato.Bridge.Daemon.Devices.{Daemon}
use headset_battery_indicato.Bridge.Daemon.Apply.{
  settled_level, seen_at, refreshed, pushed, vetted_push, listed_again, refresh, publishing, apply,
  apply_all, clocks, note_all, take_probe, Probed, found, failure, tick, Narrowed, publish, nothing,
  gone,
}
use headset_battery_indicato.Bridge.Daemon.Invariant.{Inv, set-Inv, outcome-Inv, expire-Inv}
use headset_battery_indicato.Bridge.Daemon.Invariant.Attach.{appear-Inv, switched_off-Inv}
use headset_battery_indicato.Bridge.Vetted.Frame.{vetted_frame}

module _ (k : UhidBattery) (u : Uhid k) where
  seen_at-Inv :
      (o : Option VirtualBattery) (index : ℕ) (br : Daemon k u) (now : Instant)
      → get_elem? br.batteries.states index ≡ o
      → Inv br
      → Inv (seen_at k u o index br now)
  unfolding set_state
  seen_at-Inv none index br now e v = v
  seen_at-Inv (some battery) index br now e v =
      set-Inv k u br _ index battery (record battery { last_seen = now }) e refl
        (failures-get_elem? br.abandoned br.batteries.states index battery v.sound e) refl refl refl
        v

  listed_again-Inv :
      (existing : Option ℕ) (br : Daemon k u) (now : Instant)
      → Inv br
      → Inv (listed_again k u existing br now)
  listed_again-Inv none br now v = v
  listed_again-Inv (some index) br now v = seen_at-Inv _ index br now refl v

  -- What is written to the battery's record keeps its key, and does not count a failure.
  module _ (br : Daemon k u) (index : ℕ) (old : VirtualBattery)
      (e : get_elem? br.batteries.states index ≡ some old) (v : Inv br) where
    kept-Inv :
        (battery : VirtualBattery)
        → battery.key ≡ old.key
        → battery.failures ≡ old.failures
        → Inv (record br { batteries = set_state br.batteries index battery })
    unfolding set_state
    kept-Inv battery same few =
        set-Inv k u br _ index old battery e same
          (rw few (failures-get_elem? br.abandoned br.batteries.states index old v.sound e)) refl
          refl refl v

    told-Inv :
        (battery : VirtualBattery) (device : k.Battery)
        → battery.key ≡ old.key
        → battery.failures ≡ old.failures
        → Inv (record br {
          batteries = set_device (set_state br.batteries index battery) index device;
        })
    unfolding set_state set_device
    told-Inv battery device same few =
        set-Inv k u br _ index old battery e same
          (rw few (failures-get_elem? br.abandoned br.batteries.states index old v.sound e)) refl
          (length-set br.batteries.devices index device) refl v

    pushed-Inv :
        (device : k.Battery) (battery : VirtualBattery) (reading : Reading) (now : Instant)
        → battery.key ≡ old.key
        → battery.failures ≡ old.failures
        → Inv (pushed k u br index device battery reading now)
    unfolding pushed
    pushed-Inv device battery reading now same few =
        elim (Bool-cases
          (settled_level (k.reading device) reading (duration_since now battery.published_at))) [
            | inl h ↦ rw h (kept-Inv battery same few)
            | inr h ↦ rw h (outcome-Inv k u _ index _ now (told-Inv _ _ same few))
          ]

    vetted_push-Inv :
        (device : k.Battery) (now : Instant) (r : VirtualBattery × Option Reading)
        → r.0.key ≡ old.key
        → r.0.failures ≡ old.failures
        → Inv (vetted_push k u br index device now r)
    unfolding vetted_push
    vetted_push-Inv device now (battery, none) same few = kept-Inv battery same few
    vetted_push-Inv device now (battery, some reading) same few =
        pushed-Inv device battery reading now same few

  refreshed-Inv :
      (device : Option k.Battery) (state : Option VirtualBattery) (br : Daemon k u) (index : ℕ)
      (reading : Reading) (sample : Option ℕ) (now : Instant)
      → get_elem? br.batteries.states index ≡ state
      → Inv br
      → Inv (refreshed k u device state br index reading sample now)
  unfolding refreshed
  refreshed-Inv none state br index reading sample now e v = v
  refreshed-Inv (some device) none br index reading sample now e v = v
  refreshed-Inv (some device) (some battery) br index reading sample now e v =
      let frame =
        vetted_frame (record battery { last_reading = now; gone_since = none }) (k.reading device)
          reading sample in
      vetted_push-Inv br index battery e v device now _ frame.0 frame.1

  publishing-Inv :
      (n : Narrowed) (existing : Option ℕ) (br : Daemon k u) (headset : Headset) (now : Instant)
      → (existing ≡ none → Lacks (key headset) br.batteries.states)
      → Inv br
      → Inv (publishing k u n existing br headset now).0
  unfolding publishing refresh
  publishing-Inv nothing existing br headset now l v = v
  publishing-Inv gone existing br headset now l v = switched_off-Inv k u existing br now v
  publishing-Inv (publish reading) none br headset now l v =
      appear-Inv k u br headset reading now (l refl) v
  publishing-Inv (publish reading) (some index) br headset now l v =
      refreshed-Inv _ _ br index reading headset.sample now refl v

  apply-Inv :
      (br : Daemon k u) (headset : Headset) (now : Instant)
      → Inv br
      → Inv (apply k u br headset now).0
  unfolding apply
  apply-Inv br headset now v =
      publishing-Inv _ _ _ headset now (lacking (position br.batteries (key headset)) refl)
        (listed_again-Inv _ br now v)
    where
      lacking :
          (existing : Option ℕ)
          → position br.batteries (key headset) ≡ existing
          → existing ≡ none
          → Lacks (key headset) (listed_again k u existing br now).batteries.states
      lacking none e f = Lacks-position_in (key headset) br.batteries.states e
      lacking (some index) e f = cc

  apply_all-Inv :
      (br : Daemon k u) (headsets : List Headset) (now : Instant)
      → Inv br
      → Inv (apply_all k u br headsets now)
  unfolding apply_all
  apply_all-Inv br [] now v = v
  apply_all-Inv br (headset ∷ headsets) now v =
      apply_all-Inv (if headset.supports_battery then (apply k u br headset now).0 else br) headsets
        now (one headset.supports_battery)
    where
      one : (b : Bool) → Inv (if b then (apply k u br headset now).0 else br)
      one true = apply-Inv br headset now v
      one false = v

  note_all-Inv : (br : Daemon k u) (now : Instant) → Inv br → Inv (note_all k u br now)
  unfolding note_all clocks
  note_all-Inv br now v = record {
    parallel = v.parallel ∙ sym (length-map (clocks now) br.batteries.states);
    sound =
        IsSound-map (clocks now) (λ s. refl) (λ s. refl) br.abandoned br.batteries.states v.sound;
  }

  announce_frame :
      (br : Daemon k u) (summary : Summary) (now : Instant)
      → ((announce br summary now).batteries ≡ br.batteries)
        × ((announce br summary now).abandoned ≡ br.abandoned)
  unfolding announce
  announce_frame br summary now = (ground arith, ground arith)

  same-Inv :
      (br br' : Daemon k u)
      → br'.batteries ≡ br.batteries
      → br'.abandoned ≡ br.abandoned
      → Inv br
      → Inv br'
  same-Inv br br' b a v = record { parallel = rw b v.parallel; sound = rw (b, a) v.sound }

  take_probe-Inv :
      (br : Daemon k u) (probed : Probed) (now : Instant)
      → Inv br
      → Inv (take_probe k u br probed now).0
  unfolding take_probe
  take_probe-Inv br (found headsets) now v =
      let br' : Daemon k u = record br { probe_failing = false } in
      let frame = announce_frame br' (summary_of headsets) now in
      same-Inv br' _ frame.0 frame.1 (record { parallel = v.parallel; sound = v.sound })
  take_probe-Inv br (failure true) now v = v
  take_probe-Inv br (failure false) now v = record { parallel = v.parallel; sound = v.sound }

  -- Every poll, whatever the readers report and however the kernel answers, leaves the devices and
  -- their records paired one to one, with distinct keys, none of a headset that was given up on and
  -- no device that has failed three times in a row, if that was so before.
  pub tick-Inv :
      (br : Daemon k u) (probed : Probed) (now : Instant) → Inv br → Inv (tick k u br probed now).0
  unfolding tick
  tick-Inv br probed now v =
      let (br', headsets) = take_probe k u br probed now in
      expire-Inv k u _ now
        (note_all-Inv _ now (apply_all-Inv br' headsets now (take_probe-Inv br probed now v)))
