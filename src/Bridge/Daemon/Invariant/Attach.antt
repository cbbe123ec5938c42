-- ===== src/Bridge/Daemon/Invariant/Attach.antt =====
-- Creating a battery, and hearing that a headset is gone, keep the invariant.
use headset_battery_indicato.Prelude.{
  ℕ, ◌≡◌, refl, ◌⊎◌, inl, inr, false, ◌||◌, Option, none, some, [], ◌∷◌, arith, Text, get_elem?,
  length-append, Bool-cases, leb,
}
use headset_battery_indicato.Prelude.Assoc.{text_key, contains, lookup}
use headset_battery_indicato.Time.{Instant, duration_since}
use headset_battery_indicato.Headset.{Headset, key}
use headset_battery_indicato.Bridge.Policy.{Reading}
use headset_battery_indicato.Bridge.Batteries.{VirtualBattery, push}
use headset_battery_indicato.Bridge.Batteries.Keys.{
  Lacks, failures-get_elem?, IsSound-append, IsSound-abandon,
}
use headset_battery_indicato.Bridge.Uhid.{
  UhidBattery, Uhid, created, refused, listed, unlisted, failed, Registration, Created,
}
use headset_battery_indicato.Bridge.Daemon.{disconnect_settle}
use headset_battery_indicato.Bridge.Daemon.Devices.{
  Daemon, Attached, attached, retry, give_up, registered, creation, acquired, attach, new_battery,
}
use headset_battery_indicato.Bridge.Daemon.Apply.{
  switched_off, gone_at, gone_noted, get_or_insert, pending_until, after_attach, appear,
}
use headset_battery_indicato.Bridge.Daemon.Invariant.{Inv, withdraw-Inv, set-Inv}

module _ (k : UhidBattery) (u : Uhid k) where
  -- A battery that is attached is one whose key no battery has, and that was not given up on.
  registered-Inv :
      (br : Daemon k u) (headset : Headset) (reading : Reading) (now : Instant)
      (r : u.Pool × k.Battery × Registration)
      → Lacks (key headset) br.batteries.states
      → contains (key headset) br.abandoned ≡ false
      → Inv br
      → Inv (registered k u br headset reading now r).0
  unfolding registered push
  registered-Inv br headset reading now (pool, device, listed) l c v = record {
    parallel = omega (
      arith,
      length-append br.batteries.devices (device ∷ []),
      length-append br.batteries.states (new_battery headset reading now ∷ []),
      v.parallel,
    );
    sound =
        IsSound-append br.abandoned br.batteries.states (new_battery headset reading now)
          (omega arith) c l v.sound;
  }
  registered-Inv br headset reading now (pool, device, unlisted) l c v = record {
    parallel = v.parallel;
    sound = v.sound;
  }
  registered-Inv br headset reading now (pool, device, failed) l c v = record {
    parallel = v.parallel;
    sound = v.sound;
  }

  creation-Inv :
      (br : Daemon k u) (headset : Headset) (reading : Reading) (now : Instant)
      (r : u.Pool × Created k.Battery k.Handle)
      → Lacks (key headset) br.batteries.states
      → contains (key headset) br.abandoned ≡ false
      → Inv br
      → Inv (creation k u br headset reading now r).0
  unfolding creation
  creation-Inv br headset reading now (pool, created device) l c v =
      registered-Inv br headset reading now _ l c v
  creation-Inv br headset reading now (pool, refused invalid handle) l c v = record {
    parallel = v.parallel;
    sound = v.sound;
  }

  acquired-Inv :
      (br : Daemon k u) (headset : Headset) (reading : Reading) (now : Instant)
      (r : u.Pool × Option k.Handle)
      → Lacks (key headset) br.batteries.states
      → contains (key headset) br.abandoned ≡ false
      → Inv br
      → Inv (acquired k u br headset reading now r).0
  unfolding acquired
  acquired-Inv br headset reading now (pool, none) l c v = record {
    parallel = v.parallel;
    sound = v.sound;
  }
  acquired-Inv br headset reading now (pool, some handle) l c v =
      creation-Inv br headset reading now _ l c v

  -- A headset that is not attached has no battery.
  registered-Lacks :
      (br : Daemon k u) (headset : Headset) (reading : Reading) (now : Instant)
      (r : u.Pool × k.Battery × Registration)
      → Lacks (key headset) br.batteries.states
      → ((registered k u br headset reading now r).1 ≡ attached)
        ⊎ Lacks (key headset) (registered k u br headset reading now r).0.batteries.states
  unfolding registered
  registered-Lacks br headset reading now (pool, device, listed) l = inl refl
  registered-Lacks br headset reading now (pool, device, unlisted) l = inr l
  registered-Lacks br headset reading now (pool, device, failed) l = inr l

  creation-Lacks :
      (br : Daemon k u) (headset : Headset) (reading : Reading) (now : Instant)
      (r : u.Pool × Created k.Battery k.Handle)
      → Lacks (key headset) br.batteries.states
      → ((creation k u br headset reading now r).1 ≡ attached)
        ⊎ Lacks (key headset) (creation k u br headset reading now r).0.batteries.states
  unfolding creation
  creation-Lacks br headset reading now (pool, created device) l =
      registered-Lacks br headset reading now _ l
  creation-Lacks br headset reading now (pool, refused invalid handle) l = inr l

  acquired-Lacks :
      (br : Daemon k u) (headset : Headset) (reading : Reading) (now : Instant)
      (r : u.Pool × Option k.Handle)
      → Lacks (key headset) br.batteries.states
      → ((acquired k u br headset reading now r).1 ≡ attached)
        ⊎ Lacks (key headset) (acquired k u br headset reading now r).0.batteries.states
  unfolding acquired
  acquired-Lacks br headset reading now (pool, none) l = inr l
  acquired-Lacks br headset reading now (pool, some handle) l =
      creation-Lacks br headset reading now _ l

  after_attach-Inv :
      (name : Text) (now : Instant) (r : Daemon k u × Attached)
      → (r.1 ≡ attached) ⊎ Lacks name r.0.batteries.states
      → Inv r.0
      → Inv (after_attach k u name now r).0
  after_attach-Inv name now (br, attached) l v = record { parallel = v.parallel; sound = v.sound }
  after_attach-Inv name now (br, retry) l v = record { parallel = v.parallel; sound = v.sound }
  after_attach-Inv name now (br, give_up) (inl e) v = cc
  after_attach-Inv name now (br, give_up) (inr l) v = record {
    parallel = v.parallel;
    sound = IsSound-abandon br.abandoned name br.batteries.states l v.sound;
  }

  pub appear-Inv :
      (br : Daemon k u) (headset : Headset) (reading : Reading) (now : Instant)
      → Lacks (key headset) br.batteries.states
      → Inv br
      → Inv (appear k u br headset reading now).0
  unfolding appear attach
  appear-Inv br headset reading now l v =
      elim (Bool-cases (
        pending_until (lookup (key headset) br.attach_retry_at) now
        || contains (key headset) br.abandoned)) [
          | inl skip ↦ rw skip v
          | inr go ↦ rw go (
              after_attach-Inv (key headset) now _
                (acquired-Lacks br headset reading now (u.acquire br.uhid) l)
                (acquired-Inv br headset reading now (u.acquire br.uhid) l (ground arith) v))
        ]

  gone_at-Inv :
      (o : Option VirtualBattery) (index : ℕ) (br : Daemon k u) (now : Instant)
      → get_elem? br.batteries.states index ≡ o
      → Inv br
      → Inv (gone_at k u o index br now)
  unfolding gone_at
  gone_at-Inv none index br now e v = v
  gone_at-Inv (some battery) index br now e v =
      elim (Bool-cases (leb disconnect_settle (duration_since now since))) [
        | inl h ↦ rw h (withdraw-Inv k u _ index noted)
        | inr h ↦ rw h noted
      ]
    where
      since : Instant
      since = get_or_insert battery.gone_since now

      noted : Inv (gone_noted k u br index battery since)
      noted =
          set-Inv k u br _ index battery (record battery { gone_since = some since }) e refl
            (failures-get_elem? br.abandoned br.batteries.states index battery v.sound e) refl refl
            refl v

  pub switched_off-Inv :
      (existing : Option ℕ) (br : Daemon k u) (now : Instant)
      → Inv br
      → Inv (switched_off k u existing br now)
  unfolding switched_off
  switched_off-Inv none br now v = v
  switched_off-Inv (some index) br now v = gone_at-Inv _ index br now refl v
