-- ===== src/Bridge/Daemon/Devices.antt =====
-- The virtual devices in src/bridge/mod.rs: creating one, giving up on one, withdrawing those
-- that outlived their grace, and serving the kernel.
use headset_battery_indicato.Prelude.{
  ℕ, zero, suc, ◌+◌, Bool, true, false, Option, none, some, ◌∷◌, ◌++◌, ltb, if◌then◌else◌,
  get_elem?,
}
use headset_battery_indicato.Prelude.Assoc.{text_key, insert}
use headset_battery_indicato.Time.{Instant}
use headset_battery_indicato.Headset.{Headset, key, uniq, display_name}
use headset_battery_indicato.Bridge.Policy.{
  Reading, Config, elapsed, Withdrawal, keep, silent, missing, withdrawal,
}
use headset_battery_indicato.Bridge.Batteries.{
  VirtualBattery, Batteries, len, position, push, set_state, set_device,
}
use headset_battery_indicato.Bridge.Batteries
use headset_battery_indicato.Bridge.Uhid.{
  UhidBattery, Uhid, Identity, Created, created, refused, Registration, listed, unlisted, failed,
  release,
}
use headset_battery_indicato.Bridge.Daemon.{
  Bridge, attach_retry, device_failure_limit, registration_timeout, phys_prefix,
}

-- Why a virtual battery could not be created, if it could not.
pub data Attached : Type 0 where
  attached retry give_up : Attached

abbrev pub identity_of : Headset → Identity
identity_of headset = record {
  name = display_name headset;
  uniq = uniq headset;
  phys = phys_prefix ++ b'/' ∷ uniq headset;
  vendor = headset.vendor_id;
  product = headset.product_id;
}

abbrev pub new_battery : Headset → Reading → Instant → VirtualBattery
new_battery headset reading now = record {
  key = key headset;
  name = headset.name;
  last_reading = now;
  last_seen = now;
  silent_since = none;
  missing_since = none;
  gone_since = none;
  deferred = none;
  deferred_sample = none;
  held = none;
  logged_percent = reading.percent;
  published_at = now;
  failures = 0;
}

-- The verdict of `expire` on one battery.
unfoldable pub grace : Config → Instant → VirtualBattery → Withdrawal
grace config now battery =
    withdrawal (elapsed battery.silent_since now) (elapsed battery.missing_since now) config

module _ (k : UhidBattery) (u : Uhid k) where
  abbrev pub Daemon : Type 0
  Daemon = Bridge u.Pool k.Battery

  -- What follows once the kernel has been waited for.
  unfoldable pub registered :
      Daemon → Headset → Reading → Instant → u.Pool × k.Battery × Registration → Daemon × Attached
  unfolding release push
  registered br headset reading now (pool, device, listed) = (
    record br {
      uhid = pool;
      batteries = push br.batteries device (new_battery headset reading now);
    },
    attached,
  )
  registered br headset reading now (pool, device, unlisted) =
      (record br { uhid = release k u pool device }, retry)
  registered br headset reading now (pool, device, failed) =
      (record br { uhid = release k u pool device }, retry)

  unfoldable pub creation :
      Daemon → Headset → Reading → Instant → u.Pool × Created k.Battery k.Handle → Daemon × Attached
  unfolding registered
  creation br headset reading now (pool, created device) =
      registered br headset reading now (u.wait_for_power_supply pool device registration_timeout)
  creation br headset reading now (pool, refused invalid_identity handle) =
      (record br { uhid = u.put_back pool handle }, if invalid_identity then give_up else retry)

  unfoldable pub acquired :
      Daemon → Headset → Reading → Instant → u.Pool × Option k.Handle → Daemon × Attached
  unfolding creation
  acquired br headset reading now (pool, none) = (record br { uhid = pool }, retry)
  acquired br headset reading now (pool, some handle) =
      creation br headset reading now (u.create pool handle (identity_of headset) reading)

  -- Registers a new virtual battery with the kernel.
  unfoldable pub attach : Daemon → Headset → Reading → Instant → Daemon × Attached
  unfolding acquired
  attach br headset reading now = acquired br headset reading now (u.acquire br.uhid)

  -- Takes the battery at an index out, and keeps its handle.
  unfoldable pub withdraw : Daemon → ℕ → Daemon
  unfolding release Batteries.remove
  withdraw br index = elim (get_elem? br.batteries.devices index) [
    | none ↦ br
    | some device ↦ record br {
      batteries = Batteries.remove br.batteries index;
      uhid = release k u br.uhid device;
    }
  ]

  -- After the failure that makes the streak too long.
  abbrev pub broken : Daemon → ℕ → VirtualBattery → Instant → Daemon
  broken br index battery now =
      withdraw
        (record br { attach_retry_at = insert battery.key (now + attach_retry) br.attach_retry_at })
        index

  unfoldable pub outcome_of : Option VirtualBattery → Daemon → ℕ → Bool → Instant → Daemon × Bool
  unfolding withdraw set_state
  outcome_of none br index succeeded now = (br, true)
  outcome_of (some battery) br index true now = (
    record br { batteries = set_state br.batteries index (record battery { failures = 0 }) },
    true,
  )
  outcome_of (some battery) br index false now =
      let failing = record battery { failures = battery.failures + 1 } in
      let struck = record br { batteries = set_state br.batteries index failing } in
      if ltb failing.failures device_failure_limit
      then (struck, true)
      else (broken struck index battery now, false)

  -- Takes in the result of talking to the device at an index, and says whether it is still there.
  unfoldable pub outcome : Daemon → ℕ → Bool → Instant → Daemon × Bool
  unfolding outcome_of
  outcome br index succeeded now =
      outcome_of (get_elem? br.batteries.states index) br index succeeded now

  unfoldable pub advance : Withdrawal → ℕ → Daemon → ℕ × Daemon
  unfolding withdraw
  advance keep index br = (suc index, br)
  advance silent index br = (index, withdraw br index)
  advance missing index br = (index, withdraw br index)

  -- A turn of the loop of `expire`: it passes the battery at the index or takes it out.
  unfoldable pub expire_turn : Option VirtualBattery → ℕ → Daemon → Instant → ℕ × Daemon
  unfolding grace advance
  expire_turn none index br now = (index, br)
  expire_turn (some battery) index br now = advance (grace br.config now battery) index br

  -- The loop makes one turn for each battery there was; once past the end, a turn does nothing.
  unfoldable pub expire_from : ℕ → ℕ → Daemon → Instant → Daemon
  unfolding expire_turn
  expire_from zero index br now = br
  expire_from (suc turns) index br now =
      let (index', br') = expire_turn (get_elem? br.batteries.states index) index br now in
      expire_from turns index' br' now

  unfoldable pub expire : Daemon → Instant → Daemon
  unfolding expire_from len
  expire br now = expire_from (len br.batteries) 0 br now
