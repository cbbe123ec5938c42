-- ===== src/Bridge/Daemon/Running.antt =====
-- `Bridge::run` of src/bridge/mod.rs: polls, waits between them, and stops when it is told to. The
-- source of readings, the clocks (as a turn of the loop starts, as its poll is over, and within each
-- wait), the stop flag and what the kernel asks for are arguments; each reading of the flag counts
-- one.
pub mod Stop
use headset_battery_indicato.Prelude.{
  ℕ, zero, suc, ◌+◌, ◌-◌, ◌*◌, Bool, true, false, Option, none, some, List, ltb, if◌then◌else◌, min,
  Text,
}
use headset_battery_indicato.Time.{Duration, Instant, from_secs}
use headset_battery_indicato.Notify
use headset_battery_indicato.Notify.{Sockets, Notifier}
use headset_battery_indicato.Bridge.Policy.{next_delay}
use headset_battery_indicato.Bridge.Batteries.{len}
use headset_battery_indicato.Bridge.Uhid.{UhidBattery, Uhid}
use headset_battery_indicato.Bridge.Daemon.Devices.{Daemon}
use headset_battery_indicato.Bridge.Daemon.Apply.{Probed, tick}
use headset_battery_indicato.Bridge.Daemon.Serving.{Served, wait, shutdown}

abbrev pub max_wait : Duration
max_wait = from_secs 5

-- `trait BatterySource`: a probe sees the stop flag at the time.
pub record BatterySource : Type 1 where
  pub State : Type 0
  pub probe : State → ℕ → State × Probed
  pub last_probe_was_native : State → Bool

-- Where the loop stands: before a poll, or waiting for the deadline of the next one.
pub data Phase : Type 0 where
  polling : Phase
  waiting : Instant → Phase

-- What `run` works with: the daemon, its source and its notifier.
pub record Running (D P S : Type 0) : Type 0 where
  pub daemon : D
  pub source : P
  pub notifier : Notifier S

-- How `run` returns.
pub data Exit : Type 0 where
  told_to : Exit
  wait_failed : Exit

module _ (k : UhidBattery) (u : Uhid k) (b : BatterySource) (n : Sockets) (stop : ℕ → Bool)
    (clock after : ℕ → Instant) (within : ℕ → ℕ → Instant)
    (serve : ℕ → Duration → ℕ → List k.Battery → List k.Battery × Served) where
  abbrev pub State : Type 0
  State = Running (Daemon k u) b.State n.Socket

  abbrev pub pinged : State → State
  unfolding Notify.watchdog
  pinged r = record r { notifier = (Notify.watchdog n r.notifier).0 }

  -- A poll, and the deadline of the next one.
  unfoldable pub poll_turn : State → ℕ → State × Instant
  unfolding tick next_delay pinged
  poll_turn r i =
      let (source, probed) = b.probe r.source i in
      let (daemon, unanswered) = tick k u r.daemon probed (clock i) in
      let delay = next_delay unanswered (b.last_probe_was_native source) daemon.config in
      (record (pinged r) { daemon = daemon; source = source }, after i + delay)

  -- A wait is given the turns that it may need.
  unfoldable pub wait_turn : State → Duration → ℕ → Option (Daemon k u × Bool)
  unfolding wait len
  wait_turn r remaining i =
      wait k u (serve i (min remaining max_wait)) (within i) (suc (3 * len r.daemon.batteries)) 0
        r.daemon

  -- `STOPPING=1`, and no battery is left behind.
  unfoldable pub finish : State → State
  unfolding shutdown Notify.stopping
  finish r = record r {
    daemon = (shutdown k u r.daemon).0;
    notifier = (Notify.stopping n r.notifier).0;
  }

  abbrev after_wait :
      Option (Daemon k u × Bool) → State → (State → Option (State × Exit)) → Option (State × Exit)
  unfolding pinged
  after_wait none r again = none
  after_wait (some (daemon, false)) r again = some (record r { daemon = daemon }, wait_failed)
  after_wait (some (daemon, true)) r again = again (pinged (record r { daemon = daemon }))

  -- The two loops; `none` means that the fuel ran out.
  unfoldable pub run_from : ℕ → ℕ → Phase → State → Option (State × Exit)
  unfolding poll_turn wait_turn finish after_wait
  run_from zero i phase r = none
  run_from (suc fuel) i polling r =
      let (r', deadline) = poll_turn r i in
      let rest = run_from fuel (suc i) (waiting deadline) r' in
      if stop i then some (finish r, told_to) else rest
  run_from (suc fuel) i (waiting deadline) r =
      let over = run_from fuel (suc i) polling r in
      let served =
        after_wait (wait_turn r (deadline - clock i) i) r
          (run_from fuel (suc i) (waiting deadline)) in
      if stop i then over else if ltb deadline (clock i) then over else served

  unfoldable pub run : ℕ → State → Option (State × Exit)
  unfolding run_from Notify.ready
  run fuel r = run_from fuel 0 polling (record r { notifier = (Notify.ready n r.notifier).0 })
