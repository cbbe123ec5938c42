-- ===== src/Bridge/Daemon/Running/Stop.antt =====
-- The daemon stops when it is told to, and leaves no battery behind.
use headset_battery_indicato.Prelude.{
  ℕ, zero, suc, ◌+◌, ◌-◌, ◌*◌, ◌≤◌, ◌<◌, ◌≡◌, refl, inl, inr, Bool, true, false, Option, none, some,
  List, arith, ltb, min, Bool-cases,
}
use headset_battery_indicato.Time.{Duration, Instant}
use headset_battery_indicato.Notify.{Sockets}
use headset_battery_indicato.Bridge.Batteries.{Batteries, len}
use headset_battery_indicato.Bridge.Batteries
use headset_battery_indicato.Bridge.Uhid.{UhidBattery, Uhid}
use headset_battery_indicato.Bridge.Daemon.Devices.{Daemon}
use headset_battery_indicato.Bridge.Daemon.Invariant.{Inv}
use headset_battery_indicato.Bridge.Daemon.Invariant.Poll.{tick-Inv}
use headset_battery_indicato.Bridge.Daemon.Serving.{Served, shutdown}
use headset_battery_indicato.Bridge.Daemon.Serving.Strikes.{
  IsServing, Waits, wait-Waits, strikes-le,
}
use headset_battery_indicato.Bridge.Daemon.Running.{
  BatterySource, Phase, polling, waiting, Exit, told_to, wait_failed, max_wait, State, poll_turn,
  wait_turn, finish, after_wait, run_from, run,
}

module _ (k : UhidBattery) (u : Uhid k) (b : BatterySource) (n : Sockets) (stop : ℕ → Bool)
    (clock after : ℕ → Instant) (within : ℕ → ℕ → Instant)
    (serve : ℕ → Duration → ℕ → List k.Battery → List k.Battery × Served)
    (law : (i : ℕ) (timeout : Duration) → IsServing (serve i timeout)) where
  -- The state that the loop works with.
  abbrev Loop : Type 0
  Loop = State k u b n stop clock after within serve

  -- How the daemon may end: told to, with no battery left, or by a wait that failed, as sound as ever.
  abbrev pub Ends : Option (Loop × Exit) → Type 0
  Ends none = ⊥
  Ends (some (r, told_to)) = r.daemon.batteries ≡ Batteries.empty
  Ends (some (r, wait_failed)) = Inv r.daemon

  wait_turn-Waits :
      (r : Loop) (remaining : Duration) (i : ℕ)
      → Inv r.daemon
      → Waits k u
          (serve i (min remaining max_wait))
          (within i)
          (law i (min remaining max_wait))
          (wait_turn k u b n stop clock after within serve r remaining i)
  unfolding wait_turn len
  wait_turn-Waits r remaining i v =
      wait-Waits k u (serve i (min remaining max_wait)) (within i) (law i (min remaining max_wait))
        (suc (3 * len r.daemon.batteries)) 0 r.daemon v
        (omega (arith, strikes-le r.daemon.batteries.states))

  after_wait-Ends :
      (o : Option (Daemon k u × Bool)) (r : Loop) (again : Loop → Option (Loop × Exit)) (i : ℕ)
      (timeout : Duration)
      → Waits k u (serve i timeout) (within i) (law i timeout) o
      → ((r' : Loop) → Inv r'.daemon → Ends (again r'))
      → Ends (after_wait k u b n stop clock after within serve o r again)
  unfolding after_wait
  after_wait-Ends none r again i timeout w next = w
  after_wait-Ends (some (daemon, false)) r again i timeout w next = w
  after_wait-Ends (some (daemon, true)) r again i timeout w next = next _ w

  poll_turn-Inv :
      (r : Loop) (i : ℕ)
      → Inv r.daemon
      → Inv (poll_turn k u b n stop clock after within serve r i).0.daemon
  unfolding poll_turn
  poll_turn-Inv r i v = tick-Inv k u r.daemon (b.probe r.source i).1 (clock i) v

  finish-none :
      (r : Loop)
      → (finish k u b n stop clock after within serve r).daemon.batteries ≡ Batteries.empty
  unfolding finish shutdown
  finish-none r = refl

  before_raised : (last i : ℕ) → ((j : ℕ) → last ≤ j → stop j ≡ true) → stop i ≡ false → i < last
  before_raised last i raised h = elim (Bool-cases (ltb i last)) [
    | inl below ↦ ground (arith, below)
    | inr above ↦ let up = raised i (ground (arith, above)) in absurd cc
  ]

  -- How often the loop reads the flag at least.
  abbrev pub reads : Phase → ℕ
  reads polling = 1
  reads (waiting deadline) = 2

  run_from-Ends :
      (fuel i : ℕ) (phase : Phase) (r : Loop) (last : ℕ)
      → ((j : ℕ) → last ≤ j → stop j ≡ true)
      → last + 2 ≤ i + fuel
      → reads phase ≤ fuel
      → Inv r.daemon
      → Ends (run_from k u b n stop clock after within serve fuel i phase r)
  unfolding run_from
  run_from-Ends zero i polling r last raised enough few v = absurd (omega arith)
  run_from-Ends zero i (waiting deadline) r last raised enough few v = absurd (omega arith)
  run_from-Ends (suc fuel) i polling r last raised enough few v = elim (Bool-cases (stop i)) [
    | inl h ↦ rw h (finish-none r)
    | inr h ↦
        let below = before_raised last i raised h in
        rw h (
          run_from-Ends fuel (suc i)
            (waiting (poll_turn k u b n stop clock after within serve r i).1)
            (poll_turn k u b n stop clock after within serve r i).0 last raised (omega arith)
            (omega arith) (poll_turn-Inv r i v))
  ]
  run_from-Ends (suc fuel) i (waiting deadline) r last raised enough few v =
      let over = run_from-Ends fuel (suc i) polling r last raised (omega arith) (omega arith) v in
      elim (Bool-cases (stop i)) [
        | inl h ↦ rw h over
        | inr h ↦ elim (Bool-cases (ltb deadline (clock i))) [
          | inl late ↦ rw h (rw late over)
          | inr early ↦
              let below = before_raised last i raised h in
              rw h (
                rw early (
                  after_wait-Ends
                    (wait_turn k u b n stop clock after within serve r (deadline - clock i) i) r
                    (run_from k u b n stop clock after within serve fuel (suc i) (waiting deadline))
                    i (min (deadline - clock i) max_wait)
                    (wait_turn-Waits r (deadline - clock i) i v)
                    (λ r' v'.
                      run_from-Ends fuel (suc i) (waiting deadline) r' last raised (omega arith)
                        (omega arith) v')))
        ]
      ]

  -- If `serve_all` keeps its promise, and every reading of the stop flag from number `last` on finds
  -- it raised, the daemon returns
  -- after no more than `last + 2` readings of it. Either it was told to and leaves no battery behind,
  -- or a wait failed and the daemon is as sound as it was at its start.
  pub run-Ends :
      (fuel : ℕ) (r : Loop) (last : ℕ)
      → ((j : ℕ) → last ≤ j → stop j ≡ true)
      → last + 2 ≤ fuel
      → Inv r.daemon
      → Ends (run k u b n stop clock after within serve fuel r)
  unfolding run
  run-Ends fuel r last raised enough v =
      run_from-Ends fuel 0 polling _ last raised (omega arith) (omega arith) v
