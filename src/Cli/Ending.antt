-- ===== src/Cli/Ending.antt =====
-- How the program of src/main.rs ends as a daemon, and with which exit code.
use headset_battery_indicato.Prelude.{
  ℕ, ◌+◌, ◌≤◌, ◌≡◌, refl, ◌⊎◌, inl, inr, Bool, true, false, Option, none, some,
}
use headset_battery_indicato.Time.{Duration}
use headset_battery_indicato.Bridge.Uhid.{device_pool}
use headset_battery_indicato.Bridge.Batteries
use headset_battery_indicato.Bridge.Policy.{Config}
use headset_battery_indicato.Bridge.Daemon.{over}
use headset_battery_indicato.Bridge.Daemon.Invariant.{Inv}
use headset_battery_indicato.Bridge.Daemon.Serving.Strikes.{IsServing}
use headset_battery_indicato.Bridge.Daemon.Running.{
  BatterySource, told_to, wait_failed, State, Exit,
}
use headset_battery_indicato.Bridge.Daemon.Running
use headset_battery_indicato.Bridge.Daemon.Running.Stop.{Ends, run-Ends}
use headset_battery_indicato.Maxwell.Access.{Outside, outset}
use headset_battery_indicato.Source.{Source}
use headset_battery_indicato.Cli.{Cli, RunArgs, run, command_or_default, config_of, source_of}
use headset_battery_indicato.Cli.Program.{
  Host, ExitCode, success, failed, served, battery_source, started, code_of, run_daemon, commanded,
  main,
}

-- A daemon that has just been made is sound.
over-Inv : {P B : Type 0} (config : Config) (pool : P) → Inv (over {P = P} {B = B} config pool)
unfolding over Batteries.empty
over-Inv config pool = record { parallel = refl; sound = tt }

-- The daemon's command on this host.
module _ (host : Host) (law : (i : ℕ) (timeout : Duration) → IsServing (host.serve i timeout)) where
  abbrev pub source : BatterySource
  source = battery_source host.hidraw host.playback host.scene host.around host.stop

  abbrev pub Loop : Type 0
  Loop =
      State host.uhid (device_pool host.uhid) source host.sockets host.stop host.clock host.after
        host.within host.serve

  -- What the daemon's two loops come to, from its beginning.
  abbrev pub looped :
      ℕ → RunArgs → Source host.hidraw.Device → Outside host.Machine → Option (Loop × Exit)
  looped fuel args native outside =
      Running.run host.uhid (device_pool host.uhid) source host.sockets host.stop host.clock
        host.after host.within host.serve fuel
        (started host.hidraw host.playback host.scene host.around host.stop host.uhid host.sockets
          host.stop host.clock host.after host.within host.serve args host.inherited host.address
          native outside)

  -- Success: the handlers were installed, and the daemon ended because it was told to, with no
  -- battery left. Failure: a handler could not be installed, or a wait failed.
  abbrev pub Finished : Option (Loop × Exit) → ExitCode → Type 0
  Finished o success =
      (host.handled ≡ true)
      × (r : Loop) × (o ≡ some (r, told_to))
      × (r.daemon.batteries ≡ Batteries.empty)
  Finished o failed = (host.handled ≡ false) ⊎ ((r : Loop) × (o ≡ some (r, wait_failed)))

  code_of-Finished :
      (o : Option (Loop × Exit))
      → Ends host.uhid
          (device_pool host.uhid)
          source
          host.sockets
          host.stop
          host.clock
          host.after
          host.within
          host.serve
          law
          o
      → host.handled ≡ true
      → (code : ExitCode) × (code_of host.hidraw host.playback host.scene host.around host.stop
            host.uhid host.sockets host.stop host.clock host.after host.within host.serve o
          ≡ some code)
        × Finished o code
  code_of-Finished none e handled = elim e [ ]
  code_of-Finished (some (r, told_to)) e handled = (success, refl, (handled, r, refl, e))
  code_of-Finished (some (r, wait_failed)) e handled = (failed, refl, inr (r, refl))

  run_daemon-Finished :
      (handled : Bool) (fuel : ℕ) (args : RunArgs) (native : Source host.hidraw.Device)
      (outside : Outside host.Machine) (last : ℕ)
      → host.handled ≡ handled
      → ((j : ℕ) → last ≤ j → host.stop j ≡ true)
      → last + 2 ≤ fuel
      → (code : ExitCode) × (run_daemon host.hidraw host.playback host.scene host.around host.stop
            host.uhid host.sockets host.stop host.clock host.after host.within host.serve handled
            fuel args host.inherited host.address native outside
          ≡ some code)
        × Finished (looped fuel args native outside) code
  unfolding run_daemon
  run_daemon-Finished false fuel args native outside last e raised enough = (failed, refl, inl e)
  run_daemon-Finished true fuel args native outside last e raised enough =
      code_of-Finished _
        (run-Ends host.uhid (device_pool host.uhid) source host.sockets host.stop host.clock
          host.after host.within host.serve law fuel
          (started host.hidraw host.playback host.scene host.around host.stop host.uhid host.sockets
            host.stop host.clock host.after host.within host.serve args host.inherited host.address
            native outside)
          last raised enough (over-Inv (config_of args) _))
        e

  -- If `serve_all` keeps its promise, and every reading of the stop flag from number `last` on finds
  -- it raised, then the program, started as a daemon in whatever way, returns after no more than
  -- `last + 2` readings of the flag. Its exit code is success only if the signal handlers were
  -- installed and the daemon's loops ended because they were told to, with no battery left, and
  -- failure only if a handler could not be installed or the loops ended by a wait that failed.
  pub main-Finished :
      (fuel last : ℕ) (cli : Cli) (args : RunArgs) (machine : host.Machine)
      → command_or_default host.dev_uhid cli.command ≡ run args
      → ((j : ℕ) → last ≤ j → host.stop j ≡ true)
      → last + 2 ≤ fuel
      → (code : ExitCode) × (main host fuel cli machine ≡ some (served code))
        × Finished
            (looped fuel args (source_of cli.common (run args)) (outset machine host.error_clock))
            code
  unfolding main commanded outset
  main-Finished fuel last cli args machine e raised enough =
      let (code, returned, finished) =
        run_daemon-Finished host.handled fuel args (source_of cli.common (run args))
          (outset machine host.error_clock) last refl raised enough in
      rw e (code, rw returned refl, finished)
