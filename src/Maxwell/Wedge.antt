-- ===== src/Maxwell/Wedge.antt =====
-- src/maxwell/wedge.rs, `WedgeWatch`: when a silent dongle is taken for a wedged one. The look at
-- the ALSA state is a parameter, a function of the state of the machine that it leaves changed.
pub mod Reminders
pub mod Evidence
pub mod Human
pub mod Suspicion
mod Tests
mod Trees
use headset_battery_indicato.Prelude.{
  ℕ, ◌*◌, Bool, true, false, Option, none, some, is_some, ltb, leb, if◌then◌else◌,
}
use headset_battery_indicato.Time.{Duration, Instant, from_secs, duration_since}

abbrev pub wedge_silence : Duration
wedge_silence = from_secs 600

abbrev pub wedge_reminder : Duration
wedge_reminder = from_secs (24 * 3600)

abbrev pub probe_every : Duration
probe_every = from_secs 30

pub record WedgeWatch : Type 0 where
  pub heard_at : Instant
  pub warned_at : Option Instant
  pub probed : Option (Instant × Option Bool)

-- `WedgeWatch::new`
pub watch_from : Instant → WedgeWatch
watch_from now = record { heard_at = now; warned_at = none; probed = none }

pub heard : WedgeWatch → Instant → WedgeWatch × Bool
heard watch now =
    (record { heard_at = now; warned_at = none; probed = none }, is_some watch.warned_at)

pub silence : WedgeWatch → Instant → Duration
silence watch now = duration_since now watch.heard_at

abbrev pub is_running : Option Bool → Bool
is_running none = false
is_running (some running) = running

-- `warned_at.is_none_or(...)`
abbrev pub reminder_due : Option Instant → Instant → Bool
reminder_due none now = true
reminder_due (some at) now = leb wedge_reminder (duration_since now at)

-- What follows the look.
pub verdict : WedgeWatch → Bool → Instant → WedgeWatch × Option Duration
unfolding silence
verdict watch running now =
    if running
    then if reminder_due watch.warned_at now
      then (record watch { warned_at = some now }, some (silence watch now))
      else (watch, none)
    else (watch, none)

module _ {M : Type 0} (probe : M → M × Option Bool) where
  pub fresh_look : WedgeWatch → M → Instant → WedgeWatch × M × Option Bool
  fresh_look watch machine now =
      let (machine', running) = probe machine in
      (record watch { probed = some (now, running) }, machine', running)

  -- A look is good for `PROBE_EVERY`.
  pub look :
      Option (Instant × Option Bool) → WedgeWatch → M → Instant → WedgeWatch × M × Option Bool
  unfolding fresh_look
  look none watch machine now = fresh_look watch machine now
  look (some (at, running)) watch machine now =
      if ltb (duration_since now at) probe_every
      then (watch, machine, running)
      else fresh_look watch machine now

  pub check : WedgeWatch → M → Instant → WedgeWatch × M × Option Duration
  unfolding look verdict silence
  check watch machine now =
      if ltb (silence watch now) wedge_silence
      then (watch, machine, none)
      else (let (watch', machine', running) = look watch.probed watch machine now in
          let (watch'', warning) = verdict watch' (is_running running) now in
          (watch'', machine', warning))
