-- ===== src/Source.antt =====
-- src/source.rs: which reader answers. The native reader and HeadsetControl are the models of
-- theirs, over the parameters that those take.
pub mod Gap
mod Tests
use headset_battery_indicato.Prelude.{
  ℕ, Bool, true, false, Option, none, some, List, [], ◌∷◌, Text, ltb, if◌then◌else◌,
}
use headset_battery_indicato.Prelude.Outcome.{Result, ok, err}
use headset_battery_indicato.Time.{Duration, Instant, from_secs, duration_since}
use headset_battery_indicato.Headset.{Headset}
use headset_battery_indicato.HeadsetControl.{Decoder}
use headset_battery_indicato.HeadsetControl.Process
use headset_battery_indicato.HeadsetControl.Process.{System, Invocation, ProbeError, Ticks}
use headset_battery_indicato.Maxwell.Session.{Hidraw}
use headset_battery_indicato.Maxwell.Access.{Outside}
use headset_battery_indicato.Maxwell.Reader.{Reader, new_reader}
use headset_battery_indicato.Maxwell.Reader.OneShot
use headset_battery_indicato.Maxwell.Reader.OneShot.{Scene, poll, read_once}

abbrev pub default_native_interval_secs : ℕ
default_native_interval_secs = 300

abbrev pub reenumeration_grace : Duration
reenumeration_grace = from_secs 30

pub data Backend : Type 0 where
  auto native headset_control : Backend

abbrev pub is_headset_control : Backend → Bool
is_headset_control auto = false
is_headset_control native = false
is_headset_control headset_control = true

abbrev pub is_native : Backend → Bool
is_native auto = false
is_native native = true
is_native headset_control = false

pub record Source (D : Type 0) : Type 0 where
  pub backend : Backend
  pub control : Invocation
  pub answered_natively : Bool
  pub reader : Reader D
  pub native_interval : Duration
  pub native_seen_at : Option Instant

unfoldable pub new_source : {D : Type 0} → Backend → Invocation → Duration → Source D
unfolding new_reader
new_source backend control native_interval = record {
  backend = backend;
  control = control;
  answered_natively = false;
  reader = new_reader;
  native_interval = native_interval;
  native_seen_at = none;
}

abbrev seen_lately : Option Instant → Instant → Bool
seen_lately none now = false
seen_lately (some at) now = ltb (duration_since now at) reenumeration_grace

unfoldable pub dongle_is_coming_back : {D : Type 0} → Source D → Instant → Bool
dongle_is_coming_back source now = seen_lately source.native_seen_at now

unfoldable pub last_probe_was_native : {D : Type 0} → Source D → Bool
last_probe_was_native source = source.answered_natively

-- What a probe of HeadsetControl meets: the system, the flag and the clock of its turns, when it is
-- started, what its clock keeps to, and the decoder.
pub record Surroundings : Type 1 where
  pub system : System
  pub stop : ℕ → Bool
  pub clock : ℕ → Instant
  pub started : Instant
  pub ticks : Ticks clock started
  pub decode : Decoder

-- The result of a probe.
abbrev pub Answer : Type 0
Answer = Result ProbeError (List Headset)

unfoldable pub control_probe : Surroundings → Invocation → Answer
unfolding Process.probe
control_probe o control = Process.probe o.system o.stop o.clock o.started o.ticks o.decode control

module _ (h : Hidraw) {M : Type 0} (playback : Option Text → M → M × Option Bool) where
  -- One pass of the native reader, in the state it leaves.
  abbrev pub listened :
      Source h.Device → Bool → Reader h.Device × Outside M × List Headset → Source h.Device
  listened source natively (reader, outside, headsets) = record source {
    answered_natively = natively;
    reader = reader;
  }

  -- `Backend::Auto`, once the native reader has listened: the instant is the one that the clock reads
  -- then.
  abbrev pub chosen :
      Source h.Device
      → Surroundings
      → Instant
      → Reader h.Device × Outside M × List Headset
      → Source h.Device × Outside M × Answer
  unfolding control_probe dongle_is_coming_back
  chosen source o now (reader, outside, []) =
      if dongle_is_coming_back source now
      then (record source { answered_natively = true; reader = reader }, outside, ok [])
      else (
        record source { answered_natively = false; reader = reader },
        outside,
        control_probe o source.control,
      )
  chosen source o now (reader, outside, headset ∷ headsets) = (
    record source { answered_natively = true; reader = reader; native_seen_at = some now },
    outside,
    ok (headset ∷ headsets),
  )

  abbrev pub probe_with :
      Backend
      → Source h.Device
      → Outside M
      → Scene
      → Surroundings
      → Source h.Device × Outside M × Answer
  unfolding poll chosen control_probe
  probe_with native source outside scene o =
      let r = poll h playback source.reader outside scene source.native_interval in
      (listened source true r, r.1, ok r.2)
  probe_with headset_control source outside scene o =
      (record source { answered_natively = false }, outside, control_probe o source.control)
  probe_with auto source outside scene o =
      chosen source o scene.answered
        (poll h playback source.reader outside scene source.native_interval)

  -- `BatterySource::probe`
  unfoldable pub probe :
      Source h.Device → Outside M → Scene → Surroundings → Source h.Device × Outside M × Answer
  unfolding probe_with
  probe source outside scene o = probe_with source.backend source outside scene o

  abbrev pub once_with :
      Backend
      → Source h.Device
      → Surroundings
      → Reader h.Device × Outside M × List Headset
      → Source h.Device × Outside M × Answer
  unfolding control_probe
  once_with native source o (reader, outside, headsets) =
      (record source { reader = reader }, outside, ok headsets)
  once_with headset_control source o (reader, outside, headsets) =
      (source, outside, control_probe o source.control)
  once_with auto source o (reader, outside, []) =
      (record source { reader = reader }, outside, control_probe o source.control)
  once_with auto source o (reader, outside, headset ∷ headsets) =
      (record source { reader = reader }, outside, ok (headset ∷ headsets))

  -- A flag that is never raised.
  abbrev pub uninterrupted : Surroundings → Surroundings
  uninterrupted o = record o { stop = λ turn. false }

  unfoldable pub probe_once :
      Source h.Device
      → Outside M
      → (ℕ → Scene)
      → Surroundings
      → Source h.Device × Outside M × Answer
  unfolding read_once once_with control_probe
  probe_once source outside scene o =
      if is_headset_control source.backend
      then (source, outside, control_probe (uninterrupted o) source.control)
      else once_with source.backend source (uninterrupted o)
          (read_once h playback source.reader outside scene)

  unfoldable pub looks_wedged : Source h.Device → Outside M → Outside M × Bool
  unfolding OneShot.looks_wedged
  looks_wedged source outside =
      if is_headset_control source.backend
      then (outside, false)
      else OneShot.looks_wedged h playback source.reader outside
