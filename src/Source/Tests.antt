-- ===== src/Source/Tests.antt =====
-- A dongle that leaves after the first probe, and HeadsetControl missing.
use headset_battery_indicato.Prelude.{
  ℕ, zero, suc, ◌+◌, ◌*◌, refl, Bool, true, false, Option, none, some, [], ◌∷◌, arith, Text,
}
use headset_battery_indicato.Prelude.Outcome.{ok}
use headset_battery_indicato.Time.{Instant, from_secs, from_millis}
use headset_battery_indicato.HeadsetControl.Process.{System, Ticks}
use headset_battery_indicato.Maxwell.Session.{Hidraw, Dongle}
use headset_battery_indicato.Maxwell.Access.{outset}
use headset_battery_indicato.Maxwell.Reader.OneShot.{Scene}
use headset_battery_indicato.Source.{Source, auto, new_source, Surroundings, probe}
use headset_battery_indicato.Source.Gap.{IsNative, IsGap, after, after-IsNative}

abbrev mute : Hidraw
mute = record {
  Device = ℕ;
  IoError = ℕ;
  open_node = λ node. ok 3;
  opening = λ now node. now + 1;
  get_input = λ device buffer. (device, ok (7 ∷ 0 ∷ 0 ∷ []));
  write = λ device bytes. (device, ok tt);
  is_gone = λ e. false;
  is_denied = λ e. false;
  describe = λ e. [];
}

abbrev no_card : Option Text → ℕ → ℕ × Option Bool
no_card device machine = (machine, none)

abbrev uninstalled : System
uninstalled = record {
  Child = ℕ;
  spawn = λ binary args. none;
  try_wait = λ child. (child, some true);
  kill = λ child. child;
  written = λ child. ([], []);
}

abbrev ticking : ℕ → Instant
ticking i = i * from_millis 25

ticking-Ticks : Ticks ticking 0
ticking-Ticks = record { begun = omega arith; ticks = λ j. omega arith }

abbrev around : ℕ → Surroundings
around n = record {
  system = uninstalled;
  stop = λ i. false;
  clock = ticking;
  started = 0;
  ticks = ticking-Ticks;
  decode = λ json. none;
}

abbrev plugged_in : Dongle
plugged_in = record { node = b'a' ∷ []; product = []; product_id = 0x4b18; usb_device = none }

abbrev scenes : ℕ → Scene
scenes zero = record {
  dongles = plugged_in ∷ [];
  wired = false;
  now = from_secs 1;
  answered = from_secs 2;
}
scenes (suc n) = record { dongles = []; wired = false; now = from_secs 3; answered = from_secs 4 }

gap : IsGap mute no_card scenes around 5
gap = record { absent = λ n l. refl; soon = λ n l. omega arith }

abbrev fresh_source : Source ℕ
unfolding new_source
fresh_source = new_source auto (record { binary = []; timeout = from_secs 10 }) (from_secs 300)

after-IsNative_example :
    IsNative
      (probe mute no_card
        (after mute no_card scenes around 3 fresh_source (outset 0 (λ i. i))).0
        (after mute no_card scenes around 3 fresh_source (outset 0 (λ i. i))).1
        (scenes 3)
        (around 3))
      []
unfolding fresh_source
after-IsNative_example =
    after-IsNative mute no_card scenes around fresh_source (outset 0 (λ i. i)) plugged_in [] refl
      refl 5 gap 2 (omega arith)
