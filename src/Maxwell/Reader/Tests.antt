-- ===== src/Maxwell/Reader/Tests.antt =====
-- The reader over a dongle that can be opened and one that cannot.
use headset_battery_indicato.Prelude.{
  ℕ, suc, ◌+◌, ◌*◌, ◌≤◌, ◌≡◌, refl, arith, some, Bool, false, Option, none, List, [], ◌∷◌, Text,
  map, text_eq, ◌==◌,
}
use headset_battery_indicato.Prelude.Assoc.{text_key, lookup}
use headset_battery_indicato.Prelude.Outcome.{Result, ok, err}
use headset_battery_indicato.Time.{from_secs}
use headset_battery_indicato.Headset.{unavailable}
use headset_battery_indicato.Maxwell.Session.{Hidraw, Dongle, Session}
use headset_battery_indicato.Maxwell.Access.{outset, cannot_query}
use headset_battery_indicato.Maxwell.Reader.{new_reader, reconcile}
use headset_battery_indicato.Maxwell.Reader.Passes.{Pass, passed}
use headset_battery_indicato.Maxwell.Reader.Pair.{pair-unheard}
use headset_battery_indicato.Maxwell.Reader.Unopened.{unopened-warned}
use headset_battery_indicato.Maxwell.Reader.Mute.{mute-budget}
use headset_battery_indicato.Maxwell.Session.Budget.{Meter}
use headset_battery_indicato.Maxwell.Session.Unheard.{IsMute}
use headset_battery_indicato.Maxwell.Frame.{messages}
use headset_battery_indicato.Maxwell.Reader.Listed.{told, reconcile-unreachable}

abbrev open_first : Text → Result ℕ ℕ
open_first [] = err 13
open_first (c ∷ node) = ok c

abbrev mute : Hidraw
mute = record {
  Device = ℕ;
  IoError = ℕ;
  open_node = open_first;
  opening = λ now node. now + 1;
  get_input = λ device buffer. (device, ok (7 ∷ 0 ∷ 0 ∷ []));
  write = λ device bytes. (device, ok tt);
  is_gone = λ e. false;
  is_denied = λ e. false;
  describe = λ e. [];
}

abbrev no_card : Option Text → ℕ → ℕ × Option Bool
no_card device machine = (machine, none)

abbrev dongles : List Dongle
dongles =
    record { node = b'a' ∷ []; product = []; product_id = 0x4b18; usb_device = none }
    ∷ record { node = []; product = []; product_id = 0x4b19; usb_device = none }
    ∷ []

-- A hidraw whose devices fail every fetch.
abbrev unreadable_devices : Hidraw
unreadable_devices = record mute { get_input = λ device buffer. (device, err 5) }

reconcile-unreachable_example :
    map told
      (reconcile unreadable_devices no_card new_reader
        (outset 0 (λ i. i))
        dongles
        false
        (from_secs 1)
        (from_secs 300)
        (from_secs 3)).2
    ≡ ([], 0x4b18, unavailable, some 0) ∷ ([], 0x4b19, unavailable, some 0) ∷ []
reconcile-unreachable_example =
    reconcile-unreachable unreadable_devices no_card (λ device. tt) new_reader (outset 0 (λ i. i))
      dongles false (from_secs 1) (from_secs 300) (from_secs 3)

abbrev two_passes : List Pass
two_passes =
    record { wired = false; now = 0; interval = from_secs 300; listen_first = from_secs 3 }
    ∷ record {
      wired = false;
      now = from_secs 7;
      interval = from_secs 300;
      listen_first = from_secs 3;
    }
    ∷ []

abbrev seven_apart : ℕ → ℕ
seven_apart i = from_secs (7 * i)

abbrev closed_node : Dongle
closed_node = record { node = []; product = []; product_id = 0x4b19; usb_device = none }

abbrev open_node : Dongle
open_node = record { node = b'a' ∷ []; product = []; product_id = 0x4b18; usb_device = none }

pair-unheard_example :
    (passed mute no_card
      (open_node ∷ closed_node ∷ [])
      new_reader
      (outset 0 seven_apart)
      two_passes).1.lines
    ≡ []
unfolding text_eq
pair-unheard_example =
    pair-unheard mute no_card open_node closed_node new_reader 0 seven_apart two_passes refl refl
      refl

-- Alone, the same dongle is warned of.
unopened-warned_example :
    (passed mute no_card (closed_node ∷ []) new_reader (outset 0 seven_apart) two_passes).1.lines
    ≡ cannot_query (b':' ∷ b' ' ∷ []) ∷ []
unfolding lookup new_reader
unopened-warned_example =
    unopened-warned mute no_card closed_node 13 refl refl new_reader 0 seven_apart
      (record { wired = false; now = 0; interval = from_secs 300; listen_first = from_secs 3 })
      (record {
        wired = false;
        now = from_secs 7;
        interval = from_secs 300;
        listen_first = from_secs 3;
      }
        ∷ [])
      refl

-- A dongle that takes every request, counts them, and says nothing.
abbrev silent_dongle : Hidraw
silent_dongle = record mute {
  is_gone = λ e. e == 19;
  open_node = λ node. ok 0;
  get_input = λ device buffer. (device, ok buffer);
  write = λ device bytes. (suc device, ok tt);
}

abbrev requests : Meter silent_dongle
requests = record {
  written = λ device. device;
  written-get_input = λ device buffer. refl;
  written-write = λ device bytes. refl;
}

silent_dongle-IsMute : IsMute silent_dongle
unfolding messages
silent_dongle-IsMute = record {
  unheard = λ device. refl;
  steady = record { fetches = λ device. tt; writes = λ device. tt };
}

abbrev first_pass : Pass
first_pass = record { wired = false; now = 0; interval = from_secs 1; listen_first = 0 }

abbrev minutes_later : List Pass
minutes_later =
    record { wired = false; now = from_secs 60; interval = from_secs 1; listen_first = 0 }
    ∷ record { wired = false; now = from_secs 1200; interval = from_secs 1; listen_first = 0 }
    ∷ []

mute-budget_example :
    (s : Session ℕ) × (lookup closed_node.node
        (passed silent_dongle no_card
          (closed_node ∷ [])
          new_reader
          (outset 0 seven_apart)
          (first_pass ∷ minutes_later)).0.sessions
      ≡ some s)
    × (s.device ≤ 5)
unfolding lookup new_reader
mute-budget_example =
    mute-budget silent_dongle requests no_card closed_node silent_dongle-IsMute 0 new_reader
      (outset 0 seven_apart) first_pass minutes_later refl refl (omega arith) (omega arith)
