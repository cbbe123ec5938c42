-- ===== src/Maxwell/Wedge/Trees.antt =====
-- A dongle whose card plays, as sysfs and /proc/asound have it, and how long is said.
use headset_battery_indicato.Prelude.{
  ◌+◌, ◌≤◌, ◌<◌, ◌≡◌, refl, true, false, none, some, [], ◌∷◌, codes, text_eq, starts_with,
  ends_with, lines, trim, is_whitespace,
}
use headset_battery_indicato.Time.{from_secs}
use headset_battery_indicato.Files.{Files}
use headset_battery_indicato.Maxwell.Wedge.{
  watch_from, check, wedge_silence, silence, look, fresh_look, verdict, heard,
}
use headset_battery_indicato.Maxwell.Wedge.Evidence.{playback_running, sound_card}
use headset_battery_indicato.Maxwell.Wedge.Evidence.Playing.{Playing}
use headset_battery_indicato.Maxwell.Wedge.Human.{human, human-close, spoken, as_secs, grain}
use headset_battery_indicato.Maxwell.Wedge.Suspicion.{look_at, passes, SeenPlaying, passes-warning}

-- Each directory lists the same names; the status of a PCM is that of a running one.
abbrev playing : Files
playing = record {
  read_dir = λ path. some (none ∷ some (codes "card2") ∷ some (codes "pcm0p") ∷ []);
  read_to_string = λ path. some (codes "state: RUNNING\nowner_pid: 7\n");
  canonicalize = λ path. some path;
  is_file = λ path. true;
  join = λ path name. name;
  file_name = λ path. some path;
  parent = λ path. some path;
}

card_found : sound_card playing (codes "1-5") ≡ some (codes "card2")
unfolding sound_card
card_found = refl

it_plays : playback_running playing (codes "/proc/asound") (codes "1-5") ≡ some true
unfolding playback_running sound_card is_whitespace trim text_eq lines starts_with ends_with
it_plays = refl

warned :
    (check
      (look_at (λ now. playing) (codes "/proc/asound") (codes "1-5"))
      (passes
        (λ now. playing)
        (codes "/proc/asound")
        (codes "1-5")
        (watch_from 0)
        ((from_secs 2, true) ∷ (from_secs 500, false) ∷ []))
      (from_secs 700)
      (from_secs 700)).2
    ≡ some (from_secs 698)
unfolding check passes silence look fresh_look verdict heard watch_from playback_running sound_card
    is_whitespace trim text_eq lines starts_with ends_with
warned = refl

passes-warning_example :
    (wedge_silence ≤ from_secs 698)
    × SeenPlaying (λ now. playing) (codes "/proc/asound") (codes "1-5") (from_secs 700)
passes-warning_example =
    passes-warning (λ now. playing) (codes "/proc/asound") (codes "1-5") 0
      ((from_secs 2, true) ∷ (from_secs 500, false) ∷ []) (from_secs 700) (from_secs 698) warned

three_hours : human (from_secs 11_549) ≡ codes "3h 12min"
unfolding human
three_hours = refl

two_days : human (from_secs 187_500) ≡ codes "2d 4h"
unfolding human
two_days = refl

human-close_example :
    (spoken 0 (human (from_secs 11_549)) ≤ as_secs (from_secs 11_549))
    × (as_secs (from_secs 11_549)
        < spoken 0 (human (from_secs 11_549)) + grain (as_secs (from_secs 11_549)))
human-close_example = human-close (from_secs 11_549)
